-- ===== src/Usage.antt =====
-- Token accounting: `Usage`, `RequestUsage` and `Usage.Add` of internal/core/request.go.
-- A count is a natural number: providers report no negative counts, and sums stay far below 2^63.
pub mod Limits
pub mod Accounts
pub mod Caps
use agentic.Prelude.{ℕ, ◌+◌, List, [], ◌∷◌, ◌++◌}

pub record RequestUsage : Type 0 where
  pub prompt_tokens : ℕ
  pub completion_tokens : ℕ
  pub total_tokens : ℕ
  pub cache_read_tokens : ℕ
  pub cache_creation_tokens : ℕ
  pub reasoning_tokens : ℕ

pub record Usage : Type 0 where
  pub prompt_tokens : ℕ
  pub completion_tokens : ℕ
  pub total_tokens : ℕ
  pub cache_read_tokens : ℕ
  pub cache_creation_tokens : ℕ
  pub reasoning_tokens : ℕ
  pub requests : ℕ
  pub tool_calls : ℕ
  pub request_usages : List RequestUsage

abbrev pub no_usage : Usage
no_usage = record {
  prompt_tokens = 0;
  completion_tokens = 0;
  total_tokens = 0;
  cache_read_tokens = 0;
  cache_creation_tokens = 0;
  reasoning_tokens = 0;
  requests = 0;
  tool_calls = 0;
  request_usages = [];
}

abbrev pub request_usage : Usage → RequestUsage
request_usage other = record {
  prompt_tokens = other.prompt_tokens;
  completion_tokens = other.completion_tokens;
  total_tokens = other.total_tokens;
  cache_read_tokens = other.cache_read_tokens;
  cache_creation_tokens = other.cache_creation_tokens;
  reasoning_tokens = other.reasoning_tokens;
}

-- `u.Add(other)`.
unfoldable pub add : Usage → Usage → Usage
add u other = record u {
  prompt_tokens = u.prompt_tokens + other.prompt_tokens;
  completion_tokens = u.completion_tokens + other.completion_tokens;
  total_tokens = u.total_tokens + other.total_tokens;
  cache_read_tokens = u.cache_read_tokens + other.cache_read_tokens;
  cache_creation_tokens = u.cache_creation_tokens + other.cache_creation_tokens;
  reasoning_tokens = u.reasoning_tokens + other.reasoning_tokens;
  request_usages = u.request_usages ++ request_usage other ∷ [];
  requests = u.requests + 1;
}
