-- ===== src/Usage/Accounts.antt =====
-- The totals of `Usage` of internal/core/request.go, by its per-request entries.
use agentic.Prelude.{ℕ, ◌+◌, ◌≡◌, refl, List, [], ◌∷◌, ◌++◌, length, length-append, arith}
use agentic.Usage.{RequestUsage, Usage, no_usage, request_usage, add}

-- The sum of one field over the requests.
pub sum_of : (RequestUsage → ℕ) → List RequestUsage → ℕ
sum_of field_ [] = 0
sum_of field_ (r ∷ rs) = field_ r + sum_of field_ rs

sum_of-append :
    (field_ : RequestUsage → ℕ) (xs ys : List RequestUsage)
    → sum_of field_ (xs ++ ys) ≡ sum_of field_ xs + sum_of field_ ys
unfolding sum_of
sum_of-append field_ [] ys = omega arith
sum_of-append field_ (x ∷ xs) ys = omega (arith, sum_of-append field_ xs ys)

pub record IsAccounted (u : Usage) : Type 0 where
  pub prompts : u.prompt_tokens ≡ sum_of (λ r. r.prompt_tokens) u.request_usages
  pub completions : u.completion_tokens ≡ sum_of (λ r. r.completion_tokens) u.request_usages
  pub totals : u.total_tokens ≡ sum_of (λ r. r.total_tokens) u.request_usages
  pub cache_reads : u.cache_read_tokens ≡ sum_of (λ r. r.cache_read_tokens) u.request_usages
  pub cache_writes :
      u.cache_creation_tokens ≡ sum_of (λ r. r.cache_creation_tokens) u.request_usages
  pub reasoning : u.reasoning_tokens ≡ sum_of (λ r. r.reasoning_tokens) u.request_usages
  pub counted : u.requests ≡ length u.request_usages

pub no_usage-IsAccounted : IsAccounted no_usage
unfolding sum_of
no_usage-IsAccounted = record {
  prompts = refl;
  completions = refl;
  totals = refl;
  cache_reads = refl;
  cache_writes = refl;
  reasoning = refl;
  counted = refl;
}

sum_of-add :
    (field_ : RequestUsage → ℕ) (u other : Usage)
    → sum_of field_ (add u other).request_usages
      ≡ sum_of field_ u.request_usages + field_ (request_usage other)
unfolding add sum_of
sum_of-add field_ u other =
    omega (arith, sum_of-append field_ u.request_usages (request_usage other ∷ []))

-- Adding a response keeps every total equal to the sum of its per-request entries, and the request
-- counter equal to their number.
pub add-IsAccounted : (u other : Usage) → IsAccounted u → IsAccounted (add u other)
unfolding add
add-IsAccounted u other v = record {
  prompts = omega (arith, sum_of-add (λ r. r.prompt_tokens) u other);
  completions = omega (arith, sum_of-add (λ r. r.completion_tokens) u other);
  totals = omega (arith, sum_of-add (λ r. r.total_tokens) u other);
  cache_reads = omega (arith, sum_of-add (λ r. r.cache_read_tokens) u other);
  cache_writes = omega (arith, sum_of-add (λ r. r.cache_creation_tokens) u other);
  reasoning = omega (arith, sum_of-add (λ r. r.reasoning_tokens) u other);
  counted = omega (arith, length-append u.request_usages (request_usage other ∷ []));
}
