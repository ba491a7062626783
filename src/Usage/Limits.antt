-- ===== src/Usage/Limits.antt =====
-- usage_limits.go: the caps of a run and the three checks. A nil pointer is `none`. Caps and counts
-- are not negative and below 2 ^ 63; a sum of two counts wraps as Go's int does on 64 bits.
use agentic.Prelude.{
  ℕ, ◌+◌, ◌%◌, ◌^◌, ◌&&◌, String, Bool, false, Option, none, some, ltb, leb, if◌then◌else◌,
}
use agentic.Usage.{Usage}

pub record UsageLimits : Type 0 where
  pub max_request_tokens : Option ℕ
  pub max_response_tokens : Option ℕ
  pub max_total_tokens : Option ℕ
  pub max_requests : Option ℕ
  pub max_tool_calls : Option ℕ

abbrev pub default_usage_limits : UsageLimits
default_usage_limits = record {
  max_request_tokens = none;
  max_response_tokens = none;
  max_total_tokens = none;
  max_requests = some 50;
  max_tool_calls = none;
}

pub record UsageLimitExceeded : Type 0 where
  pub limit_name : String
  pub current : ℕ
  pub max : ℕ

-- `l.MaxX != nil && current > *l.MaxX`.
abbrev pub over : ℕ → Option ℕ → Bool
over current none = false
over current (some max) = ltb max current

-- `l.MaxX != nil && current >= *l.MaxX`.
abbrev pub reached : ℕ → Option ℕ → Bool
reached current none = false
reached current (some max) = leb max current

abbrev pub cap_of : Option ℕ → ℕ
cap_of none = 0
cap_of (some max) = max

abbrev pub exceeded : String → ℕ → Option ℕ → Option UsageLimitExceeded
exceeded name current cap = some (record { limit_name = name; current = current; max = cap_of cap })

unfoldable pub check_before_request : UsageLimits → Usage → Option UsageLimitExceeded
check_before_request l usage =
    if reached usage.requests l.max_requests
    then exceeded "requests" usage.requests l.max_requests
    else if over usage.prompt_tokens l.max_request_tokens
    then exceeded "request_tokens" usage.prompt_tokens l.max_request_tokens
    else if over usage.total_tokens l.max_total_tokens
    then exceeded "total_tokens" usage.total_tokens l.max_total_tokens
    else none

unfoldable pub check_after_response : UsageLimits → Usage → Option UsageLimitExceeded
check_after_response l usage =
    if over usage.prompt_tokens l.max_request_tokens
    then exceeded "request_tokens" usage.prompt_tokens l.max_request_tokens
    else if over usage.completion_tokens l.max_response_tokens
    then exceeded "response_tokens" usage.completion_tokens l.max_response_tokens
    else if over usage.total_tokens l.max_total_tokens
    then exceeded "total_tokens" usage.total_tokens l.max_total_tokens
    else none

-- The bits of a sum of two ints.
abbrev pub int_sum : ℕ → ℕ → ℕ
int_sum a b = (a + b) % 2 ^ 64

-- `projected > max` of an int given by its bits, against a cap that is not negative.
abbrev pub int_over : ℕ → Option ℕ → Bool
int_over bits cap = ltb bits (2 ^ 63) && over bits cap

unfoldable pub check_before_tool_calls : UsageLimits → ℕ → ℕ → Option UsageLimitExceeded
check_before_tool_calls l current_tool_calls pending_calls =
    if int_over (int_sum current_tool_calls pending_calls) l.max_tool_calls
    then exceeded "tool_calls" (int_sum current_tool_calls pending_calls) l.max_tool_calls
    else none
