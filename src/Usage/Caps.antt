-- ===== src/Usage/Caps.antt =====
-- The three checks of usage_limits.go, by the caps that are set.
use agentic.Prelude.{
  ℕ, ◌+◌, ◌^◌, ◌≤◌, ◌<◌, ◌≡◌, ◌↔◌, ◌⊎◌, inl, inr, Option, none, some, Option-cases, arith,
}
use agentic.Usage.{Usage}
use agentic.Usage.Limits.{
  UsageLimits, check_before_request, check_after_response, check_before_tool_calls,
}

-- A count is within a cap that is set.
abbrev pub Within : ℕ → Option ℕ → Type 0
Within current none = Unit {0}
Within current (some max) = current ≤ max

-- There is room for one more.
abbrev pub Below : ℕ → Option ℕ → Type 0
Below current none = Unit {0}
Below current (some max) = current < max

-- The check before a request passes exactly when one more request is allowed and the input and
-- total tokens are within their caps.
pub check_before_request_iff :
    (l : UsageLimits) (u : Usage)
    → (check_before_request l u ≡ none) ↔ (
        Below u.requests l.max_requests
        × Within u.prompt_tokens l.max_request_tokens
        × Within u.total_tokens l.max_total_tokens)
unfolding check_before_request
check_before_request_iff l u = (λ h. ground arith, λ h. ground arith)

-- The check after a response passes exactly when input, output and total tokens are within caps.
pub check_after_response_iff :
    (l : UsageLimits) (u : Usage)
    → (check_after_response l u ≡ none) ↔ (
        Within u.prompt_tokens l.max_request_tokens
        × Within u.completion_tokens l.max_response_tokens
        × Within u.total_tokens l.max_total_tokens)
unfolding check_after_response
check_after_response_iff l u = (λ h. ground arith, λ h. ground arith)

-- Of counts below 2 ^ 63, the check before tool calls passes exactly when the calls that are
-- pending fit under the cap, or when their sum with the calls made is past the greatest int.
pub check_before_tool_calls_iff :
    (l : UsageLimits) (current pending : ℕ)
    → current < 2 ^ 63
    → pending < 2 ^ 63
    → (check_before_tool_calls l current pending ≡ none)
      ↔ (Within (current + pending) l.max_tool_calls ⊎ (2 ^ 63 ≤ current + pending))
unfolding check_before_tool_calls
check_before_tool_calls_iff l current pending c p = elim (Option-cases l.max_tool_calls) [
  | inl unset ↦ rw (unset, check_before_tool_calls) (λ h. inl tt, λ h. ground arith)
  | inr (max, set) ↦ rw (set, check_before_tool_calls) (λ h. ground arith, λ h. ground arith)
]
