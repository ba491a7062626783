-- ===== src/Transcript/Places.antt =====
-- The scan of transcript.go names a message's place in its errors alone.
use agentic.Prelude.{
  ℕ, suc, ◌≡◌, refl, inl, inr, String, List, [], ◌∷◌, none, ok, >>=-eq-ok, Option-cases, arith,
}
use agentic.Message.{Message, MessageRole, ToolUse, ToolResult}
use agentic.Message.Parts.{get_tool_uses, get_tool_results}
use agentic.Transcript.{Scan, check_ids, open_frontier, take_results, inspect_message, inspect_loop}

-- The index is only named by the check's error.
pub check_ids-anywhere :
    (i j : ℕ) (seen : List String) (calls : List ToolUse)
    → check_ids i seen calls ≡ none
    → check_ids j seen calls ≡ none
unfolding check_ids
check_ids-anywhere i j seen [] h = refl
check_ids-anywhere i j seen (call ∷ calls) h =
    ground (arith, check_ids-anywhere i j (call.id ∷ seen) calls)

open_frontier-anywhere :
    (i j : ℕ) (role : MessageRole) (calls : List ToolUse) (s : Scan) {t : Scan}
    → open_frontier i role calls s ≡ ok t
    → open_frontier j role calls s ≡ ok t
unfolding open_frontier
open_frontier-anywhere i j role [] s h = h
open_frontier-anywhere i j role (call ∷ calls) s h =
    elim (Option-cases (check_ids i [] (call ∷ calls))) [
      | inl e ↦ ground (arith, check_ids-anywhere i j [] (call ∷ calls) e)
      | inr (f, e) ↦ absurd (ground arith)
    ]

take_results-anywhere :
    (i j : ℕ) (role : MessageRole) (uses : List ToolUse) (results : List ToolResult) (s : Scan)
    {t : Scan}
    → take_results i role uses results s ≡ ok t
    → take_results j role uses results s ≡ ok t
unfolding take_results
take_results-anywhere i j role uses [] s h = ground arith
take_results-anywhere i j role uses (r ∷ results) s h = ground arith

pub inspect_message-anywhere :
    (i j : ℕ) (m : Message) (s : Scan) {t : Scan}
    → inspect_message i s m ≡ ok t
    → inspect_message j s m ≡ ok t
unfolding inspect_message
inspect_message-anywhere i j m s h =
    let (u, one, two) =
      >>=-eq-ok (open_frontier i m.role (get_tool_uses m) s)
        (take_results i m.role (get_tool_uses m) (get_tool_results m)) h in
    rw (open_frontier-anywhere i j m.role (get_tool_uses m) s one)
      (take_results-anywhere i j m.role (get_tool_uses m) (get_tool_results m) u two)

-- A scan that succeeds succeeds with the same result from any place.
pub inspect_loop-anywhere :
    (i j : ℕ) (s : Scan) (ms : List Message) {t : Scan}
    → inspect_loop i s ms ≡ ok t
    → inspect_loop j s ms ≡ ok t
unfolding inspect_loop
inspect_loop-anywhere i j s [] h = h
inspect_loop-anywhere i j s (m ∷ ms) h =
    let (u, one, rest) = >>=-eq-ok (inspect_message i s m) (λ x. inspect_loop (suc i) x ms) h in
    rw (inspect_message-anywhere i j m s one) (inspect_loop-anywhere (suc i) (suc j) u ms rest)
