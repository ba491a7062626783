-- ===== src/Repair/Final/Agrees.antt =====
-- `rawFinalFrontier` of harness/repair/repair.go reads accepted transcripts as transcript.go does.
use agentic.Prelude.{
  ℕ, zero, suc, ◌≡◌, refl, inl, inr, String, List, [], ◌∷◌, none, true, ok, >>=-eq-ok, Option-cases,
  Result-cases, arith,
}
use agentic.Message.{Message, MessageRole, ToolUse, ToolResult}
use agentic.Message.Parts.{get_tool_uses, get_tool_results}
use agentic.Transcript.{
  Scan, start, check_ids, find_call, resolve_one, resolve_all, open_frontier, take_results,
  inspect_message, inspect_loop, unresolved_calls,
}
use agentic.Repair.Final.{
  bad_id, raw_open, raw_answer, raw_answers, raw_close, raw_message, raw_loop, raw_final_frontier,
  pending_of_call, pending_from_final_frontier, inspect_frontier,
}
use agentic.Prelude.{List, Result, All, map, eq_refl}
use agentic.Faults.{Fault}
use agentic.Repair.{same_pending}
use agentic.Repair.Steps.{HoldsResult}
use agentic.Repair.Same.{process-deferred}

bad_id-fresh :
    (i : ℕ) (seen : List String) (calls : List ToolUse)
    → check_ids i seen calls ≡ none
    → bad_id seen calls ≡ none
unfolding check_ids bad_id
bad_id-fresh i seen [] h = refl
bad_id-fresh i seen (call ∷ calls) h = ground (arith, bad_id-fresh i (call.id ∷ seen) calls)

raw_open-accepted :
    (i : ℕ) (role : MessageRole) (calls : List ToolUse) (s : Scan) {t : Scan}
    → open_frontier i role calls s ≡ ok t
    → raw_open i calls s ≡ ok t
unfolding open_frontier raw_open
raw_open-accepted i role [] s h = ground arith
raw_open-accepted i role (call ∷ calls) s h = elim (Option-cases (check_ids i [] (call ∷ calls))) [
  | inl e ↦ rw (bad_id-fresh i [] (call ∷ calls) e) (ground arith)
  | inr (f, e) ↦ absurd (ground arith)
]

raw_answer-accepted :
    (frontier : List ToolUse) (resolved : List String) (r : ToolResult) {more : List String}
    → resolve_one frontier resolved r ≡ ok more
    → raw_answer frontier resolved r ≡ ok more
unfolding resolve_one raw_answer
raw_answer-accepted frontier resolved r h = elim (Option-cases (find_call r.tool_use_id frontier)) [
  | inl e ↦ absurd (ground arith)
  | inr (call, e) ↦ ground arith
]

raw_answers-accepted :
    (frontier : List ToolUse) (resolved : List String) (results : List ToolResult)
    {more : List String}
    → resolve_all frontier resolved results ≡ ok more
    → raw_answers frontier resolved results ≡ ok more
unfolding resolve_all raw_answers
raw_answers-accepted frontier resolved [] h = ground arith
raw_answers-accepted frontier resolved (r ∷ results) h =
    let (next, e, rest) =
      >>=-eq-ok (resolve_one frontier resolved r) (λ m. resolve_all frontier m results) h in
    rw (raw_answer-accepted frontier resolved r e) (raw_answers-accepted frontier next results rest)

raw_close-accepted :
    (i : ℕ) (role : MessageRole) (uses : List ToolUse) (results : List ToolResult) (s : Scan)
    {t : Scan}
    → take_results i role uses results s ≡ ok t
    → raw_close results s ≡ ok t
unfolding take_results raw_close
raw_close-accepted i role uses [] s h = ground arith
raw_close-accepted i role uses (r ∷ results) s h =
    elim (Result-cases (resolve_all s.frontier s.resolved (r ∷ results))) [
      | inl (more, e) ↦
          rw (raw_answers-accepted s.frontier s.resolved (r ∷ results) e) (ground arith)
      | inr (f, e) ↦ absurd (ground arith)
    ]

raw_loop-accepted :
    (i : ℕ) (s : Scan) (ms : List Message) {t : Scan}
    → inspect_loop i s ms ≡ ok t
    → raw_loop i s ms ≡ ok t
unfolding inspect_loop inspect_message raw_loop raw_message
raw_loop-accepted i s [] h = ground arith
raw_loop-accepted i s (m ∷ ms) h =
    let (next, e, rest) = >>=-eq-ok (inspect_message i s m) (λ x. inspect_loop (suc i) x ms) h in
    let (opened, f, g) =
      >>=-eq-ok (open_frontier i m.role (get_tool_uses m) s)
        (take_results i m.role (get_tool_uses m) (get_tool_results m)) e in
    rw
      (
        raw_open-accepted i m.role (get_tool_uses m) s f,
        raw_close-accepted i m.role (get_tool_uses m) (get_tool_results m) opened g,
      )
      (raw_loop-accepted (suc i) next ms rest)

-- `rawFinalFrontier` returns the calls that the check's scan leaves without a result.
raw_final_frontier-accepted :
    (ms : List Message) {s : Scan}
    → inspect_loop zero start ms ≡ ok s
    → raw_final_frontier ms ≡ ok (unresolved_calls s.resolved s.frontier)
unfolding raw_final_frontier
raw_final_frontier-accepted ms h = rw (raw_loop-accepted zero start ms h) refl

same_pending-pending_of_call :
    (calls : List ToolUse) → same_pending calls (map pending_of_call calls) ≡ true
unfolding same_pending
same_pending-pending_of_call [] = refl
same_pending-pending_of_call (call ∷ calls) =
    ground (arith, eq_refl call.id, eq_refl call.name, same_pending-pending_of_call calls)

-- Of a transcript that the check accepts and whose tool messages hold results, if the clone is
-- faithful, `InspectFrontier` returns exactly the calls that the check's scan leaves open.
pub inspect_frontier-accepted :
    (clone : List Message → Result Fault (List Message)) (ms : List Message) {s : Scan}
    → clone ms ≡ ok ms
    → All HoldsResult ms
    → inspect_loop zero start ms ≡ ok s
    → inspect_frontier clone ms ≡ ok (unresolved_calls s.resolved s.frontier)
unfolding inspect_frontier pending_from_final_frontier
inspect_frontier-accepted clone ms {s} copied holds h =
    let raw = raw_final_frontier-accepted ms h in
    let (out, e) =
      process-deferred clone ms (pending_from_final_frontier ms) copied holds h
        (rw raw (same_pending-pending_of_call (unresolved_calls s.resolved s.frontier))) in
    rw e raw
