-- ===== src/Repair/Shows.antt =====
-- What `Process` of harness/repair/repair.go returns passes `inspectTranscript` of transcript.go.
use agentic.Prelude.{
  take_of_length, ℕ, zero, suc, ◌≡◌, refl, sym, ap, inl, inr, subst, List, [], ◌∷◌, take, some,
  Result, ok, >>=-eq-ok, Bool-cases, Option-cases, is_empty, arith,
}
use agentic.Message.{Message, ToolUse, ToolResult}
use agentic.Message.Parts.{get_tool_uses, get_tool_results}
use agentic.Faults.{Fault}
use agentic.Transcript.{inspect_loop, inspect_transcript}
use agentic.Transcript.Admits.{Shut, inspect_transcript_of_Shut}
use agentic.Repair.{
  clone_messages, FrontierMode, PendingCalls, Frontier, Projection, nothing_read,
  is_preserve_deferred, close_open, process_as, process_loop, end_of_input, of_clone, process,
}
use agentic.Repair.Frontiers.{IsOpen, IsProjection, close_open-Shut}
use agentic.Repair.Answers.{
  IsSound, start_frontier-IsSound, pass_message-IsSound, answer_frontier-IsSound,
}

process_as-IsSound :
    (uses : List ToolUse) (results : List ToolResult) (i : ℕ) (mode : FrontierMode)
    (pending : PendingCalls) (m : Message) (work : Projection) {next : Projection}
    → get_tool_uses m ≡ uses
    → get_tool_results m ≡ results
    → process_as uses results i mode pending m work ≡ ok next
    → IsSound work
    → IsSound next
unfolding process_as
process_as-IsSound (call ∷ calls) results i mode pending m work u r h v =
    start_frontier-IsSound i mode pending m work (ap is_empty u) h v
process_as-IsSound [] (result ∷ results) i mode pending m work u r h v =
    answer_frontier-IsSound i m work u h v
process_as-IsSound [] [] i mode pending m work u r h v =
    pass_message-IsSound i mode pending m work u r h v

process_loop-IsSound :
    (i : ℕ) (mode : FrontierMode) (pending : PendingCalls) (work : Projection) (ms : List Message)
    {last : Projection}
    → process_loop i mode pending work ms ≡ ok last
    → IsSound work
    → IsSound last
unfolding process_loop
process_loop-IsSound i mode pending work [] {last} h v =
    let same : work ≡ last = ground arith in subst IsSound same v
process_loop-IsSound i mode pending work (m ∷ ms) h v =
    let (next, e, rest) =
      >>=-eq-ok (process_as (get_tool_uses m) (get_tool_results m) i mode pending m work) _ h in
    process_loop-IsSound (suc i) mode pending next ms rest (
      process_as-IsSound (get_tool_uses m) (get_tool_results m) i mode pending m work refl refl e v)

take-IsOpen :
    (output : List Message) (f : Frontier) → IsOpen output f → Shut (take f.output_index output)
take-IsOpen output f v =
    subst Shut (sym (rw (v.split, sym (v.index)) (take_of_length v.before v.behind))) v.shut

end_of_input-open :
    (mode : FrontierMode) (pending : PendingCalls) (work : Projection) (f : Frontier)
    {out : List Message}
    → end_of_input mode pending work ≡ ok out
    → work.open_frontier ≡ some f
    → IsOpen work.output f
    → Shut out
unfolding end_of_input
end_of_input-open mode pending work f {out} h e v = elim (Bool-cases (is_preserve_deferred mode)) [
  | inl deferred ↦
      let same : take f.output_index work.output ≡ out = ground arith in
      subst Shut same (take-IsOpen work.output f v)
  | inr interrupted ↦
      let same : (close_open pending f work).output ≡ out = ground arith in
      subst Shut same (close_open-Shut pending f work v)
]

end_of_input-Shut :
    (mode : FrontierMode) (pending : PendingCalls) (work : Projection) {out : List Message}
    → end_of_input mode pending work ≡ ok out
    → IsSound work
    → Shut out
unfolding end_of_input
end_of_input-Shut mode pending work {out} h v = elim (Option-cases work.open_frontier) [
  | inl e ↦
      let same : work.output ≡ out = ground arith in
      subst Shut same (subst (IsProjection work.output) e v)
  | inr (f, e) ↦ end_of_input-open mode pending work f h e (subst (IsProjection work.output) e v)
]

pub process-admitted :
    (clone : List Message → Result Fault (List Message)) (ms : List Message) (mode : FrontierMode)
    (pending : PendingCalls) {out : List Message}
    → process clone ms mode pending ≡ ok out
    → inspect_transcript out ≡ ok []
unfolding process inspect_loop
process-admitted clone ms mode pending {out} h =
    let (input, e, run) = >>=-eq-ok (of_clone (clone_messages clone ms)) _ h in
    let (work, f, ended) = >>=-eq-ok (process_loop zero mode pending nothing_read input) _ run in
    inspect_transcript_of_Shut out (
      end_of_input-Shut mode pending work ended
        (process_loop-IsSound zero mode pending nothing_read input f refl))
