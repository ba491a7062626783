-- ===== src/Repair/Final.antt =====
-- `InspectFrontier` of harness/repair/repair.go: the calls that a transcript leaves open.
pub mod Agrees
use agentic.Prelude.{
  ℕ, zero, suc, String, List, [], ◌∷◌, Option, none, some, Bool, true, false, not, ◌&&◌, ◌||◌, ◌==◌,
  Result, ok, err, ◌>>=◌, contains, is_empty, if◌then◌else◌, map,
}
use agentic.Message.{Message, ToolUse, ToolResult}
use agentic.Message.Parts.{get_tool_uses, get_tool_results}
use agentic.Faults.{Fault}
use agentic.Transcript.{Scan, start, find_call, names_other, settle, unresolved_calls}
use agentic.Repair.{
  FrontierMode, preserve_deferred_frontier, PendingCall, PendingCalls, pending_unknown, RepairError,
  process,
}

-- The errors of `rawFinalFrontier`, apart from those of `Process`.
pub data FinalError : Type 0 where
  starts_before_resolved : ℕ → FinalError
  bad_call_id answered_twice answer_names_other : String → FinalError
  of_process : RepairError → FinalError

-- The loop over a new frontier's calls: the ID that is empty or a duplicate.
unfoldable pub bad_id : List String → List ToolUse → Option String
bad_id seen [] = none
bad_id seen (call ∷ calls) =
    let rest = bad_id (call.id ∷ seen) calls in
    if call.id == "" || contains call.id seen then some call.id else rest

unfoldable pub raw_open : ℕ → List ToolUse → Scan → Result FinalError Scan
raw_open i [] scan = ok scan
raw_open i (call ∷ calls) scan =
    if not (is_empty scan.frontier)
    then err (starts_before_resolved i)
    else elim (bad_id [] (call ∷ calls)) [
      | some id ↦ err (bad_call_id id)
      | none ↦ ok (record { frontier = call ∷ calls; resolved = [] })
    ]

unfoldable pub raw_answer :
    List ToolUse → List String → ToolResult → Result FinalError (List String)
raw_answer frontier resolved result = elim (find_call result.tool_use_id frontier) [
  | none ↦ ok resolved
  | some call ↦
      if contains result.tool_use_id resolved
      then err (answered_twice result.tool_use_id)
      else if names_other result call
      then err (answer_names_other result.tool_use_id)
      else ok (result.tool_use_id ∷ resolved)
]

unfoldable pub raw_answers :
    List ToolUse → List String → List ToolResult → Result FinalError (List String)
raw_answers frontier resolved [] = ok resolved
raw_answers frontier resolved (result ∷ results) =
    raw_answer frontier resolved result >>= λ more. raw_answers frontier more results

unfoldable pub raw_close : List ToolResult → Scan → Result FinalError Scan
raw_close [] scan = ok scan
raw_close (result ∷ results) scan =
    if is_empty scan.frontier
    then ok scan
    else (raw_answers scan.frontier scan.resolved (result ∷ results) >>= λ resolved.
        ok (settle scan.frontier resolved))

unfoldable pub raw_message : ℕ → Scan → Message → Result FinalError Scan
raw_message i scan message =
    raw_open i (get_tool_uses message) scan >>= raw_close (get_tool_results message)

unfoldable pub raw_loop : ℕ → Scan → List Message → Result FinalError Scan
raw_loop i scan [] = ok scan
raw_loop i scan (message ∷ messages) =
    raw_message i scan message >>= λ next. raw_loop (suc i) next messages

unfoldable pub raw_final_frontier : List Message → Result FinalError (List ToolUse)
raw_final_frontier messages =
    raw_loop zero start messages >>= λ scan. ok (unresolved_calls scan.resolved scan.frontier)

abbrev pub pending_of_call : ToolUse → PendingCall
pending_of_call call = record { id = call.id; name = call.name; state = pending_unknown }

-- An error leaves no calls.
abbrev pub calls_or_none : Result FinalError (List ToolUse) → List ToolUse
calls_or_none (err e) = []
calls_or_none (ok calls) = calls

unfoldable pub pending_from_final_frontier : List Message → PendingCalls
pending_from_final_frontier messages = record {
  calls = map pending_of_call (calls_or_none (raw_final_frontier messages));
  reason = "";
}

abbrev pub of_processed : Result RepairError (List Message) → Result FinalError (List Message)
of_processed (err e) = err (of_process e)
of_processed (ok messages) = ok messages

unfoldable pub inspect_frontier :
    (List Message → Result Fault (List Message)) → List Message → Result FinalError (List ToolUse)
inspect_frontier clone messages =
    of_processed
      (process clone messages preserve_deferred_frontier (pending_from_final_frontier messages))
    >>= λ _. raw_final_frontier messages
