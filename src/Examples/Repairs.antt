-- ===== src/Examples/Repairs.antt =====
-- Small transcripts, repaired and inspected: harness/repair/repair.go.
use agentic.Prelude.{◌≡◌, refl, List, [], ◌++◌, Result, ok, All}
use agentic.Message.{Message}
use agentic.Message.Parts.{tool_uses, tool_results}
use agentic.Faults.{Fault}
use agentic.Transcript.{
  start, inspect_transcript, inspect_loop, inspect_message, open_frontier, take_results, check_ids,
  unresolved_calls,
}
use agentic.Prelude.{contains}
use agentic.Repair.{
  PendingCalls, close_interrupted_frontier, synthetic_results, process, process_loop, process_as,
  clone_messages, start_frontier, open_behind, pass_message, make_room, end_of_input, close_open,
  pending_state,
}
use agentic.Repair.Shows.{process-admitted}
use agentic.Repair.Steps.{HoldsResult}
use agentic.Repair.Same.{process-accepted}
use agentic.Repair.Final.{inspect_frontier}
use agentic.Repair.Final.Agrees.{inspect_frontier-accepted}
use agentic.Examples.{opened, two_calls}

abbrev copies : List Message → Result Fault (List Message)
copies messages = ok messages

abbrev nothing_pending : PendingCalls
nothing_pending = record { calls = []; reason = "" }

opened_scan : inspect_loop 0 start opened ≡ ok (record { frontier = two_calls; resolved = [] })
unfolding inspect_loop inspect_message open_frontier tool_uses take_results tool_results check_ids
    contains
opened_scan = refl

opened_holds : All HoldsResult opened
opened_holds = ((λ h. cc), ((λ h. cc), tt))

process-accepted_example :
    process copies opened close_interrupted_frontier nothing_pending
    ≡ ok (opened ++ synthetic_results nothing_pending [] two_calls)
process-accepted_example =
    process-accepted copies opened close_interrupted_frontier nothing_pending refl refl opened_holds
      opened_scan

opened_repaired :
    process copies opened close_interrupted_frontier nothing_pending
    ≡ ok (opened ++ synthetic_results nothing_pending [] two_calls)
unfolding process clone_messages process_loop process_as start_frontier open_behind pass_message
    make_room end_of_input close_open synthetic_results tool_uses tool_results check_ids contains
    pending_state
opened_repaired = refl

process-admitted_example :
    inspect_transcript (opened ++ synthetic_results nothing_pending [] two_calls) ≡ ok []
process-admitted_example =
    process-admitted copies opened close_interrupted_frontier nothing_pending opened_repaired

inspect_frontier-accepted_example :
    inspect_frontier copies opened ≡ ok (unresolved_calls [] two_calls)
inspect_frontier-accepted_example =
    inspect_frontier-accepted copies opened refl opened_holds opened_scan
