-- ===== src/Repair.antt =====
-- harness/repair/repair.go: the provider projection of a durable transcript.
-- A map with values true is the list of its keys. `json.Marshal` and `json.Unmarshal` of
-- `cloneMessages` are the parameter `clone`; a format's text is left out of an error.
pub mod Frontiers
pub mod Parts
pub mod Answers
pub mod Shows
pub mod Steps
pub mod Same
pub mod Final
use Prim.Native.String.{◌++◌ as append}
use agentic.Prelude.{
  ℕ, zero, suc, String, List, [], ◌∷◌, ◌++◌, Option, none, some, Bool, true, false, not, ◌&&◌, ◌||◌,
  ◌==◌, Result, ok, err, ◌>>=◌, contains, is_empty, if◌then◌else◌, length, take,
}
use agentic.Message.{Message, Part, ToolUse, ToolResult, is_assistant, is_tool}
use agentic.Message.Parts.{get_tool_uses, get_tool_results, part_tool_result}
use agentic.Message.Build.{new_tool_result_message_for}
use agentic.Faults.{Fault, TranscriptError, duplicate_result, name_mismatch}
use agentic.Transcript.{check_ids, find_call, names_other, all_resolved, unresolved_calls}
use agentic.Transcript.Scans.{ids}

pub data FrontierMode : Type 0 where
  close_interrupted_frontier preserve_deferred_frontier : FrontierMode
  other_frontier_mode : ℕ → FrontierMode

pub data PendingState : Type 0 where
  pending_unknown pending_planned pending_started pending_indeterminate : PendingState
  other_pending_state : ℕ → PendingState

pub record PendingCall : Type 0 where
  pub id : String
  pub name : String
  pub state : PendingState

pub record PendingCalls : Type 0 where
  pub calls : List PendingCall
  pub reason : String

pub record Frontier : Type 0 where
  pub calls : List ToolUse
  pub resolved : List String
  pub output_index : ℕ

-- The variables of `Process` that its loop changes.
pub record Projection : Type 0 where
  pub output : List Message
  pub open_frontier : Option Frontier
  pub recently_resolved : List String

abbrev pub nothing_read : Projection
nothing_read = record { output = []; open_frontier = none; recently_resolved = [] }

-- `ErrTranscriptInvalid` with its text's data, or the error of the clone.
pub data RepairError : Type 0 where
  not_cloned : Fault → RepairError
  invalid_frontier starts_before_deferred follows_deferred results_outside : ℕ → RepairError
  transcript_invalid : TranscriptError → RepairError
  pending_differs : RepairError

abbrev pub is_preserve_deferred : FrontierMode → Bool
is_preserve_deferred preserve_deferred_frontier = true
is_preserve_deferred _ = false

-- The state of the first pending call with the ID.
unfoldable pub pending_state : String → List PendingCall → PendingState
pending_state id [] = pending_unknown
pending_state id (candidate ∷ candidates) =
    let rest = pending_state id candidates in if candidate.id == id then candidate.state else rest

abbrev pub reason_for : PendingState → String
reason_for pending_indeterminate =
    "the tool started but no durable result was observed; its effect is indeterminate"
reason_for pending_started =
    "the tool started but no durable result was observed; its effect is indeterminate"
reason_for pending_planned = "the tool was abandoned before it started"
reason_for _ = "the tool call was interrupted before a durable result was committed"

abbrev pub synthetic_content : PendingCalls → ToolUse → String
synthetic_content pending call = append "Harness synthetic result: " (
    append
      (if pending.reason == ""
        then reason_for (pending_state call.id pending.calls)
        else pending.reason)
      "; the call was not retried.")

abbrev pub synthetic_result : PendingCalls → ToolUse → Message
synthetic_result pending call =
    new_tool_result_message_for call.id call.name (synthetic_content pending call) true

-- The loop of `closeOpen`.
unfoldable pub synthetic_results : PendingCalls → List String → List ToolUse → List Message
synthetic_results pending resolved [] = []
synthetic_results pending resolved (call ∷ calls) =
    let rest = synthetic_results pending resolved calls in
    if contains call.id resolved then rest else synthetic_result pending call ∷ rest

unfoldable pub close_open : PendingCalls → Frontier → Projection → Projection
close_open pending frontier work = record {
  output = work.output ++ synthetic_results pending frontier.resolved frontier.calls;
  open_frontier = none;
  recently_resolved = work.recently_resolved;
}

-- A message that does not answer the open frontier closes it, or is refused when it is deferred.
unfoldable pub make_room :
    RepairError → FrontierMode → PendingCalls → Projection → Result RepairError Projection
make_room refusal mode pending work = elim work.open_frontier [
  | none ↦ ok work
  | some frontier ↦
      if is_preserve_deferred mode then err refusal else ok (close_open pending frontier work)
]

abbrev pub opened_behind : Message → Projection → Projection
opened_behind message clear = record {
  output = clear.output ++ message ∷ [];
  open_frontier =
      some (record {
        calls = get_tool_uses message;
        resolved = [];
        output_index = length clear.output;
      });
  recently_resolved = [];
}

-- The new frontier, with its IDs checked.
unfoldable pub open_behind : ℕ → Message → Projection → Result RepairError Projection
open_behind i message clear = elim (check_ids i [] (get_tool_uses message)) [
  | some e ↦ err (transcript_invalid e)
  | none ↦ ok (opened_behind message clear)
]

unfoldable pub start_frontier :
    ℕ → FrontierMode → PendingCalls → Message → Projection → Result RepairError Projection
start_frontier i mode pending message work =
    if not (is_assistant message.role) || not (is_empty (get_tool_results message))
    then err (invalid_frontier i)
    else (make_room (starts_before_deferred i) mode pending work >>= open_behind i message)

-- The parts that are kept, and the IDs resolved then.
pub record Kept : Type 0 where
  pub parts : List Part
  pub resolved : List String

unfoldable pub keep_result :
    List ToolUse → List String → List String → Part → ToolResult → Result RepairError Kept
keep_result calls recent resolved part result = elim (find_call result.tool_use_id calls) [
  | none ↦
      if contains result.tool_use_id recent
      then err (transcript_invalid (duplicate_result result.tool_use_id))
      else ok (record { parts = []; resolved = resolved })
  | some call ↦
      if contains result.tool_use_id resolved
      then err (transcript_invalid (duplicate_result result.tool_use_id))
      else if names_other result call
      then err (transcript_invalid (name_mismatch result.tool_use_id result.name call.name))
      else ok (record { parts = part ∷ []; resolved = result.tool_use_id ∷ resolved })
]

unfoldable pub keep_part : List ToolUse → List String → List String → Part → Result RepairError Kept
keep_part calls recent resolved part = elim (part_tool_result part.content_type part) [
  | none ↦ ok (record { parts = part ∷ []; resolved = resolved })
  | some result ↦ keep_result calls recent resolved part result
]

unfoldable pub keep_parts :
    List ToolUse → List String → List String → List Part → Result RepairError Kept
keep_parts calls recent resolved [] = ok (record { parts = []; resolved = resolved })
keep_parts calls recent resolved (part ∷ parts) = keep_part calls recent resolved part >>= λ one.
    keep_parts calls recent one.resolved parts >>= λ rest.
    ok (record { parts = one.parts ++ rest.parts; resolved = rest.resolved })

abbrev pub open_calls : Option Frontier → List ToolUse
open_calls none = []
open_calls (some frontier) = frontier.calls

abbrev pub open_resolved : Option Frontier → List String
open_resolved none = []
open_resolved (some frontier) = frontier.resolved

-- A message whose parts were all dropped is not shown.
abbrev pub show_kept : Message → List Part → List Message
show_kept message [] = []
show_kept message (part ∷ parts) = record message { content = part ∷ parts } ∷ []

-- The frontier is closed when it is complete.
unfoldable pub after_results : Option Frontier → List String → List Message → Kept → Projection
after_results none recent output kept = record {
  output = output;
  open_frontier = none;
  recently_resolved = recent;
}
after_results (some frontier) recent output kept =
    if all_resolved kept.resolved frontier.calls
    then record { output = output; open_frontier = none; recently_resolved = ids frontier.calls }
    else record {
      output = output;
      open_frontier = some (record frontier { resolved = kept.resolved });
      recently_resolved = recent;
    }

abbrev pub show_answer : Message → Projection → Kept → Projection
show_answer message work kept =
    after_results work.open_frontier work.recently_resolved
      (work.output ++ show_kept message kept.parts) kept

unfoldable pub answer_frontier : ℕ → Message → Projection → Result RepairError Projection
answer_frontier i message work =
    if not (is_tool message.role)
    then err (results_outside i)
    else (keep_parts (open_calls work.open_frontier) work.recently_resolved
          (open_resolved work.open_frontier) message.content
        >>= λ kept. ok (show_answer message work kept))

unfoldable pub pass_message :
    ℕ → FrontierMode → PendingCalls → Message → Projection → Result RepairError Projection
pass_message i mode pending message work =
    make_room (follows_deferred i) mode pending work >>= λ clear.
    ok (record {
      output = clear.output ++ message ∷ [];
      open_frontier = none;
      recently_resolved = [];
    })

-- The body of the loop, by the calls and the results of the message.
unfoldable pub process_as :
    List ToolUse
    → List ToolResult
    → ℕ
    → FrontierMode
    → PendingCalls
    → Message
    → Projection
    → Result RepairError Projection
process_as (call ∷ calls) results i mode pending message work =
    start_frontier i mode pending message work
process_as [] (result ∷ results) i mode pending message work = answer_frontier i message work
process_as [] [] i mode pending message work = pass_message i mode pending message work

unfoldable pub process_loop :
    ℕ → FrontierMode → PendingCalls → Projection → List Message → Result RepairError Projection
process_loop i mode pending work [] = ok work
process_loop i mode pending work (message ∷ messages) =
    process_as (get_tool_uses message) (get_tool_results message) i mode pending message work
    >>= λ next. process_loop (suc i) mode pending next messages

unfoldable pub same_pending : List ToolUse → List PendingCall → Bool
same_pending [] [] = true
same_pending (call ∷ calls) (pending ∷ rest) =
    call.id == pending.id
    && (pending.name == "" || call.name == pending.name)
    && same_pending calls rest
same_pending _ _ = false

-- What follows the loop.
unfoldable pub end_of_input :
    FrontierMode → PendingCalls → Projection → Result RepairError (List Message)
end_of_input mode pending work = elim work.open_frontier [
  | none ↦ ok work.output
  | some frontier ↦
      if is_preserve_deferred mode
      then (if same_pending (unresolved_calls frontier.resolved frontier.calls) pending.calls
          then ok (take frontier.output_index work.output)
          else err pending_differs)
      else ok (close_open pending frontier work).output
]

abbrev pub of_clone : Result Fault (List Message) → Result RepairError (List Message)
of_clone (err fault) = err (not_cloned fault)
of_clone (ok messages) = ok messages

-- `cloneMessages`, by the JSON that `clone` goes through.
unfoldable pub clone_messages :
    (List Message → Result Fault (List Message)) → List Message → Result Fault (List Message)
clone_messages clone [] = ok []
clone_messages clone (message ∷ messages) = clone (message ∷ messages)

unfoldable pub process :
    (List Message → Result Fault (List Message))
    → List Message
    → FrontierMode
    → PendingCalls
    → Result RepairError (List Message)
process clone messages mode pending = of_clone (clone_messages clone messages) >>= λ input.
    process_loop zero mode pending nothing_read input >>= end_of_input mode pending
