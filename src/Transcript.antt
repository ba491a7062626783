-- ===== src/Transcript.antt =====
-- transcript.go: the pairing check of tool calls and results, one assistant frontier at a time.
-- `messages` are values, so the clones that the source makes are the values themselves.
pub mod Scans
pub mod Balance
pub mod Closing
pub mod Opening
pub mod Admits
pub mod Places
pub mod Outlines
use agentic.Prelude.{
  ℕ, zero, suc, String, List, [], ◌∷◌, ◌++◌, Option, none, some, Bool, true, false, not, ◌&&◌, ◌==◌,
  Result, ok, err, ◌>>=◌, contains, is_empty, if◌then◌else◌, map, length,
}
use agentic.Message.{Message, MessageRole, ToolUse, ToolResult, is_assistant, is_tool}
use agentic.Message.Parts.{get_tool_uses, get_tool_results}
use agentic.Tools.{ToolExecutionResult, text}
use agentic.Faults.{
  TranscriptError, calls_outside_assistant, frontier_not_paired, empty_call_id,
  results_outside_tool, no_open_frontier, before_paired, duplicate_call_id, unknown_call,
  duplicate_result, name_mismatch,
}

-- The loop's variables; `resolved` lists the keys that the source's map holds as true.
pub record Scan : Type 0 where
  pub frontier : List ToolUse
  pub resolved : List String

abbrev pub start : Scan
start = record { frontier = []; resolved = [] }

-- The loop over the calls of a new frontier, with the set of the IDs seen.
unfoldable pub check_ids : ℕ → List String → List ToolUse → Option TranscriptError
check_ids i seen [] = none
check_ids i seen (call ∷ calls) =
    let rest = check_ids i (call.id ∷ seen) calls in
    if call.id == ""
    then some (empty_call_id i)
    else if contains call.id seen
    then some (duplicate_call_id call.id)
    else rest

-- `callsByID[id]`: of two calls with one ID the later has overwritten the earlier.
unfoldable pub find_call : String → List ToolUse → Option ToolUse
find_call id [] = none
find_call id (call ∷ calls) = elim (find_call id calls) [
  | some later ↦ some later
  | none ↦ if call.id == id then some call else none
]

abbrev pub names_other : ToolResult → ToolUse → Bool
names_other result call = not (result.name == "") && not (result.name == call.name)

-- The body of the loop over a message's results.
unfoldable pub resolve_one :
    List ToolUse → List String → ToolResult → Result TranscriptError (List String)
resolve_one frontier resolved result = elim (find_call result.tool_use_id frontier) [
  | none ↦ err (unknown_call result.tool_use_id)
  | some call ↦
      if contains result.tool_use_id resolved
      then err (duplicate_result result.tool_use_id)
      else if names_other result call
      then err (name_mismatch result.tool_use_id result.name call.name)
      else ok (result.tool_use_id ∷ resolved)
]

unfoldable pub resolve_all :
    List ToolUse → List String → List ToolResult → Result TranscriptError (List String)
resolve_all frontier resolved [] = ok resolved
resolve_all frontier resolved (result ∷ results) =
    resolve_one frontier resolved result >>= λ more. resolve_all frontier more results

unfoldable pub all_resolved : List String → List ToolUse → Bool
all_resolved resolved [] = true
all_resolved resolved (call ∷ calls) = contains call.id resolved && all_resolved resolved calls

-- The calls of a frontier that have no result yet (`unresolvedCalls` of harness/repair/repair.go).
unfoldable pub unresolved_calls : List String → List ToolUse → List ToolUse
unresolved_calls resolved [] = []
unresolved_calls resolved (call ∷ calls) =
    let rest = unresolved_calls resolved calls in
    if contains call.id resolved then rest else call ∷ rest

-- The first half of the loop's body: a message with tool calls opens a frontier.
unfoldable pub open_frontier : ℕ → MessageRole → List ToolUse → Scan → Result TranscriptError Scan
open_frontier i role [] scan = ok scan
open_frontier i role (call ∷ calls) scan =
    if not (is_assistant role)
    then err (calls_outside_assistant i)
    else if not (is_empty scan.frontier)
    then err (frontier_not_paired i)
    else elim (check_ids i [] (call ∷ calls)) [
      | some e ↦ err e
      | none ↦ ok (record { frontier = call ∷ calls; resolved = [] })
    ]

-- A frontier whose calls are all resolved is closed.
unfoldable pub settle : List ToolUse → List String → Scan
settle frontier resolved =
    if all_resolved resolved frontier
    then start
    else record { frontier = frontier; resolved = resolved }

-- The second half: results, or else the check that no message stands inside an open frontier.
unfoldable pub take_results :
    ℕ → MessageRole → List ToolUse → List ToolResult → Scan → Result TranscriptError Scan
take_results i role uses [] scan =
    if not (is_empty scan.frontier) && (not (is_tool role) && is_empty uses)
    then err (before_paired i)
    else ok scan
take_results i role uses (result ∷ results) scan =
    if not (is_tool role)
    then err (results_outside_tool i)
    else if is_empty scan.frontier
    then err (no_open_frontier i)
    else (resolve_all scan.frontier scan.resolved (result ∷ results) >>= λ resolved.
        ok (settle scan.frontier resolved))

unfoldable pub inspect_message : ℕ → Scan → Message → Result TranscriptError Scan
inspect_message i scan message =
    open_frontier i message.role (get_tool_uses message) scan
    >>= take_results i message.role (get_tool_uses message) (get_tool_results message)

unfoldable pub inspect_loop : ℕ → Scan → List Message → Result TranscriptError Scan
inspect_loop i scan [] = ok scan
inspect_loop i scan (message ∷ messages) =
    inspect_message i scan message >>= λ next. inspect_loop (suc i) next messages

unfoldable pub inspect_transcript : List Message → Result TranscriptError (List ToolUse)
inspect_transcript messages = inspect_loop zero start messages >>= λ scan. ok scan.frontier

abbrev pub of_tool_result : ToolResult → ToolExecutionResult
of_tool_result result = record {
  tool_use_id = result.tool_use_id;
  tool_name = result.name;
  content = text result.content;
  is_error = result.is_error;
  error = none;
}

unfoldable pub transcript_tool_state : List Message → List ToolUse × List ToolExecutionResult
transcript_tool_state [] = ([], [])
transcript_tool_state (message ∷ messages) =
    let (calls, results) = transcript_tool_state messages in
    (get_tool_uses message ++ calls, map of_tool_result (get_tool_results message) ++ results)
