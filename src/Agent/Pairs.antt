-- ===== src/Agent/Pairs.antt =====
-- The pairing of a turn's calls with results, and their commit: `checkOutputTool`, the pairing loop
-- of `completeAssistantTurn` and `commitToolResults` of turn.go.
use agentic.Prelude.{
  ℕ, suc, String, Bool, true, false, ◌&&◌, Option, none, some, List, [], ◌∷◌, ◌++◌, nat_eq,
  if◌then◌else◌, is_some, set, lookup, get_elem?, contains,
}
use agentic.Message.{Message, ToolUse}
use agentic.Message.Build.{new_tool_result_message_for}
use agentic.Faults.{Fault}
use agentic.Tools.{
  Rendering, ToolExecutionResult, empty, text, make_tool_result_error, format_tool_result,
}
use agentic.Agent.{
  LoopState, Options, EndStrategy, early, exhaustive, CompletionCandidate, completion_text,
  completion_output_tool, emit, tool_result_committed,
}
use agentic.Agent.Batch.{RegularTurn}

abbrev next_index : Option ℕ → Option ℕ
next_index none = none
next_index (some i) = some (suc i)

-- `checkOutputTool`; -1 is `none`.
unfoldable pub check_output_tool : List String → List ToolUse → Option ℕ
check_output_tool names [] = none
check_output_tool names (call ∷ calls) =
    let rest = next_index (check_output_tool names calls) in
    if contains call.name names then some 0 else rest

abbrev pub is_early : EndStrategy → Bool
is_early early = true
is_early exhaustive = false

-- The zero value of a result, which stands in a slot until it is written.
abbrev pub zero_result : ToolExecutionResult
zero_result = record {
  tool_use_id = "";
  tool_name = "";
  content = empty;
  is_error = false;
  error = none;
}

abbrev pub is_at : ℕ → Option ℕ → Bool
is_at i none = false
is_at i (some j) = nat_eq i j

-- The body of the loop that pairs calls with results, at index `i`.
unfoldable pub pair_result :
    List String → Bool → RegularTurn → Option ℕ → ℕ → ToolUse → ToolExecutionResult
pair_result names ends_early regular output i call =
    if contains call.name names
    then if is_at i output
      then zero_result
      else make_tool_result_error call
          "Skipped because the first output tool is the completion candidate." none
    else if is_some output && ends_early
    then make_tool_result_error call "Skipped because early output ended the tool batch." none
    else elim (lookup call.id regular.results) [
      | some result ↦ result
      | none ↦
          make_tool_result_error call "Tool execution did not produce a paired result."
            regular.fatal
    ]

unfoldable pub pair_results :
    List String → Bool → RegularTurn → Option ℕ → ℕ → List ToolUse → List ToolExecutionResult
pair_results names ends_early regular output i [] = []
pair_results names ends_early regular output i (call ∷ calls) =
    pair_result names ends_early regular output i call
    ∷ pair_results names ends_early regular output (suc i) calls

-- `results[outputIndex] = makeToolResultError(calls[outputIndex], note, cause)`, if there is one.
abbrev pub set_output_error :
    List ToolUse
    → Option ℕ
    → String
    → Option Fault
    → List ToolExecutionResult
    → List ToolExecutionResult
set_output_error calls output note cause results = elim output [
  | none ↦ results
  | some i ↦ elim (get_elem? calls i) [
    | none ↦ results
    | some call ↦ set results i (make_tool_result_error call note cause)
  ]
]

unfoldable pub accepted_result : ToolUse → ToolExecutionResult
accepted_result call = record {
  tool_use_id = call.id;
  tool_name = call.name;
  content = text "Output accepted.";
  is_error = false;
  error = none;
}

abbrev pub set_output_accepted :
    List ToolUse → Option ℕ → List ToolExecutionResult → List ToolExecutionResult
set_output_accepted calls output results = elim output [
  | none ↦ results
  | some i ↦ elim (get_elem? calls i) [
    | none ↦ results
    | some call ↦ set results i (accepted_result call)
  ]
]

abbrev pub candidate_of : List ToolUse → Option ℕ → CompletionCandidate
candidate_of calls none = record { source = completion_text; tool_call_id = "" }
candidate_of calls (some i) = elim (get_elem? calls i) [
  | none ↦ record { source = completion_output_tool; tool_call_id = "" }
  | some call ↦ record { source = completion_output_tool; tool_call_id = call.id }
]

-- `commitToolResults`: the messages first, then the events, up to the first that the sink refuses.
unfoldable pub result_messages : Rendering → List ToolExecutionResult → List Message
result_messages render [] = []
result_messages render (r ∷ results) =
    new_tool_result_message_for r.tool_use_id r.tool_name (format_tool_result render r.content)
      r.is_error
    ∷ result_messages render results

unfoldable pub emit_results :
    Options → LoopState → List ToolExecutionResult → LoopState × Option Fault
emit_results o ls [] = (ls, none)
emit_results o ls (r ∷ results) =
    let (ls', fault) = emit o ls (tool_result_committed r) in
    elim fault [ none ↦ emit_results o ls' results | some e ↦ (ls', some e) ]

unfoldable pub commit_tool_results :
    Options → LoopState → List ToolExecutionResult → LoopState × Option Fault
commit_tool_results o ls results =
    emit_results o
      (record ls {
        all_tool_results = ls.all_tool_results ++ results;
        messages = ls.messages ++ result_messages o.render results;
      })
      results
