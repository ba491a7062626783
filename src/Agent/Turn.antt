-- ===== src/Agent/Turn.antt =====
-- turn.go: one assistant message is completed. Its regular calls run, a completion candidate is
-- evaluated, and every call gets one committed result unless the frontier is suspended.
pub mod Answered
pub mod Judged
pub mod Closes
pub mod Clock
use Prim.Native.String.{◌++◌ as append}
use agentic.Prelude.{
  ℕ, zero, suc, ◌+◌, String, Bool, true, false, not, ◌&&◌, ◌||◌, Option, none, some, List, [], ◌∷◌,
  ◌++◌, map, Result, ok, err, ltb, nat_eq, if◌then◌else◌, is_empty, is_some, is_none, set, lookup,
  get_elem?, contains,
}
use agentic.Message.{Message, ToolUse, user}
use agentic.Message.Parts.{get_tool_uses}
use agentic.Message.Build.{new_text_message, new_tool_result_message_for}
use agentic.Faults.{Fault, validation_exhausted}
use agentic.Tools.{
  Rendering, ToolExecutionResult, empty, text, make_tool_result_error, format_tool_result,
}
use agentic.Agent.{
  LoopState, Config, Options, EndStrategy, early, exhaustive, Suspension, CompletionCandidate,
  CompletionSource, completion_text, completion_output_tool, emit, turn_messages_injected,
  output_validated, tool_result_committed,
}
use agentic.Agent.Suspend.{Sealing}
use agentic.Agent.Batch.{RegularTurn, no_turn, execute_regular_turn}
use agentic.Agent.Pairs.{
  check_output_tool, pair_results, is_early, set_output_error, set_output_accepted, candidate_of,
  commit_tool_results,
}

-- `turnOutcome`, with the typed output beside the candidate's description.
pub record TurnOutcome (O : Type 0) : Type 0 where
  pub assistant : Message
  pub results : List ToolExecutionResult
  pub candidate : Option (O × CompletionCandidate)
  pub continuation : Bool
  pub suspension : Option Suspension
  pub fatal : Option Fault

-- What the arbitration between results, candidate and faults has come to.
pub record Verdict (O : Type 0) : Type 0 where
  pub results : List ToolExecutionResult
  pub candidate : Option (O × CompletionCandidate)
  pub continuation : Bool
  pub fatal : Option Fault

abbrev pub Evaluator : Type 0 → Type 0
Evaluator O = LoopState → Message → Result Fault O

abbrev retries_exhausted : Config → LoopState → Fault → Option Fault → Option Fault
retries_exhausted c ls e fatal =
    if ltb c.max_validation_retries ls.validation_retries
    then some (validation_exhausted c.max_validation_retries e)
    else fatal

abbrev feedback_note : String → String
feedback_note note = append "Output validation error: " (append note "\nPlease try again.")

abbrev pub feedback : String → Message
feedback note = new_text_message user (feedback_note note)

abbrev first_fault : Option Fault → Option Fault → Option Fault
first_fault none new = new
first_fault (some old) new = some old

-- The state of the regular calls: resumed, skipped by an early output, or executed now.
unfoldable pub regular_turn :
    Options
    → Config
    → Sealing
    → LoopState
    → List ToolUse
    → Option ℕ
    → Option RegularTurn
    → LoopState × RegularTurn
regular_turn o c seal ls calls output (some resumed) = (ls, resumed)
regular_turn o c seal ls calls output none =
    if is_some output && is_early ls.end_strategy
    then (ls, no_turn)
    else execute_regular_turn o c seal ls calls

abbrev pub record_calls : Bool → List ToolUse → LoopState → LoopState
record_calls recorded calls ls =
    if recorded then ls else record ls { all_tool_calls = ls.all_tool_calls ++ calls }

module _ {O : Type 0} (o : Options) (c : Config) where
  -- A candidate that the evaluator refused: the error goes to the output tool's result, or to the
  -- model as a user message.
  unfoldable pub refuse_candidate :
      LoopState → List ToolUse → Option ℕ → List ToolExecutionResult → Fault → LoopState × Verdict O
  refuse_candidate ls calls (some i) results e =
      let ls' : LoopState = record ls { validation_retries = ls.validation_retries + 1 } in
      (
        ls',
        record {
          results =
              set_output_error calls (some i)
                (append "Output validation failed: " (o.render.describe e)) (some e) results;
          candidate = none;
          continuation = true;
          fatal = retries_exhausted c ls' e none;
        },
      )
  refuse_candidate ls calls none results e =
      let note = feedback (o.render.describe e) in
      let ls' : LoopState = record ls {
        validation_retries = ls.validation_retries + 1;
        messages = ls.messages ++ note ∷ [];
      } in
      let (ls'', fault) = emit o ls' (turn_messages_injected (note ∷ [])) in
      (
        ls'',
        record {
          results = results;
          candidate = none;
          continuation = true;
          fatal = retries_exhausted c ls'' e fault;
        },
      )

  unfoldable pub accept_candidate :
      LoopState → List ToolUse → Option ℕ → List ToolExecutionResult → O → LoopState × Verdict O
  accept_candidate ls calls output results value =
      let (ls', fault) = emit o ls (output_validated (candidate_of calls output)) in
      (
        ls',
        record {
          results = set_output_accepted calls output results;
          candidate = some (value, candidate_of calls output);
          continuation = false;
          fatal = fault;
        },
      )

  unfoldable pub judge_candidate :
      LoopState
      → List ToolUse
      → Option ℕ
      → List ToolExecutionResult
      → Result Fault O
      → LoopState × Verdict O
  judge_candidate ls calls output results (ok value) =
      accept_candidate ls calls output results value
  judge_candidate ls calls output results (err e) = refuse_candidate ls calls output results e

  -- The three branches: a fatal error, a candidate to evaluate, or an output tool to put off.
  unfoldable pub judge :
      Evaluator O
      → LoopState
      → Message
      → List ToolUse
      → Option ℕ
      → RegularTurn
      → List ToolExecutionResult
      → LoopState × Verdict O
  judge evaluate ls assistant calls output regular results = elim regular.fatal [
    | some e ↦ (
      ls,
      record {
        results =
            set_output_error calls output "Output discarded because tool execution failed." (some e)
              results;
        candidate = none;
        continuation = true;
        fatal = some e;
      },
    )
    | none ↦
        if (is_empty calls || is_some output) && not regular.continuation
        then judge_candidate ls calls output results (evaluate ls assistant)
        else (
          ls,
          record {
            results =
                set_output_error calls output
                  "Output discarded because another tool requires continuation." none results;
            candidate = none;
            continuation = is_some output;
            fatal = none;
          },
        )
  ]

  -- The end of the turn: the results are committed, if there are any.
  unfoldable pub conclude :
      LoopState → Message → RegularTurn → Verdict O → LoopState × TurnOutcome O
  conclude ls assistant regular v =
      let (ls', fault) = commit_tool_results o ls v.results in
      if is_empty v.results
      then (
        ls,
        record {
          assistant = assistant;
          results = v.results;
          candidate = v.candidate;
          continuation = v.continuation || regular.continuation;
          suspension = none;
          fatal = v.fatal;
        },
      )
      else (
        ls',
        record {
          assistant = assistant;
          results = v.results;
          candidate = v.candidate;
          continuation = v.continuation || regular.continuation;
          suspension = none;
          fatal = first_fault v.fatal fault;
        },
      )

  -- `completeAssistantTurn` after its regular calls.
  unfoldable pub complete_with :
      Evaluator O
      → LoopState
      → Message
      → List ToolUse
      → Option ℕ
      → RegularTurn
      → LoopState × TurnOutcome O
  complete_with evaluate ls assistant calls output regular = elim regular.suspension [
    | some suspension ↦ (
      ls,
      record {
        assistant = assistant;
        results = [];
        candidate = none;
        continuation = false;
        suspension = some suspension;
        fatal = none;
      },
    )
    | none ↦
        let results =
          pair_results c.output_tool_names (is_early ls.end_strategy) regular output 0 calls in
        let (ls', v) = judge evaluate ls assistant calls output regular results in
        conclude ls' assistant regular v
  ]

  unfoldable pub complete_assistant_turn :
      Sealing
      → Evaluator O
      → LoopState
      → Message
      → Bool
      → Option RegularTurn
      → LoopState × TurnOutcome O
  complete_assistant_turn seal evaluate ls assistant recorded resumed =
      let calls = get_tool_uses assistant in
      let output = check_output_tool c.output_tool_names calls in
      let (ls', regular) =
        regular_turn o c seal (record_calls recorded calls ls) calls output resumed in
      complete_with evaluate ls' assistant calls output regular
