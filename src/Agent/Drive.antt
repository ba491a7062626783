-- ===== src/Agent/Drive.antt =====
-- execution_loop.go: `driveLoop` for the transport that returns whole responses. These are
-- its collaborators and the executions that it ends with; `Agent.Loop` has its steps.
use agentic.Prelude.{ℕ, String, Bool, true, false, Option, none, some, List, Result}
use agentic.Message.{Message, ToolUse}
use agentic.Faults.{Fault}
use agentic.Usage.{Usage}
use agentic.Tools.{ToolExecutionResult}
use agentic.Agent.{
  LoopState, Options, FinishReason, CompletionCandidate, ExecutionStatus, completed, suspended,
  stopped, interrupted, failed, Suspension, emit, run_suspended, run_completed, run_interrupted,
  run_error, run_ended,
}
use agentic.Agent.Input.{TurnDecision}

pub record ChatResponse : Type 0 where
  pub message : Message
  pub usage : Usage
  pub finish_reason : FinishReason
  pub raw_finish_reason : String

-- The turn that a hook is shown.
pub record HookTurn : Type 0 where
  pub index : ℕ
  pub messages : List Message
  pub assistant : Message
  pub results : List ToolExecutionResult
  pub usage : Usage
  pub candidate : CompletionCandidate

-- The collaborators of the loop itself: the context's error, the history processor, the provider
-- and the turn hook.
pub record Driver : Type 0 where
  pub context_error : LoopState → Option Fault
  pub history_processor : Option (List Message → Result Fault (List Message))
  pub request : LoopState → List Message → Result Fault ChatResponse
  pub turn_hook : Option (LoopState → HookTurn → Result Fault TurnDecision)

-- `Result` as `makeResult` fills it; no output stands for the zero value.
pub record RunResult (O : Type 0) : Type 0 where
  pub output : Option O
  pub messages : List Message
  pub tool_calls : List ToolUse
  pub tool_results : List ToolExecutionResult
  pub finish_reason : FinishReason
  pub usage : Usage
  pub retries : ℕ
  pub history_len : ℕ

-- `Execution` with the error that is returned beside it.
pub record Execution (O : Type 0) : Type 0 where
  pub status : ExecutionStatus
  pub result : RunResult O
  pub suspension : Option Suspension
  pub fault : Option Fault

-- One step ends the run or goes on to the next turn.
pub data Step (O : Type 0) : Type 0 where
  ends : LoopState → Execution O → Step O
  goes_on : LoopState → Step O

module _ {O : Type 0} where
  unfoldable pub make_result : LoopState → Option O → RunResult O
  make_result ls output = record {
    output = output;
    messages = ls.messages;
    tool_calls = ls.all_tool_calls;
    tool_results = ls.all_tool_results;
    finish_reason = ls.last_finish_reason;
    usage = ls.total_usage;
    retries = ls.total_retries;
    history_len = ls.history_len;
  }

  abbrev execution :
      ExecutionStatus → LoopState → Option O → Option Suspension → Option Fault → Execution O
  execution status ls output suspension fault = record {
    status = status;
    result = make_result ls output;
    suspension = suspension;
    fault = fault;
  }

  -- A failure that the sink did not cause is announced to it, whatever it answers.
  unfoldable pub failed_execution : Options → LoopState → Fault → Bool → Step O
  failed_execution o ls cause true = ends ls (execution failed ls none none (some cause))
  failed_execution o ls cause false =
      let ls' = (emit o ls (run_error cause)).0 in
      let ls'' = (emit o ls' (run_ended failed)).0 in
      ends ls'' (execution failed ls'' none none (some cause))

  unfoldable pub interrupted_execution : Options → LoopState → Fault → Step O
  interrupted_execution o ls cause =
      let ls' = (emit o ls run_interrupted).0 in
      let ls'' = (emit o ls' (run_ended interrupted)).0 in
      ends ls'' (execution interrupted ls'' none none (some cause))

  unfoldable pub completed_execution : Options → LoopState → O → Step O
  completed_execution o ls output =
      let (ls', fault) = emit o ls (run_completed ls.total_usage ls.last_finish_reason) in
      elim fault [
        | some e ↦ failed_execution o ls' e true
        | none ↦
            let (ls'', fault') = emit o ls' (run_ended completed) in
            elim fault' [
              | some e ↦ failed_execution o ls'' e true
              | none ↦ ends ls'' (execution completed ls (some output) none none)
            ]
      ]

  unfoldable pub stopped_execution : Options → LoopState → Step O
  stopped_execution o ls =
      let (ls', fault) = emit o ls (run_ended stopped) in
      elim fault [
        | some e ↦ failed_execution o ls' e true
        | none ↦ ends ls' (execution stopped ls none none none)
      ]

  unfoldable pub suspended_execution : Options → LoopState → Suspension → Step O
  suspended_execution o ls suspension =
      let (ls', fault) = emit o ls (run_suspended suspension) in
      elim fault [
        | some e ↦ failed_execution o ls' e true
        | none ↦ ends ls' (execution suspended ls none (some suspension) none)
      ]
