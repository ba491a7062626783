-- ===== src/Agent.antt =====
-- The state of one run (run_state.go), its events (events.go), its options and collaborators.
-- A collaborator (model, gate, handlers, hook, sink) is a function of the run's state, so that it
-- may answer differently each time; contexts and instrumentation are left out.
pub mod Suspend
pub mod Batch
pub mod Pairs
pub mod Turn
pub mod Input
pub mod Drive
pub mod Loop
pub mod Run
pub mod Resume
use agentic.Prelude.{
  ℕ, zero, suc, ◌+◌, String, Bool, true, false, Option, none, some, List, [], ◌∷◌, ◌++◌, Result,
  lookup, length,
}
use agentic.Message.{Message, ToolUse}
use agentic.Faults.{Fault, usage_limit}
use agentic.Usage.{Usage}
use agentic.Usage.Limits.{
  UsageLimits, check_before_request, check_after_response, check_before_tool_calls,
  UsageLimitExceeded,
}
use agentic.Tools.{Rendering, ToolExecutionResult, ToolBatchDecision, ToolDeferral}
use agentic.Tools.Gate.{Processor}

pub data FinishReason : Type 0 where
  stop length_limit tool_calls content_filter error_reason unknown : FinishReason
  other_reason : String → FinishReason

pub data EndStrategy : Type 0 where
  exhaustive early : EndStrategy

pub data CompletionSource : Type 0 where
  no_completion completion_text completion_output_tool : CompletionSource

pub record CompletionCandidate : Type 0 where
  pub source : CompletionSource
  pub tool_call_id : String

abbrev pub no_candidate : CompletionCandidate
no_candidate = record { source = no_completion; tool_call_id = "" }

pub data ExecutionStatus : Type 0 where
  completed suspended stopped interrupted failed : ExecutionStatus

pub record Suspension : Type 0 where
  pub id : String
  pub kind : String
  pub frontier_hash : String
  pub payload : String

-- The authoritative and lifecycle events; previews belong to the streaming of one response.
pub data EventKind : Type 0 where
  run_started turn_started run_interrupted : EventKind
  assistant_committed : Message → EventKind
  tool_batch_planned : List ToolUse → EventKind
  tool_started : ToolUse → ℕ → EventKind
  tool_result_committed : ToolExecutionResult → EventKind
  output_validated : CompletionCandidate → EventKind
  turn_messages_injected : List Message → EventKind
  turn_ended : CompletionCandidate → Usage → EventKind
  run_suspended : Suspension → EventKind
  run_completed : Usage → FinishReason → EventKind
  run_error : Fault → EventKind
  run_ended : ExecutionStatus → EventKind

pub record Event : Type 0 where
  pub turn : ℕ
  pub kind : EventKind

pub record LoopState : Type 0 where
  pub messages : List Message
  pub history_len : ℕ
  pub max_iterations : ℕ
  pub usage_limits : Option UsageLimits
  pub end_strategy : EndStrategy
  pub all_tool_calls : List ToolUse
  pub all_tool_results : List ToolExecutionResult
  pub total_usage : Usage
  pub retry_counts : List (String × ℕ)
  pub total_retries : ℕ
  pub validation_retries : ℕ
  pub iteration : ℕ
  pub last_finish_reason : FinishReason
  pub config_fingerprint : String
  -- What the event sink has been given so far.
  pub events : List Event

-- A handler as the loop sees it: `SuspendableToolHandler`, and `ToolConfig().MaxRetries`.
pub record ToolHandler : Type 0 where
  pub may_suspend : Bool
  pub max_retries : Option ℕ

-- `executionToolRegistry`, by the names of its tools.
pub record Registry : Type 0 where
  pub handlers : List (String × ToolHandler)
  pub has_executor : Bool

abbrev pub get_handler : Registry → String → Option ToolHandler
get_handler registry name = lookup name registry.handlers

abbrev pub handler_suspends : Option ToolHandler → Bool
handler_suspends none = false
handler_suspends (some handler) = handler.may_suspend

abbrev pub may_suspend : Registry → String → Bool
may_suspend registry name = handler_suspends (get_handler registry name)

-- The configuration of the agent that the loop reads.
pub record Config : Type 0 where
  pub output_tool_names : List String
  pub max_retries : ℕ
  pub max_validation_retries : ℕ
  pub registry : Registry

-- The options and collaborators of a run; those that may be nil are `Option`.
pub record Options : Type 0 where
  pub render : Rendering
  pub event_sink : Option (List Event → Event → Option Fault)
  pub tool_gate : Option (LoopState → List ToolUse → Result Fault ToolBatchDecision)
  pub tool_result_processor : Option Processor
  -- The registry's `Execute` of a call at an attempt, and the order in which a batch's
  -- completions arrive, by index.
  pub execute : LoopState → ToolUse → ℕ → ToolExecutionResult × Option Fault
  pub arrivals : LoopState → List ToolUse → List ℕ

-- `ls.emit`: with no sink nothing happens; otherwise the sink takes the event and may fail.
unfoldable pub emit : Options → LoopState → EventKind → LoopState × Option Fault
emit o ls kind = elim o.event_sink [
  | none ↦ (ls, none)
  | some sink ↦
      let event : Event = record { turn = ls.iteration; kind = kind } in
      (record ls { events = ls.events ++ event ∷ [] }, sink ls.events event)
]

abbrev limit_fault : Option UsageLimitExceeded → Option Fault
limit_fault none = none
limit_fault (some e) = some (usage_limit e)

unfoldable pub check_pre_request_limits : LoopState → Option Fault
check_pre_request_limits ls = elim ls.usage_limits [
  | none ↦ none
  | some limits ↦ limit_fault (check_before_request limits ls.total_usage)
]

unfoldable pub check_post_response_limits : LoopState → Option Fault
check_post_response_limits ls = elim ls.usage_limits [
  | none ↦ none
  | some limits ↦ limit_fault (check_after_response limits ls.total_usage)
]

unfoldable pub check_tool_call_limits : LoopState → ℕ → Option Fault
check_tool_call_limits ls pending = elim ls.usage_limits [
  | none ↦ none
  | some limits ↦ limit_fault (check_before_tool_calls limits ls.total_usage.tool_calls pending)
]
