-- ===== src/Faults.antt =====
-- The Go errors of the agent loop, as values: the sentinels and types of errors.go, and the
-- messages of each file that makes one, with the data that they carry.
use agentic.Prelude.{ℕ, String, Option, none, some, Bool, true, false}
use agentic.Usage.Limits.{UsageLimitExceeded}

-- `ErrTranscriptInvalid` of transcript.go.
pub data TranscriptError : Type 0 where
  calls_outside_assistant frontier_not_paired empty_call_id : ℕ → TranscriptError
  results_outside_tool no_open_frontier before_paired : ℕ → TranscriptError
  duplicate_call_id unknown_call duplicate_result : String → TranscriptError
  name_mismatch : String → String → String → TranscriptError

-- `ErrDriveInput` of execution_loop.go and run_state.go.
pub data DriveError : Type 0 where
  start_requires_prompt start_open_frontier continue_forbids_prompt : DriveError
  unknown_mode : ℕ → DriveError
  continue_requires_history continue_open_frontier continue_wrong_end : DriveError

-- `ErrTurnDecision` of execution_loop.go.
pub data TurnError : Type 0 where
  unknown_action inject_without_continue continue_without_message inject_not_user : TurnError

-- The checks on a gate's decision and on a result's identity, tool_scheduler.go.
pub data GateError : Type 0 where
  dispositions_for_calls : ℕ → ℕ → GateError
  result_for_executable no_result result_for_suspended invalid_disposition : String → GateError
  deferral_required deferral_unexpected : GateError
  result_id_mismatch result_name_mismatch : String → String → GateError

-- `ErrToolHandlerSuspension`.
pub data SuspensionError : Type 0 where
  nil_suspension undeclared invalid_deferral not_alone : String → SuspensionError
  suspension_identity : String → GateError → SuspensionError

-- `ErrSuspensionMismatch`, `ErrSuspensionVersion` and `ErrResumeDecision`, with the data that their
-- texts name.
pub data ResumeError : Type 0 where
  no_suspended_frontier missing_identity frontier_differs identity_differs : ResumeError
  configuration_differs calls_differ undecodable_payload missing_suspended_calls : ResumeError
  payload_version_differs : ℕ → ResumeError
  invalid_executable_call : String → ResumeError
  decisions_for_calls : ℕ → ℕ → ResumeError
  empty_decision_id : ResumeError
  duplicate_decision missing_decision result_with_execute tool_unregistered : String → ResumeError
  invalid_input handler_undeclared payload_without_handler : String → ResumeError
  execute_data_with_return return_without_result invalid_action : String → ResumeError
  wrong_result : GateError → ResumeError

-- An error. `wrapped` is `fmt.Errorf` with `%w` behind a text, `joined` is `errors.Join` of two.
pub data Fault : Type 0 where
  model_retry failure : String → Fault
  gate_fault : GateError → Fault
  suspension_fault : SuspensionError → Fault
  transcript_fault : TranscriptError → Fault
  drive_fault : DriveError → Fault
  turn_fault : TurnError → Fault
  resume_fault : ResumeError → Fault
  usage_limit : UsageLimitExceeded → Fault
  max_iterations_reached : ℕ → Fault
  provider_error : String → Fault
  execution_interrupted canceled : Fault
  wrapped : String → Fault → Fault
  joined : Fault → Fault → Fault
  validation_exhausted : ℕ → Fault → Fault

-- `errors.As(err, &retry)` with a `*ModelRetry`, through wrapped and joined errors.
unfoldable pub is_model_retry : Fault → Bool
is_model_retry (model_retry note) = true
is_model_retry (wrapped note cause) = is_model_retry cause
is_model_retry (validation_exhausted n cause) = is_model_retry cause
is_model_retry (joined one two) = elim (is_model_retry one) [
  | true ↦ true
  | false ↦ is_model_retry two
]
is_model_retry _ = false

-- `errors.Is(err, context.Canceled)` or `context.DeadlineExceeded`.
unfoldable pub is_canceled : Fault → Bool
is_canceled canceled = true
is_canceled (wrapped note cause) = is_canceled cause
is_canceled (validation_exhausted n cause) = is_canceled cause
is_canceled (joined one two) = elim (is_canceled one) [ true ↦ true | false ↦ is_canceled two ]
is_canceled _ = false

-- `errors.Join` of two errors that may be nil.
abbrev pub join : Option Fault → Option Fault → Option Fault
join none none = none
join (some one) none = some one
join none (some two) = some two
join (some one) (some two) = some (joined one two)
