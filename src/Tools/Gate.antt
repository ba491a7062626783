-- ===== src/Tools/Gate.antt =====
-- tool_scheduler.go: the checks on a gate's decision and on the identity of a result, the
-- projection of a result, and the deferral of a handler.
pub mod Laws
use agentic.Prelude.{
  ℕ, String, Bool, true, false, not, ◌&&◌, ◌||◌, ◌==◌, Option, none, some, List, [], ◌∷◌, Result,
  ok, err, ◌>>=◌, length, nat_eq, if◌then◌else◌, map, is_some, is_none,
}
use Prim.Native.String.{◌++◌ as append}
use agentic.Message.{ToolUse}
use agentic.Faults.{
  Fault, failure, gate_fault, GateError, dispositions_for_calls, result_for_executable, no_result,
  result_for_suspended, invalid_disposition, deferral_required, deferral_unexpected,
  result_id_mismatch, result_name_mismatch, SuspensionError, nil_suspension, undeclared,
  invalid_deferral, suspension_identity,
}
use agentic.Tools.{
  Rendering, ToolDeferral, ToolHandlerSuspension, Content, empty, text, suspends, suspends_at,
  value, ToolExecutionResult, ToolDispositionKind, invalid, execute, return, suspend,
  ToolDisposition, ToolBatchDecision, make_tool_result_error,
}

-- `validateToolResultIdentity`; nil is `none`.
unfoldable pub validate_tool_result_identity : ToolUse → ToolExecutionResult → Option GateError
validate_tool_result_identity call result =
    if not (result.tool_use_id == call.id)
    then some (result_id_mismatch result.tool_use_id call.id)
    else if not (result.tool_name == call.name)
    then some (result_name_mismatch result.tool_name call.name)
    else none

-- One case of the loop's switch: whether the call is suspended.
unfoldable pub check_disposition :
    ToolUse → ToolDispositionKind → ToolDisposition → Result GateError Bool
check_disposition call execute d =
    if is_some d.result then err (result_for_executable call.id) else ok false
check_disposition call return d = elim d.result [
  | none ↦ err (no_result call.id)
  | some result ↦ elim (validate_tool_result_identity call result) [
    | some e ↦ err e
    | none ↦ ok false
  ]
]
check_disposition call suspend d =
    if is_some d.result || d.continue then err (result_for_suspended call.id) else ok true
check_disposition call invalid d = err (invalid_disposition call.id)

-- The loop, over calls and dispositions of one length; the result is `hasSuspend`.
unfoldable pub check_dispositions :
    Bool → List ToolUse → List ToolDisposition → Result GateError Bool
check_dispositions has_suspend (call ∷ calls) (d ∷ ds) =
    check_disposition call d.kind d >>= λ suspended.
    check_dispositions (has_suspend || suspended) calls ds
check_dispositions has_suspend _ _ = ok has_suspend

abbrev pub names_kind : Option ToolDeferral → Bool
names_kind none = false
names_kind (some deferral) = not (deferral.kind == "")

abbrev check_deferral : Option ToolDeferral → Bool → Result GateError Bool
check_deferral deferral true = if names_kind deferral then ok true else err deferral_required
check_deferral deferral false = if is_some deferral then err deferral_unexpected else ok false

unfoldable pub validate_tool_batch_decision :
    List ToolUse → ToolBatchDecision → Result GateError Bool
validate_tool_batch_decision calls decision =
    if not (nat_eq (length decision.calls) (length calls))
    then err (dispositions_for_calls (length decision.calls) (length calls))
    else (check_dispositions false calls decision.calls >>= check_deferral decision.deferral)

abbrev pub run_call : ToolDisposition
run_call = record { kind = execute; result = none; continue = false }

-- `allowAllToolGate`.
unfoldable pub allow_all : List ToolUse → ToolBatchDecision
allow_all calls = record { calls = map (λ _. run_call) calls; deferral = none }

-- A processor that is set, as a function of call and result.
abbrev pub Processor : Type 0
Processor = ToolUse → ToolExecutionResult → Result Fault ToolExecutionResult

abbrev pub rejected : ToolUse → String → Fault → ToolExecutionResult × Option Fault
rejected call note fault = (make_tool_result_error call note (some fault), some fault)

-- The checks on what the processor returned.
unfoldable pub check_projected :
    ToolUse → ToolExecutionResult → ToolExecutionResult → ToolExecutionResult × Option Fault
check_projected call result projected = elim (validate_tool_result_identity call projected) [
  | some e ↦ rejected call "Tool result processing changed call identity." (gate_fault e)
  | none ↦
      if result.is_error && not projected.is_error
      then rejected call "Tool result processing changed an error into success."
          (failure "tool result processor changed an error into success")
      else if is_some result.error && is_none projected.error
      then rejected call "Tool result processing removed execution error truth."
          (failure "tool result processor removed an execution error")
      else (projected, none)
]

abbrev process :
    Rendering
    → ToolUse
    → ToolExecutionResult
    → Result Fault ToolExecutionResult
    → ToolExecutionResult × Option Fault
process render call result (ok projected) = check_projected call result projected
process render call result (err e) =
    rejected call
      (append "Tool handler may have completed, but result processing failed: " (render.describe e))
      e

unfoldable pub project_tool_result :
    Rendering
    → Option Processor
    → ToolUse
    → ToolExecutionResult
    → ToolExecutionResult × Option Fault
project_tool_result render processor call result =
    elim (validate_tool_result_identity call result) [
      | some e ↦ rejected call "Tool execution returned an invalid result identity." (gate_fault e)
      | none ↦ elim processor [
        | none ↦ (result, none)
        | some run ↦ process render call result (run call result)
      ]
    ]

-- The suspension that a result's content holds, if any.
abbrev pub suspension_of : String → Content → Result SuspensionError (Option ToolHandlerSuspension)
suspension_of name (suspends suspension) = ok (some suspension)
suspension_of name (suspends_at (some suspension)) = ok (some suspension)
suspension_of name (suspends_at none) = err (nil_suspension name)
suspension_of name _ = ok none

-- `handlerDeferral`; `may_suspend` says that a handler of this name is registered, is marked
-- suspendable and may suspend.
unfoldable pub handler_deferral :
    (String → Bool) → ToolUse → ToolExecutionResult → Result SuspensionError (Option ToolDeferral)
handler_deferral may_suspend call result = suspension_of call.name result.content >>= λ found.
    elim found [
      | none ↦ ok none
      | some suspension ↦
          if not (may_suspend call.name)
          then err (undeclared call.name)
          else elim (validate_tool_result_identity call result) [
            | some e ↦ err (suspension_identity call.name e)
            | none ↦
                if result.is_error || is_some result.error || suspension.deferral.kind == ""
                then err (invalid_deferral call.name)
                else ok (some suspension.deferral)
          ]
    ]
