-- ===== src/Agent/Resume.antt =====
-- The decisions of a resumption, up to the first tool that runs: `sameToolCalls` and the checks of
-- `resolveSuspendedTools` of execution_loop.go, with the types of driver.go.
pub mod Restart
pub mod Suspended
pub mod Frontier
pub mod Decided
pub mod Restored
use agentic.Prelude.{
  ℕ, String, Bool, true, false, not, ◌&&◌, ◌||◌, ◌==◌, Option, none, some, List, [], ◌∷◌, ◌++◌,
  Result, ok, err, ◌>>=◌, contains, insert, is_some, is_empty, length, nat_eq, if◌then◌else◌,
}
use agentic.Message.{Message, ToolUse, Fields}
use agentic.Faults.{
  Fault, resume_fault, ResumeError, no_suspended_frontier, missing_identity, frontier_differs,
  identity_differs, configuration_differs, calls_differ, undecodable_payload,
  missing_suspended_calls, payload_version_differs, invalid_executable_call, decisions_for_calls,
  empty_decision_id, duplicate_decision, missing_decision, result_with_execute, tool_unregistered,
  invalid_input, handler_undeclared, payload_without_handler, execute_data_with_return,
  return_without_result, invalid_action, wrong_result,
}
use agentic.Tools.{ToolExecutionResult, ToolDeferral}
use agentic.Tools.Gate.{validate_tool_result_identity}
use agentic.Tools.Scheduler.{Batch}
use agentic.Transcript.{find_call, inspect_transcript}
use agentic.Agent.{
  LoopState, Config, Options, EndStrategy, exhaustive, early, Suspension, may_suspend,
  check_tool_call_limits,
}
use agentic.Agent.Suspend.{
  Sealing, Payload, DecodeError, undecodable, unsupported_version, missing_calls,
  decode_tool_suspension, new_tool_suspension, transcript_of,
}
use agentic.Agent.Batch.{
  RegularTurn, no_turn, execute_admitted_tools, settle_results, validate_suspendable_batch,
  first_fatal,
}
use agentic.Agent.Turn.{Evaluator}
use agentic.Agent.Drive.{Driver, Execution, failed_execution}
use agentic.Agent.Run.{ResumeTurn, go_on, drive_loop}

pub data ToolResumeAction : Type 0 where
  resume_invalid resume_execute resume_return : ToolResumeAction
  other_resume_action : ℕ → ToolResumeAction

-- An empty `payload` stands for none.
pub record ToolResumeDecision : Type 0 where
  pub call_id : String
  pub action : ToolResumeAction
  pub input : Option Fields
  pub result : Option ToolExecutionResult
  pub payload : String

-- `ResumeInput`; its history is the messages of the state.
pub record ResumeInput : Type 0 where
  pub suspension : Suspension
  pub decisions : List ToolResumeDecision
  pub prompt : Option Message

pub record ToolResumeContext : Type 0 where
  pub suspension_id : String
  pub deferral : ToolDeferral
  pub payload : String

-- What a resumption calls: `json.Marshal` of a call, `executionToolRegistry.Tool` and the input's
-- validation by the tool's schema, and the registry's `Execute` with the contexts of the calls.
pub record Resuming : Type 0 where
  pub marshal : ToolUse → Result Fault String
  pub has_tool : String → Bool
  pub admits_input : String → Fields → Bool
  pub execute_with :
      List (String × ToolResumeContext)
      → LoopState
      → ToolUse
      → ℕ
      → ToolExecutionResult × Option Fault

abbrev same_text : Result Fault String → Result Fault String → Bool
same_text (ok one) (ok two) = one == two
same_text _ _ = false

unfoldable pub same_tool_calls : Resuming → List ToolUse → List ToolUse → Bool
same_tool_calls r [] [] = true
same_tool_calls r (one ∷ left) (two ∷ right) =
    same_text (r.marshal one) (r.marshal two) && same_tool_calls r left right
same_tool_calls r _ _ = false

-- The executable calls of the payload, by their IDs.
unfoldable pub executable_calls :
    List String → List ToolUse → List String → Result ResumeError (List ToolUse)
executable_calls outputs calls [] = ok []
executable_calls outputs calls (id ∷ ids) = elim (find_call id calls) [
  | none ↦ err (invalid_executable_call id)
  | some call ↦
      if contains call.name outputs
      then err (invalid_executable_call id)
      else (executable_calls outputs calls ids >>= λ rest. ok (call ∷ rest))
]

-- The loop that fills `decisionByID`.
unfoldable pub check_decisions : List String → List ToolResumeDecision → Option ResumeError
check_decisions seen [] = none
check_decisions seen (decision ∷ decisions) =
    let rest = check_decisions (decision.call_id ∷ seen) decisions in
    if decision.call_id == ""
    then some empty_decision_id
    else if contains decision.call_id seen
    then some (duplicate_decision decision.call_id)
    else rest

unfoldable pub find_decision : String → List ToolResumeDecision → Option ToolResumeDecision
find_decision id [] = none
find_decision id (decision ∷ decisions) =
    let rest = find_decision id decisions in if decision.call_id == id then some decision else rest

-- The variables that the loop over the executable calls fills.
pub record Resolved : Type 0 where
  pub results : List (String × ToolExecutionResult)
  pub to_execute : List ToolUse
  pub contexts : List (String × ToolResumeContext)

abbrev pub nothing_resolved : Resolved
nothing_resolved = record { results = []; to_execute = []; contexts = [] }

-- `call.Input = decision.Input` unless that is nil; the override must fit the tool's schema.
unfoldable pub override_input : Resuming → ToolUse → ToolResumeDecision → Result ResumeError ToolUse
override_input r call decision =
    if is_some decision.result
    then err (result_with_execute call.id)
    else if not (r.has_tool call.name)
    then err (tool_unregistered call.name)
    else elim decision.input [
      | none ↦ ok call
      | some input ↦
          if r.admits_input call.name input
          then ok (record call { input = some input })
          else err (invalid_input call.id)
    ]

abbrev pub context_of : Payload → ToolResumeDecision → ToolResumeContext
context_of payload decision = record {
  suspension_id = payload.suspension_id;
  deferral = payload.deferral;
  payload = decision.payload;
}

abbrev pub will_execute : Resolved → ToolUse → List (String × ToolResumeContext) → Resolved
will_execute st call contexts = record st {
  to_execute = st.to_execute ++ call ∷ [];
  contexts = contexts;
}

unfoldable pub resolve_execute :
    Resuming
    → Config
    → Payload
    → ToolUse
    → ToolResumeDecision
    → Resolved
    → Result ResumeError Resolved
resolve_execute r c payload call decision st = override_input r call decision >>= λ call'.
    if payload.handler_suspension
    then (if not (may_suspend c.registry call'.name)
        then err (handler_undeclared call'.name)
        else ok (will_execute st call' (insert call'.id (context_of payload decision) st.contexts)))
    else (if not (decision.payload == "")
        then err (payload_without_handler call'.id)
        else ok (will_execute st call' st.contexts))

unfoldable pub resolve_return :
    ToolUse → ToolResumeDecision → Resolved → Result ResumeError Resolved
resolve_return call decision st =
    if not (decision.payload == "") || is_some decision.input
    then err (execute_data_with_return call.id)
    else elim decision.result [
      | none ↦ err (return_without_result call.id)
      | some result ↦ elim (validate_tool_result_identity call result) [
        | some e ↦ err (wrong_result e)
        | none ↦ ok (record st { results = insert call.id result st.results })
      ]
    ]

unfoldable pub resolve_as :
    Resuming
    → Config
    → Payload
    → ToolUse
    → ToolResumeAction
    → ToolResumeDecision
    → Resolved
    → Result ResumeError Resolved
resolve_as r c payload call resume_execute decision st =
    resolve_execute r c payload call decision st
resolve_as r c payload call resume_return decision st = resolve_return call decision st
resolve_as r c payload call _ decision st = err (invalid_action call.id)

unfoldable pub resolve_calls :
    Resuming
    → Config
    → Payload
    → List ToolResumeDecision
    → Resolved
    → List ToolUse
    → Result ResumeError Resolved
resolve_calls r c payload decisions st [] = ok st
resolve_calls r c payload decisions st (call ∷ calls) = elim (find_decision call.id decisions) [
  | none ↦ err (missing_decision call.id)
  | some decision ↦ resolve_as r c payload call decision.action decision st >>= λ next.
      resolve_calls r c payload decisions next calls
]

-- Everything that is checked before the first tool runs.
unfoldable pub decide_calls :
    Resuming
    → Config
    → Payload
    → List ToolResumeDecision
    → Result ResumeError (List ToolUse × Resolved)
decide_calls r c payload decisions =
    executable_calls c.output_tool_names payload.calls payload.executable_call_ids >>= λ executable.
    if not (nat_eq (length decisions) (length executable))
    then err (decisions_for_calls (length decisions) (length executable))
    else elim (check_decisions [] decisions) [
      | some e ↦ err e
      | none ↦ resolve_calls r c payload decisions nothing_resolved executable >>= λ st.
          ok (executable, st)
    ]
