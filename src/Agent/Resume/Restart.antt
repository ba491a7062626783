-- ===== src/Agent/Resume/Restart.antt =====
-- The execution of a resumption's decisions, the checks on a suspension and the resumed run:
-- `resolveSuspendedTools` and `resumePreparedWithEvaluator` of execution_loop.go.
use agentic.Prelude.{
  ℕ, String, Bool, true, false, not, ◌||◌, ◌==◌, Option, none, some, List, [], ◌∷◌, Result, ok, err,
  is_empty, length, if◌then◌else◌,
}
use agentic.Message.{Message, ToolUse}
use agentic.Faults.{
  Fault, resume_fault, ResumeError, no_suspended_frontier, missing_identity, frontier_differs,
  identity_differs, configuration_differs, calls_differ, undecodable_payload,
  missing_suspended_calls, payload_version_differs,
}
use agentic.Tools.Scheduler.{Batch}
use agentic.Transcript.{inspect_transcript}
use agentic.Agent.{
  LoopState, Config, Options, EndStrategy, exhaustive, early, Suspension, check_tool_call_limits,
}
use agentic.Agent.Suspend.{
  Sealing, Payload, DecodeError, undecodable, unsupported_version, missing_calls,
  decode_tool_suspension, new_tool_suspension, transcript_of,
}
use agentic.Agent.Batch.{
  RegularTurn, no_turn, execute_admitted_tools, settle_results, validate_suspendable_batch,
  first_fatal,
}
use agentic.Agent.Turn.{Evaluator}
use agentic.Agent.Drive.{Driver, Execution, failed_execution}
use agentic.Agent.Run.{go_on, drive_loop}
use agentic.Agent.Resume.{
  ToolResumeDecision, ResumeInput, ToolResumeContext, Resuming, Resolved, same_tool_calls,
  decide_calls,
}

abbrev pub with_contexts : Options → Resuming → List (String × ToolResumeContext) → Options
with_contexts o r contexts = record o { execute = r.execute_with contexts }

abbrev pub resumed_with : Resolved → RegularTurn
resumed_with st = record no_turn { results = st.results }

-- The results of the calls that ran, or their suspension anew.
unfoldable pub resume_batch :
    Options
    → Config
    → Sealing
    → LoopState
    → Payload
    → RegularTurn
    → List ToolUse
    → Batch
    → LoopState × Result Fault RegularTurn
resume_batch o c seal ls payload st to_execute batch = elim batch.deferral [
  | some deferral ↦ elim (new_tool_suspension seal ls payload.calls to_execute deferral true) [
    | err e ↦ (ls, err e)
    | ok suspension ↦ (ls, ok (record st { suspension = some suspension }))
  ]
  | none ↦
      let (ls', st') = settle_results o c ls st to_execute batch.results in
      (ls', ok (record st' { fatal = first_fatal st'.fatal batch.fault }))
]

unfoldable pub execute_resolved :
    Options
    → Resuming
    → Config
    → Sealing
    → LoopState
    → Payload
    → List ToolUse
    → Resolved
    → LoopState × Result Fault RegularTurn
execute_resolved o r c seal ls payload executable st =
    let (ls', batch) =
      execute_admitted_tools (with_contexts o r st.contexts) c.registry ls st.to_execute in
    let ran = resume_batch o c seal ls' payload (resumed_with st) st.to_execute batch in
    if is_empty st.to_execute
    then (ls, ok (resumed_with st))
    else elim (check_tool_call_limits ls (length st.to_execute)) [
      | some e ↦ (ls, err e)
      | none ↦ elim (validate_suspendable_batch c.registry executable st.to_execute st.to_execute) [
        | some e ↦ (ls, err e)
        | none ↦ ran
      ]
    ]

unfoldable pub resolve_suspended_tools :
    Options
    → Resuming
    → Config
    → Sealing
    → LoopState
    → Payload
    → List ToolResumeDecision
    → LoopState × Result Fault RegularTurn
resolve_suspended_tools o r c seal ls payload decisions =
    elim (decide_calls r c payload decisions) [
      | err e ↦ (ls, err (resume_fault e))
      | ok (executable, st) ↦ execute_resolved o r c seal ls payload executable st
    ]

abbrev of_decode : DecodeError → ResumeError
of_decode (undecodable e) = undecodable_payload
of_decode (unsupported_version v) = payload_version_differs v
of_decode missing_calls = missing_suspended_calls

abbrev pub same_strategy : EndStrategy → EndStrategy → Bool
same_strategy exhaustive exhaustive = true
same_strategy early early = true
same_strategy _ _ = false

-- The checks on a decoded payload.
unfoldable pub check_restored :
    Resuming → LoopState → Suspension → List ToolUse → Payload → Result ResumeError Payload
check_restored r ls suspension frontier payload =
    if not (payload.suspension_id == suspension.id)
      || not (payload.deferral.kind == suspension.kind)
    then err identity_differs
    else if not (payload.config_fingerprint == ls.config_fingerprint)
        || not (same_strategy payload.end_strategy ls.end_strategy)
    then err configuration_differs
    else if not (same_tool_calls r frontier payload.calls)
    then err calls_differ
    else ok payload

unfoldable pub check_suspension :
    Resuming → Sealing → LoopState → Suspension → List ToolUse → Result ResumeError Payload
check_suspension r seal ls suspension frontier =
    if is_empty frontier
    then err no_suspended_frontier
    else if suspension.id == "" || suspension.frontier_hash == ""
    then err missing_identity
    else if not (seal.frontier_hash ls.messages frontier == suspension.frontier_hash)
    then err frontier_differs
    else elim (decode_tool_suspension seal suspension) [
      | err e ↦ err (of_decode e)
      | ok payload ↦ check_restored r ls suspension frontier payload
    ]

unfoldable pub restore : LoopState → Payload → LoopState
restore ls payload = record ls {
  total_usage = payload.usage;
  retry_counts = payload.retry_counts;
  total_retries = payload.total_retries;
  validation_retries = payload.validation_retries;
  iteration = payload.iteration;
  last_finish_reason = payload.last_finish_reason;
}

-- `ls.messages[len(ls.messages)-1]`, of messages that are not empty.
unfoldable pub last_message : Message → List Message → Message
last_message message [] = message
last_message message (next ∷ messages) = last_message next messages

abbrev pub last_of : List Message → Option Message
last_of [] = none
last_of (message ∷ messages) = some (last_message message messages)

module _ {O : Type 0} (o : Options) (r : Resuming) (c : Config) (seal : Sealing) (d : Driver) where
  -- The run of a frontier whose decisions gave `regular`; an open frontier has a last message.
  unfoldable pub drive_resumed :
      Evaluator O
      → ℕ
      → Option Message
      → LoopState
      → Result Fault RegularTurn
      → Option Message
      → Option (LoopState × Execution O)
  drive_resumed evaluate fuel prompt ls (err e) assistant =
      go_on o c seal d evaluate fuel (failed_execution o ls e false)
  drive_resumed evaluate fuel prompt ls (ok regular) none = none
  drive_resumed evaluate fuel prompt ls (ok regular) (some assistant) =
      drive_loop o c seal d evaluate fuel ls
        (some (record { assistant = assistant; regular = regular })) prompt

  abbrev resume_checked :
      Evaluator O
      → ℕ
      → LoopState
      → ResumeInput
      → Result ResumeError Payload
      → Option (LoopState × Execution O)
  resume_checked evaluate fuel ls input (err e) =
      go_on o c seal d evaluate fuel (failed_execution o ls (resume_fault e) false)
  resume_checked evaluate fuel ls input (ok payload) =
      let (ls', regular) =
        resolve_suspended_tools o r c seal (restore ls payload) payload input.decisions in
      drive_resumed evaluate fuel input.prompt ls' regular (last_of ls'.messages)

  unfoldable pub resume_prepared :
      Evaluator O → ℕ → LoopState → ResumeInput → Option (LoopState × Execution O)
  resume_prepared evaluate fuel ls input = elim (transcript_of (inspect_transcript ls.messages)) [
    | err e ↦ go_on o c seal d evaluate fuel (failed_execution o ls e false)
    | ok frontier ↦
        resume_checked evaluate fuel ls input (check_suspension r seal ls input.suspension frontier)
  ]
