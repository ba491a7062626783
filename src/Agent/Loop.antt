-- ===== src/Agent/Loop.antt =====
-- The steps of `driveLoop` and `finishTurn` of execution_loop.go over the executions of
-- `Agent.Drive`, for a provider that returns whole responses. One turn is one step, and the loop
-- takes fuel. Of a request its messages are modelled; its settings and the preparation of its tools
-- are left out.
pub mod Advances
pub mod Ends
pub mod Closed
pub mod Resting
pub mod Paired
use agentic.Prelude.{
  ℕ, zero, suc, ◌+◌, String, Bool, true, false, not, ◌&&◌, Option, none, some, List, [], ◌∷◌, ◌++◌,
  Result, ok, err, leb, if◌then◌else◌, is_empty, is_some,
}
use agentic.Message.{Message, ToolUse}
use agentic.Faults.{
  Fault, wrapped, turn_fault, unknown_action, max_iterations_reached, provider_error, is_canceled,
}
use agentic.Usage.{Usage, add}
use agentic.Agent.{
  LoopState, Config, Options, FinishReason, error_reason, length_limit, CompletionCandidate,
  no_candidate, Suspension, emit, check_pre_request_limits, check_post_response_limits,
  turn_started, assistant_committed, turn_messages_injected, turn_ended, run_started,
}
use agentic.Agent.Suspend.{Sealing}
use agentic.Agent.Batch.{RegularTurn}
use agentic.Agent.Turn.{TurnOutcome, Evaluator, complete_assistant_turn}
use agentic.Agent.Input.{
  TurnAction, TurnDecision, turn_default, turn_continue, turn_stop, other_action,
  validate_turn_decision,
}
use agentic.Agent.Drive.{
  ChatResponse, HookTurn, Driver, Execution, Step, ends, goes_on, failed_execution,
  interrupted_execution, completed_execution, stopped_execution, suspended_execution,
}

abbrev pub next_iteration : LoopState → LoopState
next_iteration ls = record ls { iteration = ls.iteration + 1 }

-- `buildRequest`: the messages of the request.
unfoldable pub build_request : Driver → LoopState → Result Fault (List Message)
build_request d ls = elim d.history_processor [
  | none ↦ ok ls.messages
  | some process ↦ elim (process ls.messages) [
    | ok messages ↦ ok messages
    | err e ↦ err (wrapped "history processor" e)
  ]
]

unfoldable pub request_turn : Driver → LoopState → Result Fault ChatResponse
request_turn d ls = elim (build_request d ls) [
  | err e ↦ err e
  | ok messages ↦ elim (d.request ls messages) [
    | ok response ↦ ok response
    | err e ↦ err (wrapped "model request" e)
  ]
]

-- A response that is no usable turn.
abbrev pub response_fault : ChatResponse → FinishReason → Option Fault
response_fault r error_reason = some (provider_error r.raw_finish_reason)
response_fault r length_limit =
    some (provider_error "response reached its output limit before completing a turn")
response_fault r _ =
    if is_empty r.message.content
    then some (provider_error "empty response from provider")
    else none

abbrev pub after_response : LoopState → ChatResponse → LoopState
after_response ls r = record ls { total_usage = add ls.total_usage r.usage }

module _ {O : Type 0} (o : Options) (c : Config) (seal : Sealing) (d : Driver) where
  abbrev candidate_meta : Option (O × CompletionCandidate) → CompletionCandidate
  candidate_meta none = no_candidate
  candidate_meta (some (output, meta)) = meta

  abbrev hook_decision : LoopState → TurnOutcome O → Result Fault TurnDecision
  hook_decision ls outcome = elim d.turn_hook [
    | none ↦ ok (record { action = turn_default; inject = [] })
    | some hook ↦ hook ls (record {
      index = ls.iteration;
      messages = ls.messages;
      assistant = outcome.assistant;
      results = outcome.results;
      usage = ls.total_usage;
      candidate = candidate_meta outcome.candidate;
    })
  ]

  -- The switch on the action of a valid decision.
  unfoldable pub act :
      LoopState → Option (O × CompletionCandidate) → Bool → TurnAction → List Message → Step O
  act ls candidate continuation turn_continue inject =
      let ls' : LoopState = record ls { messages = ls.messages ++ inject } in
      let (ls'', fault) = emit o ls' (turn_messages_injected inject) in
      elim fault [ some e ↦ failed_execution o ls'' e true | none ↦ goes_on (next_iteration ls'') ]
  act ls (some (output, meta)) continuation turn_stop inject = completed_execution o ls output
  act ls none continuation turn_stop inject = stopped_execution o ls
  act ls (some (output, meta)) false turn_default inject = completed_execution o ls output
  act ls (some (output, meta)) true turn_default inject = goes_on (next_iteration ls)
  act ls none continuation turn_default inject = goes_on (next_iteration ls)
  act ls candidate continuation (other_action n) inject =
      failed_execution o ls (turn_fault unknown_action) false

  unfoldable pub decide : LoopState → TurnOutcome O → Result Fault TurnDecision → Step O
  decide ls outcome (err e) = failed_execution o ls e false
  decide ls outcome (ok decision) = elim (validate_turn_decision decision) [
    | some e ↦ failed_execution o ls e false
    | none ↦ act ls outcome.candidate outcome.continuation decision.action decision.inject
  ]

  -- `finishTurn`.
  unfoldable pub finish_turn : LoopState → TurnOutcome O → Step O
  finish_turn ls outcome =
      let (ls', fault) = emit o ls (turn_ended (candidate_meta outcome.candidate) ls.total_usage) in
      elim fault [
        | some e ↦ failed_execution o ls' e true
        | none ↦ elim outcome.fatal [
          | some e ↦ failed_execution o ls' e false
          | none ↦ decide ls' outcome (hook_decision ls' outcome)
        ]
      ]

  -- The end of a turn: its frontier is left open, or the turn is finished.
  unfoldable pub settle_turn : LoopState × TurnOutcome O → Step O
  settle_turn (ls, outcome) = elim outcome.suspension [
    | some suspension ↦ suspended_execution o ls suspension
    | none ↦ finish_turn ls outcome
  ]

  -- The assistant message is committed and its turn is completed.
  unfoldable pub commit_assistant : Evaluator O → LoopState → Message → Step O
  commit_assistant evaluate ls assistant =
      let ls' : LoopState = record ls { messages = ls.messages ++ assistant ∷ [] } in
      let (ls'', fault) = emit o ls' (assistant_committed assistant) in
      elim fault [
        | some e ↦ failed_execution o ls'' e true
        | none ↦ settle_turn (complete_assistant_turn o c seal evaluate ls'' assistant false none)
      ]

  unfoldable pub take_response : Evaluator O → LoopState → ChatResponse → Step O
  take_response evaluate ls response =
      let ls' = after_response ls response in
      let ls'' : LoopState = record ls' { last_finish_reason = response.finish_reason } in
      elim (check_post_response_limits ls') [
        | some e ↦ failed_execution o ls' e false
        | none ↦ elim (response_fault response response.finish_reason) [
          | some e ↦ failed_execution o ls'' e false
          | none ↦ commit_assistant evaluate ls'' response.message
        ]
      ]

  unfoldable pub answer_request : Evaluator O → LoopState → Result Fault ChatResponse → Step O
  answer_request evaluate ls (ok response) = take_response evaluate ls response
  answer_request evaluate ls (err e) =
      if is_canceled e then interrupted_execution o ls e else failed_execution o ls e false

  -- The body of the loop.
  unfoldable pub turn_step : Evaluator O → LoopState → Step O
  turn_step evaluate ls = elim (d.context_error ls) [
    | some e ↦ interrupted_execution o ls e
    | none ↦
        if leb ls.max_iterations ls.iteration
        then failed_execution o ls (max_iterations_reached ls.max_iterations) false
        else elim (check_pre_request_limits ls) [
          | some e ↦ failed_execution o ls e false
          | none ↦
              let (ls', fault) = emit o ls turn_started in
              elim fault [
                | some e ↦ failed_execution o ls' e true
                | none ↦ answer_request evaluate ls' (request_turn d ls')
              ]
        ]
  ]

  -- The loop, on fuel; `none` means that the fuel ran out.
  unfoldable pub turn_loop : Evaluator O → ℕ → LoopState → Option (LoopState × Execution O)
  turn_loop evaluate zero ls = none
  turn_loop evaluate (suc fuel) ls = elim (turn_step evaluate ls) [
    | ends ls' execution ↦ some (ls', execution)
    | goes_on ls' ↦ turn_loop evaluate fuel ls'
  ]
