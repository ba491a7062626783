-- ===== src/Agent/Run.antt =====
-- `driveLoop` of execution_loop.go from its start: the announcement of the run, a resumed turn if
-- there is one, and the loop.
pub mod Returns
use agentic.Prelude.{ℕ, Bool, true, Option, none, some, List, [], ◌∷◌, ◌++◌, is_some, if◌then◌else◌}
use agentic.Message.{Message}
use agentic.Agent.{LoopState, Config, Options, emit, run_started, turn_messages_injected}
use agentic.Agent.Suspend.{Sealing}
use agentic.Agent.Batch.{RegularTurn}
use agentic.Agent.Turn.{TurnOutcome, Evaluator, complete_assistant_turn}
use agentic.Agent.Drive.{
  Driver, Execution, Step, ends, goes_on, failed_execution, suspended_execution,
}
use agentic.Agent.Loop.{finish_turn, turn_loop}

-- `resumeTurn`.
pub record ResumeTurn : Type 0 where
  pub assistant : Message
  pub regular : RegularTurn

module _ {O : Type 0} (o : Options) (c : Config) (seal : Sealing) (d : Driver) where
  -- The prompt of a resumed run follows the results, unless the turn has failed.
  unfoldable pub inject_prompt :
      Option Message → LoopState → TurnOutcome O → LoopState × TurnOutcome O
  inject_prompt none ls outcome = (ls, outcome)
  inject_prompt (some prompt) ls outcome =
      let ls' : LoopState = record ls { messages = ls.messages ++ prompt ∷ [] } in
      let (ls'', fault) = emit o ls' (turn_messages_injected (prompt ∷ [])) in
      if is_some outcome.fatal
      then (ls, outcome)
      else (ls'', record outcome { continuation = true; fatal = fault })

  -- The turn whose frontier was left open is completed with the results that it was resumed with.
  unfoldable pub resume_turn : Evaluator O → LoopState → ResumeTurn → Option Message → Step O
  resume_turn evaluate ls resumed prompt =
      let (ls', outcome) =
        complete_assistant_turn o c seal evaluate ls resumed.assistant true
          (some resumed.regular) in
      elim outcome.suspension [
        | some suspension ↦ suspended_execution o ls' suspension
        | none ↦
            let (ls'', outcome') = inject_prompt prompt ls' outcome in
            finish_turn o c seal d ls'' outcome'
      ]

  unfoldable pub go_on : Evaluator O → ℕ → Step O → Option (LoopState × Execution O)
  go_on evaluate fuel (ends ls execution) = some (ls, execution)
  go_on evaluate fuel (goes_on ls) = turn_loop o c seal d evaluate fuel ls

  unfoldable pub begin_run : Evaluator O → LoopState → Option ResumeTurn → Option Message → Step O
  begin_run evaluate ls resumed prompt =
      let (ls', fault) = emit o ls run_started in
      elim fault [
        | some e ↦ failed_execution o ls' e true
        | none ↦ elim resumed [
          | none ↦ goes_on ls'
          | some turn ↦ resume_turn evaluate ls' turn prompt
        ]
      ]

  unfoldable pub drive_loop :
      Evaluator O
      → ℕ
      → LoopState
      → Option ResumeTurn
      → Option Message
      → Option (LoopState × Execution O)
  drive_loop evaluate fuel ls resumed prompt =
      go_on evaluate fuel (begin_run evaluate ls resumed prompt)
