-- ===== src/Agent/Loop/Advances.antt =====
-- The parts of a step of `driveLoop` of execution_loop.go, by the loop's counter.
use agentic.Prelude.{
  ℕ, ◌+◌, ◌≡◌, ap, ◌∙◌, inl, inr, Bool, true, false, Option, none, some, List, [], ◌∷◌, ◌++◌,
  Result, ok, err, Bool-cases, Option-cases,
}
use agentic.Message.{Message}
use agentic.Faults.{Fault, is_canceled}
use agentic.Agent.{
  LoopState, Config, Options, CompletionCandidate, Suspension, emit, check_post_response_limits,
  assistant_committed, turn_ended, run_ended, stopped, completed, run_suspended, run_completed,
  turn_messages_injected,
}
use agentic.Agent.Suspend.{Sealing}
use agentic.Agent.Turn.{TurnOutcome, Evaluator}
use agentic.Agent.Turn.Clock.{clock, emit-clock, complete_assistant_turn-clock}
use agentic.Agent.Input.{
  TurnAction, TurnDecision, turn_default, turn_continue, turn_stop, other_action,
  validate_turn_decision,
}
use agentic.Agent.Drive.{
  ChatResponse, Driver, Step, ends, goes_on, failed_execution, interrupted_execution,
  completed_execution, stopped_execution, suspended_execution,
}
use agentic.Agent.Loop.{
  act, decide, finish_turn, settle_turn, commit_assistant, after_response, take_response,
  answer_request, response_fault, candidate_meta,
}

-- A step from a counter either ends there or goes on at the next.
abbrev pub Advances : {O : Type 0} → ℕ × ℕ → Step O → Type 0
Advances k (ends ls execution) = clock ls ≡ k
Advances k (goes_on ls) = clock ls ≡ (k.0 + 1, k.1)

module _ (O : Type 0) (o : Options) {k : ℕ × ℕ} where
  pub failed_execution-Advances :
      (ls : LoopState) (cause : Fault) (sink : Bool)
      → clock ls ≡ k
      → Advances k (failed_execution {O = O} o ls cause sink)
  unfolding failed_execution
  failed_execution-Advances ls cause true e = e
  failed_execution-Advances ls cause false e = emit-clock o _ _ ∙ (emit-clock o ls _ ∙ e)

  pub interrupted_execution-Advances :
      (ls : LoopState) (cause : Fault)
      → clock ls ≡ k
      → Advances k (interrupted_execution {O = O} o ls cause)
  unfolding interrupted_execution
  interrupted_execution-Advances ls cause e = emit-clock o _ _ ∙ (emit-clock o ls _ ∙ e)

  pub stopped_execution-Advances :
      (ls : LoopState) → clock ls ≡ k → Advances k (stopped_execution {O = O} o ls)
  unfolding stopped_execution
  stopped_execution-Advances ls e = elim (Option-cases (emit o ls (run_ended stopped)).1) [
    | inl f ↦ rw (f, stopped_execution) (emit-clock o ls _ ∙ e)
    | inr (x, f) ↦
        rw (f, stopped_execution) (failed_execution-Advances _ x true (emit-clock o ls _ ∙ e))
  ]

  pub suspended_execution-Advances :
      (ls : LoopState) (suspension : Suspension)
      → clock ls ≡ k
      → Advances k (suspended_execution {O = O} o ls suspension)
  unfolding suspended_execution
  suspended_execution-Advances ls suspension e =
      elim (Option-cases (emit o ls (run_suspended suspension)).1) [
        | inl f ↦ rw (f, suspended_execution) (emit-clock o ls _ ∙ e)
        | inr (x, f) ↦
            rw (f, suspended_execution) (failed_execution-Advances _ x true (emit-clock o ls _ ∙ e))
      ]

  pub completed_execution-Advances :
      (ls : LoopState) (output : O) → clock ls ≡ k → Advances k (completed_execution o ls output)
  unfolding completed_execution
  completed_execution-Advances ls output e =
      let event = run_completed ls.total_usage ls.last_finish_reason in
      let first = emit-clock o ls event ∙ e in
      elim (Option-cases (emit o ls event).1) [
        | inr (x, f) ↦ rw (f, completed_execution) (failed_execution-Advances _ x true first)
        | inl f ↦ elim (Option-cases (emit o (emit o ls event).0 (run_ended completed)).1) [
          | inr (x, g) ↦
              rw (f, g, completed_execution)
                (failed_execution-Advances _ x true (emit-clock o _ _ ∙ first))
          | inl g ↦ rw (f, g, completed_execution) (emit-clock o _ _ ∙ first)
        ]
      ]

module _ (O : Type 0) (o : Options) (c : Config) (seal : Sealing) (d : Driver) {k : ℕ × ℕ} where
  pub act-Advances :
      (ls : LoopState) (candidate : Option (O × CompletionCandidate)) (continuation : Bool)
      (action : TurnAction) (inject : List Message)
      → clock ls ≡ k
      → Advances k (act o c seal d ls candidate continuation action inject)
  unfolding act
  act-Advances ls candidate continuation turn_continue inject e =
      let ls' : LoopState = record ls { messages = ls.messages ++ inject } in
      let same = emit-clock o ls' (turn_messages_injected inject) ∙ e in
      elim (Option-cases (emit o ls' (turn_messages_injected inject)).1) [
        | inr (x, f) ↦ rw (f, act) (failed_execution-Advances O o _ x true same)
        | inl f ↦ rw (f, act) (ap (λ k. (k.0 + 1, k.1)) same)
      ]
  act-Advances ls (some (output, meta)) continuation turn_stop inject e =
      completed_execution-Advances O o ls output e
  act-Advances ls none continuation turn_stop inject e = stopped_execution-Advances O o ls e
  act-Advances ls (some (output, meta)) false turn_default inject e =
      completed_execution-Advances O o ls output e
  act-Advances ls (some (output, meta)) true turn_default inject e = ap (λ k. (k.0 + 1, k.1)) e
  act-Advances ls none continuation turn_default inject e = ap (λ k. (k.0 + 1, k.1)) e
  act-Advances ls candidate continuation (other_action n) inject e =
      failed_execution-Advances O o ls _ false e

  pub decide-Advances :
      (ls : LoopState) (outcome : TurnOutcome O) (answer : Result Fault TurnDecision)
      → clock ls ≡ k
      → Advances k (decide o c seal d ls outcome answer)
  unfolding decide
  decide-Advances ls outcome (err x) e = failed_execution-Advances O o ls x false e
  decide-Advances ls outcome (ok decision) e =
      elim (Option-cases (validate_turn_decision decision)) [
        | inr (x, f) ↦ rw (f, decide) (failed_execution-Advances O o ls x false e)
        | inl f ↦
            rw (f, decide)
              (act-Advances ls outcome.candidate outcome.continuation decision.action
                decision.inject e)
      ]

  pub finish_turn-Advances :
      (ls : LoopState) (outcome : TurnOutcome O)
      → clock ls ≡ k
      → Advances k (finish_turn o c seal d ls outcome)
  unfolding finish_turn
  finish_turn-Advances ls outcome e =
      let event = turn_ended (candidate_meta o c seal d outcome.candidate) ls.total_usage in
      let same = emit-clock o ls event ∙ e in
      elim (Option-cases (emit o ls event).1) [
        | inr (x, f) ↦ rw (f, finish_turn) (failed_execution-Advances O o _ x true same)
        | inl f ↦ elim (Option-cases outcome.fatal) [
          | inr (x, g) ↦ rw (f, g, finish_turn) (failed_execution-Advances O o _ x false same)
          | inl g ↦ rw (f, g, finish_turn) (decide-Advances _ outcome _ same)
        ]
      ]

  pub settle_turn-Advances :
      (ls : LoopState) (outcome : TurnOutcome O)
      → clock ls ≡ k
      → Advances k (settle_turn o c seal d (ls, outcome))
  unfolding settle_turn
  settle_turn-Advances ls outcome e = elim (Option-cases outcome.suspension) [
    | inr (suspension, f) ↦ rw (f, settle_turn) (suspended_execution-Advances O o ls suspension e)
    | inl f ↦ rw (f, settle_turn) (finish_turn-Advances ls outcome e)
  ]

  pub commit_assistant-Advances :
      (evaluate : Evaluator O) (ls : LoopState) (assistant : Message)
      → clock ls ≡ k
      → Advances k (commit_assistant o c seal d evaluate ls assistant)
  unfolding commit_assistant
  commit_assistant-Advances evaluate ls assistant e =
      let ls' : LoopState = record ls { messages = ls.messages ++ assistant ∷ [] } in
      let same = emit-clock o ls' (assistant_committed assistant) ∙ e in
      elim (Option-cases (emit o ls' (assistant_committed assistant)).1) [
        | inr (x, f) ↦ rw (f, commit_assistant) (failed_execution-Advances O o _ x true same)
        | inl f ↦
            rw (f, commit_assistant)
              (settle_turn-Advances _ _
                (complete_assistant_turn-clock o c seal evaluate _ assistant false none ∙ same))
      ]

  pub take_response-Advances :
      (evaluate : Evaluator O) (ls : LoopState) (response : ChatResponse)
      → clock ls ≡ k
      → Advances k (take_response o c seal d evaluate ls response)
  unfolding take_response
  take_response-Advances evaluate ls response e =
      elim (Option-cases (check_post_response_limits (after_response ls response))) [
        | inr (x, f) ↦ rw (f, take_response) (failed_execution-Advances O o _ x false e)
        | inl f ↦ elim (Option-cases (response_fault response response.finish_reason)) [
          | inr (x, g) ↦ rw (f, g, take_response) (failed_execution-Advances O o _ x false e)
          | inl g ↦
              rw (f, g, take_response) (commit_assistant-Advances evaluate _ response.message e)
        ]
      ]

  pub answer_request-Advances :
      (evaluate : Evaluator O) (ls : LoopState) (answer : Result Fault ChatResponse)
      → clock ls ≡ k
      → Advances k (answer_request o c seal d evaluate ls answer)
  unfolding answer_request
  answer_request-Advances evaluate ls (ok response) e =
      take_response-Advances evaluate ls response e
  answer_request-Advances evaluate ls (err x) e = elim (Bool-cases (is_canceled x)) [
    | inl f ↦ rw f (interrupted_execution-Advances O o ls x e)
    | inr f ↦ rw f (failed_execution-Advances O o ls x false e)
  ]
