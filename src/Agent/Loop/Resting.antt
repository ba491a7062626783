-- ===== src/Agent/Loop/Resting.antt =====
-- The parts of a step of `driveLoop` of execution_loop.go, by the transcript.
use agentic.Prelude.{
  ◌≡◌, refl, sym, ap, ◌∙◌, subst, inl, inr, Bool, true, false, Option, none, some, List, [], ◌∷◌,
  ◌++◌, Result, ok, err, All, Bool-cases, Option-cases,
}
use agentic.Message.{Message}
use agentic.Faults.{Fault, is_canceled}
use agentic.Transcript.{inspect_transcript}
use agentic.Transcript.Admits.{Shut, IsPlain, IsResponse, Shut-plain, inspect_transcript-response}
use agentic.Transcript.Opening.{inspect_transcript-closed}
use agentic.Agent.{
  LoopState, Config, Options, CompletionCandidate, emit, check_post_response_limits,
  assistant_committed, turn_ended, turn_messages_injected,
}
use agentic.Agent.Suspend.{Sealing}
use agentic.Agent.Batch.Kept.{emit-messages}
use agentic.Agent.Turn.{TurnOutcome, Evaluator}
use agentic.Agent.Turn.Closes.{complete_assistant_turn-closes}
use agentic.Agent.Input.{
  TurnAction, TurnDecision, turn_default, turn_continue, turn_stop, other_action,
  validate_turn_decision,
}
use agentic.Agent.Drive.{ChatResponse, HookTurn, Driver}
use agentic.Agent.Loop.{
  act, decide, finish_turn, hook_decision, settle_turn, commit_assistant, after_response,
  take_response, answer_request, response_fault, candidate_meta,
}
use agentic.Agent.Loop.Closed.{
  Rests, failed_execution-Rests, interrupted_execution-Rests, completed_execution-Rests,
  stopped_execution-Rests, suspended_execution-Rests,
}

-- The provider returns such messages, and the hook injects plain ones.
pub record IsPaired (d : Driver) : Type 0 where
  pub responds :
      (ls : LoopState) (messages : List Message) (r : ChatResponse)
      → d.request ls messages ≡ ok r
      → IsResponse r.message
  pub injects :
      (hook : LoopState → HookTurn → Result Fault TurnDecision) (ls : LoopState) (turn : HookTurn)
      (decision : TurnDecision)
      → d.turn_hook ≡ some hook
      → hook ls turn ≡ ok decision
      → All IsPlain decision.inject

ok-eq : {E A : Type 0} {a b : A} → Path (Result E A) (ok a) (ok b) → a ≡ b
ok-eq h = cc

module _ (O : Type 0) (o : Options) (c : Config) (seal : Sealing) (d : Driver) where
  pub act-Rests :
      (ls : LoopState) (candidate : Option (O × CompletionCandidate)) (continuation : Bool)
      (action : TurnAction) (inject : List Message)
      → Shut ls.messages
      → All IsPlain inject
      → Rests (act o c seal d ls candidate continuation action inject)
  unfolding act
  act-Rests ls candidate continuation turn_continue inject e p =
      let ls' : LoopState = record ls { messages = ls.messages ++ inject } in
      let event = turn_messages_injected inject in
      elim (Option-cases (emit o ls' event).1) [
        | inr (x, f) ↦ rw (f, act) (failed_execution-Rests O o _ x true)
        | inl f ↦
            rw (f, act)
              (subst Shut (sym (emit-messages o ls' event)) (Shut-plain ls.messages inject e p))
      ]
  act-Rests ls (some (output, meta)) continuation turn_stop inject e p =
      completed_execution-Rests O o ls output e
  act-Rests ls none continuation turn_stop inject e p = stopped_execution-Rests O o ls e
  act-Rests ls (some (output, meta)) false turn_default inject e p =
      completed_execution-Rests O o ls output e
  act-Rests ls (some (output, meta)) true turn_default inject e p = e
  act-Rests ls none continuation turn_default inject e p = e
  act-Rests ls candidate continuation (other_action n) inject e p =
      failed_execution-Rests O o ls _ false

  pub decide-Rests :
      (ls : LoopState) (outcome : TurnOutcome O) (answer : Result Fault TurnDecision)
      → Shut ls.messages
      → ((decision : TurnDecision) → answer ≡ ok decision → All IsPlain decision.inject)
      → Rests (decide o c seal d ls outcome answer)
  unfolding decide
  decide-Rests ls outcome (err x) e p = failed_execution-Rests O o ls x false
  decide-Rests ls outcome (ok decision) e p =
      elim (Option-cases (validate_turn_decision decision)) [
        | inr (x, f) ↦ rw (f, decide) (failed_execution-Rests O o ls x false)
        | inl f ↦
            rw (f, decide)
              (act-Rests ls outcome.candidate outcome.continuation decision.action decision.inject e
                (p decision refl))
      ]

  hook_decision-IsPlain :
      (ls : LoopState) (outcome : TurnOutcome O) (decision : TurnDecision)
      → IsPaired d
      → hook_decision o c seal d ls outcome ≡ ok decision
      → All IsPlain decision.inject
  hook_decision-IsPlain ls outcome decision w h = elim (Option-cases d.turn_hook) [
    | inl e ↦
        let none_given : record { action = turn_default; inject = [] } ≡ decision =
          ok-eq (rw e at h) in
        subst (λ t. All IsPlain t.inject) none_given tt
    | inr (hook, e) ↦ w.injects hook ls _ decision e (rw e at h)
  ]

  pub finish_turn-Rests :
      (ls : LoopState) (outcome : TurnOutcome O)
      → IsPaired d
      → Shut ls.messages
      → Rests (finish_turn o c seal d ls outcome)
  unfolding finish_turn
  finish_turn-Rests ls outcome w e =
      let event = turn_ended (candidate_meta o c seal d outcome.candidate) ls.total_usage in
      let ls' = (emit o ls event).0 in
      elim (Option-cases (emit o ls event).1) [
        | inr (x, f) ↦ rw (f, finish_turn) (failed_execution-Rests O o _ x true)
        | inl f ↦ elim (Option-cases outcome.fatal) [
          | inr (x, g) ↦ rw (f, g, finish_turn) (failed_execution-Rests O o _ x false)
          | inl g ↦
              rw (f, g, finish_turn)
                (decide-Rests ls' outcome (hook_decision o c seal d ls' outcome)
                  (subst Shut (sym (emit-messages o ls event)) e)
                  (λ decision h. hook_decision-IsPlain ls' outcome decision w h))
        ]
      ]

  pub settle_turn-Rests :
      (ls : LoopState) (outcome : TurnOutcome O)
      → IsPaired d
      → (outcome.suspension ≡ none → Shut ls.messages)
      → Rests (settle_turn o c seal d (ls, outcome))
  unfolding settle_turn
  settle_turn-Rests ls outcome w e = elim (Option-cases outcome.suspension) [
    | inr (suspension, f) ↦ rw (f, settle_turn) (suspended_execution-Rests O o ls suspension)
    | inl f ↦ rw (f, settle_turn) (finish_turn-Rests ls outcome w (e f))
  ]

  pub commit_assistant-Rests :
      (evaluate : Evaluator O) (ls : LoopState) (assistant : Message)
      → IsPaired d
      → inspect_transcript ls.messages ≡ ok []
      → IsResponse assistant
      → Rests (commit_assistant o c seal d evaluate ls assistant)
  unfolding commit_assistant
  commit_assistant-Rests evaluate ls assistant w e r =
      let ls' : LoopState = record ls { messages = ls.messages ++ assistant ∷ [] } in
      let event = assistant_committed assistant in
      let ls'' = (emit o ls' event).0 in
      let shape : ls''.messages ≡ ls.messages ++ assistant ∷ [] = emit-messages o ls' event in
      let (frontier, opened) =
        inspect_transcript-response ls.messages assistant (inspect_transcript-closed ls.messages e)
          r in
      let closes =
        complete_assistant_turn-closes o c seal evaluate ls'' assistant false none ls.messages shape
          e (ap inspect_transcript shape ∙ opened) tt in
      elim (Option-cases (emit o ls' event).1) [
        | inr (x, f) ↦ rw (f, commit_assistant) (failed_execution-Rests O o _ x true)
        | inl f ↦
            rw (f, commit_assistant)
              (settle_turn-Rests _ _ w (λ free. inspect_transcript-closed _ (closes.0 free)))
      ]

  pub take_response-Rests :
      (evaluate : Evaluator O) (ls : LoopState) (response : ChatResponse)
      → IsPaired d
      → inspect_transcript ls.messages ≡ ok []
      → IsResponse response.message
      → Rests (take_response o c seal d evaluate ls response)
  unfolding take_response
  take_response-Rests evaluate ls response w e r =
      elim (Option-cases (check_post_response_limits (after_response ls response))) [
        | inr (x, f) ↦ rw (f, take_response) (failed_execution-Rests O o _ x false)
        | inl f ↦ elim (Option-cases (response_fault response response.finish_reason)) [
          | inr (x, g) ↦ rw (f, g, take_response) (failed_execution-Rests O o _ x false)
          | inl g ↦
              rw (f, g, take_response) (commit_assistant-Rests evaluate _ response.message w e r)
        ]
      ]

  pub answer_request-Rests :
      (evaluate : Evaluator O) (ls : LoopState) (answer : Result Fault ChatResponse)
      → IsPaired d
      → inspect_transcript ls.messages ≡ ok []
      → ((r : ChatResponse) → answer ≡ ok r → IsResponse r.message)
      → Rests (answer_request o c seal d evaluate ls answer)
  unfolding answer_request
  answer_request-Rests evaluate ls (ok response) w e r =
      take_response-Rests evaluate ls response w e (r response refl)
  answer_request-Rests evaluate ls (err x) w e r = elim (Bool-cases (is_canceled x)) [
    | inl f ↦ rw f (interrupted_execution-Rests O o ls x (inspect_transcript-closed ls.messages e))
    | inr f ↦ rw f (failed_execution-Rests O o ls x false)
  ]
