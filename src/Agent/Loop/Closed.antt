-- ===== src/Agent/Loop/Closed.antt =====
-- The executions of execution_loop.go, by the transcript of their results.
use agentic.Prelude.{◌≡◌, sym, ◌∙◌, subst, inl, inr, Bool, true, false, Option-cases}
use agentic.Faults.{Fault}
use agentic.Transcript.Admits.{Shut}
use agentic.Agent.{
  LoopState, Options, Suspension, emit, run_ended, failed, stopped, completed, suspended,
  interrupted, ExecutionStatus, run_suspended, run_completed, run_interrupted,
}
use agentic.Agent.Batch.Kept.{emit-messages}
use agentic.Agent.Drive.{
  Step, ends, goes_on, failed_execution, interrupted_execution, completed_execution,
  stopped_execution, suspended_execution, make_result,
}

-- The ends of a run that the loop chose, and an interruption between turns.
abbrev pub is_settled : ExecutionStatus → Bool
is_settled completed = true
is_settled stopped = true
is_settled interrupted = true
is_settled suspended = false
is_settled failed = false

-- A step that goes on leaves the state's transcript closed, and one that ends so that of the
-- result.
abbrev pub Rests : {O : Type 0} → Step O → Type 0
Rests (ends ls execution) = is_settled execution.status ≡ true → Shut execution.result.messages
Rests (goes_on ls) = Shut ls.messages

module _ (O : Type 0) (o : Options) where
  pub failed_execution-Rests :
      (ls : LoopState) (cause : Fault) (sink : Bool)
      → Rests (failed_execution {O = O} o ls cause sink)
  unfolding failed_execution
  failed_execution-Rests ls cause true = λ h. cc
  failed_execution-Rests ls cause false = λ h. cc

  pub interrupted_execution-Rests :
      (ls : LoopState) (cause : Fault)
      → Shut ls.messages
      → Rests (interrupted_execution {O = O} o ls cause)
  unfolding interrupted_execution make_result
  interrupted_execution-Rests ls cause e = λ h.
      subst Shut
        (sym (
          emit-messages o (emit o ls run_interrupted).0 (run_ended interrupted)
          ∙ emit-messages o ls run_interrupted))
        e

  pub stopped_execution-Rests :
      (ls : LoopState) → Shut ls.messages → Rests (stopped_execution {O = O} o ls)
  unfolding stopped_execution make_result
  stopped_execution-Rests ls e = elim (Option-cases (emit o ls (run_ended stopped)).1) [
    | inl f ↦ rw (f, stopped_execution) (λ h. e)
    | inr (x, f) ↦ rw (f, stopped_execution) (failed_execution-Rests _ x true)
  ]

  pub suspended_execution-Rests :
      (ls : LoopState) (suspension : Suspension)
      → Rests (suspended_execution {O = O} o ls suspension)
  unfolding suspended_execution
  suspended_execution-Rests ls suspension =
      elim (Option-cases (emit o ls (run_suspended suspension)).1) [
        | inl f ↦ rw (f, suspended_execution) (λ h. cc)
        | inr (x, f) ↦ rw (f, suspended_execution) (failed_execution-Rests _ x true)
      ]

  pub completed_execution-Rests :
      (ls : LoopState) (output : O) → Shut ls.messages → Rests (completed_execution o ls output)
  unfolding completed_execution make_result
  completed_execution-Rests ls output e =
      let event = run_completed ls.total_usage ls.last_finish_reason in
      elim (Option-cases (emit o ls event).1) [
        | inr (x, f) ↦ rw (f, completed_execution) (failed_execution-Rests _ x true)
        | inl f ↦ elim (Option-cases (emit o (emit o ls event).0 (run_ended completed)).1) [
          | inr (x, g) ↦ rw (f, g, completed_execution) (failed_execution-Rests _ x true)
          | inl g ↦ rw (f, g, completed_execution) (λ h. e)
        ]
      ]
