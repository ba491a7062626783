-- ===== src/Agent/Loop/Ends.antt =====
-- The loop of `driveLoop` of execution_loop.go, by the loop's counter and its bound.
use agentic.Prelude.{
  ℕ, zero, suc, ◌+◌, ◌-◌, ◌≡◌, ◌<◌, ◌≤◌, refl, ap, subst, inl, inr, ◌⊎◌, Bool, true, false, some,
  Bool-cases, Option-cases, arith, leb,
}
use agentic.Faults.{Fault}
use agentic.Agent.{LoopState, Config, Options, emit, check_pre_request_limits, turn_started}
use agentic.Agent.Suspend.{Sealing}
use agentic.Agent.Turn.{Evaluator}
use agentic.Agent.Turn.Clock.{clock, emit-clock}
use agentic.Agent.Drive.{
  Driver, Execution, Step, ends, goes_on, failed_execution, interrupted_execution,
}
use agentic.Agent.Loop.{turn_step, turn_loop}
use agentic.Agent.Loop.Advances.{
  Advances, failed_execution-Advances, interrupted_execution-Advances, answer_request-Advances,
}

abbrev Ended : {O : Type 0} → Step O → Type 0
Ended (ends ls execution) = Unit {0}
Ended (goes_on ls) = ⊥

failed_execution-Ended :
    (O : Type 0) (o : Options) (ls : LoopState) (cause : Fault) (sink : Bool)
    → Ended (failed_execution {O = O} o ls cause sink)
unfolding failed_execution
failed_execution-Ended O o ls cause true = tt
failed_execution-Ended O o ls cause false = tt

interrupted_execution-Ended :
    (O : Type 0) (o : Options) (ls : LoopState) (cause : Fault)
    → Ended (interrupted_execution {O = O} o ls cause)
unfolding interrupted_execution
interrupted_execution-Ended O o ls cause = tt

pub Step-cases :
    {O : Type 0} (step : Step O)
    → ((ls : LoopState) × (execution : Execution O) × (step ≡ ends ls execution))
      ⊎ ((ls : LoopState) × (step ≡ goes_on ls))
Step-cases (ends ls execution) = inl (ls, execution, refl)
Step-cases (goes_on ls) = inr (ls, refl)

-- A step of the loop: it ends within the bound, or it counts one turn and was below the bound.
abbrev Ticks : {O : Type 0} → LoopState → Step O → Type 0
Ticks ls (ends ls' execution) = clock ls' ≡ clock ls
Ticks ls (goes_on ls') =
    (ls'.iteration ≡ ls.iteration + 1)
    × (ls'.max_iterations ≡ ls.max_iterations)
    × (ls.iteration < ls.max_iterations)

ticks :
    {O : Type 0} (ls : LoopState) (step : Step O)
    → (ls.iteration < ls.max_iterations) ⊎ Ended step
    → Advances (clock ls) step
    → Ticks ls step
ticks ls (ends ls' execution) b e = e
ticks ls (goes_on ls') (inl b) e = (ap (λ k. k.0) e, ap (λ k. k.1) e, b)
ticks ls (goes_on ls') (inr b) e = absurd b

module _ {O : Type 0} (o : Options) (c : Config) (seal : Sealing) (d : Driver) where
  turn_step-Ticks :
      (evaluate : Evaluator O) (ls : LoopState) → Ticks ls (turn_step o c seal d evaluate ls)
  unfolding turn_step
  turn_step-Ticks evaluate ls = elim (Option-cases (d.context_error ls)) [
    | inr (x, e) ↦
        rw (e, turn_step)
          (ticks ls _ (inr (interrupted_execution-Ended O o ls x))
            (interrupted_execution-Advances O o ls x refl))
    | inl e ↦ elim (Bool-cases (leb ls.max_iterations ls.iteration)) [
      | inl b ↦
          rw (e, b, turn_step)
            (ticks ls _ (inr (failed_execution-Ended O o ls _ false))
              (failed_execution-Advances O o ls _ false refl))
      | inr b ↦
          let under : ls.iteration < ls.max_iterations = ground arith in
          elim (Option-cases (check_pre_request_limits ls)) [
            | inr (x, f) ↦
                rw (e, b, f, turn_step)
                  (ticks ls _ (inl under) (failed_execution-Advances O o ls x false refl))
            | inl f ↦ elim (Option-cases (emit o ls turn_started).1) [
              | inr (x, g) ↦
                  rw (e, b, f, g, turn_step)
                    (ticks ls _ (inl under)
                      (failed_execution-Advances O o _ x true (emit-clock o ls turn_started)))
              | inl g ↦
                  rw (e, b, f, g, turn_step)
                    (ticks ls _ (inl under) (
                      answer_request-Advances O o c seal d evaluate _ _
                        (emit-clock o ls turn_started)))
            ]
          ]
    ]
  ]

  -- For a loop that begins within its bound, fuel that exceeds the iterations left is enough: it
  -- returns an execution, whatever the provider, the gate, the handlers, the hook and the sink
  -- answer, and its counter has not passed the bound.
  pub turn_loop-ends :
      (evaluate : Evaluator O) (fuel : ℕ) (ls : LoopState)
      → ls.max_iterations - ls.iteration < fuel
      → ls.iteration ≤ ls.max_iterations
      → (ls' : LoopState) × (execution : Execution O) × (turn_loop o c seal d evaluate fuel ls
          ≡ some (ls', execution))
        × (ls'.iteration ≤ ls.max_iterations)
  unfolding turn_loop
  turn_loop-ends evaluate zero ls h b = absurd (omega arith)
  turn_loop-ends evaluate (suc fuel) ls h b = elim (Step-cases (turn_step o c seal d evaluate ls)) [
    | inl (ls', execution, e) ↦
        let same : clock ls' ≡ clock ls = subst (Ticks ls) e (turn_step-Ticks evaluate ls) in
        let low : ls'.iteration ≡ ls.iteration = ap (λ k. k.0) same in
        (ls', execution, rw (e, turn_loop) refl, omega arith)
    | inr (ls', e) ↦
        let (next, same, under) : Ticks {O = O} ls (goes_on ls') =
          subst (Ticks ls) e (turn_step-Ticks evaluate ls) in
        let (ls'', execution, found, low) =
          turn_loop-ends evaluate fuel ls' (omega arith) (omega arith) in
        (ls'', execution, rw (e, turn_loop) found, omega arith)
  ]
