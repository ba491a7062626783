-- ===== src/Agent/Loop/Paired.antt =====
-- The loop of `driveLoop` of execution_loop.go, by the transcript of its result.
use agentic.Prelude.{
  ℕ, zero, suc, ◌-◌, ◌≡◌, ◌<◌, ◌≤◌, ap, ◌∙◌, subst, inl, inr, true, false, some, [], ok, Bool-cases,
  Option-cases, Result-cases, leb,
}
use agentic.Transcript.{inspect_transcript}
use agentic.Transcript.Admits.{Shut, IsResponse, inspect_transcript_of_Shut}
use agentic.Transcript.Opening.{inspect_transcript-closed}
use agentic.Agent.{LoopState, Config, Options, emit, check_pre_request_limits, turn_started}
use agentic.Agent.Suspend.{Sealing}
use agentic.Agent.Batch.Kept.{emit-messages}
use agentic.Agent.Turn.{Evaluator}
use agentic.Agent.Drive.{ChatResponse, Driver, Execution, ends, goes_on}
use agentic.Agent.Loop.{request_turn, build_request, turn_step, turn_loop}
use agentic.Agent.Loop.Ends.{turn_loop-ends, Step-cases}
use agentic.Agent.Loop.Closed.{
  Rests, is_settled, failed_execution-Rests, interrupted_execution-Rests,
}
use agentic.Agent.Loop.Resting.{IsPaired, answer_request-Rests}

some-eq : {A B : Type 0} {a b : A × B} → some a ≡ some b → a.1 ≡ b.1
some-eq h = cc

request_turn-IsResponse :
    (d : Driver) (ls : LoopState) (r : ChatResponse)
    → IsPaired d
    → request_turn d ls ≡ ok r
    → IsResponse r.message
unfolding request_turn
request_turn-IsResponse d ls r w h = elim (Result-cases (build_request d ls)) [
  | inr (x, e) ↦ cc
  | inl (messages, e) ↦ elim (Result-cases (d.request ls messages)) [
    | inr (x, f) ↦ cc
    | inl (response, f) ↦
        let same : response ≡ r = cc in
        subst (λ t. IsResponse t.message) same (w.responds ls messages response f)
  ]
]

module _ {O : Type 0} (o : Options) (c : Config) (seal : Sealing) (d : Driver) where
  turn_step-Rests :
      (evaluate : Evaluator O) (ls : LoopState)
      → IsPaired d
      → inspect_transcript ls.messages ≡ ok []
      → Rests (turn_step o c seal d evaluate ls)
  unfolding turn_step
  turn_step-Rests evaluate ls w e = elim (Option-cases (d.context_error ls)) [
    | inr (x, a) ↦
        rw (a, turn_step)
          (interrupted_execution-Rests O o ls x (inspect_transcript-closed ls.messages e))
    | inl a ↦ elim (Bool-cases (leb ls.max_iterations ls.iteration)) [
      | inl b ↦ rw (a, b, turn_step) (failed_execution-Rests O o ls _ false)
      | inr b ↦ elim (Option-cases (check_pre_request_limits ls)) [
        | inr (x, f) ↦ rw (a, b, f, turn_step) (failed_execution-Rests O o ls x false)
        | inl f ↦ elim (Option-cases (emit o ls turn_started).1) [
          | inr (x, g) ↦ rw (a, b, f, g, turn_step) (failed_execution-Rests O o _ x true)
          | inl g ↦
              let ls' = (emit o ls turn_started).0 in
              rw (a, b, f, g, turn_step)
                (answer_request-Rests O o c seal d evaluate ls' (request_turn d ls') w
                  (ap inspect_transcript (emit-messages o ls turn_started) ∙ e)
                  (λ r h. request_turn-IsResponse d ls' r w h))
        ]
      ]
    ]
  ]

  turn_loop-Rests :
      (evaluate : Evaluator O) (fuel : ℕ) (ls ls' : LoopState) (execution : Execution O)
      → IsPaired d
      → inspect_transcript ls.messages ≡ ok []
      → turn_loop o c seal d evaluate fuel ls ≡ some (ls', execution)
      → is_settled execution.status ≡ true
      → inspect_transcript execution.result.messages ≡ ok []
  unfolding turn_loop
  turn_loop-Rests evaluate zero ls ls' execution w e h t = cc
  turn_loop-Rests evaluate (suc fuel) ls ls' execution w e h t =
      elim (Step-cases (turn_step o c seal d evaluate ls)) [
        | inl (last, ended, f) ↦
            let rests : Rests (ends last ended) = subst Rests f (turn_step-Rests evaluate ls w e) in
            let same : ended ≡ execution = some-eq (rw (f, turn_loop) at h) in
            inspect_transcript_of_Shut _
              (subst (λ x. is_settled x.status ≡ true → Shut x.result.messages) same rests t)
        | inr (next, f) ↦
            let rests : Rests {O = O} (goes_on next) =
              subst Rests f (turn_step-Rests evaluate ls w e) in
            turn_loop-Rests evaluate fuel next ls' execution w
              (inspect_transcript_of_Shut next.messages rests) (rw (f, turn_loop) at h) t
      ]

  -- From a closed transcript and within the bound, with a provider and a hook as `IsPaired` says
  -- and with more fuel than the iterations that are left, the loop returns an execution, and if the
  -- run is completed, stopped or interrupted, the messages of its result are a well-formed
  -- transcript in which every call is answered.
  pub turn_loop-pairs :
      (evaluate : Evaluator O) (fuel : ℕ) (ls : LoopState)
      → IsPaired d
      → inspect_transcript ls.messages ≡ ok []
      → ls.max_iterations - ls.iteration < fuel
      → ls.iteration ≤ ls.max_iterations
      → (ls' : LoopState) × (execution : Execution O) × (turn_loop o c seal d evaluate fuel ls
          ≡ some (ls', execution))
        × (is_settled execution.status ≡ true
            → inspect_transcript execution.result.messages ≡ ok [])
  turn_loop-pairs evaluate fuel ls w e h b =
      let (ls', execution, found, low) = turn_loop-ends o c seal d evaluate fuel ls h b in
      (ls', execution, found, λ t. turn_loop-Rests evaluate fuel ls ls' execution w e found t)
