-- ===== src/Agent/Run/Returns.antt =====
-- `driveLoop` of execution_loop.go from its start, by what it returns.
use agentic.Prelude.{
  ℕ, ◌+◌, ◌-◌, ◌≡◌, ◌<◌, refl, sym, ap, ◌∙◌, subst, inl, inr, true, Option, none, some, List, [],
  ◌∷◌, ◌++◌, ok, Bool-cases, Option-cases, arith, is_some,
}
use agentic.Message.{Message, ToolUse}
use agentic.Faults.{Fault}
use agentic.Message.Parts.{get_tool_uses}
use agentic.Transcript.{inspect_transcript}
use agentic.Transcript.Admits.{Shut, IsPlain, Shut-plain, inspect_transcript_of_Shut}
use agentic.Transcript.Opening.{inspect_transcript-closed}
use agentic.Agent.{LoopState, Config, Options, emit, run_started}
use agentic.Agent.Suspend.{Sealing}
use agentic.Agent.Batch.Kept.{emit-messages}
use agentic.Agent.Turn.{TurnOutcome, Evaluator, complete_assistant_turn}
use agentic.Agent.Turn.Clock.{clock, emit-clock, complete_assistant_turn-clock}
use agentic.Agent.Turn.Closes.{ResumesSound, complete_assistant_turn-closes}
use agentic.Agent.Drive.{Driver, Execution, ends, goes_on, failed_execution}
use agentic.Agent.Loop.Advances.{Advances, suspended_execution-Advances, finish_turn-Advances}
use agentic.Agent.Loop.Closed.{Rests, is_settled, failed_execution-Rests, suspended_execution-Rests}
use agentic.Agent.Loop.Resting.{IsPaired, finish_turn-Rests}
use agentic.Agent.Loop.Paired.{turn_loop-pairs}
use agentic.Agent.Loop.Ends.{Step-cases}
use agentic.Agent.Run.{ResumeTurn, inject_prompt, resume_turn, go_on, begin_run, drive_loop}

-- What a prompt must be: there is none, or it has no tool parts.
abbrev pub PlainPrompt : Option Message → Type 0
PlainPrompt none = Unit {0}
PlainPrompt (some prompt) = IsPlain prompt

-- What a run begins with. A run that is not resumed begins with a closed transcript; a resumed
-- one with a transcript that is closed but for its last message, the assistant message to be
-- resumed, and with results that answer its calls.
abbrev pub Begins : List Message → Option ResumeTurn → Type 0
Begins ms none = inspect_transcript ms ≡ ok []
Begins ms (some turn) =
    (before : List Message) × (frontier : List ToolUse) × (ms ≡ before ++ turn.assistant ∷ [])
    × (inspect_transcript before ≡ ok [])
    × (inspect_transcript ms ≡ ok frontier)
    × ResumesSound (get_tool_uses turn.assistant) (some turn.regular)

module _ (O : Type 0) (o : Options) (c : Config) (seal : Sealing) (d : Driver) where
  inject_prompt-Shut :
      (prompt : Option Message) (ls : LoopState) (outcome : TurnOutcome O)
      → PlainPrompt prompt
      → Shut ls.messages
      → Shut (inject_prompt o c seal d prompt ls outcome).0.messages
        × (clock (inject_prompt o c seal d prompt ls outcome).0 ≡ clock ls)
  unfolding inject_prompt
  inject_prompt-Shut none ls outcome p e = (e, refl)
  inject_prompt-Shut (some prompt) ls outcome p e = elim (Bool-cases (is_some outcome.fatal)) [
    | inl f ↦ rw (f, inject_prompt) (e, refl)
    | inr f ↦
        rw (f, inject_prompt)
          (
            subst Shut (sym (emit-messages o _ _)) (Shut-plain ls.messages (prompt ∷ []) e (p, tt)),
            emit-clock o _ _,
          )
  ]

  resume_turn-Rests :
      (evaluate : Evaluator O) (ls : LoopState) (turn : ResumeTurn) (prompt : Option Message)
      → IsPaired d
      → PlainPrompt prompt
      → Begins ls.messages (some turn)
      → Rests (resume_turn o c seal d evaluate ls turn prompt)
        × Advances (clock ls) (resume_turn o c seal d evaluate ls turn prompt)
  unfolding resume_turn
  resume_turn-Rests evaluate ls turn prompt w p (before, frontier, shape, closed, opened, sound) =
      let after =
        complete_assistant_turn o c seal evaluate ls turn.assistant true (some turn.regular) in
      let closes =
        complete_assistant_turn-closes o c seal evaluate ls turn.assistant true (some turn.regular)
          before shape closed opened sound in
      let same =
        complete_assistant_turn-clock o c seal evaluate ls turn.assistant true
          (some turn.regular) in
      elim (Option-cases after.1.suspension) [
        | inr (suspension, f) ↦
            rw (f, resume_turn)
              (
                suspended_execution-Rests O o after.0 suspension,
                suspended_execution-Advances O o after.0 suspension same,
              )
        | inl f ↦
            let (shut, still) =
              inject_prompt-Shut prompt after.0 after.1 p
                (inspect_transcript-closed _ (closes.0 f)) in
            rw (f, resume_turn)
              (
                finish_turn-Rests O o c seal d _ _ w shut,
                finish_turn-Advances O o c seal d _ _ (still ∙ same),
              )
      ]

  -- What a run comes to: an execution, whose transcript is closed if the run is settled.
  abbrev pub Returns : Option (LoopState × Execution O) → Type 0
  Returns run =
      (ls' : LoopState) × (execution : Execution O) × (run ≡ some (ls', execution))
      × (is_settled execution.status ≡ true → inspect_transcript execution.result.messages ≡ ok [])

  pub ends-Returns :
      (ls : LoopState) (execution : Execution O) (evaluate : Evaluator O) (fuel : ℕ)
      → Rests (ends ls execution)
      → Returns (go_on o c seal d evaluate fuel (ends ls execution))
  unfolding go_on
  ends-Returns ls execution evaluate fuel r =
      (ls, execution, refl, λ t. inspect_transcript_of_Shut _ (r t))

  failed-Returns :
      (ls : LoopState) (x : Fault) (evaluate : Evaluator O) (fuel : ℕ)
      → Returns (go_on o c seal d evaluate fuel (failed_execution o ls x true))
  unfolding failed_execution
  failed-Returns ls x evaluate fuel =
      ends-Returns _ _ evaluate fuel (failed_execution-Rests O o ls x true)

  resumed-Returns :
      (evaluate : Evaluator O) (fuel : ℕ) (ls : LoopState) (turn : ResumeTurn)
      (prompt : Option Message)
      → IsPaired d
      → PlainPrompt prompt
      → Begins ls.messages (some turn)
      → ls.max_iterations - ls.iteration < fuel
      → ls.iteration < ls.max_iterations
      → Returns (go_on o c seal d evaluate fuel (resume_turn o c seal d evaluate ls turn prompt))
  resumed-Returns evaluate fuel ls turn prompt w p b h l =
      let (rests, advances) = resume_turn-Rests evaluate ls turn prompt w p b in
      elim (Step-cases (resume_turn o c seal d evaluate ls turn prompt)) [
        | inl (last, execution, e) ↦
            rw e (ends-Returns last execution evaluate fuel (subst Rests e rests))
        | inr (next, e) ↦
            let shut : Rests {O = O} (goes_on next) = subst Rests e rests in
            let step : Advances {O = O} (clock ls) (goes_on next) =
              subst (Advances (clock ls)) e advances in
            let later : next.iteration ≡ ls.iteration + 1 = ap (λ k. k.0) step in
            let same : next.max_iterations ≡ ls.max_iterations = ap (λ k. k.1) step in
            rw e (
              unfold go_on in
              turn_loop-pairs o c seal d evaluate fuel next w
                (inspect_transcript_of_Shut next.messages shut) (omega arith) (omega arith))
      ]

  begun-Returns :
      (evaluate : Evaluator O) (fuel : ℕ) (ls : LoopState) (resumed : Option ResumeTurn)
      (prompt : Option Message)
      → (emit o ls run_started).1 ≡ none
      → IsPaired d
      → PlainPrompt prompt
      → Begins (emit o ls run_started).0.messages resumed
      → ls.max_iterations - ls.iteration < fuel
      → ls.iteration < ls.max_iterations
      → Returns (drive_loop o c seal d evaluate fuel ls resumed prompt)
  unfolding drive_loop begin_run
  begun-Returns evaluate fuel ls none prompt f w p b h l =
      let same = emit-clock o ls run_started in
      let low : (emit o ls run_started).0.iteration ≡ ls.iteration = ap (λ k. k.0) same in
      let top : (emit o ls run_started).0.max_iterations ≡ ls.max_iterations = ap (λ k. k.1) same in
      rw (f, begin_run)
        (unfold go_on in
          turn_loop-pairs o c seal d evaluate fuel (emit o ls run_started).0 w b (omega arith)
            (omega arith))
  begun-Returns evaluate fuel ls (some turn) prompt f w p b h l =
      let same = emit-clock o ls run_started in
      let low : (emit o ls run_started).0.iteration ≡ ls.iteration = ap (λ k. k.0) same in
      let top : (emit o ls run_started).0.max_iterations ≡ ls.max_iterations = ap (λ k. k.1) same in
      rw (f, begin_run)
        (resumed-Returns evaluate fuel (emit o ls run_started).0 turn prompt w p b (omega arith)
          (omega arith))

  -- A run that begins below the bound with more fuel than the iterations that are left, with a
  -- provider and a hook as `IsPaired` says and a prompt without tool parts, returns an execution,
  -- resumed or not, and if it is completed, stopped or interrupted, the messages of its result are
  -- a well-formed transcript in which every call is answered. It begins with a closed transcript,
  -- or, resumed, with one that is closed but for the assistant message to be resumed and with
  -- results that answer its calls.
  pub drive_loop-Returns :
      (evaluate : Evaluator O) (fuel : ℕ) (ls : LoopState) (resumed : Option ResumeTurn)
      (prompt : Option Message)
      → IsPaired d
      → PlainPrompt prompt
      → Begins ls.messages resumed
      → ls.max_iterations - ls.iteration < fuel
      → ls.iteration < ls.max_iterations
      → Returns (drive_loop o c seal d evaluate fuel ls resumed prompt)
  unfolding drive_loop begin_run
  drive_loop-Returns evaluate fuel ls resumed prompt w p b h l =
      elim (Option-cases (emit o ls run_started).1) [
        | inl f ↦
            begun-Returns evaluate fuel ls resumed prompt f w p
              (subst (λ ms. Begins ms resumed) (sym (emit-messages o ls run_started)) b) h l
        | inr (x, f) ↦ rw (f, begin_run) (failed-Returns (emit o ls run_started).0 x evaluate fuel)
      ]
