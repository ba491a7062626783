-- ===== src/Agent/Resume/Restored.antt =====
-- What a resumed run of execution_loop.go comes to.
use agentic.Prelude.{
  ℕ, ◌<◌, ◌≡◌, refl, sym, ap, ◌∙◌, subst, inl, inr, true, false, Option, some, List, [], ◌∷◌, ◌++◌,
  Result, ok, err, Bool-cases, Option-cases, Result-cases, All, is_empty, length, arith,
}
use agentic.Message.{Message, ToolUse}
use agentic.Message.Parts.{get_tool_uses}
use agentic.Faults.{Fault, resume_fault}
use agentic.Tools.Scheduler.{Batch}
use agentic.Transcript.{inspect_transcript}
use agentic.Transcript.Opening.{inspect_loop-opened}
use agentic.Agent.{LoopState, Config, Options, check_tool_call_limits}
use agentic.Agent.Suspend.{Sealing, Payload, decode_tool_suspension, new_tool_suspension}
use agentic.Agent.Batch.{RegularTurn, execute_admitted_tools, validate_suspendable_batch}
use agentic.Agent.Batch.Kept.{kept, execute_admitted_tools-kept, settle_results-kept}
use agentic.Agent.Batch.Results.{Sound}
use agentic.Agent.Turn.{Evaluator}
use agentic.Agent.Drive.{Driver, failed_execution}
use agentic.Agent.Loop.Resting.{IsPaired}
use agentic.Agent.Run.{go_on}
use agentic.Agent.Run.Returns.{PlainPrompt, Returns, ends-Returns, drive_loop-Returns}
use agentic.Agent.Loop.Closed.{failed_execution-Rests}
use agentic.Agent.Resume.{
  ToolResumeDecision, ResumeInput, Resuming, Resolved, same_tool_calls, decide_calls,
}
use agentic.Agent.Resume.Restart.{
  with_contexts, resumed_with, resume_batch, execute_resolved, resolve_suspended_tools,
  check_restored, check_suspension, restore, last_message, last_of, drive_resumed, resume_prepared,
}
use agentic.Agent.Resume.Frontier.{MarshalKeeps, Stands}
use agentic.Agent.Resume.Decided.{IsResolved, decide_calls-IsResolved, settle_results-Stands}

-- The decisions leave the messages and the counter, and if they lead to results, those answer the
-- calls of the frontier.
abbrev pub Resumes : List ToolUse → LoopState → LoopState × Result Fault RegularTurn → Type 0
Resumes frontier ls (ls', resumed) =
    (kept ls' ≡ kept ls)
    × ((regular : RegularTurn) → resumed ≡ ok regular → Sound frontier regular.results)

ok_inj : (x y : RegularTurn) → (Path (Result Fault RegularTurn) (ok x) (ok y)) → x ≡ y
ok_inj x y h = ground arith

module _ (o : Options) (r : Resuming) (c : Config) (seal : Sealing) (frontier : List ToolUse) where
  resume_batch-Resumes :
      (ls : LoopState) (payload : Payload) (st : RegularTurn) (calls : List ToolUse) (batch : Batch)
      → All (Stands frontier) calls
      → Sound frontier st.results
      → Resumes frontier ls (resume_batch o c seal ls payload st calls batch)
  unfolding resume_batch
  resume_batch-Resumes ls payload st calls batch all sound = elim (Option-cases batch.deferral) [
    | inl e ↦
        rw (e, resume_batch)
          (
            settle_results-kept o c ls st calls batch.results,
            λ regular h.
                subst (λ (x : RegularTurn). Sound frontier x.results) (ok_inj _ regular h)
                  (settle_results-Stands frontier o c ls st calls batch.results all sound),
          )
    | inr (deferral, e) ↦
        elim (Result-cases (new_tool_suspension seal ls payload.calls calls deferral true)) [
          | inl (suspension, f) ↦
              rw (e, f, resume_batch)
                (
                  refl,
                  λ regular h.
                      subst (λ (x : RegularTurn). Sound frontier x.results) (ok_inj _ regular h)
                        sound,
                )
          | inr (x, f) ↦ rw (e, f, resume_batch) (refl, λ regular h. cc)
        ]
  ]

  execute_resolved-Resumes :
      (ls : LoopState) (payload : Payload) (executable : List ToolUse) (st : Resolved)
      → IsResolved frontier st
      → Resumes frontier ls (execute_resolved o r c seal ls payload executable st)
  unfolding execute_resolved
  execute_resolved-Resumes ls payload executable st (sound, all) =
      elim (Bool-cases (is_empty st.to_execute)) [
        | inl e ↦
            rw (e, execute_resolved)
              (
                refl,
                λ regular h.
                    subst (λ (x : RegularTurn). Sound frontier x.results) (ok_inj _ regular h)
                      sound,
              )
        | inr e ↦ elim (Option-cases (check_tool_call_limits ls (length st.to_execute))) [
          | inr (x, f) ↦ rw (e, f, execute_resolved) (refl, λ regular h. cc)
          | inl f ↦
              elim (Option-cases
                (validate_suspendable_batch c.registry executable st.to_execute st.to_execute)) [
                  | inr (x, g) ↦ rw (e, f, g, execute_resolved) (refl, λ regular h. cc)
                  | inl g ↦
                      let ran =
                        execute_admitted_tools (with_contexts o r st.contexts) c.registry ls
                          st.to_execute in
                      let (same, answers) =
                        resume_batch-Resumes ran.0 payload (resumed_with st) st.to_execute ran.1 all
                          sound in
                      rw (e, f, g, execute_resolved)
                        (
                          same
                              ∙ execute_admitted_tools-kept (with_contexts o r st.contexts)
                                  c.registry ls st.to_execute,
                          answers,
                        )
                ]
        ]
      ]

  resolve_suspended_tools-Resumes :
      (ls : LoopState) (payload : Payload) (decisions : List ToolResumeDecision)
      → MarshalKeeps r
      → same_tool_calls r frontier payload.calls ≡ true
      → Resumes frontier ls (resolve_suspended_tools o r c seal ls payload decisions)
  unfolding resolve_suspended_tools
  resolve_suspended_tools-Resumes ls payload decisions keeps same =
      elim (Result-cases (decide_calls r c payload decisions)) [
        | inr (x, e) ↦ rw (e, resolve_suspended_tools) (refl, λ regular h. cc)
        | inl ((executable, st), e) ↦
            rw (e, resolve_suspended_tools)
              (execute_resolved-Resumes ls payload executable st
                (decide_calls-IsResolved frontier r c payload decisions keeps same e))
      ]

-- A payload that passes the checks was decoded from the suspension and has the frontier's calls.
check_suspension-passed :
    (r : Resuming) (seal : Sealing) (ls : LoopState) (input : ResumeInput) (frontier : List ToolUse)
    {payload : Payload}
    → check_suspension r seal ls input.suspension frontier ≡ ok payload
    → (decode_tool_suspension seal input.suspension ≡ ok payload)
      × (same_tool_calls r frontier payload.calls ≡ true)
unfolding check_suspension check_restored
check_suspension-passed r seal ls input frontier {payload} h =
    elim (Result-cases (decode_tool_suspension seal input.suspension)) [
      | inr (x, e) ↦ absurd (ground arith)
      | inl (decoded, e) ↦
          let same : decoded ≡ payload = ground arith in
          let calls : same_tool_calls r frontier decoded.calls ≡ true = ground arith in
          (
            e ∙ ap ok same,
            subst (λ (p : Payload). same_tool_calls r frontier p.calls ≡ true) same calls,
          )
    ]

last_message-append :
    (first m : Message) (before : List Message) → last_message first (before ++ m ∷ []) ≡ m
unfolding last_message
last_message-append first m [] = refl
last_message-append first m (next ∷ before) = last_message-append next m before

last_of-append : (before : List Message) (m : Message) → last_of (before ++ m ∷ []) ≡ some m
unfolding last_message
last_of-append [] m = refl
last_of-append (first ∷ before) m = ap some (last_message-append first m before)

opened_calls :
    (before : List Message) (m : Message) {frontier : List ToolUse}
    → inspect_transcript before ≡ ok []
    → inspect_transcript (before ++ m ∷ []) ≡ ok frontier
    → frontier ≡ get_tool_uses m
unfolding inspect_transcript
opened_calls before m closed h = let scanned = inspect_loop-opened before m closed h in ground arith

module _ (O : Type 0) (o : Options) (r : Resuming) (c : Config) (seal : Sealing) (d : Driver) where
  failed-Returns :
      (ls : LoopState) (x : Fault) (evaluate : Evaluator O) (fuel : ℕ)
      → Returns O o c seal d (go_on o c seal d evaluate fuel (failed_execution o ls x false))
  unfolding failed_execution
  failed-Returns ls x evaluate fuel =
      ends-Returns O o c seal d _ _ evaluate fuel (failed_execution-Rests O o ls x false)

  -- The run behind the decisions, below the bound.
  driven-Returns :
      (evaluate : Evaluator O) (fuel : ℕ) (prompt : Option Message) (ls ls' : LoopState)
      (resumed : Result Fault RegularTurn) (before : List Message) (assistant : Message)
      {frontier : List ToolUse}
      → IsPaired d
      → PlainPrompt prompt
      → ls.messages ≡ before ++ assistant ∷ []
      → inspect_transcript before ≡ ok []
      → inspect_transcript ls.messages ≡ ok frontier
      → Resumes (get_tool_uses assistant) ls (ls', resumed)
      → ls.iteration < ls.max_iterations
      → ls.max_iterations < fuel
      → Returns O o c seal d
          (drive_resumed o r c seal d evaluate fuel prompt ls' resumed (last_of ls'.messages))
  unfolding drive_resumed
  driven-Returns evaluate fuel prompt ls ls' (err x) before assistant w p shape closed h v l g =
      failed-Returns ls' x evaluate fuel
  driven-Returns evaluate fuel prompt ls ls' (ok regular) before assistant w p shape closed h v l
        g =
      let (same, answers) = v in
      let stays : ls'.messages ≡ ls.messages = ap (λ k. k.0) same in
      let turn : ls'.iteration ≡ ls.iteration = ap (λ k. k.1) same in
      let bound : ls'.max_iterations ≡ ls.max_iterations = ap (λ k. k.2) same in
      let last = ap last_of (stays ∙ shape) ∙ last_of-append before assistant in
      rw (drive_resumed, last)
        (drive_loop-Returns O o c seal d evaluate fuel ls'
          (some (record { assistant = assistant; regular = regular })) prompt w p
          (before, _, stays ∙ shape, closed, ap inspect_transcript stays ∙ h, answers regular refl)
          (omega arith) (omega arith))

  -- A resumption of a transcript that is closed but for its last message returns an execution, and
  -- if it is completed, stopped or interrupted, the messages of its result are a well-formed
  -- transcript in which every call is answered, whatever the suspension and the decisions are. JSON
  -- keeps the ID and the name of a call, the suspension's counter is below the bound and the fuel
  -- above it, the provider and the hook are as `IsPaired` says and the prompt has no tool parts.
  pub resume_prepared-Returns :
      (evaluate : Evaluator O) (fuel : ℕ) (ls : LoopState) (input : ResumeInput)
      (before : List Message) (assistant : Message) {frontier : List ToolUse}
      → MarshalKeeps r
      → IsPaired d
      → PlainPrompt input.prompt
      → ls.messages ≡ before ++ assistant ∷ []
      → inspect_transcript before ≡ ok []
      → inspect_transcript ls.messages ≡ ok frontier
      → ((payload : Payload)
          → decode_tool_suspension seal input.suspension ≡ ok payload
          → payload.iteration < ls.max_iterations)
      → ls.max_iterations < fuel
      → Returns O o c seal d (resume_prepared o r c seal d evaluate fuel ls input)
  unfolding resume_prepared restore
  resume_prepared-Returns evaluate fuel ls input before assistant {frontier} keeps w p shape closed
        h below g =
      let calls : frontier ≡ get_tool_uses assistant =
        opened_calls before assistant closed (ap inspect_transcript (sym shape) ∙ h) in
      elim (Result-cases (check_suspension r seal ls input.suspension frontier)) [
        | inr (x, e) ↦ rw (resume_prepared, h, e) (failed-Returns ls (resume_fault x) evaluate fuel)
        | inl (payload, e) ↦
            let (decoded, same) = check_suspension-passed r seal ls input frontier e in
            let restored = restore ls payload in
            let resumed = resolve_suspended_tools o r c seal restored payload input.decisions in
            rw (resume_prepared, h, e)
              (driven-Returns evaluate fuel input.prompt restored resumed.0 resumed.1 before
                assistant w p shape closed h
                (subst (λ f. Resumes f restored resumed) calls
                  (resolve_suspended_tools-Resumes o r c seal frontier restored payload
                    input.decisions keeps same))
                (below payload decoded) g)
      ]
