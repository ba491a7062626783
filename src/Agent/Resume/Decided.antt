-- ===== src/Agent/Resume/Decided.antt =====
-- The results that `resolveSuspendedTools` of execution_loop.go records answer the calls of the
-- frontier that is resumed.
use agentic.Prelude.{
  ◌≡◌, refl, sym, ◌∙◌, subst, inl, inr, String, true, some, List, [], ◌∷◌, ◌++◌, ok, ◌>>=◌,
  >>=-eq-ok, Bool-cases, Option-cases, Result-cases, All, insert, arith,
}
use agentic.Message.{ToolUse}
use agentic.Tools.{ToolExecutionResult, Answers}
use agentic.Tools.Gate.{validate_tool_result_identity, project_tool_result}
use agentic.Tools.Gate.Laws.{validate_tool_result_identity-Answers, project_tool_result-Truthful}
use agentic.Agent.{LoopState, Config, Options}
use agentic.Agent.Batch.{RegularTurn, settle_result, settle_results}
use agentic.Agent.Batch.Results.{Sound, nil-Sound, insert-Sound, apply_retry_state-results}
use agentic.Agent.Suspend.{Payload}
use agentic.Agent.Resume.{
  ToolResumeAction, ToolResumeDecision, Resuming, Resolved, same_tool_calls, executable_calls,
  check_decisions, find_decision, nothing_resolved, override_input, context_of, will_execute,
  resolve_execute, resolve_return, resolve_as, resolve_calls, decide_calls, resume_execute,
  resume_return, resume_invalid, other_resume_action,
}
use agentic.Agent.Resume.Frontier.{MarshalKeeps, Stands, executable_calls-Stands}

module _ (frontier : List ToolUse) where
  insert-Stands :
      (call : ToolUse) (result : ToolExecutionResult)
      (results : List (String × ToolExecutionResult))
      → Stands frontier call
      → Answers call result
      → Sound frontier results
      → Sound frontier (insert call.id result results)
  insert-Stands call result results (own, found, i, m) (same_id, same_name) s =
      subst (λ k. Sound frontier (insert k result results)) i
        (insert-Sound frontier own result results found (same_id ∙ sym i, same_name ∙ sym m) s)

  -- What the loop over the executable calls keeps.
  abbrev pub IsResolved : Resolved → Type 0
  IsResolved st = Sound frontier st.results × All (Stands frontier) st.to_execute

  All-last :
      (calls : List ToolUse) (call : ToolUse)
      → All (Stands frontier) calls
      → Stands frontier call
      → All (Stands frontier) (calls ++ call ∷ [])
  All-last [] call all s = (s, tt)
  All-last (first ∷ calls) call all s = (all.0, All-last calls call (all.1) s)

  override_input-Stands :
      (r : Resuming) (call : ToolUse) (decision : ToolResumeDecision) {call' : ToolUse}
      → override_input r call decision ≡ ok call'
      → Stands frontier call
      → Stands frontier call'
  unfolding override_input
  override_input-Stands r call decision {call'} h (own, found, i, m) =
      elim (Option-cases decision.input) [
        | inl e ↦
            let same : call ≡ call' = ground arith in
            subst (Stands frontier) same (own, found, i, m)
        | inr (input, e) ↦
            let same : record call { input = some input } ≡ call' = ground arith in
            subst (Stands frontier) same (own, found, i, m)
      ]

  resolve_execute-IsResolved :
      (r : Resuming) (c : Config) (payload : Payload) (call : ToolUse)
      (decision : ToolResumeDecision) (st : Resolved) {next : Resolved}
      → resolve_execute r c payload call decision st ≡ ok next
      → Stands frontier call
      → IsResolved st
      → IsResolved next
  unfolding resolve_execute
  resolve_execute-IsResolved r c payload call decision st {next} h stands (sound, all) =
      let (call', e, later) = >>=-eq-ok (override_input r call decision) _ h in
      let added =
        All-last st.to_execute call' all (override_input-Stands r call decision e stands) in
      elim (Bool-cases payload.handler_suspension) [
        | inl f ↦
            let same : will_execute st call'
                  (insert call'.id (context_of payload decision) st.contexts)
                ≡ next =
              ground arith in
            subst IsResolved same (sound, added)
        | inr f ↦
            let same : will_execute st call' st.contexts ≡ next = ground arith in
            subst IsResolved same (sound, added)
      ]

  resolve_return-IsResolved :
      (call : ToolUse) (decision : ToolResumeDecision) (st : Resolved) {next : Resolved}
      → resolve_return call decision st ≡ ok next
      → Stands frontier call
      → IsResolved st
      → IsResolved next
  unfolding resolve_return
  resolve_return-IsResolved call decision st {next} h stands (sound, all) =
      elim (Option-cases decision.result) [
        | inl e ↦ absurd (ground arith)
        | inr (result, e) ↦ elim (Option-cases (validate_tool_result_identity call result)) [
          | inr (f, g) ↦ absurd (ground arith)
          | inl g ↦
              let same : record st { results = insert call.id result st.results } ≡ next =
                ground arith in
              subst IsResolved same (
                insert-Stands call result st.results stands
                    (validate_tool_result_identity-Answers call result g) sound,
                all,
              )
        ]
      ]

  resolve_as-IsResolved :
      (r : Resuming) (c : Config) (payload : Payload) (call : ToolUse) (action : ToolResumeAction)
      (decision : ToolResumeDecision) (st : Resolved) {next : Resolved}
      → resolve_as r c payload call action decision st ≡ ok next
      → Stands frontier call
      → IsResolved st
      → IsResolved next
  unfolding resolve_as
  resolve_as-IsResolved r c payload call resume_execute decision st h stands v =
      resolve_execute-IsResolved r c payload call decision st h stands v
  resolve_as-IsResolved r c payload call resume_return decision st h stands v =
      resolve_return-IsResolved call decision st h stands v
  resolve_as-IsResolved r c payload call resume_invalid decision st h stands v = cc
  resolve_as-IsResolved r c payload call (other_resume_action n) decision st h stands v = cc

  resolve_calls-IsResolved :
      (r : Resuming) (c : Config) (payload : Payload) (decisions : List ToolResumeDecision)
      (st : Resolved) (calls : List ToolUse) {last : Resolved}
      → resolve_calls r c payload decisions st calls ≡ ok last
      → All (Stands frontier) calls
      → IsResolved st
      → IsResolved last
  unfolding resolve_calls
  resolve_calls-IsResolved r c payload decisions st [] {last} h all v =
      let same : st ≡ last = ground arith in subst IsResolved same v
  resolve_calls-IsResolved r c payload decisions st (call ∷ calls) {last} h all v =
      elim (Option-cases (find_decision call.id decisions)) [
        | inl e ↦ absurd (ground arith)
        | inr (decision, e) ↦
            let chained : (resolve_as r c payload call decision.action decision st >>= λ next.
            resolve_calls r c payload decisions next calls)
                ≡ ok last =
              sym (rw (resolve_calls, e) refl) ∙ h in
            let (next, f, rest) =
              >>=-eq-ok (resolve_as r c payload call decision.action decision st)
                (λ next. resolve_calls r c payload decisions next calls) chained in
            resolve_calls-IsResolved r c payload decisions next calls rest (all.1)
              (resolve_as-IsResolved r c payload call decision.action decision st f (all.0) v)
      ]

  pub decide_calls-IsResolved :
      (r : Resuming) (c : Config) (payload : Payload) (decisions : List ToolResumeDecision)
      {executable : List ToolUse} {st : Resolved}
      → MarshalKeeps r
      → same_tool_calls r frontier payload.calls ≡ true
      → decide_calls r c payload decisions ≡ ok (executable, st)
      → IsResolved st
  unfolding decide_calls
  decide_calls-IsResolved r c payload decisions {executable} {st} keeps same h =
      let (calls, e, later) =
        >>=-eq-ok (executable_calls c.output_tool_names payload.calls payload.executable_call_ids) _
          h in
      elim (Option-cases (check_decisions [] decisions)) [
        | inr (f, g) ↦ absurd (ground arith)
        | inl g ↦ elim (Result-cases (resolve_calls r c payload decisions nothing_resolved calls)) [
          | inr (f, k) ↦ absurd (ground arith)
          | inl (last, k) ↦
              let found : last ≡ st = ground arith in
              subst IsResolved found (
                resolve_calls-IsResolved r c payload decisions nothing_resolved calls k
                  (executable_calls-Stands r frontier payload.calls c.output_tool_names
                    payload.executable_call_ids keeps same e)
                  (nil-Sound frontier, tt))
        ]
      ]

  -- The results of the batch are recorded under the calls that ran, whose input may be another.
  settle_result-Stands :
      (o : Options) (c : Config) (ls : LoopState) (st : RegularTurn) (call : ToolUse)
      (result : ToolExecutionResult)
      → Stands frontier call
      → Sound frontier st.results
      → Sound frontier (settle_result o c ls st call result).1.results
  unfolding settle_result
  settle_result-Stands o c ls st call result stands s =
      let projected = (project_tool_result o.render o.tool_result_processor call result).0 in
      subst (Sound frontier) (sym (apply_retry_state-results frontier c ls call projected _)) (
        insert-Stands call projected st.results stands
          (project_tool_result-Truthful o.render o.tool_result_processor call result).0 s)

  pub settle_results-Stands :
      (o : Options) (c : Config) (ls : LoopState) (st : RegularTurn) (calls : List ToolUse)
      (results : List ToolExecutionResult)
      → All (Stands frontier) calls
      → Sound frontier st.results
      → Sound frontier (settle_results o c ls st calls results).1.results
  unfolding settle_results
  settle_results-Stands o c ls st [] results all s = s
  settle_results-Stands o c ls st (call ∷ calls) [] all s = s
  settle_results-Stands o c ls st (call ∷ calls) (result ∷ results) all s =
      settle_results-Stands o c (settle_result o c ls st call result).0
        (settle_result o c ls st call result).1 calls results (all.1)
        (settle_result-Stands o c ls st call result (all.0) s)
