-- ===== src/Agent/Batch/Results.antt =====
-- The results that `executeRegularTurn` of turn.go records, by the calls of the frontier.
use agentic.Prelude.{
  ◌≡◌, sym, ◌∙◌, subst, inl, inr, String, Bool, true, false, not, ◌&&◌, ◌==◌, eq_iff, some, List,
  [], ◌∷◌, ok, err, Result, Bool-cases, Option-cases, Result-cases, All, contains, lookup, insert,
  lookup-insert, is_empty, arith, length,
}
use agentic.Message.{ToolUse}
use agentic.Faults.{Fault}
use agentic.Transcript.{find_call}
use agentic.Tools.{ToolExecutionResult, ToolDeferral, ToolDisposition, ToolBatchDecision, Answers}
use agentic.Tools.Gate.{validate_tool_batch_decision, project_tool_result}
use agentic.Tools.Gate.Laws.{
  make_tool_result_error-Answers, project_tool_result-Truthful, ResolveAll,
  validate_tool_batch_decision_sound,
}
use agentic.Agent.{LoopState, Config, Options, emit, check_tool_call_limits, tool_batch_planned}
use agentic.Agent.Suspend.{Sealing, new_tool_suspension}
use agentic.Agent.Batch.{
  RegularTurn, no_turn, regular_calls, deny_all, dispose, execute_admitted_tools, apply_retry_state,
  settle_result, settle_results, suspend_batch, run_batch, admit, decide_batch,
  execute_regular_turn, validate_suspendable_batch,
}

module _ (frontier : List ToolUse) where
  -- The call stands in the frontier, and is the one of its ID.
  abbrev pub In : ToolUse → Type 0
  In call = find_call call.id frontier ≡ some call

  -- A result that is recorded under the ID of a call of the frontier answers that call.
  abbrev pub Sound : List (String × ToolExecutionResult) → Type 0
  Sound results =
      (call : ToolUse) (r : ToolExecutionResult)
      → In call
      → lookup call.id results ≡ some r
      → Answers call r

  pub nil-Sound : Sound []
  unfolding lookup
  nil-Sound call r m h = cc

  pub insert-Sound :
      (call : ToolUse) (r : ToolExecutionResult) (results : List (String × ToolExecutionResult))
      → In call
      → Answers call r
      → Sound results
      → Sound (insert call.id r results)
  insert-Sound call r results m a s other q n h = elim (Bool-cases (call.id == other.id)) [
    | inl e ↦
        let same_id : call.id ≡ other.id = (eq_iff call.id other.id).0 e in
        let same_call : call ≡ other = cc in
        let found : lookup other.id (insert call.id r results) ≡ some r =
          lookup-insert call.id other.id r results ∙ rw e in
        let same : r ≡ q = cc in
        subst (λ x. Answers other x) same (subst (λ x. Answers x r) same_call a)
    | inr e ↦ s other q n (sym (lookup-insert call.id other.id r results ∙ rw e) ∙ h)
  ]

  deny_all-Sound :
      (note : String) (cause : Fault) (calls : List ToolUse)
      (results : List (String × ToolExecutionResult))
      → All In calls
      → Sound results
      → Sound (deny_all note cause calls results)
  unfolding deny_all
  deny_all-Sound note cause [] results m s = s
  deny_all-Sound note cause (call ∷ calls) results m s =
      deny_all-Sound note cause calls _ m.1
        (insert-Sound call _ results m.0 (make_tool_result_error-Answers call note (some cause)) s)

  regular_calls-In :
      (names : List String) (calls : List ToolUse)
      → All In calls
      → All In (regular_calls names calls)
  unfolding regular_calls
  regular_calls-In names [] m = tt
  regular_calls-In names (call ∷ calls) m = elim (Bool-cases (contains call.name names)) [
    | inl e ↦ rw e (regular_calls-In names calls m.1)
    | inr e ↦ rw e (m.0, regular_calls-In names calls m.1)
  ]

  dispose-Sound :
      (calls : List ToolUse) (ds : List ToolDisposition) (st : RegularTurn)
      → All In calls
      → ResolveAll calls ds
      → Sound st.results
      → Sound (dispose calls ds st).0.results × All In (dispose calls ds st).1
  unfolding dispose
  dispose-Sound [] ds st m w s = (s, tt)
  dispose-Sound (call ∷ calls) [] st m w s = absurd w
  dispose-Sound (call ∷ calls) (d ∷ ds) st m (inl (k, e), w) s =
      let (s', m') = dispose-Sound calls ds (record st { continuation = _ }) m.1 w s in
      rw (k, dispose) (s', (m.0, m'))
  dispose-Sound (call ∷ calls) (d ∷ ds) st m (inr (r, k, e, a), w) s =
      rw (k, e, dispose) (dispose-Sound calls ds _ m.1 w (insert-Sound call r st.results m.0 a s))

  pub apply_retry_state-results :
      (c : Config) (ls : LoopState) (call : ToolUse) (r : ToolExecutionResult) (st : RegularTurn)
      → (apply_retry_state c ls call r st).1.results ≡ st.results
  unfolding apply_retry_state
  apply_retry_state-results c ls call r st = ground arith

  settle_result-Sound :
      (o : Options) (c : Config) (ls : LoopState) (st : RegularTurn) (call : ToolUse)
      (r : ToolExecutionResult)
      → In call
      → Sound st.results
      → Sound (settle_result o c ls st call r).1.results
  unfolding settle_result
  settle_result-Sound o c ls st call r m s =
      let projected = (project_tool_result o.render o.tool_result_processor call r).0 in
      subst Sound (sym (apply_retry_state-results c ls call projected _)) (
        insert-Sound call projected st.results m
          (project_tool_result-Truthful o.render o.tool_result_processor call r).0 s)

  settle_results-Sound :
      (o : Options) (c : Config) (ls : LoopState) (st : RegularTurn) (calls : List ToolUse)
      (results : List ToolExecutionResult)
      → All In calls
      → Sound st.results
      → Sound (settle_results o c ls st calls results).1.results
  unfolding settle_results
  settle_results-Sound o c ls st [] results m s = s
  settle_results-Sound o c ls st (call ∷ calls) [] m s = s
  settle_results-Sound o c ls st (call ∷ calls) (r ∷ results) m s =
      settle_results-Sound o c (settle_result o c ls st call r).0 (settle_result o c ls st call r).1
        calls results m.1 (settle_result-Sound o c ls st call r m.0 s)

  suspend_batch-Sound :
      (seal : Sealing) (ls : LoopState) (st : RegularTurn) (calls executable : List ToolUse)
      (deferral : ToolDeferral) (handler : Bool)
      → All In executable
      → Sound st.results
      → Sound (suspend_batch seal ls st calls executable deferral handler).results
  unfolding suspend_batch
  suspend_batch-Sound seal ls st calls executable deferral handler m s =
      elim (Result-cases (new_tool_suspension seal ls calls executable deferral handler)) [
        | inl (suspension, e) ↦ rw (e, suspend_batch) s
        | inr (f, e) ↦ rw (e, suspend_batch) (deny_all-Sound _ f executable st.results m s)
      ]

  run_batch-Sound :
      (o : Options) (c : Config) (seal : Sealing) (ls : LoopState) (st : RegularTurn)
      (calls executable : List ToolUse)
      → All In executable
      → Sound st.results
      → Sound (run_batch o c seal ls st calls executable).1.results
  unfolding run_batch
  run_batch-Sound o c seal ls st calls executable m s =
      let batch = (execute_admitted_tools o c.registry ls executable).1 in
      elim (Option-cases batch.deferral) [
        | inl e ↦ rw (e, run_batch) (settle_results-Sound o c _ st executable batch.results m s)
        | inr (deferral, e) ↦
            rw (e, run_batch) (suspend_batch-Sound seal _ st calls executable deferral true m s)
      ]

  admit-Sound :
      (o : Options) (c : Config) (seal : Sealing) (ls : LoopState) (st : RegularTurn)
      (calls regular executable : List ToolUse)
      → All In executable
      → Sound st.results
      → Sound (admit o c seal ls st calls regular executable).1.results
  unfolding admit
  admit-Sound o c seal ls st calls regular executable m s =
      elim (Bool-cases (is_empty executable)) [
        | inl e ↦ rw (e, admit) s
        | inr e ↦ elim (Bool-cases (is_empty c.registry.handlers && not c.registry.has_executor)) [
          | inl f ↦ rw (e, f, admit) (deny_all-Sound _ _ executable st.results m s)
          | inr f ↦ elim (Option-cases (check_tool_call_limits ls (length executable))) [
            | inr (x, g) ↦ rw (e, f, g, admit) (deny_all-Sound _ x executable st.results m s)
            | inl g ↦
                elim (Option-cases
                  (validate_suspendable_batch c.registry regular executable executable)) [
                    | inr (x, h) ↦
                        rw (e, f, g, h, admit) (deny_all-Sound _ x executable st.results m s)
                    | inl h ↦
                        rw (e, f, g, h, admit) (run_batch-Sound o c seal ls st calls executable m s)
                  ]
          ]
        ]
      ]

  decide_batch-Sound :
      (o : Options) (c : Config) (seal : Sealing) (ls : LoopState) (calls regular : List ToolUse)
      (answer : Result Fault ToolBatchDecision)
      → All In regular
      → Sound (decide_batch o c seal ls calls regular answer).1.results
  unfolding decide_batch
  decide_batch-Sound o c seal ls calls regular (err x) m =
      (deny_all-Sound _ x regular [] m nil-Sound)
  decide_batch-Sound o c seal ls calls regular (ok decision) m =
      elim (Result-cases (validate_tool_batch_decision regular decision)) [
        | inr (x, e) ↦ rw (e, decide_batch) (deny_all-Sound _ _ regular [] m nil-Sound)
        | inl (false, e) ↦
            let (w, _) = (validate_tool_batch_decision_sound regular decision).0 e in
            let (s, m') = dispose-Sound regular decision.calls no_turn m w nil-Sound in
            rw (e, decide_batch) (admit-Sound o c seal ls _ calls regular _ m' s)
        | inl (true, e) ↦
            let (deferral, d, _) = (validate_tool_batch_decision_sound regular decision).1 e in
            rw (e, d, decide_batch)
              (suspend_batch-Sound seal ls no_turn calls regular deferral false m nil-Sound)
      ]

  pub execute_regular_turn-Sound :
      (o : Options) (c : Config) (seal : Sealing) (ls : LoopState) (calls : List ToolUse)
      → All In calls
      → Sound (execute_regular_turn o c seal ls calls).1.results
  unfolding execute_regular_turn
  execute_regular_turn-Sound o c seal ls calls m =
      let regular = regular_calls c.output_tool_names calls in
      let m' = regular_calls-In c.output_tool_names calls m in
      elim (Bool-cases (is_empty regular)) [
        | inl e ↦ rw (e, execute_regular_turn) nil-Sound
        | inr e ↦ elim (Option-cases (emit o ls (tool_batch_planned regular)).1) [
          | inr (x, f) ↦
              rw (e, f, execute_regular_turn) (deny_all-Sound _ x regular [] m' nil-Sound)
          | inl f ↦
              rw (e, f, execute_regular_turn) (decide_batch-Sound o c seal _ calls regular _ m')
        ]
      ]
