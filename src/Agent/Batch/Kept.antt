-- ===== src/Agent/Batch/Kept.antt =====
-- The messages and the loop's counter through `executeRegularTurn` of turn.go.
use agentic.Prelude.{
  ℕ, ◌+◌, ◌≡◌, refl, ap, ◌∙◌, inl, inr, not, ◌&&◌, List, [], ◌∷◌, ok, err, Result, Bool-cases,
  Option-cases, Result-cases, is_empty, arith, length,
}
use agentic.Message.{Message, ToolUse}
use agentic.Faults.{Fault}
use agentic.Tools.{ToolExecutionResult, ToolBatchDecision}
use agentic.Tools.Gate.{validate_tool_batch_decision, project_tool_result}
use agentic.Agent.{
  LoopState, Config, Options, Registry, EventKind, emit, check_tool_call_limits, tool_started,
  tool_batch_planned,
}
use agentic.Agent.Suspend.{Sealing}
use agentic.Agent.Batch.{
  RegularTurn, regular_calls, start_all, execute_admitted_tools, apply_retry_state, settle_result,
  settle_results, run_batch, admit, decide_batch, execute_regular_turn, validate_suspendable_batch,
  retry_count, suspension_deferral,
}

-- What no step before the commit of the results changes.
abbrev pub kept : LoopState → List Message × ℕ × ℕ
kept ls = (ls.messages, ls.iteration, ls.max_iterations)

pub emit-kept :
    (o : Options) (ls : LoopState) (kind : EventKind) → kept (emit o ls kind).0 ≡ kept ls
unfolding emit
emit-kept o ls kind = elim (Option-cases o.event_sink) [
  | inl e ↦ rw (e, emit) refl
  | inr (sink, e) ↦ rw (e, emit) refl
]

pub emit-messages :
    (o : Options) (ls : LoopState) (kind : EventKind) → (emit o ls kind).0.messages ≡ ls.messages
emit-messages o ls kind = ap (λ k. k.0) (emit-kept o ls kind)

start_all-kept :
    (o : Options) (ls : LoopState) (calls : List ToolUse) → kept (start_all o ls calls).0 ≡ kept ls
unfolding start_all
start_all-kept o ls [] = refl
start_all-kept o ls (call ∷ calls) =
    let event = tool_started call (retry_count ls.retry_counts call.name + 1) in
    elim (Option-cases (emit o ls event).1) [
      | inl e ↦
          rw (e, start_all) (start_all-kept o (emit o ls event).0 calls ∙ emit-kept o ls event)
      | inr (f, e) ↦ rw (e, start_all) (emit-kept o ls event)
    ]

pub execute_admitted_tools-kept :
    (o : Options) (registry : Registry) (ls : LoopState) (calls : List ToolUse)
    → kept (execute_admitted_tools o registry ls calls).0 ≡ kept ls
unfolding execute_admitted_tools
execute_admitted_tools-kept o registry ls [] = refl
execute_admitted_tools-kept o registry ls (call ∷ calls) =
    ground (arith, start_all-kept o ls (call ∷ calls))

apply_retry_state-kept :
    (c : Config) (ls : LoopState) (call : ToolUse) (r : ToolExecutionResult) (st : RegularTurn)
    → kept (apply_retry_state c ls call r st).0 ≡ kept ls
unfolding apply_retry_state
apply_retry_state-kept c ls call r st = ground arith

settle_result-kept :
    (o : Options) (c : Config) (ls : LoopState) (st : RegularTurn) (call : ToolUse)
    (r : ToolExecutionResult)
    → kept (settle_result o c ls st call r).0 ≡ kept ls
unfolding settle_result
settle_result-kept o c ls st call r =
    apply_retry_state-kept c ls call (project_tool_result o.render o.tool_result_processor call r).0
      _

pub settle_results-kept :
    (o : Options) (c : Config) (ls : LoopState) (st : RegularTurn) (calls : List ToolUse)
    (results : List ToolExecutionResult)
    → kept (settle_results o c ls st calls results).0 ≡ kept ls
unfolding settle_results
settle_results-kept o c ls st [] results = refl
settle_results-kept o c ls st (call ∷ calls) [] = refl
settle_results-kept o c ls st (call ∷ calls) (r ∷ results) =
    settle_results-kept o c (settle_result o c ls st call r).0 (settle_result o c ls st call r).1
      calls results
    ∙ settle_result-kept o c ls st call r

module _ (o : Options) (c : Config) (seal : Sealing) where
  run_batch-kept :
      (ls : LoopState) (st : RegularTurn) (calls executable : List ToolUse)
      → kept (run_batch o c seal ls st calls executable).0 ≡ kept ls
  unfolding run_batch
  run_batch-kept ls st calls executable =
      let same = execute_admitted_tools-kept o c.registry ls executable in
      let batch = (execute_admitted_tools o c.registry ls executable).1 in
      elim (Option-cases batch.deferral) [
        | inl e ↦ rw (e, run_batch) (settle_results-kept o c _ st executable batch.results ∙ same)
        | inr (deferral, e) ↦ rw (e, run_batch) same
      ]

  admit-kept :
      (ls : LoopState) (st : RegularTurn) (calls regular executable : List ToolUse)
      → kept (admit o c seal ls st calls regular executable).0 ≡ kept ls
  unfolding admit
  admit-kept ls st calls regular executable = elim (Bool-cases (is_empty executable)) [
    | inl e ↦ rw (e, admit) refl
    | inr e ↦ elim (Bool-cases (is_empty c.registry.handlers && not c.registry.has_executor)) [
      | inl f ↦ rw (e, f, admit) refl
      | inr f ↦ elim (Option-cases (check_tool_call_limits ls (length executable))) [
        | inr (x, g) ↦ rw (e, f, g, admit) refl
        | inl g ↦
            elim (Option-cases
              (validate_suspendable_batch c.registry regular executable executable)) [
                | inr (x, h) ↦ rw (e, f, g, h, admit) refl
                | inl h ↦ rw (e, f, g, h, admit) (run_batch-kept ls st calls executable)
              ]
      ]
    ]
  ]

  decide_batch-kept :
      (ls : LoopState) (calls regular : List ToolUse) (answer : Result Fault ToolBatchDecision)
      → kept (decide_batch o c seal ls calls regular answer).0 ≡ kept ls
  unfolding decide_batch
  decide_batch-kept ls calls regular (err x) = refl
  decide_batch-kept ls calls regular (ok decision) =
      elim (Result-cases (validate_tool_batch_decision regular decision)) [
        | inr (x, e) ↦ rw (e, decide_batch) refl
        | inl (suspended, e) ↦
            elim (Option-cases (suspension_deferral suspended decision.deferral)) [
              | inl d ↦ rw (e, d, decide_batch) (admit-kept ls _ calls regular _)
              | inr (deferral, d) ↦ rw (e, d, decide_batch) refl
            ]
      ]

  pub execute_regular_turn-kept :
      (ls : LoopState) (calls : List ToolUse)
      → kept (execute_regular_turn o c seal ls calls).0 ≡ kept ls
  unfolding execute_regular_turn
  execute_regular_turn-kept ls calls =
      let regular = regular_calls c.output_tool_names calls in
      elim (Bool-cases (is_empty regular)) [
        | inl e ↦ rw (e, execute_regular_turn) refl
        | inr e ↦ elim (Option-cases (emit o ls (tool_batch_planned regular)).1) [
          | inr (x, f) ↦ rw (e, f, execute_regular_turn) (emit-kept o ls _)
          | inl f ↦
              rw (e, f, execute_regular_turn)
                (decide_batch-kept _ calls regular _ ∙ emit-kept o ls _)
        ]
      ]
