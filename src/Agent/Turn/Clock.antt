-- ===== src/Agent/Turn/Clock.antt =====
-- The loop's counter and its bound through `completeAssistantTurn` of turn.go.
use agentic.Prelude.{
  ℕ, ◌≡◌, refl, ap, ◌∙◌, inl, inr, Bool, true, false, not, ◌&&◌, ◌||◌, Option, none, some, List, [],
  ◌∷◌, Result, ok, err, Bool-cases, Option-cases, is_empty, is_some,
}
use agentic.Message.{Message, ToolUse}
use agentic.Message.Parts.{get_tool_uses}
use agentic.Faults.{Fault}
use agentic.Tools.{ToolExecutionResult}
use agentic.Agent.{LoopState, Config, Options, EventKind, emit, tool_result_committed}
use agentic.Agent.Suspend.{Sealing}
use agentic.Agent.Batch.{RegularTurn}
use agentic.Agent.Batch.Kept.{kept, emit-kept, execute_regular_turn-kept}
use agentic.Agent.Turn.{
  Verdict, Evaluator, judge, judge_candidate, accept_candidate, refuse_candidate, conclude,
  complete_with, complete_assistant_turn, regular_turn, record_calls,
}
use agentic.Agent.Pairs.{check_output_tool, is_early, emit_results, commit_tool_results}

abbrev pub clock : LoopState → ℕ × ℕ
clock ls = (ls.iteration, ls.max_iterations)

pub emit-clock :
    (o : Options) (ls : LoopState) (kind : EventKind) → clock (emit o ls kind).0 ≡ clock ls
emit-clock o ls kind = ap (λ k. (k.1, k.2)) (emit-kept o ls kind)

emit_results-clock :
    (o : Options) (ls : LoopState) (results : List ToolExecutionResult)
    → clock (emit_results o ls results).0 ≡ clock ls
unfolding emit_results
emit_results-clock o ls [] = refl
emit_results-clock o ls (r ∷ results) =
    elim (Option-cases (emit o ls (tool_result_committed r)).1) [
      | inl e ↦
          rw (e, emit_results)
            (emit_results-clock o (emit o ls (tool_result_committed r)).0 results
              ∙ emit-clock o ls (tool_result_committed r))
      | inr (x, e) ↦ rw (e, emit_results) (emit-clock o ls (tool_result_committed r))
    ]

pub regular_turn-kept :
    (o : Options) (c : Config) (seal : Sealing) (ls : LoopState) (calls : List ToolUse)
    (output : Option ℕ) (resumed : Option RegularTurn)
    → kept (regular_turn o c seal ls calls output resumed).0 ≡ kept ls
unfolding regular_turn
regular_turn-kept o c seal ls calls output (some resumed) = refl
regular_turn-kept o c seal ls calls output none =
    elim (Bool-cases (is_some output && is_early ls.end_strategy)) [
      | inl e ↦ rw e refl
      | inr e ↦ rw e (execute_regular_turn-kept o c seal ls calls)
    ]

record_calls-clock :
    (recorded : Bool) (calls : List ToolUse) (ls : LoopState)
    → clock (record_calls recorded calls ls) ≡ clock ls
record_calls-clock true calls ls = refl
record_calls-clock false calls ls = refl

module _ {O : Type 0} (o : Options) (c : Config) where
  conclude-clock :
      (ls : LoopState) (assistant : Message) (regular : RegularTurn) (v : Verdict O)
      → clock (conclude o c ls assistant regular v).0 ≡ clock ls
  unfolding conclude commit_tool_results
  conclude-clock ls assistant regular v = elim (Bool-cases (is_empty v.results)) [
    | inl e ↦ rw (e, conclude) refl
    | inr e ↦ rw (e, conclude) (emit_results-clock o _ v.results)
  ]

  judge_candidate-clock :
      (ls : LoopState) (calls : List ToolUse) (output : Option ℕ)
      (results : List ToolExecutionResult) (answer : Result Fault O)
      → clock (judge_candidate o c ls calls output results answer).0 ≡ clock ls
  unfolding judge_candidate accept_candidate refuse_candidate
  judge_candidate-clock ls calls output results (ok value) = emit-clock o ls _
  judge_candidate-clock ls calls (some i) results (err e) = refl
  judge_candidate-clock ls calls none results (err e) = emit-clock o _ _

  judge-clock :
      (evaluate : Evaluator O) (ls : LoopState) (assistant : Message) (calls : List ToolUse)
      (output : Option ℕ) (regular : RegularTurn) (results : List ToolExecutionResult)
      → clock (judge o c evaluate ls assistant calls output regular results).0 ≡ clock ls
  unfolding judge
  judge-clock evaluate ls assistant calls output regular results =
      elim (Option-cases regular.fatal) [
        | inr (x, e) ↦ rw (e, judge) refl
        | inl e ↦
            elim (Bool-cases ((is_empty calls || is_some output) && not regular.continuation)) [
              | inl b ↦
                  rw (e, b, judge)
                    (judge_candidate-clock ls calls output results (evaluate ls assistant))
              | inr b ↦ rw (e, b, judge) refl
            ]
      ]

  complete_with-clock :
      (evaluate : Evaluator O) (ls : LoopState) (assistant : Message) (calls : List ToolUse)
      (output : Option ℕ) (regular : RegularTurn)
      → clock (complete_with o c evaluate ls assistant calls output regular).0 ≡ clock ls
  unfolding complete_with
  complete_with-clock evaluate ls assistant calls output regular =
      elim (Option-cases regular.suspension) [
        | inr (x, e) ↦ rw (e, complete_with) refl
        | inl e ↦
            rw (e, complete_with)
              (conclude-clock _ assistant regular _
                ∙ judge-clock evaluate ls assistant calls output regular _)
      ]

  pub complete_assistant_turn-clock :
      (seal : Sealing) (evaluate : Evaluator O) (ls : LoopState) (assistant : Message)
      (recorded : Bool) (resumed : Option RegularTurn)
      → clock (complete_assistant_turn o c seal evaluate ls assistant recorded resumed).0 ≡ clock ls
  unfolding complete_assistant_turn
  complete_assistant_turn-clock seal evaluate ls assistant recorded resumed =
      let calls = get_tool_uses assistant in
      let output = check_output_tool c.output_tool_names calls in
      let ready = record_calls recorded calls ls in
      let same : clock ready ≡ clock ls = record_calls-clock recorded calls ls in
      complete_with-clock evaluate _ assistant calls output _
      ∙ ap (λ k. (k.1, k.2)) (regular_turn-kept o c seal ready calls output resumed)
      ∙ same
