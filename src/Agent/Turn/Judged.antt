-- ===== src/Agent/Turn/Judged.antt =====
-- The arbitration of `completeAssistantTurn` of turn.go: fatal errors, candidates and feedback.
use agentic.Prelude.{
  ℕ, ◌≡◌, refl, inl, inr, ◌⊎◌, String, true, ◌||◌, Option, none, some, List, [], ◌∷◌, ◌++◌, ok, err,
  Result, Bool-cases, Option-cases, arith, is_empty, is_some, get_elem?, zero-add,
}
use agentic.Message.{Message, ToolUse}
use agentic.Faults.{Fault}
use agentic.Tools.{ToolExecutionResult}
use agentic.Tools.Gate.Laws.{make_tool_result_error-Answers}
use agentic.Agent.{LoopState, Config, Options}
use agentic.Agent.Batch.{RegularTurn}
use agentic.Agent.Batch.Kept.{emit-messages}
use agentic.Agent.Pairs.{set_output_error, set_output_accepted, accepted_result}
use agentic.Agent.Turn.{
  Verdict, Evaluator, refuse_candidate, accept_candidate, judge_candidate, judge, feedback,
}
use agentic.Agent.Turn.Answered.{Answered, AnsweredBut, AnsweredBut-none, AnsweredBut-set}

-- The index of the output tool is that of a call.
abbrev pub Located : List ToolUse → Option ℕ → Type 0
Located calls none = Unit {0}
Located calls (some i) = (call : ToolUse) × (get_elem? calls i ≡ some call)

set_output_error-Answered :
    (calls : List ToolUse) (output : Option ℕ) (note : String) (cause : Option Fault)
    (results : List ToolExecutionResult)
    → Located calls output
    → AnsweredBut 0 output calls results
    → Answered calls (set_output_error calls output note cause results)
set_output_error-Answered calls none note cause results l a = AnsweredBut-none 0 calls results a
set_output_error-Answered calls (some i) note cause results (call, e) a =
    rw (e, set_output_error)
      (AnsweredBut-set 0 i calls results call _ (rw zero-add a) e
        (make_tool_result_error-Answers call note cause))

set_output_accepted-Answered :
    (calls : List ToolUse) (output : Option ℕ) (results : List ToolExecutionResult)
    → Located calls output
    → AnsweredBut 0 output calls results
    → Answered calls (set_output_accepted calls output results)
unfolding accepted_result
set_output_accepted-Answered calls none results l a = AnsweredBut-none 0 calls results a
set_output_accepted-Answered calls (some i) results (call, e) a =
    rw (e, set_output_accepted)
      (AnsweredBut-set 0 i calls results call _ (rw zero-add a) e (refl, refl))

is_empty-nil : (calls : List ToolUse) → is_empty calls ≡ true → calls ≡ []
is_empty-nil [] h = refl
is_empty-nil (call ∷ calls) h = cc

module _ {O : Type 0} (o : Options) (c : Config) (calls : List ToolUse) where
  -- What the arbitration gives: results that answer the calls, and the messages.
  abbrev pub Judged : LoopState → LoopState × Verdict O → Type 0
  Judged ls (ls', v) =
      Answered calls v.results
      × ((ls'.messages ≡ ls.messages)
          ⊎ ((note : String) × (calls ≡ []) × (ls'.messages ≡ ls.messages ++ feedback note ∷ [])))

  judge_candidate-Judged :
      (ls : LoopState) (output : Option ℕ) (results : List ToolExecutionResult)
      (answer : Result Fault O)
      → Located calls output
      → (is_empty calls || is_some output) ≡ true
      → AnsweredBut 0 output calls results
      → Judged ls (judge_candidate o c ls calls output results answer)
  unfolding judge_candidate accept_candidate refuse_candidate
  judge_candidate-Judged ls output results (ok value) l b a =
      (set_output_accepted-Answered calls output results l a, inl (emit-messages o ls _))
  judge_candidate-Judged ls (some i) results (err e) l b a =
      (set_output_error-Answered calls (some i) _ _ results l a, inl refl)
  judge_candidate-Judged ls none results (err e) l b a = (
    AnsweredBut-none 0 calls results a,
    inr (o.render.describe e, is_empty-nil calls (ground arith), emit-messages o _ _),
  )

  pub judge-Judged :
      (evaluate : Evaluator O) (ls : LoopState) (assistant : Message) (output : Option ℕ)
      (regular : RegularTurn) (results : List ToolExecutionResult)
      → Located calls output
      → AnsweredBut 0 output calls results
      → Judged ls (judge o c evaluate ls assistant calls output regular results)
  unfolding judge
  judge-Judged evaluate ls assistant output regular results l a =
      elim (Option-cases regular.fatal) [
        | inr (x, e) ↦
            rw (e, judge) (set_output_error-Answered calls output _ _ results l a, inl refl)
        | inl e ↦ elim (Bool-cases (is_empty calls || is_some output)) [
          | inl b ↦ elim (Bool-cases regular.continuation) [
            | inl r ↦
                rw (e, b, r, judge)
                  (set_output_error-Answered calls output _ _ results l a, inl refl)
            | inr r ↦
                rw (e, b, r, judge)
                  (judge_candidate-Judged ls output results (evaluate ls assistant) l b a)
          ]
          | inr b ↦
              rw (e, b, judge) (set_output_error-Answered calls output _ _ results l a, inl refl)
        ]
      ]
