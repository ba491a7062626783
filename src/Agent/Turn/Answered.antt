-- ===== src/Agent/Turn/Answered.antt =====
-- The pairing loop of `completeAssistantTurn` of turn.go, by the calls and their results.
use agentic.Prelude.{
  ℕ, zero, suc, ◌+◌, ◌≡◌, refl, sym, subst, inl, inr, String, Bool, false, ◌&&◌, Option, none, some,
  List, [], ◌∷◌, Bool-cases, Option-cases, All, contains, lookup, arith, is_some, get_elem?, set,
}
use agentic.Message.{ToolUse}
use agentic.Tools.{ToolExecutionResult, Answers}
use agentic.Tools.Gate.Laws.{make_tool_result_error-Answers}
use agentic.Agent.Batch.{RegularTurn}
use agentic.Agent.Batch.Results.{In, Sound}
use agentic.Agent.Pairs.{check_output_tool, pair_result, pair_results, is_at}

-- Results that answer the calls, but perhaps not at the index of the output tool.
abbrev pub AnsweredBut : ℕ → Option ℕ → List ToolUse → List ToolExecutionResult → Type 0
AnsweredBut i output [] [] = Unit {0}
AnsweredBut i output (call ∷ calls) (r ∷ results) =
    (is_at i output ≡ false → Answers call r) × AnsweredBut (suc i) output calls results
AnsweredBut i output _ _ = ⊥

abbrev pub Answered : List ToolUse → List ToolExecutionResult → Type 0
Answered [] [] = Unit {0}
Answered (call ∷ calls) (r ∷ results) = Answers call r × Answered calls results
Answered _ _ = ⊥

pub AnsweredBut-none :
    (i : ℕ) (calls : List ToolUse) (results : List ToolExecutionResult)
    → AnsweredBut i none calls results
    → Answered calls results
AnsweredBut-none i [] [] a = tt
AnsweredBut-none i [] (r ∷ results) a = absurd a
AnsweredBut-none i (call ∷ calls) [] a = absurd a
AnsweredBut-none i (call ∷ calls) (r ∷ results) a =
    (a.0 refl, AnsweredBut-none (suc i) calls results a.1)

-- Past the index of the output tool every result answers its call.
AnsweredBut-past :
    (i j : ℕ) (calls : List ToolUse) (results : List ToolExecutionResult)
    → AnsweredBut (suc (i + j)) (some i) calls results
    → Answered calls results
AnsweredBut-past i j [] [] a = tt
AnsweredBut-past i j [] (r ∷ results) a = absurd a
AnsweredBut-past i j (call ∷ calls) [] a = absurd a
AnsweredBut-past i j (call ∷ calls) (r ∷ results) a = (
  a.0 (ground arith),
  AnsweredBut-past i (suc j) calls results
      (subst (λ n. AnsweredBut n (some i) calls results) (omega arith) a.1),
)

-- A result for the call at the output index completes them.
pub AnsweredBut-set :
    (i k : ℕ) (calls : List ToolUse) (results : List ToolExecutionResult) (call : ToolUse)
    (r : ToolExecutionResult)
    → AnsweredBut i (some (i + k)) calls results
    → get_elem? calls k ≡ some call
    → Answers call r
    → Answered calls (set results k r)
AnsweredBut-set i k [] results call r a e w = cc
AnsweredBut-set i k (c ∷ calls) [] call r a e w = absurd a
AnsweredBut-set i zero (c ∷ calls) (q ∷ results) call r a e w =
    let same : c ≡ call = cc in
    (
      subst (λ x. Answers x r) (sym same) w,
      AnsweredBut-past i 0 calls results (
          subst (λ n. AnsweredBut (suc n) (some i) calls results) (omega arith)
            (subst (λ n. AnsweredBut (suc i) (some n) calls results) (omega arith) a.1)),
    )
AnsweredBut-set i (suc k) (c ∷ calls) (q ∷ results) call r a e w = (
  a.0 (ground arith),
  AnsweredBut-set (suc i) k calls results call r
      (subst (λ n. AnsweredBut (suc i) (some n) calls results) (omega arith) a.1) e w,
)

pub check_output_tool-get_elem? :
    (names : List String) (calls : List ToolUse) {i : ℕ}
    → check_output_tool names calls ≡ some i
    → (call : ToolUse) × (get_elem? calls i ≡ some call)
unfolding check_output_tool
check_output_tool-get_elem? names [] h = cc
check_output_tool-get_elem? names (call ∷ calls) {i} h =
    elim (Bool-cases (contains call.name names)) [
      | inl e ↦
          let same : 0 ≡ i = ground arith in
          (call, subst (λ k. get_elem? (call ∷ calls) k ≡ some call) same refl)
      | inr e ↦ elim (Option-cases (check_output_tool names calls)) [
        | inl f ↦ absurd (ground arith)
        | inr (j, f) ↦
            let (other, g) = check_output_tool-get_elem? names calls f in
            let same : suc j ≡ i = ground arith in
            (other, subst (λ k. get_elem? (call ∷ calls) k ≡ some other) same g)
      ]
    ]

module _ (frontier : List ToolUse) (names : List String) (ends_early : Bool) (regular : RegularTurn)
    (sound : Sound frontier regular.results) (output : Option ℕ) where
  pair_result-Answers :
      (i : ℕ) (call : ToolUse)
      → In frontier call
      → is_at i output ≡ false
      → Answers call (pair_result names ends_early regular output i call)
  unfolding pair_result
  pair_result-Answers i call m away = elim (Bool-cases (contains call.name names)) [
    | inl e ↦ rw (e, away) (make_tool_result_error-Answers call _ none)
    | inr e ↦ elim (Bool-cases (is_some output && ends_early)) [
      | inl f ↦ rw (e, f) (make_tool_result_error-Answers call _ none)
      | inr f ↦ elim (Option-cases (lookup call.id regular.results)) [
        | inl g ↦ rw (e, f, g, pair_result) (make_tool_result_error-Answers call _ regular.fatal)
        | inr (r, g) ↦ rw (e, f, g, pair_result) (sound call r m g)
      ]
    ]
  ]

  pub pair_results-AnsweredBut :
      (i : ℕ) (calls : List ToolUse)
      → All (In frontier) calls
      → AnsweredBut i output calls (pair_results names ends_early regular output i calls)
  unfolding pair_results
  pair_results-AnsweredBut i [] m = tt
  pair_results-AnsweredBut i (call ∷ calls) m =
      (pair_result-Answers i call m.0, pair_results-AnsweredBut (suc i) calls m.1)
