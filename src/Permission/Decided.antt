-- ===== src/Permission/Decided.antt =====
-- A policy of `New` of harness/permission/policy.go only makes known decisions.
use agentic.Prelude.{
  ℕ, suc, ◌≡◌, ap, inl, inr, subst, String, List, [], ◌∷◌, none, some, true, ok, >>=-eq-ok,
  Bool-cases, Result-cases, All, arith,
}
use agentic.Permission.{
  Decision, Rule, CompiledRule, Policy, PermissionRequest, Matcher, Best, is_known, compiled,
  pattern_segments, compile_rule, compile_rules, new_policy, request_segments, match_pattern,
  outranks, choose, choose_all, evaluate,
}

abbrev IsKnown : Decision → Type 0
IsKnown decision = is_known decision ≡ true

abbrev AllKnown : List CompiledRule → Type 0
AllKnown = All (λ c. IsKnown c.rule.decision)

-- The rules are those given, in order, with their positions.
abbrev pub Compiles : ℕ → List Rule → List CompiledRule → Type 0
Compiles index [] [] = Unit {0}
Compiles index (rule ∷ rules) (c ∷ cs) =
    (c.rule ≡ rule) × (c.index ≡ index) × IsKnown rule.decision × Compiles (suc index) rules cs
Compiles index _ _ = ⊥

compile_rule-IsKnown :
    (matcher : Matcher) (index : ℕ) (rule : Rule) {c : CompiledRule}
    → compile_rule matcher index rule ≡ ok c
    → (c.rule ≡ rule) × (c.index ≡ index) × IsKnown rule.decision
unfolding compile_rule
compile_rule-IsKnown matcher index rule {c} h =
    elim (Result-cases (pattern_segments matcher rule.pattern)) [
      | inl (segments, e) ↦
          let shape : c ≡ compiled index rule segments = ground arith in
          (ap (λ x. x.rule) shape, ap (λ x. x.index) shape, ground arith)
      | inr (f, e) ↦ absurd (ground arith)
    ]

compile_rules-Compiles :
    (matcher : Matcher) (index : ℕ) (rules : List Rule) {cs : List CompiledRule}
    → compile_rules matcher index rules ≡ ok cs
    → Compiles index rules cs
unfolding compile_rules
compile_rules-Compiles matcher index [] {cs} h =
    let same : [] ≡ cs = ground arith in subst (Compiles index []) same tt
compile_rules-Compiles matcher index (rule ∷ rules) {cs} h =
    let (one, e, later) = >>=-eq-ok (compile_rule matcher index rule) _ h in
    let (rest, f, joined) =
      >>=-eq-ok (compile_rules matcher (suc index) rules) (λ rest. ok (one ∷ rest)) later in
    let same : one ∷ rest ≡ cs = ground arith in
    let (r, i, k) = compile_rule-IsKnown matcher index rule e in
    subst (Compiles index (rule ∷ rules)) same
      (r, i, k, compile_rules-Compiles matcher (suc index) rules f)

Compiles-AllKnown :
    (index : ℕ) (rules : List Rule) (cs : List CompiledRule) → Compiles index rules cs → AllKnown cs
Compiles-AllKnown index [] [] h = tt
Compiles-AllKnown index [] (c ∷ cs) h = absurd h
Compiles-AllKnown index (rule ∷ rules) [] h = absurd h
Compiles-AllKnown index (rule ∷ rules) (c ∷ cs) (r, i, k, rest) =
    (rw r k, Compiles-AllKnown (suc index) rules cs rest)

choose-IsKnown :
    (matcher : Matcher) (names : List String) (rule : CompiledRule) (best : Best)
    → IsKnown rule.rule.decision
    → IsKnown best.decision
    → IsKnown (choose matcher names rule best).decision
unfolding choose
choose-IsKnown matcher names rule best k b =
    elim (Bool-cases (match_pattern matcher rule.segments names)) [
      | inr miss ↦ rw (choose, miss) b
      | inl hit ↦ elim (Bool-cases (outranks rule best.made_by)) [
        | inl above ↦ rw (choose, hit, above) k
        | inr below ↦ rw (choose, hit, below) b
      ]
    ]

choose_all-IsKnown :
    (matcher : Matcher) (names : List String) (rules : List CompiledRule) (best : Best)
    → AllKnown rules
    → IsKnown best.decision
    → IsKnown (choose_all matcher names rules best).decision
unfolding choose_all
choose_all-IsKnown matcher names [] best ks b = b
choose_all-IsKnown matcher names (rule ∷ rules) best (k, ks) b =
    choose_all-IsKnown matcher names rules (choose matcher names rule best) ks
      (choose-IsKnown matcher names rule best k b)

-- A policy that `New` made holds the given rules in order, each with its position as its index, and
-- it answers every request with allow, ask or deny.
pub new_policy-evaluate :
    (matcher : Matcher) (fallback : Decision) (rules : List Rule) {policy : Policy}
    → new_policy matcher fallback rules ≡ ok policy
    → Compiles 0 rules policy.rules
      × ((request : PermissionRequest) → is_known (evaluate matcher (some policy) request) ≡ true)
unfolding new_policy evaluate
new_policy-evaluate matcher fallback rules {policy} h =
    elim (Result-cases (compile_rules matcher 0 rules)) [
      | inr (f, e) ↦ absurd (ground arith)
      | inl (cs, e) ↦
          let shape : policy ≡ record { fallback = fallback; rules = cs } = ground arith in
          let known : is_known fallback ≡ true = ground arith in
          let compiles = compile_rules-Compiles matcher 0 rules e in
          rw shape (
            compiles,
            λ request.
                choose_all-IsKnown matcher (request_segments request) cs
                  (record { decision = fallback; made_by = none })
                  (Compiles-AllKnown 0 rules cs compiles) known,
          )
    ]
