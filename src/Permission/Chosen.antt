-- ===== src/Permission/Chosen.antt =====
-- Which rule decides a request: `Evaluate` of harness/permission/policy.go.
use agentic.Prelude.{
  ◌≤◌, ◌<◌, ◌≡◌, refl, sym, inl, inr, ◌⊎◌, subst, String, List, [], ◌∷◌, none, some, true, false,
  if◌then◌else◌, ltb, Bool-cases, All, arith,
}
use agentic.Permission.{
  Decision, CompiledRule, Policy, PermissionRequest, Matcher, Best, request_segments, match_pattern,
  outranks, choose, choose_all, evaluate,
}

abbrev reverse_onto : List CompiledRule → List CompiledRule → List CompiledRule
reverse_onto [] seen = seen
reverse_onto (rule ∷ rules) seen = reverse_onto rules (rule ∷ seen)

abbrev Member : CompiledRule → List CompiledRule → Type 0
Member rule [] = ⊥
Member rule (first ∷ rules) = (rule ≡ first) ⊎ Member rule rules

-- A rule yields to another that is more specific, or as specific and not before it.
abbrev pub YieldsTo : CompiledRule → CompiledRule → Type 0
YieldsTo chosen rule =
    (rule.specificity < chosen.specificity)
    ⊎ ((rule.specificity ≡ chosen.specificity) × (rule.index ≤ chosen.index))

Member-All :
    (P : CompiledRule → Type 0) (rules : List CompiledRule) (q : CompiledRule)
    → All P rules
    → Member q rules
    → P q
Member-All P [] q all m = absurd m
Member-All P (rule ∷ rules) q all (inl same) = subst P (sym same) (all.0)
Member-All P (rule ∷ rules) q all (inr m) = Member-All P rules q (all.1) m

Member-seen :
    (rules seen : List CompiledRule) (q : CompiledRule)
    → Member q seen
    → Member q (reverse_onto rules seen)
Member-seen [] seen q m = m
Member-seen (rule ∷ rules) seen q m = Member-seen rules (rule ∷ seen) q (inr m)

Member-turned :
    (rules seen : List CompiledRule) (q : CompiledRule)
    → Member q rules
    → Member q (reverse_onto rules seen)
Member-turned [] seen q m = absurd m
Member-turned (rule ∷ rules) seen q (inl same) = Member-seen rules (rule ∷ seen) q (inl same)
Member-turned (rule ∷ rules) seen q (inr m) = Member-turned rules (rule ∷ seen) q m

Member-turned_back :
    (rules seen : List CompiledRule) (q : CompiledRule)
    → Member q (reverse_onto rules seen)
    → Member q rules ⊎ Member q seen
Member-turned_back [] seen q m = inr m
Member-turned_back (rule ∷ rules) seen q m = elim (Member-turned_back rules (rule ∷ seen) q m) [
  | inl later ↦ inl (inr later)
  | inr (inl same) ↦ inl (inl same)
  | inr (inr before) ↦ inr before
]

Member-all :
    (rules : List CompiledRule) (q : CompiledRule)
    → Member q (reverse_onto rules [])
    → Member q rules
Member-all rules q m = elim (Member-turned_back rules [] q m) [
  | inl here ↦ here
  | inr nowhere ↦ absurd nowhere
]

outranks-YieldsTo :
    (rule c : CompiledRule) → outranks rule (some (c.specificity, c.index)) ≡ true → YieldsTo rule c
outranks-YieldsTo rule c h = elim (Bool-cases (ltb c.specificity rule.specificity)) [
  | inl less ↦ inl (ground arith)
  | inr no_less ↦ inr (ground arith, ground arith)
]

stays-YieldsTo :
    (rule c : CompiledRule)
    → outranks rule (some (c.specificity, c.index)) ≡ false
    → YieldsTo c rule
stays-YieldsTo rule c h = elim (Bool-cases (ltb rule.specificity c.specificity)) [
  | inl less ↦ inl (ground arith)
  | inr no_less ↦ inr (ground arith, ground arith)
]

YieldsTo-trans : (a b c : CompiledRule) → YieldsTo a b → YieldsTo b c → YieldsTo a c
YieldsTo-trans a b c (inl p) (inl q) = inl (omega arith)
YieldsTo-trans a b c (inl p) (inr (q, r)) = inl (omega arith)
YieldsTo-trans a b c (inr (p, r)) (inl q) = inl (omega arith)
YieldsTo-trans a b c (inr (p, r)) (inr (q, t)) = inr (omega arith, omega arith)

module _ (matcher : Matcher) (names : List String) where
  abbrev pub Misses : CompiledRule → Type 0
  Misses rule = match_pattern matcher rule.segments names ≡ false

  -- The rules of `seen` decide: none matches and it is the fallback, or one of them that matches
  -- decides, and every one that matches yields to it.
  abbrev pub Decides : Decision → List CompiledRule → Best → Type 0
  Decides fallback seen best =
      (All Misses seen × (best.decision ≡ fallback) × (best.made_by ≡ none))
      ⊎ ((rule : CompiledRule) × Member rule seen
          × (match_pattern matcher rule.segments names ≡ true)
          × (best.decision ≡ rule.rule.decision)
          × (best.made_by ≡ some (rule.specificity, rule.index))
          × All (λ q. match_pattern matcher q.segments names ≡ true → YieldsTo rule q) seen)

  abbrev Yield : CompiledRule → List CompiledRule → Type 0
  Yield rule = All (λ q. match_pattern matcher q.segments names ≡ true → YieldsTo rule q)

  Yield-trans :
      (rule c : CompiledRule) (seen : List CompiledRule)
      → YieldsTo rule c
      → Yield c seen
      → Yield rule seen
  Yield-trans rule c [] above yields = tt
  Yield-trans rule c (q ∷ seen) above (yield, yields) =
      (λ hit. YieldsTo-trans rule c q above (yield hit), Yield-trans rule c seen above yields)

  Yield-Misses :
      (rule : CompiledRule) (seen : List CompiledRule) → All Misses seen → Yield rule seen
  Yield-Misses rule [] missed = tt
  Yield-Misses rule (q ∷ seen) (miss, missed) =
      (λ hit. cc (miss, hit), Yield-Misses rule seen missed)

  abbrev made : CompiledRule → Best
  made rule = record {
    decision = rule.rule.decision;
    made_by = some (rule.specificity, rule.index);
  }

  self : (rule : CompiledRule) → YieldsTo rule rule
  self rule = inr (refl, omega arith)

  choose_of_hit :
      (fallback : Decision) (seen : List CompiledRule) (rule : CompiledRule) (best : Best)
      → match_pattern matcher rule.segments names ≡ true
      → Decides fallback seen best
      → Decides fallback (rule ∷ seen) (if outranks rule best.made_by then made rule else best)
  choose_of_hit fallback seen rule best hit (inl (missed, d, m)) =
      rw m
        (inr (rule, inl refl, hit, refl, refl, ((λ _. self rule), Yield-Misses rule seen missed)))
  choose_of_hit fallback seen rule best hit (inr (c, member, hit_c, d, m, yields)) =
      elim (Bool-cases (outranks rule (some (c.specificity, c.index)))) [
        | inl above ↦
            rw (m, above)
              (inr (
                rule,
                inl refl,
                hit,
                refl,
                refl,
                ((λ _. self rule), Yield-trans rule c seen (outranks-YieldsTo rule c above) yields),
              ))
        | inr below ↦
            rw (m, below)
              (inr (c, inr member, hit_c, d, refl, ((λ _. stays-YieldsTo rule c below), yields)))
      ]

  miss-Decides :
      (fallback : Decision) (seen : List CompiledRule) (rule : CompiledRule) (best : Best)
      → Misses rule
      → Decides fallback seen best
      → Decides fallback (rule ∷ seen) best
  miss-Decides fallback seen rule best miss (inl (missed, d, m)) = inl ((miss, missed), d, m)
  miss-Decides fallback seen rule best miss (inr (c, member, hit_c, d, m, yields)) =
      inr (c, inr member, hit_c, d, m, ((λ hit. cc (miss, hit)), yields))

  choose-Decides :
      (fallback : Decision) (seen : List CompiledRule) (rule : CompiledRule) (best : Best)
      → Decides fallback seen best
      → Decides fallback (rule ∷ seen) (choose matcher names rule best)
  unfolding choose
  choose-Decides fallback seen rule best v =
      elim (Bool-cases (match_pattern matcher rule.segments names)) [
        | inl hit ↦
            subst (Decides fallback (rule ∷ seen)) (sym (rw (choose, hit) refl))
              (choose_of_hit fallback seen rule best hit v)
        | inr miss ↦
            subst (Decides fallback (rule ∷ seen)) (sym (rw (choose, miss) refl))
              (miss-Decides fallback seen rule best miss v)
      ]

  choose_all-Decides :
      (fallback : Decision) (seen rules : List CompiledRule) (best : Best)
      → Decides fallback seen best
      → Decides fallback (reverse_onto rules seen) (choose_all matcher names rules best)
  unfolding choose_all
  choose_all-Decides fallback seen [] best v = v
  choose_all-Decides fallback seen (rule ∷ rules) best v =
      choose_all-Decides fallback (rule ∷ seen) rules (choose matcher names rule best)
        (choose-Decides fallback seen rule best v)

  -- What `Evaluate` promises: no rule matches and the decision is the fallback, or it is that of a
  -- rule that matches, to which every rule that matches yields.
  abbrev pub IsMostSpecific : Policy → Decision → Type 0
  IsMostSpecific policy decision =
      (((q : CompiledRule) → Member q policy.rules → Misses q) × (decision ≡ policy.fallback))
      ⊎ ((rule : CompiledRule) × Member rule policy.rules
          × (match_pattern matcher rule.segments names ≡ true)
          × (decision ≡ rule.rule.decision)
          × ((q : CompiledRule)
              → Member q policy.rules
              → match_pattern matcher q.segments names ≡ true
              → YieldsTo rule q))

  Decides-IsMostSpecific :
      (policy : Policy) (best : Best)
      → Decides policy.fallback (reverse_onto policy.rules []) best
      → IsMostSpecific policy best.decision
  Decides-IsMostSpecific policy best (inl (missed, d, m)) = inl (
    (λ q here.
        Member-All Misses (reverse_onto policy.rules []) q missed
          (Member-turned policy.rules [] q here)),
    d,
  )
  Decides-IsMostSpecific policy best (inr (c, member, hit, d, m, yields)) = inr (
    c,
    Member-all policy.rules c member,
    hit,
    d,
    (λ q here.
        Member-All (λ x. match_pattern matcher x.segments names ≡ true → YieldsTo c x)
          (reverse_onto policy.rules []) q yields (Member-turned policy.rules [] q here)),
  )

-- `Evaluate` answers with the decision of a matching rule to which every matching rule yields, by
-- specificity and then by index, or with the fallback if no rule matches.
pub evaluate-IsMostSpecific :
    (matcher : Matcher) (policy : Policy) (request : PermissionRequest)
    → IsMostSpecific matcher
        (request_segments request)
        policy
        (evaluate matcher (some policy) request)
unfolding evaluate
evaluate-IsMostSpecific matcher policy request =
    Decides-IsMostSpecific matcher (request_segments request) policy
      (choose_all matcher (request_segments request) policy.rules
        (record { decision = policy.fallback; made_by = none }))
      (choose_all-Decides matcher (request_segments request) policy.fallback [] policy.rules
        (record { decision = policy.fallback; made_by = none }) (inl (tt, refl, refl)))
