-- ===== src/Tools/Scheduler/Orders.antt =====
-- The collector of tool_scheduler.go, by the order in which completions arrive.
use agentic.Prelude.{
  ℕ, zero, suc, ◌<◌, ◌≡◌, refl, sym, subst, inl, inr, ◌⊎◌, Bool, true, false, Option, none, some,
  List, [], ◌∷◌, map, length, get_elem?, set, nat_eq, nat_eq→eq, ◌∙◌, Bool-cases, arith, All,
  length-set, length-map, if◌then◌else◌, ◌+◌,
}
use agentic.Message.{ToolUse}
use agentic.Faults.{Fault, join, joined}
use agentic.Tools.{Rendering, ToolExecutionResult, ToolDeferral, make_tool_result_error, text}
use agentic.Tools.Scheduler.{
  Completion, Gather, empty_gather, received, remaining, outcome, accept_for, accept, gather, fill,
  collect, arrive, next_deferral,
}

abbrev Slots : Type 0
Slots = List (Option ToolExecutionResult)

-- Each slot is empty or holds the expected result.
abbrev Agree : Slots → List ToolExecutionResult → Type 0
Agree [] [] = Unit {0}
Agree (slot ∷ slots) (r ∷ results) = ((slot ≡ none) ⊎ (slot ≡ some r)) × Agree slots results
Agree _ _ = ⊥

Agree-set :
    (slots : Slots) (results : List ToolExecutionResult) (i : ℕ) (r : ToolExecutionResult)
    → Agree slots results
    → get_elem? results i ≡ some r
    → Agree (set slots i (some r)) results
Agree-set [] [] i r a h = tt
Agree-set [] (q ∷ results) i r a h = absurd a
Agree-set (slot ∷ slots) [] i r a h = absurd a
Agree-set (slot ∷ slots) (q ∷ results) zero r a h = (inr (cc), a.1)
Agree-set (slot ∷ slots) (q ∷ results) (suc i) r a h = (a.0, Agree-set slots results i r a.1 h)

-- A slot stays received, and a write makes one received.
received-set :
    (slots : Slots) (i j : ℕ) (r : ToolExecutionResult)
    → received slots j ≡ true
    → received (set slots i (some r)) j ≡ true
unfolding received
received-set [] i j r h = h
received-set (slot ∷ slots) zero zero r h = refl
received-set (slot ∷ slots) zero (suc j) r h = h
received-set (slot ∷ slots) (suc i) zero r h = h
received-set (slot ∷ slots) (suc i) (suc j) r h = received-set slots i j r h

received-set_self :
    (slots : Slots) (i : ℕ) (r : ToolExecutionResult)
    → i < length slots
    → received (set slots i (some r)) i ≡ true
unfolding received
received-set_self [] i r h = absurd (omega arith)
received-set_self (slot ∷ slots) zero r h = refl
received-set_self (slot ∷ slots) (suc i) r h = received-set_self slots i r (omega arith)

received_of_none_remaining :
    (slots : Slots) (i : ℕ) → remaining slots ≡ 0 → i < length slots → received slots i ≡ true
unfolding received remaining
received_of_none_remaining [] i h l = absurd (omega arith)
received_of_none_remaining (none ∷ slots) i h l = absurd (omega arith)
received_of_none_remaining (some r ∷ slots) zero h l = refl
received_of_none_remaining (some r ∷ slots) (suc i) h l =
    received_of_none_remaining slots i h (omega arith)

-- When every slot is received the results are the expected ones.
fill-Agree :
    (calls : List ToolUse) (slots : Slots) (results : List ToolExecutionResult)
    → length calls ≡ length slots
    → Agree slots results
    → ((i : ℕ) → i < length slots → received slots i ≡ true)
    → fill calls slots ≡ results
unfolding fill received
fill-Agree [] [] [] n a all = refl
fill-Agree [] [] (r ∷ results) n a all = absurd a
fill-Agree [] (slot ∷ slots) results n a all = absurd (omega arith)
fill-Agree (call ∷ calls) [] results n a all = absurd (omega arith)
fill-Agree (call ∷ calls) (slot ∷ slots) [] n a all = absurd a
fill-Agree (call ∷ calls) (none ∷ slots) (r ∷ results) n a all = cc (all 0 (omega arith))
fill-Agree (call ∷ calls) (some q ∷ slots) (r ∷ results) n (inl e, a) all = cc
fill-Agree (call ∷ calls) (some q ∷ slots) (r ∷ results) n (inr e, a) all =
    let same : q ≡ r = cc in
    let rest = fill-Agree calls slots results (omega arith) a (λ i h. all (suc i) (omega arith)) in
    cc

-- The completions of a batch, one for each call at the call's index, none of them suspended, and
-- what is expected of each call.
abbrev pub Indexed : ℕ → List ToolUse → List Completion → Type 0
Indexed i [] [] = Unit {0}
Indexed i (call ∷ calls) (c ∷ cs) = (c.index ≡ i) × (c.deferral ≡ none) × Indexed (suc i) calls cs
Indexed i _ _ = ⊥

-- What a call is answered with: the handler's result if nothing failed, and else an error result of
-- the call that tells the failure.
abbrev pub failed_with : Rendering → ToolUse → Fault → ToolExecutionResult
failed_with render call e = record {
  tool_use_id = call.id;
  tool_name = call.name;
  content = text (render.describe e);
  is_error = true;
  error = some e;
}

abbrev answered :
    Rendering → ToolUse → ToolExecutionResult → Option Fault → Option Fault → ToolExecutionResult
answered render call result none none = result
answered render call result (some e) none = failed_with render call e
answered render call result none (some e) = failed_with render call e
answered render call result (some e) (some f) = failed_with render call (joined e f)

outcome-answered :
    (render : Rendering) (call : ToolUse) (c : Completion) (fault suspension : Option Fault)
    → c.fault ≡ fault
    → c.suspension_fault ≡ suspension
    → outcome render call c ≡ answered render call c.result fault suspension
unfolding outcome make_tool_result_error
outcome-answered render call c none none p q = rw (outcome, p, q) refl
outcome-answered render call c (some e) none p q = rw (outcome, p, q) refl
outcome-answered render call c none (some e) p q = rw (outcome, p, q) refl
outcome-answered render call c (some e) (some f) p q = rw (outcome, p, q) refl

-- The answers of a batch, call by call.
abbrev pub answers : Rendering → List ToolUse → List Completion → List ToolExecutionResult
answers render (call ∷ calls) (c ∷ cs) =
    answered render call c.result c.fault c.suspension_fault ∷ answers render calls cs
answers render _ _ = []

expected : Rendering → List ToolUse → List Completion → List ToolExecutionResult
expected render (call ∷ calls) (c ∷ cs) = outcome render call c ∷ expected render calls cs
expected render _ _ = []

abbrev pub occurs : ℕ → List ℕ → Bool
occurs i [] = false
occurs i (j ∷ order) = if nat_eq j i then true else occurs i order

get_elem?-Indexed :
    (render : Rendering) (k i : ℕ) (calls : List ToolUse) (cs : List Completion)
    → Indexed k calls cs
    → i < length calls
    → (call : ToolUse) × (c : Completion) × (get_elem? calls i ≡ some call)
      × (get_elem? cs i ≡ some c)
      × (c.index ≡ k + i)
      × (c.deferral ≡ none)
      × (get_elem? (expected render calls cs) i ≡ some (outcome render call c))
unfolding expected
get_elem?-Indexed render k i [] [] v l = absurd (omega arith)
get_elem?-Indexed render k i [] (c ∷ cs) v l = absurd v
get_elem?-Indexed render k i (call ∷ calls) [] v l = absurd v
get_elem?-Indexed render k zero (call ∷ calls) (c ∷ cs) v l =
    (call, c, refl, refl, omega arith, v.1, refl)
get_elem?-Indexed render k (suc i) (call ∷ calls) (c ∷ cs) v l =
    let (call', c', p, q, r, d, e) =
      get_elem?-Indexed render (suc k) i calls cs v.2 (omega arith) in
    (call', c', p, q, omega arith, d, e)

Agree-nones :
    (render : Rendering) (k : ℕ) (calls : List ToolUse) (cs : List Completion)
    → Indexed k calls cs
    → Agree (map (λ _. none) calls) (expected render calls cs)
unfolding expected
Agree-nones render k [] [] v = tt
Agree-nones render k [] (c ∷ cs) v = absurd v
Agree-nones render k (call ∷ calls) [] v = absurd v
Agree-nones render k (call ∷ calls) (c ∷ cs) v = (inl refl, Agree-nones render (suc k) calls cs v.2)

module _ (render : Rendering) (calls : List ToolUse) (cs : List Completion) where
  -- What holds of the collector's variables during the loop.
  record Inv (g : Gather) : Type 0 where
    agree : Agree g.slots (expected render calls cs)
    sized : length g.slots ≡ length calls
    free : g.deferral ≡ none

  next_deferral-none :
      (fault : Option Fault) (d e : Option ToolDeferral)
      → d ≡ none
      → e ≡ none
      → next_deferral fault d e ≡ none
  next_deferral-none none none e p q = q
  next_deferral-none none (some d) e p q = cc
  next_deferral-none (some f) d e p q = q

  -- What a step of the loop does: it keeps the invariant and what was received, and receives `c`.
  Accepted : Completion → Gather → Gather → Type 0
  Accepted c g g' =
      Inv g'
      × (received g'.slots c.index ≡ true)
      × ((j : ℕ) → received g.slots j ≡ true → received g'.slots j ≡ true)

  accept-Accepted :
      (call : ToolUse) (c : Completion) (g : Gather)
      → get_elem? calls c.index ≡ some call
      → c.deferral ≡ none
      → get_elem? (expected render calls cs) c.index ≡ some (outcome render call c)
      → c.index < length calls
      → Inv g
      → Accepted c g (accept render calls g c)
  unfolding accept accept_for Accepted
  accept-Accepted call c g found free expect l v = elim (Bool-cases (received g.slots c.index)) [
    | inl old ↦ rw (found, accept, old, accept_for) (v, old, λ j h. h)
    | inr new ↦
        rw (found, accept, new, accept_for)
          (
            record {
              agree = Agree-set g.slots _ c.index _ v.agree expect;
              sized = omega (arith, length-set g.slots c.index, v.sized);
              free =
                  next_deferral-none (join c.fault c.suspension_fault) c.deferral g.deferral free
                    v.free;
            },
            received-set_self g.slots c.index _ (omega (arith, v.sized)),
            λ j h. received-set g.slots c.index j _ h,
          )
  ]

  -- Every call's completion has been received or is still to come.
  Pending : List ℕ → Gather → Type 0
  Pending order g =
      (i : ℕ) → i < length calls → (received g.slots i ≡ true) ⊎ (occurs i order ≡ true)

  Pending-accept :
      (j : ℕ) (order : List ℕ) (c : Completion) (g g' : Gather)
      → c.index ≡ j
      → Accepted c g g'
      → Pending (j ∷ order) g
      → Pending order g'
  unfolding Pending Accepted
  Pending-accept j order c g g' same acc p i l = elim (p i l) [
    | inl h ↦ inl (acc.2 i h)
    | inr h ↦ elim (Bool-cases (nat_eq j i)) [
      | inl e ↦ inl (subst (λ k. received g'.slots k ≡ true) (same ∙ nat_eq→eq j i e) acc.1)
      | inr e ↦ inr (rw e at h)
    ]
  ]

  gather-received :
      (order : List ℕ) (g : Gather)
      → Indexed 0 calls cs
      → All (λ j. j < length calls) order
      → Inv g
      → Pending order g
      → let g' = gather render calls g (arrive cs order) in
        Inv g' × ((i : ℕ) → i < length calls → received g'.slots i ≡ true)
  unfolding gather Pending
  gather-received [] g w b v p = (v, λ i l. elim (p i l) [ inl h ↦ h | inr e ↦ cc ])
  gather-received (j ∷ order) g w b v p =
      let (call, c, found, arrived, index, free, expect) =
        get_elem?-Indexed render 0 j calls cs w b.0 in
      let same : c.index ≡ j = omega arith in
      let acc =
        accept-Accepted call c g (rw same found) free (rw same expect) (omega (arith, b.0)) v in
      elim (Bool-cases (nat_eq (remaining g.slots) 0)) [
        | inl done ↦
            rw (arrived, gather, done)
              (
                v,
                λ i l. received_of_none_remaining g.slots i (ground arith) (omega (arith, v.sized)),
              )
        | inr more ↦
            rw (arrived, gather, more)
              (gather-received order (accept render calls g c) w b.1 (unfold Accepted in acc.0)
                (Pending-accept j order c g _ same acc p))
      ]

expected-answers :
    (render : Rendering) (i : ℕ) (calls : List ToolUse) (cs : List Completion)
    → Indexed i calls cs
    → expected render calls cs ≡ answers render calls cs
unfolding expected
expected-answers render i [] [] w = refl
expected-answers render i [] (c ∷ cs) w = absurd w
expected-answers render i (call ∷ calls) [] w = absurd w
expected-answers render i (call ∷ calls) (c ∷ cs) w =
    rw
      (
        outcome-answered render call c c.fault c.suspension_fault refl refl,
        expected-answers render (suc i) calls cs w.2,
      )
      refl

-- In whatever order the completions of a batch arrive, if each arrives and none is suspended, the
-- results are, call by call, that of the handler where nothing failed, and where the handler or the
-- check of its deferral failed an error result of the call that tells the failure.
pub collect-order :
    (render : Rendering) (calls : List ToolUse) (cs : List Completion) (order : List ℕ)
    → Indexed 0 calls cs
    → All (λ j. j < length calls) order
    → ((i : ℕ) → i < length calls → occurs i order ≡ true)
    → (collect render calls (arrive cs order)).results ≡ answers render calls cs
unfolding collect received
collect-order render calls cs order w b covers =
    let start_Inv : Inv render calls cs (empty_gather calls) = record {
      agree = Agree-nones render 0 calls cs w;
      sized = length-map (λ (_ : ToolUse). none) calls;
      free = refl;
    } in
    let (v, all) =
      gather-received render calls cs order (empty_gather calls) w b start_Inv
        (unfold Pending in λ i l. inr (covers i l)) in
    rw (v.free) (
      fill-Agree calls _ _ (sym v.sized) v.agree (λ i l. all i (omega (arith, v.sized)))
      ∙ expected-answers render 0 calls cs w)
