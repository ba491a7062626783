-- ===== src/Agent/Resume/Frontier.antt =====
-- The executable calls of a suspension's payload stand in the frontier: `sameToolCalls` and
-- `resolveSuspendedTools` of execution_loop.go.
use agentic.Prelude.{
  ◌≡◌, refl, sym, ap, ◌∙◌, subst, inl, inr, String, true, ◌==◌, eq_iff, none, some, List, [], ◌∷◌,
  ok, Option-cases, Result-cases, All, arith,
}
use agentic.Message.{ToolUse}
use agentic.Transcript.{find_call}
use agentic.Agent.Resume.{Resuming, same_tool_calls, executable_calls}

-- JSON keeps the ID and the name of a call.
abbrev pub MarshalKeeps : Resuming → Type 0
MarshalKeeps r =
    (one two : ToolUse) (encoded : String)
    → r.marshal one ≡ ok encoded
    → r.marshal two ≡ ok encoded
    → (one.id ≡ two.id) × (one.name ≡ two.name)

-- The call is one of the frontier but for its input.
abbrev pub Stands : List ToolUse → ToolUse → Type 0
Stands frontier call =
    (own : ToolUse) × (find_call own.id frontier ≡ some own)
    × (own.id ≡ call.id)
    × (own.name ≡ call.name)

find_call-id :
    (id : String) (calls : List ToolUse) {call : ToolUse}
    → find_call id calls ≡ some call
    → call.id ≡ id
unfolding find_call
find_call-id id [] h = cc
find_call-id id (first ∷ calls) {call} h = elim (Option-cases (find_call id calls)) [
  | inr (later, e) ↦
      let same : later ≡ call = ground arith in ap (λ c. c.id) (sym same) ∙ find_call-id id calls e
  | inl e ↦ ground (arith, eq_iff first.id id)
]

same_tool_calls-head :
    (r : Resuming) (one two : ToolUse) (left right : List ToolUse)
    → MarshalKeeps r
    → same_tool_calls r (one ∷ left) (two ∷ right) ≡ true
    → (one.id ≡ two.id) × (one.name ≡ two.name) × (same_tool_calls r left right ≡ true)
unfolding same_tool_calls
same_tool_calls-head r one two left right keeps h = elim (Result-cases (r.marshal one)) [
  | inr (f, e) ↦ absurd (ground arith)
  | inl (first, e) ↦ elim (Result-cases (r.marshal two)) [
    | inr (f, g) ↦ absurd (ground arith)
    | inl (second, g) ↦
        let text : first ≡ second = ground (arith, eq_iff first second) in
        let (same_id, same_name) = keeps one two second (e ∙ ap ok text) g in
        (same_id, same_name, ground arith)
  ]
]

same_tool_calls-absent :
    (r : Resuming) (id : String) (left right : List ToolUse)
    → MarshalKeeps r
    → same_tool_calls r left right ≡ true
    → find_call id right ≡ none
    → find_call id left ≡ none
unfolding same_tool_calls find_call
same_tool_calls-absent r id [] right keeps h n = refl
same_tool_calls-absent r id (one ∷ left) [] keeps h n = cc
same_tool_calls-absent r id (one ∷ left) (two ∷ right) keeps h n =
    let (same_id, _, rest) = same_tool_calls-head r one two left right keeps h in
    elim (Option-cases (find_call id right)) [
      | inr (later, e) ↦ absurd (ground arith)
      | inl e ↦ let none_left = same_tool_calls-absent r id left right keeps rest e in ground arith
    ]

same_tool_calls-find :
    (r : Resuming) (id : String) (left right : List ToolUse) {call : ToolUse}
    → MarshalKeeps r
    → same_tool_calls r left right ≡ true
    → find_call id right ≡ some call
    → (own : ToolUse) × (find_call id left ≡ some own) × (own.id ≡ call.id) × (own.name ≡ call.name)
unfolding same_tool_calls find_call
same_tool_calls-find r id left [] keeps h n = cc
same_tool_calls-find r id [] (two ∷ right) keeps h n = cc
same_tool_calls-find r id (one ∷ left) (two ∷ right) {call} keeps h n =
    let (same_id, same_name, rest) = same_tool_calls-head r one two left right keeps h in
    elim (Option-cases (find_call id right)) [
      | inr (later, e) ↦
          let same : later ≡ call = ground arith in
          let (own, found, i, m) = same_tool_calls-find r id left right keeps rest e in
          (own, rw found refl, i ∙ ap (λ c. c.id) same, m ∙ ap (λ c. c.name) same)
      | inl e ↦
          let none_left = same_tool_calls-absent r id left right keeps rest e in
          let same : two ≡ call = ground arith in
          let hit : (two.id == id) ≡ true = ground arith in
          (
            one,
            rw (none_left, same_id, hit) refl,
            same_id ∙ ap (λ c. c.id) same,
            same_name ∙ ap (λ c. c.name) same,
          )
    ]

module _ (r : Resuming) (frontier calls : List ToolUse) where
  find_call-Stands :
      (id : String) {call : ToolUse}
      → MarshalKeeps r
      → same_tool_calls r frontier calls ≡ true
      → find_call id calls ≡ some call
      → Stands frontier call
  find_call-Stands id keeps same h =
      let (own, found, i, m) = same_tool_calls-find r id frontier calls keeps same h in
      (own, ap (λ k. find_call k frontier) (find_call-id id frontier found) ∙ found, i, m)

  pub executable_calls-Stands :
      (outputs ids : List String) {executable : List ToolUse}
      → MarshalKeeps r
      → same_tool_calls r frontier calls ≡ true
      → executable_calls outputs calls ids ≡ ok executable
      → All (Stands frontier) executable
  unfolding executable_calls
  executable_calls-Stands outputs [] keeps same h =
      let bare : [] ≡ _ = ground arith in subst (All (Stands frontier)) bare tt
  executable_calls-Stands outputs (id ∷ ids) {executable} keeps same h =
      elim (Option-cases (find_call id calls)) [
        | inl e ↦ absurd (ground arith)
        | inr (call, e) ↦ elim (Result-cases (executable_calls outputs calls ids)) [
          | inr (f, g) ↦ absurd (ground arith)
          | inl (rest, g) ↦
              let shape : call ∷ rest ≡ executable = ground arith in
              subst (All (Stands frontier)) shape
                (find_call-Stands id keeps same e, executable_calls-Stands outputs ids keeps same g)
        ]
      ]
