-- ===== src/Repair/Parts.antt =====
-- The parts of a message that `Process` keeps, harness/repair/repair.go.
use agentic.Prelude.{
  ℕ, ◌≡◌, refl, sym, ap, ◌∙◌, inl, inr, ◌⊎◌, String, List, [], ◌∷◌, ◌++◌, none, some, true, false,
  ok, >>=-eq-ok, Option-cases, is_empty, arith,
}
use agentic.Message.{Message, Part, ToolUse, ToolResult, is_tool}
use agentic.Message.Parts.{
  get_tool_uses, get_tool_results, tool_uses, tool_results, part_tool_use, part_tool_result,
}
use agentic.Transcript.{
  find_call, resolve_one, resolve_all, all_resolved, open_frontier, settle, take_results,
  inspect_message,
}
use agentic.Repair.{Kept, keep_result, keep_part, keep_parts}

-- A part is dropped, is kept and holds no result, or is kept with a result that resolves a call.
abbrev pub Fate : List ToolUse → List String → Part → Kept → Type 0
Fate calls resolved part one =
    ((one.parts ≡ []) × (one.resolved ≡ resolved))
    ⊎ ((one.parts ≡ part ∷ [])
        × (((part_tool_result part.content_type part ≡ none) × (one.resolved ≡ resolved))
            ⊎ ((result : ToolResult) × (part_tool_result part.content_type part ≡ some result)
                × (resolve_one calls resolved result ≡ ok one.resolved))))

keep_result-Fate :
    (calls : List ToolUse) (recent resolved : List String) (part : Part) (result : ToolResult)
    {one : Kept}
    → part_tool_result part.content_type part ≡ some result
    → keep_result calls recent resolved part result ≡ ok one
    → Fate calls resolved part one
unfolding keep_result resolve_one
keep_result-Fate calls recent resolved part result {one} holds h =
    elim (Option-cases (find_call result.tool_use_id calls)) [
      | inl e ↦
          let shape : one ≡ record { parts = []; resolved = resolved } = ground arith in
          inl (ap (λ k. k.parts) shape, ap (λ k. k.resolved) shape)
      | inr (call, e) ↦
          let shape : one ≡ record { parts = part ∷ []; resolved = result.tool_use_id ∷ resolved } =
            ground arith in
          inr (ap (λ k. k.parts) shape, inr (result, holds, ground arith))
    ]

keep_part-Fate :
    (calls : List ToolUse) (recent resolved : List String) (part : Part) {one : Kept}
    → keep_part calls recent resolved part ≡ ok one
    → Fate calls resolved part one
unfolding keep_part
keep_part-Fate calls recent resolved part {one} h =
    elim (Option-cases (part_tool_result part.content_type part)) [
      | inl e ↦
          let shape : one ≡ record { parts = part ∷ []; resolved = resolved } = ground arith in
          inr (ap (λ k. k.parts) shape, inl (e, ap (λ k. k.resolved) shape))
      | inr (result, e) ↦
          keep_result-Fate calls recent resolved part result e (sym (rw (e, keep_part) refl) ∙ h)
    ]

tool_uses-tail :
    (part : Part) (parts : List Part) → tool_uses (part ∷ parts) ≡ [] → tool_uses parts ≡ []
unfolding tool_uses
tool_uses-tail part parts h = elim (Option-cases (part_tool_use part.content_type part)) [
  | inl e ↦ ground arith
  | inr (use_, e) ↦ absurd (ground arith)
]

-- Nothing that is kept of a message without calls holds one.
tool_uses-kept :
    (part : Part) (parts more : List Part)
    → tool_uses (part ∷ parts) ≡ []
    → tool_uses more ≡ []
    → tool_uses (part ∷ more) ≡ []
unfolding tool_uses
tool_uses-kept part parts more h g = elim (Option-cases (part_tool_use part.content_type part)) [
  | inl e ↦ rw e g
  | inr (use_, e) ↦ absurd (ground arith)
]

-- The kept results resolve to the kept IDs, and no call is kept.
abbrev pub Keeps : List ToolUse → List String → Kept → Type 0
Keeps calls resolved kept =
    (resolve_all calls resolved (tool_results kept.parts) ≡ ok kept.resolved)
    × (tool_uses kept.parts ≡ [])

Fate-Keeps :
    (calls : List ToolUse) (resolved : List String) (part : Part) (parts : List Part)
    (one rest : Kept)
    → Fate calls resolved part one
    → tool_uses (part ∷ parts) ≡ []
    → Keeps calls one.resolved rest
    → Keeps calls resolved (record { parts = one.parts ++ rest.parts; resolved = rest.resolved })
unfolding tool_results resolve_all
Fate-Keeps calls resolved part parts one rest (inl (dropped, same)) bare (resolves, free) =
    rw dropped (rw (sym same) resolves, free)
Fate-Keeps calls resolved part parts one rest (inr (held, inl (e, same))) bare (resolves, free) =
    rw held (rw (e, sym same) resolves, tool_uses-kept part parts rest.parts bare free)
Fate-Keeps calls resolved part parts one rest (inr (held, inr (r, e, f))) bare (resolves, free) =
    rw held (rw (e, f) resolves, tool_uses-kept part parts rest.parts bare free)

pub keep_parts-Keeps :
    (calls : List ToolUse) (recent resolved : List String) (parts : List Part) {kept : Kept}
    → keep_parts calls recent resolved parts ≡ ok kept
    → tool_uses parts ≡ []
    → Keeps calls resolved kept
unfolding keep_parts tool_results resolve_all tool_uses
keep_parts-Keeps calls recent resolved [] {kept} h bare =
    let shape : kept ≡ record { parts = []; resolved = resolved } = ground arith in
    rw shape (refl, refl)
keep_parts-Keeps calls recent resolved (part ∷ parts) {kept} h bare =
    let (one, e, later) = >>=-eq-ok (keep_part calls recent resolved part) _ h in
    let (rest, f, joined) = >>=-eq-ok (keep_parts calls recent one.resolved parts) _ later in
    let shape : kept ≡ record { parts = one.parts ++ rest.parts; resolved = rest.resolved } =
      ground arith in
    rw shape (
      Fate-Keeps calls resolved part parts one rest (keep_part-Fate calls recent resolved part e)
        bare (keep_parts-Keeps calls recent one.resolved parts f (tool_uses-tail part parts bare)))

-- Without an open frontier no result is kept.
pub resolve_all_of_closed :
    (resolved : List String) (results : List ToolResult) {more : List String}
    → resolve_all [] resolved results ≡ ok more
    → results ≡ []
unfolding resolve_all resolve_one find_call
resolve_all_of_closed resolved [] h = refl
resolve_all_of_closed resolved (r ∷ results) h = absurd (ground arith)

-- The check's step on a kept message.
pub inspect_message-kept :
    (i : ℕ) (calls : List ToolUse) (resolved more : List String) (m : Message)
    (results : List ToolResult)
    → get_tool_results m ≡ results
    → is_tool m.role ≡ true
    → get_tool_uses m ≡ []
    → is_empty calls ≡ false
    → all_resolved resolved calls ≡ false
    → resolve_all calls resolved results ≡ ok more
    → inspect_message i (record { frontier = calls; resolved = resolved }) m
      ≡ ok (settle calls more)
unfolding inspect_message open_frontier take_results settle resolve_all
inspect_message-kept i calls resolved more m [] read role bare some_calls some_open h =
    let same : resolved ≡ more = ground arith in
    rw (bare, read, open_frontier, take_results, role, some_calls, sym same, settle, some_open) refl
inspect_message-kept i calls resolved more m (r ∷ results) read role bare some_calls some_open h =
    rw (bare, read, open_frontier, take_results, role, some_calls, h) refl
