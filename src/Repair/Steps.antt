-- ===== src/Repair/Steps.antt =====
-- One message of `Process` of harness/repair/repair.go beside one of `inspectTranscript`.
use agentic.Prelude.{
  ℕ, ◌≡◌, refl, sym, ap, ◌∙◌, inl, inr, subst, String, List, [], ◌∷◌, ◌++◌, Option, none, some,
  true, false, ok, ◌>>=◌, >>=-eq-ok, Bool-cases, Option-cases, Result-cases, is_empty, arith,
}
use agentic.Message.{Message, Part, ToolUse, ToolResult, is_tool, is_assistant}
use agentic.Message.Parts.{get_tool_uses, get_tool_results, tool_results, part_tool_result}
use agentic.Transcript.{
  Scan, start, check_ids, find_call, resolve_one, resolve_all, all_resolved, open_frontier, settle,
  take_results, inspect_message,
}
use agentic.Repair.{
  FrontierMode, PendingCalls, Frontier, Projection, make_room, opened_behind, open_behind,
  start_frontier, Kept, keep_result, keep_part, keep_parts, show_kept, after_results,
  answer_frontier, pass_message, process_as,
}

-- A tool message holds a result.
abbrev pub HoldsResult : Message → Type 0
HoldsResult m = is_tool m.role ≡ true → is_empty (get_tool_results m) ≡ false

abbrev pub scan_of : Option Frontier → Scan
scan_of none = start
scan_of (some f) = record { frontier = f.calls; resolved = f.resolved }

abbrev pub HasCalls : Option Frontier → Type 0
HasCalls none = Unit {0}
HasCalls (some f) = is_empty f.calls ≡ false

-- The projection has shown the messages as they are and stands where the scan does.
pub record Follows (s : Scan) (shown : List Message) (work : Projection) : Type 0 where
  pub same_scan : s ≡ scan_of work.open_frontier
  pub calls_open : HasCalls work.open_frontier
  pub same_output : work.output ≡ shown

keep_result-resolved :
    (calls : List ToolUse) (recent resolved more : List String) (part : Part) (r : ToolResult)
    → resolve_one calls resolved r ≡ ok more
    → keep_result calls recent resolved part r ≡ ok (record { parts = part ∷ []; resolved = more })
unfolding keep_result resolve_one
keep_result-resolved calls recent resolved more part r h =
    elim (Option-cases (find_call r.tool_use_id calls)) [
      | inl e ↦ absurd (ground arith)
      | inr (call, e) ↦ ground arith
    ]

keep_parts-resolved :
    (calls : List ToolUse) (recent resolved : List String) (parts : List Part) {more : List String}
    → resolve_all calls resolved (tool_results parts) ≡ ok more
    → keep_parts calls recent resolved parts ≡ ok (record { parts = parts; resolved = more })
unfolding keep_parts keep_part tool_results resolve_all
keep_parts-resolved calls recent resolved [] {more} h =
    let same : resolved ≡ more = ground arith in rw same refl
keep_parts-resolved calls recent resolved (part ∷ parts) {more} h =
    elim (Option-cases (part_tool_result part.content_type part)) [
      | inl e ↦
          let rest = sym (rw (e, tool_results) refl) ∙ h in
          rw (keep_parts, keep_part, e, keep_parts-resolved calls recent resolved parts rest) refl
      | inr (r, e) ↦
          let both : resolve_all calls resolved (r ∷ tool_results parts) ≡ ok more =
            sym (rw (e, tool_results) refl) ∙ h in
          let (next, one, rest) =
            >>=-eq-ok (resolve_one calls resolved r)
              (λ found. resolve_all calls found (tool_results parts)) both in
          rw
            (
              keep_parts,
              keep_part,
              e,
              keep_result-resolved calls recent resolved next part r one,
              keep_parts-resolved calls recent next parts rest,
            )
            refl
    ]

-- What the scan accepts of a message, by its calls and results.
module _ (i : ℕ) (m : Message) {t : Scan} where
  opened_scan :
      (s : Scan) (call : ToolUse) (calls : List ToolUse) (results : List ToolResult)
      → (open_frontier i m.role (call ∷ calls) s >>= take_results i m.role (call ∷ calls) results)
        ≡ ok t
      → (is_assistant m.role ≡ true)
        × (is_empty s.frontier ≡ true)
        × (check_ids i [] (call ∷ calls) ≡ none)
        × (results ≡ [])
        × (t ≡ record { frontier = call ∷ calls; resolved = [] })
  unfolding open_frontier take_results
  opened_scan s call calls [] h = elim (Option-cases (check_ids i [] (call ∷ calls))) [
    | inl e ↦ (ground arith, ground arith, e, refl, ground arith)
    | inr (f, e) ↦ absurd (ground arith)
  ]
  opened_scan s call calls (r ∷ results) h = elim (Option-cases (check_ids i [] (call ∷ calls))) [
    | inl e ↦ absurd (ground arith)
    | inr (f, e) ↦ absurd (ground arith)
  ]

  answered_scan :
      (s : Scan) (r : ToolResult) (results : List ToolResult)
      → take_results i m.role [] (r ∷ results) s ≡ ok t
      → (is_tool m.role ≡ true)
        × (is_empty s.frontier ≡ false)
        × ((more : List String) × (resolve_all s.frontier s.resolved (r ∷ results) ≡ ok more)
            × (t ≡ settle s.frontier more))
  unfolding take_results
  answered_scan s r results h =
      elim (Result-cases (resolve_all s.frontier s.resolved (r ∷ results))) [
        | inl (more, e) ↦ (ground arith, ground arith, (more, e, ground arith))
        | inr (f, e) ↦ absurd (ground arith)
      ]

  passed_scan :
      (s : Scan)
      → take_results i m.role [] [] s ≡ ok t
      → (s ≡ t) × (is_empty s.frontier ≡ false → is_tool m.role ≡ true)
  unfolding take_results
  passed_scan s h = (ground arith, λ left. ground arith)

closed_of : (o : Option Frontier) → is_empty (scan_of o).frontier ≡ true → HasCalls o → o ≡ none
closed_of none e c = refl
closed_of (some f) e c = cc

open_of :
    (o : Option Frontier) → is_empty (scan_of o).frontier ≡ false → (f : Frontier) × (o ≡ some f)
open_of none e = cc
open_of (some f) e = (f, refl)

-- One message: the scan and the projection step together.
module _ (i : ℕ) (mode : FrontierMode) (pending : PendingCalls) (m : Message) where
  abbrev Steps : List ToolUse → List ToolResult → Scan → List Message → Projection → Type 0
  Steps uses results t shown work =
      (next : Projection) × (process_as uses results i mode pending m work ≡ ok next)
      × Follows t (shown ++ m ∷ []) next

  opened-Steps :
      (s t : Scan) (shown : List Message) (work : Projection) (call : ToolUse)
      (calls : List ToolUse) (results : List ToolResult)
      → get_tool_uses m ≡ call ∷ calls
      → get_tool_results m ≡ results
      → inspect_message i s m ≡ ok t
      → Follows s shown work
      → Steps (call ∷ calls) results t shown work
  unfolding process_as start_frontier make_room open_behind inspect_message
  opened-Steps s t shown work call calls results u r h v =
      let (role, clear, fresh, bare, shape) =
        opened_scan i m s call calls results (sym (rw (u, r) refl) ∙ h) in
      let shut =
        closed_of work.open_frontier (sym (ap (λ x. is_empty x.frontier) (v.same_scan)) ∙ clear)
          v.calls_open in
      let unread : check_ids i [] (get_tool_uses m) ≡ none = rw u fresh in
      (
        opened_behind m work,
        rw (start_frontier, role, r, bare, make_room, shut, open_behind, unread) refl,
        record {
          same_scan = rw (shape, u) refl;
          calls_open = rw u refl;
          same_output = ap (λ out. out ++ m ∷ []) (v.same_output);
        },
      )

  passed-Steps :
      (s t : Scan) (shown : List Message) (work : Projection)
      → get_tool_uses m ≡ []
      → get_tool_results m ≡ []
      → HoldsResult m
      → inspect_message i s m ≡ ok t
      → Follows s shown work
      → Steps [] [] t shown work
  unfolding process_as pass_message make_room inspect_message open_frontier
  passed-Steps s t shown work u r holds h v =
      let (same, in_tool) = passed_scan i m s (sym (rw (u, r, open_frontier) refl) ∙ h) in
      let clear : is_empty s.frontier ≡ true = elim (Bool-cases (is_empty s.frontier)) [
        | inl clear ↦ clear
        | inr left ↦ absurd (ground (arith, holds (in_tool left)))
      ] in
      let shut =
        closed_of work.open_frontier (sym (ap (λ x. is_empty x.frontier) (v.same_scan)) ∙ clear)
          v.calls_open in
      (
        record { output = work.output ++ m ∷ []; open_frontier = none; recently_resolved = [] },
        rw (pass_message, make_room, shut) refl,
        record {
          same_scan = sym same ∙ (v.same_scan ∙ ap scan_of shut);
          calls_open = tt;
          same_output = ap (λ out. out ++ m ∷ []) (v.same_output);
        },
      )

  after_results-Follows :
      (f : Frontier) (recent : List String) (shown : List Message) (kept : Kept)
      → is_empty f.calls ≡ false
      → Follows (settle f.calls kept.resolved) shown (after_results (some f) recent shown kept)
  unfolding after_results settle
  after_results-Follows f recent shown kept c =
      elim (Bool-cases (all_resolved kept.resolved f.calls)) [
        | inl all ↦
            rw (all, settle) (record { same_scan = refl; calls_open = tt; same_output = refl })
        | inr left ↦
            rw (left, settle) (record { same_scan = refl; calls_open = c; same_output = refl })
      ]

  show_kept_whole :
      (parts : List Part) {r : ToolResult} {results : List ToolResult}
      → tool_results parts ≡ r ∷ results
      → show_kept m parts ≡ record m { content = parts } ∷ []
  unfolding tool_results
  show_kept_whole [] h = cc
  show_kept_whole (part ∷ parts) h = refl

  answered-Steps :
      (s t : Scan) (shown : List Message) (work : Projection) (r : ToolResult)
      (results : List ToolResult)
      → get_tool_uses m ≡ []
      → get_tool_results m ≡ r ∷ results
      → inspect_message i s m ≡ ok t
      → Follows s shown work
      → Steps [] (r ∷ results) t shown work
  unfolding process_as answer_frontier inspect_message open_frontier
  answered-Steps s t shown work r results u e h v =
      let (role, left, (more, resolves, shape)) =
        answered_scan i m s r results (sym (rw (u, e, open_frontier) refl) ∙ h) in
      let (f, open_) =
        open_of work.open_frontier (sym (ap (λ x. is_empty x.frontier) (v.same_scan)) ∙ left) in
      let scan : s ≡ scan_of (some f) = v.same_scan ∙ ap scan_of open_ in
      let whole : Kept = record { parts = m.content; resolved = more } in
      let found : resolve_all f.calls f.resolved (get_tool_results m) ≡ ok more =
        rw e
          (subst (λ x. resolve_all x.frontier x.resolved (r ∷ results) ≡ ok more) scan resolves) in
      let settled : t ≡ settle f.calls more = shape ∙ ap (λ x. settle x.frontier more) scan in
      let some_calls : is_empty f.calls ≡ false = subst HasCalls open_ (v.calls_open) in
      let next = after_results (some f) work.recently_resolved (work.output ++ m ∷ []) whole in
      let follows =
        after_results-Follows f work.recently_resolved (work.output ++ m ∷ []) whole some_calls in
      (
        next,
        rw
            (
              answer_frontier,
              role,
              open_,
              keep_parts-resolved f.calls work.recently_resolved f.resolved m.content found,
              show_kept_whole m.content e,
            )
            refl,
        subst (λ out. Follows t (out ++ m ∷ []) next) (v.same_output)
            (subst (λ x. Follows x (work.output ++ m ∷ []) next) (sym settled) follows),
      )

pub process_as-Follows :
    (i : ℕ) (mode : FrontierMode) (pending : PendingCalls) (m : Message) (uses : List ToolUse)
    (results : List ToolResult) (s t : Scan) (shown : List Message) (work : Projection)
    → get_tool_uses m ≡ uses
    → get_tool_results m ≡ results
    → HoldsResult m
    → inspect_message i s m ≡ ok t
    → Follows s shown work
    → (next : Projection) × (process_as uses results i mode pending m work ≡ ok next)
      × Follows t (shown ++ m ∷ []) next
process_as-Follows i mode pending m (call ∷ calls) results s t shown work u r holds h v =
    opened-Steps i mode pending m s t shown work call calls results u r h v
process_as-Follows i mode pending m [] (r ∷ results) s t shown work u e holds h v =
    answered-Steps i mode pending m s t shown work r results u e h v
process_as-Follows i mode pending m [] [] s t shown work u r holds h v =
    passed-Steps i mode pending m s t shown work u r holds h v
