-- ===== src/Compaction/Tracks.antt =====
-- The calls that `compactionCut` of harness/contextpolicy/contextpolicy.go tracks are those that
-- the scan of transcript.go has open.
use agentic.Prelude.{
  ℕ, ◌≡◌, refl, sym, ap, ◌∙◌, inl, inr, subst, String, List, [], ◌∷◌, true, not, ◌&&◌, ◌||◌, ◌==◌,
  eq_iff, eq_refl, ok, >>=-eq-ok, Bool-cases, Option-cases, Result-cases, contains, is_empty, arith,
}
use agentic.Message.{Message, MessageRole, ToolUse, ToolResult}
use agentic.Message.Parts.{get_tool_uses, get_tool_results}
use agentic.Transcript.{
  Scan, start, check_ids, resolve_one, resolve_all, all_resolved, open_frontier, settle,
  take_results, inspect_message,
}
use agentic.Transcript.Scans.{ids, IsScan, resolve_one-known}
use agentic.Transcript.Balance.{Known-of_nil}
use agentic.Compaction.{open_uses, track_uses, remove_id, track_results}

-- An ID is tracked just when its call is in the frontier and has no result.
abbrev pub Tracks : List String → Scan → Type 0
Tracks waiting s =
    (k : String) → contains k waiting ≡ (contains k (ids s.frontier) && not (contains k s.resolved))

open_uses-contains :
    (waiting : List String) (calls : List ToolUse) (k : String) {opened : List String}
    → open_uses waiting calls ≡ ok opened
    → contains k opened ≡ (contains k (ids calls) || contains k waiting)
unfolding open_uses contains
open_uses-contains waiting [] k {opened} h =
    let same : waiting ≡ opened = ground arith in ap (contains k) (sym same)
open_uses-contains waiting (call ∷ calls) k {opened} h =
    ground (arith, open_uses-contains (call.id ∷ waiting) calls k {opened = opened})

contains-remove_id :
    (id k : String) (waiting : List String)
    → contains k (remove_id id waiting) ≡ (contains k waiting && not (id == k))
unfolding contains remove_id
contains-remove_id id k [] = refl
contains-remove_id id k (other ∷ waiting) =
    ground (arith, contains-remove_id id k waiting, eq_iff other id, eq_iff other k, eq_iff id k)

nil_of_empty : (o : List String) → is_empty o ≡ true → o ≡ []
nil_of_empty [] h = refl
nil_of_empty (x ∷ o) h = cc

opened-Tracks :
    (waiting : List String) (calls : List ToolUse) {opened : List String}
    → waiting ≡ []
    → open_uses waiting calls ≡ ok opened
    → Tracks opened (record { frontier = calls; resolved = [] })
unfolding contains
opened-Tracks waiting calls bare entered k =
    open_uses-contains waiting calls k entered ∙ rw bare (ground arith)

-- One message's calls.
track_uses-Tracks :
    (i : ℕ) (role : MessageRole) (calls : List ToolUse) (waiting : List String) (s : Scan)
    {opened : List String} {t : Scan}
    → track_uses waiting calls ≡ ok opened
    → open_frontier i role calls s ≡ ok t
    → Tracks waiting s
    → Tracks opened t
unfolding track_uses open_frontier
track_uses-Tracks i role [] waiting s {opened} {t} h g v =
    let same : waiting ≡ opened = ground arith in
    let scan : s ≡ t = ground arith in subst (λ o. Tracks o t) same (subst (Tracks waiting) scan v)
track_uses-Tracks i role (call ∷ calls) waiting s {opened} {t} h g v =
    elim (Option-cases (check_ids i [] (call ∷ calls))) [
      | inr (f, e) ↦ absurd (ground arith)
      | inl e ↦
          let shape : t ≡ record { frontier = call ∷ calls; resolved = [] } = ground arith in
          let bare : waiting ≡ [] = nil_of_empty waiting (ground arith) in
          let entered : open_uses waiting (call ∷ calls) ≡ ok opened = ground arith in
          subst (Tracks opened) (sym shape) (opened-Tracks waiting (call ∷ calls) bare entered)
    ]

track_results-Tracks :
    (frontier : List ToolUse) (results : List ToolResult) (waiting resolved : List String)
    {left more : List String}
    → track_results waiting results ≡ ok left
    → resolve_all frontier resolved results ≡ ok more
    → Tracks waiting (record { frontier = frontier; resolved = resolved })
    → Tracks left (record { frontier = frontier; resolved = more })
unfolding track_results resolve_all contains
track_results-Tracks frontier [] waiting resolved {left} {more} h g v =
    let same : waiting ≡ left = ground arith in
    let known : resolved ≡ more = ground arith in
    subst (λ o. Tracks o (record { frontier = frontier; resolved = more })) same
      (subst (λ x. Tracks waiting (record { frontier = frontier; resolved = x })) known v)
track_results-Tracks frontier (r ∷ results) waiting resolved {left} {more} h g v =
    let (next, e, rest) =
      >>=-eq-ok (resolve_one frontier resolved r) (λ x. resolve_all frontier x results) g in
    let (shape, _, _) = resolve_one-known frontier resolved r e in
    track_results-Tracks frontier results (remove_id r.tool_use_id waiting) next (ground arith) rest
      (λ k.
        subst
          (λ x.
            contains k (remove_id r.tool_use_id waiting)
            ≡ (contains k (ids frontier) && not (contains k x)))
          (sym shape) (ground (arith, contains-remove_id r.tool_use_id k waiting, v k)))

all_resolved-contains :
    (resolved : List String) (calls : List ToolUse) (k : String)
    → all_resolved resolved calls ≡ true
    → contains k (ids calls) ≡ true
    → contains k resolved ≡ true
unfolding all_resolved contains
all_resolved-contains resolved [] k h m = cc
all_resolved-contains resolved (call ∷ calls) k h m = elim (Bool-cases (call.id == k)) [
  | inl e ↦
      let same : call.id ≡ k = (eq_iff call.id k).0 e in
      ap (λ x. contains x resolved) (sym same) ∙ ground arith
  | inr e ↦ all_resolved-contains resolved calls k (ground arith) (ground arith)
]

settle-Tracks :
    (frontier : List ToolUse) (resolved waiting : List String)
    → Tracks waiting (record { frontier = frontier; resolved = resolved })
    → Tracks waiting (settle frontier resolved)
unfolding settle contains
settle-Tracks frontier resolved waiting v = elim (Bool-cases (all_resolved resolved frontier)) [
  | inr left ↦
      let same : settle frontier resolved ≡ record { frontier = frontier; resolved = resolved } =
        rw (settle, left) refl in
      subst (Tracks waiting) (sym same) v
  | inl all ↦
      let same : settle frontier resolved ≡ start = rw (settle, all) refl in
      subst (Tracks waiting) (sym same)
        (λ k. v k ∙ ground (arith, all_resolved-contains resolved frontier k))
]

take_results-Tracks :
    (i : ℕ) (role : MessageRole) (uses : List ToolUse) (results : List ToolResult)
    (waiting : List String) (s : Scan) {left : List String} {t : Scan}
    → track_results waiting results ≡ ok left
    → take_results i role uses results s ≡ ok t
    → Tracks waiting s
    → Tracks left t
unfolding track_results take_results
take_results-Tracks i role uses [] waiting s {left} {t} h g v =
    let same : waiting ≡ left = ground arith in
    let scan : s ≡ t = ground arith in subst (λ o. Tracks o t) same (subst (Tracks waiting) scan v)
take_results-Tracks i role uses (r ∷ results) waiting s {left} {t} h g v =
    elim (Result-cases (resolve_all s.frontier s.resolved (r ∷ results))) [
      | inr (f, e) ↦ absurd (ground arith)
      | inl (more, e) ↦
          let shape : settle s.frontier more ≡ t = ground arith in
          subst (Tracks left) shape (
            settle-Tracks s.frontier more left
              (track_results-Tracks s.frontier (r ∷ results) waiting s.resolved h e v))
    ]

-- A message that both accept.
pub inspect_message-Tracks :
    (i : ℕ) (m : Message) (waiting opened left : List String) (s : Scan) {t : Scan}
    → track_uses waiting (get_tool_uses m) ≡ ok opened
    → track_results opened (get_tool_results m) ≡ ok left
    → inspect_message i s m ≡ ok t
    → Tracks waiting s
    → Tracks left t
unfolding inspect_message
inspect_message-Tracks i m waiting opened left s h g e v =
    let (u, one, two) =
      >>=-eq-ok (open_frontier i m.role (get_tool_uses m) s)
        (take_results i m.role (get_tool_uses m) (get_tool_results m)) e in
    take_results-Tracks i m.role (get_tool_uses m) (get_tool_results m) opened u g two
      (track_uses-Tracks i m.role (get_tool_uses m) waiting s h one v)

all_resolved_of_contains :
    (resolved : List String) (calls : List ToolUse)
    → ((k : String) → contains k (ids calls) ≡ true → contains k resolved ≡ true)
    → all_resolved resolved calls ≡ true
unfolding all_resolved contains
all_resolved_of_contains resolved [] h = refl
all_resolved_of_contains resolved (call ∷ calls) h =
    let first = h call.id (rw (eq_refl call.id) refl) in
    let rest = all_resolved_of_contains resolved calls (λ k m. h k (ground arith)) in
    rw (first, rest) refl

Tracks-all_resolved :
    (frontier : List ToolUse) (resolved : List String)
    → Tracks [] (record { frontier = frontier; resolved = resolved })
    → all_resolved resolved frontier ≡ true
unfolding contains
Tracks-all_resolved frontier resolved v =
    all_resolved_of_contains resolved frontier (λ k m. ground (arith, v k))

-- With nothing tracked, the scan stands at the start.
pub Tracks-start :
    (frontier : List ToolUse) (resolved : List String)
    → Tracks [] (record { frontier = frontier; resolved = resolved })
    → IsScan (record { frontier = frontier; resolved = resolved })
    → Path Scan (record { frontier = frontier; resolved = resolved }) start
Tracks-start [] resolved v w = cc (Known-of_nil [] resolved refl (w.known))
Tracks-start (call ∷ calls) resolved v w =
    absurd (ground (arith, w.pending refl, Tracks-all_resolved (call ∷ calls) resolved v))
