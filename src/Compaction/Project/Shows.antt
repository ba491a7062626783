-- ===== src/Compaction/Project/Shows.antt =====
-- What `Project` of harness/contextpolicy/contextpolicy.go shows a provider, against transcript.go.
use agentic.Prelude.{
  String, map, eq_iff, ℕ, ◌<◌, ◌≤◌, ◌⊎◌, ◌≡◌, refl, sym, ap, ◌∙◌, inl, inr, subst, List, [], ◌∷◌,
  ◌++◌, Option, none, some, true, false, Result, ok, err, ◌>>=◌, >>=-eq-ok, Bool-cases,
  Option-cases, All, is_some, length, take, drop, take-append-drop, ltb, nat_eq, arith,
}
use agentic.Message.{Message}
use agentic.Transcript.Outlines.{outline, Shut-alike}
use agentic.Transcript.Admits.{Shut, IsPlain, Shut-plain}
use agentic.Compaction.{
  CompactionError, Compaction, validate_context_tail, compaction_cut, apply, recipe, segment,
}
use agentic.Compaction.Applies.{apply-compaction_cut, validate_context_tail-IsPlain}
use agentic.Compaction.Project.{
  ProjectError, Transform, Policy, Projection, or_refused, estimate, trigger, target,
  check_partitions, run_transforms, current_view, fit, within_target, compact_above, use_summary,
  compact, shrink, project_from, project, same_json, messages_equal,
}

validate_context_tail-All : (ms : List Message) → validate_context_tail ms ≡ none → All IsPlain ms
unfolding validate_context_tail
validate_context_tail-All [] h = tt
validate_context_tail-All (m ∷ ms) h = (
  (validate_context_tail-IsPlain m (ground arith)).1,
  validate_context_tail-All ms (ground arith),
)

-- The policy does not compact, or its view is within one of the two limits.
abbrev pub Fits : {T : Type 0} → Policy T → Projection → Type 0
Fits p shown =
    (is_some p.compactor ≡ false)
    ⊎ (nat_eq p.context_window_tokens 0 ≡ true)
    ⊎ ((n : ℕ) × (estimate p shown.messages ≡ ok n) × ((n < trigger p) ⊎ (n ≤ target p)))

or_refused-ok : {A : Type 0} (r : Result CompactionError A) (a : A) → or_refused r ≡ ok a → r ≡ ok a
or_refused-ok (ok b) a h = ground arith
or_refused-ok (err e) a h = absurd (ground arith)

-- Messages with one encoding have the same roles, the same calls but for their inputs, and the same
-- results.
abbrev pub MarshalTells : {T : Type 0} → Policy T → Type 0
MarshalTells p =
    (one two : List Message) (s : String)
    → p.marshal one ≡ some s
    → p.marshal two ≡ some s
    → map outline one ≡ map outline two

same_json-some :
    {T : Type 0} (p : Policy T) (left right : Option String)
    → same_json p left right ≡ true
    → (s : String) × (left ≡ some s) × (right ≡ some s)
same_json-some p none right e = cc
same_json-some p (some a) none e = cc
same_json-some p (some a) (some b) e =
    let same : a ≡ b = (eq_iff a b).0 e in (a, refl, ap some (sym same))

messages_equal-outline :
    {T : Type 0} (p : Policy T) (one two : List Message)
    → MarshalTells p
    → messages_equal p one two ≡ true
    → map outline one ≡ map outline two
unfolding messages_equal
messages_equal-outline p [] [] tells e = refl
messages_equal-outline p [] (n ∷ ns) tells e = absurd (ground arith)
messages_equal-outline p (m ∷ ms) two tells e =
    let (s, left, right) = same_json-some p (p.marshal (m ∷ ms)) (p.marshal two) (ground arith) in
    tells (m ∷ ms) two s left right

module _ {T : Type 0} (p : Policy T) where
  -- A summarised view that is within the target.
  fit-Shown :
      (current : Option Compaction) (next : Compaction) (additions compacted : List Message)
      (shown : Projection)
      → Shut compacted
      → fit p current next additions compacted ≡ ok shown
      → Shut shown.messages × Fits p shown
  unfolding fit
  fit-Shown current next additions compacted shown shut e =
      let (n, counted, rest) =
        >>=-eq-ok (estimate p compacted) (within_target p current next additions compacted) e in
      let same : shown.messages ≡ compacted = ground arith in
      (subst Shut (sym same) shut, inr (inr (n, rw same counted, inr (ground arith))))

  use_summary-fit :
      (current : Option Compaction) (additions durable ephemeral out : List Message) (cut : ℕ × ℕ)
      (summary : Message)
      → validate_context_tail (summary ∷ []) ≡ none
      → apply p.prefix_hash (durable ++ ephemeral) (recipe p.prefix_hash durable cut summary)
        ≡ ok out
      → use_summary p current additions durable ephemeral cut summary
        ≡ fit p current (recipe p.prefix_hash durable cut summary) additions out
  unfolding use_summary
  use_summary-fit current additions durable ephemeral out cut summary valid applied =
      rw (valid, use_summary, applied) refl

  compact-Shown :
      (summarize : List Message → Result ProjectError Message) (current : Option Compaction)
      (additions durable ephemeral : List Message) (found : Option (ℕ × ℕ)) (shown : Projection)
      → Shut (durable ++ ephemeral)
      → compaction_cut durable p.recent_messages ≡ ok found
      → compact p summarize current additions durable ephemeral found ≡ ok shown
      → Shut shown.messages × Fits p shown
  unfolding compact use_summary
  compact-Shown summarize current additions durable ephemeral none shown shut g e =
      absurd (ground arith)
  compact-Shown summarize current additions durable ephemeral (some (first, cut)) shown shut g e =
      let (summary, made, e1) =
        >>=-eq-ok (summarize (segment first cut durable))
          (use_summary p current additions durable ephemeral (first, cut)) e in
      elim (Option-cases (validate_context_tail (summary ∷ []))) [
        | inl valid ↦
            let next = recipe p.prefix_hash durable (first, cut) summary in
            let (above, within, middle, out, applied, scan) =
              apply-compaction_cut p.prefix_hash durable ephemeral p.recent_messages first cut
                summary shut g valid in
            fit-Shown current next additions out shown scan (
              sym (
                use_summary-fit current additions durable ephemeral out (first, cut) summary valid
                  applied)
              ∙ e1)
        | inr (f, invalid) ↦ absurd (ground arith)
      ]

  shrink-Shown :
      (compactor : Option (List Message → Result ProjectError Message))
      (current : Option Compaction) (additions durable ephemeral : List Message)
      (shown : Projection)
      → p.compactor ≡ compactor
      → Shut (durable ++ ephemeral)
      → shrink p compactor current additions durable ephemeral (durable ++ ephemeral) ≡ ok shown
      → Shut shown.messages × Fits p shown
  unfolding shrink
  shrink-Shown none current additions durable ephemeral shown c shut e =
      let same : shown.messages ≡ durable ++ ephemeral = ground arith in
      (subst Shut (sym same) shut, inl (rw c refl))
  shrink-Shown (some summarize) current additions durable ephemeral shown c shut e =
      elim (Bool-cases (nat_eq p.context_window_tokens 0)) [
        | inl unbounded ↦
            let same : shown.messages ≡ durable ++ ephemeral = ground arith in
            (subst Shut (sym same) shut, inr (inl unbounded))
        | inr bounded ↦
            let (n, counted, rest) =
              >>=-eq-ok (estimate p (durable ++ ephemeral))
                (compact_above p summarize current additions durable ephemeral
                  (durable ++ ephemeral))
                {last = shown} (ground arith) in
            elim (Bool-cases (ltb n (trigger p))) [
              | inl small ↦
                  let same : shown.messages ≡ durable ++ ephemeral = ground arith in
                  (subst Shut (sym same) shut, inr (inr (n, rw same counted, inl (ground arith))))
              | inr large ↦
                  let (found, one, two) =
                    >>=-eq-ok (or_refused (compaction_cut durable p.recent_messages))
                      (compact p summarize current additions durable ephemeral) {last = shown}
                      (ground arith) in
                  compact-Shown summarize current additions durable ephemeral found shown shut
                    (or_refused-ok _ found one) two
            ]
      ]

  check_partitions-Shut :
      (before : List Message) (after : Option (List Message) × Option (List Message))
      (durable ephemeral : List Message)
      → MarshalTells p
      → Shut before
      → check_partitions p before after ≡ ok (durable, ephemeral)
      → Shut durable × All IsPlain ephemeral
  unfolding check_partitions
  check_partitions-Shut before (none, e) durable ephemeral tells shut h = absurd (ground arith)
  check_partitions-Shut before (some d, none) durable ephemeral tells shut h = absurd (ground arith)
  check_partitions-Shut before (some d, some e) durable ephemeral tells shut h =
      let equal : messages_equal p (take (length before) d) before ≡ true = ground arith in
      let added : validate_context_tail (drop (length before) d) ≡ none = ground arith in
      let tail : validate_context_tail e ≡ none = ground arith in
      let same : Path (List Message × List Message) (d, e) (durable, ephemeral) = ground arith in
      let kept : map outline (take (length before) d) ≡ map outline before =
        messages_equal-outline p (take (length before) d) before tells equal in
      let grown : Shut d = subst Shut (take-append-drop (length before) d) (
        Shut-plain (take (length before) d) (drop (length before) d)
          (Shut-alike before (take (length before) d) (sym kept) shut)
          (validate_context_tail-All (drop (length before) d) added)) in
      subst (λ both. Shut both.0 × All IsPlain both.1) same
        (grown, validate_context_tail-All e tail)

  run_transforms-Shut :
      (transforms : List Transform) (before tail durable ephemeral : List Message)
      → MarshalTells p
      → Shut before
      → All IsPlain tail
      → run_transforms p transforms (before, tail) ≡ ok (durable, ephemeral)
      → Shut durable × All IsPlain ephemeral
  unfolding run_transforms
  run_transforms-Shut [] before tail durable ephemeral tells shut plain h =
      let same : Path (List Message × List Message) (before, tail) (durable, ephemeral) =
        ground arith in
      subst (λ both. Shut both.0 × All IsPlain both.1) same (shut, plain)
  run_transforms-Shut (transform ∷ transforms) before tail durable ephemeral tells shut plain h =
      let (after, done, rest) =
        >>=-eq-ok (transform (before, tail))
          (λ after. check_partitions p before after >>= run_transforms p transforms) h in
      let (next, checked, others) =
        >>=-eq-ok (check_partitions p before after) (run_transforms p transforms) rest in
      let (d, e) = next in
      let (one, two) = check_partitions-Shut before after d e tells shut checked in
      run_transforms-Shut transforms d e durable ephemeral tells one two others

  -- If messages with one JSON encoding have the same roles, the same calls but for their inputs and
  -- the same results, and a closed transcript is projected with no recipe persisted, a projection
  -- that `project` returns is closed, whatever the transforms, the compactor and the counter
  -- return; and the policy has no compactor or no window, or the estimate of the projection is
  -- below the trigger or within the target.
  pub project-Shut :
      (messages : List Message) (shown : Projection)
      → MarshalTells p
      → Shut messages
      → project p messages none ≡ ok shown
      → Shut shown.messages × Fits p shown
  unfolding project current_view
  project-Shut messages shown tells shut h = elim (Option-cases p.context_error) [
    | inr (f, canceled) ↦ absurd (ground arith)
    | inl alive ↦
        let (both, ran, rest) =
          >>=-eq-ok (run_transforms p p.transforms (messages, [])) (project_from p messages none)
            {last = shown} (sym (rw alive refl) ∙ h) in
        let (durable, ephemeral) = both in
        let (closed, plain) =
          run_transforms-Shut p.transforms messages [] durable ephemeral tells shut tt ran in
        shrink-Shown p.compactor none (drop (length messages) durable) durable ephemeral shown refl
          (Shut-plain durable ephemeral closed plain) rest
  ]
