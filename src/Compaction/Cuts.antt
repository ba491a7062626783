-- ===== src/Compaction/Cuts.antt =====
-- The cut that `compactionCut` of harness/contextpolicy/contextpolicy.go finds, against
-- transcript.go.
use agentic.Prelude.{
  ℕ, zero, suc, ◌+◌, ◌≤◌, ◌<◌, ◌≡◌, refl, sym, ap, ◌∙◌, inl, inr, subst, String, List, [], ◌∷◌,
  ◌++◌, append_assoc, Option, some, true, ◌&&◌, ok, ◌>>=◌, >>=-eq-ok, Bool-cases, length,
  length-append, take, take_of_length, ltb, leb, arith,
}
use agentic.Message.{Message}
use agentic.Message.Parts.{get_tool_uses, get_tool_results}
use agentic.Transcript.{Scan, start, inspect_message, inspect_loop}
use agentic.Transcript.Scans.{start-IsScan, inspect_loop-append, inspect_loop-IsScan}
use agentic.Transcript.Admits.{Shut}
use agentic.Compaction.{track_uses, track_results, better, cut_loop}
use agentic.Compaction.Tracks.{Tracks, inspect_message-Tracks, Tracks-start}

-- A boundary that may be cut at: what stands before it is closed.
abbrev pub Good : List Message → ℕ → Option ℕ → Type 0
Good all first best = (b : ℕ) → best ≡ some b → (Shut (take b all) × first < b × b ≤ length all)

better-Good :
    (all : List Message) (first limit boundary : ℕ) (left : List String) (best : Option ℕ)
    → (left ≡ [] → Shut (take boundary all))
    → boundary ≤ length all
    → Good all first best
    → Good all first (better boundary first limit left best)
better-Good all first limit boundary (x ∷ xs) best shut within good = λ b e. good b (ground arith)
better-Good all first limit boundary [] best shut within good =
    elim (Bool-cases (ltb first boundary && (leb boundary limit && true))) [
      | inl within_both ↦ λ b e.
          let same : boundary ≡ b = ground arith in
          subst (λ n. Shut (take n all) × first < n × n ≤ length all) same
            (shut refl, ground arith, within)
      | inr outside ↦ λ b e. good b (ground arith)
    ]

length_of_last :
    (before : List Message) (m : Message) → length (before ++ m ∷ []) ≡ suc (length before)
length_of_last before m = omega (arith, length-append before (m ∷ []))

before-Shut :
    (before : List Message) (s : Scan)
    → inspect_loop zero start before ≡ ok s
    → Tracks [] s
    → Shut before
before-Shut before s scan tracks =
    scan
    ∙ ap ok (
        Tracks-start s.frontier s.resolved tracks
          (inspect_loop-IsScan zero start before scan start-IsScan))

scan_of_last :
    (before : List Message) (m : Message) (index : ℕ) (s u : Scan)
    → length before ≡ index
    → inspect_loop zero start before ≡ ok s
    → inspect_message index s m ≡ ok u
    → inspect_loop zero start (before ++ m ∷ []) ≡ ok u
unfolding inspect_loop
scan_of_last before m index s u n scan shown =
    let place : index ≡ zero + length before = omega (arith, n) in
    let at_place = subst (λ i. inspect_message i s m ≡ ok u) place shown in
    inspect_loop-append zero start before (m ∷ []) ∙ rw (scan, at_place) refl

-- The loop keeps the best boundary good.
pub cut_loop-Good :
    (all before rest : List Message) (index first limit : ℕ) (waiting : List String)
    (best found : Option ℕ) (s : Scan) {t : Scan}
    → all ≡ before ++ rest
    → length before ≡ index
    → inspect_loop zero start before ≡ ok s
    → inspect_loop index s rest ≡ ok t
    → Tracks waiting s
    → Good all first best
    → cut_loop index first limit waiting best rest ≡ ok found
    → Good all first found
unfolding cut_loop inspect_loop
cut_loop-Good all before [] index first limit waiting best found s a n scan next tracks good e =
    λ b f. good b (ground arith)
cut_loop-Good all before (m ∷ rest) index first limit waiting best found s a n scan next tracks good
      e =
    let (opened, one, e1) =
      >>=-eq-ok (track_uses waiting (get_tool_uses m))
        (λ opened. track_results opened (get_tool_results m) >>= λ left.
          cut_loop (suc index) first limit left (better (suc index) first limit left best) rest)
        e in
    let (left, two, e2) =
      >>=-eq-ok (track_results opened (get_tool_results m))
        (λ left.
          cut_loop (suc index) first limit left (better (suc index) first limit left best) rest)
        e1 in
    let (u, shown, others) =
      >>=-eq-ok (inspect_message index s m) (λ x. inspect_loop (suc index) x rest) next in
    let kept : Tracks left u =
      inspect_message-Tracks index m waiting opened left s one two shown tracks in
    let upto : inspect_loop zero start (before ++ m ∷ []) ≡ ok u =
      scan_of_last before m index s u n scan shown in
    let whole : all ≡ (before ++ m ∷ []) ++ rest = a ∙ sym (append_assoc before (m ∷ []) rest) in
    let size : length (before ++ m ∷ []) ≡ suc index = length_of_last before m ∙ ap suc n in
    let prefix : take (suc index) all ≡ before ++ m ∷ [] =
      rw (whole, sym size) (take_of_length (before ++ m ∷ []) rest) in
    cut_loop-Good all (before ++ m ∷ []) rest (suc index) first limit left
      (better (suc index) first limit left best) found u whole size upto others kept
      (better-Good all first limit (suc index) left best
        (λ bare.
          subst Shut (sym prefix)
            (before-Shut (before ++ m ∷ []) u upto (subst (λ l. Tracks l u) bare kept)))
        (omega (arith, size, ap length whole, length-append (before ++ m ∷ []) rest)) good)
      e2
