-- ===== src/Transcript/Scans.antt =====
-- The scan of `inspectTranscript` of transcript.go: composition, and what its states satisfy.
use agentic.Prelude.{
  ℕ, suc, ◌+◌, ◌≡◌, refl, sym, ap, ◌∙◌, inl, inr, subst, String, List, [], ◌∷◌, ◌++◌, map, none,
  some, true, false, ◌==◌, eq_iff, ok, ◌>>=◌, >>=-eq-ok, Result-cases, Bool-cases, Option-cases,
  contains, distinct, is_empty, All, length, arith,
}
use agentic.Message.{Message, ToolUse, ToolResult, MessageRole}
use agentic.Transcript.{
  Scan, start, check_ids, find_call, resolve_one, resolve_all, all_resolved, open_frontier, settle,
  take_results, inspect_message, inspect_loop,
}

abbrev pub ids : List ToolUse → List String
ids = map (λ call. call.id)

-- Scanning two transcripts in a row is scanning their concatenation.
pub inspect_loop-append :
    (i : ℕ) (s : Scan) (xs ys : List Message)
    → inspect_loop i s (xs ++ ys) ≡ (inspect_loop i s xs >>= λ t. inspect_loop (i + length xs) t ys)
unfolding inspect_loop
inspect_loop-append i s [] ys = ap (λ n. inspect_loop n s ys) (omega arith)
inspect_loop-append i s (x ∷ xs) ys = elim (Result-cases (inspect_message i s x)) [
  | inl (t, e) ↦ rw e (
      inspect_loop-append (suc i) t xs ys
      ∙ ap (λ n. inspect_loop (suc i) t xs >>= λ u. inspect_loop n u ys) (shift (length xs)))
  | inr (f, e) ↦ rw e
]
  where
    shift : (n : ℕ) → suc i + n ≡ i + suc n
    shift n = omega arith

-- What holds of a frontier and the IDs resolved of it.
pub record IsScan (s : Scan) : Type 0 where
  pub present : All (λ call. (call.id == "") ≡ false) s.frontier
  pub unique : distinct (ids s.frontier) ≡ true
  pub known : All (λ k. contains k (ids s.frontier) ≡ true) s.resolved
  pub once : distinct s.resolved ≡ true
  pub pending : is_empty s.frontier ≡ false → all_resolved s.resolved s.frontier ≡ false

pub start-IsScan : IsScan start
unfolding distinct all_resolved
start-IsScan = record { present = tt; unique = refl; known = tt; once = refl; pending = λ h. cc }

-- The loop over a frontier's calls passes lists of present IDs that are new and distinct.
check_ids-present :
    (i : ℕ) (seen : List String) (calls : List ToolUse)
    → check_ids i seen calls ≡ none
    → All (λ call. (call.id == "") ≡ false) calls
unfolding check_ids
check_ids-present i seen [] h = tt
check_ids-present i seen (call ∷ calls) h =
    (ground arith, check_ids-present i (call.id ∷ seen) calls (ground arith))

-- `k` is one of the IDs.
check_ids-fresh :
    (i : ℕ) (seen : List String) (calls : List ToolUse) (k : String)
    → check_ids i seen calls ≡ none
    → contains k seen ≡ true
    → contains k (ids calls) ≡ false
unfolding check_ids contains
check_ids-fresh i seen [] k h m = refl
check_ids-fresh i seen (call ∷ calls) k h m =
    ground (arith, eq_iff call.id k, check_ids-fresh i (call.id ∷ seen) calls k)

check_ids_unique :
    (i : ℕ) (seen : List String) (calls : List ToolUse)
    → check_ids i seen calls ≡ none
    → distinct (ids calls) ≡ true
unfolding check_ids distinct contains
check_ids_unique i seen [] h = refl
check_ids_unique i seen (call ∷ calls) h = ground (
  arith,
  eq_iff call.id call.id,
  check_ids-fresh i (call.id ∷ seen) calls call.id,
  check_ids_unique i (call.id ∷ seen) calls,
)

module _ (frontier : List ToolUse) where
  abbrev pub Known : List String → Type 0
  Known resolved = All (λ k. contains k (ids frontier) ≡ true) resolved

  find_call-known :
      (id : String) (calls : List ToolUse) {call : ToolUse}
      → find_call id calls ≡ some call
      → contains id (ids calls) ≡ true
  unfolding find_call contains
  find_call-known id [] h = cc
  find_call-known id (call ∷ calls) h = elim (Option-cases (find_call id calls)) [
    | inl e ↦ ground arith
    | inr (later, e) ↦ ground (arith, find_call-known id calls {call = later})
  ]

  pub resolve_one-known :
      (resolved : List String) (result : ToolResult) {more : List String}
      → resolve_one frontier resolved result ≡ ok more
      → (more ≡ result.tool_use_id ∷ resolved)
        × (contains result.tool_use_id (ids frontier) ≡ true)
        × (contains result.tool_use_id resolved ≡ false)
  unfolding resolve_one
  resolve_one-known resolved result h =
      elim (Option-cases (find_call result.tool_use_id frontier)) [
        | inl e ↦ ground arith
        | inr (call, e) ↦ ground (arith, find_call-known result.tool_use_id frontier {call = call})
      ]

  pub resolve_all-Known :
      (resolved : List String) (results : List ToolResult) {more : List String}
      → resolve_all frontier resolved results ≡ ok more
      → Known resolved
      → distinct resolved ≡ true
      → Known more × (distinct more ≡ true)
  unfolding resolve_all distinct
  resolve_all-Known resolved [] {more} h known once =
      let e : resolved ≡ more = cc in subst (λ m. Known m × (distinct m ≡ true)) e (known, once)
  resolve_all-Known resolved (result ∷ results) h known once =
      let (next, e, rest) = >>=-eq-ok _ _ h in
      let (shape, fresh, new) = resolve_one-known resolved result e in
      resolve_all-Known next results rest (subst Known (sym shape) (fresh, known))
        (subst (λ m. distinct m ≡ true) (sym shape) (rw (new, once)))

pub check_ids-IsScan :
    (i : ℕ) (calls : List ToolUse)
    → check_ids i [] calls ≡ none
    → is_empty calls ≡ false
    → IsScan (record { frontier = calls; resolved = [] })
unfolding distinct all_resolved contains
check_ids-IsScan i [] h n = cc
check_ids-IsScan i (call ∷ calls) h n = record {
  present = check_ids-present i [] (call ∷ calls) h;
  unique = check_ids_unique i [] (call ∷ calls) h;
  known = tt;
  once = refl;
  pending = λ _. refl;
}

settle-IsScan :
    (frontier : List ToolUse) (resolved : List String)
    → All (λ call. (call.id == "") ≡ false) frontier
    → distinct (ids frontier) ≡ true
    → All (λ k. contains k (ids frontier) ≡ true) resolved
    → distinct resolved ≡ true
    → IsScan (settle frontier resolved)
unfolding settle
settle-IsScan frontier resolved present unique known once =
    elim (Bool-cases (all_resolved resolved frontier)) [
      | inl all ↦ rw (all, settle) start-IsScan
      | inr some_open ↦
          rw (some_open, settle)
            (record {
              present = present;
              unique = unique;
              known = known;
              once = once;
              pending = λ _. some_open;
            })
    ]

pub open_frontier-IsScan :
    (i : ℕ) (role : MessageRole) (calls : List ToolUse) (s : Scan) {t : Scan}
    → open_frontier i role calls s ≡ ok t
    → IsScan s
    → IsScan t
unfolding open_frontier
open_frontier-IsScan i role [] s h v = subst IsScan (cc) v
open_frontier-IsScan i role (call ∷ calls) s {t} h v =
    elim (Option-cases (check_ids i [] (call ∷ calls))) [
      | inl e ↦
          let shape : t ≡ record { frontier = call ∷ calls; resolved = [] } = ground arith in
          subst IsScan (sym shape) (check_ids-IsScan i (call ∷ calls) e refl)
      | inr (f, e) ↦ absurd (ground arith)
    ]

take_results-IsScan :
    (i : ℕ) (role : MessageRole) (uses : List ToolUse) (results : List ToolResult) (s : Scan)
    {t : Scan}
    → take_results i role uses results s ≡ ok t
    → IsScan s
    → IsScan t
unfolding take_results
take_results-IsScan i role uses [] s {t} h v =
    let shape : t ≡ s = ground arith in subst IsScan (sym shape) v
take_results-IsScan i role uses (result ∷ results) s {t} h v =
    elim (Result-cases (resolve_all s.frontier s.resolved (result ∷ results))) [
      | inl (more, e) ↦
          let shape : t ≡ settle s.frontier more = ground arith in
          let (known, once) = resolve_all-Known s.frontier s.resolved _ e v.known v.once in
          subst IsScan (sym shape) (settle-IsScan s.frontier more v.present v.unique known once)
      | inr (f, e) ↦ absurd (ground arith)
    ]

pub inspect_message-IsScan :
    (i : ℕ) (s : Scan) (m : Message) {t : Scan} → inspect_message i s m ≡ ok t → IsScan s → IsScan t
unfolding inspect_message
inspect_message-IsScan i s m h v =
    let (u, opened, taken) = >>=-eq-ok _ _ h in
    take_results-IsScan i m.role _ _ u taken (open_frontier-IsScan i m.role _ s opened v)

-- The invariant holds of every scan that the loop returns from a scan that satisfies it.
pub inspect_loop-IsScan :
    (i : ℕ) (s : Scan) (ms : List Message) {t : Scan}
    → inspect_loop i s ms ≡ ok t
    → IsScan s
    → IsScan t
unfolding inspect_loop
inspect_loop-IsScan i s [] h v = subst IsScan (cc) v
inspect_loop-IsScan i s (m ∷ ms) h v =
    let (u, e, rest) = >>=-eq-ok _ _ h in
    inspect_loop-IsScan (suc i) u ms rest (inspect_message-IsScan i s m e v)
