-- ===== src/Transcript/Outlines.antt =====
-- The scan of transcript.go reads no more of a message than its role, the IDs and names of its
-- calls, and its results.
use agentic.Prelude.{
  ℕ, zero, suc, ◌≡◌, refl, sym, ap, ◌∙◌, inl, inr, String, List, [], ◌∷◌, map, Option, none, some,
  not, ◌&&◌, ◌==◌, Result, ok, err, ◌>>=◌, >>=-eq-ok, Bool-cases, Option-cases, Result-cases,
  is_empty,
}
use agentic.Message.{Message, MessageRole, ToolUse, ToolResult, is_assistant, is_tool}
use agentic.Message.Parts.{get_tool_uses, get_tool_results}
use agentic.Faults.{TranscriptError}
use agentic.Transcript.{
  Scan, start, check_ids, find_call, resolve_one, resolve_all, all_resolved, open_frontier, settle,
  take_results, inspect_message, inspect_loop,
}
use agentic.Transcript.Admits.{Shut}

-- A call without its input.
abbrev pub bare : ToolUse → ToolUse
bare call = record call { input = none }

abbrev pub outline : Message → MessageRole × (List ToolUse × List ToolResult)
outline m = (m.role, (map bare (get_tool_uses m), get_tool_results m))

-- A scan whose frontier has no inputs.
abbrev bare_scan : Scan → Scan
bare_scan s = record { frontier = map bare s.frontier; resolved = s.resolved }

abbrev on_ok {ℓ κ} :
    {A : Type ℓ} {B : Type κ} → (A → B) → Result TranscriptError A → Result TranscriptError B
on_ok f (ok a) = ok (f a)
on_ok f (err e) = err e

abbrev on_some : Option ToolUse → Option ToolUse
on_some none = none
on_some (some call) = some (bare call)

check_ids-bare :
    (i : ℕ) (seen : List String) (calls : List ToolUse)
    → check_ids i seen (map bare calls) ≡ check_ids i seen calls
unfolding check_ids
check_ids-bare i seen [] = refl
check_ids-bare i seen (call ∷ calls) = rw (check_ids-bare i (call.id ∷ seen) calls) refl

find_call-bare :
    (id : String) (calls : List ToolUse)
    → find_call id (map bare calls) ≡ on_some (find_call id calls)
unfolding find_call
find_call-bare id [] = refl
find_call-bare id (call ∷ calls) = elim (Option-cases (find_call id calls)) [
  | inl e ↦ elim (Bool-cases (call.id == id)) [
    | inl same ↦ rw (find_call-bare id calls, e, same) refl
    | inr other ↦ rw (find_call-bare id calls, e, other) refl
  ]
  | inr (later, e) ↦ rw (find_call-bare id calls, e) refl
]

resolve_one-bare :
    (frontier : List ToolUse) (resolved : List String) (r : ToolResult)
    → resolve_one (map bare frontier) resolved r ≡ resolve_one frontier resolved r
unfolding resolve_one
resolve_one-bare frontier resolved r = elim (Option-cases (find_call r.tool_use_id frontier)) [
  | inl e ↦ rw (find_call-bare r.tool_use_id frontier, e, resolve_one) refl
  | inr (call, e) ↦ rw (find_call-bare r.tool_use_id frontier, e, resolve_one) refl
]

resolve_all-bare :
    (frontier : List ToolUse) (resolved : List String) (results : List ToolResult)
    → resolve_all (map bare frontier) resolved results ≡ resolve_all frontier resolved results
unfolding resolve_all
resolve_all-bare frontier resolved [] = refl
resolve_all-bare frontier resolved (r ∷ results) =
    elim (Result-cases (resolve_one frontier resolved r)) [
      | inl (more, e) ↦
          rw (resolve_one-bare frontier resolved r, e) (resolve_all-bare frontier more results)
      | inr (f, e) ↦ rw (resolve_one-bare frontier resolved r, e) refl
    ]

all_resolved-bare :
    (resolved : List String) (calls : List ToolUse)
    → all_resolved resolved (map bare calls) ≡ all_resolved resolved calls
unfolding all_resolved
all_resolved-bare resolved [] = refl
all_resolved-bare resolved (call ∷ calls) = rw (all_resolved-bare resolved calls) refl

settle-bare :
    (frontier : List ToolUse) (resolved : List String)
    → settle (map bare frontier) resolved ≡ bare_scan (settle frontier resolved)
unfolding settle
settle-bare frontier resolved = elim (Bool-cases (all_resolved resolved frontier)) [
  | inl e ↦ rw (all_resolved-bare resolved frontier, e, settle) refl
  | inr e ↦ rw (all_resolved-bare resolved frontier, e, settle) refl
]

is_empty-bare : (calls : List ToolUse) → is_empty (map bare calls) ≡ is_empty calls
is_empty-bare [] = refl
is_empty-bare (call ∷ calls) = refl

open_frontier-bare :
    (i : ℕ) (role : MessageRole) (uses : List ToolUse) (s : Scan)
    → open_frontier i role (map bare uses) (bare_scan s)
      ≡ on_ok bare_scan (open_frontier i role uses s)
unfolding open_frontier
open_frontier-bare i role [] s = refl
open_frontier-bare i role (call ∷ calls) s = elim (Bool-cases (is_assistant role)) [
  | inr other ↦ rw (other, open_frontier) refl
  | inl speaks ↦ elim (Bool-cases (is_empty s.frontier)) [
    | inr busy ↦ rw (speaks, is_empty-bare s.frontier, busy, open_frontier) refl
    | inl free ↦ elim (Option-cases (check_ids i [] (call ∷ calls))) [
      | inl e ↦
          rw
            (
              speaks,
              is_empty-bare s.frontier,
              free,
              check_ids-bare i [] (call ∷ calls),
              e,
              open_frontier,
            )
            refl
      | inr (f, e) ↦
          rw
            (
              speaks,
              is_empty-bare s.frontier,
              free,
              check_ids-bare i [] (call ∷ calls),
              e,
              open_frontier,
            )
            refl
    ]
  ]
]

take_results-bare :
    (i : ℕ) (role : MessageRole) (uses : List ToolUse) (results : List ToolResult) (s : Scan)
    → take_results i role (map bare uses) results (bare_scan s)
      ≡ on_ok bare_scan (take_results i role uses results s)
unfolding take_results
take_results-bare i role uses [] s =
    elim (Bool-cases (not (is_empty s.frontier) && (not (is_tool role) && is_empty uses))) [
      | inl e ↦ rw (is_empty-bare s.frontier, is_empty-bare uses, e, take_results) refl
      | inr e ↦ rw (is_empty-bare s.frontier, is_empty-bare uses, e, take_results) refl
    ]
take_results-bare i role uses (r ∷ results) s = elim (Bool-cases (is_tool role)) [
  | inr other ↦ rw (other, take_results) refl
  | inl answers ↦ elim (Bool-cases (is_empty s.frontier)) [
    | inl bare_one ↦ rw (answers, is_empty-bare s.frontier, bare_one, take_results) refl
    | inr busy ↦ elim (Result-cases (resolve_all s.frontier s.resolved (r ∷ results))) [
      | inl (resolved, e) ↦
          rw
            (
              answers,
              is_empty-bare s.frontier,
              busy,
              resolve_all-bare s.frontier s.resolved (r ∷ results),
              e,
              take_results,
            )
            (ap ok (settle-bare s.frontier resolved))
      | inr (f, e) ↦
          rw
            (
              answers,
              is_empty-bare s.frontier,
              busy,
              resolve_all-bare s.frontier s.resolved (r ∷ results),
              e,
              take_results,
            )
            refl
    ]
  ]
]

abbrev scan_outline :
    ℕ → Scan → MessageRole × (List ToolUse × List ToolResult) → Result TranscriptError Scan
scan_outline i s (role, (uses, results)) =
    open_frontier i role uses s >>= take_results i role uses results

inspect_message-outline :
    (i : ℕ) (s : Scan) (m : Message)
    → scan_outline i (bare_scan s) (outline m) ≡ on_ok bare_scan (inspect_message i s m)
unfolding inspect_message
inspect_message-outline i s m = elim (Result-cases (open_frontier i m.role (get_tool_uses m) s)) [
  | inl (t, e) ↦
      rw (open_frontier-bare i m.role (get_tool_uses m) s, e)
        (take_results-bare i m.role (get_tool_uses m) (get_tool_results m) t)
  | inr (f, e) ↦ rw (open_frontier-bare i m.role (get_tool_uses m) s, e) refl
]

on_ok-ok :
    (t u : Scan) (r : Result TranscriptError Scan)
    → t ≡ u
    → on_ok bare_scan r ≡ ok t
    → (v : Scan) × (r ≡ ok v) × (u ≡ bare_scan v)
on_ok-ok t u (ok v) same e = (v, refl, cc)
on_ok-ok t u (err f) same e = cc

inspect_message-alike :
    (i : ℕ) (s s2 : Scan) (m n : Message) {t : Scan}
    → bare_scan s ≡ bare_scan s2
    → outline m ≡ outline n
    → inspect_message i s m ≡ ok t
    → (v : Scan) × (inspect_message i s2 n ≡ ok v) × (bare_scan t ≡ bare_scan v)
inspect_message-alike i s s2 m n {t} same shape e =
    let first = inspect_message-outline i s m in
    let second = inspect_message-outline i s2 n in
    on_ok-ok (bare_scan t) (bare_scan t) (inspect_message i s2 n) refl (
      sym second
      ∙ ap (λ o. scan_outline i (bare_scan s2) o) (sym shape)
      ∙ ap (λ b. scan_outline i b (outline m)) (sym same)
      ∙ first
      ∙ ap (on_ok bare_scan) e)

inspect_loop-alike :
    (i : ℕ) (s s2 : Scan) (ms ns : List Message) {t : Scan}
    → bare_scan s ≡ bare_scan s2
    → map outline ms ≡ map outline ns
    → inspect_loop i s ms ≡ ok t
    → (v : Scan) × (inspect_loop i s2 ns ≡ ok v) × (bare_scan t ≡ bare_scan v)
unfolding inspect_loop
inspect_loop-alike i s s2 [] [] same shape e = (s2, refl, cc)
inspect_loop-alike i s s2 [] (n ∷ ns) same shape e = cc
inspect_loop-alike i s s2 (m ∷ ms) [] same shape e = cc
inspect_loop-alike i s s2 (m ∷ ms) (n ∷ ns) {t} same shape e =
    let (u, one, rest) = >>=-eq-ok (inspect_message i s m) (λ x. inspect_loop (suc i) x ms) e in
    let head : outline m ≡ outline n = cc in
    let tail : map outline ms ≡ map outline ns = cc in
    let (v, first, still) = inspect_message-alike i s s2 m n same head one in
    let (w, others, last) = inspect_loop-alike (suc i) u v ms ns still tail rest in
    (w, rw first others, last)

bare_scan-start : (s : Scan) → start ≡ bare_scan s → s ≡ start
bare_scan-start s e =
    nothing_open s.frontier s.resolved (ap (λ x. x.frontier) e) (ap (λ x. x.resolved) e)
  where
    nothing_open :
        (frontier : List ToolUse) (resolved : List String)
        → [] ≡ map bare frontier
        → [] ≡ resolved
        → Path Scan (record { frontier = frontier; resolved = resolved }) start
    nothing_open [] [] p q = refl
    nothing_open (call ∷ calls) resolved p q = cc
    nothing_open [] (k ∷ resolved) p q = cc

-- A transcript with the outline of a closed one is closed.
pub Shut-alike : (ms ns : List Message) → map outline ms ≡ map outline ns → Shut ms → Shut ns
Shut-alike ms ns shape shut =
    let (v, scanned, last) = inspect_loop-alike zero start start ms ns refl shape shut in
    scanned ∙ ap ok (bare_scan-start v last)
