-- ===== src/Transcript/Balance.antt =====
-- The IDs of the calls and results of `transcriptToolState`, transcript.go.
use agentic.Prelude.{
  ℕ, zero, suc, ◌+◌, ◌≡◌, refl, ap, ◌∙◌, inl, inr, subst, String, List, [], ◌∷◌, map, true, eq_iff,
  ok, >>=-eq-ok, Result-cases, map-append, Bool-cases, Option-cases, contains, distinct, is_empty,
  arith, count, count-append, count_of_absent, count_of_distinct,
}
use agentic.Message.{Message, ToolUse, ToolResult, MessageRole}
use agentic.Message.Parts.{get_tool_uses, get_tool_results}
use agentic.Tools.{ToolExecutionResult}
use agentic.Transcript.{
  Scan, start, check_ids, resolve_all, all_resolved, open_frontier, settle, take_results,
  inspect_message, inspect_loop, inspect_transcript, transcript_tool_state, of_tool_result,
}
use agentic.Transcript.Scans.{
  ids, IsScan, start-IsScan, Known, resolve_one-known, resolve_all-Known, open_frontier-IsScan,
  inspect_message-IsScan, inspect_loop-IsScan,
}

abbrev result_ids : List ToolResult → List String
result_ids = map (λ result. result.tool_use_id)

all_resolved-contains :
    (k : String) (resolved : List String) (calls : List ToolUse)
    → all_resolved resolved calls ≡ true
    → contains k (ids calls) ≡ true
    → contains k resolved ≡ true
unfolding all_resolved contains
all_resolved-contains k resolved [] h m = cc
all_resolved-contains k resolved (call ∷ calls) h m =
    ground (arith, eq_iff call.id k, all_resolved-contains k resolved calls)

Known-contains :
    (k : String) (frontier : List ToolUse) (resolved : List String)
    → Known frontier resolved
    → contains k resolved ≡ true
    → contains k (ids frontier) ≡ true
unfolding contains
Known-contains k frontier [] h m = cc
Known-contains k frontier (x ∷ resolved) h m =
    ground (arith, eq_iff x k, Known-contains k frontier resolved)

-- A frontier that is resolved as a whole has each ID as often as its resolved IDs have.
closed-count :
    (k : String) (frontier : List ToolUse) (resolved : List String)
    → all_resolved resolved frontier ≡ true
    → Known frontier resolved
    → distinct resolved ≡ true
    → distinct (ids frontier) ≡ true
    → count k resolved ≡ count k (ids frontier)
closed-count k frontier resolved all known once unique =
    elim (Bool-cases (contains k (ids frontier))) [
      | inl m ↦ omega (
        arith,
        count_of_distinct k (ids frontier) unique m,
        count_of_distinct k resolved once (all_resolved-contains k resolved frontier all m),
      )
      | inr m ↦ elim (Bool-cases (contains k resolved)) [
        | inl r ↦ cc (Known-contains k frontier resolved known r)
        | inr r ↦ omega (arith, count_of_absent k (ids frontier) m, count_of_absent k resolved r)
      ]
    ]

resolve_all-count :
    (k : String) (frontier : List ToolUse) (resolved : List String) (results : List ToolResult)
    {more : List String}
    → resolve_all frontier resolved results ≡ ok more
    → count k more ≡ count k (result_ids results) + count k resolved
unfolding resolve_all count
resolve_all-count k frontier resolved [] {more} h =
    let e : resolved ≡ more = cc in omega (arith, ap (count k) e)
resolve_all-count k frontier resolved (result ∷ results) h =
    let (next, e, rest) = >>=-eq-ok _ _ h in
    let shape = (resolve_one-known frontier resolved result e).0 in
    ground (arith, resolve_all-count k frontier next results rest, ap (count k) shape)

count-nil : (k : String) → count k [] ≡ 0
unfolding count
count-nil k = refl

is_empty-nil : (frontier : List ToolUse) → is_empty frontier ≡ true → frontier ≡ []
is_empty-nil [] h = refl
is_empty-nil (call ∷ calls) h = cc

pub Known-of_nil :
    (frontier : List ToolUse) (resolved : List String)
    → frontier ≡ []
    → Known frontier resolved
    → resolved ≡ []
unfolding contains
Known-of_nil frontier [] e known = refl
Known-of_nil frontier (x ∷ resolved) e known = cc (known.0)

-- What each half of a message's step does to the counts.
open_frontier-count :
    (k : String) (i : ℕ) (role : MessageRole) (calls : List ToolUse) (s : Scan) {t : Scan}
    → open_frontier i role calls s ≡ ok t
    → IsScan s
    → count k (ids calls) + count k (ids s.frontier) + count k t.resolved
      ≡ count k s.resolved + count k (ids t.frontier)
unfolding open_frontier
open_frontier-count k i role [] s {t} h v =
    let shape : t ≡ s = cc in rw shape (omega (arith, count-nil k))
open_frontier-count k i role (call ∷ calls) s {t} h v =
    elim (Option-cases (check_ids i [] (call ∷ calls))) [
      | inl e ↦
          let shape : t ≡ record { frontier = call ∷ calls; resolved = [] } = ground arith in
          let bare : s.frontier ≡ [] = is_empty-nil s.frontier (ground arith) in
          let clear : s.resolved ≡ [] = Known-of_nil s.frontier s.resolved bare v.known in
          omega (
            arith,
            count-nil k,
            ap (λ u. count k u.resolved) shape,
            ap (λ u. count k (ids u.frontier)) shape,
            ap (λ f. count k (ids f)) bare,
            ap (count k) clear,
          )
      | inr (f, e) ↦ absurd (ground arith)
    ]

settle-count :
    (k : String) (s : Scan) (more : List String)
    → IsScan s
    → Known s.frontier more
    → distinct more ≡ true
    → count k (ids s.frontier) + count k (settle s.frontier more).resolved
      ≡ count k more + count k (ids (settle s.frontier more).frontier)
unfolding settle
settle-count k s more v known once = elim (Bool-cases (all_resolved more s.frontier)) [
  | inl all ↦
      rw (all, settle)
        (omega (arith, count-nil k, closed-count k s.frontier more all known once v.unique))
  | inr part ↦ rw (part, settle) (omega arith)
]

take_results-count :
    (k : String) (i : ℕ) (role : MessageRole) (uses : List ToolUse) (results : List ToolResult)
    (s : Scan) {t : Scan}
    → take_results i role uses results s ≡ ok t
    → IsScan s
    → count k (ids s.frontier) + count k t.resolved
      ≡ count k (result_ids results) + count k s.resolved + count k (ids t.frontier)
unfolding take_results
take_results-count k i role uses [] s {t} h v =
    let shape : t ≡ s = ground arith in rw shape (omega (arith, count-nil k))
take_results-count k i role uses (result ∷ results) s {t} h v =
    elim (Result-cases (resolve_all s.frontier s.resolved (result ∷ results))) [
      | inl (more, e) ↦
          let shape : t ≡ settle s.frontier more = ground arith in
          let (known, once) = resolve_all-Known s.frontier s.resolved _ e v.known v.once in
          rw shape (
            omega (
              arith,
              settle-count k s more v known once,
              resolve_all-count k s.frontier s.resolved (result ∷ results) e,
            ))
      | inr (f, e) ↦ absurd (ground arith)
    ]

abbrev pub call_ids : List Message → List String
call_ids ms = ids (transcript_tool_state ms).0

abbrev pub answered_ids : List Message → List String
answered_ids ms = map (λ r. r.tool_use_id) (transcript_tool_state ms).1

answered_ids-map :
    (results : List ToolResult)
    → map (λ (r : ToolExecutionResult). r.tool_use_id) (map of_tool_result results)
      ≡ result_ids results
answered_ids-map [] = refl
answered_ids-map (r ∷ results) = ap (◌∷◌ r.tool_use_id) (answered_ids-map results)

call_ids-count :
    (k : String) (m : Message) (ms : List Message)
    → count k (call_ids (m ∷ ms)) ≡ count k (ids (get_tool_uses m)) + count k (call_ids ms)
unfolding transcript_tool_state
call_ids-count k m ms =
    ap (count k) (map-append (λ (c : ToolUse). c.id) (get_tool_uses m) _)
    ∙ count-append k (ids (get_tool_uses m)) (call_ids ms)

answered_ids-count :
    (k : String) (m : Message) (ms : List Message)
    → count k (answered_ids (m ∷ ms))
      ≡ count k (result_ids (get_tool_results m)) + count k (answered_ids ms)
unfolding transcript_tool_state
answered_ids-count k m ms =
    ap (count k) (
      map-append (λ (r : ToolExecutionResult). r.tool_use_id)
        (map of_tool_result (get_tool_results m)) _)
    ∙ (count-append k _ (answered_ids ms)
        ∙ ap (λ l. count k l + count k (answered_ids ms)) (answered_ids-map (get_tool_results m)))

inspect_message-count :
    (k : String) (i : ℕ) (s : Scan) (m : Message) {t : Scan}
    → inspect_message i s m ≡ ok t
    → IsScan s
    → count k (ids (get_tool_uses m)) + count k (ids s.frontier) + count k t.resolved
      ≡ count k (result_ids (get_tool_results m)) + count k s.resolved + count k (ids t.frontier)
unfolding inspect_message
inspect_message-count k i s m h v =
    let (u, opened, taken) =
      >>=-eq-ok (open_frontier i m.role (get_tool_uses m) s)
        (take_results i m.role (get_tool_uses m) (get_tool_results m)) h in
    omega (
      arith,
      open_frontier-count k i m.role (get_tool_uses m) s opened v,
      take_results-count k i m.role (get_tool_uses m) (get_tool_results m) u taken
          (open_frontier-IsScan i m.role _ s opened v),
    )

inspect_loop-count :
    (k : String) (i : ℕ) (s : Scan) (ms : List Message) {t : Scan}
    → inspect_loop i s ms ≡ ok t
    → IsScan s
    → count k (call_ids ms) + count k (ids s.frontier) + count k t.resolved
      ≡ count k (answered_ids ms) + count k s.resolved + count k (ids t.frontier)
unfolding inspect_loop
inspect_loop-count k i s [] {t} h v =
    let shape : s ≡ t = cc in
    subst
      (λ u.
        count k (call_ids []) + count k (ids s.frontier) + count k u.resolved
        ≡ count k (answered_ids []) + count k s.resolved + count k (ids u.frontier))
      shape (unfold transcript_tool_state in omega arith)
inspect_loop-count k i s (m ∷ ms) h v =
    let (u, e, rest) = >>=-eq-ok (inspect_message i s m) (λ next. inspect_loop (suc i) next ms) h in
    omega (
      arith,
      call_ids-count k m ms,
      answered_ids-count k m ms,
      inspect_message-count k i s m e v,
      inspect_loop-count k (suc i) u ms rest (inspect_message-IsScan i s m e v),
    )

-- In a transcript that passes the check with no open frontier, every ID stands among the collected
-- calls as often as among the collected results.
pub calls-balance-results :
    (k : String) (ms : List Message)
    → inspect_transcript ms ≡ ok []
    → count k (call_ids ms) ≡ count k (answered_ids ms)
unfolding inspect_transcript
calls-balance-results k ms h =
    let (t, e, f) = >>=-eq-ok (inspect_loop zero start ms) (λ scan. ok scan.frontier) h in
    let bare : t.frontier ≡ [] = cc in
    let v = inspect_loop-IsScan zero start ms e start-IsScan in
    omega (
      arith,
      count-nil k,
      inspect_loop-count k zero start ms e start-IsScan,
      ap (count k) (Known-of_nil t.frontier t.resolved bare v.known),
      ap (λ l. count k (ids l)) bare,
    )
