-- ===== src/Transcript/Opening.antt =====
-- The frontier that a message opens behind a closed transcript, transcript.go.
use agentic.Prelude.{
  ℕ, zero, ◌+◌, ◌≡◌, refl, sym, ap, ◌∙◌, true, some, List, [], ◌∷◌, ◌++◌, ok, >>=-eq-ok, All, arith,
  distinct, contains, length, eq_refl,
}
use agentic.Message.{Message, MessageRole, ToolUse, ToolResult}
use agentic.Message.Parts.{get_tool_uses, get_tool_results}
use agentic.Transcript.{
  Scan, start, inspect_message, inspect_loop, inspect_transcript, open_frontier, take_results,
  find_call, unresolved_calls,
}
use agentic.Transcript.Scans.{ids, start-IsScan, inspect_loop-IsScan, inspect_loop-append}
use agentic.Transcript.Balance.{Known-of_nil}
use agentic.Transcript.Closing.{find_call_of_absent}

pub unresolved_calls_of_none : (calls : List ToolUse) → unresolved_calls [] calls ≡ calls
unfolding unresolved_calls contains
unresolved_calls_of_none [] = refl
unresolved_calls_of_none (call ∷ calls) = ap (◌∷◌ call) (unresolved_calls_of_none calls)

opened-from-start :
    (i : ℕ) (role : MessageRole) (uses : List ToolUse) (results : List ToolResult) (u t : Scan)
    → open_frontier i role uses start ≡ ok u
    → take_results i role uses results u ≡ ok t
    → t ≡ record { frontier = uses; resolved = [] }
unfolding open_frontier take_results
opened-from-start i role [] [] u t opened taken = ground arith
opened-from-start i role [] (r ∷ results) u t opened taken = absurd (ground arith)
opened-from-start i role (call ∷ calls) [] u t opened taken = ground arith
opened-from-start i role (call ∷ calls) (r ∷ results) u t opened taken = absurd (ground arith)

-- A message that opens a transcript's next frontier leaves exactly its own calls open.
pub inspect_message-start :
    (i : ℕ) (m : Message) {t : Scan}
    → inspect_message i start m ≡ ok t
    → t ≡ record { frontier = get_tool_uses m; resolved = [] }
unfolding inspect_message
inspect_message-start i m {t} h =
    let (u, opened, taken) =
      >>=-eq-ok (open_frontier i m.role (get_tool_uses m) start)
        (take_results i m.role (get_tool_uses m) (get_tool_results m)) h in
    opened-from-start i m.role (get_tool_uses m) (get_tool_results m) u t opened taken

-- A closed transcript scans to the start.
pub inspect_transcript-closed :
    (ms : List Message) → inspect_transcript ms ≡ ok [] → inspect_loop zero start ms ≡ ok start
unfolding inspect_transcript
inspect_transcript-closed ms h =
    let (t, e, f) = >>=-eq-ok (inspect_loop zero start ms) (λ scan. ok scan.frontier) h in
    let bare : t.frontier ≡ [] = cc in
    let v = inspect_loop-IsScan zero start ms e start-IsScan in
    let clear : t.resolved ≡ [] = Known-of_nil t.frontier t.resolved bare v.known in
    e ∙ ap ok (the_start t bare clear)
  where
    the_start : (t : Scan) → t.frontier ≡ [] → t.resolved ≡ [] → t ≡ start
    the_start t p q = cc (p, q)

-- After a closed transcript and one more message the scan has the message's calls open.
pub inspect_loop-opened :
    (before : List Message) (m : Message) {frontier : List ToolUse}
    → inspect_transcript before ≡ ok []
    → inspect_transcript (before ++ m ∷ []) ≡ ok frontier
    → inspect_loop zero start (before ++ m ∷ [])
      ≡ ok (record { frontier = get_tool_uses m; resolved = [] })
unfolding inspect_transcript inspect_loop
inspect_loop-opened before m {frontier} closed h =
    let scanned = inspect_loop-append zero start before (m ∷ []) in
    let from_start = inspect_transcript-closed before closed in
    let (t, e, _) =
      >>=-eq-ok (inspect_loop zero start (before ++ m ∷ [])) (λ scan. ok scan.frontier) h in
    let one : inspect_loop (zero + length before) start (m ∷ []) ≡ ok t =
      sym (scanned ∙ rw from_start) ∙ e in
    let (u, g, f) =
      >>=-eq-ok (inspect_message (zero + length before) start m) (λ (v : Scan). ok v) one in
    e ∙ (sym f ∙ ap ok (inspect_message-start (zero + length before) m g))

-- The calls of a scan with distinct IDs are found by their IDs.
abbrev In : List ToolUse → ToolUse → Type 0
In frontier call = find_call call.id frontier ≡ some call

find_call-cons :
    (first : ToolUse) (frontier : List ToolUse) (calls : List ToolUse)
    → All (In frontier) calls
    → All (In (first ∷ frontier)) calls
unfolding find_call
find_call-cons first frontier [] m = tt
find_call-cons first frontier (call ∷ calls) m = (rw (m.0), find_call-cons first frontier calls m.1)

pub find_call_of_distinct :
    (calls : List ToolUse)
    → distinct (ids calls) ≡ true
    → All (λ call. find_call call.id calls ≡ some call) calls
unfolding find_call distinct
find_call_of_distinct [] d = tt
find_call_of_distinct (call ∷ calls) d = (
  rw (find_call_of_absent call.id calls (ground arith), eq_refl),
  find_call-cons call calls calls (find_call_of_distinct calls (ground arith)),
)
