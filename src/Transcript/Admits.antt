-- ===== src/Transcript/Admits.antt =====
-- Messages at the end of a transcript, for `inspectTranscript` of transcript.go.
use agentic.Prelude.{
  ℕ, zero, suc, ◌+◌, length, ◌≡◌, refl, ◌∙◌, true, none, List, [], ◌∷◌, ◌++◌, Result, ok, All,
  arith,
}
use agentic.Message.{Message, ToolUse, is_assistant}
use agentic.Message.Parts.{get_tool_uses, get_tool_results}
use agentic.Faults.{TranscriptError}
use agentic.Transcript.{
  Scan, start, check_ids, open_frontier, take_results, inspect_message, inspect_loop,
  inspect_transcript,
}
use agentic.Transcript.Scans.{inspect_loop-append}

abbrev pub Shut : List Message → Type 0
Shut ms = inspect_loop zero start ms ≡ ok start

-- A message with neither calls nor results.
abbrev pub IsPlain : Message → Type 0
IsPlain m = (get_tool_uses m ≡ []) × (get_tool_results m ≡ [])

-- An assistant message without results, whose calls have distinct IDs that are not empty.
abbrev pub IsResponse : Message → Type 0
IsResponse m =
    (is_assistant m.role ≡ true)
    × (get_tool_results m ≡ [])
    × ((i : ℕ) → check_ids i [] (get_tool_uses m) ≡ none)

inspect_message-plain : (i : ℕ) (m : Message) → IsPlain m → inspect_message i start m ≡ ok start
unfolding inspect_message open_frontier take_results
inspect_message-plain i m (uses, results) = rw (uses, results, open_frontier, take_results) refl

inspect_loop-plain :
    (i : ℕ) (ms : List Message) → All IsPlain ms → inspect_loop i start ms ≡ ok start
unfolding inspect_loop
inspect_loop-plain i [] p = refl
inspect_loop-plain i (m ∷ ms) p =
    rw (inspect_message-plain i m p.0) (inspect_loop-plain (suc i) ms p.1)

pub Shut-plain : (before ms : List Message) → Shut before → All IsPlain ms → Shut (before ++ ms)
Shut-plain before ms e p =
    inspect_loop-append zero start before ms ∙ rw e (inspect_loop-plain _ ms p)

open_frontier-response :
    (i : ℕ) (m : Message) (uses : List ToolUse)
    → is_assistant m.role ≡ true
    → check_ids i [] uses ≡ none
    → (scan : Scan) × ((Path
        (Result TranscriptError Scan)
        (open_frontier i m.role uses start)
        (ok scan)))
      × (take_results i m.role uses [] scan ≡ ok scan)
unfolding open_frontier take_results
open_frontier-response i m [] role fresh = (start, refl, refl)
open_frontier-response i m (call ∷ calls) role fresh = (
  record { frontier = call ∷ calls; resolved = [] },
  rw (role, fresh, open_frontier) refl,
  ground arith,
)

inspect_message-response :
    (i : ℕ) (m : Message) → IsResponse m → (scan : Scan) × (inspect_message i start m ≡ ok scan)
unfolding inspect_message
inspect_message-response i m (role, results, fresh) =
    let (scan, opened, taken) = open_frontier-response i m (get_tool_uses m) role (fresh i) in
    (scan, rw (results, opened) taken)

pub inspect_transcript-response :
    (before : List Message) (m : Message)
    → Shut before
    → IsResponse m
    → (frontier : List ToolUse) × (inspect_transcript (before ++ m ∷ []) ≡ ok frontier)
unfolding inspect_transcript inspect_loop
inspect_transcript-response before m e w =
    let (scan, f) = inspect_message-response (zero + length before) m w in
    (scan.frontier, rw (inspect_loop-append zero start before (m ∷ []), e, f) refl)

pub inspect_transcript_of_Shut : (ms : List Message) → Shut ms → inspect_transcript ms ≡ ok []
unfolding inspect_transcript
inspect_transcript_of_Shut ms e = rw e refl
