-- ===== src/Repair/Frontiers.antt =====
-- An open frontier of a projection, closed, opened or answered: harness/repair/repair.go
-- against transcript.go.
use agentic.Prelude.{
  ℕ, zero, ◌+◌, ◌≡◌, refl, ◌∙◌, inl, inr, String, List, [], ◌∷◌, ◌++◌, map, Option, none, some,
  true, false, ok, Bool-cases, contains, is_empty, length, arith,
}
use agentic.Message.{Message, ToolUse, ToolResult, is_assistant}
use agentic.Message.Parts.{get_tool_uses, get_tool_results}
use agentic.Transcript.{start, check_ids, all_resolved, unresolved_calls, inspect_loop}
use agentic.Transcript.Scans.{IsScan, start-IsScan, inspect_loop-append, inspect_loop-IsScan}
use agentic.Transcript.Places.{check_ids-anywhere}
use agentic.Transcript.Closing.{result_message, AnswerAll, unresolved_calls-nil, inspect_loop-close}
use agentic.Transcript.Opening.{inspect_loop-opened}
use agentic.Transcript.Admits.{
  Shut, IsResponse, inspect_transcript-response, inspect_transcript_of_Shut,
}
use agentic.Repair.{
  Frontier, Projection, PendingCalls, synthetic_content, synthetic_results, close_open,
}

-- A projection that ends inside a frontier: the scan has its calls open with the same IDs resolved,
-- and what stands before it is closed.
pub record IsOpen (output : List Message) (f : Frontier) : Type 0 where
  pub scanned :
      inspect_loop zero start output ≡ ok (record { frontier = f.calls; resolved = f.resolved })
  pub some_calls : is_empty f.calls ≡ false
  pub before : List Message
  pub behind : List Message
  pub split : output ≡ before ++ behind
  pub index : length before ≡ f.output_index
  pub shut : Shut before

abbrev pub IsProjection : List Message → Option Frontier → Type 0
IsProjection output none = Shut output
IsProjection output (some f) = IsOpen output f

pub IsOpen-IsScan :
    (output : List Message) (f : Frontier)
    → IsOpen output f
    → IsScan (record { frontier = f.calls; resolved = f.resolved })
IsOpen-IsScan output f v = inspect_loop-IsScan zero start output v.scanned start-IsScan

pub IsOpen-all_resolved :
    (output : List Message) (f : Frontier)
    → IsOpen output f
    → all_resolved f.resolved f.calls ≡ false
IsOpen-all_resolved output f v = (IsOpen-IsScan output f v).pending v.some_calls

abbrev answer : PendingCalls → ToolUse → ToolResult
answer pending call = record {
  tool_use_id = call.id;
  name = call.name;
  content = synthetic_content pending call;
  is_error = true;
}

AnswerAll-answer :
    (pending : PendingCalls) (calls : List ToolUse) → AnswerAll calls (map (answer pending) calls)
AnswerAll-answer pending [] = tt
AnswerAll-answer pending (call ∷ calls) = (refl, refl, AnswerAll-answer pending calls)

synthetic_results-map :
    (pending : PendingCalls) (resolved : List String) (calls : List ToolUse)
    → synthetic_results pending resolved calls
      ≡ map result_message (map (answer pending) (unresolved_calls resolved calls))
unfolding synthetic_results unresolved_calls
synthetic_results-map pending resolved [] = refl
synthetic_results-map pending resolved (call ∷ calls) =
    elim (Bool-cases (contains call.id resolved)) [
      | inl m ↦ rw m (synthetic_results-map pending resolved calls)
      | inr m ↦ rw (m, synthetic_results-map pending resolved calls)
    ]

-- The synthetic results for what is left of a frontier close it.
inspect_loop-synthetic_results :
    (i : ℕ) (pending : PendingCalls) (resolved : List String) (calls left : List ToolUse)
    → IsScan (record { frontier = calls; resolved = resolved })
    → all_resolved resolved calls ≡ false
    → unresolved_calls resolved calls ≡ left
    → inspect_loop i
        (record { frontier = calls; resolved = resolved })
        (map result_message (map (answer pending) left))
      ≡ ok start
inspect_loop-synthetic_results i pending resolved calls [] v some_open e =
    absurd (ground (arith, unresolved_calls-nil resolved calls e))
inspect_loop-synthetic_results i pending resolved calls (first ∷ rest) v some_open e =
    inspect_loop-close i calls resolved first rest (map (answer pending) (first ∷ rest)) v.unique e
      (AnswerAll-answer pending (first ∷ rest))

pub close_open-Shut :
    (pending : PendingCalls) (f : Frontier) (work : Projection)
    → IsOpen work.output f
    → Shut (close_open pending f work).output
unfolding close_open
close_open-Shut pending f work v =
    inspect_loop-append zero start work.output (synthetic_results pending f.resolved f.calls)
    ∙ rw (v.scanned, synthetic_results-map pending f.resolved f.calls)
        (inspect_loop-synthetic_results (zero + length work.output) pending f.resolved f.calls
          (unresolved_calls f.resolved f.calls) (IsOpen-IsScan work.output f v)
          (IsOpen-all_resolved work.output f v) refl)

-- A frontier that starts behind a closed projection.
pub opened_behind-IsOpen :
    (i : ℕ) (output : List Message) (m : Message)
    → Shut output
    → is_assistant m.role ≡ true
    → get_tool_results m ≡ []
    → is_empty (get_tool_uses m) ≡ false
    → check_ids i [] (get_tool_uses m) ≡ none
    → IsOpen
        (output ++ m ∷ [])
        (record { calls = get_tool_uses m; resolved = []; output_index = length output })
opened_behind-IsOpen i output m e role results some_calls fresh =
    let response : IsResponse m =
      (role, results, λ j. check_ids-anywhere i j [] (get_tool_uses m) fresh) in
    let (frontier, h) = inspect_transcript-response output m e response in
    record {
      scanned = inspect_loop-opened output m (inspect_transcript_of_Shut output e) h;
      some_calls = some_calls;
      before = output;
      behind = m ∷ [];
      split = refl;
      index = refl;
      shut = e;
    }
