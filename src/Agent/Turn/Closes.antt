-- ===== src/Agent/Turn/Closes.antt =====
-- The frontier of a turn: `completeAssistantTurn` of turn.go and `inspectTranscript`.
use agentic.Prelude.{
  ℕ, zero, ◌≡◌, refl, ap, ◌∙◌, inl, inr, String, Bool, true, false, Option, none, ◌&&◌, some, List,
  [], ◌∷◌, ◌++◌, map, ok, Bool-cases, Option-cases, All, arith, is_empty, is_some,
}
use agentic.Message.{Message, ToolUse, ToolResult}
use agentic.Message.Parts.{get_tool_uses, tool_uses, tool_results}
use agentic.Tools.{Rendering, ToolExecutionResult, format_tool_result}
use agentic.Transcript.{
  start, inspect_message, inspect_loop, inspect_transcript, open_frontier, take_results,
}
use agentic.Transcript.Scans.{start-IsScan, inspect_loop-IsScan, inspect_loop-append}
use agentic.Transcript.Admits.{Shut}
use agentic.Transcript.Opening.{
  unresolved_calls_of_none, inspect_loop-opened, find_call_of_distinct,
}
use agentic.Transcript.Closing.{AnswerAll, result_message, inspect_loop-close}
use agentic.Agent.{LoopState, Config, Options, emit, tool_result_committed}
use agentic.Agent.Suspend.{Sealing}
use agentic.Agent.Batch.{RegularTurn}
use agentic.Agent.Batch.Results.{In, Sound, nil-Sound, execute_regular_turn-Sound}
use agentic.Agent.Batch.Kept.{emit-messages}
use agentic.Agent.Turn.{
  Verdict, TurnOutcome, Evaluator, judge, conclude, regular_turn, complete_with, feedback,
  complete_assistant_turn, record_calls,
}
use agentic.Agent.Turn.Clock.{regular_turn-kept}
use agentic.Agent.Turn.Answered.{Answered, pair_results-AnsweredBut, check_output_tool-get_elem?}
use agentic.Agent.Turn.Judged.{Located, Judged, judge-Judged}
use agentic.Agent.Pairs.{
  check_output_tool, pair_results, is_early, result_messages, commit_tool_results, emit_results,
}

-- A committed result as the transcript sees it.
tool_result_of : Rendering → ToolExecutionResult → ToolResult
tool_result_of render r = record {
  tool_use_id = r.tool_use_id;
  name = r.tool_name;
  content = format_tool_result render r.content;
  is_error = r.is_error;
}

result_messages-map :
    (render : Rendering) (results : List ToolExecutionResult)
    → result_messages render results ≡ map result_message (map (tool_result_of render) results)
unfolding result_messages tool_result_of
result_messages-map render [] = refl
result_messages-map render (r ∷ results) =
    ap (◌∷◌ (result_message (tool_result_of render r))) (result_messages-map render results)

Answered-AnswerAll :
    (render : Rendering) (calls : List ToolUse) (results : List ToolExecutionResult)
    → Answered calls results
    → AnswerAll calls (map (tool_result_of render) results)
unfolding tool_result_of
Answered-AnswerAll render [] [] a = tt
Answered-AnswerAll render [] (r ∷ results) a = absurd a
Answered-AnswerAll render (call ∷ calls) [] a = absurd a
Answered-AnswerAll render (call ∷ calls) (r ∷ results) a =
    (a.0.0, a.0.1, Answered-AnswerAll render calls results a.1)

emit_results-messages :
    (o : Options) (ls : LoopState) (results : List ToolExecutionResult)
    → (emit_results o ls results).0.messages ≡ ls.messages
unfolding emit_results
emit_results-messages o ls [] = refl
emit_results-messages o ls (r ∷ results) =
    elim (Option-cases (emit o ls (tool_result_committed r)).1) [
      | inl e ↦
          rw (e, emit_results)
            (emit_results-messages o (emit o ls (tool_result_committed r)).0 results
              ∙ emit-messages o ls (tool_result_committed r))
      | inr (x, e) ↦ rw (e, emit_results) (emit-messages o ls (tool_result_committed r))
    ]

-- A scan that opens the calls of a turn, as `inspect_loop-opened` gives it.
abbrev pub Opens : List ToolUse → List Message → Type 0
Opens calls ms = inspect_loop zero start ms ≡ ok (record { frontier = calls; resolved = [] })

Shut-feedback : (ms : List Message) (note : String) → Shut ms → Shut (ms ++ feedback note ∷ [])
unfolding inspect_loop inspect_message open_frontier take_results tool_uses tool_results
Shut-feedback ms note e = inspect_loop-append zero start ms (feedback note ∷ []) ∙ rw e

Shut-results :
    (o : Options) (call : ToolUse) (calls : List ToolUse) (ms : List Message)
    (results : List ToolExecutionResult)
    → Opens (call ∷ calls) ms
    → Answered (call ∷ calls) results
    → Shut (ms ++ result_messages o.render results)
Shut-results o call calls ms results e a =
    let v = inspect_loop-IsScan zero start ms e start-IsScan in
    inspect_loop-append zero start ms (result_messages o.render results)
    ∙ rw (e, result_messages-map)
        (inspect_loop-close _ (call ∷ calls) [] call calls _ v.unique
          (unresolved_calls_of_none (call ∷ calls))
          (Answered-AnswerAll o.render (call ∷ calls) results a))

Answered-nil : (results : List ToolExecutionResult) → Answered [] results → is_empty results ≡ true
Answered-nil [] a = refl
Answered-nil (r ∷ results) a = absurd a

Answered-cons :
    (call : ToolUse) (calls : List ToolUse) (results : List ToolExecutionResult)
    → Answered (call ∷ calls) results
    → is_empty results ≡ false
Answered-cons call calls [] a = absurd a
Answered-cons call calls (r ∷ results) a = refl

-- The results that a resumed turn brings answer its calls.
abbrev pub ResumesSound : List ToolUse → Option RegularTurn → Type 0
ResumesSound calls none = Unit {0}
ResumesSound calls (some resumed) = Sound calls resumed.results

regular_turn-Sound :
    (o : Options) (c : Config) (seal : Sealing) (ls : LoopState) (calls : List ToolUse)
    (output : Option ℕ) (resumed : Option RegularTurn)
    → All (In calls) calls
    → ResumesSound calls resumed
    → Sound calls (regular_turn o c seal ls calls output resumed).1.results
unfolding regular_turn
regular_turn-Sound o c seal ls calls output (some resumed) m s = s
regular_turn-Sound o c seal ls calls output none m s =
    elim (Bool-cases (is_some output && is_early ls.end_strategy)) [
      | inl e ↦ rw e (nil-Sound calls)
      | inr e ↦ rw e (execute_regular_turn-Sound calls o c seal ls calls m)
    ]

located :
    (names : List String) (calls : List ToolUse) (output : Option ℕ)
    → check_output_tool names calls ≡ output
    → Located calls output
located names calls none e = tt
located names calls (some i) e = check_output_tool-get_elem? names calls e

module _ {O : Type 0} (o : Options) (c : Config) where
  -- The end of a turn closes what is open, if the arbitration answered the calls.
  conclude-Shut :
      (calls : List ToolUse) (before ls : LoopState) (assistant : Message) (regular : RegularTurn)
      (v : Verdict O)
      → Opens calls before.messages
      → Judged {O = O} o c calls before (ls, v)
      → Shut (conclude o c ls assistant regular v).0.messages
        × ((conclude o c ls assistant regular v).1.suspension ≡ none)
  unfolding conclude commit_tool_results
  conclude-Shut [] before ls assistant regular v e (a, inl same) =
      rw (Answered-nil v.results a, conclude) (rw same e, refl)
  conclude-Shut [] before ls assistant regular v e (a, inr (note, _, more)) =
      rw (Answered-nil v.results a, conclude) (rw more (Shut-feedback before.messages note e), refl)
  conclude-Shut (call ∷ calls) before ls assistant regular v e (a, inl same) =
      rw (Answered-cons call calls v.results a, conclude)
        (
          rw (emit_results-messages, same)
              (Shut-results o call calls before.messages v.results e a),
          refl,
        )
  conclude-Shut (call ∷ calls) before ls assistant regular v e (a, inr (note, none_, more)) = cc

  -- The result of a turn on a transcript that opened its calls.
  abbrev Completes : LoopState → LoopState × TurnOutcome O → Type 0
  Completes ls (ls', outcome) =
      (outcome.suspension ≡ none → Shut ls'.messages)
      × (is_some outcome.suspension ≡ true → ls'.messages ≡ ls.messages)

  complete_with-Completes :
      (evaluate : Evaluator O) (ls : LoopState) (assistant : Message) (calls : List ToolUse)
      (regular : RegularTurn)
      → Opens calls ls.messages
      → All (In calls) calls
      → Sound calls regular.results
      → Completes ls (
          complete_with o c evaluate ls assistant calls
            (check_output_tool c.output_tool_names calls)
            regular)
  unfolding complete_with
  complete_with-Completes evaluate ls assistant calls regular e m s =
      elim (Option-cases regular.suspension) [
        | inr (suspension, g) ↦ rw (g, complete_with) (λ h. cc, λ h. refl)
        | inl g ↦
            let output = check_output_tool c.output_tool_names calls in
            let results =
              pair_results c.output_tool_names (is_early ls.end_strategy) regular output 0 calls in
            let judged =
              judge-Judged o c calls evaluate ls assistant output regular results
                (located c.output_tool_names calls output refl)
                (pair_results-AnsweredBut calls c.output_tool_names (is_early ls.end_strategy)
                  regular s output 0 calls m) in
            let (shut, free) =
              conclude-Shut calls ls _ assistant regular
                (judge o c evaluate ls assistant calls output regular results).1 e judged in
            rw (g, complete_with) (λ h. shut, λ h. cc)
      ]

  -- A turn on a transcript that is closed but for the assistant message: if the turn is not
  -- suspended it ends with a closed transcript, whatever the gate, the handlers, the result
  -- processor, the evaluator and the sink return, and if it is suspended it leaves the messages as
  -- they were. The results of a resumed turn must answer its calls.
  pub complete_assistant_turn-closes :
      (seal : Sealing) (evaluate : Evaluator O) (ls : LoopState) (assistant : Message)
      (recorded : Bool) (resumed : Option RegularTurn) (before : List Message)
      {frontier : List ToolUse}
      → ls.messages ≡ before ++ assistant ∷ []
      → inspect_transcript before ≡ ok []
      → inspect_transcript ls.messages ≡ ok frontier
      → ResumesSound (get_tool_uses assistant) resumed
      → let (ls', outcome) =
          complete_assistant_turn o c seal evaluate ls assistant recorded resumed in
        (outcome.suspension ≡ none → inspect_transcript ls'.messages ≡ ok [])
        × (is_some outcome.suspension ≡ true → ls'.messages ≡ ls.messages)
  unfolding complete_assistant_turn inspect_transcript
  complete_assistant_turn-closes seal evaluate ls assistant recorded resumed before shape closed h
        s =
      let calls = get_tool_uses assistant in
      let output = check_output_tool c.output_tool_names calls in
      let opened : Opens calls ls.messages =
        rw shape (inspect_loop-opened before assistant closed (rw shape at h)) in
      let unique = (inspect_loop-IsScan zero start ls.messages opened start-IsScan).unique in
      let m = find_call_of_distinct calls unique in
      let ready = record_calls recorded calls ls in
      let same : ready.messages ≡ ls.messages = ground arith in
      let sound = regular_turn-Sound o c seal ready calls output resumed m s in
      let still_there = ap (λ k. k.0) (regular_turn-kept o c seal ready calls output resumed) in
      let (shut, still) =
        complete_with-Completes evaluate (regular_turn o c seal ready calls output resumed).0
          assistant calls (regular_turn o c seal ready calls output resumed).1
          (rw (still_there, same) opened) m sound in
      (λ e. rw (shut e), λ e. still e ∙ still_there ∙ same)
