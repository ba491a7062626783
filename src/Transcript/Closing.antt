-- ===== src/Transcript/Closing.antt =====
-- The results that follow an open frontier, for `inspectTranscript` of transcript.go.
use agentic.Prelude.{
  ℕ, suc, ◌≡◌, refl, sym, ap, ◌∙◌, inl, inr, subst, String, List, [], ◌∷◌, map, none, some, true,
  false, eq_iff, ok, Bool-cases, contains, distinct, is_empty, arith,
}
use agentic.Message.{Message, ToolUse, ToolResult}
use agentic.Message.Build.{new_tool_result_message_for}
use agentic.Message.Parts.{tool_uses, tool_results}
use agentic.Transcript.{
  start, find_call, resolve_one, resolve_all, all_resolved, unresolved_calls, open_frontier, settle,
  take_results, inspect_message, inspect_loop,
}
use agentic.Transcript.Scans.{ids}

abbrev pub result_message : ToolResult → Message
result_message r = new_tool_result_message_for r.tool_use_id r.name r.content r.is_error

-- One result for each call, in order, with its ID and name.
abbrev pub AnswerAll : List ToolUse → List ToolResult → Type 0
AnswerAll [] [] = Unit {0}
AnswerAll (call ∷ calls) (r ∷ results) =
    (r.tool_use_id ≡ call.id) × (r.name ≡ call.name) × AnswerAll calls results
AnswerAll _ _ = ⊥

pub find_call_of_absent :
    (k : String) (calls : List ToolUse) → contains k (ids calls) ≡ false → find_call k calls ≡ none
unfolding find_call contains
find_call_of_absent k [] h = refl
find_call_of_absent k (call ∷ calls) h = ground (arith, find_call_of_absent k calls)

unresolved_calls_of_absent :
    (k : String) (resolved : List String) (calls : List ToolUse)
    → contains k (ids calls) ≡ false
    → unresolved_calls (k ∷ resolved) calls ≡ unresolved_calls resolved calls
unfolding unresolved_calls contains
unresolved_calls_of_absent k resolved [] h = refl
unresolved_calls_of_absent k resolved (call ∷ calls) h =
    ground (arith, eq_iff k call.id, eq_iff call.id k, unresolved_calls_of_absent k resolved calls)

pub unresolved_calls-nil :
    (resolved : List String) (calls : List ToolUse)
    → unresolved_calls resolved calls ≡ []
    → all_resolved resolved calls ≡ true
unfolding unresolved_calls all_resolved
unresolved_calls-nil resolved [] h = refl
unresolved_calls-nil resolved (call ∷ calls) h = ground (arith, unresolved_calls-nil resolved calls)

-- The first unresolved call: it is not resolved, the frontier finds it by its ID, the frontier is
-- not complete, and a result for it leaves the others.
module _ (resolved : List String) (first : ToolUse) (rest : List ToolUse) where
  first-contains :
      (calls : List ToolUse)
      → unresolved_calls resolved calls ≡ first ∷ rest
      → contains first.id resolved ≡ false
  unfolding unresolved_calls
  first-contains [] h = cc
  first-contains (call ∷ calls) h = elim (Bool-cases (contains call.id resolved)) [
    | inl m ↦ first-contains calls (ground arith)
    | inr m ↦ let e : call ≡ first = ground arith in ap (λ c. contains c.id resolved) (sym e) ∙ m
  ]

  first-all_resolved :
      (calls : List ToolUse)
      → unresolved_calls resolved calls ≡ first ∷ rest
      → all_resolved resolved calls ≡ false
  unfolding unresolved_calls all_resolved
  first-all_resolved [] h = cc
  first-all_resolved (call ∷ calls) h = ground (arith, first-all_resolved calls)

  first-find_call :
      (calls : List ToolUse)
      → unresolved_calls resolved calls ≡ first ∷ rest
      → distinct (ids calls) ≡ true
      → find_call first.id calls ≡ some first
  unfolding unresolved_calls find_call distinct
  first-find_call [] h d = cc
  first-find_call (call ∷ calls) h d = elim (Bool-cases (contains call.id resolved)) [
    | inl m ↦ ground (arith, first-find_call calls)
    | inr m ↦
        let e : call ≡ first = ground arith in
        subst (λ c. find_call c.id (call ∷ calls) ≡ some c) e
          (ground (arith, find_call_of_absent call.id calls, eq_iff call.id call.id))
  ]

  first-unresolved_calls :
      (calls : List ToolUse)
      → unresolved_calls resolved calls ≡ first ∷ rest
      → distinct (ids calls) ≡ true
      → unresolved_calls (first.id ∷ resolved) calls ≡ rest
  unfolding unresolved_calls distinct contains
  first-unresolved_calls [] h d = cc
  first-unresolved_calls (call ∷ calls) h d = elim (Bool-cases (contains call.id resolved)) [
    | inl m ↦ ground (arith, first-unresolved_calls calls)
    | inr m ↦
        let e : call ≡ first = ground arith in
        ground (arith, eq_iff call.id call.id, unresolved_calls_of_absent call.id resolved calls)
  ]

-- Scanning one result message.
inspect_message-result :
    (i : ℕ) (frontier : List ToolUse) (resolved : List String) (call : ToolUse) (r : ToolResult)
    → is_empty frontier ≡ false
    → find_call r.tool_use_id frontier ≡ some call
    → contains r.tool_use_id resolved ≡ false
    → r.name ≡ call.name
    → inspect_message i (record { frontier = frontier; resolved = resolved }) (result_message r)
      ≡ ok (settle frontier (r.tool_use_id ∷ resolved))
unfolding inspect_message open_frontier take_results resolve_all resolve_one tool_uses tool_results
inspect_message-result i frontier resolved call r open_ found fresh named =
    ground (arith, eq_iff r.name call.name)

is_empty_of_first :
    (resolved : List String) (frontier : List ToolUse) {first : ToolUse} {rest : List ToolUse}
    → unresolved_calls resolved frontier ≡ first ∷ rest
    → is_empty frontier ≡ false
unfolding unresolved_calls
is_empty_of_first resolved [] h = cc
is_empty_of_first resolved (call ∷ calls) h = refl

-- The scan after the first unresolved call has its result.
inspect_message-first :
    (i : ℕ) (frontier : List ToolUse) (resolved : List String) (first : ToolUse)
    (rest : List ToolUse) (r : ToolResult)
    → distinct (ids frontier) ≡ true
    → unresolved_calls resolved frontier ≡ first ∷ rest
    → r.tool_use_id ≡ first.id
    → r.name ≡ first.name
    → inspect_message i (record { frontier = frontier; resolved = resolved }) (result_message r)
      ≡ ok (settle frontier (first.id ∷ resolved))
inspect_message-first i frontier resolved first rest r unique h same named =
    inspect_message-result i frontier resolved first r (is_empty_of_first resolved frontier h)
      (rw same (first-find_call resolved first rest frontier h unique))
      (rw same (first-contains resolved first rest frontier h)) named
    ∙ ap (λ k. ok (settle frontier (k ∷ resolved))) same

-- Results for all the open calls of a frontier with distinct IDs, in order and with the IDs and
-- names of the calls, close it.
pub inspect_loop-close :
    (i : ℕ) (frontier : List ToolUse) (resolved : List String) (first : ToolUse)
    (rest : List ToolUse) (results : List ToolResult)
    → distinct (ids frontier) ≡ true
    → unresolved_calls resolved frontier ≡ first ∷ rest
    → AnswerAll (first ∷ rest) results
    → inspect_loop i
        (record { frontier = frontier; resolved = resolved })
        (map result_message results)
      ≡ ok start
unfolding inspect_loop settle
inspect_loop-close i frontier resolved first rest [] unique h answers = absurd answers
inspect_loop-close i frontier resolved first [] (r ∷ []) unique h (same, named, answers) = rw (
  inspect_message-first i frontier resolved first [] r unique h same named,
  settle,
  unresolved_calls-nil (first.id ∷ resolved) frontier
      (first-unresolved_calls resolved first [] frontier h unique),
)
inspect_loop-close i frontier resolved first [] (r ∷ q ∷ results) unique h (same, named, answers) =
    absurd answers
inspect_loop-close i frontier resolved first (next ∷ rest) (r ∷ results) unique h answers =
    let left = first-unresolved_calls resolved first (next ∷ rest) frontier h unique in
    rw
      (
        inspect_message-first i frontier resolved first (next ∷ rest) r unique h answers.0
            answers.1,
        settle,
        first-all_resolved (first.id ∷ resolved) next rest frontier left,
      )
      (inspect_loop-close (suc i) frontier (first.id ∷ resolved) next rest results unique left
        answers.2)
