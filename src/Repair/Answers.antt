-- ===== src/Repair/Answers.antt =====
-- The invariant of the loop of `Process` of harness/repair/repair.go, message by message.
use agentic.Prelude.{
  ℕ, zero, ◌+◌, ◌≡◌, refl, sym, ap, ◌∙◌, inl, inr, subst, String, List, [], ◌∷◌, ◌++◌, Option, none,
  some, true, false, ok, >>=-eq-ok, Bool-cases, Option-cases, is_empty, length, arith, append_assoc,
  append-nil,
}
use agentic.Message.{Message, Part, is_tool, is_assistant}
use agentic.Message.Parts.{get_tool_uses, get_tool_results, tool_results}
use agentic.Transcript.{start, check_ids, resolve_all, all_resolved, settle, inspect_loop}
use agentic.Transcript.Scans.{inspect_loop-append}
use agentic.Transcript.Admits.{Shut, Shut-plain}
use agentic.Repair.{
  FrontierMode, PendingCalls, Frontier, Projection, RepairError, close_open, make_room,
  opened_behind, open_behind, starts_before_deferred, start_frontier, Kept, keep_parts, open_calls,
  open_resolved, show_kept, after_results, show_answer, answer_frontier, pass_message,
}
use agentic.Repair.Frontiers.{
  IsOpen, IsProjection, IsOpen-all_resolved, close_open-Shut, opened_behind-IsOpen,
}
use agentic.Repair.Parts.{Keeps, keep_parts-Keeps, resolve_all_of_closed, inspect_message-kept}

-- The invariant of the loop.
abbrev pub IsSound : Projection → Type 0
IsSound work = IsProjection work.output work.open_frontier

make_room-IsSound :
    (refusal : RepairError) (mode : FrontierMode) (pending : PendingCalls) (work : Projection)
    {clear : Projection}
    → make_room refusal mode pending work ≡ ok clear
    → IsSound work
    → Shut clear.output
unfolding make_room
make_room-IsSound refusal mode pending work {clear} h v = elim (Option-cases work.open_frontier) [
  | inl e ↦
      let shape : work ≡ clear = ground arith in
      subst (λ w. Shut w.output) shape (subst (IsProjection work.output) e v)
  | inr (f, e) ↦
      let shape : close_open pending f work ≡ clear = ground arith in
      subst (λ w. Shut w.output) shape
        (close_open-Shut pending f work (subst (IsProjection work.output) e v))
]

nil_of_empty : {A : Type 0} (xs : List A) → is_empty xs ≡ true → xs ≡ []
nil_of_empty [] h = refl
nil_of_empty (x ∷ xs) h = cc

open_behind-IsSound :
    (i : ℕ) (m : Message) (clear : Projection) {next : Projection}
    → is_assistant m.role ≡ true
    → get_tool_results m ≡ []
    → is_empty (get_tool_uses m) ≡ false
    → Shut clear.output
    → open_behind i m clear ≡ ok next
    → IsSound next
unfolding open_behind
open_behind-IsSound i m clear {next} role results some_calls v h =
    elim (Option-cases (check_ids i [] (get_tool_uses m))) [
      | inl e ↦
          let shape : opened_behind m clear ≡ next = ground arith in
          subst IsSound shape (opened_behind-IsOpen i clear.output m v role results some_calls e)
      | inr (f, e) ↦ absurd (ground arith)
    ]

pub start_frontier-IsSound :
    (i : ℕ) (mode : FrontierMode) (pending : PendingCalls) (m : Message) (work : Projection)
    {next : Projection}
    → is_empty (get_tool_uses m) ≡ false
    → start_frontier i mode pending m work ≡ ok next
    → IsSound work
    → IsSound next
unfolding start_frontier
start_frontier-IsSound i mode pending m work {next} some_calls h v =
    elim (Bool-cases (is_assistant m.role)) [
      | inr other ↦ absurd (ground arith)
      | inl role ↦ elim (Bool-cases (is_empty (get_tool_results m))) [
        | inr some_results ↦ absurd (ground arith)
        | inl bare ↦
            let (clear, e, opened) =
              >>=-eq-ok (make_room (starts_before_deferred i) mode pending work) (open_behind i m)
                (sym (rw (role, bare, start_frontier) refl) ∙ h) in
            open_behind-IsSound i m clear role (nil_of_empty (get_tool_results m) bare) some_calls
              (make_room-IsSound _ mode pending work e v) opened
      ]
    ]

pub pass_message-IsSound :
    (i : ℕ) (mode : FrontierMode) (pending : PendingCalls) (m : Message) (work : Projection)
    {next : Projection}
    → get_tool_uses m ≡ []
    → get_tool_results m ≡ []
    → pass_message i mode pending m work ≡ ok next
    → IsSound work
    → IsSound next
unfolding pass_message
pass_message-IsSound i mode pending m work {next} uses results h v =
    let (clear, e, last) = >>=-eq-ok (make_room _ mode pending work) _ h in
    let shape : record {
      output = clear.output ++ m ∷ [];
      open_frontier = none;
      recently_resolved = [];
    }
        ≡ next =
      ground arith in
    subst IsSound shape (
      Shut-plain clear.output (m ∷ []) (make_room-IsSound _ mode pending work e v)
        ((uses, results), tt))

-- The shown part of an answer leaves the scan with the IDs that it resolved.
show_kept-scanned :
    (output : List Message) (f : Frontier) (m : Message) (parts : List Part) (more : List String)
    → IsOpen output f
    → is_tool m.role ≡ true
    → Keeps f.calls f.resolved (record { parts = parts; resolved = more })
    → inspect_loop zero start (output ++ show_kept m parts) ≡ ok (settle f.calls more)
unfolding inspect_loop settle resolve_all tool_results
show_kept-scanned output f m [] more v role (resolves, free) =
    let same : f.resolved ≡ more = ground arith in
    ap (inspect_loop zero start) (append-nil output)
    ∙ v.scanned
    ∙ rw (sym same, settle, IsOpen-all_resolved output f v) refl
show_kept-scanned output f m (part ∷ parts) more v role (resolves, free) =
    inspect_loop-append zero start output (show_kept m (part ∷ parts))
    ∙ rw
        (
          v.scanned,
          inspect_message-kept (zero + length output) f.calls f.resolved more
              (record m { content = part ∷ parts }) (tool_results (part ∷ parts)) refl role free
              v.some_calls (IsOpen-all_resolved output f v) resolves,
        )
        refl

after_results-IsSound :
    (output : List Message) (f : Frontier) (recent : List String) (m : Message) (kept : Kept)
    → IsOpen output f
    → is_tool m.role ≡ true
    → Keeps f.calls f.resolved kept
    → IsSound (after_results (some f) recent (output ++ show_kept m kept.parts) kept)
unfolding after_results settle
after_results-IsSound output f recent m kept v role keeps =
    let scanned = show_kept-scanned output f m kept.parts kept.resolved v role keeps in
    elim (Bool-cases (all_resolved kept.resolved f.calls)) [
      | inl all ↦ rw all (scanned ∙ rw (all, settle) refl)
      | inr left ↦ rw left (record {
        scanned = scanned ∙ rw (left, settle) refl;
        some_calls = v.some_calls;
        before = v.before;
        behind = v.behind ++ show_kept m kept.parts;
        split = rw (v.split) (append_assoc v.before v.behind (show_kept m kept.parts));
        index = v.index;
        shut = v.shut;
      })
    ]

-- Without an open frontier only parts without results are kept.
answered_closed :
    (output : List Message) (recent : List String) (m : Message) (parts : List Part)
    (more : List String)
    → Shut output
    → Keeps [] [] (record { parts = parts; resolved = more })
    → Shut (output ++ show_kept m parts)
answered_closed output recent m [] more e keeps = Shut-plain output [] e tt
answered_closed output recent m (part ∷ parts) more e (resolves, free) =
    Shut-plain output (show_kept m (part ∷ parts)) e
      ((free, resolve_all_of_closed [] (tool_results (part ∷ parts)) resolves), tt)

answered :
    (output : List Message) (open_frontier : Option Frontier) (recent : List String) (m : Message)
    (kept : Kept)
    → IsProjection output open_frontier
    → is_tool m.role ≡ true
    → Keeps (open_calls open_frontier) (open_resolved open_frontier) kept
    → IsSound (after_results open_frontier recent (output ++ show_kept m kept.parts) kept)
unfolding after_results
answered output none recent m kept e role keeps =
    answered_closed output recent m kept.parts kept.resolved e keeps
answered output (some f) recent m kept v role keeps =
    after_results-IsSound output f recent m kept v role keeps

pub answer_frontier-IsSound :
    (i : ℕ) (m : Message) (work : Projection) {next : Projection}
    → get_tool_uses m ≡ []
    → answer_frontier i m work ≡ ok next
    → IsSound work
    → IsSound next
unfolding answer_frontier
answer_frontier-IsSound i m work {next} bare h v = elim (Bool-cases (is_tool m.role)) [
  | inr other ↦ absurd (ground arith)
  | inl role ↦
      let (kept, e, last) =
        >>=-eq-ok
          (keep_parts (open_calls work.open_frontier) work.recently_resolved
            (open_resolved work.open_frontier) m.content)
          (λ kept. ok (show_answer m work kept)) (sym (rw (role, answer_frontier) refl) ∙ h) in
      let shape : show_answer m work kept ≡ next = ground arith in
      subst IsSound shape (
        answered work.output work.open_frontier work.recently_resolved m kept v role (
          keep_parts-Keeps (open_calls work.open_frontier) work.recently_resolved
            (open_resolved work.open_frontier) m.content e bare))
]
