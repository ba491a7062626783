-- ===== src/Repair/Same.antt =====
-- `Process` of harness/repair/repair.go on transcripts that `inspectTranscript` accepts.
use agentic.Prelude.{
  ℕ, zero, suc, ◌≡◌, refl, sym, ap, ◌∙◌, inl, inr, subst, List, [], ◌∷◌, ◌++◌, some, true, false,
  Result, ok, >>=-eq-ok, Option-cases, take, All, arith, append_assoc, append-nil,
}
use agentic.Message.{Message}
use agentic.Message.Parts.{get_tool_uses, get_tool_results}
use agentic.Faults.{Fault}
use agentic.Transcript.{Scan, start, inspect_message, inspect_loop, unresolved_calls}
use agentic.Repair.{
  clone_messages, FrontierMode, PendingCalls, Projection, nothing_read, is_preserve_deferred,
  synthetic_results, close_open, process_loop, same_pending, end_of_input, process,
  preserve_deferred_frontier,
}
use agentic.Repair.Steps.{HoldsResult, scan_of, Follows, process_as-Follows}

process_loop-Follows :
    (i : ℕ) (mode : FrontierMode) (pending : PendingCalls) (ms : List Message) (s : Scan) {t : Scan}
    (shown : List Message) (work : Projection)
    → All HoldsResult ms
    → inspect_loop i s ms ≡ ok t
    → Follows s shown work
    → (last : Projection) × (process_loop i mode pending work ms ≡ ok last)
      × Follows t (shown ++ ms) last
unfolding process_loop inspect_loop
process_loop-Follows i mode pending [] s {t} shown work holds h v =
    let same : s ≡ t = ground arith in
    (
      work,
      refl,
      subst (λ out. Follows t out work) (sym (append-nil shown))
          (subst (λ x. Follows x shown work) same v),
    )
process_loop-Follows i mode pending (m ∷ ms) s {t} shown work (hold, holds) h v =
    let (next_scan, e, rest) =
      >>=-eq-ok (inspect_message i s m) (λ x. inspect_loop (suc i) x ms) h in
    let (next, f, w) =
      process_as-Follows i mode pending m (get_tool_uses m) (get_tool_results m) s next_scan shown
        work refl refl hold e v in
    let (last, g, z) =
      process_loop-Follows (suc i) mode pending ms next_scan (shown ++ m ∷ []) next holds rest w in
    (last, rw f g, subst (λ out. Follows t out last) (append_assoc shown (m ∷ []) ms) z)

end_of_input-Follows :
    (mode : FrontierMode) (pending : PendingCalls) (s : Scan) (shown : List Message)
    (work : Projection)
    → is_preserve_deferred mode ≡ false
    → Follows s shown work
    → end_of_input mode pending work ≡ ok (shown ++ synthetic_results pending s.resolved s.frontier)
unfolding end_of_input close_open synthetic_results
end_of_input-Follows mode pending s shown work interrupted v =
    elim (Option-cases work.open_frontier) [
      | inl e ↦
          let scan : s ≡ start = v.same_scan ∙ ap scan_of e in
          rw (end_of_input, e, scan, v.same_output, append-nil shown) refl
      | inr (f, e) ↦
          let scan : s ≡ scan_of (some f) = v.same_scan ∙ ap scan_of e in
          rw (end_of_input, e, interrupted, scan, v.same_output) refl
    ]

clone_messages_same :
    (clone : List Message → Result Fault (List Message)) (ms : List Message)
    → clone ms ≡ ok ms
    → clone_messages clone ms ≡ ok ms
unfolding clone_messages
clone_messages_same clone [] h = refl
clone_messages_same clone (m ∷ ms) h = h

-- A projection that is not deferred shows an accepted transcript as it is, behind it a synthetic
-- result for each call that is left open.
pub process-accepted :
    (clone : List Message → Result Fault (List Message)) (ms : List Message) (mode : FrontierMode)
    (pending : PendingCalls) {s : Scan}
    → clone ms ≡ ok ms
    → is_preserve_deferred mode ≡ false
    → All HoldsResult ms
    → inspect_loop zero start ms ≡ ok s
    → process clone ms mode pending ≡ ok (ms ++ synthetic_results pending s.resolved s.frontier)
unfolding process
process-accepted clone ms mode pending {s} copied interrupted holds h =
    let cloned = clone_messages_same clone ms copied in
    let (last, e, v) =
      process_loop-Follows zero mode pending ms start [] nothing_read holds h
        (record { same_scan = refl; calls_open = tt; same_output = refl }) in
    rw (cloned, e) (end_of_input-Follows mode pending s ms last interrupted v)

end_of_input-deferred :
    (pending : PendingCalls) (s : Scan) (shown : List Message) (work : Projection)
    → same_pending (unresolved_calls s.resolved s.frontier) pending.calls ≡ true
    → Follows s shown work
    → (out : List Message) × (end_of_input preserve_deferred_frontier pending work ≡ ok out)
unfolding end_of_input
end_of_input-deferred pending s shown work matches v = elim (Option-cases work.open_frontier) [
  | inl e ↦ (work.output, rw (end_of_input, e) refl)
  | inr (f, e) ↦
      let scan : s ≡ scan_of (some f) = v.same_scan ∙ ap scan_of e in
      let same : same_pending (unresolved_calls f.resolved f.calls) pending.calls ≡ true =
        subst (λ x. same_pending (unresolved_calls x.resolved x.frontier) pending.calls ≡ true) scan
          matches in
      (take f.output_index work.output, rw (end_of_input, e, same) refl)
]

-- An accepted transcript whose open calls are those pending is not refused as deferred.
pub process-deferred :
    (clone : List Message → Result Fault (List Message)) (ms : List Message)
    (pending : PendingCalls) {s : Scan}
    → clone ms ≡ ok ms
    → All HoldsResult ms
    → inspect_loop zero start ms ≡ ok s
    → same_pending (unresolved_calls s.resolved s.frontier) pending.calls ≡ true
    → (out : List Message) × (process clone ms preserve_deferred_frontier pending ≡ ok out)
unfolding process
process-deferred clone ms pending {s} copied holds h matches =
    let cloned = clone_messages_same clone ms copied in
    let (last, e, v) =
      process_loop-Follows zero preserve_deferred_frontier pending ms start [] nothing_read holds h
        (record { same_scan = refl; calls_open = tt; same_output = refl }) in
    let (out, f) = end_of_input-deferred pending s ms last matches v in (out, rw (cloned, e) f)
