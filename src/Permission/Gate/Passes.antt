-- ===== src/Permission/Gate/Passes.antt =====
-- What the gate of harness/permission/capability.go returns passes the check of tool_scheduler.go.
use agentic.Prelude.{
  ℕ, zero, suc, ◌≡◌, refl, sym, ap, inl, inr, subst, List, [], ◌∷◌, Bool, true, false, ◌||◌,
  is_empty, length, ok, >>=-eq-ok, arith, Bool-cases, Result-cases, eq_refl,
}
use agentic.Message.{ToolUse}
use agentic.Tools.{
  Rendering, ToolDisposition, ToolDispositionKind, ToolBatchDecision, execute, return, suspend,
  invalid,
}
use agentic.Tools.Gate.{
  check_disposition, check_dispositions, validate_tool_batch_decision,
  validate_tool_result_identity,
}
use agentic.Tools.Gate.Laws.{check_dispositions-true}
use agentic.Permission.Gate.{
  Gate, Evaluated, evaluate_call, evaluate_calls, is_execute, has_ask, denial, held, evaluate_batch,
  resolve,
}
use agentic.Permission.Gate.Writes.{rewrite_calls, Outcome, evaluate_batch-Outcome}

evaluate_call-call :
    (gate : Gate) (index : ℕ) (call : ToolUse) → (evaluate_call gate index call).call ≡ call
unfolding evaluate_call
evaluate_call-call gate index call = elim (Result-cases (resolve gate call)) [
  | inl (request, e) ↦ rw e refl
  | inr (f, e) ↦ rw e refl
]

-- The dispositions that the gate writes pass, one by one.
check_disposition-denial :
    (render : Rendering) (call : ToolUse) (value : Evaluated)
    → value.call ≡ call
    → check_disposition call return (denial render value) ≡ ok false
unfolding check_disposition validate_tool_result_identity
check_disposition-denial render call value same =
    subst (λ c. check_disposition c return (denial render value) ≡ ok false) same
      (rw
        (
          check_disposition,
          validate_tool_result_identity,
          eq_refl value.call.id,
          eq_refl value.call.name,
        )
        refl)

check_disposition-execute :
    (call : ToolUse) (kind : ToolDispositionKind) (d : ToolDisposition) {b : Bool}
    → is_execute kind ≡ true
    → check_disposition call kind d ≡ ok b
    → b ≡ false
unfolding check_disposition
check_disposition-execute call execute d runs h = ground arith
check_disposition-execute call return d runs h = cc
check_disposition-execute call suspend d runs h = cc
check_disposition-execute call invalid d runs h = cc

-- Denials in the place of executions leave the check's answer.
check_dispositions-denial :
    (gate : Gate) (index : ℕ) (waits : Bool) (calls : List ToolUse) (ds : List ToolDisposition)
    {b : Bool}
    → check_dispositions waits calls ds ≡ ok b
    → check_dispositions waits calls (rewrite_calls gate (denial gate.render) index calls ds) ≡ ok b
unfolding check_dispositions rewrite_calls
check_dispositions-denial gate index waits [] ds h = h
check_dispositions-denial gate index waits (call ∷ calls) [] h = h
check_dispositions-denial gate index waits (call ∷ calls) (d ∷ ds) h =
    let (one, e, rest) =
      >>=-eq-ok (check_disposition call d.kind d) (λ x. check_dispositions (waits || x) calls ds)
        h in
    elim (Bool-cases (is_execute d.kind)) [
      | inl runs ↦
          let bare = check_disposition-execute call d.kind d runs e in
          rw
            (
              runs,
              check_disposition-denial gate.render call (evaluate_call gate index call)
                  (evaluate_call-call gate index call),
            )
            (check_dispositions-denial gate (suc index) (waits || false) calls ds (rw bare at rest))
      | inr stays ↦
          rw (stays, e) (check_dispositions-denial gate (suc index) (waits || one) calls ds rest)
    ]

-- A scan that has met a suspension ends with one.
check_dispositions-waits :
    (calls : List ToolUse) (ds : List ToolDisposition) (b : Bool)
    → check_dispositions true calls ds ≡ ok b
    → b ≡ true
check_dispositions-waits calls ds true h = refl
check_dispositions-waits calls ds false h = absurd (check_dispositions-true calls ds h)

-- Suspensions in the place of executions pass too, and there is one if there was an execution.
check_dispositions-held :
    (gate : Gate) (index : ℕ) (waits before : Bool) (calls : List ToolUse)
    (ds : List ToolDisposition) {b : Bool}
    → check_dispositions before calls ds ≡ ok b
    → (c : Bool) × (check_dispositions waits calls (rewrite_calls gate held index calls ds) ≡ ok c)
      × (is_empty (evaluate_calls gate index calls ds) ≡ false → c ≡ true)
unfolding check_dispositions check_disposition rewrite_calls evaluate_calls
check_dispositions-held gate index waits before [] [] h = (waits, refl, λ some_value. cc)
check_dispositions-held gate index waits before [] (d ∷ ds) h = (waits, refl, λ some_value. cc)
check_dispositions-held gate index waits before (call ∷ calls) [] h =
    (waits, refl, λ some_value. cc)
check_dispositions-held gate index waits before (call ∷ calls) (d ∷ ds) h =
    let (one, e, rest) =
      >>=-eq-ok (check_disposition call d.kind d) (λ x. check_dispositions (before || x) calls ds)
        h in
    elim (Bool-cases (is_execute d.kind)) [
      | inl runs ↦
          let (c, passes, _) =
            check_dispositions-held gate (suc index) true (before || one) calls ds rest in
          let waits_on : (waits || true) ≡ true = ground arith in
          (
            c,
            rw (runs, waits_on) passes,
            λ _.
                check_dispositions-waits calls (rewrite_calls gate held (suc index) calls ds) c
                  passes,
          )
      | inr stays ↦
          let (c, passes, waiting) =
            check_dispositions-held gate (suc index) (waits || one) (before || one) calls ds rest in
          (c, rw (stays, e) passes, λ some_value. waiting (rw stays at some_value))
    ]

has_ask-some : (values : List Evaluated) → has_ask values ≡ true → is_empty values ≡ false
unfolding has_ask
has_ask-some [] h = cc
has_ask-some (value ∷ values) h = refl

length-rewrite_calls :
    (gate : Gate) (write : Evaluated → ToolDisposition) (index : ℕ) (calls : List ToolUse)
    (ds : List ToolDisposition)
    → length (rewrite_calls gate write index calls ds) ≡ length ds
unfolding rewrite_calls
length-rewrite_calls gate write index [] ds = refl
length-rewrite_calls gate write index (call ∷ calls) [] = refl
length-rewrite_calls gate write index (call ∷ calls) (d ∷ ds) =
    ap suc (length-rewrite_calls gate write (suc index) calls ds)

module _ (gate : Gate) (calls : List ToolUse) (current : ToolBatchDecision) where
  Outcome-passes :
      (next : ToolBatchDecision) {b : Bool}
      → validate_tool_batch_decision calls current ≡ ok b
      → Outcome gate calls current next
      → (c : Bool) × (validate_tool_batch_decision calls next ≡ ok c)
  unfolding validate_tool_batch_decision
  Outcome-passes next {b} h (inl (denied, same)) =
      let sized = length-rewrite_calls gate (denial gate.render) zero calls current.calls in
      elim (Result-cases (check_dispositions false calls current.calls)) [
        | inr (f, e) ↦ absurd (ground arith)
        | inl (waits, e) ↦
            let passes = check_dispositions-denial gate zero false calls current.calls e in
            (
              b,
              subst (λ x. validate_tool_batch_decision calls x ≡ ok b) (sym same)
                  (ground (arith, sized, passes)),
            )
      ]
  Outcome-passes next {b} h (inr (inl (clear, quiet, same))) = (b, rw same h)
  Outcome-passes next h (inr (inr (asks, payload, same))) =
      let sized = length-rewrite_calls gate held zero calls current.calls in
      elim (Result-cases (check_dispositions false calls current.calls)) [
        | inr (f, e) ↦ absurd (ground arith)
        | inl (waits, e) ↦
            let (c, passes, waiting) =
              check_dispositions-held gate zero false false calls current.calls e in
            let suspended = waiting (has_ask-some _ asks) in
            (
              true,
              subst (λ x. validate_tool_batch_decision calls x ≡ ok true) (sym same)
                  (ground (arith, sized, passes, suspended)),
            )
      ]

-- A decision that passes the check passes it still after the gate.
pub evaluate_batch-passes :
    (gate : Gate) (ready : Bool) (calls : List ToolUse) (current : ToolBatchDecision)
    {next : ToolBatchDecision} {b : Bool}
    → validate_tool_batch_decision calls current ≡ ok b
    → evaluate_batch gate ready calls current ≡ ok next
    → (c : Bool) × (validate_tool_batch_decision calls next ≡ ok c)
evaluate_batch-passes gate ready calls current {next} v h =
    Outcome-passes gate calls current next v (evaluate_batch-Outcome gate ready calls current h)
