-- ===== src/Permission/Gate/Writes.antt =====
-- The writes of the gate of harness/permission/capability.go, disposition by disposition.
use agentic.Prelude.{
  ℕ, zero, suc, ◌≡◌, refl, sym, ap, ◌∙◌, inl, inr, List, [], ◌∷◌, ◌++◌, Bool, true, false,
  if◌then◌else◌, set, length, length-append, arith, Bool-cases, Result-cases, String, some, ok, ◌⊎◌,
  append_assoc,
}
use agentic.Message.{ToolUse}
use agentic.Tools.{ToolDisposition, ToolBatchDecision, ToolDeferral}
use agentic.Permission.Gate.{
  Gate, Evaluated, resolve, is_execute, evaluate_call, evaluate_calls, write_all, has_deny, has_ask,
  denial, held, deferral_payload, apply_decisions, evaluate_batch,
}

abbrev pub rewrite_one :
    Gate → (Evaluated → ToolDisposition) → ℕ → ToolUse → ToolDisposition → ToolDisposition
rewrite_one gate write index call d =
    if is_execute d.kind then write (evaluate_call gate index call) else d

-- Each disposition that executes its call is replaced by what is written of it.
unfoldable pub rewrite_calls :
    Gate
    → (Evaluated → ToolDisposition)
    → ℕ
    → List ToolUse
    → List ToolDisposition
    → List ToolDisposition
rewrite_calls gate write index (call ∷ calls) (d ∷ ds) =
    rewrite_one gate write index call d ∷ rewrite_calls gate write (suc index) calls ds
rewrite_calls gate write index _ ds = ds

set-middle :
    (before : List ToolDisposition) (d e : ToolDisposition) (ds : List ToolDisposition)
    → set (before ++ d ∷ ds) (length before) e ≡ before ++ e ∷ ds
set-middle [] d e ds = refl
set-middle (b ∷ before) d e ds = ap (◌∷◌ b) (set-middle before d e ds)

evaluate_call-index :
    (gate : Gate) (index : ℕ) (call : ToolUse) → (evaluate_call gate index call).index ≡ index
unfolding evaluate_call
evaluate_call-index gate index call = elim (Result-cases (resolve gate call)) [
  | inl (request, e) ↦ rw e refl
  | inr (f, e) ↦ rw e refl
]

pub write_all-rewrite_calls :
    (gate : Gate) (write : Evaluated → ToolDisposition) (index : ℕ) (calls : List ToolUse)
    (before ds : List ToolDisposition)
    → length before ≡ index
    → write_all write (evaluate_calls gate index calls ds) (before ++ ds)
      ≡ before ++ rewrite_calls gate write index calls ds
unfolding write_all evaluate_calls rewrite_calls
write_all-rewrite_calls gate write index [] before ds n = refl
write_all-rewrite_calls gate write index (call ∷ calls) before [] n = refl
write_all-rewrite_calls gate write index (call ∷ calls) before (d ∷ ds) n =
    let go : (w : ToolDisposition)
        → write_all write (evaluate_calls gate (suc index) calls ds) (before ++ w ∷ ds)
          ≡ before ++ w ∷ rewrite_calls gate write (suc index) calls ds =
      λ w.
        ap (write_all write (evaluate_calls gate (suc index) calls ds))
          (sym (append_assoc before (w ∷ []) ds))
        ∙ (write_all-rewrite_calls gate write (suc index) calls (before ++ w ∷ []) ds
              (omega (arith, length-append before (w ∷ []), n))
            ∙ append_assoc before (w ∷ []) (rewrite_calls gate write (suc index) calls ds)) in
    elim (Bool-cases (is_execute d.kind)) [
      | inl runs ↦
          let placed =
            ap (λ k. set (before ++ d ∷ ds) k (write (evaluate_call gate index call)))
              (evaluate_call-index gate index call ∙ sym n)
            ∙ set-middle before d (write (evaluate_call gate index call)) ds in
          rw runs (
            ap (write_all write (evaluate_calls gate (suc index) calls ds)) placed
            ∙ go (write (evaluate_call gate index call)))
      | inr stays ↦ rw stays (go d)
    ]

-- The whole batch.
pub write_all-batch :
    (gate : Gate) (write : Evaluated → ToolDisposition) (calls : List ToolUse)
    (ds : List ToolDisposition)
    → write_all write (evaluate_calls gate zero calls ds) ds
      ≡ rewrite_calls gate write zero calls ds
write_all-batch gate write calls ds = write_all-rewrite_calls gate write zero calls [] ds refl

abbrev pub permission_deferral : String → ToolDeferral
permission_deferral payload = record { kind = "harness.permission.v1"; payload = payload }

-- The three ends of the gate: a denial, no objection, or a deferral.
abbrev pub Outcome : Gate → List ToolUse → ToolBatchDecision → ToolBatchDecision → Type 0
Outcome gate calls current next =
    ((has_deny (evaluate_calls gate zero calls current.calls) ≡ true)
      × (next ≡ record current {
        calls = rewrite_calls gate (denial gate.render) zero calls current.calls;
      }))
    ⊎ (((has_deny (evaluate_calls gate zero calls current.calls) ≡ false)
          × (has_ask (evaluate_calls gate zero calls current.calls) ≡ false)
          × (next ≡ current))
        ⊎ ((has_ask (evaluate_calls gate zero calls current.calls) ≡ true)
            × (payload : String) × (next ≡ record {
              calls = rewrite_calls gate held zero calls current.calls;
              deferral = some (permission_deferral payload);
            })))

abbrev waiting : List ToolDisposition → String → ToolBatchDecision
waiting ds payload = record { calls = ds; deferral = some (permission_deferral payload) }

apply_decisions-Outcome :
    (gate : Gate) (calls : List ToolUse) (current : ToolBatchDecision) {next : ToolBatchDecision}
    → apply_decisions gate (evaluate_calls gate zero calls current.calls) current ≡ ok next
    → Outcome gate calls current next
apply_decisions-Outcome gate calls current {next} h =
    let values = evaluate_calls gate zero calls current.calls in
    elim (Bool-cases (has_deny (evaluate_calls gate zero calls current.calls))) [
      | inl denied ↦
          let same : record current { calls = write_all (denial gate.render) values current.calls }
              ≡ next =
            ground arith in
          inl (
            denied,
            sym same
                ∙ ap (λ ds. record current { calls = ds })
                    (write_all-batch gate (denial gate.render) calls current.calls),
          )
      | inr clear ↦ elim (Bool-cases (has_ask (evaluate_calls gate zero calls current.calls))) [
        | inr quiet ↦ inr (inl (clear, quiet, ground arith))
        | inl asks ↦ elim (Result-cases (gate.encode (deferral_payload values))) [
          | inr (f, e) ↦ absurd (ground arith)
          | inl (payload, e) ↦
              let same : waiting (write_all held values current.calls) payload ≡ next =
                ground arith in
              inr (
                inr (
                  asks,
                  payload,
                  sym same
                      ∙ ap (λ ds. waiting ds payload)
                          (write_all-batch gate held calls current.calls),
                ))
        ]
      ]
    ]

pub evaluate_batch-Outcome :
    (gate : Gate) (ready : Bool) (calls : List ToolUse) (current : ToolBatchDecision)
    {next : ToolBatchDecision}
    → evaluate_batch gate ready calls current ≡ ok next
    → Outcome gate calls current next
unfolding evaluate_batch
evaluate_batch-Outcome gate true calls current h = apply_decisions-Outcome gate calls current h
evaluate_batch-Outcome gate false calls current h = cc
