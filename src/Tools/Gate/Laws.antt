-- ===== src/Tools/Gate/Laws.antt =====
-- The checks of tool_scheduler.go on decisions, identities and projections.
use agentic.Prelude.{
  ◌≡◌, refl, ◌≢◌, ◌⊎◌, inl, inr, String, true, false, ◌==◌, eq_iff, Option, none, some, List, [],
  ◌∷◌, ok, length, length-map, Option-cases, Result-cases, arith, is_some,
}
use agentic.Message.{ToolUse}
use agentic.Faults.{Fault}
use agentic.Tools.{
  Rendering, ToolExecutionResult, ToolDisposition, ToolDispositionKind, ToolBatchDecision, execute,
  return, suspend, invalid, Answers, make_tool_result_error, ToolDeferral,
}
use agentic.Tools.Gate.{
  validate_tool_result_identity, check_disposition, check_dispositions,
  validate_tool_batch_decision, allow_all, Processor, check_projected, project_tool_result,
  rejected, run_call,
}

pub validate_tool_result_identity-Answers :
    (call : ToolUse) (result : ToolExecutionResult)
    → validate_tool_result_identity call result ≡ none
    → Answers call result
unfolding validate_tool_result_identity
validate_tool_result_identity-Answers call result h =
    ground (arith, eq_iff result.tool_use_id call.id, eq_iff result.tool_name call.name)

pub Answers-validate_tool_result_identity :
    (call : ToolUse) (result : ToolExecutionResult)
    → Answers call result
    → validate_tool_result_identity call result ≡ none
unfolding validate_tool_result_identity
Answers-validate_tool_result_identity call result h =
    ground (arith, eq_iff result.tool_use_id call.id, eq_iff result.tool_name call.name)

pub make_tool_result_error-Answers :
    (call : ToolUse) (note : String) (cause : Option Fault)
    → Answers call (make_tool_result_error call note cause)
unfolding make_tool_result_error
make_tool_result_error-Answers call note cause = (refl, refl)

-- What a rejected projection and an accepted one have in common.
abbrev pub Truthful : ToolUse → ToolExecutionResult → ToolExecutionResult → Type 0
Truthful call result projected =
    Answers call projected
    × (result.is_error ≡ true → projected.is_error ≡ true)
    × (is_some result.error ≡ true → is_some projected.error ≡ true)

rejected-Truthful :
    (call : ToolUse) (result : ToolExecutionResult) (note : String) (fault : Fault)
    → Truthful call result (rejected call note fault).0
unfolding make_tool_result_error
rejected-Truthful call result note fault = ((refl, refl), λ _. refl, λ _. refl)

check_projected-Truthful :
    (call : ToolUse) (result projected : ToolExecutionResult)
    → Truthful call result (check_projected call result projected).0
unfolding check_projected make_tool_result_error
check_projected-Truthful call result projected =
    ground (arith, validate_tool_result_identity-Answers call projected)

-- Whatever the handler and the processor return, the projected result carries the call's ID and
-- name; an error stays an error, and a fault is not dropped.
pub project_tool_result-Truthful :
    (render : Rendering) (processor : Option Processor) (call : ToolUse)
    (result : ToolExecutionResult)
    → Truthful call result (project_tool_result render processor call result).0
unfolding project_tool_result
project_tool_result-Truthful render processor call result =
    elim (Option-cases (validate_tool_result_identity call result)) [
      | inl e ↦ elim (Option-cases processor) [
        | inl p ↦
            rw (e, p, project_tool_result)
              (validate_tool_result_identity-Answers call result e, λ h. h, λ h. h)
        | inr (run, p) ↦ elim (Result-cases (run call result)) [
          | inl (projected, q) ↦
              rw (e, p, q, project_tool_result) (check_projected-Truthful call result projected)
          | inr (f, q) ↦ rw (e, p, q, project_tool_result) (rejected-Truthful call result _ _)
        ]
      ]
      | inr (f, e) ↦ rw (e, project_tool_result) (rejected-Truthful call result _ _)
    ]

-- A disposition that lets the batch go on: execute, or return a result that answers the call.
abbrev pub Resolves : ToolUse → ToolDisposition → Type 0
Resolves call d =
    ((d.kind ≡ execute) × (d.result ≡ none))
    ⊎ ((r : ToolExecutionResult) × (d.kind ≡ return) × (d.result ≡ some r) × Answers call r)

abbrev pub ResolveAll : List ToolUse → List ToolDisposition → Type 0
ResolveAll [] [] = Unit {0}
ResolveAll (call ∷ calls) (d ∷ ds) = Resolves call d × ResolveAll calls ds
ResolveAll _ _ = ⊥

check_disposition-Resolves :
    (call : ToolUse) (kind : ToolDispositionKind) (d : ToolDisposition)
    → d.kind ≡ kind
    → check_disposition call kind d ≡ ok false
    → Resolves call d
unfolding check_disposition
check_disposition-Resolves call execute d k h = inl (k, ground arith)
check_disposition-Resolves call return d k h = elim (Option-cases d.result) [
  | inl e ↦ absurd (ground arith)
  | inr (r, e) ↦ inr (r, k, e, validate_tool_result_identity-Answers call r (ground arith))
]
check_disposition-Resolves call suspend d k h = absurd (ground arith)
check_disposition-Resolves call invalid d k h = absurd (ground arith)

pub check_dispositions-true :
    (calls : List ToolUse) (ds : List ToolDisposition) → check_dispositions true calls ds ≢ ok false
unfolding check_dispositions
check_dispositions-true [] ds h = cc
check_dispositions-true (call ∷ calls) [] h = cc
check_dispositions-true (call ∷ calls) (d ∷ ds) h =
    elim (Result-cases (check_disposition call d.kind d)) [
      | inl (b, e) ↦ check_dispositions-true calls ds (rw e at h)
      | inr (f, e) ↦ cc
    ]

check_dispositions-ResolveAll :
    (calls : List ToolUse) (ds : List ToolDisposition)
    → length ds ≡ length calls
    → check_dispositions false calls ds ≡ ok false
    → ResolveAll calls ds
unfolding check_dispositions
check_dispositions-ResolveAll [] [] n h = tt
check_dispositions-ResolveAll [] (d ∷ ds) n h = omega arith
check_dispositions-ResolveAll (call ∷ calls) [] n h = omega arith
check_dispositions-ResolveAll (call ∷ calls) (d ∷ ds) n h =
    elim (Result-cases (check_disposition call d.kind d)) [
      | inl (true, e) ↦ absurd (check_dispositions-true calls ds (rw e at h))
      | inl (false, e) ↦ (
        check_disposition-Resolves call d.kind d refl e,
        check_dispositions-ResolveAll calls ds (omega arith) (rw e at h),
      )
      | inr (f, e) ↦ cc
    ]

-- A decision that passes without a suspension has one disposition for each call, in order, each
-- executing the call or returning a result that answers it, and it names no deferral; one that
-- passes with a suspension names a deferral of a non-empty kind.
pub validate_tool_batch_decision_sound :
    (calls : List ToolUse) (decision : ToolBatchDecision)
    → (validate_tool_batch_decision calls decision ≡ ok false
        → ResolveAll calls decision.calls × (decision.deferral ≡ none))
      × (validate_tool_batch_decision calls decision ≡ ok true
          → (deferral : ToolDeferral) × (decision.deferral ≡ some deferral)
            × ((deferral.kind == "") ≡ false))
unfolding validate_tool_batch_decision
validate_tool_batch_decision_sound calls decision = (
  λ h. (
    check_dispositions-ResolveAll calls decision.calls (ground arith) (ground arith),
    ground arith,
  ),
  λ h. elim (Option-cases decision.deferral) [
    | inl e ↦ absurd (ground arith)
    | inr (deferral, e) ↦ (deferral, e, ground arith)
  ],
)

check_dispositions-allow_all :
    (calls : List ToolUse) → check_dispositions false calls (allow_all calls).calls ≡ ok false
unfolding check_dispositions check_disposition allow_all
check_dispositions-allow_all [] = refl
check_dispositions-allow_all (call ∷ calls) = check_dispositions-allow_all calls

-- The gate that stands in for none lets every batch run.
pub validate_tool_batch_decision-allow_all :
    (calls : List ToolUse) → validate_tool_batch_decision calls (allow_all calls) ≡ ok false
unfolding validate_tool_batch_decision allow_all
validate_tool_batch_decision-allow_all calls =
    ground (arith, check_dispositions-allow_all calls, length-map (λ (_ : ToolUse). run_call) calls)
