-- ===== src/Permission/Gate/Allows.antt =====
-- The gate of harness/permission/capability.go lets only allowed calls execute.
use agentic.Prelude.{
  ℕ, zero, suc, ◌≡◌, refl, sym, ap, ◌∙◌, inl, inr, subst, List, [], ◌∷◌, Bool, true, false, ◌||◌,
  some, Result, ok, err, arith, Bool-cases, Result-cases,
}
use agentic.Message.{ToolUse}
use agentic.Faults.{Fault}
use agentic.Tools.{ToolDisposition, ToolBatchDecision}
use agentic.Permission.{
  Decision, decision_allow, decision_deny, Rule, Policy, PermissionRequest, is_known, evaluate,
  new_policy, decision_ask, decision_invalid, other_decision,
}
use agentic.Permission.Decided.{new_policy-evaluate}
use agentic.Permission.Gate.{
  Gate, Evaluated, resolve, evaluate_call, evaluate_calls, is_execute, is_deny, is_ask, has_deny,
  has_ask, denial, held, evaluate_batch,
}
use agentic.Permission.Gate.Writes.{rewrite_calls, Outcome, evaluate_batch-Outcome}

-- The policy's answer on a call; a call whose effect is not resolved is denied.
abbrev pub decided : Gate → Result Fault PermissionRequest → Decision
decided gate (err e) = decision_deny
decided gate (ok request) = evaluate gate.matcher gate.policy request

-- Each call that its disposition executes is allowed.
abbrev pub OnlyAllowed : Gate → List ToolUse → List ToolDisposition → Type 0
OnlyAllowed gate (call ∷ calls) (d ∷ ds) =
    (is_execute d.kind ≡ true → decided gate (resolve gate call) ≡ decision_allow)
    × OnlyAllowed gate calls ds
OnlyAllowed gate _ _ = Unit {0}

evaluate_call-decided :
    (gate : Gate) (index : ℕ) (call : ToolUse)
    → (evaluate_call gate index call).decision ≡ decided gate (resolve gate call)
unfolding evaluate_call
evaluate_call-decided gate index call = elim (Result-cases (resolve gate call)) [
  | inl (request, e) ↦ rw e refl
  | inr (f, e) ↦ rw e refl
]

-- What is written over the executed calls executes none.
rewrite_calls-OnlyAllowed :
    (gate : Gate) (write : Evaluated → ToolDisposition) (index : ℕ) (calls : List ToolUse)
    (ds : List ToolDisposition)
    → ((value : Evaluated) → is_execute (write value).kind ≡ false)
    → OnlyAllowed gate calls (rewrite_calls gate write index calls ds)
unfolding rewrite_calls
rewrite_calls-OnlyAllowed gate write index [] [] stops = tt
rewrite_calls-OnlyAllowed gate write index [] (d ∷ ds) stops = tt
rewrite_calls-OnlyAllowed gate write index (call ∷ calls) [] stops = tt
rewrite_calls-OnlyAllowed gate write index (call ∷ calls) (d ∷ ds) stops =
    elim (Bool-cases (is_execute d.kind)) [
      | inl runs ↦ rw runs (
        (λ runs_still. cc (stops (evaluate_call gate index call), runs_still)),
        rewrite_calls-OnlyAllowed gate write (suc index) calls ds stops,
      )
      | inr stays ↦ rw stays (
        (λ runs_still. cc (stays, runs_still)),
        rewrite_calls-OnlyAllowed gate write (suc index) calls ds stops,
      )
    ]

allowed_of_known :
    (d : Decision) → is_known d ≡ true → is_deny d ≡ false → is_ask d ≡ false → d ≡ decision_allow
allowed_of_known decision_allow k n a = refl
allowed_of_known decision_ask k n a = cc
allowed_of_known decision_deny k n a = cc
allowed_of_known decision_invalid k n a = cc
allowed_of_known (other_decision x) k n a = cc

module _ (gate : Gate) where
  abbrev Known : Type 0
  Known =
      (request : PermissionRequest) → is_known (evaluate gate.matcher gate.policy request) ≡ true

  decided-known : (r : Result Fault PermissionRequest) → Known → is_known (decided gate r) ≡ true
  decided-known (err e) known = refl
  decided-known (ok request) known = known request

  -- Nothing denied and nothing asked: what executes is allowed.
  unchanged-OnlyAllowed :
      (index : ℕ) (calls : List ToolUse) (ds : List ToolDisposition)
      → Known
      → has_deny (evaluate_calls gate index calls ds) ≡ false
      → has_ask (evaluate_calls gate index calls ds) ≡ false
      → OnlyAllowed gate calls ds
  unfolding evaluate_calls has_deny has_ask
  unchanged-OnlyAllowed index [] [] known n a = tt
  unchanged-OnlyAllowed index [] (d ∷ ds) known n a = tt
  unchanged-OnlyAllowed index (call ∷ calls) [] known n a = tt
  unchanged-OnlyAllowed index (call ∷ calls) (d ∷ ds) known n a =
      elim (Bool-cases (is_execute d.kind)) [
        | inl runs ↦
            let n_all : (is_deny (evaluate_call gate index call).decision
                  || has_deny (evaluate_calls gate (suc index) calls ds))
                ≡ false =
              rw runs at n in
            let a_all : (is_ask (evaluate_call gate index call).decision
                  || has_ask (evaluate_calls gate (suc index) calls ds))
                ≡ false =
              rw runs at a in
            (
              (λ _.
                  allowed_of_known (decided gate (resolve gate call))
                    (decided-known (resolve gate call) known)
                    (ap is_deny (sym (evaluate_call-decided gate index call)) ∙ ground arith)
                    (ap is_ask (sym (evaluate_call-decided gate index call)) ∙ ground arith)),
              unchanged-OnlyAllowed (suc index) calls ds known (ground arith) (ground arith),
            )
        | inr stays ↦ (
          (λ runs. cc (stays, runs)),
          unchanged-OnlyAllowed (suc index) calls ds known (rw stays at n) (rw stays at a),
        )
      ]

  Outcome-OnlyAllowed :
      (calls : List ToolUse) (current next : ToolBatchDecision)
      → Known
      → Outcome gate calls current next
      → OnlyAllowed gate calls next.calls
  Outcome-OnlyAllowed calls current next known (inl (denied, same)) =
      subst (λ x. OnlyAllowed gate calls x.calls) (sym same)
        (rewrite_calls-OnlyAllowed gate (denial gate.render) zero calls current.calls
          (λ value. refl))
  Outcome-OnlyAllowed calls current next known (inr (inl (clear, quiet, same))) =
      subst (λ x. OnlyAllowed gate calls x.calls) (sym same)
        (unchanged-OnlyAllowed zero calls current.calls known clear quiet)
  Outcome-OnlyAllowed calls current next known (inr (inr (asks, payload, same))) =
      subst (λ x. OnlyAllowed gate calls x.calls) (sym same)
        (rewrite_calls-OnlyAllowed gate held zero calls current.calls (λ value. refl))

-- With a policy that `New` made, every call that is still executed after the gate is one whose
-- effect was resolved and allowed by the policy.
pub evaluate_batch-OnlyAllowed :
    (gate : Gate) (ready : Bool) (calls : List ToolUse) (current : ToolBatchDecision)
    (fallback : Decision) (rules : List Rule) {policy : Policy} {next : ToolBatchDecision}
    → new_policy gate.matcher fallback rules ≡ ok policy
    → gate.policy ≡ some policy
    → evaluate_batch gate ready calls current ≡ ok next
    → OnlyAllowed gate calls next.calls
evaluate_batch-OnlyAllowed gate ready calls current fallback rules {policy} {next} made installed
      h =
    let answers = new_policy-evaluate gate.matcher fallback rules made in
    let known : Known gate = λ request. rw installed (answers.1 request) in
    Outcome-OnlyAllowed gate calls current next known
      (evaluate_batch-Outcome gate ready calls current h)
