-- ===== src/Permission/Gate.antt =====
-- harness/permission/capability.go: the gate that applies a policy to a batch of calls.
-- The registry's effect resolvers, the encoder of the payload and the text of an error are
-- parameters. The gate is given one disposition for each call.
pub mod Writes
pub mod Allows
pub mod Passes
use Prim.Native.String.{◌++◌ as append}
use agentic.Prelude.{
  ℕ, zero, suc, String, List, [], ◌∷◌, Option, none, some, Bool, true, false, not, ◌&&◌, ◌||◌, ◌==◌,
  Result, ok, err, ◌>>=◌, if◌then◌else◌, map, set,
}
use agentic.Message.{ToolUse}
use agentic.Faults.{Fault, failure, wrapped}
use agentic.Tools.{
  Rendering, text, ToolExecutionResult, ToolDispositionKind, execute, return, suspend,
  ToolDisposition, ToolBatchDecision,
}
use agentic.Permission.{
  Decision, decision_deny, decision_ask, CanonicalResource, PermissionRequest, Policy, Matcher,
  evaluate,
}

-- `Effect` of harness/capability/capability.go.
pub record Effect : Type 0 where
  pub capability : String
  pub action : String
  pub resource : CanonicalResource

pub record DeferredRequest : Type 0 where
  pub call_id : String
  pub request : PermissionRequest

-- The batch's fields and the requests of `deferralPayload`.
pub record DeferralPayload : Type 0 where
  pub version : ℕ
  pub required_resolution_ids : List String
  pub pre_allowed_call_ids : List String
  pub requests : List DeferredRequest

-- The gate with what it calls.
pub record Gate : Type 0 where
  pub policy : Option Policy
  pub effect_resolver : String → Option (ToolUse → Result Fault Effect)
  pub matcher : Matcher
  pub encode : DeferralPayload → Result Fault String
  pub render : Rendering

pub record Evaluated : Type 0 where
  pub index : ℕ
  pub call : ToolUse
  pub request : PermissionRequest
  pub decision : Decision
  pub error : Option Fault

abbrev pub is_valid : CanonicalResource → Bool
is_valid resource = not (resource.scheme == "") && not (resource.id == "")

abbrev pub capability_resource : String → String → CanonicalResource
capability_resource scheme id = record { scheme = scheme; id = id; display = id }

abbrev pub request_of_effect : Effect → Result Fault PermissionRequest
request_of_effect effect =
    if effect.capability == "" || effect.action == "" || not (is_valid effect.resource)
    then err (failure "effect resolver returned an incomplete canonical effect")
    else ok (record {
      capability = effect.capability;
      action = effect.action;
      canonical_resource = effect.resource;
    })

unfoldable pub resolve : Gate → ToolUse → Result Fault PermissionRequest
resolve gate call = elim (gate.effect_resolver call.name) [
  | none ↦ ok (record {
    capability = "tool";
    action = call.name;
    canonical_resource = capability_resource "tool" call.name;
  })
  | some resolver ↦ resolver call >>= request_of_effect
]

abbrev no_request : PermissionRequest
no_request = record {
  capability = "";
  action = "";
  canonical_resource = record { scheme = ""; id = ""; display = "" };
}

-- An effect that is not resolved is denied.
abbrev pub evaluated_as : Gate → ℕ → ToolUse → Result Fault PermissionRequest → Evaluated
evaluated_as gate index call (err e) = record {
  index = index;
  call = call;
  request = no_request;
  decision = decision_deny;
  error = some e;
}
evaluated_as gate index call (ok request) = record {
  index = index;
  call = call;
  request = request;
  decision = evaluate gate.matcher gate.policy request;
  error = none;
}

unfoldable pub evaluate_call : Gate → ℕ → ToolUse → Evaluated
evaluate_call gate index call = evaluated_as gate index call (resolve gate call)

abbrev pub is_execute : ToolDispositionKind → Bool
is_execute execute = true
is_execute _ = false

-- The first loop: the calls that the batch would execute.
unfoldable pub evaluate_calls : Gate → ℕ → List ToolUse → List ToolDisposition → List Evaluated
evaluate_calls gate index (call ∷ calls) (d ∷ ds) =
    let rest = evaluate_calls gate (suc index) calls ds in
    if is_execute d.kind then evaluate_call gate index call ∷ rest else rest
evaluate_calls gate index _ _ = []

abbrev pub is_deny : Decision → Bool
is_deny decision_deny = true
is_deny _ = false

abbrev pub is_ask : Decision → Bool
is_ask decision_ask = true
is_ask _ = false

unfoldable pub has_deny : List Evaluated → Bool
has_deny [] = false
has_deny (value ∷ values) = is_deny value.decision || has_deny values

unfoldable pub has_ask : List Evaluated → Bool
has_ask [] = false
has_ask (value ∷ values) = is_ask value.decision || has_ask values

abbrev denied_because : Rendering → Option Fault → String
denied_because render none = "Tool call denied by permission policy."
denied_because render (some e) =
    append "Tool call denied because its canonical effect could not be resolved: "
      (render.describe e)

abbrev pub denial_text : Rendering → Evaluated → String
denial_text render value =
    if is_deny value.decision
    then denied_because render value.error
    else "Tool call skipped because another call in the atomic batch was denied."

abbrev pub denial : Rendering → Evaluated → ToolDisposition
denial render value = record {
  kind = return;
  result = some (record {
    tool_use_id = value.call.id;
    tool_name = value.call.name;
    content = text (denial_text render value);
    is_error = true;
    error = some (failure (denial_text render value));
  });
  continue = true;
}

abbrev pub held : Evaluated → ToolDisposition
held value = record { kind = suspend; result = none; continue = false }

-- `current.Calls[value.index] = ...`, value after value.
unfoldable pub write_all :
    (Evaluated → ToolDisposition) → List Evaluated → List ToolDisposition → List ToolDisposition
write_all write [] ds = ds
write_all write (value ∷ values) ds = write_all write values (set ds value.index (write value))

unfoldable pub asked_ids : List Evaluated → List String
asked_ids [] = []
asked_ids (value ∷ values) =
    let rest = asked_ids values in if is_ask value.decision then value.call.id ∷ rest else rest

unfoldable pub pre_allowed_ids : List Evaluated → List String
pre_allowed_ids [] = []
pre_allowed_ids (value ∷ values) =
    let rest = pre_allowed_ids values in
    if is_ask value.decision then rest else value.call.id ∷ rest

unfoldable pub asked_requests : List Evaluated → List DeferredRequest
asked_requests [] = []
asked_requests (value ∷ values) =
    let rest = asked_requests values in
    if is_ask value.decision
    then record { call_id = value.call.id; request = value.request } ∷ rest
    else rest

abbrev pub deferral_payload : List Evaluated → DeferralPayload
deferral_payload values = record {
  version = 1;
  required_resolution_ids = asked_ids values;
  pre_allowed_call_ids = pre_allowed_ids values;
  requests = asked_requests values;
}

abbrev pub deferred_by :
    ToolBatchDecision → List Evaluated → Result Fault String → Result Fault ToolBatchDecision
deferred_by current values (err e) = err (wrapped "encode permission deferral" e)
deferred_by current values (ok payload) = ok (record {
  calls = write_all held values current.calls;
  deferral = some (record { kind = "harness.permission.v1"; payload = payload });
})

abbrev pub apply_decisions :
    Gate → List Evaluated → ToolBatchDecision → Result Fault ToolBatchDecision
apply_decisions gate values current =
    if has_deny values
    then ok (record current { calls = write_all (denial gate.render) values current.calls })
    else if not (has_ask values)
    then ok current
    else deferred_by current values (gate.encode (deferral_payload values))

-- `ready` says that the context has a tool runtime with an environment.
unfoldable pub evaluate_batch :
    Gate → Bool → List ToolUse → ToolBatchDecision → Result Fault ToolBatchDecision
evaluate_batch gate ready calls current =
    if not ready
    then err (failure "permission gate requires harness ToolRuntime")
    else apply_decisions gate (evaluate_calls gate zero calls current.calls) current
