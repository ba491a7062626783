-- ===== src/Examples/Permissions.antt =====
-- A policy on two tools: harness/permission.
use agentic.Prelude.{◌≡◌, refl, Bool, true, none, some, List, [], ◌∷◌, ◌==◌, ok, map}
use agentic.Tools.{ToolBatchDecision}
use agentic.Tools.Gate.{allow_all, validate_tool_batch_decision}
use agentic.Tools.Gate.Laws.{validate_tool_batch_decision-allow_all}
use agentic.Permission.{
  Matcher, Rule, Policy, PermissionRequest, decision_allow, decision_ask, is_known, new_policy,
  evaluate, request_segments, compile_rules, compile_rule, pattern_segments, check_segments,
  split_slashes, trim_left, trim_right, specificity_of, plain_runes, slashes_for_backslashes,
  match_pattern, choose, choose_all,
}
use agentic.Permission.Chosen.{IsMostSpecific, evaluate-IsMostSpecific}
use agentic.Permission.Decided.{Compiles, new_policy-evaluate}
use agentic.Permission.Gate.{
  Gate, evaluate_batch, evaluate_calls, evaluate_call, resolve, has_deny, has_ask, held, write_all,
}
use agentic.Permission.Gate.Allows.{OnlyAllowed, evaluate_batch-OnlyAllowed}
use agentic.Permission.Gate.Passes.{evaluate_batch-passes}
use agentic.Examples.{two_calls, plain}

abbrev literal : Matcher
literal pattern name = some (pattern == name)

abbrev rules : List Rule
rules = record { pattern = "/tool/search/**"; decision = decision_allow } ∷ []

abbrev policy : Policy
policy = record {
  fallback = decision_ask;
  rules =
      record {
        rule = record { pattern = "/tool/search/**"; decision = decision_allow };
        segments = "tool" ∷ "search" ∷ "**" ∷ [];
        specificity = 10;
        index = 0;
      }
      ∷ [];
}

policy_made : new_policy literal decision_ask rules ≡ ok policy
unfolding new_policy compile_rules compile_rule pattern_segments check_segments split_slashes
    trim_left trim_right specificity_of plain_runes
policy_made = refl

abbrev request : PermissionRequest
request = record {
  capability = "tool";
  action = "search";
  canonical_resource = record { scheme = "tool"; id = "search"; display = "search" };
}

evaluate-IsMostSpecific_example :
    IsMostSpecific literal
      (request_segments request)
      policy
      (evaluate literal (some policy) request)
evaluate-IsMostSpecific_example = evaluate-IsMostSpecific literal policy request

new_policy-evaluate_example :
    Compiles 0 rules policy.rules
    × ((asked : PermissionRequest) → is_known (evaluate literal (some policy) asked) ≡ true)
new_policy-evaluate_example = new_policy-evaluate literal decision_ask rules policy_made

abbrev gate : Gate
gate = record {
  policy = some policy;
  effect_resolver = λ name. none;
  matcher = literal;
  encode = λ payload. ok "{}";
  render = plain;
}

abbrev waits : ToolBatchDecision
waits = record {
  calls = map held (evaluate_calls gate 0 two_calls (allow_all two_calls).calls);
  deferral = some (record { kind = "harness.permission.v1"; payload = "{}" });
}

-- The search is allowed and the reading is asked, so that both wait.
both_wait : evaluate_batch gate true two_calls (allow_all two_calls) ≡ ok waits
unfolding evaluate_batch evaluate_calls evaluate_call resolve has_deny has_ask write_all evaluate
    choose_all choose match_pattern request_segments slashes_for_backslashes trim_left trim_right
    split_slashes allow_all
both_wait = refl

evaluate_batch-OnlyAllowed_example : OnlyAllowed gate two_calls waits.calls
evaluate_batch-OnlyAllowed_example =
    evaluate_batch-OnlyAllowed gate true two_calls (allow_all two_calls) decision_ask rules
      policy_made refl both_wait

evaluate_batch-passes_example :
    (waiting : Bool) × (validate_tool_batch_decision two_calls waits ≡ ok waiting)
evaluate_batch-passes_example =
    evaluate_batch-passes gate true two_calls (allow_all two_calls)
      (validate_tool_batch_decision-allow_all two_calls) both_wait
