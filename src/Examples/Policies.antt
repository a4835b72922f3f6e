-- ===== src/Examples/Policies.antt =====
-- The policy engine at concrete inputs.
use mathlib.Core.List.Perm
use Prim.Native.String.{◌++◌ as ◌<>◌}
use zero_trust_proxy.Common.{
  ◌⊎◌, ◌≡◌, ◌↔◌, refl, String, Bool, true, false, List, [], ◌∷◌, any, contains_text, not, ◌||◌,
}
use zero_trust_proxy.Common.Text.{starts_with, strip_suffix_char, join}
use zero_trust_proxy.Error.{ok}
use zero_trust_proxy.Policy.{
  PolicyContext, PolicyDecision, Policy, PolicyRule, PolicyEngine, allow, deny, equals,
  matches_resource, evaluate_conditions, evaluate, add_policy, applies, scan_rules, scan_policies,
  decide, get, compare_values, new,
}
use zero_trust_proxy.Policy.Matching.{matches_resource_exact}
use zero_trust_proxy.Policy.Spec.{rules_of, verdict, evaluate-verdict}
use zero_trust_proxy.Policy.Order.{evaluate_perm, moved, add_policy_monotone}
use zero_trust_proxy.Proxy.Server.{build_default_policy_engine}
use zero_trust_proxy.Proxy.Gate.Methods.{methods, default_policy_exact}
use zero_trust_proxy.Examples.Fixtures.{f64}

abbrev read : PolicyRule
read = record {
  resource_pattern = "/api/*";
  actions = "read" ∷ [];
  conditions = [];
  effect = allow;
}

abbrev no_delete : PolicyRule
no_delete = record {
  resource_pattern = "/api/*";
  actions = "delete" ∷ "read" ∷ [];
  conditions = record { attribute = "dept"; operator = equals; value = "ops" } ∷ [];
  effect = deny;
}

abbrev named : String → List PolicyRule → Policy
named name rules = record { id = name; name = name; description = ""; rules = rules }

abbrev open_engine : PolicyEngine
open_engine = record { policies = named "Allow Read" (read ∷ []) ∷ []; default_deny = true }

abbrev closed_engine : PolicyEngine
closed_engine = record {
  policies = named "Allow Read" (read ∷ []) ∷ named "Deny Delete" (no_delete ∷ []) ∷ [];
  default_deny = true;
}

-- The two rules in one policy, the other way round.
abbrev merged_engine : PolicyEngine
merged_engine = record { policies = named "Both" (no_delete ∷ read ∷ []) ∷ []; default_deny = true }

abbrev ask : PolicyContext
ask = record {
  user_id = "user123";
  resource = "/api/users";
  action = "read";
  attributes = ("dept", "ops") ∷ [];
}

abbrev answer : Bool → String → PolicyDecision
answer allowed reason = record { allowed = allowed; reason = reason; required_permissions = [] }

abbrev closed_answer : PolicyDecision
closed_answer = answer false "Allowed by policy: Allow Read; Denied by policy: Deny Delete"

abbrev merged_answer : PolicyDecision
merged_answer = answer false "Denied by policy: Both; Allowed by policy: Both"

policy_run : Unit {0}
unfolding evaluate decide scan_policies scan_rules applies matches_resource evaluate_conditions get
    compare_values contains_text any starts_with strip_suffix_char join rules_of add_policy new
policy_run = tt

open_run : evaluate f64 open_engine ask ≡ ok (answer true "Allowed by policy: Allow Read")
unfolding policy_run
open_run = refl

-- Deny overrides allow, and both are named.
closed_run : evaluate f64 closed_engine ask ≡ ok closed_answer
unfolding policy_run
closed_run = refl

merged_run : evaluate f64 merged_engine ask ≡ ok merged_answer
unfolding policy_run
merged_run = refl

matches_resource_exact_example : (matches_resource "/api/*" "/api/users" ≡ true) ↔ (
    (◌≡◌ {A = String} "/api/*" "/api/users")
    ⊎ ((prefix : String) × (rest : String) × ("/api/*" ≡ prefix <> "*")
        × ("/api/users" ≡ prefix <> rest)))
matches_resource_exact_example = matches_resource_exact "/api/*" "/api/users"

evaluate-verdict_example :
    (d : PolicyDecision) × (evaluate f64 closed_engine ask ≡ ok d)
    × (d.allowed ≡ verdict f64 ask true (rules_of closed_engine.policies))
    × (d.required_permissions ≡ [])
evaluate-verdict_example = evaluate-verdict f64 ask closed_engine

evaluate_perm_example : closed_answer.allowed ≡ merged_answer.allowed
unfolding policy_run
evaluate_perm_example =
    evaluate_perm f64 ask closed_engine merged_engine closed_answer merged_answer refl
      (Perm.swap no_delete read []) closed_run merged_run

-- A second policy that allows the same.
abbrev again : Policy
again = named "Allow Read" (read ∷ [])

again_run :
    evaluate f64 (add_policy open_engine again) ask
    ≡ ok (answer true "Allowed by policy: Allow Read; Allowed by policy: Allow Read")
unfolding policy_run
again_run = refl

add_policy_monotone_example :
    moved f64 ask allow
      (answer true "Allowed by policy: Allow Read").allowed
      (answer true "Allowed by policy: Allow Read; Allowed by policy: Allow Read").allowed
    ≡ true
add_policy_monotone_example =
    add_policy_monotone f64 ask open_engine again allow
      (answer true "Allowed by policy: Allow Read")
      (answer true "Allowed by policy: Allow Read; Allowed by policy: Allow Read") (refl, tt)
      open_run again_run

default_policy_exact_example :
    (d : PolicyDecision) × (evaluate f64 (build_default_policy_engine true) ask ≡ ok d)
    × (d.allowed ≡ (contains_text methods ask.action || not true))
default_policy_exact_example = default_policy_exact f64 ask true
