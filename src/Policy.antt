-- ===== src/Policy.antt =====
-- src/policy/mod.rs: the attribute based policy engine. A `HashMap` is an association list, and the
-- 64-bit floats with their parser are a parameter.
pub mod Matching
pub mod Spec
pub mod Order
use Prim.Native.String.{◌++◌ as ◌<>◌}
use zero_trust_proxy.Common.{
  ℕ, ◌≡◌, String, ◌==◌, Bool, true, false, not, ◌&&◌, ◌||◌, Option, none, some, List, [], ◌∷◌, ◌++◌,
  contains_text, unwrap_or, if◌then◌else◌,
}
use zero_trust_proxy.Common.Text
use zero_trust_proxy.Common.Text.{starts_with, strip_suffix_char, join}
use zero_trust_proxy.Error.{ok, ProxyResult}

pub record F64 (F : Type 0) : Type 0 where
  pub parse : String → Option F
  pub zero : F
  pub gtb : F → F → Bool
  pub ltb : F → F → Bool

abbrev pub Attributes : Type 0
Attributes = List (String × String)

-- `HashMap::get`, the map first.
unfoldable pub get : Attributes → String → Option String
get [] key = none
get ((k, v) ∷ m) key = if k == key then some v else get m key

pub record PolicyContext : Type 0 where
  pub user_id : String
  pub resource : String
  pub action : String
  pub attributes : Attributes

pub record PolicyDecision : Type 0 where
  pub allowed : Bool
  pub reason : String
  pub required_permissions : List String

pub data Effect : Type 0 where
  allow deny : Effect

pub data Operator : Type 0 where
  equals not_equals contains greater_than less_than : Operator

pub record Condition : Type 0 where
  pub attribute : String
  pub operator : Operator
  pub value : String

pub record PolicyRule : Type 0 where
  pub resource_pattern : String
  pub actions : List String
  pub conditions : List Condition
  pub effect : Effect

pub record Policy : Type 0 where
  pub id : String
  pub name : String
  pub description : String
  pub rules : List PolicyRule

pub record PolicyEngine : Type 0 where
  pub policies : List Policy
  pub default_deny : Bool

unfoldable pub new : Bool → PolicyEngine
new default_deny = record { policies = []; default_deny = default_deny }

unfoldable pub add_policy : PolicyEngine → Policy → PolicyEngine
add_policy engine policy = record engine { policies = engine.policies ++ policy ∷ [] }

abbrev matches_prefix : Option String → String → String → Bool
matches_prefix (some prefix) pattern resource = starts_with resource prefix
matches_prefix none pattern resource = pattern == resource

unfoldable pub matches_resource : String → String → Bool
matches_resource pattern resource =
    if pattern == "*"
    then true
    else matches_prefix (strip_suffix_char b'*' pattern) pattern resource

-- The variables of the loops.
pub record Findings : Type 0 where
  pub allow_found : Bool
  pub deny_found : Bool
  pub reasons : List String

abbrev note : Effect → String → Findings → Findings
note allow name s = record s {
  allow_found = true;
  reasons = s.reasons ++ ("Allowed by policy: " <> name) ∷ [];
}
note deny name s = record s {
  deny_found = true;
  reasons = s.reasons ++ ("Denied by policy: " <> name) ∷ [];
}

abbrev pub decision : Bool → String → PolicyDecision
decision allowed reason = record { allowed = allowed; reason = reason; required_permissions = [] }

unfoldable pub decide : Bool → Findings → PolicyDecision
decide default_deny s =
    if s.deny_found
    then decision false (join "; " s.reasons)
    else if s.allow_found
    then decision true (join "; " s.reasons)
    else if default_deny
    then decision false "No matching policy - default deny"
    else decision true "No matching policy - default allow"

module _ {F : Type 0} (f64 : F64 F) where
  abbrev pub number : String → F
  number s = unwrap_or (f64.parse s) f64.zero

  -- One `match condition.operator`.
  unfoldable pub compare_values : Operator → String → String → Bool
  compare_values equals attr_value value = attr_value == value
  compare_values not_equals attr_value value = not (attr_value == value)
  compare_values contains attr_value value = Text.contains attr_value value
  compare_values greater_than attr_value value = f64.gtb (number attr_value) (number value)
  compare_values less_than attr_value value = f64.ltb (number attr_value) (number value)

  abbrev pub holds : Option String → Condition → Bool
  holds none condition = false
  holds (some attr_value) condition = compare_values condition.operator attr_value condition.value

  unfoldable pub evaluate_conditions : List Condition → Attributes → Bool
  evaluate_conditions [] attributes = true
  evaluate_conditions (condition ∷ rest) attributes =
      if holds (get attributes condition.attribute) condition
      then evaluate_conditions rest attributes
      else false

  -- The two nested tests that a rule has to pass.
  unfoldable pub applies : PolicyContext → PolicyRule → Bool
  applies context rule =
      (matches_resource rule.resource_pattern context.resource
        && contains_text rule.actions context.action)
      && evaluate_conditions rule.conditions context.attributes

  unfoldable pub scan_rules : PolicyContext → String → List PolicyRule → Findings → Findings
  scan_rules context name [] s = s
  scan_rules context name (rule ∷ rest) s =
      scan_rules context name rest (if applies context rule then note rule.effect name s else s)

  unfoldable pub scan_policies : PolicyContext → List Policy → Findings → Findings
  scan_policies context [] s = s
  scan_policies context (policy ∷ rest) s =
      scan_policies context rest (scan_rules context policy.name policy.rules s)

  unfoldable pub evaluate : PolicyEngine → PolicyContext → ProxyResult PolicyDecision
  evaluate engine context = ok (
      decide engine.default_deny (
        scan_policies context engine.policies
          (record { allow_found = false; deny_found = false; reasons = [] })))
