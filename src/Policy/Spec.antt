-- ===== src/Policy/Spec.antt =====
-- src/policy/mod.rs: `evaluate` against a specification over the rules of all policies together.
use zero_trust_proxy.Common.{
  ◌≡◌, refl, String, Bool, true, false, not, ◌&&◌, ◌||◌, List, [], ◌∷◌, ◌++◌, any, any-append, All,
  some, if◌then◌else◌, arith, ◌↔◌, Bool-cases, Option-cases, inl, inr,
}
use Prim.Native.String.{◌++◌ as ◌<>◌}
use zero_trust_proxy.Error.{ok}
use zero_trust_proxy.Policy.{
  F64, PolicyContext, PolicyDecision, Effect, allow, deny, PolicyRule, Policy, PolicyEngine,
  Findings, Condition, Attributes, applies, scan_rules, scan_policies, decide, evaluate,
  evaluate_conditions, holds, get, compare_values,
}

abbrev pub is_deny : Effect → Bool
is_deny deny = true
is_deny allow = false

abbrev pub is_allow : Effect → Bool
is_allow allow = true
is_allow deny = false

-- The rules of all policies, in order.
unfoldable pub rules_of : List Policy → List PolicyRule
rules_of [] = []
rules_of (p ∷ ps) = p.rules ++ rules_of ps

module _ {F : Type 0} (f64 : F64 F) (context : PolicyContext) where
  -- Some rule of the list applies and denies, or applies and allows.
  unfoldable pub denied_by : List PolicyRule → Bool
  denied_by rules = any (λ r. applies f64 context r && is_deny r.effect) rules

  unfoldable pub allowed_by : List PolicyRule → Bool
  allowed_by rules = any (λ r. applies f64 context r && is_allow r.effect) rules

  -- Deny overrides allow, and the default decides where no rule applies.
  unfoldable pub verdict : Bool → List PolicyRule → Bool
  verdict default_deny rules =
      if denied_by rules then false else if allowed_by rules then true else not default_deny

  scan_rules-flags :
      (name : String) (rules : List PolicyRule) (s : Findings)
      → ((scan_rules f64 context name rules s).deny_found ≡ (s.deny_found || denied_by rules))
        × ((scan_rules f64 context name rules s).allow_found ≡ (s.allow_found || allowed_by rules))
  unfolding scan_rules denied_by allowed_by any
  scan_rules-flags name [] s = ground arith
  scan_rules-flags name (r ∷ rs) s =
      let b = applies f64 context r in
      ground (
        arith,
        scan_rules-flags name rs s,
        scan_rules-flags name rs (record s {
          deny_found = true;
          reasons = s.reasons ++ (◌<>◌ "Denied by policy: " name) ∷ [];
        }),
        scan_rules-flags name rs (record s {
          allow_found = true;
          reasons = s.reasons ++ (◌<>◌ "Allowed by policy: " name) ∷ [];
        }),
      )

  scan_policies-flags :
      (ps : List Policy) (s : Findings)
      → ((scan_policies f64 context ps s).deny_found ≡ (s.deny_found || denied_by (rules_of ps)))
        × ((scan_policies f64 context ps s).allow_found
            ≡ (s.allow_found || allowed_by (rules_of ps)))
  unfolding scan_policies rules_of denied_by allowed_by any
  scan_policies-flags [] s = ground arith
  scan_policies-flags (p ∷ ps) s = ground (
    arith,
    scan_policies-flags ps (scan_rules f64 context p.name p.rules s),
    scan_rules-flags p.name p.rules s,
    any-append (λ r. applies f64 context r && is_deny r.effect) p.rules (rules_of ps),
    any-append (λ r. applies f64 context r && is_allow r.effect) p.rules (rules_of ps),
  )

  -- `evaluate` always answers, and it allows a request exactly as specified: not if a rule that
  -- applies denies it; otherwise if a rule that applies allows it; otherwise by the default. It
  -- never asks for permissions.
  pub evaluate-verdict :
      (engine : PolicyEngine)
      → (d : PolicyDecision) × (evaluate f64 engine context ≡ ok d)
        × (d.allowed ≡ verdict engine.default_deny (rules_of engine.policies))
        × (d.required_permissions ≡ [])
  unfolding evaluate decide verdict
  evaluate-verdict engine =
      let start : Findings = record { allow_found = false; deny_found = false; reasons = [] } in
      let flags = scan_policies-flags engine.policies start in (_, refl, ground arith, ground arith)

  -- The decision in terms of the specification.
  pub evaluate-allowed :
      (engine : PolicyEngine) (d : PolicyDecision)
      → evaluate f64 engine context ≡ ok d
      → d.allowed ≡ verdict engine.default_deny (rules_of engine.policies)
  evaluate-allowed engine d e = let (d', e', a, _) = evaluate-verdict engine in ground arith

module _ {F : Type 0} (f64 : F64 F) where
  -- A condition holds of the attributes: its attribute is present, and its value passes the test.
  abbrev pub Satisfies : Attributes → Condition → Type 0
  Satisfies attributes c =
      (v : String) × (get attributes c.attribute ≡ some v)
      × (compare_values f64 c.operator v c.value ≡ true)

  satisfies :
      (c : Condition) (attributes : Attributes)
      → holds f64 (get attributes c.attribute) c ≡ true
      → Satisfies attributes c
  satisfies c attributes h = elim (Option-cases (get attributes c.attribute)) [
    | inl e ↦ absurd (ground arith)
    | inr (v, e) ↦ (v, e, rw e at h)
  ]

  -- The conditions of a rule pass exactly if every one of them names an attribute that is present
  -- and passes its test: a missing attribute fails.
  pub evaluate_conditions_iff :
      (cs : List Condition) (attributes : Attributes)
      → (evaluate_conditions f64 cs attributes ≡ true) ↔ All (Satisfies attributes) cs
  unfolding evaluate_conditions
  evaluate_conditions_iff [] attributes = (λ _. tt, λ _. refl)
  evaluate_conditions_iff (c ∷ cs) attributes =
      elim (Bool-cases (holds f64 (get attributes c.attribute) c)) [
        | inl e ↦ (
          λ h. (satisfies c attributes e, (evaluate_conditions_iff cs attributes).0 (rw e at h)),
          λ h. rw e ((evaluate_conditions_iff cs attributes).1 h.1),
        )
        | inr e ↦ (λ h. absurd (ground arith), λ h. absurd (ground (arith, h.0.1, h.0.2)))
      ]
