-- ===== src/Proxy/Gate/Methods.antt =====
-- src/proxy/mod.rs: what the policy of `build_default_policy_engine` lets through.
use zero_trust_proxy.Common.{
  ◌≡◌, ◌∙◌, Bool-cases, inl, inr, String, Bool, true, not, ◌||◌, List, [], ◌∷◌, contains_text,
  arith, any,
}
use zero_trust_proxy.Common.Text.{to_lowercase}
use zero_trust_proxy.Config.{Config}
use zero_trust_proxy.Error.{ok}
use zero_trust_proxy.World.{World}
use zero_trust_proxy.Risk.{IpAddr}
use zero_trust_proxy.Policy.{
  F64, PolicyContext, PolicyDecision, evaluate, applies, matches_resource, evaluate_conditions,
  add_policy,
}
use zero_trust_proxy.Policy
use zero_trust_proxy.Policy.Spec.{
  evaluate-verdict, evaluate-allowed, verdict, rules_of, denied_by, allowed_by,
}
use zero_trust_proxy.Proxy.Server.{Platform, Request, build_default_policy_engine, new}
use zero_trust_proxy.Proxy.Gate.{authorize, policy_context}
use zero_trust_proxy.Proxy.Gate.Exact.{authorize_iff}

abbrev pub methods : List String
methods = "get" ∷ "post" ∷ "put" ∷ "patch" ∷ "delete" ∷ "head" ∷ "options" ∷ []

default_verdict :
    {F : Type 0} (f64 : F64 F) (context : PolicyContext) (default_deny : Bool)
    → verdict f64 context default_deny
        (rules_of (build_default_policy_engine default_deny).policies)
      ≡ (contains_text methods context.action || not default_deny)
unfolding build_default_policy_engine add_policy Policy.new verdict denied_by allowed_by rules_of
    applies matches_resource evaluate_conditions any
default_verdict f64 context default_deny =
    elim (Bool-cases (contains_text methods context.action)) [
      | inl q ↦ ground (arith, q)
      | inr q ↦ ground (arith, q)
    ]

-- The default policy answers every request, whatever its resource and user: it allows it exactly if
-- the action is one of the seven methods, or if the default is not to deny.
pub default_policy_exact :
    {F : Type 0} (f64 : F64 F) (context : PolicyContext) (default_deny : Bool)
    → (d : PolicyDecision) × (evaluate f64 (build_default_policy_engine default_deny) context
        ≡ ok d)
      × (d.allowed ≡ (contains_text methods context.action || not default_deny))
unfolding build_default_policy_engine add_policy Policy.new
default_policy_exact f64 context default_deny =
    let (d, e, a, _) = evaluate-verdict f64 context (build_default_policy_engine default_deny) in
    (d, e, a ∙ default_verdict f64 context default_deny)

module _ {Store F : Type 0} (p : Platform Store F) (config : Config) where
  -- A server with the default policy that denies by default lets a request through only if its
  -- method is one of the seven.
  pub authorize-default_policy :
      (method path : String) (remote : IpAddr) (req : Request) (w : World Store)
      → config.policy.default_deny ≡ true
      → (authorize p (new config) method path remote req w).0 ≡ ok tt
      → contains_text methods (to_lowercase method) ≡ true
  unfolding new policy_context build_default_policy_engine add_policy Policy.new
  authorize-default_policy method path remote req w denies h =
      let a = (authorize_iff p (new config) method path remote req w).0 h in
      let context = policy_context p (new config) method path remote a.claims in
      let decided : a.decision.allowed
          ≡ (contains_text methods (to_lowercase method) || not config.policy.default_deny) =
        evaluate-allowed p.f64 context (build_default_policy_engine config.policy.default_deny)
          a.decision a.evaluated
        ∙ default_verdict p.f64 context config.policy.default_deny in
      ground (arith, a.allowed)
