-- ===== src/Policy/Order.antt =====
-- src/policy/mod.rs: what may be reordered, and what adding a policy can change.
use mathlib.Core.Bool.{Bool-set}
use mathlib.Core.List.{Perm, Permᴰ, append_assoc, append-nil}
use mathlib.Core.Logic.{∥∥₁_elim}
use zero_trust_proxy.Common.{
  ◌≡◌, refl, sym, ap, ◌∙◌, Bool, true, false, not, ◌&&◌, ◌||◌, List, [], ◌∷◌, ◌++◌, any, any-append,
  All, arith,
}
use zero_trust_proxy.Error.{ok}
use zero_trust_proxy.Policy.{
  F64, PolicyContext, PolicyDecision, Effect, allow, deny, PolicyRule, Policy, PolicyEngine,
  applies, add_policy, evaluate,
}
use zero_trust_proxy.Policy.Spec.{
  is_deny, is_allow, rules_of, denied_by, allowed_by, verdict, evaluate-allowed,
}

any-permᴰ {ℓ} : {A : Type ℓ} (p : A → Bool) (xs ys : List A) → Permᴰ xs ys → any p xs ≡ any p ys
unfolding any
any-permᴰ p _ _ Permᴰ.nil = refl
any-permᴰ p _ _ (Permᴰ.cons {l₁ = l} {l₂ = m} e r) = ground (arith, ap p e, any-permᴰ p l m r)
any-permᴰ p _ _ (Permᴰ.swap e f) = ground (arith, ap p e, ap p f)
any-permᴰ p _ _ (Permᴰ.trans {l₁ = k} {l₂ = l} {l₃ = m} r s) = any-permᴰ p k l r ∙ any-permᴰ p l m s

any-perm {ℓ} : {A : Type ℓ} (p : A → Bool) (xs ys : List A) → Perm xs ys → any p xs ≡ any p ys
any-perm p xs ys r = ∥∥₁_elim r (Bool-set _ _) (any-permᴰ p xs ys)

rules_of-append : (ps qs : List Policy) → rules_of (ps ++ qs) ≡ rules_of ps ++ rules_of qs
unfolding rules_of
rules_of-append [] qs = refl
rules_of-append (p ∷ ps) qs =
    ap (◌++◌ p.rules) (rules_of-append ps qs)
    ∙ sym (append_assoc p.rules (rules_of ps) (rules_of qs))

-- The policy has rules of one effect only.
abbrev pub HasOnly : Effect → Policy → Type 0
HasOnly effect p = All (λ r. r.effect ≡ effect) p.rules

module _ {F : Type 0} (f64 : F64 F) (context : PolicyContext) where
  verdict-perm :
      (default_deny : Bool) (rs ss : List PolicyRule)
      → Perm rs ss
      → verdict f64 context default_deny rs ≡ verdict f64 context default_deny ss
  unfolding verdict denied_by allowed_by
  verdict-perm default_deny rs ss p =
      rw
        (
          any-perm (λ r. applies f64 context r && is_deny r.effect) rs ss p,
          any-perm (λ r. applies f64 context r && is_allow r.effect) rs ss p,
        )
        refl

  -- Two engines with the same default, whose policies hold the same rules in any order and grouped
  -- in any way, allow the same requests.
  pub evaluate_perm :
      (e g : PolicyEngine) (d c : PolicyDecision)
      → e.default_deny ≡ g.default_deny
      → Perm (rules_of e.policies) (rules_of g.policies)
      → evaluate f64 e context ≡ ok d
      → evaluate f64 g context ≡ ok c
      → d.allowed ≡ c.allowed
  evaluate_perm e g d c same p he hg =
      evaluate-allowed f64 context e d he
      ∙ verdict-perm e.default_deny _ _ p
      ∙ ap (λ b. verdict f64 context b (rules_of g.policies)) same
      ∙ sym (evaluate-allowed f64 context g c hg)

  no_allow :
      (rs : List PolicyRule) → All (λ r. r.effect ≡ deny) rs → allowed_by f64 context rs ≡ false
  unfolding allowed_by any
  no_allow [] h = refl
  no_allow (r ∷ rs) h = ground (arith, no_allow rs h.1)

  no_deny :
      (rs : List PolicyRule) → All (λ r. r.effect ≡ allow) rs → denied_by f64 context rs ≡ false
  unfolding denied_by any
  no_deny [] h = refl
  no_deny (r ∷ rs) h = ground (arith, no_deny rs h.1)

  verdict-append :
      (rs ss : List PolicyRule)
      → (denied_by f64 context (rs ++ ss) ≡ (denied_by f64 context rs || denied_by f64 context ss))
        × (allowed_by f64 context (rs ++ ss)
            ≡ (allowed_by f64 context rs || allowed_by f64 context ss))
  unfolding denied_by allowed_by
  verdict-append rs ss = (any-append _ rs ss, any-append _ rs ss)

  -- Whether a policy of one effect has moved the decision only its own way: a denial grants
  -- nothing, and a grant denies nothing.
  abbrev pub moved : Effect → (before after : Bool) → Bool
  moved deny before after = before || not after
  moved allow before after = after || not before

  -- Adding a policy that only denies grants nothing new, and adding a policy that only allows
  -- takes nothing away.
  pub add_policy_monotone :
      (e : PolicyEngine) (p : Policy) (effect : Effect) (before after : PolicyDecision)
      → HasOnly effect p
      → evaluate f64 e context ≡ ok before
      → evaluate f64 (add_policy e p) context ≡ ok after
      → moved effect before.allowed after.allowed ≡ true
  unfolding add_policy verdict rules_of
  add_policy_monotone e p deny before after only hb ha =
      let vb = evaluate-allowed f64 context e before hb in
      let va = evaluate-allowed f64 context (add_policy e p) after ha in
      let parts = rules_of-append e.policies (p ∷ []) in
      let flat = append-nil p.rules in
      let split = verdict-append (rules_of e.policies) p.rules in
      ground (arith, no_allow p.rules only)
  add_policy_monotone e p allow before after only hb ha =
      let vb = evaluate-allowed f64 context e before hb in
      let va = evaluate-allowed f64 context (add_policy e p) after ha in
      let parts = rules_of-append e.policies (p ∷ []) in
      let flat = append-nil p.rules in
      let split = verdict-append (rules_of e.policies) p.rules in
      ground (arith, no_deny p.rules only)
