-- ===== src/Policy/Matching.antt =====
-- src/policy/mod.rs: which resources a pattern matches.
use Prim.Native.String.{String, [], ◌∷◌, ◌++◌}
use mathlib.Core.Path.{◌≡◌, refl, sym, ap, ◌∙◌}
use mathlib.Core.Logic.{◌↔◌}
use mathlib.Core.Bool.{true}
use mathlib.Core.Option.{none, some}
use native.Mathlib.Omega.{arith}
use text.Mathlib.Text.{◌==◌}
use text.Mathlib.TextEquality.{eq_iff, Char-path}
use text.Mathlib.TextLemmas.{nil-append, cons-append, append_cancel_right}
use zero_trust_proxy.Common.{◌⊎◌, Bool-cases, Option-cases, inl, inr, eqb}
use Prim.Native.Char.{Char, code}
use zero_trust_proxy.Common.Text.{strip_suffix_char}
use zero_trust_proxy.Common.Text.Prefix.{starts_with-append, starts_with-split}
use zero_trust_proxy.Policy.{matches_resource}

strip_suffix_char-some : (s p : String) → strip_suffix_char b'*' s ≡ some p → s ≡ p ++ "*"
unfolding strip_suffix_char
strip_suffix_char-some [] p h = cc
strip_suffix_char-some (c ∷ []) p h = elim (Bool-cases (eqb (code c) b'*')) [
  | inl e ↦
      let star : ◌≡◌ {A = Char} c "*" = ground (arith, Char-path c "*") in
      let nothing : [] ≡ p = ground arith in rw (star, ← nothing, nil-append "*") refl
  | inr e ↦ absurd (ground arith)
]
strip_suffix_char-some (c ∷ d ∷ s) p h = elim (Option-cases (strip_suffix_char b'*' (d ∷ s))) [
  | inl e ↦ absurd (ground arith)
  | inr (q, e) ↦
      let same : c ∷ q ≡ p = ground arith in
      rw (← same, cons-append c q "*", strip_suffix_char-some (d ∷ s) q e) refl
]

strip_suffix_char-star : (p : String) → strip_suffix_char b'*' (p ++ "*") ≡ some p
unfolding strip_suffix_char
strip_suffix_char-star [] = refl
strip_suffix_char-star (c ∷ []) = rw (cons-append c [] "*") refl
strip_suffix_char-star (c ∷ d ∷ p) =
    rw (cons-append c (d ∷ p) "*", cons-append d p "*")
      (ground (arith, rw cons-append at (strip_suffix_char-star (d ∷ p))))

-- A pattern that ends in "*" matches exactly the resources that begin with the rest of the pattern.
matches_resource_star :
    (p resource : String)
    → (matches_resource (p ++ "*") resource ≡ true) ↔ ((rest : String) × (resource ≡ p ++ rest))
unfolding matches_resource
matches_resource_star p resource = elim (Bool-cases ((p ++ "*") == "*")) [
  | inl e ↦
      let nothing : p ≡ [] =
        append_cancel_right p [] "*" ((eq_iff _ _).0 e ∙ sym (nil-append "*")) in
      (λ _. (resource, rw (nothing, nil-append) refl), λ _. rw e refl)
  | inr e ↦ (
    λ h. starts_with-split resource p (rw (e, strip_suffix_char-star p) at h),
    λ (rest, r). rw (e, strip_suffix_char-star p, r) (starts_with-append p rest),
  )
]

-- A pattern that does not end in "*" matches exactly itself.
matches_resource_plain :
    (pattern resource : String)
    → strip_suffix_char b'*' pattern ≡ none
    → (matches_resource pattern resource ≡ true) ↔ (pattern ≡ resource)
unfolding matches_resource strip_suffix_char
matches_resource_plain pattern resource h = elim (Bool-cases (pattern == "*")) [
  | inl e ↦ absurd (cc (h, ap (strip_suffix_char b'*') ((eq_iff pattern "*").0 e)))
  | inr e ↦ ground (arith, eq_iff pattern resource)
]

-- A pattern matches exactly itself and, if it ends in "*", the resources that begin with the rest
-- of it.
pub matches_resource_exact :
    (pattern resource : String)
    → (matches_resource pattern resource ≡ true) ↔ (
        (pattern ≡ resource)
        ⊎ ((prefix : String) × (rest : String) × (pattern ≡ prefix ++ "*")
            × (resource ≡ prefix ++ rest)))
matches_resource_exact pattern resource = elim (Option-cases (strip_suffix_char b'*' pattern)) [
  | inl plain ↦
      let same = matches_resource_plain pattern resource plain in
      (
        λ h. inl (same.0 h),
        λ h. elim h [
          | inl e ↦ same.1 e
          | inr (prefix, rest, q, r) ↦
              absurd (cc (plain, ap (strip_suffix_char b'*') q, strip_suffix_char-star prefix))
        ],
      )
  | inr (prefix, found) ↦
      let ends = strip_suffix_char-some pattern prefix found in
      let star = matches_resource_star prefix resource in
      (
        λ h. let (rest, r) = star.0 (rw ends at h) in inr (prefix, rest, ends, r),
        λ h. elim h [
          | inl e ↦ rw ends (star.1 ("*", sym e ∙ ends))
          | inr (p, rest, q, r) ↦
              rw ends (star.1 (rest, rw (append_cancel_right prefix p "*" (sym ends ∙ q)) r))
        ],
      )
]
