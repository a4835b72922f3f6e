-- ===== src/Common/Text/Prefix.antt =====
-- Prefixes of texts.
use Prim.Native.String.{String, [], ◌∷◌, ◌++◌}
use Prim.Native.Char.{Char, code}
use Prim.Native.Nat.{ℕ}
use mathlib.Core.Path.{◌≡◌, refl, ap}
use mathlib.Core.Logic.{◌≢◌, inl, inr}
use mathlib.Core.Bool.{true}
use mathlib.Core.Option.{some}
use native.Mathlib.Omega.{arith}
use text.Mathlib.TextEquality.{Char-path}
use text.Mathlib.TextLemmas.{nil-append, cons-append}
use zero_trust_proxy.Common.Tests.{Option-cases}
use zero_trust_proxy.Common.Text.{starts_with, strip_prefix}

pub strip_prefix-append : (p s : String) → strip_prefix p (p ++ s) ≡ some s
unfolding strip_prefix
strip_prefix-append [] s = rw nil-append refl
strip_prefix-append (c ∷ p) s = rw cons-append (ground (arith, strip_prefix-append p s))

pub strip_prefix-some : (p s rest : String) → strip_prefix p s ≡ some rest → s ≡ p ++ rest
unfolding strip_prefix
strip_prefix-some [] s rest h = rw nil-append (ground arith)
strip_prefix-some (c ∷ p) [] rest h = cc
strip_prefix-some (c ∷ p) (d ∷ s) rest h =
    rw cons-append (ground (arith, Char-path c d, strip_prefix-some p s rest))

-- A text starts with another exactly if it is that other followed by something.
pub starts_with-append : (p rest : String) → starts_with (p ++ rest) p ≡ true
unfolding starts_with
starts_with-append p rest = rw (strip_prefix-append p rest)

pub starts_with-split : (s p : String) → starts_with s p ≡ true → (rest : String) × (s ≡ p ++ rest)
unfolding starts_with
starts_with-split s p h = elim (Option-cases (strip_prefix p s)) [
  | inl e ↦ absurd (ground arith)
  | inr (rest, e) ↦ (rest, strip_prefix-some p s rest e)
]

first_code : String → ℕ
first_code [] = 0
first_code (c ∷ s) = code c

-- Texts that begin differently differ, whatever follows.
pub append_apart :
    (c d : Char) (p q s t : String)
    → code c ≢ code d
    → ◌≢◌ {A = String} ((c ∷ p) ++ s) ((d ∷ q) ++ t)
unfolding first_code
append_apart c d p q s t ne h =
    let same : first_code ((c ∷ p) ++ s) ≡ first_code ((d ∷ q) ++ t) = ap first_code h in
    ne (rw (cons-append c p s, cons-append d q t) at same)
