-- ===== src/Common/Distinct.antt =====
-- Lists whose elements differ in a text, such as the rows of a table in a unique column.
use Prim.Native.String.{String}
use mathlib.Core.Path.{◌≡◌, refl}
use mathlib.Core.Bool.{Bool, false, ◌||◌}
use mathlib.Core.List.{List, [], ◌∷◌, ◌++◌}
use native.Mathlib.Omega.{arith}
use text.Mathlib.Text.{◌==◌}
use text.Mathlib.TextEquality.{eq_iff}
use zero_trust_proxy.Common.Lists.{any}

module _ {A : Type 0} where
  unfoldable pub Distinct : (A → String) → List A → Type 0
  Distinct key [] = Unit
  Distinct key (x ∷ xs) = (any (λ y. key y == key x) xs ≡ false) × Distinct key xs

  pub any-or :
      (p q : A → Bool) (xs : List A)
      → any (λ x. p x || q x) xs ≡ false
      → (any p xs ≡ false) × (any q xs ≡ false)
  unfolding any
  any-or p q [] h = (refl, refl)
  any-or p q (x ∷ xs) h =
      let (hp, hq) = any-or p q xs (ground arith) in (ground arith, ground arith)

  pub Distinct-append :
      (key : A → String) (x : A) (xs : List A)
      → any (λ y. key y == key x) xs ≡ false
      → Distinct key xs
      → Distinct key (xs ++ x ∷ [])
  unfolding Distinct any
  Distinct-append key x [] h d = (refl, tt)
  Distinct-append key x (y ∷ ys) h (fresh, d) =
      (apart y ys (ground arith) fresh, Distinct-append key x ys (ground arith) d)
    where
      apart :
          (y : A) (ys : List A)
          → (key y == key x) ≡ false
          → any (λ z. key z == key y) ys ≡ false
          → any (λ z. key z == key y) (ys ++ x ∷ []) ≡ false
      apart y [] other h = ground (arith, eq_iff (key y) (key x), eq_iff (key x) (key y))
      apart y (z ∷ zs) other h = ground (arith, apart y zs other)
