-- ===== src/Common/Extends.antt =====
-- Lists that keep their elements, each in its place, up to a relation, and get new ones at the end.
use mathlib.Core.List.{List, [], ◌∷◌, ◌++◌}

module _ {A : Type 0} where
  unfoldable pub Extends : (A → A → Type 0) → List A → List A → Type 0
  Extends K [] ys = Unit
  Extends K (x ∷ xs) [] = ⊥
  Extends K (x ∷ xs) (y ∷ ys) = K x y × Extends K xs ys

  module _ (K : A → A → Type 0) where
    pub Extends-refl : ((x : A) → K x x) → (xs : List A) → Extends K xs xs
    unfolding Extends
    Extends-refl k [] = tt
    Extends-refl k (x ∷ xs) = (k x, Extends-refl k xs)

    pub Extends-trans :
        ((x y z : A) → K x y → K y z → K x z)
        → (xs ys zs : List A) → Extends K xs ys
        → Extends K ys zs
        → Extends K xs zs
    unfolding Extends
    Extends-trans k [] ys zs h g = tt
    Extends-trans k (x ∷ xs) (y ∷ ys) (z ∷ zs) (hd, h) (gd, g) =
        (k x y z hd gd, Extends-trans k xs ys zs h g)
    Extends-trans k (x ∷ xs) (y ∷ ys) [] h g = absurd g
    Extends-trans k (x ∷ xs) [] zs h g = absurd h

    pub Extends-append : ((x : A) → K x x) → (xs ys : List A) → Extends K xs (xs ++ ys)
    unfolding Extends
    Extends-append k [] ys = tt
    Extends-append k (x ∷ xs) ys = (k x, Extends-append k xs ys)
