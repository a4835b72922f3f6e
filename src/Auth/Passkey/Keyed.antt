-- ===== src/Auth/Passkey/Keyed.antt =====
-- Lists of items under a user and a credential, as both stores keep them.
use mathlib.Core.Option
use zero_trust_proxy.Common.{
  ◌≡◌, refl, String, ◌==◌, eq_iff, Bool, true, false, ◌&&◌, Option, none, some, List, [], ◌∷◌, ◌++◌,
  arith, All, if◌then◌else◌,
}

module _ {A : Type 0} (user cred : A → String) where
  abbrev pub at : (u c : String) → A → Bool
  at u c x = user x == u && cred x == c

  unfoldable pub find_at : (u c : String) → List A → Option A
  find_at u c [] = none
  find_at u c (x ∷ xs) = if at u c x then some x else find_at u c xs

  unfoldable pub amend_at : (u c : String) → (A → A) → List A → List A
  amend_at u c f [] = []
  amend_at u c f (x ∷ xs) = (if at u c x then f x else x) ∷ amend_at u c f xs

  unfoldable pub drop_at : (u c : String) → List A → List A
  drop_at u c [] = []
  drop_at u c (x ∷ xs) = let rest = drop_at u c xs in if at u c x then rest else x ∷ rest

  unfoldable pub of_user : String → List A → List A
  of_user u [] = []
  of_user u (x ∷ xs) = let rest = of_user u xs in if user x == u then x ∷ rest else rest

  -- A change of an item that leaves its key alone.
  pub record KeepsKey (f : A → A) : Type 0 where
    pub keeps_user : (x : A) → user (f x) ≡ user x
    pub keeps_cred : (x : A) → cred (f x) ≡ cred x

  pub find-amend :
      (u c a b : String) (f : A → A) (xs : List A)
      → KeepsKey f
      → find_at a b (amend_at u c f xs)
        ≡ (if a == u && b == c then Option.map f (find_at u c xs) else find_at a b xs)
  unfolding find_at amend_at
  find-amend u c a b f [] k = ground arith
  find-amend u c a b f (x ∷ xs) k = ground (
    arith,
    k.keeps_user x,
    k.keeps_cred x,
    eq_iff (user x) u,
    eq_iff (user x) a,
    eq_iff (cred x) c,
    eq_iff (cred x) b,
    eq_iff a u,
    eq_iff b c,
    find-amend u c a b f xs k,
  )

  pub find-append :
      (a b : String) (x : A) (xs : List A)
      → find_at (user x) (cred x) xs ≡ none
      → find_at a b (xs ++ x ∷ []) ≡ (if a == user x && b == cred x then some x else find_at a b xs)
  unfolding find_at
  find-append a b x [] h =
      ground (arith, eq_iff (user x) a, eq_iff (cred x) b, eq_iff a (user x), eq_iff b (cred x))
  find-append a b x (y ∷ ys) h = ground (
    arith,
    eq_iff (user y) a,
    eq_iff (user y) (user x),
    eq_iff (cred y) b,
    eq_iff (cred y) (cred x),
    eq_iff a (user x),
    eq_iff b (cred x),
    find-append a b x ys,
  )

  pub find-drop :
      (u c a b : String) (xs : List A)
      → find_at a b (drop_at u c xs) ≡ (if a == u && b == c then none else find_at a b xs)
  unfolding find_at drop_at
  find-drop u c a b [] = ground arith
  find-drop u c a b (x ∷ xs) = ground (
    arith,
    eq_iff (user x) u,
    eq_iff (user x) a,
    eq_iff (cred x) c,
    eq_iff (cred x) b,
    eq_iff a u,
    eq_iff b c,
    find-drop u c a b xs,
  )

  pub find-of_user : (u c : String) (xs : List A) → find_at u c (of_user u xs) ≡ find_at u c xs
  unfolding find_at of_user
  find-of_user u c [] = refl
  find-of_user u c (x ∷ xs) = ground (arith, find-of_user u c xs)

  pub of_user-All : (u : String) (xs : List A) → All (λ x. user x ≡ u) (of_user u xs)
  unfolding of_user
  of_user-All u [] = tt
  of_user-All u (x ∷ xs) = ground (arith, eq_iff (user x) u, of_user-All u xs)

  -- A property of the items that the changes respect.
  module _ (P : A → Type 0) where
    if_All : (b : Bool) (x y : A) → (b ≡ true → P x) → P y → P (if b then x else y)
    if_All true x y hx hy = hx refl
    if_All false x y hx hy = hy

    pub append-All : (x : A) (xs : List A) → P x → All P xs → All P (xs ++ x ∷ [])
    append-All x [] hx h = (hx, tt)
    append-All x (y ∷ ys) hx h = (h.0, append-All x ys hx h.1)

    pub amend_at-All :
        (u c : String) (f : A → A) (xs : List A)
        → ((x : A) → at u c x ≡ true → P x → P (f x))
        → All P xs
        → All P (amend_at u c f xs)
    unfolding amend_at
    amend_at-All u c f [] k h = tt
    amend_at-All u c f (x ∷ xs) k h =
        (if_All (at u c x) (f x) x (λ t. k x t h.0) h.0, amend_at-All u c f xs k h.1)

    pub drop_at-All : (u c : String) (xs : List A) → All P xs → All P (drop_at u c xs)
    unfolding drop_at
    drop_at-All u c [] h = tt
    drop_at-All u c (x ∷ xs) h = ground (arith, drop_at-All u c xs h.1)
