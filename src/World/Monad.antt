-- ===== src/World/Monad.antt =====
-- Splitting a computation of the monad into its steps.
use zero_trust_proxy.Common.{◌≡◌, refl, ◌⊎◌, inl, inr, Option, none, some, arith}
use zero_trust_proxy.Error.{ProxyError, ProxyResult, ok, err, ok_or}
use zero_trust_proxy.World.{World, M, bind, ◌>>=◌}

module _ {Store : Type 0} where
  -- A step that has succeeded or failed, with the world that it leaves.
  pub step-cases :
      {A : Type 0} (r : ProxyResult A × World Store)
      → ((a : A) × (w : World Store) × (r ≡ (ok a, w)))
        ⊎ ((e : ProxyError) × (w : World Store) × (r ≡ (err e, w)))
  step-cases (ok a, w) = inl (a, w, refl)
  step-cases (err e, w) = inr (e, w, refl)

  pub bind-inv :
      {A B : Type 0} (r : ProxyResult A × World Store) (f : A → M Store B) {b : B}
      {w' : World Store}
      → bind r f ≡ (ok b, w')
      → (a : A) × (w : World Store) × (r ≡ (ok a, w)) × (f a w ≡ (ok b, w'))
  bind-inv (ok a, w) f h = (a, w, refl, h)
  bind-inv (err e, w) f h = cc

  -- Both steps of a sequence that succeeds succeed.
  pub >>=-eq-ok :
      {A B : Type 0} (m : M Store A) (f : A → M Store B) (w : World Store) {b : B}
      {w' : World Store}
      → (m >>= f) w ≡ (ok b, w')
      → (a : A) × (v : World Store) × (m w ≡ (ok a, v)) × (f a v ≡ (ok b, w'))
  >>=-eq-ok m f w h = bind-inv (m w) f h

  -- The same of an answer alone.
  pub bind-answer :
      {A B : Type 0} (r : ProxyResult A × World Store) (f : A → M Store B) {b : B}
      → (bind r f).0 ≡ ok b
      → (a : A) × (v : World Store) × (r ≡ (ok a, v)) × ((f a v).0 ≡ ok b)
  bind-answer (ok a, w) f h = (a, w, refl, h)
  bind-answer (err e, w) f h = cc

  pub ok_or-inv :
      {A : Type 0} (o : Option A) (e : ProxyError) {w v : World Store} {a : A}
      → ◌≡◌ {A = ProxyResult A × World Store} (ok_or o e, w) (ok a, v)
      → o ≡ some a
  ok_or-inv none e h = absurd (ground arith)
  ok_or-inv (some b) e h = ground arith
