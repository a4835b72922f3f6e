-- ===== src/World/Keeps.antt =====
-- Computations that keep an invariant of Redis and of the tables. One rule for each way to build a
-- computation; a command on Redis has a rule for each kind of command.
use zero_trust_proxy.Common.{String, ◌≡◌, refl, Bool, true, false, if◌then◌else◌}
use zero_trust_proxy.Error.{ProxyError, Result, ok, err, ProxyResult}
use zero_trust_proxy.Db.{Tables}
use zero_trust_proxy.World.{
  World, M, pure, fail, lift, attempt, command, bind, ◌>>=◌, utc_now, new_uuid,
}

-- `m` keeps `I`, whatever it answers.
pub record Keeps {Store A : Type 0} (I : Store → Tables → Type 0) (m : M Store A) : Type 0 where
  pub at : (w : World Store) → I w.redis w.db.tables → I (m w).1.redis (m w).1.db.tables

module _ {Store : Type 0} {I : Store → Tables → Type 0} where
  pub Keeps-pure : {A : Type 0} (a : A) → Keeps I (pure a)
  Keeps-pure a = record { at = λ w h. h }

  pub Keeps-fail : {A : Type 0} (e : ProxyError) → Keeps I (fail {A = A} e)
  Keeps-fail e = record { at = λ w h. h }

  pub Keeps-lift : {A : Type 0} (r : ProxyResult A) → Keeps I (lift r)
  Keeps-lift r = record { at = λ w h. h }

  pub Keeps-utc_now : Keeps I utc_now
  unfolding utc_now
  Keeps-utc_now = record { at = λ w h. h }

  pub Keeps-new_uuid : Keeps I new_uuid
  unfolding new_uuid
  Keeps-new_uuid = record { at = λ w h. h }

  pub Keeps-command :
      {A : Type 0} (c : Store → Result String A × Store)
      → ((s : Store) (t : Tables) → I s t → I (c s).1 t)
      → Keeps I (command c)
  Keeps-command c k = record { at = λ w h. k w.redis w.db.tables h }

  pub Keeps-attempt : {A : Type 0} (m : M Store A) → Keeps I m → Keeps I (attempt m)
  Keeps-attempt m k = record { at = λ w h. k.at w h }

  pub Keeps-if :
      {A : Type 0} (b : Bool) (m n : M Store A)
      → Keeps I m
      → Keeps I n
      → Keeps I (if b then m else n)
  Keeps-if true m n km kn = km
  Keeps-if false m n km kn = kn

  rest :
      {A B : Type 0} (r : ProxyResult A × World Store) (f : A → M Store B)
      → ((a : A) → Keeps I (f a))
      → I r.1.redis r.1.db.tables
      → I (bind r f).1.redis (bind r f).1.db.tables
  rest (ok a, w) f k h = (k a).at w h
  rest (err e, w) f k h = h

  -- The rest of the block may use that `r` has not failed.
  pub Keeps-bind-lift :
      {A B : Type 0} (r : ProxyResult A) (f : A → M Store B)
      → ((a : A) → r ≡ ok a → Keeps I (f a))
      → Keeps I (lift r >>= f)
  Keeps-bind-lift (ok a) f k = k a refl
  Keeps-bind-lift (err e) f k = Keeps-fail e

  pub Keeps-bind :
      {A B : Type 0} (m : M Store A) (f : A → M Store B)
      → Keeps I m
      → ((a : A) → Keeps I (f a))
      → Keeps I (m >>= f)
  Keeps-bind m f km kf = record { at = λ w h. rest (m w) f kf (km.at w h) }

  -- The rest of the block may use what `m` has answered, and the worlds before and after it.
  pub Keeps-bind-known :
      {A B : Type 0} (m : M Store A) (f : A → M Store B)
      → Keeps I m
      → ((a : A) (w v : World Store)
          → m w ≡ (ok a, v)
          → I w.redis w.db.tables
          → I v.redis v.db.tables
          → I (f a v).1.redis (f a v).1.db.tables)
      → Keeps I (m >>= f)
  Keeps-bind-known {A} m f km kf = record {
    at = λ w h. known (m w) (km.at w h) (λ a v q. kf a w v q h);
  }
    where
      known :
          (r : ProxyResult A × World Store)
          → I r.1.redis r.1.db.tables
          → ((a : A) (v : World Store)
              → r ≡ (ok a, v)
              → I v.redis v.db.tables
              → I (f a v).1.redis (f a v).1.db.tables)
          → I (bind r f).1.redis (bind r f).1.db.tables
      known (ok a, v) h k = k a v refl h
      known (err e, v) h k = h

  -- The rest of the block may use what `m` has answered.
  pub Keeps-bind-answer :
      {A B : Type 0} (m : M Store A) (f : A → M Store B)
      → Keeps I m
      → ((a : A) (w v : World Store) → m w ≡ (ok a, v) → Keeps I (f a))
      → Keeps I (m >>= f)
  Keeps-bind-answer m f km kf = Keeps-bind-known m f km λ a w v q _ h. (kf a w v q).at v h

pub ruleset keeps_rules = (
  Keeps-pure, Keeps-fail, Keeps-lift, Keeps-utc_now, Keeps-new_uuid, Keeps-attempt, Keeps-if,
  Keeps-bind,
)
