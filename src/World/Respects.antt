-- ===== src/World/Respects.antt =====
-- Computations that change the tables of the database only as a relation allows. One rule for each
-- way to build a computation.
use zero_trust_proxy.Common.{String, Bool, true, false, if◌then◌else◌}
use zero_trust_proxy.Error.{ProxyError, Result, ok, err, ProxyResult}
use zero_trust_proxy.Db.{Database, Tables, Statement}
use zero_trust_proxy.World.{
  World, M, pure, fail, lift, attempt, command, statement, bind, ◌>>=◌, utc_now, new_uuid,
}

-- Whatever `m` answers, the tables before and after it are related.
pub record Respects {Store A : Type 0} (R : Tables → Tables → Type 0) (m : M Store A) : Type 0 where
  pub at : (w : World Store) → R w.db.tables (m w).1.db.tables

-- What is related to itself, and to what its successors are related to.
pub record IsPreorder (R : Tables → Tables → Type 0) : Type 0 where
  pub stays : (t : Tables) → R t t
  pub follows : (t u v : Tables) → R t u → R u v → R t v

module _ {Store : Type 0} {R : Tables → Tables → Type 0} ⦃order : IsPreorder R⦄ where
  pub Respects-pure : {A : Type 0} (a : A) → Respects R (pure {Store = Store} a)
  Respects-pure a = record { at = λ w. order.stays w.db.tables }

  pub Respects-fail : {A : Type 0} (e : ProxyError) → Respects R (fail {Store = Store} {A = A} e)
  Respects-fail e = record { at = λ w. order.stays w.db.tables }

  pub Respects-lift : {A : Type 0} (r : ProxyResult A) → Respects R (lift {Store = Store} r)
  Respects-lift r = record { at = λ w. order.stays w.db.tables }

  pub Respects-utc_now : Respects R (utc_now {Store = Store})
  unfolding utc_now
  Respects-utc_now = record { at = λ w. order.stays w.db.tables }

  pub Respects-new_uuid : Respects R (new_uuid {Store = Store})
  unfolding new_uuid
  Respects-new_uuid = record { at = λ w. order.stays w.db.tables }

  pub Respects-command : {A : Type 0} (c : Store → Result String A × Store) → Respects R (command c)
  Respects-command c = record { at = λ w. order.stays w.db.tables }

  pub Respects-statement :
      {A : Type 0} (q : Statement A)
      → ((db : Database) → R db.tables (q db).1.tables)
      → Respects R (statement {Store = Store} q)
  Respects-statement q k = record { at = λ w. k w.db }

  pub Respects-attempt : {A : Type 0} (m : M Store A) → Respects R m → Respects R (attempt m)
  Respects-attempt m k = record { at = λ w. k.at w }

  pub Respects-if :
      {A : Type 0} (b : Bool) (m n : M Store A)
      → Respects R m
      → Respects R n
      → Respects R (if b then m else n)
  Respects-if true m n km kn = km
  Respects-if false m n km kn = kn

  rest :
      {A B : Type 0} (r : ProxyResult A × World Store) (f : A → M Store B)
      → ((a : A) → Respects R (f a))
      → R r.1.db.tables (bind r f).1.db.tables
  rest (ok a, w) f k = (k a).at w
  rest (err e, w) f k = order.stays w.db.tables

  pub Respects-bind :
      {A B : Type 0} (m : M Store A) (f : A → M Store B)
      → Respects R m
      → ((a : A) → Respects R (f a))
      → Respects R (m >>= f)
  Respects-bind m f km kf = record {
    at = λ w.
        order.follows w.db.tables (m w).1.db.tables (bind (m w) f).1.db.tables (km.at w)
          (rest (m w) f kf);
  }

pub ruleset respects_rules = (
  Respects-pure, Respects-fail, Respects-lift, Respects-utc_now, Respects-new_uuid,
  Respects-command, Respects-attempt, Respects-if, Respects-bind,
)
