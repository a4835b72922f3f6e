-- ===== src/World.antt =====
-- The state that the handlers share, and the monad of their results. The clock and the source of
-- UUIDs are streams with a counter each: two readings of the clock are two elements. Redis is a
-- parameter: its store and its commands, each of which answers or fails.
pub mod Laws
pub mod Monad
pub mod Respects
pub mod Keeps
use zero_trust_proxy.Common.{ℕ, suc, ◌≡◌, String, Option, none, some, List, Bool, true, false}
use zero_trust_proxy.Common.Int.{ℤ}
use zero_trust_proxy.Clock.{DateTime}
use zero_trust_proxy.Error.{
  ProxyError, redis_error, database_error, Result, ok, err, ProxyResult, map_err,
}
use zero_trust_proxy.Db.{Database, Statement}

pub record Redis (Store : Type 0) : Type 0 where
  pub get : String → Store → Result String (Option String) × Store
  -- The key, the value and the seconds to live.
  pub set_ex : String → String → ℕ → Store → Result String (Unit {0}) × Store
  pub del : String → Store → Result String (Unit {0}) × Store
  pub scan_match : String → Store → Result String (List String) × Store
  pub incr : String → ℕ → Store → Result String ℤ × Store
  pub expire : String → ℤ → Store → Result String (Unit {0}) × Store

-- `serde_json` at one type.
pub record Codec (A : Type 0) : Type 0 where
  pub to_string : A → Result String String
  pub from_str : String → Result String A

-- What was printed is read back.
pub record RoundTrips {A : Type 0} (codec : Codec A) : Type 0 where
  pub round_trip : (a : A) (s : String) → codec.to_string a ≡ ok s → codec.from_str s ≡ ok a

pub record World (Store : Type 0) : Type 0 where
  pub redis : Store
  pub db : Database
  pub clock : ℕ → DateTime
  pub readings : ℕ
  pub uuids : ℕ → String
  pub drawn : ℕ

abbrev pub M : Type 0 → Type 0 → Type 0
M Store A = World Store → ProxyResult A × World Store

module _ {Store : Type 0} where
  infixl 5 ◌>>=◌ ◌>>◌
  abbrev pub pure : {A : Type 0} → A → M Store A
  pure a w = (ok a, w)

  abbrev pub fail : {A : Type 0} → ProxyError → M Store A
  fail e w = (err e, w)

  abbrev pub bind :
      {A B : Type 0} → ProxyResult A × World Store → (A → M Store B) → ProxyResult B × World Store
  bind (ok a, w) f = f a w
  bind (err e, w) f = (err e, w)

  abbrev pub ◌>>=◌ : {A B : Type 0} → M Store A → (A → M Store B) → M Store B
  ◌>>=◌ m f w = bind (m w) f

  abbrev pub ◌>>◌ : {A B : Type 0} → M Store A → M Store B → M Store B
  m >> k = m >>= λ _. k

  -- A pure computation with `?`.
  abbrev pub lift : {A : Type 0} → ProxyResult A → M Store A
  lift r w = (r, w)

  -- A failure is the value of the computation, as in `.ok()` and in `if let Ok(…)`.
  abbrev pub attempt : {A : Type 0} → M Store A → M Store (ProxyResult A)
  attempt m w = let (r, w') = m w in (ok r, w')

  -- `Utc::now()`.
  unfoldable pub utc_now : M Store DateTime
  utc_now w = (ok (w.clock w.readings), record w { readings = suc w.readings })

  -- `Uuid::new_v4().to_string()`.
  unfoldable pub new_uuid : M Store String
  new_uuid w = (ok (w.uuids w.drawn), record w { drawn = suc w.drawn })

  -- A Redis command with `?`.
  abbrev pub command : {A : Type 0} → (Store → Result String A × Store) → M Store A
  command c w = let (r, s) = c w.redis in (map_err redis_error r, record w { redis = s })

  -- A statement of the database with `?`.
  abbrev pub statement : {A : Type 0} → Statement A → M Store A
  statement q w = let (r, d) = q w.db in (map_err database_error r, record w { db = d })
