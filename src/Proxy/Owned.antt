-- ===== src/Proxy/Owned.antt =====
-- src/proxy/mod.rs: every session in Redis belongs to an active account of the database. What an
-- invariant of this kind has to survive, and the operations of the session manager that it survives.
pub mod Removals
pub mod Sessions
pub mod Gate
pub mod LoginSteps
pub mod Login
pub mod Handlers
pub mod Requests
use Prim.Native.String.{◌++◌ as ◌<>◌}
use zero_trust_proxy.Common.Text.Prefix.{append_apart}
use zero_trust_proxy.Common.{
  ℕ, ◌≡◌, ◌≢◌, refl, sym, ap, ◌∙◌, String, ◌==◌, Bool, true, false, ◌&&◌, ◌||◌, Option, none, some,
  List, [], ◌∷◌, any, arith, inl, inr, Bool-cases, if◌then◌else◌,
}
use zero_trust_proxy.Common.Extends.{Extends}
use zero_trust_proxy.Common.Int.{ℤ}
use zero_trust_proxy.Clock.{Chrono}
use zero_trust_proxy.Error.{ok, err, Result-cases}
use zero_trust_proxy.Db.{UserRow, Tables}
use zero_trust_proxy.World.{Redis, Codec, RoundTrips, World, M, command}
use zero_trust_proxy.World.Laws.{RedisLaws, Lapses}
use zero_trust_proxy.World.Keeps.{Keeps, Keeps-command, keeps_rules}
use zero_trust_proxy.Auth.Session.{Session, key_of}
use zero_trust_proxy.Proxy.Writes.Grows.{Grows, SameUser}

-- The id of an active account.
abbrev pub IsActive : String → Tables → Type 0
IsActive id t = any (λ u. u.id == id && u.is_active) t.users ≡ true

-- Accounts stay active.
pub grows-IsActive : (id : String) (t u : Tables) → Grows t u → IsActive id t → IsActive id u
unfolding Extends any
grows-IsActive id t u g h = go t.users u.users g.users h
  where
    go :
        (xs ys : List UserRow)
        → Extends SameUser xs ys
        → any (λ u. u.id == id && u.is_active) xs ≡ true
        → any (λ u. u.id == id && u.is_active) ys ≡ true
    go [] ys e h = absurd (ground arith)
    go (x ∷ xs) [] e h = absurd e
    go (x ∷ xs) (y ∷ ys) (same, e) h = ground (arith, go xs ys e, same.id, same.is_active)

module _ {Store : Type 0} (redis : Redis Store) (value : Store → String → Option String)
    (json : Codec Session) where
  -- Every session that is stored belongs to an active account.
  pub record IsOwned (s : Store) (t : Tables) : Type 0 where
    pub owned :
        (j text : String) (session : Session)
        → value s (key_of j) ≡ some text
        → json.from_str text ≡ ok session
        → IsActive session.user_id t

  -- The same while an account is known to be active.
  pub record IsOwnedBeside (id : String) (s : Store) (t : Tables) : Type 0 where
    pub sessions : IsOwned s t
    pub active : IsActive id t

  -- What survives the growth of the tables and the expiry of sessions.
  pub record IsLasting (I : Store → Tables → Type 0) : Type 0 where
    pub grows : (s : Store) (t u : Tables) → Grows t u → I s t → I s u
    pub lapses :
        (s s' : Store) (t : Tables)
        → ((j : String) → Lapses (value s (key_of j)) (value s' (key_of j)))
        → I s t
        → I s' t

  pub IsOwned-IsLasting : IsLasting IsOwned
  IsOwned-IsLasting = record {
    grows = λ s t u g h. record {
      owned = λ j text session held decoded.
          grows-IsActive session.user_id t u g (h.owned j text session held decoded);
    };
    lapses = λ s s' t l h. record {
      owned = λ j text session held decoded.
          let step = l j in h.owned j text session (ground arith) decoded;
    };
  }

  pub IsOwnedBeside-IsLasting : (id : String) → IsLasting (IsOwnedBeside id)
  IsOwnedBeside-IsLasting id = record {
    grows = λ s t u g h. record {
      sessions = IsOwned-IsLasting.grows s t u g h.sessions;
      active = grows-IsActive id t u g h.active;
    };
    lapses = λ s s' t l h. record {
      sessions = IsOwned-IsLasting.lapses s s' t l h.sessions;
      active = h.active;
    };
  }

-- A counter is no session.
pub rate_key-key_of : (bucket j : String) → key_of j ≢ "ratelimit:" <> bucket
rate_key-key_of bucket j =
    append_apart "s" "r" "ession:" "atelimit:" j bucket (λ e. absurd (omega arith))
