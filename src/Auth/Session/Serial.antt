-- ===== src/Auth/Session/Serial.antt =====
-- src/auth/session.rs: sequences of session operations, each with the store to itself, as a step
-- relation, and what is said of a session that is gone.
pub mod Keeps
pub mod Revoked
pub mod Final
use text.Mathlib.TextLemmas.{append_cancel_left}
use zero_trust_proxy.Common.{
  ℕ, suc, ◌≤◌, ◌≡◌, ◌≢◌, refl, sym, ap, subst, ◌∙◌, String, Bool, ◌==◌, eq_iff, true, false, Option,
  none, some, arith, Bool-cases, Option-cases, inl, inr, ◌⊎◌, List, [], ◌∷◌, length,
}
use zero_trust_proxy.Common.Int.{ℤ, pos, ltb_ℤ, ◌-ℤ◌, ◌+ℤ◌, scale}
use zero_trust_proxy.Clock.{Chrono}
use zero_trust_proxy.Error.{
  invalid_session, redis_error, ProxyResult, map_err, ok, err, Result-cases,
}
use zero_trust_proxy.World.{
  Redis, Codec, RoundTrips, World, M, pure, fail, bind, ◌>>=◌, ◌>>◌, attempt, command, utc_now,
  new_uuid,
}
use zero_trust_proxy.World.Laws.{RedisLaws, Lapses}
use zero_trust_proxy.Auth.Session.{
  Session, to_u64, key_of, is_expired, update_activity, new, create_session, update_session,
  delete_session, found_session, get_session, delete_sessions, get_user_sessions, scan_session_keys,
  live_session, pushed, collect_sessions, revoke_user_sessions,
}
use zero_trust_proxy.Auth.Session.Lookup.{get_session-Fetched}
use zero_trust_proxy.Auth.Session.Lifecycle.{
  delete_session_gone, get_session_gone, create_session-Holds,
}

module _ {Store : Type 0} (redis : Redis Store) (value : Store → String → Option String)
    (chrono : Chrono) (json : Codec Session) where
  -- Nothing but expiry happens to the sessions, and no UUID is given back.
  pub record Elapses (w w' : World Store) : Type 0 where
    pub lapses : (j : String) → Lapses (value w.redis (key_of j)) (value w'.redis (key_of j))
    pub same_uuids : w'.uuids ≡ w.uuids
    pub drawn_le : w.drawn ≤ w'.drawn

  -- The operations of the handlers: a login creates a session and stores its factors and its risk score, the gate
  -- looks one up, the verification of a code looks one up and stores its second factor, a logout
  -- deletes one; and time passes. Whatever an operation answers, its step leaves what it has done.
  pub data Step : World Store → World Store → Type 0 where
    logged_in :
        (duration : ℤ) (user device ip agent : String) (mfa : Bool) (score : ℕ) (w : World Store)
        → Step w
            ((create_session redis chrono json duration user device ip agent >>= λ s.
                update_session redis chrono json
                  (record s { mfa_verified = mfa; risk_score = score }))
              w).1
    looked_up :
        (session_id : String) (w : World Store)
        → Step w (get_session redis chrono json session_id w).1
    verified :
        (session_id : String) (w : World Store)
        → Step w
            ((get_session redis chrono json session_id >>= λ s.
                update_session redis chrono json (record s { mfa_verified = true }))
              w).1
    logged_out :
        (session_id : String) (w : World Store)
        → Step w (delete_session redis chrono json session_id w).1
    revoked :
        (user_id : String) (w : World Store)
        → Step w (revoke_user_sessions redis chrono json user_id w).1
    elapsed : {w w' : World Store} → Elapses w w' → Step w w'

  pub data Reach (w : World Store) : World Store → Type 0 where
    here : Reach w w
    next : {v u : World Store} → Reach w v → Step v u → Reach w u

module _ {Store : Type 0} (value : Store → String → Option String) (json : Codec Session) where
  -- The text under the key of an id is a session with that id.
  abbrev pub WellKeyed : Store → Type 0
  WellKeyed s =
      (j text : String) (session : Session)
      → value s (key_of j) ≡ some text
      → json.from_str text ≡ ok session
      → session.id ≡ j

  -- No session is stored under the ids of a set, and no login will draw one of them.
  pub record IsGone (Ended : String → Type 0) (s : Store) (uuids : ℕ → String) (drawn : ℕ)
      : Type 0 where
    pub absent : (id : String) → Ended id → value s (key_of id) ≡ none
    pub undrawn : (n : ℕ) → drawn ≤ n → ¬ Ended (uuids n)
    pub keyed : WellKeyed s

  abbrev pub GoneIn : (String → Type 0) → World Store → Type 0
  GoneIn Ended w = IsGone Ended w.redis w.uuids w.drawn
