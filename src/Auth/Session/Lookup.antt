-- ===== src/Auth/Session/Lookup.antt =====
-- src/auth/session.rs: what a successful `get_session` says of the store.
use zero_trust_proxy.Common.{
  suc, ◌≡◌, refl, ap, ◌∙◌, String, true, false, Option, none, some, arith, Bool-cases, inl, inr,
}
use zero_trust_proxy.Common.Int.{ltb_ℤ}
use zero_trust_proxy.Clock.{Chrono}
use zero_trust_proxy.Error.{
  invalid_session, redis_error, Result, ProxyResult, ok, err, Result-cases,
}
use zero_trust_proxy.World.{Redis, Codec, World, utc_now}
use zero_trust_proxy.Auth.Session.{
  Session, key_of, is_expired, update_activity, delete_session, found_session, get_session,
}

module _ {Store : Type 0} (redis : Redis Store) (chrono : Chrono) (json : Codec Session) where
  -- The session was stored under the id, its expiry was not before the clock when it was looked up,
  -- and it is returned as it was stored but for its last activity, the next reading of the clock.
  pub record Fetched (session_id : String) (w : World Store) (session : Session) : Type 0 where
    pub text : String
    pub stored : Session
    pub answered : (redis.get (key_of session_id) w.redis).0 ≡ ok (some text)
    pub decoded : json.from_str text ≡ ok stored
    pub is_live : ltb_ℤ stored.expires_at (w.clock w.readings) ≡ false
    pub touched : session ≡ record stored { last_activity = w.clock (suc w.readings) }

  found_session-ok :
      (session_id : String) (found : Option String) (w w' : World Store) (session : Session)
      → found_session redis chrono json session_id found w ≡ (ok session, w')
      → (text : String) × (stored : Session) × (found ≡ some text)
        × (json.from_str text ≡ ok stored)
        × (ltb_ℤ stored.expires_at (w.clock w.readings) ≡ false)
        × (session ≡ record stored { last_activity = w.clock (suc w.readings) })
  unfolding found_session utc_now is_expired update_activity
  found_session-ok session_id none w w' session h = cc
  found_session-ok session_id (some text) w w' session h =
      elim (Result-cases (json.from_str text)) [
        | inr (e, q) ↦ absurd (ground arith)
        | inl (stored, q) ↦ elim (Bool-cases (is_expired stored (w.clock w.readings))) [
          | inl late ↦ absurd (ground arith)
          | inr live ↦ (text, stored, refl, q, live, ground arith)
        ]
      ]

  -- A session that get_session returns was stored under the id, its expiry is not before the
  -- reading of the clock, and it is what was stored in every field but the last activity, which is
  -- the reading after that.
  pub get_session-Fetched :
      (session_id : String) (w w' : World Store) (session : Session)
      → get_session redis chrono json session_id w ≡ (ok session, w')
      → Fetched session_id w session
  unfolding get_session
  get_session-Fetched session_id w w' session h =
      elim (Result-cases (redis.get (key_of session_id) w.redis).0) [
        | inr (e, q) ↦ absurd (ground arith)
        | inl (found, q) ↦
            let (text, stored, p, d, l, t) =
              found_session-ok session_id found
                (record w { redis = (redis.get (key_of session_id) w.redis).1 }) w' session
                (ground arith) in
            record {
              text = text;
              stored = stored;
              answered = q ∙ ap ok p;
              decoded = d;
              is_live = l;
              touched = t;
            }
      ]

  -- The state in which a session is looked up again, once its text has been fetched.
  abbrev pub after_get : String → World Store → World Store
  after_get session_id w = record w { redis = (redis.get (key_of session_id) w.redis).1 }

  -- The refusal that follows a deletion.
  abbrev pub refusal : Result String (Unit {0}) → ProxyResult Session
  refusal (ok done) = err (invalid_session "Session expired")
  refusal (err e) = err (redis_error e)

  -- A session that is found expired is deleted under the id that was asked for, and the caller is
  -- refused: with "Session expired" if Redis answers the deletion, with its error if not.
  pub get_session_expired :
      (session_id text : String) (stored : Session) (w : World Store)
      → (redis.get (key_of session_id) w.redis).0 ≡ ok (some text)
      → json.from_str text ≡ ok stored
      → is_expired stored (w.clock w.readings) ≡ true
      → let (answer, s) = redis.del (key_of session_id) (redis.get (key_of session_id) w.redis).1 in
        ((get_session redis chrono json session_id w).1.redis ≡ s)
        × ((get_session redis chrono json session_id w).0 ≡ refusal answer)
  unfolding get_session found_session utc_now delete_session
  get_session_expired session_id text stored w a d l = rw a (ground arith)
