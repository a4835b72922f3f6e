-- ===== src/Auth/Session/Lifecycle.antt =====
-- src/auth/session.rs: a session from its creation to its revocation, over any Redis that keeps the
-- documented laws.
use zero_trust_proxy.Common.{
  ℕ, suc, ◌≡◌, refl, ap, ◌∙◌, String, false, Option, none, some, arith, Bool-cases, inl, inr, ◌⊎◌,
  List, [], ◌∷◌, All, subst, length,
}
use zero_trust_proxy.Common.Int.{ℤ, pos, ltb_ℤ, ◌-ℤ◌, ◌+ℤ◌, scale}
use zero_trust_proxy.Clock.{Chrono}
use zero_trust_proxy.Error.{
  invalid_session, redis_error, serialization_error, ok, err, Result-cases,
}
use zero_trust_proxy.World.{Redis, Codec, RoundTrips, World, utc_now, new_uuid}
use zero_trust_proxy.World.Laws.{RedisLaws}
use zero_trust_proxy.Auth.Session.{
  Session, to_u64, key_of, is_expired, update_activity, new, create_session, update_session,
  delete_session, found_session, get_session, delete_sessions, get_user_sessions,
  revoke_user_sessions,
}

module _ {Store : Type 0} (redis : Redis Store) (value : Store → String → Option String)
    (laws : RedisLaws redis value) (chrono : Chrono) (json : Codec Session) where
  -- What the store holds under the id of a session, read back.
  abbrev pub Holds : Store → Session → Type 0
  Holds s session =
      (text : String) × (value s (key_of session.id) ≡ some text)
      × (json.to_string session ≡ ok text)

  -- A new session belongs to its user, has no second factor and no risk, and is in the store.
  pub create_session-Holds :
      (duration : ℤ) (user device ip agent : String) (w w' : World Store) (session : Session)
      → create_session redis chrono json duration user device ip agent w ≡ (ok session, w')
      → (session.user_id ≡ user)
        × (session.device_id ≡ device)
        × (session.mfa_verified ≡ false)
        × (session.id ≡ w.uuids w.drawn)
        × Holds w'.redis session
  unfolding create_session new utc_now new_uuid
  create_session-Holds duration user device ip agent w w' session h =
      let made : Session = record {
        id = w.uuids w.drawn;
        user_id = user;
        device_id = device;
        created_at = w.clock w.readings;
        expires_at = w.clock w.readings +ℤ chrono.minutes duration;
        last_activity = w.clock w.readings;
        ip_address = ip;
        user_agent = agent;
        mfa_verified = false;
        risk_score = 0;
      } in
      elim (Result-cases (json.to_string made)) [
        | inr (e, p) ↦ absurd (ground arith)
        | inl (text, p) ↦
            let ttl = to_u64 (scale 60 duration) in
            elim (Result-cases (redis.set_ex (key_of (w.uuids w.drawn)) text ttl w.redis).0) [
              | inr (e, q) ↦ absurd (ground arith)
              | inl (done, q) ↦
                  let same : session ≡ made = ground arith in
                  rw same (
                    refl,
                    refl,
                    refl,
                    refl,
                    (
                      text,
                      ground
                          (arith, laws.set_ex_value (key_of (w.uuids w.drawn)) text ttl w.redis q),
                      p,
                    ),
                  )
            ]
      ]

  pub delete_session_gone :
      (session_id : String) (w w' : World Store)
      → delete_session redis chrono json session_id w ≡ (ok tt, w')
      → value w'.redis (key_of session_id) ≡ none
  unfolding delete_session
  delete_session_gone session_id w w' h = ground (arith, laws.del_value (key_of session_id) w.redis)

  pub get_session_gone :
      (session_id : String) (w : World Store)
      → value w.redis (key_of session_id) ≡ none
      → ((get_session redis chrono json session_id w).0 ≡ err (invalid_session "Session not found"))
        ⊎ ((e : String) × ((get_session redis chrono json session_id w).0 ≡ err (redis_error e)))
  unfolding get_session found_session
  get_session_gone session_id w gone =
      elim (Result-cases (redis.get (key_of session_id) w.redis).0) [
        | inr (e, q) ↦ inr (e, ground arith)
        | inl (found, q) ↦
            let nothing = laws.get_value (key_of session_id) w.redis found q in inl (ground arith)
      ]

  -- After a logout that Redis has answered, the session cannot be looked up: `get_session` is
  -- answered with "Session not found", or Redis fails.
  pub get_session-delete_session :
      (session_id : String) (w w' : World Store)
      → delete_session redis chrono json session_id w ≡ (ok tt, w')
      → ((get_session redis chrono json session_id w').0
          ≡ err (invalid_session "Session not found"))
        ⊎ ((e : String) × ((get_session redis chrono json session_id w').0 ≡ err (redis_error e)))
  get_session-delete_session session_id w w' h =
      get_session_gone session_id w' (delete_session_gone session_id w w' h)

  -- A session that the store holds and that has not expired is found again with its last activity
  -- brought up to date, unless Redis or the serializer fails on the way.
  pub get_session-Holds :
      (session : Session) (w : World Store)
      → RoundTrips json
      → Holds w.redis session
      → is_expired session (w.clock w.readings) ≡ false
      → ((get_session redis chrono json session.id w).0
          ≡ ok (record session { last_activity = w.clock (suc w.readings) }))
        ⊎ ((e : String) × ((get_session redis chrono json session.id w).0 ≡ err (redis_error e)))
        ⊎ ((e : String) × ((get_session redis chrono json session.id w).0
              ≡ err (serialization_error e)))
  unfolding get_session found_session utc_now update_session update_activity
  get_session-Holds session w codec (text, held, printed) live =
      elim (Result-cases (redis.get (key_of session.id) w.redis).0) [
        | inr (e, q) ↦ inr (inl (e, ground arith))
        | inl (found, q) ↦
            let active = update_activity session (w.clock (suc w.readings)) in
            let s1 = (redis.get (key_of session.id) w.redis).1 in
            let decoded = codec.round_trip session text printed in
            let same : found ≡ some text =
              laws.get_value (key_of session.id) w.redis found q ∙ held in
            elim (Result-cases (json.to_string active)) [
              | inr (e, p) ↦ inr (inr (e, ground arith))
              | inl (fresh, p) ↦
                  let ttl =
                    chrono.num_seconds (active.expires_at -ℤ w.clock (suc (suc w.readings))) in
                  elim (Bool-cases (ltb_ℤ (pos 0) ttl)) [
                    | inr b ↦ inl (ground arith)
                    | inl b ↦
                        elim (Result-cases
                          (redis.set_ex (key_of active.id) fresh (to_u64 ttl) s1).0) [
                            | inr (e, r) ↦ inr (inl (e, ground arith))
                            | inl (done, r) ↦ inl (ground arith)
                          ]
                  ]
            ]
      ]

  -- A key that has no value gets none from deletions.
  pub delete_sessions_keep :
      (ss : List Session) (k : String) (w : World Store)
      → value w.redis k ≡ none
      → value (delete_sessions redis chrono json ss w).1.redis k ≡ none
  unfolding delete_sessions delete_session
  delete_sessions_keep [] k w h = h
  delete_sessions_keep (s ∷ ss) k w h =
      let w1 = (delete_session redis chrono json s.id w).1 in
      let lapsed : value w1.redis k ≡ none =
        ground (arith, laws.del_keeps (key_of s.id) k w.redis) in
      ground (arith, delete_sessions_keep ss k w1 lapsed)

  abbrev pub Gone : Store → List Session → Type 0
  Gone s ss = All (λ session. value s (key_of session.id) ≡ none) ss

  pub delete_sessions-Gone :
      (ss : List Session) (w w' : World Store)
      → delete_sessions redis chrono json ss w ≡ (ok tt, w')
      → Gone w'.redis ss
  unfolding delete_sessions delete_session
  delete_sessions-Gone [] w w' h = tt
  delete_sessions-Gone (s ∷ ss) w w' h = elim (Result-cases (redis.del (key_of s.id) w.redis).0) [
    | inr (e, q) ↦ absurd (ground arith)
    | inl (done, q) ↦
        let w1 = record w { redis = (redis.del (key_of s.id) w.redis).1 } in
        let here = laws.del_value (key_of s.id) w.redis q in
        let rest : delete_sessions redis chrono json ss w1 ≡ (ok tt, w') = ground arith in
        (
          subst (λ v. value v.redis (key_of s.id) ≡ none) (ap (λ p. p.1) rest)
              (delete_sessions_keep ss (key_of s.id) w1 here),
          delete_sessions-Gone ss w1 w' rest,
        )
  ]

  -- A "log out everywhere" that answers has deleted every session that `get_user_sessions` found,
  -- and its number is the number of these.
  pub revoke_user_sessions-Gone :
      (user_id : String) (w w' : World Store) (n : ℕ)
      → revoke_user_sessions redis chrono json user_id w ≡ (ok n, w')
      → (ss : List Session) × ((get_user_sessions redis chrono json user_id w).0 ≡ ok ss)
        × (n ≡ length ss)
        × Gone w'.redis ss
  unfolding revoke_user_sessions
  revoke_user_sessions-Gone user_id w w' n h =
      elim (Result-cases (get_user_sessions redis chrono json user_id w).0) [
        | inr (e, q) ↦ absurd (ground arith)
        | inl (ss, q) ↦
            let w1 = (get_user_sessions redis chrono json user_id w).1 in
            elim (Result-cases (delete_sessions redis chrono json ss w1).0) [
              | inr (e, r) ↦ absurd (ground arith)
              | inl (tt, r) ↦ (ss, q, ground arith, delete_sessions-Gone ss w1 w' (ground arith))
            ]
      ]
