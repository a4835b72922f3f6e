-- ===== src/Auth/Session/Race.antt =====
-- src/auth/session.rs: a lookup and a logout that overlap: the lookup has fetched the text of the
-- session, the logout deletes it, and the lookup goes on.
use zero_trust_proxy.Common.{
  ℕ, suc, ◌≡◌, String, true, Option, none, some, arith, Bool-cases, inl, inr,
}
use zero_trust_proxy.Common.Int.{pos, ltb_ℤ, ◌-ℤ◌}
use zero_trust_proxy.Clock.{Chrono}
use zero_trust_proxy.Error.{ok, Result-cases}
use zero_trust_proxy.World.{Redis, Codec, World, pure, utc_now}
use zero_trust_proxy.World.Monad.{bind-inv}
use zero_trust_proxy.World.Laws.{RedisLaws}
use zero_trust_proxy.Auth.Session.{
  Session, to_u64, key_of, is_expired, update_activity, update_session, delete_session,
  found_session,
}
use zero_trust_proxy.Auth.Session.Lifecycle.{Holds, delete_session_gone}

module _ {Store : Type 0} (redis : Redis Store) (value : Store → String → Option String)
    (laws : RedisLaws redis value) (chrono : Chrono) (json : Codec Session) where
  -- Whether a session has a second left at a reading of the clock, so that an update is written.
  abbrev pub HasTime : Session → (readings : ℕ) → World Store → Type 0
  HasTime session readings w =
      ltb_ℤ (pos 0) (chrono.num_seconds (session.expires_at -ℤ w.clock readings)) ≡ true

  -- An update that is answered has stored a session that has time left.
  pub update_session-Holds :
      (session : Session) (w w' : World Store)
      → update_session redis chrono json session w ≡ (ok tt, w')
      → HasTime session w.readings w
      → Holds redis value laws chrono json w'.redis session
  unfolding update_session utc_now
  update_session-Holds session w w' h time = elim (Result-cases (json.to_string session)) [
    | inr (e, p) ↦ absurd (ground arith)
    | inl (text, p) ↦
        let ttl = to_u64 (chrono.num_seconds (session.expires_at -ℤ w.clock w.readings)) in
        elim (Result-cases (redis.set_ex (key_of session.id) text ttl w.redis).0) [
          | inr (e, q) ↦ absurd (ground arith)
          | inl (tt, q) ↦
              (text, ground (arith, laws.set_ex_value (key_of session.id) text ttl w.redis q), p)
        ]
  ]

  -- A lookup that has fetched the text of a session before a logout deletes it, and goes on after,
  -- stores the session again if it has time left: it is gone in between, and held at the end.
  pub found_session-delete_session :
      (session_id text : String) (w w1 w2 : World Store) (session : Session)
      → delete_session redis chrono json session_id w ≡ (ok tt, w1)
      → found_session redis chrono json session_id (some text) w1 ≡ (ok session, w2)
      → HasTime session (suc (suc w1.readings)) w1
      → (value w1.redis (key_of session_id) ≡ none)
        × Holds redis value laws chrono json w2.redis session
  unfolding found_session utc_now
  found_session-delete_session session_id text w w1 w2 session deleted h time = (
    delete_session_gone redis value laws chrono json session_id w w1 deleted,
    elim (Result-cases (json.from_str text)) [
      | inr (e, q) ↦ absurd (ground arith)
      | inl (stored, q) ↦ elim (Bool-cases (is_expired stored (w1.clock w1.readings))) [
        | inl late ↦ absurd (ground arith)
        | inr live ↦
            let active = update_activity stored (w1.clock (suc w1.readings)) in
            let w3 = record w1 { readings = suc (suc w1.readings) } in
            let (done, v, updated, rest) =
              bind-inv (update_session redis chrono json active w3) (λ done. pure active)
                (rw (q, live) at h) in
            let same : active ≡ session = ground arith in
            let last : v ≡ w2 = ground arith in
            rw (← same, ← last) (update_session-Holds active w3 v updated (rw (← same) at time))
      ]
    ],
  )
