-- ===== src/Auth/Session/Serial/Revoked.antt =====
-- src/auth/session.rs: what a revocation of all sessions of a user keeps of those that are gone.
use zero_trust_proxy.Common.{
  ◌≡◌, sym, subst, String, ◌==◌, Option, none, some, arith, Bool-cases, inl, inr, List, [], ◌∷◌,
  length,
}
use zero_trust_proxy.Clock.{Chrono}
use zero_trust_proxy.Error.{redis_error, ProxyResult, map_err, ok, err, Result-cases}
use zero_trust_proxy.World.{Redis, Codec, RoundTrips, World, pure, ◌>>◌, attempt, command, utc_now}
use zero_trust_proxy.World.Laws.{RedisLaws}
use zero_trust_proxy.Auth.Session.{
  Session, key_of, delete_session, delete_sessions, get_user_sessions, scan_session_keys,
  live_session, pushed, collect_sessions, revoke_user_sessions,
}
use zero_trust_proxy.Auth.Session.Serial.{GoneIn}
use zero_trust_proxy.Auth.Session.Serial.Keeps.{
  lapse-IsGone, delete_session-IsGone, bind-GoneIn, read_once,
}

module _ {Store : Type 0} (redis : Redis Store) (value : Store → String → Option String)
    (laws : RedisLaws redis value) (chrono : Chrono) (json : Codec Session)
    (codec : RoundTrips json) where
  live_session-IsGone :
      (Ended : String → Type 0) (user_id : String) (answer : ProxyResult (Option String))
      (w : World Store)
      → GoneIn value json Ended w
      → GoneIn value json Ended (live_session redis chrono json user_id answer w).1
  unfolding live_session utc_now
  live_session-IsGone Ended user_id (err e) w g = g
  live_session-IsGone Ended user_id (ok none) w g = g
  live_session-IsGone Ended user_id (ok (some text)) w g =
      let w' = (live_session redis chrono json user_id (ok (some text)) w).1 in
      elim (Result-cases (json.from_str text)) [
        | inr (e, q) ↦
            let same : w' ≡ w = ground arith in subst (GoneIn value json Ended) (sym same) g
        | inl (session, q) ↦ elim (Bool-cases (session.user_id == user_id)) [
          | inl mine ↦
              let same : w' ≡ read_once redis value laws chrono json codec w = ground arith in
              subst (GoneIn value json Ended) (sym same) g
          | inr other ↦
              let same : w' ≡ w = ground arith in subst (GoneIn value json Ended) (sym same) g
        ]
      ]

  collect_sessions-IsGone :
      (Ended : String → Type 0) (user_id : String) (keys : List String) (found : List Session)
      (w : World Store)
      → GoneIn value json Ended w
      → GoneIn value json Ended (collect_sessions redis chrono json user_id keys found w).1
  unfolding collect_sessions
  collect_sessions-IsGone Ended user_id [] found w g = g
  collect_sessions-IsGone Ended user_id (key ∷ keys) found w g =
      let fetched = attempt (command (redis.get key)) w in
      bind-GoneIn redis value laws chrono json codec Ended
        (live_session redis chrono json user_id (map_err redis_error (redis.get key w.redis).0)
          fetched.1)
        (λ one.
          collect_sessions redis chrono json user_id keys (pushed redis chrono json one found))
        (live_session-IsGone Ended user_id (map_err redis_error (redis.get key w.redis).0) fetched.1
          (lapse-IsGone redis value laws chrono json codec Ended w.redis (redis.get key w.redis).1
            w.uuids w.drawn (λ j. laws.get_keeps key (key_of j) w.redis) g))
        (λ one v h g'.
          collect_sessions-IsGone Ended user_id keys (pushed redis chrono json one found) v g')

  delete_sessions-IsGone :
      (Ended : String → Type 0) (sessions : List Session) (w : World Store)
      → GoneIn value json Ended w
      → GoneIn value json Ended (delete_sessions redis chrono json sessions w).1
  unfolding delete_sessions
  delete_sessions-IsGone Ended [] w g = g
  delete_sessions-IsGone Ended (session ∷ rest) w g =
      bind-GoneIn redis value laws chrono json codec Ended
        (delete_session redis chrono json session.id w)
        (λ done. delete_sessions redis chrono json rest)
        (delete_session-IsGone redis value laws chrono json codec Ended session.id w g)
        (λ done v h g'. delete_sessions-IsGone Ended rest v g')

  pub revoke_user_sessions-IsGone :
      (Ended : String → Type 0) (user_id : String) (w : World Store)
      → GoneIn value json Ended w
      → GoneIn value json Ended (revoke_user_sessions redis chrono json user_id w).1
  unfolding revoke_user_sessions get_user_sessions scan_session_keys
  revoke_user_sessions-IsGone Ended user_id w g =
      bind-GoneIn redis value laws chrono json codec Ended
        (get_user_sessions redis chrono json user_id w)
        (λ sessions. delete_sessions redis chrono json sessions >> pure (length sessions))
        (bind-GoneIn redis value laws chrono json codec Ended
          (scan_session_keys redis chrono json w)
          (λ keys. collect_sessions redis chrono json user_id keys [])
          (lapse-IsGone redis value laws chrono json codec Ended w.redis
            (redis.scan_match "session:*" w.redis).1 w.uuids w.drawn
            (λ j. laws.scan_keeps "session:*" (key_of j) w.redis) g)
          (λ keys v h g'. collect_sessions-IsGone Ended user_id keys [] v g'))
        (λ sessions v h g'.
          bind-GoneIn redis value laws chrono json codec Ended
            (delete_sessions redis chrono json sessions v) (λ done. pure (length sessions))
            (delete_sessions-IsGone Ended sessions v g') (λ done u h' g''. g''))
