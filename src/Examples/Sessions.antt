-- ===== src/Examples/Sessions.antt =====
-- Sessions and audit rows at concrete inputs.
use zero_trust_proxy.Common.{
  ℕ, zero, suc, ◌<◌, any, none, ◌≡◌, ◌⊎◌, refl, String, false, [], ◌∷◌, arith,
}
use zero_trust_proxy.Common.Int.{pos, ◌+ℤ◌, ◌-ℤ◌, scale, tdiv}
use zero_trust_proxy.Clock.{utc}
use zero_trust_proxy.Error.{ok, err, redis_error, serialization_error}
use zero_trust_proxy.World.{World, utc_now, new_uuid}
use zero_trust_proxy.Auth.Session.{
  is_expired, update_activity, create_session, get_session, delete_session, get_user_sessions,
  revoke_user_sessions, found_session, new, update_session, to_u64, scan_session_keys,
  collect_sessions, live_session, delete_sessions,
}
use zero_trust_proxy.Auth.Session.Lookup.{Fetched, get_session-Fetched}
use zero_trust_proxy.Auth.Session.Revocation.{revoke_user_sessions_complete}
use zero_trust_proxy.Auth.Session.Lifecycle.{get_session-Holds}
use zero_trust_proxy.Examples.Store.{Pairs, redis, lookup, redis-RedisLaws}
use zero_trust_proxy.Examples.Fixtures.{
  session_json, session_json-RoundTrips, opened, touched, fresh, world, clock,
}

unfoldable pub session_run : Unit {0}
unfolding get_session found_session create_session new update_session delete_session to_u64
    is_expired update_activity get_user_sessions revoke_user_sessions scan_session_keys
    collect_sessions live_session delete_sessions redis session_json utc_now new_uuid ◌+ℤ◌ ◌-ℤ◌
    scale tdiv
session_run = tt

-- A lookup at the first reading sets the last activity to the second, and stores the session anew.
abbrev looked_up : World Pairs
looked_up = record world {
  redis = ("session:s1", "touched") ∷ ("session:s1", "opened") ∷ [];
  readings = 3;
}

lookup_run : get_session redis utc session_json "s1" world ≡ (ok touched, looked_up)
unfolding session_run
lookup_run = refl

get_session-Fetched_example : Fetched redis utc session_json "s1" world touched
get_session-Fetched_example =
    get_session-Fetched redis utc session_json "s1" world looked_up touched lookup_run

-- Sixteen minutes on.
abbrev later : World Pairs
later = record world { readings = 16 }

-- A login that draws the id "s1".
abbrev early : World Pairs
early = record world { redis = []; uuids = λ n. "s1" }

abbrev logged_in : World Pairs
logged_in = record early { redis = ("session:s1", "fresh") ∷ []; readings = 1; drawn = 1 }

create_run :
    create_session redis utc session_json
      (pos 15)
      "alice"
      "laptop"
      fresh.ip_address
      fresh.user_agent
      early
    ≡ (ok fresh, logged_in)
unfolding session_run
create_run = refl

get_session-Holds_example :
    ((get_session redis utc session_json "s1" world).0
      ≡ ok (record opened { last_activity = clock 1 }))
    ⊎ ((e : String) × ((get_session redis utc session_json "s1" world).0 ≡ err (redis_error e)))
    ⊎ ((e : String) × ((get_session redis utc session_json "s1" world).0
          ≡ err (serialization_error e)))
unfolding session_json is_expired lookup
get_session-Holds_example =
    get_session-Holds redis lookup redis-RedisLaws utc session_json opened world
      session_json-RoundTrips ("opened", refl, refl) refl

abbrev logged_out : World Pairs
logged_out = record world { redis = [] }

delete_run : delete_session redis utc session_json "s1" world ≡ (ok tt, logged_out)
unfolding session_run
delete_run = refl

revoke_run :
    revoke_user_sessions redis utc session_json "alice" world
    ≡ (ok 1, record logged_out { readings = 1 })
unfolding session_run
revoke_run = refl

still_live : (n : ℕ) → n < 1 → is_expired opened (clock n) ≡ false
unfolding is_expired
still_live zero h = refl
still_live (suc n) h = absurd (omega (arith, h))

revoke_user_sessions_complete_example : lookup [] "session:s1" ≡ none
unfolding session_run any
revoke_user_sessions_complete_example =
    revoke_user_sessions_complete redis lookup redis-RedisLaws utc session_json opened
      ("session:s1" ∷ []) world (record logged_out { readings = 1 }) 1 session_json-RoundTrips
      (λ k s. (lookup s k, refl)) ("opened", refl, refl) still_live refl refl revoke_run
