-- ===== src/Examples/Serial.antt =====
-- Sequences of session operations at concrete worlds.
use zero_trust_proxy.Common.{
  ℕ, zero, suc, ◌≡◌, ◌≢◌, ◌≤◌, ◌⊎◌, refl, eq_iff, String, false, none, some, [], ◌∷◌, arith,
}
use zero_trust_proxy.Common.Int.{pos}
use zero_trust_proxy.Clock.{utc}
use zero_trust_proxy.Error.{ok, err, invalid_session, redis_error}
use zero_trust_proxy.World.{World}
use zero_trust_proxy.Auth.Session.{get_session, delete_session, found_session}
use zero_trust_proxy.Auth.Session.Serial.{Reach, here, next, logged_in, looked_up, revoked}
use zero_trust_proxy.Auth.Session.Serial.Final.{get_session-Reach}
use zero_trust_proxy.Auth.Session.Lifecycle.{Holds}
use zero_trust_proxy.Auth.Session.Race.{found_session-delete_session}
use zero_trust_proxy.Examples.Store.{Pairs, redis, lookup, redis-RedisLaws}
use zero_trust_proxy.Examples.Fixtures.{
  session_json, session_json-RoundTrips, touched, fresh, world,
}
use zero_trust_proxy.Examples.Sessions.{session_run}

-- The first login draws "s1", and no later one does.
abbrev ids : ℕ → String
ids zero = "s1"
ids (suc n) = "u0"

abbrev unused : World Pairs
unused = record world { redis = []; uuids = ids }

-- A login stores its session twice.
abbrev stored : World Pairs
stored = record unused {
  redis = ("session:s1", "fresh") ∷ ("session:s1", "fresh") ∷ [];
  readings = 2;
  drawn = 1;
}

abbrev ended : World Pairs
ended = record stored { redis = [] }

login : Reach redis lookup utc session_json unused stored
unfolding session_run
login =
    next here (logged_in (pos 15) "alice" "laptop" fresh.ip_address fresh.user_agent false 0 unused)

-- A failed lookup and a revocation.
afterwards : Reach redis lookup utc session_json ended ended
unfolding session_run
afterwards = next (next here (looked_up "s1" ended)) (revoked "alice" ended)

later_ids : (n : ℕ) → 1 ≤ n → ids n ≢ "s1"
later_ids zero h q = omega (arith, h)
later_ids (suc n) h q = let same = (eq_iff "u0" "s1").1 q in absurd (ground arith)

logout : delete_session redis utc session_json "s1" stored ≡ (ok tt, ended)
unfolding session_run
logout = refl

get_session-Reach_example :
    ((get_session redis utc session_json "s1" ended).0 ≡ err (invalid_session "Session not found"))
    ⊎ ((e : String) × ((get_session redis utc session_json "s1" ended).0 ≡ err (redis_error e)))
unfolding lookup
get_session-Reach_example =
    get_session-Reach redis lookup redis-RedisLaws utc session_json session_json-RoundTrips "s1"
      unused stored ended ended (λ j text session held decoded. absurd (ground arith)) login
      later_ids logout afterwards

-- A lookup fetches "opened", the logout empties the store, and the lookup goes on.
abbrev emptied : World Pairs
emptied = record world { redis = [] }

abbrev resumed : World Pairs
resumed = record world { redis = ("session:s1", "touched") ∷ []; readings = 3 }

overtaken : delete_session redis utc session_json "s1" world ≡ (ok tt, emptied)
unfolding session_run
overtaken = refl

resumption :
    found_session redis utc session_json "s1" (some "opened") emptied ≡ (ok touched, resumed)
unfolding session_run
resumption = refl

found_session-delete_session_example :
    (lookup emptied.redis "session:s1" ≡ none)
    × Holds redis lookup redis-RedisLaws utc session_json resumed.redis touched
unfolding session_run
found_session-delete_session_example =
    found_session-delete_session redis lookup redis-RedisLaws utc session_json "s1" "opened" world
      emptied resumed touched overtaken resumption refl
