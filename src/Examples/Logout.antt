-- ===== src/Examples/Logout.antt =====
-- A logout at a concrete request.
use text.Mathlib.TextLemmas.{append_cancel_left}
use Prim.Native.String.{◌++◌ as ◌<>◌}
use zero_trust_proxy.Common.{ℕ, ◌≤◌, ◌≡◌, ◌≢◌, refl, eq_iff, some, [], arith}
use zero_trust_proxy.Error.{ok}
use zero_trust_proxy.World.{World, RoundTrips, utc_now}
use zero_trust_proxy.World.Laws.{RedisLaws}
use zero_trust_proxy.Common.Int.{◌+ℤ◌, fdiv}
use zero_trust_proxy.Common.Text.{starts_with}
use zero_trust_proxy.Auth.Session.{delete_session, get_session, found_session}
use zero_trust_proxy.Auth.Session.Serial.{WellKeyed, Reach, here, next, looked_up}
use zero_trust_proxy.Auth.Jwt.{extract_token_from_header, validate_token}
use zero_trust_proxy.Proxy.Server.{Request, header_or, get_header}
use zero_trust_proxy.Proxy.Gate.{authorize}
use zero_trust_proxy.Proxy.Logout.{handle_logout}
use zero_trust_proxy.Proxy.Logout.Final.{authorize-handle_logout}
use zero_trust_proxy.Examples.Store.{Pairs, redis, lookup, redis-RedisLaws}
use zero_trust_proxy.Examples.Fixtures.{
  platform, server, request, remote, world, claims, jwt, session_json, session_json-RoundTrips,
}

abbrev logged_out : World Pairs
logged_out = record world { redis = []; readings = 1 }

logout_run : Unit {0}
unfolding platform server redis jwt utc_now ◌+ℤ◌ fdiv handle_logout delete_session validate_token
    extract_token_from_header header_or get_header
logout_run = tt

-- Alice's token comes back in a request of another kind, after a lookup that failed.
abbrev replayed : Request
replayed = record request { method = "POST"; path = "/api/orders"; body = some "{}" }

own_keys : WellKeyed lookup platform.session_json world.redis
unfolding platform lookup session_json
own_keys j text session held read =
    let own : "session:s1" ≡ "session:" <> j =
      ground (arith, eq_iff "session:s1" ("session:" <> j)) in
    let named : "s1" ≡ j = append_cancel_left "session:" "s1" j own in rw (← named) (ground arith)

undrawn : (n : ℕ) → 0 ≤ n → world.uuids n ≢ claims.session_id
undrawn n h q = let same = (eq_iff "u0" "s1").1 q in absurd (ground arith)

looked : Reach platform.redis lookup platform.chrono platform.session_json logged_out logged_out
unfolding logout_run get_session found_session
looked = next here (looked_up "s1" logged_out)

platform-RedisLaws : RedisLaws platform.redis lookup
unfolding platform
platform-RedisLaws = redis-RedisLaws

codec : RoundTrips platform.session_json
unfolding platform
codec = session_json-RoundTrips

authorize-handle_logout_example :
    (authorize platform server "POST" "/api/orders" remote replayed logged_out).0 ≢ ok tt
unfolding logout_run starts_with
authorize-handle_logout_example =
    authorize-handle_logout platform server lookup platform-RedisLaws codec request "t1" claims
      world logged_out logged_out own_keys undrawn refl refl refl looked "POST" "/api/orders" remote
      replayed "t1" claims refl refl refl
