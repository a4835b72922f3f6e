-- ===== src/Examples/Owners.antt =====
-- A request of an active account, at a concrete world.
use zero_trust_proxy.Common.{
  ◌+◌, ◌-◌, ◌*◌, ◌≡◌, refl, arith, String, some, [], ◌∷◌, List, any, contains_text,
}
use zero_trust_proxy.Common.Int.{pos}
use zero_trust_proxy.Common.Text.{starts_with, strip_suffix_char, to_lowercase}
use zero_trust_proxy.Error.{ok}
use zero_trust_proxy.World.{World}
use zero_trust_proxy.Auth.Session.{
  Session, key_of, get_session, found_session, is_expired, update_session, update_activity,
}
use zero_trust_proxy.Auth.Jwt.{extract_token_from_header, validate_token}
use zero_trust_proxy.Policy
use zero_trust_proxy.Policy.{
  evaluate, decide, scan_policies, scan_rules, applies, matches_resource, evaluate_conditions,
  add_policy,
}
use zero_trust_proxy.Proxy.Server.{Request, header_or, get_header, build_default_policy_engine}
use zero_trust_proxy.Proxy.Gate.{
  authorize, check_session, check_policy, assess_risk, decide_access, policy_context,
}
use zero_trust_proxy.Proxy.Gate.Exact.{Authorized}
use zero_trust_proxy.Proxy.Dispatch.{Drawn, handle_request, routed, gated, auth_handler}
use zero_trust_proxy.Proxy.Serve.{serve_connection}
use zero_trust_proxy.Proxy.Owned.{IsActive, IsOwned}
use zero_trust_proxy.Proxy.Owned.Requests.{serve_connection-authorize}
use zero_trust_proxy.Examples.Gate.{gate_run}
use zero_trust_proxy.Examples.Store.{Pairs, redis, lookup, redis-RedisLaws}
use zero_trust_proxy.Examples.Fixtures.{
  platform, jwt, server, request, remote, opened, session_json, session_json-RoundTrips,
}
use zero_trust_proxy.Examples.Login.{login_world}
use zero_trust_proxy.Examples.Growth.{client, drawn}

-- The account of alice and her session; the clock moves on after its second reading.
abbrev start : World Pairs
start = record login_world { clock = λ n. pos (129600000000000 + (n - 1) * 60000000000) }

-- A request without a token, and a look at the health of the server.
abbrev requests : List (Request × Drawn)
requests =
    (record request { headers = [] }, drawn) ∷ (record request { path = "/health" }, drawn) ∷ []

owned : IsOwned platform.redis lookup platform.session_json start.redis start.db.tables
unfolding platform session_json lookup any
owned = record { owned = λ j text session held decoded. belongs j text session held decoded }
  where
    belongs :
        (j text : String) (session : Session)
        → lookup start.redis (key_of j) ≡ some text
        → session_json.from_str text ≡ ok session
        → IsActive session.user_id start.db.tables
    belongs j text session held decoded =
        let same : text ≡ "opened" = ground arith in
        let found : opened ≡ session = ground (arith, rw same at decoded) in rw (← found) refl

granted :
    (authorize platform server "GET" "/api/items" remote request
      (serve_connection platform client server remote requests start 0).1).0
    ≡ ok tt
unfolding gate_run redis server authorize validate_token get_session found_session is_expired
    update_session update_activity check_session check_policy assess_risk decide_access
    policy_context evaluate decide scan_policies scan_rules applies matches_resource
    evaluate_conditions strip_suffix_char contains_text any to_lowercase extract_token_from_header
    header_or get_header starts_with build_default_policy_engine add_policy Policy.new
    serve_connection handle_request routed gated auth_handler session_json jwt
granted = refl

serve_connection-authorize_example :
    (a : Authorized platform server "GET" "/api/items" remote request
      (serve_connection platform client server remote requests start 0).1)
    × IsActive a.claims.sub
        (serve_connection platform client server remote requests start 0).1.db.tables
unfolding platform
serve_connection-authorize_example =
    serve_connection-authorize platform lookup redis-RedisLaws session_json-RoundTrips client server
      requests "GET" "/api/items" remote remote request start 0 owned granted
