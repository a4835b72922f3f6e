-- ===== src/Examples/Dispatch.antt =====
-- Requests that are forwarded and refused, at concrete inputs.
use zero_trust_proxy.Common.{ℕ, suc, any, contains_text, ◌≡◌, ◌≤◌, refl, ◌⊎◌, some, [], ◌∷◌}
use zero_trust_proxy.Error.{authentication_failed, ok, err, status_code}
use zero_trust_proxy.Proxy.Server.{
  Request, visible, get_header, header_or, build_default_policy_engine, new,
}
use zero_trust_proxy.Config.{default}
use zero_trust_proxy.Proxy.Gate.{
  authorize, check_session, check_policy, assess_risk, decide_access, policy_context,
}
use zero_trust_proxy.Policy
use zero_trust_proxy.Policy.{
  evaluate, decide, scan_policies, scan_rules, applies, matches_resource, evaluate_conditions,
  add_policy,
}
use zero_trust_proxy.Auth.Session.{
  get_session, found_session, is_expired, update_session, update_activity,
}
use zero_trust_proxy.Examples.Gate.{gate_run}
use zero_trust_proxy.Auth.Jwt.{extract_token_from_header, validate_token}
use zero_trust_proxy.Common.Text.{starts_with, strip_suffix_char, to_lowercase, trim_end_matches}
use zero_trust_proxy.Proxy.Upstream.{
  Response, HttpClient, UpstreamRequest, upstream_request, without_host,
}
use zero_trust_proxy.Proxy.Dispatch.{Drawn, handle_request}
use zero_trust_proxy.Proxy.Dispatch.Isolation.{
  Forwarded, Relayed, handle_request-Forwarded, handle_request_refused, handle_request_forwarded,
}
use zero_trust_proxy.Examples.Store.{redis}
use zero_trust_proxy.Examples.Fixtures.{
  answering, platform, lenient, server, request, remote, world,
}

-- A backend that counts its requests.
abbrev client : HttpClient ℕ
client = record {
  request = λ out n. (ok (record { status = 204; headers = []; body = some "" }), suc n);
  parse_uri = λ s. some s;
}

abbrev drawn : Drawn
drawn = record { salt = "salt"; gen_range = λ i n. 0 }

handle_request-Forwarded_example :
    ((handle_request platform client server drawn remote request world 0).2 ≡ 0)
    ⊎ Forwarded platform client server drawn remote request world 0
        (handle_request platform client server drawn remote request world 0).2
handle_request-Forwarded_example =
    handle_request-Forwarded platform client server drawn remote request world 0

-- The same request without its token.
abbrev anonymous : Request
anonymous = record request { headers = [] }

refused_run :
    authorize platform server "GET" "/api/items" remote anonymous world
    ≡ (err (authentication_failed "Invalid authorization header format"), world)
unfolding authorize extract_token_from_header header_or get_header starts_with
refused_run = refl

handle_request_refused_example :
    (response : Response) × (handle_request platform client server drawn remote anonymous world 0
      ≡ (response, world, 0))
    × (response.status ≡ status_code (authentication_failed "Invalid authorization header format"))
    × (400 ≤ response.status)
    × (response.status ≤ 599)
    × (get_header "content-type" response.headers ≡ some (visible "application/json"))
handle_request_refused_example =
    handle_request_refused platform client server drawn remote anonymous
      (authentication_failed "Invalid authorization header format") world world 0 refl refused_run

granted : (authorize lenient server "GET" "/api/items" remote request world).0 ≡ ok tt
unfolding gate_run redis lenient server authorize validate_token get_session found_session
    is_expired update_session update_activity check_session check_policy assess_risk decide_access
    policy_context evaluate decide scan_policies scan_rules applies matches_resource
    evaluate_conditions strip_suffix_char contains_text any to_lowercase extract_token_from_header
    header_or get_header starts_with build_default_policy_engine add_policy Policy.new
granted = refl

abbrev out : UpstreamRequest
out = record {
  method = "GET";
  uri = "http://localhost:8080/api/items?page=2";
  headers = ("authorization", visible "Bearer t1") ∷ [];
  body = "";
}

out_run : upstream_request client server request ≡ ok out
unfolding upstream_request without_host trim_end_matches server new default
out_run = refl

handle_request_forwarded_example :
    ((handle_request lenient client server drawn remote request world 0).1
      ≡ (authorize lenient server "GET" "/api/items" remote request world).1)
    × ((handle_request lenient client server drawn remote request world 0).2 ≡ 1)
    × Relayed
        (ok (record { status = 204; headers = []; body = some "" }))
        (handle_request lenient client server drawn remote request world 0).0
handle_request_forwarded_example =
    handle_request_forwarded lenient client server drawn remote request out world
      (authorize lenient server "GET" "/api/items" remote request world).1 0 refl
      (answering (authorize lenient server "GET" "/api/items" remote request world) (ok tt) granted)
      out_run
