-- ===== src/Examples/Growth.antt =====
-- The tables after the requests of a connection, at concrete inputs.
use zero_trust_proxy.Common.{ℕ, suc, [], ◌∷◌, some, List, refl, any}
use zero_trust_proxy.Common.Distinct.{Distinct}
use zero_trust_proxy.Error.{ok}
use zero_trust_proxy.Proxy.Server.{Request}
use zero_trust_proxy.Proxy.Upstream.{HttpClient}
use zero_trust_proxy.Proxy.Dispatch.{Drawn}
use zero_trust_proxy.Proxy.Serve.{serve_connection}
use zero_trust_proxy.Proxy.Writes.Grows.{Grows, serve_connection-Grows}
use zero_trust_proxy.Proxy.Writes.Consistent.{IsConsistent, serve_connection-IsConsistent}
use zero_trust_proxy.Examples.Fixtures.{lenient, server, request, remote}
use zero_trust_proxy.Examples.Login.{login_world}

abbrev pub client : HttpClient ℕ
client = record {
  request = λ out n. (ok (record { status = 204; headers = []; body = some "" }), suc n);
  parse_uri = λ s. some s;
}

abbrev pub drawn : Drawn
drawn = record { salt = "salt"; gen_range = λ i n. 0 }

abbrev post : Request
post = record request { method = "POST"; body = some "pass" }

-- A login, an enrolment, an attempt to register the same name, and a request for the upstream.
abbrev requests : List (Request × Drawn)
requests =
    (record post { path = "/auth/login" }, drawn)
    ∷ (record post { path = "/auth/mfa/enroll" }, drawn)
    ∷ (record post { path = "/auth/register" }, drawn)
    ∷ (request, drawn)
    ∷ []

serve_connection-Grows_example :
    Grows login_world.db.tables
      (serve_connection lenient client server remote requests login_world 0).1.db.tables
serve_connection-Grows_example =
    serve_connection-Grows lenient client server remote requests login_world 0

start : IsConsistent login_world.db.tables
unfolding Distinct any
start = record {
  usernames = (refl, tt);
  emails = (refl, tt);
  fingerprints = tt;
  secrets = ((λ on. refl), tt);
}

serve_connection-IsConsistent_example :
    IsConsistent (serve_connection lenient client server remote requests login_world 0).1.db.tables
serve_connection-IsConsistent_example =
    serve_connection-IsConsistent lenient client server remote requests login_world 0 start
