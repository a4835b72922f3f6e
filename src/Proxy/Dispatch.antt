-- ===== src/Proxy/Dispatch.antt =====
-- src/proxy/mod.rs: `handle_request`, the one entry of every request, with the handlers' answers
-- printed as responses. The log line is left out.
pub mod Isolation
use zero_trust_proxy.Common.{ℕ, String, ◌==◌, Bool, ◌&&◌, Option, none, some, if◌then◌else◌}
use zero_trust_proxy.Error.{ProxyError, ok, err, ProxyResult}
use zero_trust_proxy.Db.{UserRow}
use zero_trust_proxy.World.{World, M, bind, ◌>>=◌, lift}
use zero_trust_proxy.Auth.Mfa.{Rng}
use zero_trust_proxy.Risk.{IpAddr}
use zero_trust_proxy.Proxy.Bodies.{
  BodyCodec, Payload, logged_in, registered, enrolled, mfa_verified, logged_out, revoked,
}
use zero_trust_proxy.Proxy.Server.{Platform, Request, ProxyServer}
use zero_trust_proxy.Proxy.Gate.{authorize}
use zero_trust_proxy.Proxy.Login.{handle_login}
use zero_trust_proxy.Proxy.Register.{handle_register}
use zero_trust_proxy.Proxy.MfaSetup.{handle_mfa_enroll, handle_mfa_verify}
use zero_trust_proxy.Proxy.Logout.{handle_logout, handle_logout_all}
use zero_trust_proxy.Proxy.Upstream.{
  Response, text_response, json_response, error_response, HttpClient, forward_upstream,
}

-- What is drawn at random for one request.
pub record Drawn : Type 0 where
  pub salt : String
  pub gen_range : Rng

unfoldable pub handle_metrics : Response
handle_metrics =
    text_response 200
      "# Zero-Trust Proxy Metrics\nztp_requests_total 0\nztp_auth_failures_total 0\n"

-- `result.unwrap_or_else(error_response)`.
abbrev pub or_error_response : BodyCodec → ProxyResult Response → Response
or_error_response bodies (ok response) = response
or_error_response bodies (err e) = error_response bodies e

abbrev pub is_post : Request → String → Bool
is_post req path = req.path == path && req.method == "POST"

module _ {Store F Backend : Type 0} (p : Platform Store F) (client : HttpClient Backend)
    (server : ProxyServer) (drawn : Drawn) where
  -- A handler whose answer is printed with a status.
  abbrev responding : {A : Type 0} → ℕ → (A → Payload) → M Store A → M Store Response
  responding status payload handler = do
    answer ← handler
    lift (json_response p.bodies status (payload answer))

  -- A handler that has nothing to do with the backend.
  abbrev local :
      M Store Response → World Store → Backend → ProxyResult Response × World Store × Backend
  local handler w backend = let (answer, w') = handler w in (answer, w', backend)

  abbrev after_gate :
      Request
      → ProxyResult (Unit {0}) × World Store
      → Backend
      → ProxyResult Response × World Store × Backend
  after_gate req (ok _, w) backend =
      let (answer, backend') = forward_upstream client server req backend in (answer, w, backend')
  after_gate req (err e, w) backend = (err e, w, backend)

  unfoldable pub gated :
      IpAddr → Request → World Store → Backend → ProxyResult Response × World Store × Backend
  gated remote req w backend =
      after_gate req (authorize p server req.method req.path remote req w) backend

  abbrev registered_row : UserRow → Payload
  registered_row user = registered user.id user.username user.email

  -- The handler of the path and the method, for the paths that have one of their own.
  unfoldable pub auth_handler : IpAddr → Request → Option (M Store Response)
  auth_handler remote req =
      if is_post req "/auth/login"
      then some (responding 200 logged_in (handle_login p server remote req))
      else if is_post req "/auth/register"
      then some (responding 201 registered_row (handle_register p remote drawn.salt req))
      else if is_post req "/auth/mfa/enroll"
      then some (responding 200 enrolled (handle_mfa_enroll p server drawn.gen_range req))
      else if is_post req "/auth/mfa/verify"
      then some (responding 200 (λ _. mfa_verified) (handle_mfa_verify p server remote req))
      else if is_post req "/auth/logout"
      then some (responding 200 (λ _. logged_out) (handle_logout p server req))
      else if is_post req "/auth/logout_all"
      then some (responding 200 revoked (handle_logout_all p server req))
      else none

  unfoldable pub routed :
      IpAddr → Request → World Store → Backend → ProxyResult Response × World Store × Backend
  routed remote req = elim (auth_handler remote req) [
    | some handler ↦ local handler
    | none ↦ gated remote req
  ]

  abbrev pub answered :
      ProxyResult Response × World Store × Backend → Response × World Store × Backend
  answered (r, w, backend) = (or_error_response p.bodies r, w, backend)

  unfoldable pub handle_request :
      IpAddr → Request → World Store → Backend → Response × World Store × Backend
  handle_request remote req w backend =
      if req.path == "/health"
      then (text_response 200 "OK", w, backend)
      else if req.path == "/metrics"
      then (handle_metrics, w, backend)
      else answered (routed remote req w backend)
