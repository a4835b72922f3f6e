-- ===== src/Proxy/Dispatch/Isolation.antt =====
-- src/proxy/mod.rs: what reaches the backend, and what does not.
use Prim.Native.String.{◌++◌ as ◌<>◌}
use zero_trust_proxy.Common.{
  ◌≡◌, refl, String, ◌==◌, Bool, true, false, ◌||◌, Option, none, some, ◌⊎◌, inl, inr, arith,
  unwrap_or, ◌≤◌, Bool-cases, Option-cases,
}
use zero_trust_proxy.Common.Text.{trim_end_matches}
use zero_trust_proxy.Error.{ProxyError, ok, err, Result, Result-cases, status_code}
use zero_trust_proxy.Error.Status.{status_code_range}
use zero_trust_proxy.Proxy.Bodies.{BodyCodec}
use zero_trust_proxy.World.{World, M}
use zero_trust_proxy.World.Monad.{step-cases}
use zero_trust_proxy.Risk.{IpAddr}
use zero_trust_proxy.Proxy.Server.{Platform, Request, ProxyServer, visible, get_header}
use zero_trust_proxy.Proxy.Gate.{authorize}
use zero_trust_proxy.Proxy.Upstream.Passing.{Carries, without_host-Carries}
use zero_trust_proxy.Proxy.Upstream.{
  Response, error_response, HttpClient, UpstreamRequest, UpstreamResponse, received,
  upstream_request, forward_upstream, without_host,
}
use zero_trust_proxy.Proxy.Dispatch.{
  Drawn, is_post, auth_handler, gated, routed, handle_request, answered, or_error_response,
}

-- The requests that the server answers itself.
abbrev pub is_own : Request → Bool
is_own req =
    (req.path == "/health" || req.path == "/metrics")
    || (is_post req "/auth/login" || is_post req "/auth/register")
    || (is_post req "/auth/mfa/enroll" || is_post req "/auth/mfa/verify")
    || (is_post req "/auth/logout" || is_post req "/auth/logout_all")

-- The response that stands for an answer of the backend.
abbrev pub RelayedBody : UpstreamResponse → Option String → Response → Type 0
RelayedBody r none response = response.status ≡ 500
RelayedBody r (some body) response =
    (response.status ≡ r.status) × (response.headers ≡ r.headers) × (response.body ≡ body)

abbrev pub Relayed : Result String UpstreamResponse → Response → Type 0
Relayed (err e) response = response.status ≡ 500
Relayed (ok r) response = RelayedBody r r.body response

received_lem :
    (bodies : BodyCodec) (r : UpstreamResponse) (body : Option String)
    → r.body ≡ body
    → RelayedBody r body (or_error_response bodies (received (ok r)))
unfolding received error_response status_code
received_lem bodies r none h = rw h refl
received_lem bodies r (some body) h = rw h (refl, refl, refl)

received-Relayed :
    (bodies : BodyCodec) (answer : Result String UpstreamResponse)
    → Relayed answer (or_error_response bodies (received answer))
unfolding received error_response status_code
received-Relayed bodies (err e) = refl
received-Relayed bodies (ok r) = received_lem bodies r r.body refl

module _ {Store F Backend : Type 0} (p : Platform Store F) (client : HttpClient Backend)
    (server : ProxyServer) (drawn : Drawn) (remote : IpAddr) where
  -- One request was sent: with the method, the target, the body and the headers but for `host` of
  -- an authorized request that is not the server's own.
  pub record Forwarded (req : Request) (w : World Store) (backend backend' : Backend) : Type 0 where
    pub not_own : is_own req ≡ false
    pub authorized : (authorize p server req.method req.path remote req w).0 ≡ ok tt
    pub out : UpstreamRequest
    pub same_method : out.method ≡ req.method
    pub same_body : req.body ≡ some out.body
    pub same_headers : out.headers ≡ without_host req.headers
    pub no_host : (name : String) → Carries name req.headers out.headers
    pub target :
        client.parse_uri (
          trim_end_matches b'/' server.config.upstream.default_backend
          <> unwrap_or req.path_and_query "/")
        ≡ some out.uri
    pub sent : backend' ≡ (client.request out backend).1

  upstream_request-ok :
      (req : Request) (out : UpstreamRequest)
      → upstream_request client server req ≡ ok out
      → (out.method ≡ req.method)
        × (req.body ≡ some out.body)
        × (out.headers ≡ without_host req.headers)
        × (client.parse_uri (
              trim_end_matches b'/' server.config.upstream.default_backend
              <> unwrap_or req.path_and_query "/")
            ≡ some out.uri)
  unfolding upstream_request
  upstream_request-ok req out h = elim (Option-cases req.body) [
    | inl q ↦ absurd (ground arith)
    | inr (body, q) ↦
        elim (Option-cases (
          client.parse_uri (
            trim_end_matches b'/' server.config.upstream.default_backend
            <> unwrap_or req.path_and_query "/"))) [
              | inl r ↦ absurd (ground arith)
              | inr (uri, r) ↦ (ground arith, ground arith, ground arith, ground arith)
            ]
  ]

  gated_backend :
      (req : Request) (w : World Store) (backend : Backend)
      → is_own req ≡ false
      → ((gated p client server drawn remote req w backend).2 ≡ backend)
        ⊎ Forwarded req w backend (gated p client server drawn remote req w backend).2
  unfolding gated forward_upstream
  gated_backend req w backend other =
      elim (step-cases (authorize p server req.method req.path remote req w)) [
        | inr (e, w', q) ↦ inl (ground arith)
        | inl (_, w', q) ↦ elim (Result-cases (upstream_request client server req)) [
          | inr (e, r) ↦ inl (ground arith)
          | inl (out, r) ↦
              let (m, b, h, t) = upstream_request-ok req out r in
              inr (record {
                not_own = other;
                authorized = ground arith;
                out = out;
                same_method = m;
                same_body = b;
                same_headers = h;
                no_host = λ name. rw h (without_host-Carries name req.headers);
                target = t;
                sent = ground arith;
              })
        ]
      ]

  -- Only a request of the server's own has a handler, or is answered at once.
  own_handler :
      (req : Request) (handler : M Store Response)
      → auth_handler p client server drawn remote req ≡ some handler
      → is_own req ≡ true
  unfolding auth_handler
  own_handler req handler h = ground arith

  other_handler :
      (req : Request)
      → auth_handler p client server drawn remote req ≡ none
      → (req.path == "/health") ≡ false
      → (req.path == "/metrics") ≡ false
      → is_own req ≡ false
  unfolding auth_handler
  other_handler req h health metrics = ground arith

  routed_backend :
      (req : Request) (w : World Store) (backend : Backend)
      → (req.path == "/health") ≡ false
      → (req.path == "/metrics") ≡ false
      → ((routed p client server drawn remote req w backend).2 ≡ backend)
        ⊎ Forwarded req w backend (routed p client server drawn remote req w backend).2
  unfolding routed
  routed_backend req w backend health metrics =
      elim (Option-cases (auth_handler p client server drawn remote req)) [
        | inr (handler, q) ↦ inl (rw (q, routed) refl)
        | inl q ↦ rw (q, routed) (gated_backend req w backend (other_handler req q health metrics))
      ]

  -- A request leaves the backend alone, or it is authorized and none of the server's own, and the
  -- backend has got one request: its method, its body, its headers but the host, and its path and
  -- query behind the address of the backend.
  pub handle_request-Forwarded :
      (req : Request) (w : World Store) (backend : Backend)
      → ((handle_request p client server drawn remote req w backend).2 ≡ backend)
        ⊎ Forwarded req w backend (handle_request p client server drawn remote req w backend).2
  unfolding handle_request
  handle_request-Forwarded req w backend = elim (Bool-cases (req.path == "/health")) [
    | inl health ↦ inl (rw health refl)
    | inr health ↦ elim (Bool-cases (req.path == "/metrics")) [
      | inl metrics ↦ inl (rw (health, metrics) refl)
      | inr metrics ↦ rw (health, metrics) (routed_backend req w backend health metrics)
    ]
  ]

  -- The answer to a request that is not the server's own is the gate's.
  handle_request-gated :
      (req : Request) (w : World Store) (backend : Backend)
      → is_own req ≡ false
      → handle_request p client server drawn remote req w backend
        ≡ answered p client server drawn (gated p client server drawn remote req w backend)
  unfolding handle_request routed
  handle_request-gated req w backend other =
      let health : (req.path == "/health") ≡ false = ground arith in
      let metrics : (req.path == "/metrics") ≡ false = ground arith in
      elim (Option-cases (auth_handler p client server drawn remote req)) [
        | inr (handler, q) ↦ let own = own_handler req handler q in absurd (ground arith)
        | inl q ↦ rw (health, metrics, q, routed) refl
      ]

  -- A request that is not the server's own and that the gate refuses is answered with the status of
  -- the refusal, between 400 and 599, as JSON; the backend hears nothing of it.
  pub handle_request_refused :
      (req : Request) (e : ProxyError) (w w' : World Store) (backend : Backend)
      → is_own req ≡ false
      → authorize p server req.method req.path remote req w ≡ (err e, w')
      → (response : Response) × (handle_request p client server drawn remote req w backend
          ≡ (response, w', backend))
        × (response.status ≡ status_code e)
        × (400 ≤ response.status)
        × (response.status ≤ 599)
        × (get_header "content-type" response.headers ≡ some (visible "application/json"))
  unfolding gated error_response get_header
  handle_request_refused req e w w' backend other h =
      let same = handle_request-gated req w backend other in
      let (low, high, _) = status_code_range e in
      let kept : (error_response p.bodies e).status ≡ status_code e = ground arith in
      (
        error_response p.bodies e,
        rw (same, h) refl,
        kept,
        omega (arith, kept),
        omega (arith, kept),
        refl,
      )

  -- A request that is not the server's own and that the gate lets through reaches the backend, if
  -- its body can be read and its target is a URI; the answer is what the backend replied, with its
  -- status, headers and body, and 500 if there is none.
  pub handle_request_forwarded :
      (req : Request) (out : UpstreamRequest) (w w' : World Store) (backend : Backend)
      → is_own req ≡ false
      → authorize p server req.method req.path remote req w ≡ (ok tt, w')
      → upstream_request client server req ≡ ok out
      → ((handle_request p client server drawn remote req w backend).1 ≡ w')
        × ((handle_request p client server drawn remote req w backend).2
            ≡ (client.request out backend).1)
        × Relayed
            (client.request out backend).0
            (handle_request p client server drawn remote req w backend).0
  unfolding gated forward_upstream
  handle_request_forwarded req out w w' backend other h q =
      let same = handle_request-gated req w backend other in
      rw (same, h, q) (refl, refl, received-Relayed p.bodies (client.request out backend).0)
