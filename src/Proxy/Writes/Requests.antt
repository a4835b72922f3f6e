-- ===== src/Proxy/Writes/Requests.antt =====
-- src/proxy/mod.rs: every request, and the requests of a connection.
use zero_trust_proxy.Common.{
  Bool, true, false, Option, none, some, List, [], ◌∷◌, Bool-cases, Option-cases, ◌≡◌, subst, arith,
  if◌then◌else◌, inl, inr, ◌==◌,
}
use zero_trust_proxy.Db.{Tables}
use zero_trust_proxy.World.{World, M}
use zero_trust_proxy.World.Respects.{Respects, IsPreorder, respects_rules}
use zero_trust_proxy.Risk.{IpAddr}
use zero_trust_proxy.Proxy.Server.{Platform, Request, ProxyServer}
use zero_trust_proxy.Proxy.Upstream.{Response, HttpClient}
use zero_trust_proxy.Proxy.Dispatch.{Drawn, auth_handler, gated, routed, handle_request}
use zero_trust_proxy.World.Monad.{step-cases}
use zero_trust_proxy.Proxy.Gate.{authorize}
use zero_trust_proxy.Proxy.Serve.{serve_connection}
use zero_trust_proxy.Proxy.Writes.{Admits}
use zero_trust_proxy.Proxy.Writes.Gate.{authorize-Respects}
use zero_trust_proxy.Proxy.Writes.Login.{handle_login-Respects}
use zero_trust_proxy.Proxy.Writes.Handlers.{
  handle_register-Respects, handle_mfa_enroll-Respects, handle_mfa_verify-Respects,
  handle_logout-Respects, handle_logout_all-Respects,
}

-- The computation of a path that has a handler.
pub record OptionRespects {Store : Type 0} (R : Tables → Tables → Type 0)
    (found : Option (M Store Response)) : Type 0 where
  pub of_handler : (handler : M Store Response) → found ≡ some handler → Respects R handler

module _ {Store : Type 0} {R : Tables → Tables → Type 0} where
  OptionRespects-none : OptionRespects {Store = Store} R none
  OptionRespects-none = record { of_handler = λ handler h. absurd (ground arith) }

  OptionRespects-some :
      (handler : M Store Response) → Respects R handler → OptionRespects R (some handler)
  OptionRespects-some handler k = record {
    of_handler = λ other h. subst (λ m. Respects R m) (ground arith) k;
  }

  OptionRespects-if :
      (b : Bool) (m n : Option (M Store Response))
      → OptionRespects R m
      → OptionRespects R n
      → OptionRespects R (if b then m else n)
  OptionRespects-if true m n km kn = km
  OptionRespects-if false m n km kn = kn

module _ {Store F : Type 0} (R : Tables → Tables → Type 0) ⦃order : IsPreorder R⦄
    ⦃writes : Admits R⦄ (p : Platform Store F) {Backend : Type 0} (client : HttpClient Backend)
    (server : ProxyServer) where
  auth_handler-Respects :
      (drawn : Drawn) (remote : IpAddr) (req : Request)
      → OptionRespects R (auth_handler p client server drawn remote req)
  unfolding auth_handler
  auth_handler-Respects drawn remote req =
      search
        (
          respects_rules, OptionRespects-none, OptionRespects-some, OptionRespects-if,
          handle_login-Respects, handle_register-Respects, handle_mfa_enroll-Respects,
          handle_mfa_verify-Respects, handle_logout-Respects, handle_logout_all-Respects,
        )
        depth 12

  gated-Respects :
      (drawn : Drawn) (remote : IpAddr) (req : Request) (w : World Store) (backend : Backend)
      → R w.db.tables (gated p client server drawn remote req w backend).1.db.tables
  unfolding gated
  gated-Respects drawn remote req w backend =
      let passed : Respects R (authorize p server req.method req.path remote req) =
        authorize-Respects p server req.method req.path remote req in
      elim (step-cases (authorize p server req.method req.path remote req w)) [
        | inl (_, w', q) ↦ rw (q, gated) (subst (λ r. R w.db.tables r.1.db.tables) q (passed.at w))
        | inr (e, w', q) ↦ rw (q, gated) (subst (λ r. R w.db.tables r.1.db.tables) q (passed.at w))
      ]

  routed-Respects :
      (drawn : Drawn) (remote : IpAddr) (req : Request) (w : World Store) (backend : Backend)
      → R w.db.tables (routed p client server drawn remote req w backend).1.db.tables
  unfolding routed
  routed-Respects drawn remote req w backend =
      elim (Option-cases (auth_handler p client server drawn remote req)) [
        | inr (handler, q) ↦
            rw (q, routed) (((auth_handler-Respects drawn remote req).of_handler handler q).at w)
        | inl q ↦ rw (q, routed) (gated-Respects drawn remote req w backend)
      ]

  pub handle_request-Respects :
      (drawn : Drawn) (remote : IpAddr) (req : Request) (w : World Store) (backend : Backend)
      → R w.db.tables (handle_request p client server drawn remote req w backend).1.db.tables
  unfolding handle_request
  handle_request-Respects drawn remote req w backend = elim (Bool-cases (req.path == "/health")) [
    | inl health ↦ rw health (order.stays w.db.tables)
    | inr health ↦ elim (Bool-cases (req.path == "/metrics")) [
      | inl metrics ↦ rw (health, metrics) (order.stays w.db.tables)
      | inr metrics ↦ rw (health, metrics) (routed-Respects drawn remote req w backend)
    ]
  ]

  pub serve_connection-Respects :
      (remote : IpAddr) (requests : List (Request × Drawn)) (w : World Store) (backend : Backend)
      → R w.db.tables (serve_connection p client server remote requests w backend).1.db.tables
  unfolding serve_connection
  serve_connection-Respects remote [] w backend = order.stays w.db.tables
  serve_connection-Respects remote ((req, drawn) ∷ rest) w backend =
      let (response, w1, backend1) = handle_request p client server drawn remote req w backend in
      order.follows w.db.tables w1.db.tables
        (serve_connection p client server remote rest w1 backend1).1.db.tables
        (handle_request-Respects drawn remote req w backend)
        (serve_connection-Respects remote rest w1 backend1)
