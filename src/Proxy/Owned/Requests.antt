-- ===== src/Proxy/Owned/Requests.antt =====
-- src/proxy/mod.rs: every request leaves every session to an active account, and so the gate lets
-- through only requests of active accounts.
use zero_trust_proxy.Common.{
  Bool, true, false, Option, none, some, List, [], ◌∷◌, Bool-cases, Option-cases, ◌≡◌, subst, arith,
  if◌then◌else◌, inl, inr, ◌==◌,
}
use zero_trust_proxy.Db.{Tables}
use zero_trust_proxy.World.{World, M}
use zero_trust_proxy.Risk.{IpAddr}
use zero_trust_proxy.Proxy.Server.{Platform, Request, ProxyServer}
use zero_trust_proxy.Proxy.Upstream.{Response, HttpClient}
use zero_trust_proxy.Proxy.Dispatch.{Drawn, auth_handler, gated, routed, handle_request}
use zero_trust_proxy.World.Monad.{step-cases}
use zero_trust_proxy.Proxy.Gate.{authorize}
use zero_trust_proxy.Proxy.Serve.{serve_connection}
use zero_trust_proxy.Common.{String, sym, ap}
use zero_trust_proxy.Error.{ok}
use zero_trust_proxy.World.{utc_now}
use zero_trust_proxy.World.{RoundTrips}
use zero_trust_proxy.World.Laws.{RedisLaws}
use zero_trust_proxy.World.Keeps.{Keeps, keeps_rules}
use zero_trust_proxy.Auth.Jwt.{Claims, validate_token}
use zero_trust_proxy.Proxy.Gate.Exact.{Authorized, authorize_iff}
use zero_trust_proxy.Proxy.Owned.{IsActive, IsOwned, IsOwned-IsLasting}
use zero_trust_proxy.Proxy.Owned.Sessions.{get_session-IsActive}
use zero_trust_proxy.Proxy.Owned.Gate.{authorize-Keeps, validate_token-Keeps}
use zero_trust_proxy.Proxy.Owned.Login.{handle_login-Keeps}
use zero_trust_proxy.Proxy.Owned.Handlers.{
  handle_register-Keeps, handle_mfa_enroll-Keeps, handle_mfa_verify-Keeps, handle_logout-Keeps,
  handle_logout_all-Keeps,
}

-- The computation of a path that has a handler.
record OptionKeeps {Store : Type 0} (I : Store → Tables → Type 0)
    (found : Option (M Store Response)) : Type 0 where
  pub of_handler : (handler : M Store Response) → found ≡ some handler → Keeps I handler

module _ {Store : Type 0} {I : Store → Tables → Type 0} where
  OptionKeeps-none : OptionKeeps I none
  OptionKeeps-none = record { of_handler = λ handler h. absurd (ground arith) }

  OptionKeeps-some : (handler : M Store Response) → Keeps I handler → OptionKeeps I (some handler)
  OptionKeeps-some handler k = record {
    of_handler = λ other h. subst (λ m. Keeps I m) (ground arith) k;
  }

  OptionKeeps-if :
      (b : Bool) (m n : Option (M Store Response))
      → OptionKeeps I m
      → OptionKeeps I n
      → OptionKeeps I (if b then m else n)
  OptionKeeps-if true m n km kn = km
  OptionKeeps-if false m n km kn = kn

module _ {Store F Backend : Type 0} (p : Platform Store F) (value : Store → String → Option String)
    (laws : RedisLaws p.redis value) (codec : RoundTrips p.session_json)
    (client : HttpClient Backend) (server : ProxyServer) where
  auth_handler-Keeps :
      (drawn : Drawn) (remote : IpAddr) (req : Request)
      → OptionKeeps
          (IsOwned p.redis value p.session_json)
          (auth_handler p client server drawn remote req)
  unfolding auth_handler
  auth_handler-Keeps drawn remote req =
      search
        (
          keeps_rules,
          OptionKeeps-none,
          OptionKeeps-some,
          OptionKeeps-if,
          handle_login-Keeps p value laws codec,
          handle_register-Keeps p value laws codec,
          handle_mfa_enroll-Keeps p value laws codec,
          handle_mfa_verify-Keeps p value laws codec,
          handle_logout-Keeps p value laws codec,
          handle_logout_all-Keeps p value laws codec,
        )
        depth 12

  abbrev OwnedIn : World Store → Type 0
  OwnedIn w = IsOwned p.redis value p.session_json w.redis w.db.tables

  gated-Owned :
      (drawn : Drawn) (remote : IpAddr) (req : Request) (w : World Store) (backend : Backend)
      → OwnedIn w
      → OwnedIn (gated p client server drawn remote req w backend).1
  unfolding gated
  gated-Owned drawn remote req w backend h =
      let kept =
        (authorize-Keeps p value laws codec server req.method req.path remote req).at w h in
      elim (step-cases (authorize p server req.method req.path remote req w)) [
        | inl (_, w', q) ↦ rw (q, gated) (subst (λ r. OwnedIn r.1) q kept)
        | inr (e, w', q) ↦ rw (q, gated) (subst (λ r. OwnedIn r.1) q kept)
      ]

  routed-Owned :
      (drawn : Drawn) (remote : IpAddr) (req : Request) (w : World Store) (backend : Backend)
      → OwnedIn w
      → OwnedIn (routed p client server drawn remote req w backend).1
  unfolding routed
  routed-Owned drawn remote req w backend h =
      elim (Option-cases (auth_handler p client server drawn remote req)) [
        | inr (handler, q) ↦
            rw (q, routed) (((auth_handler-Keeps drawn remote req).of_handler handler q).at w h)
        | inl q ↦ rw (q, routed) (gated-Owned drawn remote req w backend h)
      ]

  handle_request-Owned :
      (drawn : Drawn) (remote : IpAddr) (req : Request) (w : World Store) (backend : Backend)
      → OwnedIn w
      → OwnedIn (handle_request p client server drawn remote req w backend).1
  unfolding handle_request
  handle_request-Owned drawn remote req w backend h = elim (Bool-cases (req.path == "/health")) [
    | inl health ↦ rw health h
    | inr health ↦ elim (Bool-cases (req.path == "/metrics")) [
      | inl metrics ↦ rw (health, metrics) h
      | inr metrics ↦ rw (health, metrics) (routed-Owned drawn remote req w backend h)
    ]
  ]

  pub serve_connection-Owned :
      (remote : IpAddr) (requests : List (Request × Drawn)) (w : World Store) (backend : Backend)
      → OwnedIn w
      → OwnedIn (serve_connection p client server remote requests w backend).1
  unfolding serve_connection
  serve_connection-Owned remote [] w backend h = h
  serve_connection-Owned remote ((req, drawn) ∷ rest) w backend h =
      let (response, w1, backend1) = handle_request p client server drawn remote req w backend in
      serve_connection-Owned remote rest w1 backend1
        (handle_request-Owned drawn remote req w backend h)

  validate_token-tables :
      (token : String) (claims : Claims) (w w1 : World Store)
      → validate_token p.jwt p.chrono server.jwt_manager token w ≡ (ok claims, w1)
      → w1.db.tables ≡ w.db.tables
  unfolding validate_token utc_now
  validate_token-tables token claims w w1 h = sym (ap (λ r. r.1.db.tables) h)

  -- The subject of the token of a request that is let through is an active account.
  authorize-IsActive :
      (method path : String) (remote : IpAddr) (req : Request) (w : World Store)
      → OwnedIn w
      → (authorize p server method path remote req w).0 ≡ ok tt
      → (a : Authorized p server method path remote req w) × IsActive a.claims.sub w.db.tables
  authorize-IsActive method path remote req w h granted =
      let a = (authorize_iff p server method path remote req w).0 granted in
      let same = validate_token-tables a.token a.claims w a.w1 a.valid in
      let kept =
        (validate_token-Keeps p value laws codec (IsOwned p.redis value p.session_json)
            (IsOwned-IsLasting p.redis value p.session_json) server.jwt_manager a.token).at
          w h in
      let owned = subst (λ r. OwnedIn r.1) a.valid kept in
      let active =
        get_session-IsActive p.redis value laws p.chrono p.session_json codec a.claims.session_id
          a.w1 a.w2 a.session a.is_live owned in
      (a, rw (← a.owner, ← same) active)

  -- Whatever requests a connection sends, from a world in which every session belongs to an active
  -- account, it comes to one in which a request is let through only if the subject of its token is
  -- an active account.
  pub serve_connection-authorize :
      (requests : List (Request × Drawn)) (method path : String) (remote later : IpAddr)
      (req : Request) (w : World Store) (backend : Backend)
      → OwnedIn w
      → (authorize p server method path later req
          (serve_connection p client server remote requests w backend).1).0
        ≡ ok tt
      → (a : Authorized p server method path later req
          (serve_connection p client server remote requests w backend).1)
        × IsActive a.claims.sub
            (serve_connection p client server remote requests w backend).1.db.tables
  serve_connection-authorize requests method path remote later req w backend h granted =
      authorize-IsActive method path later req
        (serve_connection p client server remote requests w backend).1
        (serve_connection-Owned remote requests w backend h) granted
