-- ===== src/Proxy/Gate/Exact.antt =====
-- src/proxy/mod.rs: exactly when `authorize` lets a request through.
use Prim.Native.String.{◌++◌ as ◌<>◌}
use zero_trust_proxy.Common.{◌≡◌, ◌≢◌, ◌↔◌, String, eq_iff, true, arith, inl, inr}
use zero_trust_proxy.Error.{ok, Result-cases}
use zero_trust_proxy.World.{World}
use zero_trust_proxy.World.Monad.{step-cases}
use zero_trust_proxy.Auth.Session.{Session, get_session}
use zero_trust_proxy.Auth.Jwt.{Claims, extract_token_from_header, validate_token}
use zero_trust_proxy.Auth.Jwt.Tokens.{extract_token_exact}
use zero_trust_proxy.Policy.{PolicyDecision, evaluate}
use zero_trust_proxy.Policy.Spec.{evaluate-verdict}
use zero_trust_proxy.Risk.{IpAddr, RiskScore, step_up_auth, block}
use zero_trust_proxy.Proxy.Server.{Platform, Request, ProxyServer, header_or}
use zero_trust_proxy.Proxy.Gate.{
  evaluate_request_risk, decide_access, assess_risk, policy_context, check_policy, check_session,
  authorize,
}

module _ {Store F : Type 0} (p : Platform Store F) (server : ProxyServer) (method path : String)
    (remote : IpAddr) where
  -- The risk score does not block the request, and what asks for a second factor has got one.
  pub record Acceptable (session : Session) (risk : RiskScore) : Type 0 where
    pub required : server.config.auth.require_mfa ≡ true → session.mfa_verified ≡ true
    pub not_blocked : risk.recommendation ≢ block
    pub stepped_up : risk.recommendation ≡ step_up_auth → session.mfa_verified ≡ true

  decide_access_sound :
      (claims : Claims) (session : Session) (risk : RiskScore) (w : World Store)
      → (decide_access p server method path remote claims session risk w).0 ≡ ok tt
      → Acceptable session risk
  unfolding decide_access
  decide_access_sound claims session risk w h = ground arith

  decide_access_complete :
      (claims : Claims) (session : Session) (risk : RiskScore) (w : World Store)
      → Acceptable session risk
      → (decide_access p server method path remote claims session risk w).0 ≡ ok tt
  unfolding decide_access
  decide_access_complete claims session risk w a =
      ground (arith, a.not_blocked, a.required, a.stepped_up)

  -- Every fact that lets a request through, with the worlds between the steps.
  pub record Authorized (req : Request) (w : World Store) : Type 0 where
    pub token : String
    pub header : header_or "authorization" "" req.headers ≡ "Bearer " <> token
    pub claims : Claims
    pub w1 : World Store
    pub valid : validate_token p.jwt p.chrono server.jwt_manager token w ≡ (ok claims, w1)
    pub session : Session
    pub w2 : World Store
    pub is_live :
        get_session p.redis p.chrono p.session_json claims.session_id w1 ≡ (ok session, w2)
    pub owner : session.user_id ≡ claims.sub
    pub decision : PolicyDecision
    pub evaluated :
        evaluate p.f64 server.policy_engine (policy_context p server method path remote claims)
        ≡ ok decision
    pub allowed : decision.allowed ≡ true
    pub risk : RiskScore
    pub scored : (evaluate_request_risk p server session remote claims w2).0 ≡ ok risk
    pub acceptable : Acceptable session risk

  assess_risk_sound :
      (claims : Claims) (session : Session) (w : World Store)
      → (assess_risk p server method path remote claims session w).0 ≡ ok tt
      → (risk : RiskScore) × ((evaluate_request_risk p server session remote claims w).0 ≡ ok risk)
        × Acceptable session risk
  unfolding assess_risk
  assess_risk_sound claims session w h =
      elim (step-cases (evaluate_request_risk p server session remote claims w)) [
        | inr (e, v, q) ↦ absurd (ground arith)
        | inl (risk, v, q) ↦
            (risk, ground arith, decide_access_sound claims session risk _ (rw q at h))
      ]

  assess_risk_complete :
      (claims : Claims) (session : Session) (risk : RiskScore) (w : World Store)
      → (evaluate_request_risk p server session remote claims w).0 ≡ ok risk
      → Acceptable session risk
      → (assess_risk p server method path remote claims session w).0 ≡ ok tt
  unfolding assess_risk
  assess_risk_complete claims session risk w q a =
      rw q (decide_access_complete claims session risk _ a)

  check_session_sound :
      (claims : Claims) (session : Session) (w : World Store)
      → (check_session p server method path remote claims session w).0 ≡ ok tt
      → (decision : PolicyDecision) × (evaluate p.f64 server.policy_engine
            (policy_context p server method path remote claims)
          ≡ ok decision)
        × (session.user_id ≡ claims.sub)
        × (decision.allowed ≡ true)
        × ((assess_risk p server method path remote claims session w).0 ≡ ok tt)
  unfolding check_session check_policy
  check_session_sound claims session w h =
      let (decision, q, _, _) =
        evaluate-verdict p.f64 (policy_context p server method path remote claims)
          server.policy_engine in
      (
        decision,
        q,
        ground (arith, eq_iff session.user_id claims.sub),
        ground (arith, eq_iff session.user_id claims.sub),
        ground (arith, eq_iff session.user_id claims.sub),
      )

  check_session_complete :
      (claims : Claims) (session : Session) (decision : PolicyDecision) (w : World Store)
      → evaluate p.f64 server.policy_engine (policy_context p server method path remote claims)
        ≡ ok decision
      → session.user_id ≡ claims.sub
      → decision.allowed ≡ true
      → (assess_risk p server method path remote claims session w).0 ≡ ok tt
      → (check_session p server method path remote claims session w).0 ≡ ok tt
  unfolding check_session check_policy
  check_session_complete claims session decision w q owner allowed rest =
      ground (arith, eq_iff session.user_id claims.sub)

  authorize_sound :
      (req : Request) (w : World Store)
      → (authorize p server method path remote req w).0 ≡ ok tt
      → Authorized req w
  unfolding authorize
  authorize_sound req w h =
      let header = header_or "authorization" "" req.headers in
      elim (Result-cases (extract_token_from_header header)) [
        | inr (e, q) ↦ absurd (ground arith)
        | inl (token, q) ↦
            elim (step-cases (validate_token p.jwt p.chrono server.jwt_manager token w)) [
              | inr (e, w1, q1) ↦ absurd (ground arith)
              | inl (claims, w1, q1) ↦
                  elim (step-cases
                    (get_session p.redis p.chrono p.session_json claims.session_id w1)) [
                      | inr (e, w2, q2) ↦ absurd (ground arith)
                      | inl (session, w2, q2) ↦
                          let (decision, evaluated, owner, allowed, rest) =
                            check_session_sound claims session w2 (ground arith) in
                          let (risk, scored, acceptable) =
                            assess_risk_sound claims session w2 rest in
                          record {
                            token = token;
                            header = (extract_token_exact header token).0 q;
                            claims = claims;
                            w1 = w1;
                            valid = q1;
                            session = session;
                            w2 = w2;
                            is_live = q2;
                            owner = owner;
                            decision = decision;
                            evaluated = evaluated;
                            allowed = allowed;
                            risk = risk;
                            scored = scored;
                            acceptable = acceptable;
                          }
                    ]
            ]
      ]

  authorize_complete :
      (req : Request) (w : World Store)
      → Authorized req w
      → (authorize p server method path remote req w).0 ≡ ok tt
  unfolding authorize
  authorize_complete req w a =
      let header = header_or "authorization" "" req.headers in
      let taken = (extract_token_exact header a.token).1 a.header in
      let rest =
        check_session_complete a.claims a.session a.decision a.w2 a.evaluated a.owner a.allowed
          (assess_risk_complete a.claims a.session a.risk a.w2 a.scored a.acceptable) in
      rw (taken, a.valid, a.is_live) rest

  -- A request is let through exactly if its authorization header is "Bearer " and a token that
  -- validates, the session of the token is found live and belongs to the subject of the token, the
  -- policies allow the request, its risk score does not block it, and the session has a verified
  -- second factor if the configuration requires one or the score asks for one. The answers of the
  -- audit log have no part in it.
  pub authorize_iff :
      (req : Request) (w : World Store)
      → ((authorize p server method path remote req w).0 ≡ ok tt) ↔ Authorized req w
  authorize_iff req w = (authorize_sound req w, authorize_complete req w)
