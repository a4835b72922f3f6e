-- ===== src/Proxy/Writes/Gate.antt =====
-- src/proxy/mod.rs: the gate, and the steps that it shares with the handlers.
use zero_trust_proxy.Common.{ℕ, String, Bool}
use zero_trust_proxy.Common.Int.{ℤ}
use zero_trust_proxy.Db.{Tables}
use zero_trust_proxy.World.Respects.{Respects, IsPreorder, respects_rules}
use zero_trust_proxy.Auth.Mfa
use zero_trust_proxy.Auth.Mfa.{Rng, verify_token}
use zero_trust_proxy.Auth.Session.{Session}
use zero_trust_proxy.Auth.Session.Tables.{get_session-Respects}
use zero_trust_proxy.Auth.Jwt.{Claims, JwtManager, validate_token, generate_token}
use zero_trust_proxy.Risk.{IpAddr, RiskScore, RiskRecommendation, allow, step_up_auth, block}
use zero_trust_proxy.Proxy.Server.{Platform, Request, ProxyServer}
use zero_trust_proxy.Proxy.RateLimit.{check_rate_limit}
use zero_trust_proxy.Proxy.Gate.{
  evaluate_request_risk, decide_access, assess_risk, check_policy, check_session, authorize,
  by_recommendation,
}
use zero_trust_proxy.Proxy.Writes.{Admits, log_authorization-Respects, log_risk_evaluation-Respects}

module _ {Store F : Type 0} {R : Tables → Tables → Type 0} ⦃order : IsPreorder R⦄
    ⦃writes : Admits R⦄ (p : Platform Store F) where
  pub check_rate_limit-Respects :
      (remote : IpAddr) (bucket : String) (limit window : ℤ)
      → Respects R (check_rate_limit p.redis p.texts remote bucket limit window)
  unfolding check_rate_limit
  check_rate_limit-Respects remote bucket limit window = search respects_rules

  pub validate_token-Respects :
      (manager : JwtManager) (token : String)
      → Respects {Store = Store} R (validate_token p.jwt p.chrono manager token)
  unfolding validate_token
  validate_token-Respects manager token = search respects_rules

  pub generate_token-Respects :
      (manager : JwtManager) (user_id device_id : String) (score : ℕ) (mfa : Bool) (id : String)
      → Respects {Store = Store} R
          (generate_token p.jwt p.chrono manager user_id device_id score mfa id)
  unfolding generate_token
  generate_token-Respects manager user_id device_id score mfa id = search respects_rules

  pub verify_token-Respects :
      (secret token : String)
      → Respects {Store = Store} R (verify_token p.totp Mfa.default secret token)
  unfolding verify_token
  verify_token-Respects secret token = search respects_rules

  module _ (server : ProxyServer) where
    evaluate_request_risk-Respects :
        (session : Session) (remote : IpAddr) (claims : Claims)
        → Respects R (evaluate_request_risk p server session remote claims)
    unfolding evaluate_request_risk
    evaluate_request_risk-Respects session remote claims = search respects_rules depth 9

    by_recommendation-Respects :
        (method path : String) (remote : IpAddr) (r : RiskRecommendation) (claims : Claims)
        (session : Session) (risk : RiskScore)
        → Respects R (by_recommendation p server method path remote r claims session risk)
    by_recommendation-Respects method path remote allow claims session risk =
        search (respects_rules, log_authorization-Respects)
    by_recommendation-Respects method path remote step_up_auth claims session risk =
        search (respects_rules, log_authorization-Respects)
    by_recommendation-Respects method path remote block claims session risk =
        search (respects_rules, log_authorization-Respects)

    decide_access-Respects :
        (method path : String) (remote : IpAddr) (claims : Claims) (session : Session)
        (risk : RiskScore)
        → Respects R (decide_access p server method path remote claims session risk)
    unfolding decide_access
    decide_access-Respects method path remote claims session risk =
        search (respects_rules, by_recommendation-Respects)

    assess_risk-Respects :
        (method path : String) (remote : IpAddr) (claims : Claims) (session : Session)
        → Respects R (assess_risk p server method path remote claims session)
    unfolding assess_risk
    assess_risk-Respects method path remote claims session = search (
      respects_rules, evaluate_request_risk-Respects, log_risk_evaluation-Respects,
      decide_access-Respects,
    )

    check_policy-Respects :
        (method path : String) (remote : IpAddr) (claims : Claims) (session : Session)
        → Respects R (check_policy p server method path remote claims session)
    unfolding check_policy
    check_policy-Respects method path remote claims session =
        search (respects_rules, log_authorization-Respects, assess_risk-Respects) depth 8

    check_session-Respects :
        (method path : String) (remote : IpAddr) (claims : Claims) (session : Session)
        → Respects R (check_session p server method path remote claims session)
    unfolding check_session
    check_session-Respects method path remote claims session =
        search (respects_rules, check_policy-Respects)

    pub authorize-Respects :
        (method path : String) (remote : IpAddr) (req : Request)
        → Respects R (authorize p server method path remote req)
    unfolding authorize
    authorize-Respects method path remote req =
        search
          (respects_rules, validate_token-Respects, get_session-Respects, check_session-Respects)
          depth 8
