-- ===== src/Proxy/Owned/Gate.antt =====
-- src/proxy/mod.rs: the gate, and the steps that it shares with the handlers, leave every session to
-- an active account.
use zero_trust_proxy.Common.{ℕ, String, Bool}
use zero_trust_proxy.Common.Int.{ℤ}
use zero_trust_proxy.Db.{Tables}
use zero_trust_proxy.World.Keeps.{Keeps, keeps_rules}
use zero_trust_proxy.Auth.Mfa
use zero_trust_proxy.Auth.Mfa.{Rng, verify_token}
use zero_trust_proxy.Auth.Session.{Session}
use zero_trust_proxy.Auth.Jwt.{Claims, JwtManager, validate_token, generate_token}
use zero_trust_proxy.Risk.{IpAddr, RiskScore, RiskRecommendation, allow, step_up_auth, block}
use zero_trust_proxy.Proxy.Server.{Platform, Request, ProxyServer}
use zero_trust_proxy.Proxy.RateLimit.{check_rate_limit}
use zero_trust_proxy.Proxy.Gate.{
  evaluate_request_risk, decide_access, assess_risk, check_policy, check_session, authorize,
  by_recommendation,
}
use Prim.Native.String.{◌++◌ as ◌<>◌}
use zero_trust_proxy.World.Respects.{Respects}
use zero_trust_proxy.Db.{Statement, Metadata, Uuid}
use zero_trust_proxy.Audit.{
  AuditEvent, Outcome, EventType, new, log, id_or_new, log_authentication, log_authorization,
  log_risk_evaluation,
}
use zero_trust_proxy.Auth.Session.{key_of}
use zero_trust_proxy.Proxy.RateLimit.{rate_key}
use zero_trust_proxy.Proxy.Writes.{insert_audit-Respects}
use zero_trust_proxy.Proxy.Writes.Grows.{Grows, Grows-IsPreorder, Grows-Admits}
use zero_trust_proxy.Common.{ℕ, Option, none, some}
use zero_trust_proxy.World.{RoundTrips, command, statement}
use zero_trust_proxy.World.Laws.{RedisLaws}
use zero_trust_proxy.World.Keeps.{Keeps-command}
use zero_trust_proxy.Proxy.Owned.{IsOwned, IsLasting, IsOwned-IsLasting, rate_key-key_of}
use zero_trust_proxy.Proxy.Owned.Sessions.{get_session-Keeps}

module _ {Store F : Type 0} (p : Platform Store F) (value : Store → String → Option String)
    (laws : RedisLaws p.redis value) (codec : RoundTrips p.session_json) where
  module _ (I : Store → Tables → Type 0) (lasting : IsLasting p.redis value p.session_json I) where
    pub statement-Keeps :
        {A : Type 0} (q : Statement A)
        → Respects {Store = Store} Grows (statement q)
        → Keeps I (statement q)
    statement-Keeps q r = record {
      at = λ w h. lasting.grows w.redis w.db.tables (q w.db).1.tables (r.at w) h;
    }

    new-Keeps :
        (kind : EventType) (user_id device_id : Option String) (ip resource action : String)
        (outcome : Outcome)
        → Keeps I (new kind user_id device_id ip resource action outcome)
    unfolding new
    new-Keeps kind user_id device_id ip resource action outcome = search keeps_rules

    id_or_new-Keeps : (id : Option Uuid) → Keeps I (id_or_new p.texts id)
    id_or_new-Keeps none = search keeps_rules
    id_or_new-Keeps (some id) = search keeps_rules

    log-Keeps : (event : AuditEvent) → Keeps I (log p.texts event)
    unfolding log
    log-Keeps event = search (keeps_rules, statement-Keeps, insert_audit-Respects, id_or_new-Keeps)

    pub log_authentication-Keeps :
        (user_id device_id ip : String) (succeeded : Bool)
        → Keeps I (log_authentication p.texts user_id device_id ip succeeded)
    unfolding log_authentication
    log_authentication-Keeps user_id device_id ip succeeded =
        search (keeps_rules, new-Keeps, log-Keeps)

    pub log_authorization-Keeps :
        (user_id ip resource action : String) (allowed : Bool) (score : ℕ)
        → Keeps I (log_authorization p.texts user_id ip resource action allowed score)
    unfolding log_authorization
    log_authorization-Keeps user_id ip resource action allowed score =
        search (keeps_rules, new-Keeps, log-Keeps)

    pub log_risk_evaluation-Keeps :
        (user_id device_id ip : String) (score : ℕ) (factors : Metadata)
        → Keeps I (log_risk_evaluation p.texts user_id device_id ip score factors)
    unfolding log_risk_evaluation
    log_risk_evaluation-Keeps user_id device_id ip score factors =
        search (keeps_rules, new-Keeps, log-Keeps)

    incr-Keeps :
        (remote : IpAddr) (bucket : String)
        → Keeps I (command (p.redis.incr (rate_key p.texts remote bucket) 1))
    incr-Keeps remote bucket =
        Keeps-command (p.redis.incr (rate_key p.texts remote bucket) 1) λ s t.
          lasting.lapses s (p.redis.incr (rate_key p.texts remote bucket) 1 s).1 t λ j.
            laws.incr_keeps (rate_key p.texts remote bucket) (key_of j) 1 s
              (rate_key-key_of (bucket <> ":" <> p.texts.show_ip remote) j)

    expire-Keeps : (key : String) (n : ℤ) → Keeps I (command (p.redis.expire key n))
    expire-Keeps key n = Keeps-command (p.redis.expire key n) λ s t.
        lasting.lapses s (p.redis.expire key n s).1 t λ j. laws.expire_keeps key (key_of j) n s

    pub check_rate_limit-Keeps :
        (remote : IpAddr) (bucket : String) (limit window : ℤ)
        → Keeps I (check_rate_limit p.redis p.texts remote bucket limit window)
    unfolding check_rate_limit
    check_rate_limit-Keeps remote bucket limit window =
        search (keeps_rules, incr-Keeps, expire-Keeps)

    pub validate_token-Keeps :
        (manager : JwtManager) (token : String)
        → Keeps {Store = Store} I (validate_token p.jwt p.chrono manager token)
    unfolding validate_token
    validate_token-Keeps manager token = search keeps_rules

    pub generate_token-Keeps :
        (manager : JwtManager) (user_id device_id : String) (score : ℕ) (mfa : Bool) (id : String)
        → Keeps {Store = Store} I
            (generate_token p.jwt p.chrono manager user_id device_id score mfa id)
    unfolding generate_token
    generate_token-Keeps manager user_id device_id score mfa id = search keeps_rules

    pub verify_token-Keeps :
        (secret token : String)
        → Keeps {Store = Store} I (verify_token p.totp Mfa.default secret token)
    unfolding verify_token
    verify_token-Keeps secret token = search keeps_rules

    module _ (server : ProxyServer) where
      evaluate_request_risk-Keeps :
          (session : Session) (remote : IpAddr) (claims : Claims)
          → Keeps I (evaluate_request_risk p server session remote claims)
      unfolding evaluate_request_risk
      evaluate_request_risk-Keeps session remote claims = search keeps_rules depth 9

      by_recommendation-Keeps :
          (method path : String) (remote : IpAddr) (r : RiskRecommendation) (claims : Claims)
          (session : Session) (risk : RiskScore)
          → Keeps I (by_recommendation p server method path remote r claims session risk)
      by_recommendation-Keeps method path remote allow claims session risk =
          search (keeps_rules, log_authorization-Keeps)
      by_recommendation-Keeps method path remote step_up_auth claims session risk =
          search (keeps_rules, log_authorization-Keeps)
      by_recommendation-Keeps method path remote block claims session risk =
          search (keeps_rules, log_authorization-Keeps)

      decide_access-Keeps :
          (method path : String) (remote : IpAddr) (claims : Claims) (session : Session)
          (risk : RiskScore)
          → Keeps I (decide_access p server method path remote claims session risk)
      unfolding decide_access
      decide_access-Keeps method path remote claims session risk =
          search (keeps_rules, by_recommendation-Keeps)

      assess_risk-Keeps :
          (method path : String) (remote : IpAddr) (claims : Claims) (session : Session)
          → Keeps I (assess_risk p server method path remote claims session)
      unfolding assess_risk
      assess_risk-Keeps method path remote claims session =
          search (
            keeps_rules, evaluate_request_risk-Keeps, log_risk_evaluation-Keeps,
            decide_access-Keeps,
          )

      check_policy-Keeps :
          (method path : String) (remote : IpAddr) (claims : Claims) (session : Session)
          → Keeps I (check_policy p server method path remote claims session)
      unfolding check_policy
      check_policy-Keeps method path remote claims session =
          search (keeps_rules, log_authorization-Keeps, assess_risk-Keeps) depth 8

      pub check_session-Keeps :
          (method path : String) (remote : IpAddr) (claims : Claims) (session : Session)
          → Keeps I (check_session p server method path remote claims session)
      unfolding check_session
      check_session-Keeps method path remote claims session =
          search (keeps_rules, check_policy-Keeps)

  pub authorize-Keeps :
      (server : ProxyServer) (method path : String) (remote : IpAddr) (req : Request)
      → Keeps (IsOwned p.redis value p.session_json) (authorize p server method path remote req)
  unfolding authorize
  authorize-Keeps server method path remote req =
      let lasting = IsOwned-IsLasting p.redis value p.session_json in
      search
        (
          keeps_rules,
          validate_token-Keeps (IsOwned p.redis value p.session_json) lasting,
          get_session-Keeps p.redis value laws p.chrono p.session_json codec,
          check_session-Keeps (IsOwned p.redis value p.session_json) lasting server,
        )
        depth 8
