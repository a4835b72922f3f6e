-- ===== src/Proxy/Gate.antt =====
-- src/proxy/mod.rs: `authorize`, the gate that every request for the upstream passes, and the risk
-- score that it computes. The function is cut at its early returns.
pub mod Exact
pub mod Ceiling
pub mod Methods
use zero_trust_proxy.Common.{
  ℕ, ◌≡◌, String, ◌==◌, Bool, true, false, not, ◌&&◌, Option, none, some, List, [], ◌∷◌, leb,
  if◌then◌else◌,
}
use zero_trust_proxy.Common.Text.{to_lowercase}
use zero_trust_proxy.Common.Int.{ℤ, pos, ◌-ℤ◌}
use zero_trust_proxy.Error.{
  ProxyError, authorization_denied, invalid_session, mfa_required, risk_threshold_exceeded, ok, err,
  ProxyResult,
}
use zero_trust_proxy.Db.{object, risk_factors}
use zero_trust_proxy.World.{
  World, M, pure, fail, bind, ◌>>=◌, ◌>>◌, lift, attempt, utc_now, new_uuid,
}
use zero_trust_proxy.Audit.{log_authorization, log_risk_evaluation}
use zero_trust_proxy.Auth.Device
use zero_trust_proxy.Auth.Device.{DeviceFingerprint}
use zero_trust_proxy.Auth.Session.{Session, get_session}
use zero_trust_proxy.Auth.Jwt.{Claims, extract_token_from_header, validate_token}
use zero_trust_proxy.Policy.{PolicyContext, evaluate}
use zero_trust_proxy.Risk.{
  IpAddr, RiskContext, RiskScore, RiskRecommendation, allow, step_up_auth, block, calculate_risk,
}
use zero_trust_proxy.Proxy.Server.{Platform, Request, ProxyServer, header_or, no_metadata, no_risk}

abbrev pub or_no_risk : ProxyResult RiskScore → RiskScore
or_no_risk (ok r) = r
or_no_risk (err e) = no_risk

module _ {Store F : Type 0} (p : Platform Store F) (server : ProxyServer) where
  -- The context in which a request is scored: a fresh fingerprint that is trusted exactly if the
  -- device of the token is the device of the session.
  unfoldable pub request_context :
      DeviceFingerprint → Session → IpAddr → Claims → (age_now timestamp : ℤ) → RiskContext
  request_context fresh session remote claims age_now timestamp =
      let trust = if claims.device_id == session.device_id then 70 else 40 in
      record {
        user_id = claims.sub;
        device = record fresh { trust_score = trust; is_trusted = leb 70 trust };
        ip_address = remote;
        timestamp = timestamp;
        geolocation = none;
        previous_ip = p.texts.parse_ip session.ip_address;
        session_age_minutes = p.chrono.num_minutes (age_now -ℤ session.created_at);
        failed_attempts = 0;
        time_since_last_success_hours = none;
      }

  unfoldable pub evaluate_request_risk : Session → IpAddr → Claims → M Store RiskScore
  evaluate_request_risk session remote claims = do
    id ← new_uuid
    first_seen ← utc_now
    last_seen ← utc_now
    let fresh =
        Device.new p.sha256 id first_seen last_seen claims.sub session.user_agent
          (p.texts.show_ip remote) no_metadata
    age_now ← utc_now
    timestamp ← utc_now
    now ← utc_now
    pure (
        or_no_risk (
          calculate_risk p.chrono now server.risk_engine
            (request_context fresh session remote claims age_now timestamp)))

  module _ (method path : String) (remote : IpAddr) where
    abbrev log_access : Claims → Bool → ℕ → M Store (ProxyResult (Unit {0}))
    log_access claims allowed score =
        attempt
          (log_authorization p.texts claims.sub (p.texts.show_ip remote) path method allowed score)

    abbrev grant : Claims → RiskScore → M Store (Unit {0})
    grant claims risk = do log_access claims true risk.total_score; pure tt

    abbrev refuse : Claims → RiskScore → M Store (Unit {0})
    refuse claims risk = do
      log_access claims false risk.total_score
      fail (risk_threshold_exceeded risk.total_score server.config.risk.block_threshold)

    abbrev pub by_recommendation :
        RiskRecommendation → Claims → Session → RiskScore → M Store (Unit {0})
    by_recommendation block claims session risk = refuse claims risk
    by_recommendation step_up_auth claims session risk =
        if not session.mfa_verified then fail mfa_required else grant claims risk
    by_recommendation allow claims session risk = grant claims risk

    unfoldable pub decide_access : Claims → Session → RiskScore → M Store (Unit {0})
    decide_access claims session risk =
        if server.config.auth.require_mfa && not session.mfa_verified
        then fail mfa_required
        else by_recommendation risk.recommendation claims session risk

    unfoldable pub assess_risk : Claims → Session → M Store (Unit {0})
    assess_risk claims session = do
      risk ← evaluate_request_risk session remote claims
      attempt (
          log_risk_evaluation p.texts claims.sub claims.device_id (p.texts.show_ip remote)
            risk.total_score (object (("factors", risk_factors risk.factors) ∷ [])))
      decide_access claims session risk

    unfoldable pub policy_context : Claims → PolicyContext
    policy_context claims = record {
      user_id = claims.sub;
      resource = path;
      action = to_lowercase method;
      attributes = [];
    }

    unfoldable pub check_policy : Claims → Session → M Store (Unit {0})
    check_policy claims session = do
      decision ← lift (evaluate p.f64 server.policy_engine (policy_context claims))
      if not decision.allowed
          then (do
            log_access claims false session.risk_score
            fail (authorization_denied decision.reason))
          else assess_risk claims session

    unfoldable pub check_session : Claims → Session → M Store (Unit {0})
    check_session claims session =
        if not (session.user_id == claims.sub)
        then fail (invalid_session "session/token subject mismatch")
        else check_policy claims session

    unfoldable pub authorize : Request → M Store (Unit {0})
    authorize req = do
      token ← lift (extract_token_from_header (header_or "authorization" "" req.headers))
      claims ← validate_token p.jwt p.chrono server.jwt_manager token
      session ← get_session p.redis p.chrono p.session_json claims.session_id
      check_session claims session
