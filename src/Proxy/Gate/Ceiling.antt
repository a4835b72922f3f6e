-- ===== src/Proxy/Gate/Ceiling.antt =====
-- src/proxy/mod.rs with src/risk/mod.rs: how high the score of a request can get.
use zero_trust_proxy.Common.{suc, ◌≤◌, ◌≡◌, refl, eq_iff, true, arith, ◌∙◌}
use zero_trust_proxy.Common.Int.{ℤ, pos, ◌≤ℤ◌, ◌-ℤ◌}
use zero_trust_proxy.Clock.{DateTime, Chrono}
use zero_trust_proxy.Config.{Env, default}
use zero_trust_proxy.Error.{ok}
use zero_trust_proxy.World.{World, utc_now, new_uuid}
use zero_trust_proxy.Auth.Device
use zero_trust_proxy.Auth.Device.{DeviceFingerprint}
use zero_trust_proxy.Auth.Session.{Session}
use zero_trust_proxy.Auth.Jwt.{Claims}
use zero_trust_proxy.Risk
use zero_trust_proxy.Risk.{
  IpAddr, RiskContext, RiskScore, allow, calculate_device_risk, calculate_session_age_risk,
  attempts_factor, session_factor, calculate_time_risk, calculate_ip_change_risk, recommend,
  calculate_risk,
}
use zero_trust_proxy.Risk.Bounds.{
  points, points-session, points-time-le, points-ip-le, risk_sum, risk_sum_lem,
  calculate_risk_total, calculate_risk-total_score,
}
use zero_trust_proxy.Proxy.Server.{Platform, ProxyServer, no_metadata, new}
use zero_trust_proxy.Proxy.Gate.{request_context, evaluate_request_risk}

trusted_device-le :
    (chrono : Chrono) (now : DateTime) (d : DeviceFingerprint)
    → d.is_trusted ≡ true
    → 50 ≤ d.trust_score
    → calculate_device_risk chrono now d ≤ 20
unfolding calculate_device_risk
trusted_device-le chrono now d t s = ground arith

pub no_attempts : (c : RiskContext) → c.failed_attempts ≡ 0 → points (attempts_factor c) ≡ 0
unfolding attempts_factor
no_attempts c h = ground arith

pub young_session :
    (c : RiskContext) → c.session_age_minutes ≤ℤ pos 60 → points (session_factor c) ≡ 0
unfolding calculate_session_age_risk
young_session c h = ground (arith, points-session c)

module _ {Store F : Type 0} (p : Platform Store F) (server : ProxyServer) where
  -- The device that the request's score looks at.
  same_device-sum :
      (fresh : DeviceFingerprint) (session : Session) (remote : IpAddr) (claims : Claims)
      (age_now timestamp now : ℤ)
      → claims.device_id ≡ session.device_id
      → p.chrono.num_minutes (age_now -ℤ session.created_at) ≤ℤ pos 60
      → risk_sum p.chrono now
          (request_context p server fresh session remote claims age_now timestamp)
        ≤ 55
  unfolding request_context
  same_device-sum fresh session remote claims age_now timestamp now same young =
      let c = request_context p server fresh session remote claims age_now timestamp in
      let hit = (eq_iff claims.device_id session.device_id).1 same in
      omega (
        arith,
        risk_sum_lem p.chrono now c,
        trusted_device-le p.chrono now c.device (rw hit refl) (rw hit (omega arith)),
        no_attempts c refl,
        young_session c young,
        points-time-le p.chrono c,
        points-ip-le c,
      )

  -- The score of a request whose token names the device of the session is at most 55 in the
  -- session's first hour, whatever the address and the time of day.
  pub evaluate_request_risk-le :
      (session : Session) (remote : IpAddr) (claims : Claims) (w : World Store) (risk : RiskScore)
      → (evaluate_request_risk p server session remote claims w).0 ≡ ok risk
      → claims.device_id ≡ session.device_id
      → p.chrono.num_minutes (w.clock (suc (suc w.readings)) -ℤ session.created_at) ≤ℤ pos 60
      → (risk.total_score ≤ 55)
        × (risk.recommendation ≡ recommend server.risk_engine risk.total_score)
  unfolding evaluate_request_risk utc_now new_uuid
  evaluate_request_risk-le session remote claims w risk h same young =
      let fresh =
        Device.new p.sha256 (w.uuids w.drawn) (w.clock w.readings) (w.clock (suc w.readings))
          claims.sub session.user_agent (p.texts.show_ip remote) no_metadata in
      let age_now = w.clock (suc (suc w.readings)) in
      let timestamp = w.clock (suc (suc (suc w.readings))) in
      let now = w.clock (suc (suc (suc (suc w.readings)))) in
      let c = request_context p server fresh session remote claims age_now timestamp in
      let (r, e, _, _) = calculate_risk_total p.chrono now server.risk_engine c in
      let is_r : r ≡ risk = ground arith in
      let (total, _, recommended) =
        calculate_risk-total_score p.chrono now server.risk_engine c r e in
      let bound = same_device-sum fresh session remote claims age_now timestamp now same young in
      rw (← is_r) (ground arith, recommended)

-- Under the default configuration the risk score of such a request neither blocks it nor asks for a
-- second factor: a changed address, an unusual hour and an unknown device together are not enough.
pub default_request_risk-allow :
    {Store F : Type 0} (p : Platform Store F) (env : Env) (session : Session) (remote : IpAddr)
    (claims : Claims) (w : World Store) (risk : RiskScore)
    → (evaluate_request_risk p (new (default env)) session remote claims w).0 ≡ ok risk
    → claims.device_id ≡ session.device_id
    → p.chrono.num_minutes (w.clock (suc (suc w.readings)) -ℤ session.created_at) ≤ℤ pos 60
    → (risk.total_score ≤ 55) × (risk.recommendation ≡ allow)
unfolding new default Risk.new recommend
default_request_risk-allow p env session remote claims w risk h same young =
    let (low_total, recommended) =
      evaluate_request_risk-le p (new (default env)) session remote claims w risk h same young in
    (low_total, recommended ∙ ground arith)
