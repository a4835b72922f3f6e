-- ===== src/Proxy/Login/Ceiling.antt =====
-- src/proxy/mod.rs with src/risk/mod.rs: how high the score of a login can get.
use zero_trust_proxy.Common.{suc, ◌≤◌, ◌≡◌, ◌≢◌, refl, arith, none}
use zero_trust_proxy.Common.Int.{ℤ}
use zero_trust_proxy.Config.{Env, default}
use zero_trust_proxy.Db.{UserRow}
use zero_trust_proxy.Error.{ok}
use zero_trust_proxy.World.{World, utc_now}
use zero_trust_proxy.Auth.Device.{DeviceFingerprint}
use zero_trust_proxy.Risk
use zero_trust_proxy.Risk.{
  IpAddr, RiskContext, RiskScore, block, calculate_risk, calculate_ip_change_risk, recommend,
}
use zero_trust_proxy.Risk.Bounds.{
  points, points-time-le, device_risk-le, risk_sum, risk_sum_lem, calculate_risk_total,
  calculate_risk-total_score,
}
use zero_trust_proxy.Proxy.Server.{Platform, ProxyServer, new}
use zero_trust_proxy.Proxy.Gate.Ceiling.{no_attempts, young_session}
use zero_trust_proxy.Proxy.Login.{login_context, score_login}

first_address : (c : RiskContext) → c.previous_ip ≡ none → points (calculate_ip_change_risk c) ≡ 0
unfolding calculate_ip_change_risk
first_address c h = ground arith

module _ {Store F : Type 0} (p : Platform Store F) (server : ProxyServer) (remote : IpAddr) where
  login-sum :
      (user : UserRow) (device : DeviceFingerprint) (timestamp now : ℤ)
      → risk_sum p.chrono now (login_context p server remote user device timestamp) ≤ 75
  unfolding login_context
  login-sum user device timestamp now =
      let c = login_context p server remote user device timestamp in
      omega (
        arith,
        risk_sum_lem p.chrono now c,
        device_risk-le p.chrono now device,
        no_attempts c refl,
        young_session c (ground arith),
        points-time-le p.chrono c,
        first_address c refl,
      )

  score_login-le :
      (user : UserRow) (device : DeviceFingerprint) (w : World Store) (risk : RiskScore)
      → (score_login p server remote user device w).0 ≡ ok risk
      → (risk.total_score ≤ 75)
        × (risk.recommendation ≡ recommend server.risk_engine risk.total_score)
  unfolding score_login utc_now
  score_login-le user device w risk h =
      let now = w.clock (suc w.readings) in
      let c = login_context p server remote user device (w.clock w.readings) in
      let (r, e, _, _) = calculate_risk_total p.chrono now server.risk_engine c in
      let is_r : r ≡ risk = ground arith in
      let (total, _, recommended) =
        calculate_risk-total_score p.chrono now server.risk_engine c r e in
      let bound = login-sum user device (w.clock w.readings) now in
      rw (← is_r) (ground arith, recommended)

-- Under the default configuration the risk score of a login is at most 75, and never blocks it.
pub default_login_risk-block :
    {Store F : Type 0} (p : Platform Store F) (env : Env) (remote : IpAddr) (user : UserRow)
    (device : DeviceFingerprint) (w : World Store) (risk : RiskScore)
    → (score_login p (new (default env)) remote user device w).0 ≡ ok risk
    → (risk.total_score ≤ 75) × (risk.recommendation ≢ block)
unfolding new default Risk.new recommend
default_login_risk-block p env remote user device w risk h =
    let (bound, recommended) = score_login-le p (new (default env)) remote user device w risk h in
    (bound, ground arith)
