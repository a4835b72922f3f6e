-- ===== src/Examples/Gate.antt =====
-- The gate at a concrete request.
use zero_trust_proxy.Common.{◌≤◌, ◌≡◌, ◌↔◌, refl, none, arith}
use zero_trust_proxy.Config.{default}
use zero_trust_proxy.Error.{ok}
use zero_trust_proxy.World.{utc_now, new_uuid}
use zero_trust_proxy.Common.{[], ◌∷◌}
use zero_trust_proxy.Common.Int.{◌-ℤ◌, tdiv, fdiv, fmod}
use zero_trust_proxy.Common.Text.{show_ℕ, contains}
use zero_trust_proxy.Auth.Device
use zero_trust_proxy.Risk
use zero_trust_proxy.Risk.{
  RiskScore, allow, low, calculate_risk, calculate_device_risk, calculate_geo_risk,
  calculate_failed_attempts_risk, calculate_time_risk, calculate_ip_change_risk,
  calculate_session_age_risk, device_factor, attempts_factor, session_factor, all_factors, tally,
  risk_level, recommend,
}
use zero_trust_proxy.Proxy.Server.{new}
use zero_trust_proxy.Proxy.Gate.{authorize, evaluate_request_risk, request_context}
use zero_trust_proxy.Proxy.Gate.Ceiling.{default_request_risk-allow}
use zero_trust_proxy.Proxy.Gate.Exact.{Authorized, authorize_iff}
use zero_trust_proxy.Examples.Fixtures.{
  platform, server, request, remote, world, opened, claims, sha256,
}

authorize_iff_example :
    ((authorize platform server "GET" "/api/items" remote request world).0 ≡ ok tt)
    ↔ Authorized platform server "GET" "/api/items" remote request world
authorize_iff_example = authorize_iff platform server "GET" "/api/items" remote request world

-- A live session on its own device at noon: the device is new, and nothing else counts.
abbrev noon_score : RiskScore
noon_score = record {
  total_score = 20;
  factors =
      record { name = "Device Trust"; score = 20; description = "Device trust score: 70" } ∷ [];
  level = low;
  recommendation = allow;
}

unfoldable pub gate_run : Unit {0}
unfolding evaluate_request_risk request_context calculate_risk calculate_device_risk
    calculate_geo_risk calculate_failed_attempts_risk calculate_time_risk calculate_ip_change_risk
    calculate_session_age_risk device_factor attempts_factor session_factor all_factors tally
    risk_level recommend Device.new Device.parse_user_agent Device.generate_hash platform sha256 new
    default Risk.new utc_now new_uuid ◌-ℤ◌ tdiv fdiv fmod show_ℕ contains
gate_run = tt

risk_run :
    (evaluate_request_risk platform (new (default (λ name. none))) opened remote claims world).0
    ≡ ok noon_score
unfolding gate_run
risk_run = refl

default_request_risk-allow_example :
    (noon_score.total_score ≤ 55) × (noon_score.recommendation ≡ allow)
unfolding platform ◌-ℤ◌ tdiv
default_request_risk-allow_example =
    default_request_risk-allow platform (λ name. none) opened remote claims world noon_score
      risk_run refl (omega arith)
