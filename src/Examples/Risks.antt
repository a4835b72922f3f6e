-- ===== src/Examples/Risks.antt =====
-- Risk scores at concrete inputs.
use zero_trust_proxy.Common.{ℕ, ◌≤◌, ◌≡◌, ◌↔◌, refl, none, some, [], ◌∷◌, arith, min}
use zero_trust_proxy.Common.Int.{pos, ◌-ℤ◌, tdiv, fdiv, fmod}
use zero_trust_proxy.Common.Text.{show_ℕ, contains}
use zero_trust_proxy.Clock.{utc}
use zero_trust_proxy.Error.{ok}
use zero_trust_proxy.Auth.Device.{DeviceFingerprint}
use zero_trust_proxy.Auth.Device
use zero_trust_proxy.Risk.{
  RiskContext, RiskScore, RiskEngine, v4, block, step_up_auth, high, critical, calculate_risk,
  calculate_device_risk, calculate_geo_risk, calculate_failed_attempts_risk, calculate_time_risk,
  calculate_ip_change_risk, calculate_session_age_risk, device_factor, attempts_factor,
  session_factor, all_factors, tally, risk_level, recommend,
}
use zero_trust_proxy.Risk.Bounds.{calculate_risk_total, sum_scores}
use zero_trust_proxy.Risk.Decision.{IsWorse, calculate_risk_decides, calculate_risk_mono}
use zero_trust_proxy.Proxy.Server.{no_metadata}
use zero_trust_proxy.Examples.Fixtures.{sha256, clock}

abbrev engine : RiskEngine
engine = record { step_up_threshold = 60; block_threshold = 85 }

abbrev context : ℕ → RiskContext
context failed_attempts = record {
  user_id = "user123";
  device =
      Device.new sha256 "d1" (clock 0) (clock 0) "user123" "curl/8.0" "203.0.113.9" no_metadata;
  ip_address = v4 1;
  timestamp = clock 0;
  geolocation = none;
  previous_ip = some (v4 2);
  session_age_minutes = pos 0;
  failed_attempts = failed_attempts;
  time_since_last_success_hours = none;
}

-- An unknown device, twelve failed attempts and a changed address: blocked, as in the source's test.
blocked_score : RiskScore
blocked_score = record {
  total_score = 100;
  factors =
      record { name = "Device Trust"; score = 45; description = "Device trust score: 50" }
      ∷ record { name = "Failed Attempts"; score = 60; description = "12 failed attempts" }
      ∷ record { name = "IP Change"; score = 20; description = "IP address changed within session" }
      ∷ [];
  level = critical;
  recommendation = block;
}

stepped_score : RiskScore
stepped_score = record {
  total_score = 75;
  factors =
      record { name = "Device Trust"; score = 45; description = "Device trust score: 50" }
      ∷ record { name = "Failed Attempts"; score = 10; description = "2 failed attempts" }
      ∷ record { name = "IP Change"; score = 20; description = "IP address changed within session" }
      ∷ [];
  level = high;
  recommendation = step_up_auth;
}

risk_run : Unit {0}
unfolding calculate_risk calculate_device_risk calculate_geo_risk calculate_failed_attempts_risk
    calculate_time_risk calculate_ip_change_risk calculate_session_age_risk device_factor
    attempts_factor session_factor all_factors tally risk_level recommend Device.new
    Device.parse_user_agent Device.generate_hash sha256 ◌-ℤ◌ tdiv fdiv fmod show_ℕ contains
    blocked_score stepped_score
risk_run = tt

blocked_run : calculate_risk utc (clock 1) engine (context 12) ≡ ok blocked_score
unfolding risk_run
blocked_run = refl

stepped_run : calculate_risk utc (clock 1) engine (context 2) ≡ ok stepped_score
unfolding risk_run
stepped_run = refl

calculate_risk_total_example :
    (r : RiskScore) × (calculate_risk utc (clock 1) engine (context 12) ≡ ok r)
    × (r.total_score ≡ min (sum_scores r.factors) 100)
    × (sum_scores r.factors ≤ 185)
calculate_risk_total_example = calculate_risk_total utc (clock 1) engine (context 12)

calculate_risk_decides_example :
    (blocked_score.recommendation ≡ block) ↔ (85 ≤ blocked_score.total_score)
calculate_risk_decides_example =
    (calculate_risk_decides utc (clock 1) engine (context 12) blocked_score blocked_run).1

calculate_risk_mono_example : stepped_score.total_score ≤ blocked_score.total_score
calculate_risk_mono_example =
    calculate_risk_mono utc (clock 1) engine (context 2) (context 12) stepped_score blocked_score
      worse stepped_run blocked_run
  where
    worse : IsWorse (context 12) (context 2)
    worse = ground arith
