-- ===== src/Examples/Login.antt =====
-- A login at a concrete request.
use zero_trust_proxy.Common.{◌≡◌, ◌≤◌, ◌≢◌, refl, none, some, true, false, [], ◌∷◌}
use zero_trust_proxy.Config.{default}
use zero_trust_proxy.Db.{
  find_user_by_username, UserRow, find_device_by_fingerprint, upsert_device, find_row,
}
use zero_trust_proxy.Error.{ok}
use zero_trust_proxy.World.{World, utc_now, new_uuid}
use zero_trust_proxy.Common.Int.{pos, ◌-ℤ◌, ◌+ℤ◌, scale, tdiv, fdiv, fmod}
use zero_trust_proxy.Common.Text.{show_ℕ, contains}
use zero_trust_proxy.Auth.Device
use zero_trust_proxy.Auth.Mfa.{verify_token}
use zero_trust_proxy.Auth.Password.{verify_password}
use zero_trust_proxy.Auth.Session
use zero_trust_proxy.Auth.Session.{create_session, update_session}
use zero_trust_proxy.Auth.Jwt.{generate_token}
use zero_trust_proxy.Risk
use zero_trust_proxy.Auth.Device.{DeviceFingerprint}
use zero_trust_proxy.Proxy.Login.Ceiling.{default_login_risk-block}
use zero_trust_proxy.Risk.{
  RiskScore, medium, step_up_auth, block, calculate_risk, calculate_device_risk, calculate_geo_risk,
  calculate_failed_attempts_risk, calculate_time_risk, calculate_ip_change_risk,
  calculate_session_age_risk, device_factor, attempts_factor, session_factor, all_factors, tally,
  risk_level, recommend,
}
use zero_trust_proxy.Proxy.Bodies.{LoginResponse}
use zero_trust_proxy.Proxy.Server.{Request, new, no_metadata}
use zero_trust_proxy.Proxy.Login.{
  handle_login, login_user, accept_password, second_factor, open_session, start_session,
  score_login, login_context,
}
use zero_trust_proxy.Proxy.Login.Sound.{LoggedIn, handle_login_sound}
use zero_trust_proxy.Proxy.RateLimit.{check_rate_limit}
use zero_trust_proxy.Examples.Store.{Pairs, redis}
use zero_trust_proxy.Examples.Fixtures.{lenient, platform, remote, world, sha256}

abbrev pub alice : UserRow
alice = record {
  id = "alice";
  username = "alice";
  email = "a@b.c";
  password_hash = "pass";
  mfa_enabled = true;
  mfa_secret = some "123456";
  is_active = true;
}

abbrev pub login_world : World Pairs
login_world = record world {
  db = record {
    tables = record { users = alice ∷ []; devices = []; audit_log = [] };
    statements = 0;
    outages = λ n. none;
    generated = λ n. "g";
  };
}

abbrev login_request : Request
login_request = record {
  method = "POST";
  path = "/auth/login";
  path_and_query = some "/auth/login";
  headers = [];
  body = some "pass";
}

abbrev login_reply : LoginResponse
login_reply = record {
  access_token = "a token";
  token_type = "Bearer";
  expires_in = pos 86400;
  mfa_required = false;
}

login_run :
    (handle_login lenient (new (default (λ name. none))) remote login_request login_world).0
    ≡ ok login_reply
unfolding lenient handle_login login_user accept_password second_factor open_session start_session
    score_login login_context check_rate_limit verify_token verify_password create_session
    update_session generate_token find_user_by_username find_device_by_fingerprint upsert_device
    calculate_risk calculate_device_risk calculate_geo_risk calculate_failed_attempts_risk
    calculate_time_risk calculate_ip_change_risk calculate_session_age_risk device_factor
    attempts_factor session_factor all_factors tally risk_level recommend Device.new
    Device.parse_user_agent Device.generate_hash platform sha256 new default Risk.new utc_now
    new_uuid ◌-ℤ◌ tdiv fdiv fmod show_ℕ contains redis find_row Device.update_last_seen Session.new
    ◌+ℤ◌ scale
login_run = refl

handle_login_sound_example :
    LoggedIn lenient (new (default (λ name. none))) remote login_request login_reply login_world
handle_login_sound_example =
    handle_login_sound lenient (new (default (λ name. none))) remote login_request login_world
      login_reply login_run

abbrev laptop : DeviceFingerprint
laptop = record {
  id = "u0";
  user_id = "alice";
  fingerprint_hash = "f0";
  user_agent = "unknown";
  platform = "Unknown";
  browser = "Unknown";
  ip_address = "10.0.0.1";
  metadata = no_metadata;
  first_seen = pos 129600000000000;
  last_seen = pos 129600000000000;
  trust_score = 0;
  is_trusted = false;
}

-- A device that has lost all trust, at noon.
abbrev distrusted_score : RiskScore
distrusted_score = record {
  total_score = 60;
  factors =
      record { name = "Device Trust"; score = 60; description = "Device trust score: 0" } ∷ [];
  level = medium;
  recommendation = step_up_auth;
}

score_run :
    (score_login lenient (new (default (λ name. none))) remote alice laptop login_world).0
    ≡ ok distrusted_score
unfolding lenient score_login login_context calculate_risk calculate_device_risk calculate_geo_risk
    calculate_failed_attempts_risk calculate_time_risk calculate_ip_change_risk
    calculate_session_age_risk device_factor attempts_factor session_factor all_factors tally
    risk_level recommend platform new default Risk.new utc_now ◌-ℤ◌ tdiv fdiv fmod show_ℕ
score_run = refl

default_login_risk-block_example :
    (distrusted_score.total_score ≤ 75) × (distrusted_score.recommendation ≢ block)
default_login_risk-block_example =
    default_login_risk-block lenient (λ name. none) remote alice laptop login_world distrusted_score
      score_run
