-- ===== src/Proxy/Login.antt =====
-- src/proxy/mod.rs: `handle_login`, cut at its early returns. The reply is the body of the answer
-- 200; printing it as JSON is left to the server.
pub mod Sound
pub mod Ceiling
use zero_trust_proxy.Common.{
  ℕ, ◌≡◌, String, ◌==◌, Bool, true, false, not, ◌&&◌, Option, none, some, List, [], ◌∷◌, is_some,
  unwrap_or, if◌then◌else◌,
}
use zero_trust_proxy.Common.Int.{ℤ, pos, scale, pos_part}
use zero_trust_proxy.Error.{
  ProxyError, authentication_failed, invalid_mfa_token, mfa_required, risk_threshold_exceeded,
  internal_error, ok, err, ProxyResult, ok_or,
}
use zero_trust_proxy.Db.{
  UserRow, DeviceRow, DeviceEntry, Uuid, find_user_by_username, find_device_by_fingerprint,
  upsert_device,
}
use zero_trust_proxy.World.{
  World, M, pure, fail, bind, ◌>>=◌, ◌>>◌, lift, attempt, utc_now, new_uuid, statement,
}
use zero_trust_proxy.Audit.{log_authentication, to_i32}
use zero_trust_proxy.Auth.Device
use zero_trust_proxy.Auth.Device.{
  DeviceFingerprint, increase_trust, decrease_trust, update_last_seen,
}
use zero_trust_proxy.Auth.Mfa
use zero_trust_proxy.Auth.Mfa.{verify_token}
use zero_trust_proxy.Auth.Password.{verify_password}
use zero_trust_proxy.Auth.Session.{Session, create_session, update_session}
use zero_trust_proxy.Auth.Jwt.{generate_token}
use zero_trust_proxy.Risk.{
  IpAddr, RiskContext, RiskScore, RiskRecommendation, allow, step_up_auth, block, calculate_risk,
}
use zero_trust_proxy.Proxy.Server.{Platform, Request, ProxyServer, header_or, no_metadata, no_risk}
use zero_trust_proxy.Proxy.Bodies.{LoginBody, LoginResponse}
use zero_trust_proxy.Proxy.Gate.{or_no_risk}
use zero_trust_proxy.Proxy.RateLimit.{check_rate_limit}

-- `.filter(|u| u.is_active)`.
abbrev pub active : Option UserRow → Option UserRow
active none = none
active (some user) = if user.is_active then some user else none

-- The score and the flag of a device that has been seen before replace those of the fresh one.
abbrev adopt : Option DeviceRow → DeviceFingerprint → DeviceFingerprint
adopt none device = device
adopt (some existing) device = record device {
  trust_score = pos_part existing.trust_score;
  is_trusted = existing.is_trusted;
}

abbrev pub is_block : RiskRecommendation → Bool
is_block block = true
is_block _ = false

-- `verify_token(…).unwrap_or(false)`.
abbrev pub or_false : ProxyResult Bool → Bool
or_false (ok b) = b
or_false (err e) = false

module _ {Store F : Type 0} (p : Platform Store F) (server : ProxyServer) (remote : IpAddr) where
  abbrev pub entry : UserRow → DeviceFingerprint → DeviceEntry
  entry user device = record {
    user_id = user.id;
    fingerprint_hash = device.fingerprint_hash;
    user_agent = device.user_agent;
    platform = device.platform;
    browser = device.browser;
    ip_address = p.texts.show_ip remote;
    trust_score = to_i32 device.trust_score;
    is_trusted = device.is_trusted;
  }

  -- A wrong password costs the device trust, and is answered like an unknown user.
  unfoldable pub reject_password : LoginBody → UserRow → DeviceFingerprint → M Store LoginResponse
  reject_password body user device = do
    let distrusted = decrease_trust device 15
    statement (upsert_device (entry user distrusted))
    attempt (
        log_authentication p.texts user.id (unwrap_or body.device_id "unknown")
          (p.texts.show_ip remote) false)
    fail (authentication_failed "invalid credentials")

  abbrev pub check_code : String → Option String → M Store Bool
  check_code secret none = fail mfa_required
  check_code secret (some token) = do
    answer ← attempt (verify_token p.totp Mfa.default secret token)
    if not (or_false answer) then fail invalid_mfa_token else pure true

  -- Whether a second factor was verified; a user who has enrolled one has to give it.
  unfoldable pub second_factor : LoginBody → UserRow → M Store Bool
  second_factor body user =
      if user.mfa_enabled
      then (do secret ← lift (ok_or user.mfa_secret mfa_required); check_code secret body.mfa_token)
      else pure false

  unfoldable pub login_context : UserRow → DeviceFingerprint → ℤ → RiskContext
  login_context user device timestamp = record {
    user_id = user.id;
    device = device;
    ip_address = remote;
    timestamp = timestamp;
    geolocation = none;
    previous_ip = none;
    session_age_minutes = pos 0;
    failed_attempts = 0;
    time_since_last_success_hours = none;
  }

  unfoldable pub score_login : UserRow → DeviceFingerprint → M Store RiskScore
  score_login user device = do
    timestamp ← utc_now
    now ← utc_now
    pure (
        or_no_risk
          (calculate_risk p.chrono now server.risk_engine (login_context user device timestamp)))

  abbrev pub device_id_or_new : Option String → M Store String
  device_id_or_new none = new_uuid
  device_id_or_new (some id) = pure id

  -- The session and its token.
  unfoldable pub start_session :
      LoginBody → UserRow → (user_agent : String) → Bool → RiskScore → M Store String
  start_session body user user_agent mfa_verified risk = do
    device_id ← device_id_or_new body.device_id
    created ←
        create_session p.redis p.chrono p.session_json server.config.auth.session_duration_minutes
          user.id device_id (p.texts.show_ip remote) user_agent
    let session = record created { mfa_verified = mfa_verified; risk_score = risk.total_score }
    update_session p.redis p.chrono p.session_json session
    attempt (log_authentication p.texts user.id device_id (p.texts.show_ip remote) true)
    generate_token p.jwt p.chrono server.jwt_manager user.id device_id session.risk_score
        mfa_verified session.id

  unfoldable pub open_session :
      LoginBody → UserRow → (user_agent : String) → Bool → RiskScore → M Store LoginResponse
  open_session body user user_agent mfa_verified risk = do
    token ← start_session body user user_agent mfa_verified risk
    pure (record {
      access_token = token;
      token_type = "Bearer";
      expires_in = scale 3600 server.config.auth.jwt_expiration_hours;
      mfa_required = user.mfa_enabled && not mfa_verified;
    })

  abbrev block_login : UserRow → DeviceFingerprint → RiskScore → M Store LoginResponse
  block_login user device risk = do
    attempt (log_authentication p.texts user.id device.id (p.texts.show_ip remote) false)
    fail (risk_threshold_exceeded risk.total_score server.config.risk.block_threshold)

  unfoldable pub accept_password :
      LoginBody
      → UserRow
      → (user_agent : String) → Option DeviceRow
      → DeviceFingerprint
      → M Store LoginResponse
  accept_password body user user_agent existing device = do
    mfa_verified ← second_factor body user
    let known = if is_some existing then increase_trust device 10 else device
    now ← utc_now
    let seen = update_last_seen known now
    statement (upsert_device (entry user seen))
    risk ← score_login user seen
    if is_block risk.recommendation
        then block_login user seen risk
        else open_session body user user_agent mfa_verified risk

  unfoldable pub login_user : LoginBody → UserRow → (user_agent : String) → M Store LoginResponse
  login_user body user user_agent = do
    id ← new_uuid
    first_seen ← utc_now
    last_seen ← utc_now
    let fresh =
        Device.new p.sha256 id first_seen last_seen user.id user_agent (p.texts.show_ip remote)
          no_metadata
    existing ← statement (find_device_by_fingerprint user.id fresh.fingerprint_hash)
    let device = adopt existing fresh
    matches ← lift (verify_password p.argon2 body.password user.password_hash)
    if not matches
        then reject_password body user device
        else accept_password body user user_agent existing device

  unfoldable pub handle_login : Request → M Store LoginResponse
  handle_login req = do
    check_rate_limit p.redis p.texts remote "login" (pos 10) (pos 300)
    let user_agent = header_or "user-agent" "unknown" req.headers
    text ← lift (ok_or req.body internal_error)
    body ← lift (ok_or (p.bodies.parse_login text) (authentication_failed "invalid request body"))
    found ← statement (find_user_by_username body.username)
    user ← lift (ok_or (active found) (authentication_failed "invalid credentials"))
    login_user body user user_agent
