-- ===== src/Proxy/Writes/Login.antt =====
-- src/proxy/mod.rs: `handle_login`.
use zero_trust_proxy.Common.{String, Bool, Option, none, some}
use zero_trust_proxy.Db.{Tables, UserRow, DeviceRow}
use zero_trust_proxy.World.Respects.{Respects, IsPreorder, respects_rules}
use zero_trust_proxy.Auth.Device.{DeviceFingerprint}
use zero_trust_proxy.Auth.Session.Tables.{update_session-Respects, create_session-Respects}
use zero_trust_proxy.Risk.{IpAddr, RiskScore}
use zero_trust_proxy.Proxy.Server.{Platform, Request, ProxyServer}
use zero_trust_proxy.Proxy.Bodies.{LoginBody}
use zero_trust_proxy.Proxy.Login.{
  reject_password, second_factor, check_code, score_login, start_session, device_id_or_new,
  open_session, accept_password, login_user, handle_login,
}
use zero_trust_proxy.Proxy.Writes.{
  Admits, find_user_by_username-Respects, find_device-Respects, upsert_device-Respects,
  log_authentication-Respects,
}
use zero_trust_proxy.Proxy.Writes.Gate.{
  check_rate_limit-Respects, generate_token-Respects, verify_token-Respects,
}

module _ {Store F : Type 0} {R : Tables → Tables → Type 0} ⦃order : IsPreorder R⦄
    ⦃writes : Admits R⦄ (p : Platform Store F) (server : ProxyServer) (remote : IpAddr) where
  reject_password-Respects :
      (body : LoginBody) (user : UserRow) (device : DeviceFingerprint)
      → Respects R (reject_password p server remote body user device)
  unfolding reject_password
  reject_password-Respects body user device =
      search (respects_rules, upsert_device-Respects, log_authentication-Respects) depth 8

  check_code-Respects :
      (secret : String) (token : Option String)
      → Respects R (check_code p server remote secret token)
  check_code-Respects secret none = search respects_rules
  check_code-Respects secret (some token) = search (respects_rules, verify_token-Respects)

  second_factor-Respects :
      (body : LoginBody) (user : UserRow) → Respects R (second_factor p server remote body user)
  unfolding second_factor
  second_factor-Respects body user = search (respects_rules, check_code-Respects)

  score_login-Respects :
      (user : UserRow) (device : DeviceFingerprint)
      → Respects R (score_login p server remote user device)
  unfolding score_login
  score_login-Respects user device = search respects_rules

  device_id_or_new-Respects :
      (id : Option String) → Respects R (device_id_or_new p server remote id)
  device_id_or_new-Respects none = search respects_rules
  device_id_or_new-Respects (some id) = search respects_rules

  start_session-Respects :
      (body : LoginBody) (user : UserRow) (user_agent : String) (mfa : Bool) (risk : RiskScore)
      → Respects R (start_session p server remote body user user_agent mfa risk)
  unfolding start_session
  start_session-Respects body user user_agent mfa risk =
      search
        (
          respects_rules, device_id_or_new-Respects, create_session-Respects,
          update_session-Respects, log_authentication-Respects, generate_token-Respects,
        )
        depth 9

  open_session-Respects :
      (body : LoginBody) (user : UserRow) (user_agent : String) (mfa : Bool) (risk : RiskScore)
      → Respects R (open_session p server remote body user user_agent mfa risk)
  unfolding open_session
  open_session-Respects body user user_agent mfa risk =
      search (respects_rules, start_session-Respects)

  accept_password-Respects :
      (body : LoginBody) (user : UserRow) (user_agent : String) (existing : Option DeviceRow)
      (device : DeviceFingerprint)
      → Respects R (accept_password p server remote body user user_agent existing device)
  unfolding accept_password
  accept_password-Respects body user user_agent existing device =
      search
        (
          respects_rules, second_factor-Respects, upsert_device-Respects, score_login-Respects,
          log_authentication-Respects, open_session-Respects,
        )
        depth 12

  login_user-Respects :
      (body : LoginBody) (user : UserRow) (user_agent : String)
      → Respects R (login_user p server remote body user user_agent)
  unfolding login_user
  login_user-Respects body user user_agent =
      search
        (respects_rules, find_device-Respects, reject_password-Respects, accept_password-Respects)
        depth 12

  pub handle_login-Respects : (req : Request) → Respects R (handle_login p server remote req)
  unfolding handle_login
  handle_login-Respects req =
      search
        (
          respects_rules, check_rate_limit-Respects, find_user_by_username-Respects,
          login_user-Respects,
        )
        depth 12
