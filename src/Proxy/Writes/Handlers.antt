-- ===== src/Proxy/Writes/Handlers.antt =====
-- src/proxy/mod.rs: the handlers of accounts, of second factors and of logouts.
use zero_trust_proxy.Common.{String}
use zero_trust_proxy.Db.{Tables, UserRow, Uuid}
use zero_trust_proxy.World.Respects.{Respects, IsPreorder, respects_rules}
use zero_trust_proxy.Auth.Mfa.{Rng}
use zero_trust_proxy.Auth.Session.Tables.{
  update_session-Respects, delete_session-Respects, get_session-Respects,
  revoke_user_sessions-Respects,
}
use zero_trust_proxy.Auth.Jwt.{Claims}
use zero_trust_proxy.Risk.{IpAddr}
use zero_trust_proxy.Proxy.Server.{Platform, Request, ProxyServer}
use zero_trust_proxy.Proxy.Bodies.{RegisterBody, MfaVerifyBody}
use zero_trust_proxy.Proxy.Register.{create_account, register_user, check_length, handle_register}
use zero_trust_proxy.Proxy.MfaSetup.{
  bearer_claims, subject_row, issue_secret, enroll_user, handle_mfa_enroll, upgrade_session,
  accept_code, verify_subject, handle_mfa_verify,
}
use zero_trust_proxy.Proxy.Logout.{handle_logout, handle_logout_all}
use zero_trust_proxy.Proxy.Writes.{
  Admits, find_user_by_username-Respects, find_user_by_id-Respects, set_user_mfa_secret-Respects,
  create_user-Respects,
}
use zero_trust_proxy.Proxy.Writes.Gate.{
  check_rate_limit-Respects, validate_token-Respects, verify_token-Respects,
}

module _ {Store F : Type 0} {R : Tables → Tables → Type 0} ⦃order : IsPreorder R⦄
    ⦃writes : Admits R⦄ (p : Platform Store F) where
  create_account-Respects :
      (remote : IpAddr) (salt : String) (body : RegisterBody)
      → Respects R (create_account p remote salt body)
  unfolding create_account
  create_account-Respects remote salt body = search (respects_rules, create_user-Respects)

  register_user-Respects :
      (remote : IpAddr) (salt : String) (body : RegisterBody)
      → Respects R (register_user p remote salt body)
  unfolding register_user
  register_user-Respects remote salt body =
      search (respects_rules, find_user_by_username-Respects, create_account-Respects)

  check_length-Respects :
      (remote : IpAddr) (salt : String) (body : RegisterBody)
      → Respects R (check_length p remote salt body)
  unfolding check_length
  check_length-Respects remote salt body = search (respects_rules, register_user-Respects)

  pub handle_register-Respects :
      (remote : IpAddr) (salt : String) (req : Request)
      → Respects R (handle_register p remote salt req)
  unfolding handle_register
  handle_register-Respects remote salt req =
      search (respects_rules, check_rate_limit-Respects, check_length-Respects) depth 9

  module _ (server : ProxyServer) where
    bearer_claims-Respects : (req : Request) → Respects R (bearer_claims p server req)
    unfolding bearer_claims
    bearer_claims-Respects req = search (respects_rules, validate_token-Respects)

    subject_row-Respects : (user_id : Uuid) → Respects R (subject_row p server user_id)
    unfolding subject_row
    subject_row-Respects user_id = search (respects_rules, find_user_by_id-Respects)

    issue_secret-Respects :
        (gen_range : Rng) (user_id : Uuid) (user : UserRow)
        → Respects R (issue_secret p server gen_range user_id user)
    unfolding issue_secret
    issue_secret-Respects gen_range user_id user =
        search (respects_rules, set_user_mfa_secret-Respects) depth 9

    enroll_user-Respects :
        (gen_range : Rng) (claims : Claims) → Respects R (enroll_user p server gen_range claims)
    unfolding enroll_user
    enroll_user-Respects gen_range claims =
        search (respects_rules, subject_row-Respects, issue_secret-Respects) depth 9

    pub handle_mfa_enroll-Respects :
        (gen_range : Rng) (req : Request) → Respects R (handle_mfa_enroll p server gen_range req)
    unfolding handle_mfa_enroll
    handle_mfa_enroll-Respects gen_range req =
        search (respects_rules, bearer_claims-Respects, enroll_user-Respects)

    upgrade_session-Respects : (claims : Claims) → Respects R (upgrade_session p server claims)
    unfolding upgrade_session
    upgrade_session-Respects claims =
        search (respects_rules, get_session-Respects, update_session-Respects)

    accept_code-Respects :
        (claims : Claims) (secret token : String)
        → Respects R (accept_code p server claims secret token)
    unfolding accept_code
    accept_code-Respects claims secret token =
        search (respects_rules, verify_token-Respects, upgrade_session-Respects)

    verify_subject-Respects :
        (claims : Claims) (body : MfaVerifyBody) → Respects R (verify_subject p server claims body)
    unfolding verify_subject
    verify_subject-Respects claims body =
        search (respects_rules, subject_row-Respects, accept_code-Respects) depth 9

    pub handle_mfa_verify-Respects :
        (remote : IpAddr) (req : Request) → Respects R (handle_mfa_verify p server remote req)
    unfolding handle_mfa_verify
    handle_mfa_verify-Respects remote req =
        search
          (
            respects_rules, check_rate_limit-Respects, bearer_claims-Respects,
            verify_subject-Respects,
          )
          depth 12

    pub handle_logout-Respects : (req : Request) → Respects R (handle_logout p server req)
    unfolding handle_logout
    handle_logout-Respects req =
        search (respects_rules, validate_token-Respects, delete_session-Respects)

    pub handle_logout_all-Respects : (req : Request) → Respects R (handle_logout_all p server req)
    unfolding handle_logout_all
    handle_logout_all-Respects req =
        search (respects_rules, validate_token-Respects, revoke_user_sessions-Respects)
