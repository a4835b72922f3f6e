-- ===== src/Proxy/Owned/Handlers.antt =====
-- src/proxy/mod.rs: the handlers of accounts, of second factors and of logouts leave every session to
-- an active account.
use zero_trust_proxy.Common.{String}
use zero_trust_proxy.Db.{Tables, UserRow, Uuid}
use zero_trust_proxy.Auth.Mfa.{Rng}
use zero_trust_proxy.Auth.Jwt.{Claims}
use zero_trust_proxy.Risk.{IpAddr}
use zero_trust_proxy.Proxy.Server.{Platform, Request, ProxyServer}
use zero_trust_proxy.Proxy.Bodies.{RegisterBody, MfaVerifyBody}
use zero_trust_proxy.Proxy.Register.{create_account, register_user, check_length, handle_register}
use zero_trust_proxy.Proxy.MfaSetup.{
  bearer_claims, subject_row, issue_secret, enroll_user, handle_mfa_enroll, upgrade_session,
  accept_code, verify_subject, handle_mfa_verify,
}
use zero_trust_proxy.Proxy.Logout.{handle_logout, handle_logout_all}
use zero_trust_proxy.World.{RoundTrips}
use zero_trust_proxy.World.Laws.{RedisLaws}
use zero_trust_proxy.World.Keeps.{Keeps, Keeps-bind-known, keeps_rules}
use zero_trust_proxy.Proxy.Owned.{IsOwned, IsLasting, IsOwned-IsLasting}
use zero_trust_proxy.Proxy.Owned.Sessions.{
  get_session-Keeps, update_session-Keeps, get_session-IsActive,
}
use zero_trust_proxy.Proxy.Owned.Removals.{delete_session-Keeps, revoke_user_sessions-Keeps}
use zero_trust_proxy.Proxy.Owned.Gate.{
  statement-Keeps, check_rate_limit-Keeps, validate_token-Keeps, verify_token-Keeps,
}
use zero_trust_proxy.Proxy.Writes.{
  find_user_by_username-Respects, find_user_by_id-Respects, set_user_mfa_secret-Respects,
  create_user-Respects,
}
use zero_trust_proxy.Proxy.Writes.Grows.{Grows, Grows-IsPreorder, Grows-Admits}
use zero_trust_proxy.Common.{true, Option, subst, refl}
use zero_trust_proxy.Auth.Session.{get_session}
use zero_trust_proxy.Auth.Session.Tables.{get_session-Respects}
use zero_trust_proxy.Proxy.Owned.{grows-IsActive}
use zero_trust_proxy.World.Respects.{Respects}

module _ {Store F : Type 0} (p : Platform Store F) (value : Store → String → Option String)
    (laws : RedisLaws p.redis value) (codec : RoundTrips p.session_json) where
  abbrev Owned : Store → Tables → Type 0
  Owned = IsOwned p.redis value p.session_json

  lasting : IsLasting p.redis value p.session_json Owned
  lasting = IsOwned-IsLasting p.redis value p.session_json

  create_account-Keeps :
      (remote : IpAddr) (salt : String) (body : RegisterBody)
      → Keeps Owned (create_account p remote salt body)
  unfolding create_account
  create_account-Keeps remote salt body =
      search (keeps_rules, statement-Keeps p value laws codec Owned lasting, create_user-Respects)

  register_user-Keeps :
      (remote : IpAddr) (salt : String) (body : RegisterBody)
      → Keeps Owned (register_user p remote salt body)
  unfolding register_user
  register_user-Keeps remote salt body = search (
    keeps_rules,
    statement-Keeps p value laws codec Owned lasting,
    find_user_by_username-Respects,
    create_account-Keeps,
  )

  check_length-Keeps :
      (remote : IpAddr) (salt : String) (body : RegisterBody)
      → Keeps Owned (check_length p remote salt body)
  unfolding check_length
  check_length-Keeps remote salt body = search (keeps_rules, register_user-Keeps)

  pub handle_register-Keeps :
      (remote : IpAddr) (salt : String) (req : Request)
      → Keeps Owned (handle_register p remote salt req)
  unfolding handle_register
  handle_register-Keeps remote salt req =
      search
        (keeps_rules, check_rate_limit-Keeps p value laws codec Owned lasting, check_length-Keeps)
        depth 9

  module _ (server : ProxyServer) where
    bearer_claims-Keeps : (req : Request) → Keeps Owned (bearer_claims p server req)
    unfolding bearer_claims
    bearer_claims-Keeps req =
        search (keeps_rules, validate_token-Keeps p value laws codec Owned lasting)

    subject_row-Keeps : (user_id : Uuid) → Keeps Owned (subject_row p server user_id)
    unfolding subject_row
    subject_row-Keeps user_id =
        search
          (keeps_rules, statement-Keeps p value laws codec Owned lasting, find_user_by_id-Respects)

    issue_secret-Keeps :
        (gen_range : Rng) (user_id : Uuid) (user : UserRow)
        → Keeps Owned (issue_secret p server gen_range user_id user)
    unfolding issue_secret
    issue_secret-Keeps gen_range user_id user =
        search
          (
            keeps_rules,
            statement-Keeps p value laws codec Owned lasting,
            set_user_mfa_secret-Respects,
          )
          depth 9

    enroll_user-Keeps :
        (gen_range : Rng) (claims : Claims) → Keeps Owned (enroll_user p server gen_range claims)
    unfolding enroll_user
    enroll_user-Keeps gen_range claims =
        search (keeps_rules, subject_row-Keeps, issue_secret-Keeps) depth 9

    pub handle_mfa_enroll-Keeps :
        (gen_range : Rng) (req : Request) → Keeps Owned (handle_mfa_enroll p server gen_range req)
    unfolding handle_mfa_enroll
    handle_mfa_enroll-Keeps gen_range req =
        search (keeps_rules, bearer_claims-Keeps, enroll_user-Keeps)

    -- The session of a token is its owner's before and after.
    upgrade_session-Keeps : (claims : Claims) → Keeps Owned (upgrade_session p server claims)
    unfolding upgrade_session
    upgrade_session-Keeps claims =
        Keeps-bind-known (get_session p.redis p.chrono p.session_json claims.session_id) _
          (get_session-Keeps p.redis value laws p.chrono p.session_json codec claims.session_id)
          λ session w v q before h.
            let found : Respects Grows
                (get_session p.redis p.chrono p.session_json claims.session_id) =
              get_session-Respects p.redis p.chrono p.session_json claims.session_id in
            let grown = subst (λ r. Grows w.db.tables r.1.db.tables) q (found.at w) in
            let owner =
              get_session-IsActive p.redis value laws p.chrono p.session_json codec
                claims.session_id w v session q before in
            let after =
              (update_session-Keeps p.redis value laws p.chrono p.session_json codec session.user_id
                  (record session { mfa_verified = true }) refl).at
                v
                (record {
                  sessions = h;
                  active = grows-IsActive session.user_id w.db.tables v.db.tables grown owner;
                }) in
            after.sessions

    accept_code-Keeps :
        (claims : Claims) (secret token : String)
        → Keeps Owned (accept_code p server claims secret token)
    unfolding accept_code
    accept_code-Keeps claims secret token =
        search
          (keeps_rules, verify_token-Keeps p value laws codec Owned lasting, upgrade_session-Keeps)

    verify_subject-Keeps :
        (claims : Claims) (body : MfaVerifyBody) → Keeps Owned (verify_subject p server claims body)
    unfolding verify_subject
    verify_subject-Keeps claims body =
        search (keeps_rules, subject_row-Keeps, accept_code-Keeps) depth 9

    pub handle_mfa_verify-Keeps :
        (remote : IpAddr) (req : Request) → Keeps Owned (handle_mfa_verify p server remote req)
    unfolding handle_mfa_verify
    handle_mfa_verify-Keeps remote req =
        search
          (
            keeps_rules,
            check_rate_limit-Keeps p value laws codec Owned lasting,
            bearer_claims-Keeps,
            verify_subject-Keeps,
          )
          depth 12

    pub handle_logout-Keeps : (req : Request) → Keeps Owned (handle_logout p server req)
    unfolding handle_logout
    handle_logout-Keeps req = search (
      keeps_rules,
      validate_token-Keeps p value laws codec Owned lasting,
      delete_session-Keeps p.redis value laws p.chrono p.session_json codec Owned lasting,
    )

    pub handle_logout_all-Keeps : (req : Request) → Keeps Owned (handle_logout_all p server req)
    unfolding handle_logout_all
    handle_logout_all-Keeps req = search (
      keeps_rules,
      validate_token-Keeps p value laws codec Owned lasting,
      revoke_user_sessions-Keeps p.redis value laws p.chrono p.session_json codec Owned lasting,
    )
