-- ===== src/Proxy/Owned/Login.antt =====
-- src/proxy/mod.rs: `handle_login` leaves every session to an active account.
use zero_trust_proxy.Common.{
  String, Bool, true, ◌&&◌, ◌==◌, eq_iff, ◌≡◌, refl, ap, Option, none, some, List, [], ◌∷◌, any,
  arith, Bool-cases, Option-cases, inl, inr,
}
use zero_trust_proxy.Error.{ok, ok_or, authentication_failed}
use zero_trust_proxy.Db.{UserRow, DeviceRow, find_row, find_user_by_username}
use zero_trust_proxy.Auth.Device.{DeviceFingerprint}
use zero_trust_proxy.Risk.{IpAddr, RiskScore}
use zero_trust_proxy.Proxy.Server.{Platform, Request, ProxyServer}
use zero_trust_proxy.Proxy.Bodies.{LoginBody, LoginResponse}
use zero_trust_proxy.Proxy.Login.{
  start_session, device_id_or_new, open_session, accept_password, login_user, handle_login, active,
}
use zero_trust_proxy.World.{RoundTrips, World, M, statement, ◌>>=◌, ◌>>◌, lift}
use zero_trust_proxy.World.Laws.{RedisLaws}
use zero_trust_proxy.World.Keeps.{
  Keeps, Keeps-bind, Keeps-bind-known, Keeps-bind-answer, keeps_rules,
}
use zero_trust_proxy.Proxy.Owned.{
  IsActive, IsOwned, IsOwnedBeside, IsOwned-IsLasting, IsOwnedBeside-IsLasting,
}
use zero_trust_proxy.Proxy.Owned.Sessions.{update_session-Keeps, create_session-Keeps}
use zero_trust_proxy.Proxy.Owned.Gate.{
  statement-Keeps, check_rate_limit-Keeps, generate_token-Keeps, log_authentication-Keeps,
}
use zero_trust_proxy.Proxy.Writes.{
  find_user_by_username-Respects, find_device-Respects, upsert_device-Respects,
}
use zero_trust_proxy.Proxy.Writes.Grows.{Grows-IsPreorder, Grows-Admits}
use zero_trust_proxy.Auth.Session.{Session, create_session, update_session}
use zero_trust_proxy.Auth.Jwt.{generate_token}
use zero_trust_proxy.Audit.{log_authentication}
use zero_trust_proxy.World.{attempt}
use zero_trust_proxy.Auth.Session.Lifecycle.{create_session-Holds}
use zero_trust_proxy.Proxy.Owned.LoginSteps.{
  reject_password-Keeps, second_factor-Keeps, score_login-Keeps, device_id_or_new-Keeps,
}

find_active :
    (name : String) (users : List UserRow) (user : UserRow)
    → active (find_row (λ u. u.username == name) users) ≡ some user
    → any (λ u. u.id == user.id && u.is_active) users ≡ true
unfolding find_row any
find_active name [] user h = absurd (ground arith)
find_active name (x ∷ xs) user h = elim (Bool-cases (x.username == name)) [
  | inr b ↦ let rest = find_active name xs user (rw b at h) in ground arith
  | inl b ↦ elim (Bool-cases x.is_active) [
    | inr off ↦ absurd (ground arith)
    | inl on ↦
        let same : x ≡ user = ground arith in
        ground (arith, ap (λ u. u.id) same, eq_iff x.id user.id)
  ]
]

find_user-found :
    {Store : Type 0} (name : String) (found : Option UserRow) (w v : World Store)
    → statement (find_user_by_username name) w ≡ (ok found, v)
    → found ≡ find_row (λ u. u.username == name) v.db.tables.users
unfolding find_user_by_username
find_user-found name found w v h = elim (Option-cases (w.db.outages w.db.statements)) [
  | inr (e, q) ↦ absurd (ground arith)
  | inl q ↦ ground arith
]

module _ {Store F : Type 0} (p : Platform Store F) (value : Store → String → Option String)
    (laws : RedisLaws p.redis value) (codec : RoundTrips p.session_json) (server : ProxyServer)
    (remote : IpAddr) where
  -- What follows the creation of a session.
  ready_session-Keeps :
      (user : UserRow) (device_id : String) (mfa : Bool) (risk : RiskScore) (created : Session)
      → created.user_id ≡ user.id
      → let session = record created { mfa_verified = mfa; risk_score = risk.total_score } in
        Keeps {Store = Store} {A = String} (IsOwnedBeside p.redis value p.session_json user.id) (
          update_session p.redis p.chrono p.session_json session
          >> (attempt (log_authentication p.texts user.id device_id (p.texts.show_ip remote) true)
              >> generate_token p.jwt p.chrono server.jwt_manager user.id device_id risk.total_score
                  mfa session.id))
  ready_session-Keeps user device_id mfa risk created owner =
      let I = IsOwnedBeside p.redis value p.session_json user.id in
      let lasting = IsOwnedBeside-IsLasting p.redis value p.session_json user.id in
      search
        (
          keeps_rules,
          update_session-Keeps p.redis value laws p.chrono p.session_json codec,
          log_authentication-Keeps p value laws codec I lasting,
          generate_token-Keeps p value laws codec I lasting,
        )
        depth 9

  start_session-Keeps :
      (body : LoginBody) (user : UserRow) (user_agent : String) (mfa : Bool) (risk : RiskScore)
      → Keeps
          (IsOwnedBeside p.redis value p.session_json user.id)
          (start_session p server remote body user user_agent mfa risk)
  unfolding start_session
  start_session-Keeps body user user_agent mfa risk =
      let I = IsOwnedBeside p.redis value p.session_json user.id in
      let lasting = IsOwnedBeside-IsLasting p.redis value p.session_json user.id in
      Keeps-bind (device_id_or_new p server remote body.device_id) _
        (device_id_or_new-Keeps p value laws codec server remote I lasting body.device_id)
        λ device_id.
          Keeps-bind-answer
            (create_session p.redis p.chrono p.session_json
              server.config.auth.session_duration_minutes user.id device_id (p.texts.show_ip remote)
              user_agent)
            _
            (create_session-Keeps p.redis value laws p.chrono p.session_json codec
              server.config.auth.session_duration_minutes user.id device_id (p.texts.show_ip remote)
              user_agent)
            λ created w v q.
              let (owner, _, _, _, _) =
                create_session-Holds p.redis value laws p.chrono p.session_json
                  server.config.auth.session_duration_minutes user.id device_id
                  (p.texts.show_ip remote) user_agent w v created q in
              ready_session-Keeps user device_id mfa risk created owner

  open_session-Keeps :
      (body : LoginBody) (user : UserRow) (user_agent : String) (mfa : Bool) (risk : RiskScore)
      → Keeps
          (IsOwnedBeside p.redis value p.session_json user.id)
          (open_session p server remote body user user_agent mfa risk)
  unfolding open_session
  open_session-Keeps body user user_agent mfa risk = search (keeps_rules, start_session-Keeps)

  accept_password-Keeps :
      (body : LoginBody) (user : UserRow) (user_agent : String) (existing : Option DeviceRow)
      (device : DeviceFingerprint)
      → Keeps
          (IsOwnedBeside p.redis value p.session_json user.id)
          (accept_password p server remote body user user_agent existing device)
  unfolding accept_password
  accept_password-Keeps body user user_agent existing device =
      let I = IsOwnedBeside p.redis value p.session_json user.id in
      let lasting = IsOwnedBeside-IsLasting p.redis value p.session_json user.id in
      search
        (
          keeps_rules,
          second_factor-Keeps p value laws codec server remote I lasting,
          statement-Keeps p value laws codec I lasting,
          upsert_device-Respects,
          score_login-Keeps p value laws codec server remote I lasting,
          log_authentication-Keeps p value laws codec I lasting,
          open_session-Keeps,
        )
        depth 12

  login_user-Keeps :
      (body : LoginBody) (user : UserRow) (user_agent : String)
      → Keeps
          (IsOwnedBeside p.redis value p.session_json user.id)
          (login_user p server remote body user user_agent)
  unfolding login_user
  login_user-Keeps body user user_agent =
      let I = IsOwnedBeside p.redis value p.session_json user.id in
      let lasting = IsOwnedBeside-IsLasting p.redis value p.session_json user.id in
      search
        (
          keeps_rules,
          statement-Keeps p value laws codec I lasting,
          find_device-Respects,
          reject_password-Keeps p value laws codec server remote I lasting,
          accept_password-Keeps,
        )
        depth 12

  -- The account that the name finds, if it is active, and what follows.
  active_user-Keeps :
      (body : LoginBody) (user_agent : String) (found : Option UserRow) (w : World Store)
      → ((user : UserRow) → found ≡ some user → IsActive user.id w.db.tables)
      → IsOwned p.redis value p.session_json w.redis w.db.tables
      → let m : M Store LoginResponse =
          lift (ok_or found (authentication_failed "invalid credentials")) >>= λ user.
          login_user p server remote body user user_agent in
        IsOwned p.redis value p.session_json (m w).1.redis (m w).1.db.tables
  active_user-Keeps body user_agent none w known h = h
  active_user-Keeps body user_agent (some user) w known h =
      let after =
        (login_user-Keeps body user user_agent).at w
          (record { sessions = h; active = known user refl }) in
      after.sessions

  found_user-Keeps :
      (body : LoginBody) (user_agent : String)
      → Keeps (IsOwned p.redis value p.session_json) (
          statement (find_user_by_username body.username) >>= λ found.
          lift (ok_or (active found) (authentication_failed "invalid credentials")) >>= λ user.
          login_user p server remote body user user_agent)
  found_user-Keeps body user_agent =
      Keeps-bind-known (statement (find_user_by_username body.username)) _
        (statement-Keeps p value laws codec (IsOwned p.redis value p.session_json)
          (IsOwned-IsLasting p.redis value p.session_json) (find_user_by_username body.username)
          (find_user_by_username-Respects body.username))
        λ found w v q _ h.
          active_user-Keeps body user_agent (active found) v
            (λ user r.
              find_active body.username v.db.tables.users user
                (rw (find_user-found body.username found w v q) at r))
            h

  pub handle_login-Keeps :
      (req : Request)
      → Keeps (IsOwned p.redis value p.session_json) (handle_login p server remote req)
  unfolding handle_login
  handle_login-Keeps req =
      search
        (
          keeps_rules,
          check_rate_limit-Keeps p value laws codec (IsOwned p.redis value p.session_json)
              (IsOwned-IsLasting p.redis value p.session_json),
          found_user-Keeps,
        )
        depth 9
