-- ===== src/Proxy/Login/Sound.antt =====
-- src/proxy/mod.rs: what a login that `handle_login` grants has shown.
use zero_trust_proxy.Common.{
  ◌≡◌, ◌≢◌, refl, sym, ap, subst, suc, ◌∙◌, String, Bool, true, false, not, ◌&&◌, Option, none,
  some, arith, inl, inr, if◌then◌else◌, Bool-cases, Option-cases, is_some,
}
use zero_trust_proxy.Error.{internal_error, ok, ok_or, authentication_failed, Result-cases}
use zero_trust_proxy.Db.{
  UserRow, DeviceRow, find_user_by_username, upsert_device, find_device_by_fingerprint,
}
use zero_trust_proxy.World.{World, statement, lift, utc_now, new_uuid}
use zero_trust_proxy.World.Monad.{bind-answer, ok_or-inv}
use zero_trust_proxy.Auth.Device.{
  DeviceFingerprint, increase_trust, decrease_trust, update_last_seen,
}
use zero_trust_proxy.Auth.Device
use zero_trust_proxy.Common.Int.{ℤ, pos}
use zero_trust_proxy.Clock.{DateTime}
use zero_trust_proxy.Proxy.RateLimit.{check_rate_limit}
use zero_trust_proxy.Auth.Mfa
use zero_trust_proxy.Auth.Mfa.{verify_token}
use zero_trust_proxy.Auth.Password.{verify_password}
use zero_trust_proxy.Risk.{IpAddr, RiskScore}
use zero_trust_proxy.Proxy.Server.{Platform, Request, ProxyServer, header_or, no_metadata}
use zero_trust_proxy.Proxy.Bodies.{LoginBody, LoginResponse}
use zero_trust_proxy.Proxy.Login.{
  second_factor, accept_password, login_user, handle_login, open_session, score_login, check_code,
  reject_password, adopt, active, entry, is_block, start_session,
}

active-inv :
    (found : Option UserRow) (user : UserRow)
    → active found ≡ some user
    → (found ≡ some user) × (user.is_active ≡ true)
active-inv none user h = absurd (ground arith)
active-inv (some u) user h = (ground arith, ground arith)

module _ {Store F : Type 0} (p : Platform Store F) (server : ProxyServer) (remote : IpAddr) where
  -- A code has been given that verifies against the secret of the user at an instant.
  pub SecondFactor : LoginBody → UserRow → DateTime → Type 0
  SecondFactor body user now =
      (secret : String) × (token : String) × (user.mfa_secret ≡ some secret)
      × (body.mfa_token ≡ some token)
      × (p.totp.check_current Mfa.default.digits Mfa.default.step secret token now ≡ ok true)

  -- The user is read once the rate limit has passed, and the code is checked at the third reading of
  -- the clock.
  pub record LoggedIn (req : Request) (reply : LoginResponse) (w : World Store) : Type 0 where
    pub text : String
    pub read : req.body ≡ some text
    pub body : LoginBody
    pub parsed : p.bodies.parse_login text ≡ some body
    pub user : UserRow
    pub w0 : World Store
    pub counted : check_rate_limit p.redis p.texts remote "login" (pos 10) (pos 300) w ≡ (ok tt, w0)
    pub found : (statement (find_user_by_username body.username) w0).0 ≡ ok (some user)
    pub active : user.is_active ≡ true
    pub password : verify_password p.argon2 body.password user.password_hash ≡ ok true
    pub factor : user.mfa_enabled ≡ true → SecondFactor body user (w.clock (suc (suc w.readings)))
    pub nothing_left : reply.mfa_required ≡ false

  verify_token-current :
      (secret token : String) (w : World Store)
      → (verify_token p.totp Mfa.default secret token w).0 ≡ ok true
      → p.totp.check_current Mfa.default.digits Mfa.default.step secret token (w.clock w.readings)
        ≡ ok true
  unfolding verify_token utc_now
  verify_token-current secret token w h =
      elim (Result-cases (p.totp.new Mfa.default.digits Mfa.default.step secret)) [
        | inr (e, q) ↦ absurd (ground arith)
        | inl (made, q) ↦
            elim (Result-cases (
              p.totp.check_current Mfa.default.digits Mfa.default.step secret token
                (w.clock w.readings))) [
                  | inr (e, r) ↦ absurd (ground arith)
                  | inl (b, r) ↦ ground arith
                ]
      ]

  check_code_sound :
      (body : LoginBody) (user : UserRow) (secret : String) (given : Option String)
      (w : World Store) (verified : Bool)
      → user.mfa_secret ≡ some secret
      → body.mfa_token ≡ given
      → (check_code p server remote secret given w).0 ≡ ok verified
      → (verified ≡ true) × SecondFactor body user (w.clock w.readings)
  unfolding SecondFactor
  check_code_sound body user secret none w verified q r h = absurd (ground arith)
  check_code_sound body user secret (some token) w verified q r h =
      elim (Result-cases (verify_token p.totp Mfa.default secret token w).0) [
        | inr (e, v) ↦ absurd (ground arith)
        | inl (b, v) ↦ (
          ground arith,
          (secret, token, q, r, verify_token-current secret token w (ground arith)),
        )
      ]

  second_factor_sound :
      (body : LoginBody) (user : UserRow) (w : World Store) (verified : Bool)
      → (second_factor p server remote body user w).0 ≡ ok verified
      → (verified ≡ user.mfa_enabled)
        × (user.mfa_enabled ≡ true → SecondFactor body user (w.clock w.readings))
  unfolding second_factor
  second_factor_sound body user w verified h = elim (Bool-cases user.mfa_enabled) [
    | inr e ↦ (ground arith, λ t. absurd (ground arith))
    | inl e ↦ elim (Option-cases user.mfa_secret) [
      | inl q ↦ absurd (ground arith)
      | inr (secret, q) ↦
          let (v, factor) =
            check_code_sound body user secret body.mfa_token w verified q refl (ground arith) in
          (ground arith, λ t. factor)
    ]
  ]

  open_session_reply :
      (body : LoginBody) (user : UserRow) (agent : String) (verified : Bool) (risk : RiskScore)
      (w : World Store) (reply : LoginResponse)
      → (open_session p server remote body user agent verified risk w).0 ≡ ok reply
      → reply.mfa_required ≡ (user.mfa_enabled && not verified)
  unfolding open_session
  open_session_reply body user agent verified risk w reply h =
      let (token, w1, _, h1) =
        bind-answer (start_session p server remote body user agent verified risk w) _ h in
      ground arith

  accept_password_sound :
      (body : LoginBody) (user : UserRow) (agent : String) (existing : Option DeviceRow)
      (device : DeviceFingerprint) (w : World Store) (reply : LoginResponse)
      → (accept_password p server remote body user agent existing device w).0 ≡ ok reply
      → (user.mfa_enabled ≡ true → SecondFactor body user (w.clock w.readings))
        × (reply.mfa_required ≡ false)
  unfolding accept_password
  accept_password_sound body user agent existing device w reply h =
      let (verified, w1, q1, h1) = bind-answer (second_factor p server remote body user w) _ h in
      let (on, factor) = second_factor_sound body user w verified (ap (λ r. r.0) q1) in
      let known = if is_some existing then increase_trust device 10 else device in
      let (now, w2, _, h2) = bind-answer (utc_now w1) _ h1 in
      let seen = update_last_seen known now in
      let (_, w3, _, h3) =
        bind-answer (statement (upsert_device (entry p server remote user seen)) w2) _ h2 in
      let (risk, w4, _, h4) = bind-answer (score_login p server remote user seen w3) _ h3 in
      elim (Bool-cases (is_block risk.recommendation)) [
        | inl e ↦ absurd (ground arith)
        | inr e ↦
            let reply_mfa =
              open_session_reply body user agent verified risk w4 reply (ground arith) in
            (factor, ground arith)
      ]

  reject_password_fails :
      (body : LoginBody) (user : UserRow) (device : DeviceFingerprint) (w : World Store)
      (reply : LoginResponse)
      → (reject_password p server remote body user device w).0 ≢ ok reply
  unfolding reject_password
  reject_password_fails body user device w reply h =
      let distrusted = decrease_trust device 15 in
      let (_, w1, _, h1) =
        bind-answer (statement (upsert_device (entry p server remote user distrusted)) w) _ h in
      ground arith

  -- A drawn UUID and two readings of the clock.
  third_reading :
      (w : World Store) (id : String) (w1 : World Store) (first : DateTime) (w2 : World Store)
      (last : DateTime) (w3 : World Store)
      → new_uuid w ≡ (ok id, w1)
      → utc_now w1 ≡ (ok first, w2)
      → utc_now w2 ≡ (ok last, w3)
      → w.clock (suc (suc w.readings)) ≡ w3.clock w3.readings
  unfolding utc_now new_uuid
  third_reading w id w1 first w2 last w3 q1 q2 q3 =
      ap (λ r. r.1.clock (suc (suc r.1.readings))) q1
      ∙ ap (λ r. r.1.clock (suc r.1.readings)) q2
      ∙ ap (λ r. r.1.clock r.1.readings) q3

  login_user_sound :
      (body : LoginBody) (user : UserRow) (agent : String) (w : World Store) (reply : LoginResponse)
      → (login_user p server remote body user agent w).0 ≡ ok reply
      → (verify_password p.argon2 body.password user.password_hash ≡ ok true)
        × (user.mfa_enabled ≡ true → SecondFactor body user (w.clock (suc (suc w.readings))))
        × (reply.mfa_required ≡ false)
  unfolding login_user
  login_user_sound body user agent w reply h =
      let (id, w1, q1, h1) = bind-answer (new_uuid w) _ h in
      let (first, w2, q2, h2) = bind-answer (utc_now w1) _ h1 in
      let (last, w3, q3, h3) = bind-answer (utc_now w2) _ h2 in
      let device =
        Device.new p.sha256 id first last user.id agent (p.texts.show_ip remote) no_metadata in
      let (existing, w4, q4, h4) =
        bind-answer (statement (find_device_by_fingerprint user.id device.fingerprint_hash) w3) _
          h3 in
      let (matches, w5, q, h5) =
        bind-answer (lift (verify_password p.argon2 body.password user.password_hash) w4) _ h4 in
      elim (Bool-cases matches) [
        | inr t ↦
            absurd (reject_password_fails body user (adopt existing device) w5 reply (ground arith))
        | inl t ↦
            let (factor, nothing_left) =
              accept_password_sound body user agent existing (adopt existing device) w5 reply
                (ground arith) in
            let now = sym (
              third_reading w id w1 first w2 last w3 q1 q2 q3
              ∙ ap (λ r. r.1.clock r.1.readings) q4
              ∙ ap (λ r. r.1.clock r.1.readings) q) in
            (
              ap (λ r. r.0) q ∙ ap (λ b. ok b) t,
              λ on. subst (SecondFactor body user) now (factor on),
              nothing_left,
            )
      ]

  -- The rate limit does not look at the clock.
  check_rate_limit-clock :
      (bucket : String) (limit window : ℤ) (w : World Store)
      → let w' = (check_rate_limit p.redis p.texts remote bucket limit window w).1 in
        w.clock (suc (suc w.readings)) ≡ w'.clock (suc (suc w'.readings))
  unfolding check_rate_limit
  check_rate_limit-clock bucket limit window w = ground arith

  -- A login that is granted has passed the rate limit and named a user who is active right after it,
  -- with the right password and, if the user has enrolled a second factor, with a code that verifies
  -- against the secret at the third reading of the clock; the reply asks for no further factor.
  pub handle_login_sound :
      (req : Request) (w : World Store) (reply : LoginResponse)
      → (handle_login p server remote req w).0 ≡ ok reply
      → LoggedIn req reply w
  unfolding handle_login
  handle_login_sound req w reply h =
      let (_, w1, counted, h1) =
        bind-answer (check_rate_limit p.redis p.texts remote "login" (pos 10) (pos 300) w) _ h in
      let agent = header_or "user-agent" "unknown" req.headers in
      let (text, w2, read, h2) = bind-answer (lift (ok_or req.body internal_error) w1) _ h1 in
      let (body, w3, parsed, h3) =
        bind-answer
          (lift (ok_or (p.bodies.parse_login text) (authentication_failed "invalid request body"))
            w2)
          _ h2 in
      let (found, w4, looked, h4) =
        bind-answer (statement (find_user_by_username body.username) w3) _ h3 in
      let (user, w5, live, h5) =
        bind-answer (lift (ok_or (active found) (authentication_failed "invalid credentials")) w4) _
          h4 in
      let (same, is_live) = active-inv found user (ok_or-inv _ _ live) in
      let (password, factor, nothing_left) = login_user_sound body user agent w5 reply h5 in
      let first = ap (λ r. r.1) read in
      let second = first ∙ ap (λ r. r.1) parsed in
      let third =
        ap (λ r. r.1.clock (suc (suc r.1.readings))) looked
        ∙ ap (λ r. r.1.clock (suc (suc r.1.readings))) live in
      let now = sym (
        check_rate_limit-clock "login" (pos 10) (pos 300) w
        ∙ ap (λ r. r.1.clock (suc (suc r.1.readings))) counted
        ∙ ap (λ v. v.clock (suc (suc v.readings))) second
        ∙ third) in
      record {
        text = text;
        read = ok_or-inv _ _ read;
        body = body;
        parsed = ok_or-inv _ _ parsed;
        user = user;
        w0 = w1;
        counted = counted;
        found =
            ap (λ v. (statement (find_user_by_username body.username) v).0) second
            ∙ ap (λ r. r.0) looked
            ∙ ap (λ o. ok o) same;
        active = is_live;
        password = password;
        factor = λ on. subst (SecondFactor body user) now (factor on);
        nothing_left = nothing_left;
      }
