-- ===== src/Proxy/MfaSetup/Upgrade.antt =====
-- src/proxy/mod.rs: what a code that `handle_mfa_verify` accepts has shown, and what it does to the
-- session of the token.
use zero_trust_proxy.Common.{
  ◌≡◌, ap, ◌∙◌, String, Bool, true, false, not, Option, some, arith, ◌⊎◌, inl, inr, if◌then◌else◌,
  Bool-cases,
}
use zero_trust_proxy.Common.Int.{pos, ltb_ℤ, ◌-ℤ◌}
use zero_trust_proxy.Error.{
  ProxyResult, ok, err, ok_or, authentication_failed, internal_error, invalid_mfa_token,
  mfa_required, Result-cases,
}
use zero_trust_proxy.Db.{UserRow, Uuid}
use zero_trust_proxy.World.{World, fail, lift, attempt, utc_now}
use zero_trust_proxy.World.Laws.{RedisLaws}
use zero_trust_proxy.World.Monad.{bind-inv, ok_or-inv}
use zero_trust_proxy.Auth.Mfa
use zero_trust_proxy.Auth.Mfa.{verify_token}
use zero_trust_proxy.Auth.Session.{Session, to_u64, key_of, get_session, update_session}
use zero_trust_proxy.Auth.Session.Lifecycle.{Holds}
use zero_trust_proxy.Auth.Jwt.{Claims}
use zero_trust_proxy.Risk.{IpAddr}
use zero_trust_proxy.Proxy.Bodies.{MfaVerifyBody}
use zero_trust_proxy.Proxy.Server.{Platform, Request, ProxyServer}
use zero_trust_proxy.Proxy.RateLimit.{check_rate_limit}
use zero_trust_proxy.Proxy.Login.{or_false}
use zero_trust_proxy.Proxy.MfaSetup.{
  bearer_claims, subject_id, subject_row, upgrade_session, accept_code, verify_subject,
  handle_mfa_verify,
}

or_false-inv : (r : ProxyResult Bool) → or_false r ≡ true → r ≡ ok true
or_false-inv (ok b) h = ground arith
or_false-inv (err e) h = absurd (ground arith)

ok-inj : {A : Type 0} (a b : A) → ◌≡◌ {A = ProxyResult A} (ok a) (ok b) → a ≡ b
ok-inj a b h = cc

module _ {Store F : Type 0} (p : Platform Store F) (server : ProxyServer)
    (value : Store → String → Option String) (laws : RedisLaws p.redis value) where
  abbrev pub verified : Session → Session
  verified session = record session { mfa_verified = true }

  -- A code of the subject of the token has been verified against the secret of its row; the session
  -- of the token was live, and it is stored with a second factor, unless it has just run out.
  pub record Upgraded (remote : IpAddr) (req : Request) (w w' : World Store) : Type 0 where
    pub w0 : World Store
    pub counted :
        check_rate_limit p.redis p.texts remote "mfa_verify" (pos 10) (pos 300) w ≡ (ok tt, w0)
    pub claims : Claims
    pub w1 : World Store
    pub bearer : bearer_claims p server req w0 ≡ (ok claims, w1)
    pub text : String
    pub read : req.body ≡ some text
    pub body : MfaVerifyBody
    pub parsed : p.bodies.parse_mfa_verify text ≡ some body
    pub id : Uuid
    pub named : p.texts.parse_uuid claims.sub ≡ some id
    pub user : UserRow
    pub w2 : World Store
    pub known : subject_row p server id w1 ≡ (ok user, w2)
    pub secret : String
    pub has_secret : user.mfa_secret ≡ some secret
    pub w3 : World Store
    pub code : verify_token p.totp Mfa.default secret body.mfa_token w2 ≡ (ok true, w3)
    pub session : Session
    pub w4 : World Store
    pub is_live :
        get_session p.redis p.chrono p.session_json claims.session_id w3 ≡ (ok session, w4)
    pub stored :
        (ltb_ℤ (pos 0) (p.chrono.num_seconds (session.expires_at -ℤ w4.clock w4.readings)) ≡ false)
        ⊎ Holds p.redis value laws p.chrono p.session_json w'.redis (verified session)

  update_session-ok :
      (session : Session) (w w' : World Store)
      → update_session p.redis p.chrono p.session_json session w ≡ (ok tt, w')
      → (ltb_ℤ (pos 0) (p.chrono.num_seconds (session.expires_at -ℤ w.clock w.readings)) ≡ false)
        ⊎ Holds p.redis value laws p.chrono p.session_json w'.redis session
  unfolding update_session utc_now
  update_session-ok session w w' h =
      let ttl = p.chrono.num_seconds (session.expires_at -ℤ w.clock w.readings) in
      elim (Bool-cases (ltb_ℤ (pos 0) ttl)) [
        | inr out ↦ inl out
        | inl live ↦ elim (Result-cases (p.session_json.to_string session)) [
          | inr (e, q) ↦ absurd (ground arith)
          | inl (text, q) ↦ inr (
            text,
            ground (arith, laws.set_ex_value (key_of session.id) text (to_u64 ttl) w.redis),
            q,
          )
        ]
      ]

  upgrade_session-ok :
      (claims : Claims) (w w' : World Store)
      → upgrade_session p server claims w ≡ (ok tt, w')
      → (session : Session) × (v : World Store) × (get_session p.redis p.chrono p.session_json
            claims.session_id w
          ≡ (ok session, v))
        × ((ltb_ℤ (pos 0) (p.chrono.num_seconds (session.expires_at -ℤ v.clock v.readings)) ≡ false)
            ⊎ Holds p.redis value laws p.chrono p.session_json w'.redis (verified session))
  unfolding upgrade_session
  upgrade_session-ok claims w w' h =
      let (session, v, q, h1) =
        bind-inv (get_session p.redis p.chrono p.session_json claims.session_id w) _ h in
      (session, v, q, update_session-ok (verified session) v w' h1)

  accept_code-ok :
      (claims : Claims) (secret token : String) (w w' : World Store)
      → accept_code p server claims secret token w ≡ (ok tt, w')
      → (v : World Store) × (verify_token p.totp Mfa.default secret token w ≡ (ok true, v))
        × (upgrade_session p server claims v ≡ (ok tt, w'))
  unfolding accept_code
  accept_code-ok claims secret token w w' h =
      let (answer, v, q, h1) =
        bind-inv (attempt (verify_token p.totp Mfa.default secret token) w)
          (λ answer.
            if not (or_false answer)
            then fail invalid_mfa_token
            else upgrade_session p server claims)
          h in
      elim (Bool-cases (or_false answer)) [
        | inr no_match ↦ absurd (ground arith)
        | inl matches ↦
            let seen : (verify_token p.totp Mfa.default secret token w).0 ≡ answer =
              ok-inj _ _ (ap (λ r. r.0) q) in
            let accepted = seen ∙ or_false-inv answer matches in
            (v, λ i. (accepted i, ap (λ r. r.1) q i), rw matches at h1)
      ]

  -- A verification that is granted has been given a code that verifies against the stored secret of
  -- the subject of the token, and has stored the live session of the token with a second factor,
  -- unless the session has just run out.
  pub handle_mfa_verify-Upgraded :
      (remote : IpAddr) (req : Request) (w w' : World Store)
      → handle_mfa_verify p server remote req w ≡ (ok tt, w')
      → Upgraded remote req w w'
  unfolding handle_mfa_verify verify_subject subject_id
  handle_mfa_verify-Upgraded remote req w w' h =
      let (_, w0, q0, h0) =
        bind-inv (check_rate_limit p.redis p.texts remote "mfa_verify" (pos 10) (pos 300) w) _ h in
      let (claims, w1, q1, h1) = bind-inv (bearer_claims p server req w0) _ h0 in
      let (text, v2, q2, h2) = bind-inv (lift (ok_or req.body internal_error) w1) _ h1 in
      let (body, v3, q3, h3) =
        bind-inv
          (lift
            (ok_or (p.bodies.parse_mfa_verify text) (authentication_failed "invalid request body"))
            v2)
          _ h2 in
      let (id, v4, q4, h4) =
        bind-inv
          (lift (ok_or (p.texts.parse_uuid claims.sub) (authentication_failed "invalid subject"))
            v3)
          _ h3 in
      let (user, w2, q5, h5) = bind-inv (subject_row p server id v4) _ h4 in
      let (secret, v6, q6, h6) = bind-inv (lift (ok_or user.mfa_secret mfa_required) w2) _ h5 in
      let (w3, code, done) = accept_code-ok claims secret body.mfa_token v6 w' h6 in
      let (session, w4, live, stored) = upgrade_session-ok claims w3 w' done in
      let still : w1 ≡ v4 = ap (λ s. s.1) q2 ∙ ap (λ s. s.1) q3 ∙ ap (λ s. s.1) q4 in
      record {
        w0 = w0;
        counted = q0;
        claims = claims;
        w1 = w1;
        bearer = q1;
        text = text;
        read = ok_or-inv _ _ q2;
        body = body;
        parsed = ok_or-inv _ _ q3;
        id = id;
        named = ok_or-inv _ _ q4;
        user = user;
        w2 = w2;
        known = ap (subject_row p server id) still ∙ q5;
        secret = secret;
        has_secret = ok_or-inv _ _ q6;
        w3 = w3;
        code = ap (verify_token p.totp Mfa.default secret body.mfa_token) (ap (λ s. s.1) q6) ∙ code;
        session = session;
        w4 = w4;
        is_live = live;
        stored = stored;
      }
