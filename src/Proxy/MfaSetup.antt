-- ===== src/Proxy/MfaSetup.antt =====
-- src/proxy/mod.rs: `handle_mfa_enroll` and `handle_mfa_verify`.
pub mod Enrolment
pub mod Upgrade
use zero_trust_proxy.Common.{String, Bool, true, not, Option, if◌then◌else◌}
use zero_trust_proxy.Common.Int.{pos}
use zero_trust_proxy.Error.{
  authentication_failed, internal_error, invalid_mfa_token, mfa_required, ProxyResult, ok_or,
}
use zero_trust_proxy.Db.{UserRow, Uuid, find_user_by_id, set_user_mfa_secret}
use zero_trust_proxy.World.{World, M, pure, fail, bind, ◌>>=◌, ◌>>◌, lift, attempt, statement}
use zero_trust_proxy.Auth.Mfa
use zero_trust_proxy.Auth.Mfa.{Rng, generate_secret, generate_qr_url, verify_token}
use zero_trust_proxy.Auth.Session.{Session, get_session, update_session}
use zero_trust_proxy.Auth.Jwt.{Claims, extract_token_from_header, validate_token}
use zero_trust_proxy.Risk.{IpAddr}
use zero_trust_proxy.Proxy.Bodies.{MfaVerifyBody, MfaEnrollmentResponse}
use zero_trust_proxy.Proxy.Server.{Platform, Request, ProxyServer, header_or}
use zero_trust_proxy.Proxy.RateLimit.{check_rate_limit}
use zero_trust_proxy.Proxy.Login.{or_false}

module _ {Store F : Type 0} (p : Platform Store F) (server : ProxyServer) where
  -- The claims of the bearer token.
  unfoldable pub bearer_claims : Request → M Store Claims
  bearer_claims req = do
    token ← lift (extract_token_from_header (header_or "authorization" "" req.headers))
    validate_token p.jwt p.chrono server.jwt_manager token

  -- The user that a token names.
  unfoldable pub subject_id : Claims → ProxyResult Uuid
  subject_id claims =
      ok_or (p.texts.parse_uuid claims.sub) (authentication_failed "invalid subject")

  unfoldable pub subject_row : Uuid → M Store UserRow
  subject_row user_id = do
    found ← statement (find_user_by_id user_id)
    lift (ok_or found (authentication_failed "user not found"))

  unfoldable pub issue_secret : Rng → Uuid → UserRow → M Store MfaEnrollmentResponse
  issue_secret gen_range user_id user = do
    secret ← lift (generate_secret gen_range)
    qr_url ← lift (generate_qr_url secret user.email "zero-trust-proxy")
    statement (set_user_mfa_secret user_id secret)
    pure (record { secret = secret; qr_code_url = qr_url; manual_entry_key = secret })

  unfoldable pub enroll_user : Rng → Claims → M Store MfaEnrollmentResponse
  enroll_user gen_range claims = do
    user_id ← lift (subject_id claims)
    user ← subject_row user_id
    issue_secret gen_range user_id user

  unfoldable pub handle_mfa_enroll : Rng → Request → M Store MfaEnrollmentResponse
  handle_mfa_enroll gen_range req = do claims ← bearer_claims req; enroll_user gen_range claims

  -- The live session of the token gets its second factor.
  unfoldable pub upgrade_session : Claims → M Store (Unit {0})
  upgrade_session claims = do
    session ← get_session p.redis p.chrono p.session_json claims.session_id
    update_session p.redis p.chrono p.session_json (record session { mfa_verified = true })

  unfoldable pub accept_code : Claims → (secret token : String) → M Store (Unit {0})
  accept_code claims secret token = do
    answer ← attempt (verify_token p.totp Mfa.default secret token)
    if not (or_false answer) then fail invalid_mfa_token else upgrade_session claims

  unfoldable pub verify_subject : Claims → MfaVerifyBody → M Store (Unit {0})
  verify_subject claims body = do
    user_id ← lift (subject_id claims)
    user ← subject_row user_id
    secret ← lift (ok_or user.mfa_secret mfa_required)
    accept_code claims secret body.mfa_token

  unfoldable pub handle_mfa_verify : IpAddr → Request → M Store (Unit {0})
  handle_mfa_verify remote req = do
    check_rate_limit p.redis p.texts remote "mfa_verify" (pos 10) (pos 300)
    claims ← bearer_claims req
    text ← lift (ok_or req.body internal_error)
    body ←
        lift (ok_or (p.bodies.parse_mfa_verify text) (authentication_failed "invalid request body"))
    verify_subject claims body
