-- ===== src/Auth/Jwt.antt =====
-- src/auth/mod.rs: bearer tokens. The crate jsonwebtoken is a parameter; its `decode` looks at the
-- clock itself, and gets that reading as an argument.
pub mod Tokens
use zero_trust_proxy.Common.{ℕ, ◌≡◌, String, Bool, true, Option, none, some, not, if◌then◌else◌}
use zero_trust_proxy.Common.Text.{starts_with, strip_prefix}
use zero_trust_proxy.Common.Int.{ℤ, pos, ◌+ℤ◌, ◌≤ℤ◌, ◌<ℤ◌}
use zero_trust_proxy.Clock.{DateTime, Chrono}
use zero_trust_proxy.Error.{
  ProxyError, authentication_failed, jwt_error, Result, ok, err, ProxyResult, map_err, ok_or,
}
use zero_trust_proxy.World.{World, M, pure, bind, ◌>>=◌, lift, utc_now, new_uuid}

pub record Claims : Type 0 where
  pub sub : String
  pub exp : ℤ
  pub iat : ℤ
  pub jti : String
  pub session_id : String
  pub device_id : String
  pub risk_score : ℕ
  pub mfa_verified : Bool

-- `encode` and `decode` with the default header and validation; the secret comes first.
pub record Jwt : Type 0 where
  pub encode : String → Claims → Result String String
  pub decode : String → DateTime → String → Result String Claims

-- A token that was made with the secret is accepted, with the claims that were put in, until a
-- minute after its expiry; no token is accepted later than that.
pub record JwtLaws (jwt : Jwt) (chrono : Chrono) : Type 0 where
  pub decode-encode :
      (secret token : String) (claims : Claims) (now : DateTime)
      → jwt.encode secret claims ≡ ok token
      → chrono.timestamp now ≤ℤ claims.exp +ℤ pos 60
      → jwt.decode secret now token ≡ ok claims
  pub decode_fresh :
      (secret token : String) (claims : Claims) (now : DateTime)
      → jwt.decode secret now token ≡ ok claims
      → chrono.timestamp now ≤ℤ claims.exp +ℤ pos 60

pub record JwtManager : Type 0 where
  pub secret : String
  pub expiration_hours : ℤ

unfoldable pub new : String → ℤ → JwtManager
new secret expiration_hours = record { secret = secret; expiration_hours = expiration_hours }

unfoldable pub extract_token_from_header : String → ProxyResult String
extract_token_from_header auth_header =
    if not (starts_with auth_header "Bearer ")
    then err (authentication_failed "Invalid authorization header format")
    else ok_or (strip_prefix "Bearer " auth_header) (authentication_failed "Missing bearer token")

module _ {Store : Type 0} (jwt : Jwt) (chrono : Chrono) where
  unfoldable pub generate_token :
      JwtManager
      → (user_id device_id : String) (risk_score : ℕ) (mfa_verified : Bool) (session_id : String)
      → M Store String
  generate_token manager user_id device_id risk_score mfa_verified session_id = do
    now ← utc_now
    let exp = now +ℤ chrono.hours manager.expiration_hours
    jti ← new_uuid
    let claims : Claims = record {
      sub = user_id;
      exp = chrono.timestamp exp;
      iat = chrono.timestamp now;
      jti = jti;
      session_id = session_id;
      device_id = device_id;
      risk_score = risk_score;
      mfa_verified = mfa_verified;
    }
    lift (map_err jwt_error (jwt.encode manager.secret claims))

  unfoldable pub validate_token : JwtManager → String → M Store Claims
  validate_token manager token = do
    now ← utc_now
    lift (map_err jwt_error (jwt.decode manager.secret now token))

  -- src/auth/webauthn.rs: the token of a passkey login counts as verified by a second factor.
  unfoldable pub mint_passkey_jwt :
      JwtManager → (user_id device_id session_id : String) (risk_score : ℕ) → M Store String
  mint_passkey_jwt manager user_id device_id session_id risk_score =
      generate_token manager user_id device_id risk_score true session_id
