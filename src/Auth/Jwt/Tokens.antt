-- ===== src/Auth/Jwt/Tokens.antt =====
-- src/auth/mod.rs: a token carries what it was made with, and the header carries the token.
use Prim.Native.String.{◌++◌ as ◌<>◌}
use zero_trust_proxy.Common.{ℕ, ◌≡◌, refl, ◌↔◌, String, Bool, arith, inl, inr}
use zero_trust_proxy.Common.Text.{starts_with}
use zero_trust_proxy.Common.Text.Prefix.{strip_prefix-append, strip_prefix-some}
use zero_trust_proxy.Common.Int.{pos, ◌+ℤ◌, ◌≤ℤ◌}
use zero_trust_proxy.Clock.{Chrono}
use zero_trust_proxy.Error.{ok, Result-cases}
use zero_trust_proxy.World.{World, utc_now, new_uuid}
use zero_trust_proxy.Auth.Jwt.{
  Claims, Jwt, JwtLaws, JwtManager, extract_token_from_header, generate_token, validate_token,
}

-- The token of a header is exactly what follows "Bearer " in it.
pub extract_token_exact :
    (header token : String)
    → (extract_token_from_header header ≡ ok token) ↔ (header ≡ "Bearer " <> token)
unfolding extract_token_from_header starts_with
extract_token_exact header token = (
  λ h. strip_prefix-some "Bearer " header token (ground arith),
  λ h. rw (h, strip_prefix-append "Bearer " token) refl,
)

module _ {Store : Type 0} (jwt : Jwt) (chrono : Chrono) (laws : JwtLaws jwt chrono) where
  -- A generated token is validated at any later world whose clock is at most a minute past the
  -- expiry, and the claims are those that it was generated from: the user, the device, the session,
  -- the risk score and whether a second factor was given.
  pub validate_token-generate_token :
      (manager : JwtManager) (user device : String) (risk : ℕ) (mfa : Bool) (session token : String)
      (w w' v : World Store)
      → generate_token jwt chrono manager user device risk mfa session w ≡ (ok token, w')
      → chrono.timestamp (v.clock v.readings)
        ≤ℤ chrono.timestamp (w.clock w.readings +ℤ chrono.hours manager.expiration_hours) +ℤ pos 60
      → (c : Claims) × ((validate_token jwt chrono manager token v).0 ≡ ok c)
        × (c.sub ≡ user)
        × (c.device_id ≡ device)
        × (c.session_id ≡ session)
        × (c.risk_score ≡ risk)
        × (c.mfa_verified ≡ mfa)
  unfolding generate_token validate_token utc_now new_uuid
  validate_token-generate_token manager user device risk mfa session token w w' v h fresh =
      let claims : Claims = record {
        sub = user;
        exp = chrono.timestamp (w.clock w.readings +ℤ chrono.hours manager.expiration_hours);
        iat = chrono.timestamp (w.clock w.readings);
        jti = w.uuids w.drawn;
        session_id = session;
        device_id = device;
        risk_score = risk;
        mfa_verified = mfa;
      } in
      elim (Result-cases (jwt.encode manager.secret claims)) [
        | inr (e, p) ↦ absurd (ground arith)
        | inl (t, p) ↦
            let same : t ≡ token = ground arith in
            let back = laws.decode-encode manager.secret t claims (v.clock v.readings) p fresh in
            (claims, rw (← same, back) refl, refl, refl, refl, refl, refl)
      ]

  -- No token is validated later than a minute after its expiry.
  pub validate_token_fresh :
      (manager : JwtManager) (token : String) (claims : Claims) (w w' : World Store)
      → validate_token jwt chrono manager token w ≡ (ok claims, w')
      → chrono.timestamp (w.clock w.readings) ≤ℤ claims.exp +ℤ pos 60
  unfolding validate_token utc_now
  validate_token_fresh manager token claims w w' h =
      elim (Result-cases (jwt.decode manager.secret (w.clock w.readings) token)) [
        | inr (e, p) ↦ absurd (ground arith)
        | inl (c, p) ↦
            let same : c ≡ claims = ground arith in
            rw (← same) (laws.decode_fresh manager.secret token c (w.clock w.readings) p)
      ]
