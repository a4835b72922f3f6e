-- ===== src/Auth/Mfa.antt =====
-- src/auth/mfa.rs: TOTP secrets and the verification of codes. The crate totp_rs is a parameter; `check_current`
-- looks at the clock itself, and gets that reading as an argument. A stored secret is base32 text,
-- on which `to_bytes` does not panic.
pub mod Drawn
pub mod Secrets
use zero_trust_proxy.Common.{ℕ, zero, suc, String, Bool, true, not, if◌then◌else◌}
use zero_trust_proxy.Clock.{DateTime}
use zero_trust_proxy.Error.{
  authentication_failed, invalid_mfa_token, Result, ok, ProxyResult, map_err,
}
use zero_trust_proxy.World.{M, pure, fail, ◌>>=◌, ◌>>◌, lift, utc_now}
use Prim.Native.String.{[], ◌∷◌, ◌++◌ as ◌<>◌}

pub record MfaConfig : Type 0 where
  pub enabled : Bool
  pub algorithm : String
  pub digits : ℕ
  pub step : ℕ

-- `MfaConfig::default`.
unfoldable pub default : MfaConfig
default = record { enabled = true; algorithm = "SHA1"; digits = 6; step = 30 }

-- `TOTP::new` with SHA-1 and a skew of 1, and `check_current`: the digits, the step, the secret.
pub record Totp : Type 0 where
  pub new : (digits step : ℕ) → String → Result String (Unit {0})
  pub check_current : (digits step : ℕ) → (secret token : String) → DateTime → Result String Bool

unfoldable pub generate_qr_url : (secret account issuer : String) → ProxyResult String
generate_qr_url secret account issuer =
    ok (
      "otpauth://totp/" <> issuer <> ":" <> account <> "?secret=" <> secret <> "&issuer=" <> issuer)

abbrev pub charset : String
charset = "ABCDEFGHIJKLMNOPQRSTUVWXYZ234567"

-- `CHARSET[idx] as char`, as a text; the index that the generator is asked for is in range.
unfoldable pub char_at : ℕ → String → String
char_at i [] = []
char_at zero (c ∷ s) = c ∷ []
char_at (suc i) (c ∷ s) = char_at i s

-- `rng.gen_range(0..n)`: the draw and `n`.
abbrev pub Rng : Type 0
Rng = ℕ → ℕ → ℕ

unfoldable pub draw_chars : Rng → ℕ → String
draw_chars gen_range zero = ""
draw_chars gen_range (suc n) = draw_chars gen_range n <> char_at (gen_range n 32) charset

unfoldable pub generate_secret : Rng → ProxyResult String
generate_secret gen_range = ok (draw_chars gen_range 32)

module _ {Store : Type 0} (totp : Totp) (config : MfaConfig) where
  unfoldable pub verify_token : (secret token : String) → M Store Bool
  verify_token secret token = do
    lift (map_err authentication_failed (totp.new config.digits config.step secret))
    now ← utc_now
    is_valid ← lift (
        map_err authentication_failed
          (totp.check_current config.digits config.step secret token now))
    if not is_valid then fail invalid_mfa_token else pure true
