-- ===== src/Examples/Devices.antt =====
-- Devices, tokens and errors at concrete inputs.
use Prim.Native.String.{◌++◌ as ◌<>◌}
use zero_trust_proxy.Common.{◌≡◌, ◌↔◌, refl, true, false, [], ◌∷◌, arith}
use zero_trust_proxy.Common.Text.{contains}
use zero_trust_proxy.Common.Int.{pos, ◌+ℤ◌, scale, fdiv}
use zero_trust_proxy.Clock.{utc}
use zero_trust_proxy.Error.{ok}
use zero_trust_proxy.World.{utc_now, new_uuid}
use zero_trust_proxy.Auth.Device.{
  DeviceFingerprint, new, generate_hash, parse_user_agent, increase_trust, decrease_trust,
}
use zero_trust_proxy.Auth.Device.Trust.{
  IsConsistent, increases, decreases, seen, apply, apply_all, new-IsConsistent,
  apply_all-IsConsistent,
}
use zero_trust_proxy.Auth.Device.Parsing.{generate_hash_shift, parse_user_agent_exact}
use zero_trust_proxy.Auth.Jwt
use zero_trust_proxy.Auth.Jwt.{Claims, extract_token_from_header, validate_token, generate_token}
use zero_trust_proxy.Auth.Jwt.Tokens.{validate_token-generate_token}
use zero_trust_proxy.Proxy.Server.{no_metadata}
use zero_trust_proxy.Examples.Fixtures.{sha256, sha256-IsStreaming, jwt, jwt-JwtLaws, world}

abbrev device : DeviceFingerprint
device =
    new sha256 "d1" (pos 1) (pos 2) "alice" "Mozilla/5.0 (Linux; Android 14) Chrome/124.0"
      "10.0.0.1" no_metadata

-- The run of the source's unit test: 50, then 80 and trusted, then 60 and not.
trust_run :
    ((apply_all device (increases 30 ∷ [])).is_trusted ≡ true)
    × ((apply_all device (increases 30 ∷ decreases 20 ∷ [])).trust_score ≡ 60)
    × ((apply_all device (increases 30 ∷ decreases 20 ∷ [])).is_trusted ≡ false)
unfolding new apply_all apply increase_trust decrease_trust
trust_run = (refl, refl, refl)

apply_all-IsConsistent_example :
    IsConsistent (apply_all device (increases 30 ∷ seen (pos 5) ∷ decreases 20 ∷ []))
apply_all-IsConsistent_example =
    apply_all-IsConsistent device (increases 30 ∷ seen (pos 5) ∷ decreases 20 ∷ []) (omega arith) (
      new-IsConsistent sha256 "d1" (pos 1) (pos 2) "alice"
        "Mozilla/5.0 (Linux; Android 14) Chrome/124.0" "10.0.0.1" no_metadata)

generate_hash_shift_example :
    generate_hash sha256 ("Firefox/1" <> "1") "0.0.0.1" no_metadata
    ≡ generate_hash sha256 "Firefox/1" ("1" <> "0.0.0.1") no_metadata
generate_hash_shift_example =
    generate_hash_shift sha256 sha256-IsStreaming "Firefox/1" "1" "0.0.0.1" no_metadata

-- A phone with Android is taken for Linux.
android_phone : (parse_user_agent "Mozilla/5.0 (Linux; Android 14) Chrome/124.0").0 ≡ "Linux"
unfolding parse_user_agent contains
android_phone = refl

parse_user_agent_exact_example : ((parse_user_agent "Dalvik (Android)").0 ≡ "Android") ↔ (
    (contains "Dalvik (Android)" "Windows" ≡ false)
    × (contains "Dalvik (Android)" "Mac" ≡ false)
    × (contains "Dalvik (Android)" "Linux" ≡ false)
    × (contains "Dalvik (Android)" "Android" ≡ true))
parse_user_agent_exact_example = (parse_user_agent_exact "Dalvik (Android)").0

abbrev manager : Jwt.JwtManager
manager = record { secret = "k"; expiration_hours = pos 24 }

validate_token-generate_token_example :
    (c : Claims) × ((validate_token jwt utc manager "t1" world).0 ≡ ok c)
    × (c.sub ≡ "alice")
    × (c.device_id ≡ "laptop")
    × (c.session_id ≡ "s1")
    × (c.risk_score ≡ 45)
    × (c.mfa_verified ≡ true)
unfolding generate_token utc_now new_uuid jwt scale ◌+ℤ◌ fdiv
validate_token-generate_token_example =
    validate_token-generate_token jwt utc jwt-JwtLaws manager "alice" "laptop" 45 true "s1" "t1"
      world (record world { readings = 1; drawn = 1 }) world refl (omega arith)
