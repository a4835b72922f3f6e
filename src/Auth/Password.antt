-- ===== src/Auth/Password.antt =====
-- src/auth/mod.rs: passwords. The crate argon2 is a parameter, and the fresh salt is an argument.
use zero_trust_proxy.Common.{String, Bool}
use zero_trust_proxy.Error.{authentication_failed, Result, ok, ProxyResult, map_err, ◌>>=◌}

-- `hash_password` (the salt first), `PasswordHash::new` and `verify_password(…).is_ok()`.
pub record Argon2 : Type 0 where
  pub hash : (salt password : String) → Result String String
  pub parse_hash : String → Result String (Unit {0})
  pub matches : (password hash : String) → Bool

unfoldable pub hash_password : Argon2 → (salt password : String) → ProxyResult String
hash_password argon2 salt password = map_err authentication_failed (argon2.hash salt password)

unfoldable pub verify_password : Argon2 → (password hash : String) → ProxyResult Bool
verify_password argon2 password hash = do
  _ ← map_err authentication_failed (argon2.parse_hash hash)
  ok (argon2.matches password hash)
