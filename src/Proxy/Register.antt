-- ===== src/Proxy/Register.antt =====
-- src/proxy/mod.rs: `handle_register`, cut at its early returns. The salt of the password's hash is
-- drawn afresh, and is an argument.
pub mod Sound
use zero_trust_proxy.Common.{ℕ, String, Bool, Option, is_some, ltb, if◌then◌else◌}
use zero_trust_proxy.Common.Int.{pos}
use zero_trust_proxy.Common.Text.{byte_len}
use zero_trust_proxy.Error.{authentication_failed, internal_error, ok_or}
use zero_trust_proxy.Db.{UserRow, find_user_by_username, create_user}
use zero_trust_proxy.World.{World, M, pure, fail, bind, ◌>>=◌, ◌>>◌, lift, statement}
use zero_trust_proxy.Auth.Password.{hash_password}
use zero_trust_proxy.Risk.{IpAddr}
use zero_trust_proxy.Proxy.Bodies.{RegisterBody}
use zero_trust_proxy.Proxy.Server.{Platform, Request}
use zero_trust_proxy.Proxy.RateLimit.{check_rate_limit}

module _ {Store F : Type 0} (p : Platform Store F) (remote : IpAddr) (salt : String) where
  unfoldable pub create_account : RegisterBody → M Store UserRow
  create_account body = do
    password_hash ← lift (hash_password p.argon2 salt body.password)
    statement (create_user body.username body.email password_hash)

  unfoldable pub register_user : RegisterBody → M Store UserRow
  register_user body = do
    found ← statement (find_user_by_username body.username)
    if is_some found
        then fail (authentication_failed "username already exists")
        else create_account body

  unfoldable pub check_length : RegisterBody → M Store UserRow
  check_length body =
      if ltb (byte_len body.password) 12
      then fail (authentication_failed "password must be at least 12 characters")
      else register_user body

  unfoldable pub handle_register : Request → M Store UserRow
  handle_register req = do
    check_rate_limit p.redis p.texts remote "register" (pos 10) (pos 300)
    text ← lift (ok_or req.body internal_error)
    body ←
        lift (ok_or (p.bodies.parse_register text) (authentication_failed "invalid request body"))
    check_length body
