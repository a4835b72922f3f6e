-- ===== src/Proxy/Logout.antt =====
-- src/proxy/mod.rs: `handle_logout` and `handle_logout_all`. The reply is the number of revoked
-- sessions or nothing; printing it as JSON is left to the server.
pub mod Final
use zero_trust_proxy.Common.{ℕ, String}
use zero_trust_proxy.World.{World, M, bind, ◌>>=◌, lift}
use zero_trust_proxy.Auth.Session.{delete_session, revoke_user_sessions}
use zero_trust_proxy.Auth.Jwt.{extract_token_from_header, validate_token}
use zero_trust_proxy.Proxy.Server.{Platform, Request, ProxyServer, header_or}

module _ {Store F : Type 0} (p : Platform Store F) (server : ProxyServer) where
  unfoldable pub handle_logout : Request → M Store (Unit {0})
  handle_logout req = do
    token ← lift (extract_token_from_header (header_or "authorization" "" req.headers))
    claims ← validate_token p.jwt p.chrono server.jwt_manager token
    delete_session p.redis p.chrono p.session_json claims.session_id

  unfoldable pub handle_logout_all : Request → M Store ℕ
  handle_logout_all req = do
    token ← lift (extract_token_from_header (header_or "authorization" "" req.headers))
    claims ← validate_token p.jwt p.chrono server.jwt_manager token
    revoke_user_sessions p.redis p.chrono p.session_json claims.sub
