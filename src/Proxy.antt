-- ===== src/Proxy.antt =====
-- src/proxy/mod.rs: the server and its handlers.
pub mod Bodies
pub mod Server
pub mod Gate
pub mod RateLimit
pub mod Login
pub mod Logout
pub mod Register
pub mod MfaSetup
pub mod Upstream
pub mod Dispatch
pub mod Tls
pub mod Serve
pub mod Writes
pub mod Owned
