-- ===== src/Auth.antt =====
-- src/auth: devices, sessions, tokens and passwords.
pub mod Device
pub mod Session
pub mod Jwt
pub mod Mfa
pub mod Password
pub mod Passkey
