-- ===== src/Lib.antt =====
-- The zero-trust authentication proxy: a server in front of a backend that lets a request through
-- only if its bearer token, its session, the policies and a risk score agree.
--
-- The parts, and the files that model them:
--   src/error.rs           Error        the error type, its statuses and messages, ProxyResult
--   src/auth/device.rs     Auth.Device  the device fingerprint and its trust score
--   src/auth/session.rs    Auth.Session the session manager over Redis
--   src/auth/mod.rs        Auth.Jwt     tokens (and mint_passkey_jwt of src/auth/webauthn.rs)
--   src/auth/mod.rs        Auth.Password  the hashing and verification of passwords
--   src/auth/mfa.rs        Auth.Mfa     TOTP secrets and the verification of codes
--   src/auth/webauthn.rs   Auth.Passkey the trait of passkey stores, what each of them
--                                       promises its callers (Implements), the in-memory store (Memory), the ceremonies
--                                       and the refresh of a credential (Ceremonies)
--   src/auth/passkey_store_pg.rs  Auth.Passkey.Postgres, Auth.Passkey.Handle  the store in Postgres,
--                                       and the store that the configuration selects
--   src/risk/mod.rs        Risk         the risk engine
--   src/policy/mod.rs      Policy       the policy engine
--   src/audit/mod.rs       Audit        audit events and their rows
--   src/db/mod.rs          Db           the statements on the tables of docs/schema.sql
--   src/config.rs          Config       the configuration and its defaults
--   src/proxy/mod.rs       Proxy        the server (Server), the gate `authorize` (Gate),
--                                       the rate limiter (RateLimit), `handle_login` (Login),
--                                       `handle_logout` and `handle_logout_all` (Logout),
--                                       `handle_register` (Register), `handle_mfa_enroll` and
--                                       `handle_mfa_verify` (MfaSetup), the bodies (Bodies),
--                                       `forward_upstream` (Upstream), `handle_request` (Dispatch),
--                                       `build_tls_acceptor` (Tls), `serve` and
--                                       `serve_connection` (Serve); Proxy.Writes is about the
--                                       tables that all handlers share, and Proxy.Owned about
--                                       the sessions in Redis and the accounts they belong to
--   src/main.rs            Start        the start of the process, up to the loop of the server
-- Common holds shared helpers, Clock the instants of chrono, World the state and the monad of the
-- handlers with the rules for relations and invariants (World.Respects, World.Keeps), Examples the
-- theorems at concrete inputs.
--
-- Each function has the name of its Rust counterpart. Structs are records, enums are data types,
-- `ProxyResult` is `Result ProxyError`, `?` is the bind of a do block, and an async method is a
-- function `World → ProxyResult A × World`. A function with early returns is cut at them, into
-- functions that are called in order. `u32` and `u64` keep their wrap-around; `i64` values are
-- unbounded integers.
--
-- What the code takes from elsewhere is a parameter: Redis (`World.Redis`; laws of keys
-- in `World.Laws.RedisLaws`, and of counters, whose commands may fail, in `World.Laws.CounterLaws`),
-- chrono's conversions (`Clock.Chrono`), serde_json (`World.Codec`), jsonwebtoken (`Auth.Jwt.Jwt`),
-- SHA-256 (`Auth.Device.Sha256`), argon2 (`Auth.Password.Argon2`), totp_rs (`Auth.Mfa.Totp`),
-- webauthn_rs and base64 (`Auth.Passkey.Ceremonies.WebauthnRs`, `Auth.Passkey.Credentials`), 64-bit
-- floats (`Policy.F64`), the parsers of UUIDs and addresses (`Audit.Texts`), the HTTP client
-- (`Proxy.Upstream`), rustls and rustls_pemfile (`Proxy.Tls.Rustls`), the sockets and what they
-- accept (`Proxy.Serve.Sockets`), the database, its migrations and Redis at the start
-- (`Start.Services`), the environment and the file system (`Config.load`). Random salts, secrets
-- and challenges are arguments. The clock and the source of
-- UUIDs are streams, read one element at a time. The database is its tables: each statement is run,
-- or refused without effect as a stream of outages says; a statement on the table of passkeys may
-- also fail after it has been done. Examples.Store and Examples.Fixtures show
-- that the laws can be met.
--
-- Fuel: the decimal printer takes one round more than the number it prints, which is enough since
-- each round divides by ten. All other recursion is structural.
--
-- Not modelled: logging; how hyper reads the requests of a connection, which are a list of parsed
-- requests; the HTTP handlers of passkeys, which the program does not have yet; and the
-- interleaving of requests in general: a computation runs with the stores to itself. Where it
-- matters most, overlaps are followed step by step: a lookup and a logout in Auth.Session.Race, and
-- calls of the rate limiter in Proxy.RateLimit.Overlap. Auth.Session.Serial is the step relation of
-- session operations.
pub mod Common
pub mod Error
pub mod Clock
pub mod Auth
pub mod Risk
pub mod Policy
pub mod Db
pub mod World
pub mod Audit
pub mod Config
pub mod Proxy
pub mod Start
mod Examples
