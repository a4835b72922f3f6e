-- ===== src/Start.antt =====
-- src/main.rs: `main`, from the configuration to the loop of the server. The services that it
-- connects to are a parameter, and an `anyhow` error is its text. The lines of the log, and
-- `set_global_default`, which fails only where a subscriber has been set before, are left out.
pub mod Order
use Prim.Native.String.{◌++◌ as ◌<>◌}
use zero_trust_proxy.Common.{ℕ, String, Option, none, some, List, []}
use zero_trust_proxy.Common.Text.{show_ℕ}
use zero_trust_proxy.Config.{Config, Env, File, load}
use zero_trust_proxy.Error.{Result, ok, err, ok_or, map_err, ◌>>=◌}
use zero_trust_proxy.Db.{Database}
use zero_trust_proxy.Proxy.Server.{ProxyServer, new}
use zero_trust_proxy.Proxy.Tls.{Rustls}
use zero_trust_proxy.Proxy.Serve.{Sockets, Task, serve}

-- The environment, the files, the two services and the parser of socket addresses. A migration that
-- fails may have changed the database.
pub record Services (Addr Client Store : Type 0) : Type 0 where
  pub env : Env
  pub file : String → File
  pub from_str : String → Result String Config
  pub connect : (url : String) (max_connections : ℕ) → Result String Database
  pub migrate : Database → Result String (Unit {0}) × Database
  pub open_client : (url : String) → Result String Client
  pub get_connection_manager : Client → Result String Store
  pub parse_addr : String → Option Addr

-- How `main` ends: an error that it returns, or a panic.
pub data Stop : Type 0 where
  returned panicked : String → Stop

-- What the server is built from.
pub record Ready (Addr Store : Type 0) : Type 0 where
  pub server : ProxyServer
  pub db_pool : Database
  pub redis_conn : Store
  pub addr : Addr

module _ {Addr Client Store : Type 0} (services : Services Addr Client Store) where
  abbrev migrated : Result String (Unit {0}) × Database → Result Stop Database
  migrated (ok done, db) = ok db
  migrated (err e, db) = err (returned e)

  -- Up to the call of `serve`.
  unfoldable pub prepare : Result Stop (Ready Addr Store)
  prepare = do
    config ← map_err returned (load services.env services.file services.from_str)
    pool ← map_err returned (services.connect config.database.url config.database.max_connections)
    db_pool ← migrated (services.migrate pool)
    redis_client ← map_err returned (services.open_client config.redis.url)
    redis_conn ← map_err returned (services.get_connection_manager redis_client)
    addr ←
        ok_or (services.parse_addr (config.server.host <> ":" <> show_ℕ config.server.port))
          (panicked "Invalid server address")
    ok (record { server = new config; db_pool = db_pool; redis_conn = redis_conn; addr = addr })

abbrev as_stop : Option String → Option Stop
as_stop none = none
as_stop (some e) = some (returned e)

module _ {Addr Client Store Cert Key Pem Listener Acceptor Stream TlsStream : Type 0}
    (services : Services Addr Client Store) (rustls : Rustls Pem Cert Key Acceptor)
    (sockets : Sockets Addr Listener Acceptor Stream TlsStream) where
  abbrev run : Result Stop (Ready Addr Store) → List (Task Addr Stream TlsStream) × Option Stop
  run (err stop) = ([], some stop)
  run (ok ready) =
      let (tasks, ended) = serve rustls sockets ready.server ready.addr in (tasks, as_stop ended)

  -- The tasks of the server, and the end of the process, if there has been one.
  unfoldable pub main : List (Task Addr Stream TlsStream) × Option Stop
  main = run (prepare services)
