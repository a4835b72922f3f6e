-- ===== src/Start/Order.antt =====
-- src/main.rs: what has been done before the first connection is served.
use Prim.Native.String.{◌++◌ as ◌<>◌}
use zero_trust_proxy.Common.{
  ◌≡◌, ◌≢◌, ◌⊎◌, String, refl, subst, some, [], arith, inl, inr, Option-cases,
}
use zero_trust_proxy.Common.Text.{show_ℕ}
use zero_trust_proxy.Config.{Config, load}
use zero_trust_proxy.Error.{Result, ok, err, Result-cases}
use zero_trust_proxy.Db.{Database}
use zero_trust_proxy.Proxy.Server.{new}
use zero_trust_proxy.Proxy.Tls.{Rustls}
use zero_trust_proxy.Proxy.Serve.{Sockets, serve}
use zero_trust_proxy.Start.{Services, Ready, prepare, main}

answer-cases :
    {A B : Type 0} (r : Result String A × B)
    → ((a : A) × (b : B) × (r ≡ (ok a, b))) ⊎ ((e : String) × (b : B) × (r ≡ (err e, b)))
answer-cases (ok a, b) = inl (a, b, refl)
answer-cases (err e, b) = inr (e, b, refl)

module _ {Addr Client Store : Type 0} (services : Services Addr Client Store) where
  -- The configuration has been loaded, the migrations have been applied to the database of the
  -- configuration, and the Redis of the configuration has been connected.
  pub record Prepared (ready : Ready Addr Store) : Type 0 where
    pub config : Config
    pub loaded : load services.env services.file services.from_str ≡ ok config
    pub pool : Database
    pub connected : services.connect config.database.url config.database.max_connections ≡ ok pool
    pub migrated : services.migrate pool ≡ (ok tt, ready.db_pool)
    pub client : Client
    pub opened : services.open_client config.redis.url ≡ ok client
    pub managed : services.get_connection_manager client ≡ ok ready.redis_conn
    pub parsed :
        services.parse_addr (config.server.host <> ":" <> show_ℕ config.server.port)
        ≡ some ready.addr
    pub built : ready.server ≡ new config

  prepare-Prepared : (ready : Ready Addr Store) → prepare services ≡ ok ready → Prepared ready
  unfolding prepare
  prepare-Prepared ready h =
      elim (Result-cases (load services.env services.file services.from_str)) [
        | inr (e, q) ↦ absurd (ground arith)
        | inl (config, loaded) ↦
            elim (Result-cases
              (services.connect config.database.url config.database.max_connections)) [
                | inr (e, q) ↦ absurd (ground arith)
                | inl (pool, connected) ↦ elim (answer-cases (services.migrate pool)) [
                  | inr (e, db, q) ↦ absurd (ground arith)
                  | inl (done, db, migrated) ↦
                      elim (Result-cases (services.open_client config.redis.url)) [
                        | inr (e, q) ↦ absurd (ground arith)
                        | inl (client, opened) ↦
                            elim (Result-cases (services.get_connection_manager client)) [
                              | inr (e, q) ↦ absurd (ground arith)
                              | inl (store, managed) ↦
                                  elim (Option-cases (
                                    services.parse_addr
                                      (config.server.host <> ":" <> show_ℕ config.server.port))) [
                                        | inl q ↦ absurd (ground arith)
                                        | inr (addr, parsed) ↦
                                            subst Prepared
                                              {x = record {
                                                server = new config;
                                                db_pool = db;
                                                redis_conn = store;
                                                addr = addr;
                                              }}
                                              (ground arith)
                                              (record {
                                                config = config;
                                                loaded = loaded;
                                                pool = pool;
                                                connected = connected;
                                                migrated = migrated;
                                                client = client;
                                                opened = opened;
                                                managed = managed;
                                                parsed = parsed;
                                                built = refl;
                                              })
                                      ]
                            ]
                      ]
                ]
              ]
      ]

module _ {Addr Client Store Cert Key Pem Listener Acceptor Stream TlsStream : Type 0}
    (services : Services Addr Client Store) (rustls : Rustls Pem Cert Key Acceptor)
    (sockets : Sockets Addr Listener Acceptor Stream TlsStream) where
  -- If the process has got a task, its server has been prepared: the configuration has been loaded,
  -- the migrations have been applied to the database of the configuration, and the Redis of the
  -- configuration has been connected. The tasks are those of `serve` with that server.
  pub main-Prepared :
      (main services rustls sockets).0 ≢ []
      → (ready : Ready Addr Store) × Prepared services ready
        × (main services rustls sockets).0 ≡ (serve rustls sockets ready.server ready.addr).0
  unfolding main
  main-Prepared busy = elim (Result-cases (prepare services)) [
    | inr (stop, q) ↦ absurd (busy (rw q refl))
    | inl (ready, q) ↦ (ready, prepare-Prepared services ready q, rw q refl)
  ]
