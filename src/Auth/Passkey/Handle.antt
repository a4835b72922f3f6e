-- ===== src/Auth/Passkey/Handle.antt =====
-- src/auth/passkey_store_pg.rs: the store that the configuration selects. The pool is a parameter,
-- which connects to the table of an address or fails.
pub mod Refines
use zero_trust_proxy.Common.{ℕ, String, List, []}
use zero_trust_proxy.Config.{PasskeyStoreKind}
use zero_trust_proxy.Error.{database_error, Result, ok, ProxyResult, map_err, ◌>>=◌}
use zero_trust_proxy.World.{Codec}
use zero_trust_proxy.Auth.Passkey.{PasskeyRecord, PasskeyStore}
use zero_trust_proxy.Auth.Passkey.Memory.{Entry, in_memory_store}
use zero_trust_proxy.Auth.Passkey.Postgres.{PasskeyTable, postgres_store}

pub data PasskeyStoreHandle (P : Type 0) : Type 0 where
  postgres : PasskeyTable → PasskeyStoreHandle P
  memory : List (Entry P) → PasskeyStoreHandle P

-- `PgPoolOptions::connect`: the address, the most connections and the seconds to wait for one.
abbrev pub Pool : Type 0
Pool = String → (max_connections acquire_timeout : ℕ) → Result String PasskeyTable

-- `PostgresPasskeyStore::connect`.
unfoldable pub connect : Pool → String → ℕ → ProxyResult PasskeyTable
connect pool url max_connections = map_err database_error (pool url max_connections 10)

module _ {P : Type 0} where
  abbrev pub on_postgres :
      {A : Type 0} → ProxyResult A × PasskeyTable → ProxyResult A × PasskeyStoreHandle P
  on_postgres (r, t) = (r, PasskeyStoreHandle.postgres t)

  abbrev pub on_memory :
      {A : Type 0} → ProxyResult A × List (Entry P) → ProxyResult A × PasskeyStoreHandle P
  on_memory (r, s) = (r, PasskeyStoreHandle.memory s)

  unfoldable pub connect_passkey_store :
      Pool
      → PasskeyStoreKind
      → (database_url : String) (max_connections : ℕ) → ProxyResult (PasskeyStoreHandle P)
  connect_passkey_store pool PasskeyStoreKind.postgres database_url max_connections = do
    table ← connect pool database_url max_connections
    ok (PasskeyStoreHandle.postgres table)
  connect_passkey_store pool PasskeyStoreKind.memory database_url max_connections =
      ok (PasskeyStoreHandle.memory [])

  module _ (json : Codec P) where
    unfoldable pub save_passkey :
        PasskeyRecord P → PasskeyStoreHandle P → ProxyResult (Unit {0}) × PasskeyStoreHandle P
    save_passkey r (PasskeyStoreHandle.postgres t) =
        on_postgres ((postgres_store json).save_passkey r t)
    save_passkey r (PasskeyStoreHandle.memory s) = on_memory (in_memory_store.save_passkey r s)

    unfoldable pub get_passkeys :
        String → PasskeyStoreHandle P → ProxyResult (List (PasskeyRecord P)) × PasskeyStoreHandle P
    get_passkeys u (PasskeyStoreHandle.postgres t) =
        on_postgres ((postgres_store json).get_passkeys u t)
    get_passkeys u (PasskeyStoreHandle.memory s) = on_memory (in_memory_store.get_passkeys u s)

    unfoldable pub update_passkey :
        PasskeyRecord P → PasskeyStoreHandle P → ProxyResult (Unit {0}) × PasskeyStoreHandle P
    update_passkey r (PasskeyStoreHandle.postgres t) =
        on_postgres ((postgres_store json).update_passkey r t)
    update_passkey r (PasskeyStoreHandle.memory s) = on_memory (in_memory_store.update_passkey r s)

    unfoldable pub delete_passkey :
        (user_id cred_id : String)
        → PasskeyStoreHandle P
        → ProxyResult (Unit {0}) × PasskeyStoreHandle P
    delete_passkey u c (PasskeyStoreHandle.postgres t) =
        on_postgres ((postgres_store json).delete_passkey u c t)
    delete_passkey u c (PasskeyStoreHandle.memory s) =
        on_memory (in_memory_store.delete_passkey u c s)

    abbrev pub passkey_store : PasskeyStore (PasskeyStoreHandle P) P
    passkey_store = record {
      save_passkey = save_passkey;
      get_passkeys = get_passkeys;
      update_passkey = update_passkey;
      delete_passkey = delete_passkey;
    }
