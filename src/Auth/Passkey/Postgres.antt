-- ===== src/Auth/Passkey/Postgres.antt =====
-- src/auth/passkey_store_pg.rs: `PostgresPasskeyStore`. The table of migrations/001_passkeys.sql is its
-- rows in the order of `created_at`; the `n`-th statement may fail for any reason, as `outages` says:
-- refused without effect, or with its answer lost after the commit. `NOW()` is `clock` at it. The JSON column holds a
-- text, and the codec is a parameter.
pub mod Rows
pub mod Refines
use Prim.Native.String.{◌++◌ as ◌<>◌}
use zero_trust_proxy.Common.{
  ℕ, suc, String, Bool, Option, none, some, List, [], ◌∷◌, ◌++◌, is_some, if◌then◌else◌,
}
use zero_trust_proxy.Clock.{DateTime}
use zero_trust_proxy.Error.{
  authentication_failed, database_error, Result, ok, err, ProxyResult, map_err, ◌>>=◌,
}
use zero_trust_proxy.World.{Codec}
use zero_trust_proxy.Auth.Passkey.{PasskeyRecord, PasskeyStore}
use zero_trust_proxy.Auth.Passkey.Keyed.{find_at, amend_at, drop_at, of_user}

pub record TableRow : Type 0 where
  pub user_id : String
  pub cred_id : String
  pub passkey : String
  pub last_used_at : Option DateTime

-- How a statement fails: with an error of the driver, and done or not.
pub record Outage : Type 0 where
  pub error : String
  pub done : Bool

pub record PasskeyTable : Type 0 where
  pub rows : List TableRow
  pub statements : ℕ
  pub outages : ℕ → Option Outage
  pub clock : ℕ → DateTime

abbrev pub row_user : TableRow → String
row_user r = r.user_id

abbrev pub row_cred : TableRow → String
row_cred r = r.cred_id

abbrev counted : PasskeyTable → PasskeyTable
counted t = record t { statements = suc t.statements }

-- A statement that is answered, or fails, whether the server has done it or not.
abbrev pub running :
    {A : Type 0}
    → (PasskeyTable → ProxyResult A × List TableRow)
    → PasskeyTable
    → ProxyResult A × PasskeyTable
running body t =
    let (r, rows) = body t in
    elim (t.outages t.statements) [
      | none ↦ (r, record (counted t) { rows = rows })
      | some o ↦ (
        err (database_error o.error),
        record (counted t) { rows = if o.done then rows else t.rows },
      )
    ]

abbrev pub holds_key : (user_id cred_id : String) → List TableRow → Bool
holds_key user_id cred_id rows = is_some (find_at row_user row_cred user_id cred_id rows)

module _ {P : Type 0} (json : Codec P) where
  -- A value that does not print never reaches the server.
  abbrev pub bound :
      {A : Type 0}
      → P
      → (String → PasskeyTable → ProxyResult A × PasskeyTable)
      → PasskeyTable
      → ProxyResult A × PasskeyTable
  bound passkey rest t = elim (json.to_string passkey) [
    | err e ↦ (err (database_error e), t)
    | ok text ↦ rest text t
  ]

  abbrev pub fresh_row : PasskeyRecord P → String → TableRow
  fresh_row r text = record {
    user_id = r.user_id;
    cred_id = r.cred_id;
    passkey = text;
    last_used_at = none;
  }

  -- The primary key refuses a second row.
  unfoldable pub insert_row :
      PasskeyRecord P → String → PasskeyTable → ProxyResult (Unit {0}) × List TableRow
  insert_row r text t =
      if holds_key r.user_id r.cred_id t.rows
      then (err (database_error "duplicate key value violates unique constraint"), t.rows)
      else (ok tt, t.rows ++ fresh_row r text ∷ [])

  unfoldable pub save_passkey :
      PasskeyRecord P → PasskeyTable → ProxyResult (Unit {0}) × PasskeyTable
  save_passkey r = bound r.passkey (λ text. running (insert_row r text))

  -- `PasskeyRecord::from`, after the column has been decoded.
  unfoldable pub record_of : TableRow → ProxyResult (PasskeyRecord P)
  record_of row = do
    passkey ← map_err database_error (json.from_str row.passkey)
    ok (record { user_id = row.user_id; cred_id = row.cred_id; passkey = passkey })

  unfoldable pub records_of : List TableRow → ProxyResult (List (PasskeyRecord P))
  records_of [] = ok []
  records_of (row ∷ rows) = do r ← record_of row; rs ← records_of rows; ok (r ∷ rs)

  unfoldable pub get_passkeys :
      String → PasskeyTable → ProxyResult (List (PasskeyRecord P)) × PasskeyTable
  get_passkeys user_id =
      running (λ t. (records_of (of_user row_user row_cred user_id t.rows), t.rows))

  abbrev pub stamped : String → DateTime → TableRow → TableRow
  stamped text now row = record row { passkey = text; last_used_at = some now }

  -- No row affected is an unknown credential.
  unfoldable pub update_row :
      PasskeyRecord P → String → PasskeyTable → ProxyResult (Unit {0}) × List TableRow
  update_row r text t =
      if holds_key r.user_id r.cred_id t.rows
      then (
        ok tt,
        amend_at row_user row_cred r.user_id r.cred_id (stamped text (t.clock t.statements)) t.rows,
      )
      else (
        err (
            authentication_failed
              ("unknown passkey credential " <> r.cred_id <> " for user " <> r.user_id)),
        t.rows,
      )

  unfoldable pub update_passkey :
      PasskeyRecord P → PasskeyTable → ProxyResult (Unit {0}) × PasskeyTable
  update_passkey r = bound r.passkey (λ text. running (update_row r text))

  unfoldable pub delete_passkey :
      (user_id cred_id : String) → PasskeyTable → ProxyResult (Unit {0}) × PasskeyTable
  delete_passkey user_id cred_id =
      running (λ t. (ok tt, drop_at row_user row_cred user_id cred_id t.rows))

  abbrev pub postgres_store : PasskeyStore PasskeyTable P
  postgres_store = record {
    save_passkey = save_passkey;
    get_passkeys = get_passkeys;
    update_passkey = update_passkey;
    delete_passkey = delete_passkey;
  }
