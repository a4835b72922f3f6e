-- ===== src/Db.antt =====
-- src/db/mod.rs: the statements on the tables `users` and `devices`, and the table `audit_log` of
-- src/audit/mod.rs, with the defaults and unique columns of docs/schema.sql. A UUID is its text.
-- The `n`-th statement may be refused by the server for any reason, without effect: `outages` says
-- which ones are, and with what error. `generated` gives the UUIDs that the server makes up.
pub mod Devices
use zero_trust_proxy.Common.{
  ℕ, suc, String, ◌==◌, Bool, true, false, ◌&&◌, ◌||◌, Option, none, some, List, [], ◌∷◌, ◌++◌, any,
  if◌then◌else◌,
}
use zero_trust_proxy.Common.Int.{ℤ}
use zero_trust_proxy.Risk.{RiskFactor}
use zero_trust_proxy.Error.{Result, ok, err}

abbrev pub Uuid : Type 0
Uuid = String

pub record UserRow : Type 0 where
  pub id : Uuid
  pub username : String
  pub email : String
  pub password_hash : String
  pub mfa_enabled : Bool
  pub mfa_secret : Option String
  pub is_active : Bool

-- The columns of `devices` that the statements name; `DeviceRow` of the source is the last two.
pub record DeviceEntry : Type 0 where
  pub user_id : Uuid
  pub fingerprint_hash : String
  pub user_agent : String
  pub platform : String
  pub browser : String
  pub ip_address : String
  pub trust_score : ℤ
  pub is_trusted : Bool

pub record DeviceRow : Type 0 where
  pub trust_score : ℤ
  pub is_trusted : Bool

-- The JSON values that the source puts into `metadata`: an object with texts and risk factors as
-- members, or a value that is no object.
pub data Member : Type 0 where
  text : String → Member
  risk_factors : List RiskFactor → Member

pub data Metadata : Type 0 where
  object : List (String × Member) → Metadata
  other : Member → Metadata

-- A row of `audit_log`.
pub record AuditRow : Type 0 where
  pub id : Uuid
  pub event_type : String
  pub user_id : Option Uuid
  pub ip_address : String
  pub resource : String
  pub action : String
  pub outcome : String
  pub risk_score : Option ℤ
  pub metadata : Metadata

pub record Tables : Type 0 where
  pub users : List UserRow
  pub devices : List DeviceEntry
  pub audit_log : List AuditRow

pub record Database : Type 0 where
  pub tables : Tables
  pub statements : ℕ
  pub outages : ℕ → Option String
  pub generated : ℕ → Uuid

abbrev pub Statement : Type 0 → Type 0
Statement A = Database → Result String A × Database

abbrev counted : Database → Database
counted db = record db { statements = suc db.statements }

abbrev pub query : {A : Type 0} → (Tables → A) → Statement A
query read db = elim (db.outages db.statements) [
  | some e ↦ (err e, counted db)
  | none ↦ (ok (read db.tables), counted db)
]

abbrev pub execute : (Tables → Tables) → Statement (Unit {0})
execute write db = elim (db.outages db.statements) [
  | some e ↦ (err e, counted db)
  | none ↦ (ok tt, record (counted db) { tables = write db.tables })
]

unfoldable pub find_row {ℓ} : {A : Type ℓ} → (A → Bool) → List A → Option A
find_row p [] = none
find_row p (x ∷ xs) = if p x then some x else find_row p xs

unfoldable pub update_rows {ℓ} : {A : Type ℓ} → (A → Bool) → (A → A) → List A → List A
update_rows p f [] = []
update_rows p f (x ∷ xs) = (if p x then f x else x) ∷ update_rows p f xs

unfoldable pub find_user_by_username : String → Statement (Option UserRow)
find_user_by_username username = query (λ t. find_row (λ u. u.username == username) t.users)

unfoldable pub find_user_by_id : Uuid → Statement (Option UserRow)
find_user_by_id id = query (λ t. find_row (λ u. u.id == id) t.users)

abbrev pub device_row : Option DeviceEntry → Option DeviceRow
device_row none = none
device_row (some d) = some (record { trust_score = d.trust_score; is_trusted = d.is_trusted })

unfoldable pub find_device_by_fingerprint : Uuid → String → Statement (Option DeviceRow)
find_device_by_fingerprint user_id fingerprint_hash = query (λ t.
    device_row
      (find_row (λ d. d.user_id == user_id && d.fingerprint_hash == fingerprint_hash) t.devices))

-- `INSERT … ON CONFLICT (fingerprint_hash) DO UPDATE`: the row that has the fingerprint, whoever
-- owns it, gets the new score, flag and address.
unfoldable pub put_device : DeviceEntry → List DeviceEntry → List DeviceEntry
put_device d devices =
    if any (λ e. e.fingerprint_hash == d.fingerprint_hash) devices
    then update_rows (λ e. e.fingerprint_hash == d.fingerprint_hash)
        (λ e. record e {
          trust_score = d.trust_score;
          is_trusted = d.is_trusted;
          ip_address = d.ip_address;
        })
        devices
    else devices ++ d ∷ []

unfoldable pub upsert_device : DeviceEntry → Statement (Unit {0})
upsert_device d = execute (λ t. record t { devices = put_device d t.devices })

unfoldable pub set_user_mfa_secret : Uuid → String → Statement (Unit {0})
set_user_mfa_secret id secret = execute (λ t. record t {
  users =
      update_rows (λ u. u.id == id) (λ u. record u { mfa_enabled = true; mfa_secret = some secret })
        t.users;
})

abbrev pub new_user : Uuid → String → String → String → UserRow
new_user id username email password_hash = record {
  id = id;
  username = username;
  email = email;
  password_hash = password_hash;
  mfa_enabled = false;
  mfa_secret = none;
  is_active = true;
}

-- The unique columns refuse a second row with the same name or address.
unfoldable pub create_user : String → String → String → Statement UserRow
create_user username email password_hash db =
    let user = new_user (db.generated db.statements) username email password_hash in
    let taken = any (λ u. u.username == username || u.email == email) db.tables.users in
    elim (db.outages db.statements) [
      | some e ↦ (err e, counted db)
      | none ↦
          if taken then (err "duplicate key value violates unique constraint", counted db) else (
            ok user,
            record (counted db) {
              tables = record (db.tables) { users = db.tables.users ++ user ∷ [] };
            },
          )
    ]

unfoldable pub insert_audit : AuditRow → Statement (Unit {0})
insert_audit row = execute (λ t. record t { audit_log = t.audit_log ++ row ∷ [] })
