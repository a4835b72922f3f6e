-- ===== src/Proxy/Writes.antt =====
-- src/proxy/mod.rs: the handlers change the tables by four statements only. A relation that holds
-- across each of them holds across every handler.
pub mod Gate
pub mod Login
pub mod Handlers
pub mod Requests
pub mod Grows
pub mod Consistent
use zero_trust_proxy.Common.{
  ℕ, String, ◌≡◌, refl, Bool, true, false, ◌||◌, ◌==◌, Option, none, some, List, [], ◌∷◌, ◌++◌, any,
  Option-cases, Bool-cases, inl, inr, if◌then◌else◌,
}
use zero_trust_proxy.Error.{ok, err}
use zero_trust_proxy.Db.{
  Uuid, UserRow, DeviceEntry, AuditRow, Tables, Database, Statement, Metadata, query, execute,
  new_user, find_user_by_username, find_user_by_id, find_device_by_fingerprint, upsert_device,
  put_device, set_user_mfa_secret, update_rows, create_user, insert_audit,
}
use zero_trust_proxy.World.{M, statement, pure, bind, ◌>>=◌, ◌>>◌}
use zero_trust_proxy.World.Respects.{Respects, Respects-statement, IsPreorder, respects_rules}
use zero_trust_proxy.Audit.{
  Texts, AuditEvent, Outcome, EventType, new, log, id_or_new, log_authentication, log_authorization,
  log_risk_evaluation,
}

-- The account that a registration makes.
pub record IsNew (user : UserRow) (users : List UserRow) : Type 0 where
  pub untaken : any (λ u. u.username == user.username || u.email == user.email) users ≡ false
  pub no_factor : user.mfa_enabled ≡ false

pub record Admits (R : Tables → Tables → Type 0) : Type 0 where
  pub logs : (row : AuditRow) (t : Tables) → R t (record t { audit_log = t.audit_log ++ row ∷ [] })
  pub puts : (d : DeviceEntry) (t : Tables) → R t (record t { devices = put_device d t.devices })
  pub enrolls :
      (id : Uuid) (secret : String) (t : Tables)
      → R t (record t {
        users =
            update_rows
              (λ u. u.id == id)
              (λ u. record u { mfa_enabled = true; mfa_secret = some secret })
              t.users;
      })
  pub registers :
      (user : UserRow) (t : Tables)
      → IsNew user t.users
      → R t (record t { users = t.users ++ user ∷ [] })

module _ {Store : Type 0} {R : Tables → Tables → Type 0} ⦃order : IsPreorder R⦄ where
  query-Respects :
      {A : Type 0} (read : Tables → A) → Respects R (statement {Store = Store} (query read))
  query-Respects read = Respects-statement (query read) λ db. at_db db
    where
      at_db : (db : Database) → R db.tables (query read db).1.tables
      at_db db = elim (Option-cases (db.outages db.statements)) [
        | inl q ↦ rw (q, query) (order.stays db.tables)
        | inr (e, q) ↦ rw (q, query) (order.stays db.tables)
      ]

  execute-Respects :
      (write : Tables → Tables)
      → ((t : Tables) → R t (write t))
      → Respects R (statement {Store = Store} (execute write))
  execute-Respects write k = Respects-statement (execute write) λ db. at_db db
    where
      at_db : (db : Database) → R db.tables (execute write db).1.tables
      at_db db = elim (Option-cases (db.outages db.statements)) [
        | inl q ↦ rw (q, execute) (k db.tables)
        | inr (e, q) ↦ rw (q, execute) (order.stays db.tables)
      ]

module _ {Store : Type 0} {R : Tables → Tables → Type 0} ⦃order : IsPreorder R⦄
    ⦃writes : Admits R⦄ where
  pub find_user_by_username-Respects :
      (username : String) → Respects R (statement {Store = Store} (find_user_by_username username))
  unfolding find_user_by_username
  find_user_by_username-Respects username = query-Respects _

  pub find_user_by_id-Respects :
      (id : Uuid) → Respects R (statement {Store = Store} (find_user_by_id id))
  unfolding find_user_by_id
  find_user_by_id-Respects id = query-Respects _

  pub find_device-Respects :
      (user_id : Uuid) (fingerprint : String)
      → Respects R (statement {Store = Store} (find_device_by_fingerprint user_id fingerprint))
  unfolding find_device_by_fingerprint
  find_device-Respects user_id fingerprint = query-Respects _

  pub upsert_device-Respects :
      (d : DeviceEntry) → Respects R (statement {Store = Store} (upsert_device d))
  unfolding upsert_device
  upsert_device-Respects d = execute-Respects _ (writes.puts d)

  pub set_user_mfa_secret-Respects :
      (id : Uuid) (secret : String)
      → Respects R (statement {Store = Store} (set_user_mfa_secret id secret))
  unfolding set_user_mfa_secret
  set_user_mfa_secret-Respects id secret = execute-Respects _ (writes.enrolls id secret)

  pub create_user-Respects :
      (username email password_hash : String)
      → Respects R (statement {Store = Store} (create_user username email password_hash))
  unfolding create_user
  create_user-Respects username email password_hash =
      Respects-statement (create_user username email password_hash) λ db. at_db db
    where
      at_db : (db : Database) → R db.tables (create_user username email password_hash db).1.tables
      at_db db = elim (Option-cases (db.outages db.statements)) [
        | inr (e, q) ↦ rw (q, create_user) (order.stays db.tables)
        | inl q ↦
            elim (Bool-cases
              (any (λ u. u.username == username || u.email == email) db.tables.users)) [
                | inl b ↦ rw (q, b, create_user) (order.stays db.tables)
                | inr b ↦
                    rw (q, b, create_user)
                      (writes.registers
                        (new_user (db.generated db.statements) username email password_hash)
                        db.tables (record { untaken = b; no_factor = refl }))
              ]
      ]

  pub insert_audit-Respects :
      (row : AuditRow) → Respects R (statement {Store = Store} (insert_audit row))
  unfolding insert_audit
  insert_audit-Respects row = execute-Respects _ (writes.logs row)

  new-Respects :
      (kind : EventType) (user_id device_id : Option String) (ip resource action : String)
      (outcome : Outcome)
      → Respects R (new {Store = Store} kind user_id device_id ip resource action outcome)
  unfolding new
  new-Respects kind user_id device_id ip resource action outcome = search respects_rules

  id_or_new-Respects :
      (texts : Texts) (id : Option Uuid) → Respects {Store = Store} R (id_or_new texts id)
  id_or_new-Respects texts none = search respects_rules
  id_or_new-Respects texts (some id) = search respects_rules

  log-Respects : (texts : Texts) (event : AuditEvent) → Respects R (log {Store = Store} texts event)
  unfolding log
  log-Respects texts event = search (respects_rules, insert_audit-Respects, id_or_new-Respects)

  pub log_authentication-Respects :
      (texts : Texts) (user_id device_id ip : String) (succeeded : Bool)
      → Respects R (log_authentication {Store = Store} texts user_id device_id ip succeeded)
  unfolding log_authentication
  log_authentication-Respects texts user_id device_id ip succeeded =
      search (respects_rules, new-Respects, log-Respects)

  pub log_authorization-Respects :
      (texts : Texts) (user_id ip resource action : String) (allowed : Bool) (score : ℕ)
      → Respects R
          (log_authorization {Store = Store} texts user_id ip resource action allowed score)
  unfolding log_authorization
  log_authorization-Respects texts user_id ip resource action allowed score =
      search (respects_rules, new-Respects, log-Respects)

  pub log_risk_evaluation-Respects :
      (texts : Texts) (user_id device_id ip : String) (score : ℕ) (factors : Metadata)
      → Respects R (log_risk_evaluation {Store = Store} texts user_id device_id ip score factors)
  unfolding log_risk_evaluation
  log_risk_evaluation-Respects texts user_id device_id ip score factors =
      search (respects_rules, new-Respects, log-Respects)
