-- ===== src/Db/Devices.antt =====
-- src/db/mod.rs and docs/schema.sql: what `upsert_device` leaves for `find_device_by_fingerprint`.
use zero_trust_proxy.Common.{
  ◌≡◌, refl, ◌==◌, eq_refl, suc, Bool, false, not, ◌&&◌, none, some, List, [], ◌∷◌, ◌++◌, any,
  arith, if◌then◌else◌, Bool-cases, inl, inr,
}
use zero_trust_proxy.Error.{ok}
use zero_trust_proxy.Db.{
  DeviceEntry, DeviceRow, Database, device_row, find_row, update_rows, put_device, upsert_device,
  find_device_by_fingerprint,
}

abbrev same_hash : DeviceEntry → DeviceEntry → Bool
same_hash d e = e.fingerprint_hash == d.fingerprint_hash

abbrev own_row : DeviceEntry → DeviceEntry → Bool
own_row d e = e.user_id == d.user_id && e.fingerprint_hash == d.fingerprint_hash

abbrev renew : DeviceEntry → DeviceEntry → DeviceEntry
renew d e = record e {
  trust_score = d.trust_score;
  is_trusted = d.is_trusted;
  ip_address = d.ip_address;
}

abbrev pub row_of_entry : DeviceEntry → DeviceRow
row_of_entry d = record { trust_score = d.trust_score; is_trusted = d.is_trusted }

find-update_rows :
    (d : DeviceEntry) (es : List DeviceEntry)
    → device_row (find_row (own_row d) (update_rows (same_hash d) (renew d) es))
      ≡ (if any (own_row d) es then some (row_of_entry d) else none)
unfolding find_row update_rows any
find-update_rows d [] = refl
find-update_rows d (e ∷ es) = ground (arith, find-update_rows d es)

find-append :
    (d : DeviceEntry) (es : List DeviceEntry)
    → any (same_hash d) es ≡ false
    → device_row (find_row (own_row d) (es ++ d ∷ [])) ≡ some (row_of_entry d)
unfolding find_row any
find-append d [] h = ground (arith, eq_refl d.user_id, eq_refl d.fingerprint_hash)
find-append d (e ∷ es) h = ground (arith, find-append d es)

-- The fingerprint stands in the table, but in rows of other accounts only.
abbrev pub taken_by_others : DeviceEntry → List DeviceEntry → Bool
taken_by_others d es =
    any (λ e. e.fingerprint_hash == d.fingerprint_hash) es
    && not (any (λ e. e.user_id == d.user_id && e.fingerprint_hash == d.fingerprint_hash) es)

find-put_device :
    (d : DeviceEntry) (es : List DeviceEntry)
    → device_row (find_row (own_row d) (put_device d es))
      ≡ (if taken_by_others d es then none else some (row_of_entry d))
unfolding put_device
find-put_device d es = elim (Bool-cases (any (same_hash d) es)) [
  | inl t ↦ ground (arith, find-update_rows d es)
  | inr t ↦ ground (arith, find-append d es)
]

-- If neither statement is refused, an account that has just stored a device finds it again with the
-- score and the flag that it has stored, except where the fingerprint stands in rows of other
-- accounts only: then it finds nothing.
pub find_device-upsert_device :
    (d : DeviceEntry) (db : Database)
    → db.outages db.statements ≡ none
    → db.outages (suc db.statements) ≡ none
    → (find_device_by_fingerprint d.user_id d.fingerprint_hash (upsert_device d db).1).0
      ≡ ok (
          if taken_by_others d db.tables.devices
          then none
          else some (record { trust_score = d.trust_score; is_trusted = d.is_trusted }))
unfolding find_device_by_fingerprint upsert_device
find_device-upsert_device d db h1 h2 = ground (arith, find-put_device d db.tables.devices)
