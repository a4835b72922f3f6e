-- ===== src/Examples/Accounts.antt =====
-- Two accounts whose devices have one fingerprint.
use zero_trust_proxy.Common.{◌≡◌, refl, String, none, any, false, [], ◌∷◌}
use zero_trust_proxy.Common.Int.{pos}
use zero_trust_proxy.Error.{ok}
use zero_trust_proxy.Db.{DeviceEntry, Database, find_device_by_fingerprint, upsert_device}
use zero_trust_proxy.Db.Devices.{find_device-upsert_device}
use zero_trust_proxy.Examples.Fixtures.{database}

abbrev device_of : String → DeviceEntry
device_of user = record {
  user_id = user;
  fingerprint_hash = "f0";
  user_agent = "unknown";
  platform = "Unknown";
  browser = "Unknown";
  ip_address = "10.0.0.1";
  trust_score = pos 60;
  is_trusted = false;
}

-- Bob has logged in from the machine before.
abbrev bob_first : Database
bob_first = record database {
  tables = record { users = []; devices = device_of "bob" ∷ []; audit_log = [] };
}

find_device-upsert_device_example :
    (find_device_by_fingerprint "alice" "f0" (upsert_device (device_of "alice") bob_first).1).0
    ≡ ok none
unfolding any
find_device-upsert_device_example =
    find_device-upsert_device (device_of "alice") bob_first refl refl
