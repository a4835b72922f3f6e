-- ===== src/Audit.antt =====
-- src/audit/mod.rs: audit events and their rows in `audit_log`. The `tracing` line is left out.
pub mod Rows
use zero_trust_proxy.Common.{
  ℕ, ◌-◌, ◌^◌, ◌≡◌, String, ◌==◌, Bool, true, false, Option, none, some, List, [], ◌∷◌, ltb,
  if◌then◌else◌, is_some,
}
use zero_trust_proxy.Common.Int.{ℤ, pos, negsuc}
use zero_trust_proxy.Clock.{DateTime}
use zero_trust_proxy.Risk.{IpAddr, RiskFactor}
use zero_trust_proxy.Db.{
  Uuid, AuditRow, Metadata, object, other, Member, text, risk_factors, insert_audit,
}
use zero_trust_proxy.World.{World, M, pure, bind, ◌>>=◌, ◌>>◌, utc_now, new_uuid, statement}

-- The parsers and printers of UUIDs and of addresses.
pub record Texts : Type 0 where
  pub parse_uuid : String → Option Uuid
  pub parse_ip : String → Option IpAddr
  pub show_ip : IpAddr → String

pub data EventType : Type 0 where
  authentication authorization access_granted access_denied mfa_verification : EventType
  session_created session_expired risk_evaluation policy_evaluation : EventType
  device_registration anomaly_detected : EventType

pub data Outcome : Type 0 where
  success failure blocked : Outcome

-- `json_str`, at the two enums: what `#[serde(rename_all = …)]` makes of the names.
unfoldable pub event_type_str : EventType → String
event_type_str authentication = "authentication"
event_type_str authorization = "authorization"
event_type_str access_granted = "access_granted"
event_type_str access_denied = "access_denied"
event_type_str mfa_verification = "mfa_verification"
event_type_str session_created = "session_created"
event_type_str session_expired = "session_expired"
event_type_str risk_evaluation = "risk_evaluation"
event_type_str policy_evaluation = "policy_evaluation"
event_type_str device_registration = "device_registration"
event_type_str anomaly_detected = "anomaly_detected"

unfoldable pub outcome_str : Outcome → String
outcome_str success = "success"
outcome_str failure = "failure"
outcome_str blocked = "blocked"

pub record AuditEvent : Type 0 where
  pub id : String
  pub timestamp : DateTime
  pub event_type : EventType
  pub user_id : Option String
  pub device_id : Option String
  pub ip_address : String
  pub resource : String
  pub action : String
  pub outcome : Outcome
  pub risk_score : Option ℕ
  pub metadata : Metadata

unfoldable pub with_risk_score : AuditEvent → ℕ → AuditEvent
with_risk_score event score = record event { risk_score = some score }

unfoldable pub with_metadata : AuditEvent → Metadata → AuditEvent
with_metadata event metadata = record event { metadata = metadata }

-- `serde_json::Map::insert`.
unfoldable pub insert_member : String → Member → List (String × Member) → List (String × Member)
insert_member k v [] = (k, v) ∷ []
insert_member k v ((j, w) ∷ m) = if j == k then (k, v) ∷ m else (j, w) ∷ insert_member k v m

unfoldable pub fold_device_id : Option String → Metadata → Metadata
fold_device_id none metadata = metadata
fold_device_id (some device_id) (object members) =
    object (insert_member "device_id" (text device_id) members)
fold_device_id (some device_id) (other _) = object (("device_id", text device_id) ∷ [])

-- `as i32` on a `u32`.
unfoldable pub to_i32 : ℕ → ℤ
to_i32 n = if ltb n (2 ^ 31) then pos n else negsuc (2 ^ 32 - n - 1)

abbrev map_i32 : Option ℕ → Option ℤ
map_i32 none = none
map_i32 (some n) = some (to_i32 n)

module _ {Store : Type 0} where
  -- `AuditEvent::new`.
  unfoldable pub new :
      EventType
      → (user_id device_id : Option String) (ip_address resource action : String) → Outcome
      → M Store AuditEvent
  new event_type user_id device_id ip_address resource action outcome = do
    id ← new_uuid
    now ← utc_now
    pure (record {
      id = id;
      timestamp = now;
      event_type = event_type;
      user_id = user_id;
      device_id = device_id;
      ip_address = ip_address;
      resource = resource;
      action = action;
      outcome = outcome;
      risk_score = none;
      metadata = object [];
    })

abbrev parse_user : Texts → Option String → Option Uuid
parse_user texts none = none
parse_user texts (some s) = texts.parse_uuid s

-- The row that `log` inserts for an event, once its id is settled.
unfoldable pub row_of : Texts → AuditEvent → Uuid → AuditRow
row_of texts event id = record {
  id = id;
  event_type = event_type_str event.event_type;
  user_id = parse_user texts event.user_id;
  ip_address = if is_some (texts.parse_ip event.ip_address) then event.ip_address else "0.0.0.0";
  resource = event.resource;
  action = event.action;
  outcome = outcome_str event.outcome;
  risk_score = map_i32 event.risk_score;
  metadata = fold_device_id event.device_id event.metadata;
}

module _ {Store : Type 0} (texts : Texts) where
  abbrev pub id_or_new : Option Uuid → M Store Uuid
  id_or_new none = new_uuid
  id_or_new (some id) = pure id

  unfoldable pub log : AuditEvent → M Store (Unit {0})
  log event = do
    id ← id_or_new (texts.parse_uuid event.id)
    statement (insert_audit (row_of texts event id))

  unfoldable pub log_authentication :
      (user_id device_id ip_address : String) (succeeded : Bool) → M Store (Unit {0})
  log_authentication user_id device_id ip_address succeeded = do
    event ←
        new authentication (some user_id) (some device_id) ip_address "/auth/login" "authenticate"
          (if succeeded then success else failure)
    log event

  unfoldable pub log_authorization :
      (user_id ip_address resource action : String) (allowed : Bool) (risk_score : ℕ)
      → M Store (Unit {0})
  log_authorization user_id ip_address resource action allowed risk_score = do
    event ←
        new authorization (some user_id) none ip_address resource action
          (if allowed then success else blocked)
    log (with_risk_score event risk_score)

  unfoldable pub log_risk_evaluation :
      (user_id device_id ip_address : String) (risk_score : ℕ) (factors : Metadata)
      → M Store (Unit {0})
  log_risk_evaluation user_id device_id ip_address risk_score factors = do
    event ←
        new risk_evaluation (some user_id) (some device_id) ip_address "/" "evaluate_risk" success
    log (with_metadata (with_risk_score event risk_score) factors)
