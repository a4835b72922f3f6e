-- ===== src/Auth/Device.antt =====
-- src/auth/device.rs: the device fingerprint and its trust score. `Uuid::new_v4` and `Utc::now`
-- are arguments, and SHA-256 is a parameter that takes the texts in the order of the `update` calls.
pub mod Trust
pub mod Parsing
use zero_trust_proxy.Common.{
  ℕ, ◌-◌, String, ◌≡◌, Bool, true, false, Option, none, some, List, [], ◌∷◌, ◌++◌, if◌then◌else◌,
  ltb, leb, min, add_u32,
}
use zero_trust_proxy.Common.Text.{contains}
use zero_trust_proxy.Clock.{DateTime}
use Prim.Native.String

pub record DeviceMetadata : Type 0 where
  pub screen_resolution : Option String
  pub timezone : Option String
  pub language : Option String
  pub platform_version : Option String
  pub hardware_concurrency : Option ℕ

pub record DeviceFingerprint : Type 0 where
  pub id : String
  pub user_id : String
  pub fingerprint_hash : String
  pub user_agent : String
  pub ip_address : String
  pub platform : String
  pub browser : String
  pub trust_score : ℕ
  pub is_trusted : Bool
  pub first_seen : DateTime
  pub last_seen : DateTime
  pub metadata : DeviceMetadata

-- The hexadecimal SHA-256 of what a list of `update` calls has hashed.
abbrev pub Sha256 : Type 0
Sha256 = List String → String

abbrev pub concat : List String → String
concat [] = ""
concat (s ∷ r) = String.◌++◌ s (concat r)

-- A digest depends on the bytes that the calls hand over one after the other, and not on where a
-- call ends.
pub record IsStreaming (hex_digest : Sha256) : Type 0 where
  pub streams : (us vs : List String) → concat us ≡ concat vs → hex_digest us ≡ hex_digest vs

abbrev update_some : Option String → List String
update_some none = []
update_some (some s) = s ∷ []

unfoldable pub generate_hash : Sha256 → String → String → DeviceMetadata → String
generate_hash hex_digest user_agent ip_address metadata = hex_digest (
    user_agent
    ∷ ip_address
    ∷ (update_some metadata.screen_resolution
        ++ (update_some metadata.timezone ++ update_some metadata.language)))

unfoldable pub parse_platform : String → String
parse_platform user_agent =
    if contains user_agent "Windows"
    then "Windows"
    else if contains user_agent "Mac"
    then "macOS"
    else if contains user_agent "Linux"
    then "Linux"
    else if contains user_agent "Android"
    then "Android"
    else if contains user_agent "iOS"
    then "iOS"
    else "Unknown"

unfoldable pub parse_browser : String → String
parse_browser user_agent =
    if contains user_agent "Chrome"
    then "Chrome"
    else if contains user_agent "Firefox"
    then "Firefox"
    else if contains user_agent "Safari"
    then "Safari"
    else if contains user_agent "Edge"
    then "Edge"
    else "Unknown"

unfoldable pub parse_user_agent : String → String × String
unfolding parse_platform parse_browser
parse_user_agent user_agent = (parse_platform user_agent, parse_browser user_agent)

-- `DeviceFingerprint::new`; `id` is the fresh UUID, and the two instants are the two clock readings.
unfoldable pub new :
    Sha256
    → (id : String) (first_seen last_seen : DateTime) → (user_id user_agent ip_address : String)
    → DeviceMetadata
    → DeviceFingerprint
new hex_digest id first_seen last_seen user_id user_agent ip_address metadata =
    let (platform, browser) = parse_user_agent user_agent in
    record {
      id = id;
      user_id = user_id;
      fingerprint_hash = generate_hash hex_digest user_agent ip_address metadata;
      user_agent = user_agent;
      ip_address = ip_address;
      platform = platform;
      browser = browser;
      trust_score = 50;
      is_trusted = false;
      first_seen = first_seen;
      last_seen = last_seen;
      metadata = metadata;
    }

unfoldable pub update_last_seen : DeviceFingerprint → DateTime → DeviceFingerprint
update_last_seen device now = record device { last_seen = now }

unfoldable pub increase_trust : DeviceFingerprint → ℕ → DeviceFingerprint
increase_trust device amount =
    let score = min (add_u32 device.trust_score amount) 100 in
    record device {
      trust_score = score;
      is_trusted = if leb 70 score then true else device.is_trusted;
    }

unfoldable pub decrease_trust : DeviceFingerprint → ℕ → DeviceFingerprint
decrease_trust device amount =
    let score = device.trust_score - amount in
    record device {
      trust_score = score;
      is_trusted = if ltb score 70 then false else device.is_trusted;
    }
