-- ===== src/Risk.antt =====
-- src/risk/mod.rs: the risk score of a request. `Utc::now` is the argument `now`, and the crate
-- chrono a parameter. `u32` sums keep their wrap-around.
pub mod Bounds
pub mod Decision
use Prim.Native.String.{◌++◌ as ◌<>◌}
use zero_trust_proxy.Common.{
  ℕ, ◌≡◌, String, Bool, true, false, not, ◌&&◌, Option, none, some, List, [], ◌∷◌, ◌++◌, ltb, leb,
  eqb, min, add_u32, if◌then◌else◌,
}
use zero_trust_proxy.Common.Text.{show_ℕ, show_ℤ}
use zero_trust_proxy.Common.Int.{ℤ, pos, ltb_ℤ, ◌-ℤ◌}
use zero_trust_proxy.Clock.{DateTime, Chrono}
use zero_trust_proxy.Error.{ProxyError, Result, ok, ProxyResult}
use zero_trust_proxy.Auth.Device.{DeviceFingerprint}

-- `std::net::IpAddr`, an address of either family as its number.
pub data IpAddr : Type 0 where
  v4 v6 : ℕ → IpAddr

abbrev pub ip_eq : IpAddr → IpAddr → Bool
ip_eq (v4 a) (v4 b) = eqb a b
ip_eq (v6 a) (v6 b) = eqb a b
ip_eq _ _ = false

-- Coordinates are floats, which nothing reads: they are kept as their text.
pub record GeoLocation : Type 0 where
  pub country : String
  pub city : Option String
  pub latitude : String
  pub longitude : String

pub record RiskContext : Type 0 where
  pub user_id : String
  pub device : DeviceFingerprint
  pub ip_address : IpAddr
  pub timestamp : DateTime
  pub geolocation : Option GeoLocation
  pub previous_ip : Option IpAddr
  pub session_age_minutes : ℤ
  pub failed_attempts : ℕ
  pub time_since_last_success_hours : Option ℤ

pub data RiskLevel : Type 0 where
  low medium high critical : RiskLevel

pub data RiskRecommendation : Type 0 where
  allow step_up_auth block : RiskRecommendation

pub record RiskFactor : Type 0 where
  pub name : String
  pub score : ℕ
  pub description : String

pub record RiskScore : Type 0 where
  pub total_score : ℕ
  pub factors : List RiskFactor
  pub level : RiskLevel
  pub recommendation : RiskRecommendation

pub record RiskEngine : Type 0 where
  pub step_up_threshold : ℕ
  pub block_threshold : ℕ

unfoldable pub new : (step_up_threshold block_threshold : ℕ) → RiskEngine
new step_up_threshold block_threshold = record {
  step_up_threshold = step_up_threshold;
  block_threshold = block_threshold;
}

unfoldable pub calculate_device_risk : Chrono → DateTime → DeviceFingerprint → ℕ
calculate_device_risk chrono now device =
    let trust : ℕ = if device.is_trusted then 0 else 25 in
    let score = add_u32 trust (if ltb device.trust_score 50 then 15 else 0) in
    let days = chrono.num_days (now -ℤ device.first_seen) in
    add_u32 score (if ltb_ℤ days (pos 1) then 20 else if ltb_ℤ days (pos 7) then 10 else 0)

unfoldable pub calculate_geo_risk : Option RiskFactor
calculate_geo_risk = none

-- The arms `1..=2`, `3..=5`, `6..=10` and `_`, which takes 0 too.
unfoldable pub calculate_failed_attempts_risk : ℕ → ℕ
calculate_failed_attempts_risk attempts =
    if leb 1 attempts && leb attempts 2
    then 10
    else if leb 3 attempts && leb attempts 5
    then 25
    else if leb 6 attempts && leb attempts 10
    then 40
    else 60

unfoldable pub calculate_time_risk : Chrono → RiskContext → Option RiskFactor
calculate_time_risk chrono context =
    let hour = chrono.hour context.timestamp in
    if leb 2 hour && ltb hour 5
    then some
        (record { name = "Unusual Time"; score = 15; description = "Login during unusual hours" })
    else none

abbrev changed_ip : Option IpAddr → IpAddr → Bool
changed_ip none ip = false
changed_ip (some prev_ip) ip = not (ip_eq prev_ip ip)

unfoldable pub calculate_ip_change_risk : RiskContext → Option RiskFactor
calculate_ip_change_risk context =
    if changed_ip context.previous_ip context.ip_address
    then some (record {
      name = "IP Change";
      score = 20;
      description = "IP address changed within session";
    })
    else none

unfoldable pub calculate_session_age_risk : ℤ → ℕ
calculate_session_age_risk age_minutes =
    if ltb_ℤ (pos 120) age_minutes then 30 else if ltb_ℤ (pos 60) age_minutes then 15 else 0

-- A factor that is pushed only for a positive score.
abbrev factor_if : Bool → String → ℕ → String → Option RiskFactor
factor_if test name score description =
    if test then some (record { name = name; score = score; description = description }) else none

unfoldable pub device_factor : Chrono → DateTime → RiskContext → Option RiskFactor
device_factor chrono now context =
    let risk = calculate_device_risk chrono now context.device in
    factor_if (ltb 0 risk) "Device Trust" risk
      ("Device trust score: " <> show_ℕ context.device.trust_score)

unfoldable pub attempts_factor : RiskContext → Option RiskFactor
attempts_factor context =
    factor_if (ltb 0 context.failed_attempts) "Failed Attempts"
      (calculate_failed_attempts_risk context.failed_attempts)
      (show_ℕ context.failed_attempts <> " failed attempts")

unfoldable pub session_factor : RiskContext → Option RiskFactor
session_factor context =
    let risk = calculate_session_age_risk context.session_age_minutes in
    factor_if (ltb 0 risk) "Session Age" risk
      ("Session age: " <> show_ℤ context.session_age_minutes <> " minutes")

-- The factors in the order in which `calculate_risk` asks for them.
unfoldable pub all_factors : Chrono → DateTime → RiskContext → List (Option RiskFactor)
all_factors chrono now context =
    device_factor chrono now context
    ∷ calculate_geo_risk
    ∷ attempts_factor context
    ∷ calculate_time_risk chrono context
    ∷ calculate_ip_change_risk context
    ∷ session_factor context
    ∷ []

-- `factors.push(…)` with `total_score += …`, for each factor that is present.
unfoldable pub tally : List RiskFactor → ℕ → List (Option RiskFactor) → List RiskFactor × ℕ
tally factors total [] = (factors, total)
tally factors total (none ∷ rest) = tally factors total rest
tally factors total (some f ∷ rest) = tally (factors ++ f ∷ []) (add_u32 total f.score) rest

unfoldable pub risk_level : ℕ → RiskLevel
risk_level total =
    if leb total 30
    then low
    else if leb total 60
    then medium
    else if leb total 85
    then high
    else critical

unfoldable pub recommend : RiskEngine → ℕ → RiskRecommendation
recommend engine total =
    if leb engine.block_threshold total
    then block
    else if leb engine.step_up_threshold total
    then step_up_auth
    else allow

unfoldable pub calculate_risk : Chrono → DateTime → RiskEngine → RiskContext → ProxyResult RiskScore
calculate_risk chrono now engine context =
    let (factors, sum) = tally [] 0 (all_factors chrono now context) in
    let total = min sum 100 in
    ok (record {
      total_score = total;
      factors = factors;
      level = risk_level total;
      recommendation = recommend engine total;
    })
