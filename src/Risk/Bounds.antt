-- ===== src/Risk/Bounds.antt =====
-- src/risk/mod.rs: bounds of the scores.
use zero_trust_proxy.Common.{
  ℕ, ◌+◌, ◌≤◌, ◌<◌, ◌^◌, ◌≡◌, refl, Option, none, some, List, [], ◌∷◌, ◌++◌, min, add_u32, arith,
}
use zero_trust_proxy.Clock.{DateTime, Chrono}
use zero_trust_proxy.Error.{ok}
use zero_trust_proxy.Auth.Device.{DeviceFingerprint}
use zero_trust_proxy.Risk.{
  RiskContext, RiskFactor, RiskScore, RiskEngine, calculate_device_risk, calculate_geo_risk,
  calculate_failed_attempts_risk, calculate_time_risk, calculate_ip_change_risk,
  calculate_session_age_risk, device_factor, attempts_factor, session_factor, all_factors, tally,
  risk_level, recommend, calculate_risk,
}

-- The score of a factor that may be absent.
abbrev pub points : Option RiskFactor → ℕ
points none = 0
points (some f) = f.score

abbrev pub sum_scores : List RiskFactor → ℕ
sum_scores [] = 0
sum_scores (f ∷ fs) = f.score + sum_scores fs

abbrev pub sum_points : List (Option RiskFactor) → ℕ
sum_points [] = 0
sum_points (f ∷ fs) = points f + sum_points fs

sum_scores-append :
    (xs ys : List RiskFactor) → sum_scores (xs ++ ys) ≡ sum_scores xs + sum_scores ys
sum_scores-append [] ys = omega arith
sum_scores-append (x ∷ xs) ys = omega (arith, sum_scores-append xs ys)

-- As long as the sum stays below 2^32 the running total is the sum.
tally_sum :
    (factors : List RiskFactor) (total : ℕ) (rest : List (Option RiskFactor))
    → total + sum_points rest < 2 ^ 32
    → ((tally factors total rest).1 ≡ total + sum_points rest)
      × (sum_scores (tally factors total rest).0 ≡ sum_scores factors + sum_points rest)
unfolding tally
tally_sum factors total [] h = (omega arith, omega arith)
tally_sum factors total (none ∷ rest) h =
    let ih = tally_sum factors total rest (omega arith) in (omega arith, omega arith)
tally_sum factors total (some f ∷ rest) h =
    let ih = tally_sum (factors ++ f ∷ []) (add_u32 total f.score) rest (omega arith) in
    (omega arith, omega (arith, sum_scores-append factors (f ∷ [])))

pub device_risk-le :
    (chrono : Chrono) (now : DateTime) (d : DeviceFingerprint)
    → calculate_device_risk chrono now d ≤ 60
unfolding calculate_device_risk
device_risk-le chrono now d = ground arith

pub points-device :
    (chrono : Chrono) (now : DateTime) (c : RiskContext)
    → points (device_factor chrono now c) ≡ calculate_device_risk chrono now c.device
unfolding device_factor
points-device chrono now c = ground arith

pub points-time-le :
    (chrono : Chrono) (c : RiskContext) → points (calculate_time_risk chrono c) ≤ 15
unfolding calculate_time_risk
points-time-le chrono c = ground arith

pub points-ip-le : (c : RiskContext) → points (calculate_ip_change_risk c) ≤ 20
unfolding calculate_ip_change_risk
points-ip-le c = ground arith

pub points-session :
    (c : RiskContext) → points (session_factor c) ≡ calculate_session_age_risk c.session_age_minutes
unfolding session_factor
points-session c = ground arith

points-session-le : (c : RiskContext) → points (session_factor c) ≤ 30
unfolding calculate_session_age_risk
points-session-le c = ground (arith, points-session c)

points-attempts-le : (c : RiskContext) → points (attempts_factor c) ≤ 60
unfolding attempts_factor calculate_failed_attempts_risk
points-attempts-le c = ground arith

-- The sum of the six factors.
pub risk_sum : Chrono → DateTime → RiskContext → ℕ
risk_sum chrono now c = sum_points (all_factors chrono now c)

pub risk_sum_lem :
    (chrono : Chrono) (now : DateTime) (c : RiskContext)
    → risk_sum chrono now c
      ≡ calculate_device_risk chrono now c.device
        + points (attempts_factor c)
        + points (calculate_time_risk chrono c)
        + points (calculate_ip_change_risk c)
        + points (session_factor c)
unfolding risk_sum all_factors calculate_geo_risk
risk_sum_lem chrono now c = omega (arith, points-device chrono now c)

pub risk_sum-le : (chrono : Chrono) (now : DateTime) (c : RiskContext) → risk_sum chrono now c ≤ 185
risk_sum-le chrono now c = omega (
  arith,
  risk_sum_lem chrono now c,
  device_risk-le chrono now c.device,
  points-attempts-le c,
  points-time-le chrono c,
  points-ip-le c,
  points-session-le c,
)

-- `calculate_risk` always answers, its total is the sum of the scores of the factors that it
-- reports, capped at 100, and that sum is at most 185, so no `u32` addition wraps around.
pub calculate_risk_total :
    (chrono : Chrono) (now : DateTime) (engine : RiskEngine) (c : RiskContext)
    → (r : RiskScore) × (calculate_risk chrono now engine c ≡ ok r)
      × (r.total_score ≡ min (sum_scores r.factors) 100)
      × (sum_scores r.factors ≤ 185)
unfolding calculate_risk risk_sum
calculate_risk_total chrono now engine c =
    let bound = risk_sum-le chrono now c in
    let t = tally_sum [] 0 (all_factors chrono now c) (omega arith) in
    (_, refl, rw (t.0, t.1) refl, omega arith)

-- The total in terms of the sum of the factors.
pub calculate_risk-total_score :
    (chrono : Chrono) (now : DateTime) (engine : RiskEngine) (c : RiskContext) (r : RiskScore)
    → calculate_risk chrono now engine c ≡ ok r
    → (r.total_score ≡ min (risk_sum chrono now c) 100)
      × (r.level ≡ risk_level r.total_score)
      × (r.recommendation ≡ recommend engine r.total_score)
unfolding calculate_risk risk_sum
calculate_risk-total_score chrono now engine c r e =
    let bound = risk_sum-le chrono now c in
    let t = tally_sum [] 0 (all_factors chrono now c) (omega arith) in
    (ground arith, ground arith, ground arith)
