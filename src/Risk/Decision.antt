-- ===== src/Risk/Decision.antt =====
-- src/risk/mod.rs: what the score decides, and that worse circumstances never lower it.
use zero_trust_proxy.Common.{ℕ, ◌≤◌, ◌<◌, ◌≡◌, ◌↔◌, true, arith, ap}
use zero_trust_proxy.Common.Int.{◌≤ℤ◌}
use zero_trust_proxy.Clock.{DateTime, Chrono}
use zero_trust_proxy.Error.{ok}
use zero_trust_proxy.Auth.Device.{DeviceFingerprint}
use zero_trust_proxy.Risk.{
  RiskContext, RiskScore, RiskEngine, low, medium, high, critical, allow, step_up_auth, block,
  calculate_device_risk, calculate_failed_attempts_risk, calculate_session_age_risk,
  calculate_time_risk, calculate_ip_change_risk, attempts_factor, session_factor, risk_level,
  recommend, calculate_risk,
}
use zero_trust_proxy.Risk.Bounds.{
  points, points-session, risk_sum, risk_sum_lem, calculate_risk-total_score,
}

recommend_exact :
    (engine : RiskEngine) (total : ℕ)
    → ((recommend engine total ≡ block) ↔ (engine.block_threshold ≤ total))
      × ((recommend engine total ≡ step_up_auth)
          ↔ ((total < engine.block_threshold) × (engine.step_up_threshold ≤ total)))
      × ((recommend engine total ≡ allow)
          ↔ ((total < engine.block_threshold) × (total < engine.step_up_threshold)))
unfolding recommend
recommend_exact engine total = ground arith

risk_level_exact :
    (total : ℕ)
    → ((risk_level total ≡ low) ↔ (total ≤ 30))
      × ((risk_level total ≡ medium) ↔ ((30 < total) × (total ≤ 60)))
      × ((risk_level total ≡ high) ↔ ((60 < total) × (total ≤ 85)))
      × ((risk_level total ≡ critical) ↔ (85 < total))
unfolding risk_level
risk_level_exact total = ground arith

-- The score of any context is at most 100; it is blocked exactly from the block threshold on, and
-- stepped up exactly from the step-up threshold up to there; its level is low up to 30, medium up
-- to 60, high up to 85 and critical above.
pub calculate_risk_decides :
    (chrono : Chrono) (now : DateTime) (engine : RiskEngine) (c : RiskContext) (r : RiskScore)
    → calculate_risk chrono now engine c ≡ ok r
    → (r.total_score ≤ 100)
      × ((r.recommendation ≡ block) ↔ (engine.block_threshold ≤ r.total_score))
      × ((r.recommendation ≡ step_up_auth)
          ↔ ((r.total_score < engine.block_threshold) × (engine.step_up_threshold ≤ r.total_score)))
      × ((r.level ≡ low) ↔ (r.total_score ≤ 30))
      × ((r.level ≡ medium) ↔ ((30 < r.total_score) × (r.total_score ≤ 60)))
      × ((r.level ≡ high) ↔ ((60 < r.total_score) × (r.total_score ≤ 85)))
      × ((r.level ≡ critical) ↔ (85 < r.total_score))
calculate_risk_decides chrono now engine c r e =
    let (total, level, recommendation) = calculate_risk-total_score chrono now engine c r e in
    let d = recommend_exact engine r.total_score in
    let l = risk_level_exact r.total_score in
    (
      rw total (ground arith),
      rw recommendation d.0,
      rw recommendation d.1,
      rw level l.0,
      rw level l.1,
      rw level l.2,
      rw level l.3,
    )

-- `d` is no more trustworthy than `c`: seen first at the same time, with no higher score, and
-- trusted only if `c` is.
pub record IsLessTrusted (d c : DeviceFingerprint) : Type 0 where
  pub first_seen : d.first_seen ≡ c.first_seen
  pub score : d.trust_score ≤ c.trust_score
  pub flag : d.is_trusted ≡ true → c.is_trusted ≡ true

-- `d` differs from `c` for the worse only: more failed attempts, an older session, a less trusted
-- device.
pub record IsWorse (d c : RiskContext) : Type 0 where
  pub device : IsLessTrusted d.device c.device
  pub timestamp : d.timestamp ≡ c.timestamp
  pub ip_address : d.ip_address ≡ c.ip_address
  pub previous_ip : d.previous_ip ≡ c.previous_ip
  pub session_age : c.session_age_minutes ≤ℤ d.session_age_minutes
  pub failed_attempts : c.failed_attempts ≤ d.failed_attempts

device_mono :
    (chrono : Chrono) (now : DateTime) (d c : DeviceFingerprint)
    → IsLessTrusted d c
    → calculate_device_risk chrono now c ≤ calculate_device_risk chrono now d
unfolding calculate_device_risk
device_mono chrono now d c w = rw w.first_seen (ground arith)

attempts_mono :
    (d c : RiskContext)
    → c.failed_attempts ≤ d.failed_attempts
    → points (attempts_factor c) ≤ points (attempts_factor d)
unfolding attempts_factor calculate_failed_attempts_risk
attempts_mono d c h = ground arith

session_mono :
    (d c : RiskContext)
    → c.session_age_minutes ≤ℤ d.session_age_minutes
    → points (session_factor c) ≤ points (session_factor d)
unfolding calculate_session_age_risk
session_mono d c h = ground (arith, points-session c, points-session d)

time_same :
    (chrono : Chrono) (d c : RiskContext)
    → d.timestamp ≡ c.timestamp
    → calculate_time_risk chrono d ≡ calculate_time_risk chrono c
unfolding calculate_time_risk
time_same chrono d c h = rw h

ip_same :
    (d c : RiskContext)
    → d.previous_ip ≡ c.previous_ip
    → d.ip_address ≡ c.ip_address
    → calculate_ip_change_risk d ≡ calculate_ip_change_risk c
unfolding calculate_ip_change_risk
ip_same d c p q = rw (p, q)

-- At one reading of the clock, more failed attempts, an older session or a less trusted device
-- never lower the total score.
pub calculate_risk_mono :
    (chrono : Chrono) (now : DateTime) (engine : RiskEngine) (c d : RiskContext) (r s : RiskScore)
    → IsWorse d c
    → calculate_risk chrono now engine c ≡ ok r
    → calculate_risk chrono now engine d ≡ ok s
    → r.total_score ≤ s.total_score
calculate_risk_mono chrono now engine c d r s w er es =
    let tr = (calculate_risk-total_score chrono now engine c r er).0 in
    let ts = (calculate_risk-total_score chrono now engine d s es).0 in
    let sums : risk_sum chrono now c ≤ risk_sum chrono now d = omega (
      arith,
      risk_sum_lem chrono now c,
      risk_sum_lem chrono now d,
      device_mono chrono now d.device c.device w.device,
      attempts_mono d c w.failed_attempts,
      session_mono d c w.session_age,
      ap points (time_same chrono d c w.timestamp),
      ap points (ip_same d c w.previous_ip w.ip_address),
    ) in
    rw (tr, ts) (ground arith)
