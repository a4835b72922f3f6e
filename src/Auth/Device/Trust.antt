-- ===== src/Auth/Device/Trust.antt =====
-- src/auth/device.rs: the trust score under any sequence of updates.
use zero_trust_proxy.Common.{ℕ, ◌-◌, ◌^◌, ◌≤◌, ◌<◌, String, ◌≡◌, List, [], ◌∷◌, All, leb, arith}
use zero_trust_proxy.Clock.{DateTime}
use zero_trust_proxy.Auth.Device.{
  DeviceFingerprint, DeviceMetadata, Sha256, new, increase_trust, decrease_trust, update_last_seen,
}

-- The score is a percentage, and the device is trusted exactly from 70 on.
pub record IsConsistent (d : DeviceFingerprint) : Type 0 where
  pub in_range : d.trust_score ≤ 100
  pub flag : d.is_trusted ≡ leb 70 d.trust_score

pub data TrustEvent : Type 0 where
  increases decreases : ℕ → TrustEvent
  seen : DateTime → TrustEvent

-- The calls that the login handler makes on a device, in any order.
unfoldable pub apply : DeviceFingerprint → TrustEvent → DeviceFingerprint
apply d (increases amount) = increase_trust d amount
apply d (decreases amount) = decrease_trust d amount
apply d (seen now) = update_last_seen d now

unfoldable pub apply_all : DeviceFingerprint → List TrustEvent → DeviceFingerprint
apply_all d [] = d
apply_all d (e ∷ es) = apply_all (apply d e) es

-- An amount that cannot make the `u32` addition wrap around from a score of at most 100.
abbrev pub IsModest : TrustEvent → Type 0
IsModest (increases amount) = amount < 2 ^ 32 - 100
IsModest (decreases amount) = Unit
IsModest (seen now) = Unit

pub new-IsConsistent :
    (h : Sha256) (id : String) (first last : DateTime) (user agent ip : String) (m : DeviceMetadata)
    → IsConsistent (new h id first last user agent ip m)
unfolding new
new-IsConsistent h id first last user agent ip m = ground arith

pub increase_trust-IsConsistent :
    (d : DeviceFingerprint) (amount : ℕ)
    → amount < 2 ^ 32 - 100
    → IsConsistent d
    → IsConsistent (increase_trust d amount)
unfolding increase_trust
increase_trust-IsConsistent d amount h v = ground arith

pub decrease_trust-IsConsistent :
    (d : DeviceFingerprint) (amount : ℕ) → IsConsistent d → IsConsistent (decrease_trust d amount)
unfolding decrease_trust
decrease_trust-IsConsistent d amount v = ground arith

apply-IsConsistent :
    (d : DeviceFingerprint) (e : TrustEvent)
    → IsModest e
    → IsConsistent d
    → IsConsistent (apply d e)
unfolding apply update_last_seen
apply-IsConsistent d (increases amount) h v = increase_trust-IsConsistent d amount h v
apply-IsConsistent d (decreases amount) h v = decrease_trust-IsConsistent d amount v
apply-IsConsistent d (seen now) h v = ground arith

-- From a device that is consistent, any sequence of trust updates with amounts below 2^32 - 100
-- leaves a device whose score is at most 100 and that is trusted exactly if its score is 70 or more.
pub apply_all-IsConsistent :
    (d : DeviceFingerprint) (es : List TrustEvent)
    → All IsModest es
    → IsConsistent d
    → IsConsistent (apply_all d es)
unfolding apply_all
apply_all-IsConsistent d [] h v = v
apply_all-IsConsistent d (e ∷ es) h v =
    apply_all-IsConsistent (apply d e) es h.1 (apply-IsConsistent d e h.0 v)
