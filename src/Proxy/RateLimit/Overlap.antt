-- ===== src/Proxy/RateLimit/Overlap.antt =====
-- src/proxy/mod.rs: calls of `check_rate_limit` that overlap. A call is cut at its awaits, the
-- `INCR` and the `EXPIRE`; a schedule says which call goes on next.
pub mod Bound
pub mod Fair
pub mod Stuck
use zero_trust_proxy.Common.{
  ℕ, zero, suc, ◌+◌, ◌≡◌, refl, String, Bool, true, false, ◌&&◌, List, [], ◌∷◌, arith, eqb, inl,
  inr, Bool-cases, if◌then◌else◌,
}
use zero_trust_proxy.Common.Int.{ℤ, pos, ltb_ℤ, eqb_ℤ}
use zero_trust_proxy.Error.{
  Result, ok, err, ProxyResult, redis_error, rate_limit_exceeded, Result-cases,
}
use zero_trust_proxy.World.{Redis, World}
use zero_trust_proxy.Audit.{Texts}
use zero_trust_proxy.Risk.{IpAddr}
use zero_trust_proxy.Proxy.RateLimit.{rate_key, check_rate_limit}

-- Where a call is: before its `INCR`, before its `EXPIRE`, or at its answer.
pub data Call : Type 0 where
  waiting : Call
  expiring : ℤ → Call
  ended : ProxyResult (Unit {0}) → Call

module _ {Store : Type 0} (redis : Redis Store) (texts : Texts) (remote : IpAddr) (bucket : String)
    (limit window_secs : ℤ) where
  abbrev pub judged : ℤ → Call
  judged count = ended (if ltb_ℤ limit count then err rate_limit_exceeded else ok tt)

  abbrev after_incr : Result String ℤ × Store → Call × Store
  after_incr (err e, s) = (ended (err (redis_error e)), s)
  after_incr (ok count, s) = (if eqb_ℤ count (pos 1) then expiring count else judged count, s)

  abbrev after_expire : ℤ → Result String (Unit {0}) × Store → Call × Store
  after_expire count (err e, s) = (ended (err (redis_error e)), s)
  after_expire count (ok done, s) = (judged count, s)

  -- One command, and what follows up to the next await.
  unfoldable pub advance : Call → Store → Call × Store
  advance waiting s = after_incr (redis.incr (rate_key texts remote bucket) 1 s)
  advance (expiring count) s =
      after_expire count (redis.expire (rate_key texts remote bucket) window_secs s)
  advance (ended r) s = (ended r, s)

  -- The call at an index goes on.
  unfoldable pub advance_at : ℕ → List Call → Store → List Call × Store
  advance_at i [] s = ([], s)
  advance_at zero (c ∷ calls) s = let (c', s') = advance c s in (c' ∷ calls, s')
  advance_at (suc i) (c ∷ calls) s = let (calls', s') = advance_at i calls s in (c ∷ calls', s')

  unfoldable pub interleave : List ℕ → List Call → Store → List Call × Store
  interleave [] calls s = (calls, s)
  interleave (i ∷ schedule) calls s =
      let (calls', s') = advance_at i calls s in interleave schedule calls' s'

  -- A call that nothing interrupts is the function.
  pub advance-check_rate_limit :
      (w : World Store)
      → let (c, s) = advance waiting w.redis in
        advance c s ≡ (
          ended (check_rate_limit redis texts remote bucket limit window_secs w).0,
          (check_rate_limit redis texts remote bucket limit window_secs w).1.redis,
        )
  unfolding advance check_rate_limit
  advance-check_rate_limit w = ground arith

unfoldable pub arrivals : ℕ → List Call
arrivals zero = []
arrivals (suc n) = waiting ∷ arrivals n

abbrev pub has_passed : Call → Bool
has_passed (ended (ok _)) = true
has_passed _ = false

-- Whether a call has ended in an error of Redis, so neither let through nor refused by the limit.
abbrev pub has_failed : Call → Bool
has_failed (ended (err (redis_error e))) = true
has_failed _ = false

abbrev pub has_ended : Call → Bool
has_ended (ended r) = true
has_ended _ = false

unfoldable pub count_passed : List Call → ℕ
count_passed [] = 0
count_passed (c ∷ calls) = (if has_passed c then 1 else 0) + count_passed calls

unfoldable pub count_failed : List Call → ℕ
count_failed [] = 0
count_failed (c ∷ calls) = (if has_failed c then 1 else 0) + count_failed calls

unfoldable pub all_ended : List Call → Bool
all_ended [] = true
all_ended (c ∷ calls) = has_ended c && all_ended calls
