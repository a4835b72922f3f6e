-- ===== src/Proxy/RateLimit/Overlap/Stuck.antt =====
-- src/proxy/mod.rs: the time to live of a counter of `check_rate_limit` once it has been
-- incremented. `expire` is the `EXPIRE` of a Redis that is otherwise the same.
use zero_trust_proxy.Common.{
  ℕ, zero, suc, ◌≤◌, ◌≡◌, refl, ap, ◌∙◌, inl, inr, String, Bool, true, false, List, [], ◌∷◌, arith,
  All,
}
use zero_trust_proxy.Common.Int.{ℤ}
use zero_trust_proxy.Error.{Result, Result-cases}
use zero_trust_proxy.World.{Redis}
use zero_trust_proxy.World.Laws.{CounterLaws}
use zero_trust_proxy.Audit.{Texts}
use zero_trust_proxy.Risk.{IpAddr}
use zero_trust_proxy.Proxy.RateLimit.{rate_key}
use zero_trust_proxy.Proxy.RateLimit.Overlap.{
  Call, waiting, expiring, ended, advance, advance_at, interleave, arrivals,
}

is_expiring : Call → Bool
is_expiring (expiring count) = true
is_expiring _ = false

abbrev NoExpiring : List Call → Type 0
NoExpiring calls = All (λ c. is_expiring c ≡ false) calls

arrivals-NoExpiring : (n : ℕ) → NoExpiring (arrivals n)
unfolding arrivals is_expiring
arrivals-NoExpiring zero = tt
arrivals-NoExpiring (suc n) = (refl, arrivals-NoExpiring n)

module _ {Store : Type 0} (redis : Redis Store)
    (expire : String → ℤ → Store → Result String (Unit {0}) × Store) (texts : Texts)
    (remote : IpAddr) (bucket : String) (limit window_secs : ℤ) (count : Store → String → ℕ)
    (laws : CounterLaws redis count) where
  abbrev key : String
  key = rate_key texts remote bucket

  abbrev pub replaced : Redis Store
  replaced = record redis { expire = expire }

  advance-past :
      (c : Call) (s : Store)
      → is_expiring c ≡ false
      → 1 ≤ count s key
      → let (c', s') = advance redis texts remote bucket limit window_secs c s in
        (advance replaced texts remote bucket limit window_secs c s ≡ (c', s'))
        × (is_expiring c' ≡ false)
        × (1 ≤ count s' key)
  unfolding advance is_expiring
  advance-past waiting s h past = elim (Result-cases (redis.incr key 1 s).0) [
    | inl (v, q) ↦
        let answer = laws.incr_answer key v s q in
        let counted = laws.incr_count key v s q in (refl, ground arith, ground arith)
    | inr (e, q) ↦ let counted = laws.incr_failed key e s q in (refl, ground arith, ground arith)
  ]
  advance-past (expiring n) s h past = absurd (ground arith)
  advance-past (ended r) s h past = (refl, refl, past)

  advance_at-past :
      (i : ℕ) (calls : List Call) (s : Store)
      → NoExpiring calls
      → 1 ≤ count s key
      → let (calls', s') = advance_at redis texts remote bucket limit window_secs i calls s in
        (advance_at replaced texts remote bucket limit window_secs i calls s ≡ (calls', s'))
        × NoExpiring calls'
        × (1 ≤ count s' key)
  unfolding advance_at
  advance_at-past i [] s none past = (refl, tt, past)
  advance_at-past zero (c ∷ calls) s (h, none) past =
      let (same, idle, later) = advance-past c s h past in
      (ap (λ r. (r.0 ∷ calls, r.1)) same, (idle, none), later)
  advance_at-past (suc i) (c ∷ calls) s (h, none) past =
      let (same, idle, later) = advance_at-past i calls s none past in
      (ap (λ r. (c ∷ r.0, r.1)) same, (h, idle), later)

  interleave-past :
      (schedule : List ℕ) (calls : List Call) (s : Store)
      → NoExpiring calls
      → 1 ≤ count s key
      → interleave replaced texts remote bucket limit window_secs schedule calls s
        ≡ interleave redis texts remote bucket limit window_secs schedule calls s
  unfolding interleave
  interleave-past [] calls s none past = refl
  interleave-past (i ∷ schedule) calls s none past =
      let (same, idle, later) = advance_at-past i calls s none past in
      let (calls', s') = advance_at redis texts remote bucket limit window_secs i calls s in
      ap (λ r. interleave replaced texts remote bucket limit window_secs schedule r.0 r.1) same
      ∙ interleave-past schedule calls' s' idle later

  -- Once the counter of a bucket and address has been incremented, and while it does not run out,
  -- no later call sends an EXPIRE: however n calls overlap, their answers and the store are the
  -- same with any other EXPIRE in the place of that of Redis, if an INCR that is answered gives
  -- the number of increments and one that fails is done or not.
  pub interleave-arrivals :
      (n : ℕ) (schedule : List ℕ) (s : Store)
      → 1 ≤ count s (rate_key texts remote bucket)
      → interleave replaced texts remote bucket limit window_secs schedule (arrivals n) s
        ≡ interleave redis texts remote bucket limit window_secs schedule (arrivals n) s
  interleave-arrivals n schedule s past =
      interleave-past schedule (arrivals n) s (arrivals-NoExpiring n) past
