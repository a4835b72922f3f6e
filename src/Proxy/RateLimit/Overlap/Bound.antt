-- ===== src/Proxy/RateLimit/Overlap/Bound.antt =====
-- src/proxy/mod.rs: how many overlapping calls of `check_rate_limit` pass before the window ends.
use zero_trust_proxy.Common.{
  ℕ, zero, suc, ◌+◌, ◌-◌, ◌≤◌, ◌≡◌, refl, ◌⊎◌, inl, inr, String, Bool, true, false, List, [], ◌∷◌,
  arith, min, ltb, if◌then◌else◌,
}
use zero_trust_proxy.Common.Int.{ℤ, pos, ltb_ℤ}
use zero_trust_proxy.Error.{ok, err, Result-cases}
use zero_trust_proxy.World.{Redis}
use zero_trust_proxy.Audit.{Texts}
use zero_trust_proxy.Risk.{IpAddr}
use zero_trust_proxy.Proxy.RateLimit.{rate_key}
use zero_trust_proxy.World.Laws.{CounterLaws}
use zero_trust_proxy.Proxy.RateLimit.Overlap.{
  Call, waiting, expiring, ended, advance, advance_at, interleave, arrivals, count_passed,
  has_failed,
}

-- Whether a call has made its `INCR`.
abbrev pub has_started : Call → Bool
has_started waiting = false
has_started _ = true

-- Whether a call has passed, or will when its `EXPIRE` is answered.
abbrev pub will_pass : ℕ → Call → Bool
will_pass limit waiting = false
will_pass limit (expiring count) = if ltb_ℤ (pos limit) count then false else true
will_pass limit (ended (ok _)) = true
will_pass limit (ended (err _)) = false

unfoldable pub tally : (Call → Bool) → List Call → ℕ
tally p [] = 0
tally p (c ∷ calls) = (if p c then 1 else 0) + tally p calls

module _ {Store : Type 0} (redis : Redis Store) (texts : Texts) (remote : IpAddr) (bucket : String)
    (limit window : ℕ) (count : Store → String → ℕ) (laws : CounterLaws redis count) where
  abbrev key : String
  key = rate_key texts remote bucket

  abbrev seconds : ℤ
  seconds = pos (suc window)

  -- What a step does to the numbers of calls that have started, that will pass and that have
  -- failed, and to the counter: nothing is counted, a call counts itself and passes if the counter
  -- is below the limit, or its `INCR` fails.
  abbrev Counts : (started passing failed before : ℕ) → List Call → Store → Type 0
  Counts started passing failed before calls s =
      ((tally has_started calls ≡ started)
        × (tally (will_pass limit) calls ≤ passing)
        × (passing + failed ≤ tally (will_pass limit) calls + tally has_failed calls)
        × (count s key ≡ before))
      ⊎ ((tally has_started calls ≡ suc started)
          × (tally (will_pass limit) calls ≡ passing + (if ltb before limit then 1 else 0))
          × (tally has_failed calls ≡ failed)
          × (count s key ≡ suc before))
      ⊎ ((tally has_started calls ≡ suc started)
          × (tally (will_pass limit) calls ≡ passing)
          × (tally has_failed calls ≡ suc failed)
          × (before ≤ count s key)
          × (count s key ≤ suc before))

  advance-Counts :
      (c : Call) (rest : List Call) (s : Store)
      → let calls = c ∷ rest in
        let (c', s') = advance redis texts remote bucket (pos limit) seconds c s in
        Counts
          (tally has_started calls)
          (tally (will_pass limit) calls)
          (tally has_failed calls)
          (count s key)
          (c' ∷ rest)
          s'
  unfolding tally advance
  advance-Counts waiting rest s = elim (Result-cases (redis.incr key 1 s).0) [
    | inl (v, q) ↦
        let answer = laws.incr_answer key v s q in
        let counted = laws.incr_count key v s q in
        inr (inl (ground arith, ground arith, ground arith, ground arith))
    | inr (e, q) ↦ elim (laws.incr_failed key e s q) [
      | inl same ↦ inr (inr (ground arith, ground arith, ground arith, ground arith, ground arith))
      | inr more ↦ inr (inr (ground arith, ground arith, ground arith, ground arith, ground arith))
    ]
  ]
  advance-Counts (expiring n) rest s =
      let kept = laws.expire_count key window s in
      elim (Result-cases (redis.expire key seconds s).0) [
        | inl (v, q) ↦ inl (ground arith, ground arith, ground arith, ground arith)
        | inr (e, q) ↦ inl (ground arith, ground arith, ground arith, ground arith)
      ]
  advance-Counts (ended r) rest s = inl (refl, omega arith, omega arith, refl)

  advance_at-Counts :
      (i : ℕ) (calls : List Call) (s : Store)
      → let (calls', s') = advance_at redis texts remote bucket (pos limit) seconds i calls s in
        Counts
          (tally has_started calls)
          (tally (will_pass limit) calls)
          (tally has_failed calls)
          (count s key)
          calls'
          s'
  unfolding tally advance_at
  advance_at-Counts i [] s = inl (refl, omega arith, omega arith, refl)
  advance_at-Counts zero (c ∷ calls) s = advance-Counts c calls s
  advance_at-Counts (suc i) (c ∷ calls) s = elim (advance_at-Counts i calls s) [
    | inl (a, b, f, d) ↦ inl (ground arith, ground arith, ground arith, d)
    | inr (inl (a, b, f, d)) ↦ inr (inl (ground arith, ground arith, ground arith, d))
    | inr (inr (a, b, f, d, e)) ↦ inr (inr (ground arith, ground arith, ground arith, d, e))
  ]

  -- The counter only grows; every call that passes has a count of its own up to the limit; and
  -- every count up to the limit, and every call that has started while there were such, is one that
  -- passes or that has failed.
  pub record IsFilled (start : ℕ) (calls : List Call) (s : Store) : Type 0 where
    pub above : start ≤ count s key
    pub passing : tally (will_pass limit) calls ≤ min (count s key) limit - start
    pub counted :
        min (count s key) limit ≤ start + (tally (will_pass limit) calls + tally has_failed calls)
    pub started :
        min (tally has_started calls) (limit - start)
        ≤ tally (will_pass limit) calls + tally has_failed calls

  advance_at-IsFilled :
      (start i : ℕ) (calls : List Call) (s : Store)
      → IsFilled start calls s
      → let (calls', s') = advance_at redis texts remote bucket (pos limit) seconds i calls s in
        IsFilled start calls' s'
  advance_at-IsFilled start i calls s f =
      let a0 = f.above in
      let p = f.passing in
      let c = f.counted in
      let t = f.started in
      elim (advance_at-Counts i calls s) [
        | inl (a, b, g, d) ↦ record {
          above = omega arith;
          passing = ground arith;
          counted = ground arith;
          started = ground arith;
        }
        | inr (inl (a, b, g, d)) ↦ record {
          above = omega arith;
          passing = ground arith;
          counted = ground arith;
          started = ground arith;
        }
        | inr (inr (a, b, g, d, e)) ↦ record {
          above = omega arith;
          passing = ground arith;
          counted = ground arith;
          started = ground arith;
        }
      ]

  pub interleave-IsFilled :
      (start : ℕ) (schedule : List ℕ) (calls : List Call) (s : Store)
      → IsFilled start calls s
      → let (calls', s') =
          interleave redis texts remote bucket (pos limit) seconds schedule calls s in
        IsFilled start calls' s'
  unfolding interleave
  interleave-IsFilled start [] calls s f = f
  interleave-IsFilled start (i ∷ schedule) calls s f =
      let (calls', s') = advance_at redis texts remote bucket (pos limit) seconds i calls s in
      interleave-IsFilled start schedule calls' s' (advance_at-IsFilled start i calls s f)

  pub arrivals-IsFilled : (n : ℕ) (s : Store) → IsFilled (count s key) (arrivals n) s
  unfolding tally arrivals
  arrivals-IsFilled n s =
      let (a, b) = none_yet n in
      record {
        above = omega arith;
        passing = ground arith;
        counted = ground arith;
        started = ground arith;
      }
    where
      none_yet :
          (n : ℕ)
          → (tally has_started (arrivals n) ≡ 0) × (tally (will_pass limit) (arrivals n) ≡ 0)
      none_yet zero = (refl, refl)
      none_yet (suc n) = let (a, b) = none_yet n in (ground arith, ground arith)

  passed_le : (calls : List Call) → count_passed calls ≤ tally (will_pass limit) calls
  unfolding count_passed tally
  passed_le [] = omega arith
  passed_le (waiting ∷ calls) = ground (arith, passed_le calls)
  passed_le (expiring n ∷ calls) = ground (arith, passed_le calls)
  passed_le (ended (ok u) ∷ calls) = ground (arith, passed_le calls)
  passed_le (ended (err e) ∷ calls) = ground (arith, passed_le calls)

  -- While the counter does not run out, however calls for one bucket and address overlap, from a
  -- counter at `c` at most `limit - c` of them have passed at any time.
  pub overlapping_calls_passed :
      (n : ℕ) (schedule : List ℕ) (s : Store)
      → count_passed
          (interleave redis texts remote bucket (pos limit) seconds schedule (arrivals n) s).0
        ≤ limit - count s key
  overlapping_calls_passed n schedule s =
      let (calls, s') =
        interleave redis texts remote bucket (pos limit) seconds schedule (arrivals n) s in
      let f = interleave-IsFilled (count s key) schedule (arrivals n) s (arrivals-IsFilled n s) in
      let q = f.passing in ground (arith, passed_le calls)
