-- ===== src/Proxy/RateLimit/Overlap/Fair.antt =====
-- src/proxy/mod.rs: overlapping calls of `check_rate_limit`, each of which goes on until it ends.
use zero_trust_proxy.Common.{
  ℕ, zero, suc, ◌+◌, ◌-◌, ◌≤◌, ◌<◌, ◌≡◌, refl, String, true, List, [], ◌∷◌, length, arith, min, eqb,
  if◌then◌else◌,
}
use zero_trust_proxy.Common.Int.{ℤ, pos}
use native.Mathlib.Decide.{dec_lt}
use zero_trust_proxy.Error.{ok, err}
use zero_trust_proxy.World.{Redis}
use zero_trust_proxy.Audit.{Texts}
use zero_trust_proxy.Risk.{IpAddr}
use zero_trust_proxy.Proxy.RateLimit.{rate_key}
use zero_trust_proxy.World.Laws.{CounterLaws}
use zero_trust_proxy.Proxy.RateLimit.Overlap.{
  Call, waiting, expiring, ended, advance, advance_at, interleave, arrivals, count_passed,
  all_ended, has_failed, count_failed,
}
use zero_trust_proxy.Proxy.RateLimit.Overlap.Bound.{
  tally, has_started, will_pass, interleave-IsFilled, arrivals-IsFilled, overlapping_calls_passed,
}

unfoldable pub occurrences : ℕ → List ℕ → ℕ
occurrences i [] = 0
occurrences i (j ∷ js) = (if eqb i j then 1 else 0) + occurrences i js

-- The commands that a call has before it at most.
abbrev commands_left : Call → ℕ
commands_left waiting = 2
commands_left (expiring count) = 1
commands_left (ended r) = 0

unfoldable left_at : ℕ → List Call → ℕ
left_at i [] = 0
left_at zero (c ∷ calls) = commands_left c
left_at (suc i) (c ∷ calls) = left_at i calls

left_at-arrivals : (i n : ℕ) → i < n → left_at i (arrivals n) ≤ 2
unfolding left_at arrivals
left_at-arrivals zero (suc n) h = ground arith
left_at-arrivals (suc i) (suc n) h = left_at-arrivals i n (omega arith)
left_at-arrivals i zero h = absurd (omega arith)

left_at-arrivals_beyond : (i n : ℕ) → n ≤ i → left_at i (arrivals n) ≡ 0
unfolding left_at arrivals
left_at-arrivals_beyond i zero h = refl
left_at-arrivals_beyond (suc i) (suc n) h = left_at-arrivals_beyond i n (omega arith)
left_at-arrivals_beyond zero (suc n) h = absurd (omega arith)

none_left : (calls : List Call) → ((i : ℕ) → left_at i calls ≡ 0) → all_ended calls ≡ true
unfolding left_at all_ended
none_left [] h = refl
none_left (waiting ∷ calls) h = absurd (let q = h 0 in ground arith)
none_left (expiring n ∷ calls) h = absurd (let q = h 0 in ground arith)
none_left (ended r ∷ calls) h = none_left calls (λ i. h (suc i))

-- What the tallies of calls that have ended are.
tally_ended :
    (limit : ℕ) (calls : List Call)
    → all_ended calls ≡ true
    → (tally has_started calls ≡ length calls)
      × (tally (will_pass limit) calls ≡ count_passed calls)
      × (tally has_failed calls ≡ count_failed calls)
unfolding all_ended tally count_passed count_failed
tally_ended limit [] h = (refl, refl, refl)
tally_ended limit (waiting ∷ calls) h = absurd (ground arith)
tally_ended limit (expiring n ∷ calls) h = absurd (ground arith)
tally_ended limit (ended (ok u) ∷ calls) h =
    let (a, b, d) = tally_ended limit calls h in (ground arith, ground arith, ground arith)
tally_ended limit (ended (err e) ∷ calls) h =
    let (a, b, d) = tally_ended limit calls h in (ground arith, ground arith, ground arith)

length-arrivals : (n : ℕ) → length (arrivals n) ≡ n
unfolding arrivals
length-arrivals zero = refl
length-arrivals (suc n) = omega (arith, length-arrivals n)

module _ {Store : Type 0} (redis : Redis Store) (texts : Texts) (remote : IpAddr) (bucket : String)
    (limit window : ℤ) where
  commands_left-advance :
      (c : Call) (s : Store)
      → commands_left (advance redis texts remote bucket limit window c s).0 ≤ commands_left c - 1
  unfolding advance
  commands_left-advance waiting s = ground arith
  commands_left-advance (expiring n) s = ground arith
  commands_left-advance (ended r) s = ground arith

  left_at-advance_at :
      (i j : ℕ) (calls : List Call) (s : Store)
      → left_at i (advance_at redis texts remote bucket limit window j calls s).0
        ≤ left_at i calls - (if eqb i j then 1 else 0)
  unfolding left_at advance_at
  left_at-advance_at i j [] s = ground arith
  left_at-advance_at zero zero (c ∷ calls) s = ground (arith, commands_left-advance c s)
  left_at-advance_at (suc i) zero (c ∷ calls) s = ground arith
  left_at-advance_at zero (suc j) (c ∷ calls) s = ground arith
  left_at-advance_at (suc i) (suc j) (c ∷ calls) s = ground (arith, left_at-advance_at i j calls s)

  length-advance_at :
      (j : ℕ) (calls : List Call) (s : Store)
      → length (advance_at redis texts remote bucket limit window j calls s).0 ≡ length calls
  unfolding advance_at
  length-advance_at j [] s = refl
  length-advance_at zero (c ∷ calls) s = refl
  length-advance_at (suc j) (c ∷ calls) s = ground (arith, length-advance_at j calls s)

  left_at-interleave :
      (i : ℕ) (schedule : List ℕ) (calls : List Call) (s : Store)
      → left_at i (interleave redis texts remote bucket limit window schedule calls s).0
        ≤ left_at i calls - occurrences i schedule
  unfolding interleave occurrences
  left_at-interleave i [] calls s = ground arith
  left_at-interleave i (j ∷ schedule) calls s =
      let (calls', s') = advance_at redis texts remote bucket limit window j calls s in
      let step = left_at-advance_at i j calls s in
      let rest = left_at-interleave i schedule calls' s' in ground arith

  length-interleave :
      (schedule : List ℕ) (calls : List Call) (s : Store)
      → length (interleave redis texts remote bucket limit window schedule calls s).0 ≡ length calls
  unfolding interleave
  length-interleave [] calls s = refl
  length-interleave (j ∷ schedule) calls s =
      let (calls', s') = advance_at redis texts remote bucket limit window j calls s in
      ground (arith, length-advance_at j calls s, length-interleave schedule calls' s')

  all_ended-interleave :
      (n : ℕ) (schedule : List ℕ) (s : Store)
      → ((i : ℕ) → i < n → 2 ≤ occurrences i schedule)
      → all_ended (interleave redis texts remote bucket limit window schedule (arrivals n) s).0
        ≡ true
  all_ended-interleave n schedule s fair = none_left _ λ i. at_index i
    where
      at_index :
          (i : ℕ)
          → left_at i (interleave redis texts remote bucket limit window schedule (arrivals n) s).0
            ≡ 0
      at_index i = elim (dec_lt i n) [
        | yes below ↦ omega (
          arith,
          fair i below,
          left_at-arrivals i n below,
          left_at-interleave i schedule (arrivals n) s,
        )
        | no above ↦ omega (
          arith,
          left_at-arrivals_beyond i n (omega arith),
          left_at-interleave i schedule (arrivals n) s,
        )
      ]

module _ {Store : Type 0} (redis : Redis Store) (texts : Texts) (remote : IpAddr) (bucket : String)
    (limit window : ℕ) (count : Store → String → ℕ) (laws : CounterLaws redis count) where
  -- While the counter of a bucket and address does not run out, however n calls for it overlap and
  -- whichever commands of Redis fail, a schedule that gives each call two turns ends all of them;
  -- from a counter at c at most limit - c of them have passed, and those that have passed or ended
  -- in an error of Redis are at least min n (limit - c), if the window is positive, an INCR that
  -- is answered gives the number of increments, one that fails is done or not, and an EXPIRE keeps
  -- that number.
  pub overlapping_calls_ended :
      (n : ℕ) (schedule : List ℕ) (s : Store)
      → ((i : ℕ) → i < n → 2 ≤ occurrences i schedule)
      → let c = count s (rate_key texts remote bucket) in
        let (calls, s') =
          interleave redis texts remote bucket
            (pos limit)
            (pos (suc window))
            schedule
            (arrivals n)
            s in
        (all_ended calls ≡ true)
        × (count_passed calls ≤ limit - c)
        × (min n (limit - c) ≤ count_passed calls + count_failed calls)
  overlapping_calls_ended n schedule s fair =
      let seconds = pos (suc window) in
      let (calls, s') =
        interleave redis texts remote bucket (pos limit) seconds schedule (arrivals n) s in
      let done =
        all_ended-interleave redis texts remote bucket (pos limit) seconds n schedule s fair in
      let (a, b, d) = tally_ended limit calls done in
      let f =
        interleave-IsFilled redis texts remote bucket limit window count laws
          (count s (rate_key texts remote bucket)) schedule (arrivals n) s
          (arrivals-IsFilled redis texts remote bucket limit window count laws n s) in
      let filled = f.started in
      let same =
        length-interleave redis texts remote bucket (pos limit) seconds schedule (arrivals n) s in
      (
        done,
        overlapping_calls_passed redis texts remote bucket limit window count laws n schedule s,
        ground (arith, length-arrivals n),
      )
