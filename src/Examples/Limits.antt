-- ===== src/Examples/Limits.antt =====
-- The rate limiter over a store of counters.
use zero_trust_proxy.Common.{
  ℕ, zero, suc, ◌≤◌, ◌<◌, List, ◌∷◌, true, [], ◌≡◌, refl, String, ◌+◌, ◌==◌, eq_refl, arith,
  if◌then◌else◌, none,
}
use zero_trust_proxy.Common.Int.{ℤ, pos}
use zero_trust_proxy.Error.{Result, ok, err}
use zero_trust_proxy.World.{Redis}
use zero_trust_proxy.World.Laws.{CounterLaws}
use zero_trust_proxy.Proxy.RateLimit.Overlap.{
  interleave, arrivals, count_passed, count_failed, all_ended,
}
use zero_trust_proxy.Proxy.RateLimit.Overlap.Stuck.{interleave-arrivals}
use zero_trust_proxy.Proxy.RateLimit.Overlap.Fair.{occurrences, overlapping_calls_ended}
use zero_trust_proxy.Examples.Fixtures.{platform, remote}

abbrev Counters : Type 0
Counters = String → ℕ

-- A Redis of counters only, in which nothing runs out and `EXPIRE` fails.
unfoldable counting : Redis Counters
counting = record {
  get = λ k s. (ok none, s);
  set_ex = λ k v ttl s. (ok tt, s);
  del = λ k s. (ok tt, s);
  scan_match = λ pattern s. (ok [], s);
  incr = λ k n s. (ok (pos (s k + n)), λ j. if j == k then s j + n else s j);
  expire = λ k n s. (err "connection reset", s);
}

counting-CounterLaws : CounterLaws counting (λ s k. s k)
unfolding counting
counting-CounterLaws = record {
  incr_answer = λ k v s h. ground arith;
  incr_count = λ k v s h. ground (arith, eq_refl k);
  incr_failed = λ k e s h. absurd (ground arith);
  expire_count = λ k n s. refl;
}

-- No call has come yet.
abbrev untouched : Counters
untouched k = 0

-- Seven calls have come already.
abbrev counters : Counters
counters k = 7

-- The second call overtakes the first one, whose `EXPIRE` fails, and the third comes too late.
abbrev schedule : List ℕ
schedule = 0 ∷ 1 ∷ 1 ∷ 2 ∷ 0 ∷ 2 ∷ []

two_turns : (i : ℕ) → i < 3 → 2 ≤ occurrences i schedule
unfolding occurrences
two_turns zero h = omega arith
two_turns (suc zero) h = omega arith
two_turns (suc (suc zero)) h = omega arith
two_turns (suc (suc (suc i))) h = absurd (omega arith)

overlapping_calls_ended_example :
    let (calls, s') =
      interleave counting platform.texts remote "login"
        (pos 2)
        (pos 300)
        schedule
        (arrivals 3)
        untouched in
    (all_ended calls ≡ true)
    × (count_passed calls ≤ 2)
    × (2 ≤ count_passed calls + count_failed calls)
overlapping_calls_ended_example =
    overlapping_calls_ended counting platform.texts remote "login" 2 299 (λ s k. s k)
      counting-CounterLaws 3 schedule untouched two_turns

-- An `EXPIRE` that is answered.
abbrev answered : String → ℤ → Counters → Result String (Unit {0}) × Counters
answered k n s = (ok tt, s)

interleave-arrivals_example :
    interleave
      (record counting { expire = answered })
      platform.texts
      remote
      "login"
      (pos 9)
      (pos 300)
      schedule
      (arrivals 3)
      counters
    ≡ interleave counting platform.texts remote "login"
        (pos 9)
        (pos 300)
        schedule
        (arrivals 3)
        counters
interleave-arrivals_example =
    interleave-arrivals counting answered platform.texts remote "login" (pos 9) (pos 300)
      (λ s k. s k) counting-CounterLaws 3 schedule counters (omega arith)
