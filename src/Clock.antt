-- ===== src/Clock.antt =====
-- Instants and durations of the `chrono` crate: counts of nanoseconds, since the Unix epoch for an
-- instant. The crate's conversions are a parameter, and its documentation is stated as laws.
use zero_trust_proxy.Common.{ℕ, ◌*◌, arith}
use zero_trust_proxy.Common.Int.{ℤ, pos, negsuc, ◌≤ℤ◌, ◌<ℤ◌, scale, tdiv, fdiv, fmod}

abbrev pub DateTime : Type 0
DateTime = ℤ

abbrev pub Duration : Type 0
Duration = ℤ

pub record Chrono : Type 0 where
  -- `Timelike::hour`.
  pub hour : DateTime → ℕ
  pub num_days : Duration → ℤ
  pub num_minutes : Duration → ℤ
  pub num_seconds : Duration → ℤ
  -- `Duration::minutes` and `Duration::hours`.
  pub minutes : ℤ → Duration
  pub hours : ℤ → Duration
  -- `DateTime::timestamp`, in seconds.
  pub timestamp : DateTime → ℤ

-- What is documented of the conversions, and used below.
pub record ChronoLaws (chrono : Chrono) : Type 0 where
  -- A duration shorter than a day is no whole day.
  pub num_days-lt : (d : Duration) → d <ℤ pos 86400000000000 → chrono.num_days d <ℤ pos 1
  -- A duration of at most `m` minutes has at most `m` whole minutes.
  pub num_minutes-le :
      (m : ℕ) (d : Duration) → d ≤ℤ chrono.minutes (pos m) → chrono.num_minutes d ≤ℤ pos m

abbrev pub second : ℕ
second = 1000000000

-- The conversions, written out: the value with which the laws are shown to hold.
abbrev pub utc : Chrono
utc = record {
  hour = λ t. fmod (fdiv t (3600 * second)) 24;
  num_days = λ d. tdiv d (86400 * second);
  num_minutes = λ d. tdiv d (60 * second);
  num_seconds = λ d. tdiv d second;
  minutes = scale (60 * second);
  hours = scale (3600 * second);
  timestamp = λ t. fdiv t second;
}

pub utc-ChronoLaws : ChronoLaws utc
unfolding tdiv scale
utc-ChronoLaws = record { num_days-lt = λ d h. days d h; num_minutes-le = λ m d h. whole m d h }
  where
    days : (d : Duration) → d <ℤ pos 86400000000000 → tdiv d (86400 * second) <ℤ pos 1
    days (pos n) h = omega arith
    days (negsuc n) h = ground arith

    whole :
        (m : ℕ) (d : Duration) → d ≤ℤ scale (60 * second) (pos m) → tdiv d (60 * second) ≤ℤ pos m
    whole m (pos n) h = ground arith
    whole m (negsuc n) h = ground arith
