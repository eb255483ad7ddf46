-- ===== src/Kafka/Cache.antt =====
-- shared/kafka/lag_cache.go: LagCache. The clock's readings and the random draws are arguments; the
-- atomic pointer makes a store one step, and one goroutine, Run, is the only writer. `none` for a
-- cache is a nil receiver.
pub mod Served
pub mod Delays
pub mod Unknown
use trade_pulse.Prelude.{
  ℕ, suc, ◌*◌, Bool, true, false, List, [], ◌∷◌, Option, none, some, not, if◌then◌else◌,
}
use trade_pulse.Prelude.Int.{ℤ, pos, ltb_ℤ, ◌*ℤ◌, ◌+ℤ◌, ◌-ℤ◌}
use trade_pulse.Machine.{
  Float64, Duration, Time, second, zero_time, is_zero_time, time_sub, add64, wrap64, leb_ℤ,
}
use trade_pulse.Text.{Text}
use trade_pulse.Retry.{Backoff, new_backoff, next, reset}
use trade_pulse.Kafka.Lag.{
  PartitionLag, ConsumerLag, LagError, Result, ok, err, zero_lag, is_stalled,
}

abbrev pub default_refresh_interval : Duration
default_refresh_interval = pos (10 * second)

abbrev pub default_stale_multiple : ℤ
default_stale_multiple = pos 3

pub record LagSnapshot : Type 0 where
  pub lag : ConsumerLag
  pub as_of : Time
  pub err : Option LagError
  pub failures : ℤ

abbrev pub zero_snapshot : LagSnapshot
zero_snapshot = record { lag = zero_lag; as_of = zero_time; err = none; failures = pos 0 }

pub record LagCache : Type 0 where
  pub interval : Duration
  pub stale_after : Duration
  pub stored : Option LagSnapshot

abbrev pub interval_or_default : Duration → Duration
interval_or_default interval = if leb_ℤ interval (pos 0) then default_refresh_interval else interval

unfoldable pub new_lag_cache : Duration → LagCache
new_lag_cache interval = record {
  interval = interval_or_default interval;
  stale_after = wrap64 (interval_or_default interval *ℤ default_stale_multiple);
  stored = none;
}

abbrev pub or_zero : Option LagSnapshot → LagSnapshot
or_zero none = zero_snapshot
or_zero (some s) = s

unfoldable pub snapshot : Option LagCache → LagSnapshot
snapshot none = zero_snapshot
snapshot (some c) = or_zero c.stored

abbrev pub next_snapshot : LagSnapshot → Result ConsumerLag → Time → LagSnapshot
next_snapshot previous (err e) now = record {
  lag = previous.lag;
  as_of = previous.as_of;
  err = some e;
  failures = add64 previous.failures (pos 1);
}
next_snapshot previous (ok lag) now = record {
  lag = lag;
  as_of = now;
  err = none;
  failures = pos 0;
}

abbrev pub error_of : Result ConsumerLag → Option LagError
error_of (err e) = some e
error_of (ok lag) = none

-- One read, with its outcome and the time.
unfoldable pub refresh : Result ConsumerLag → Time → LagCache → LagCache × Option LagError
unfolding snapshot
refresh reading now c =
    (record c { stored = some (next_snapshot (snapshot (some c)) reading now) }, error_of reading)

unfoldable pub age : Option LagCache → Time → Option Duration
unfolding snapshot
age none now = none
age (some c) now =
    let s = snapshot (some c) in if is_zero_time s.as_of then none else some (time_sub now s.as_of)

pub data CheckError : Type 0 where
  cache_not_configured : CheckError
  no_reading_yet : Option LagError → CheckError
  stale : Duration → ℤ → Option LagError → CheckError
  no_members : Text → ℤ → CheckError

-- The failures are part of the message only where it wraps an error; the age is rounded to seconds there.
abbrev pub stale_error : Duration → LagSnapshot → CheckError
stale_error old s = stale old s.failures s.err

abbrev pub check_snapshot : Duration → Time → LagSnapshot → Option CheckError
check_snapshot stale_after now s =
    if is_zero_time s.as_of
    then some (no_reading_yet s.err)
    else if ltb_ℤ stale_after (time_sub now s.as_of)
    then some (stale_error (time_sub now s.as_of) s)
    else if is_stalled s.lag
    then some (no_members s.lag.group s.lag.total)
    else none

unfoldable pub check : Option LagCache → Time → Option CheckError
unfolding snapshot
check none now = some cache_not_configured
check (some c) now = check_snapshot c.stale_after now (snapshot (some c))

-- The report of Details: an optional key is an option. The age in seconds is rounded by a float64.
pub record Details : Type 0 where
  pub group : Text
  pub topic : Text
  pub state : Text
  pub members : ℕ
  pub total : ℤ
  pub stalled : Bool
  pub failures : ℤ
  pub partitions : Option (List PartitionLag)
  pub as_of : Option Time
  pub age_seconds : Option ℤ
  pub last_error : Option LagError

abbrev pub non_empty {ℓ} : {A : Type ℓ} → List A → Option (List A)
non_empty [] = none
non_empty (x ∷ xs) = some (x ∷ xs)

abbrev pub details_of : (Duration → ℤ) → Time → LagSnapshot → Details
details_of seconds now s = record {
  group = s.lag.group;
  topic = s.lag.topic;
  state = s.lag.state;
  members = s.lag.members;
  total = s.lag.total;
  stalled = is_stalled s.lag;
  failures = s.failures;
  partitions = non_empty s.lag.partitions;
  as_of = if is_zero_time s.as_of then none else some s.as_of;
  age_seconds = if is_zero_time s.as_of then none else some (seconds (time_sub now s.as_of));
  last_error = s.err;
}

unfoldable pub details : (Duration → ℤ) → Option LagCache → Time → Option Details
unfolding snapshot
details seconds none now = none
details seconds (some c) now = some (details_of seconds now (snapshot (some c)))

-- The bits of 0.2 and 2.
abbrev pub jitter_fraction : Float64
jitter_fraction = 4596373779694328218

abbrev float_two : Float64
float_two = 4611686018427387904

-- LagCache.defaultJitter, which NewLagCache sets. The conversions between int64 and float64, the float
-- product and the draw of rand.Float64 are arguments.
unfoldable pub default_jitter :
    (Duration → Float64)
    → (Float64 → Duration)
    → (Float64 → Float64 → Float64)
    → Float64
    → Duration
    → Duration
default_jitter to_float of_float mul draw d =
    let spread = mul (to_float d) jitter_fraction in
    wrap64 (wrap64 (d -ℤ of_float spread) +ℤ of_float (mul (mul draw float_two) spread))

-- What one round of Run meets: what c.jitter makes of the interval (the function is a field, which
-- tests replace), the reading and the time after it, whether ctx
-- is cancelled by then, the random draw, and whether ctx is cancelled before the delay is over.
pub record Round : Type 0 where
  pub jittered : Duration
  pub reading : Result ConsumerLag
  pub now : Time
  pub cancelled_at_read : Bool
  pub rng : ℤ → ℤ
  pub cancelled_at_wait : Bool

pub record State : Type 0 where
  pub cache : LagCache
  pub backoff : Backoff

-- The delay after a reading, unless Run returns: it does where the read failed and ctx is cancelled.
abbrev pub delay_after : Round → Option LagError → Backoff → Option Duration × Backoff
delay_after r none b = (some r.jittered, reset b)
delay_after r (some e) b =
    if r.cancelled_at_read then (none, b) else (some (next r.rng b).0, (next r.rng b).1)

unfoldable pub round : Round → State → State × Option Duration
unfolding refresh
round r s =
    let (cache, e) = refresh r.reading r.now s.cache in
    let (delay, b) = delay_after r e s.backoff in (record { cache = cache; backoff = b }, delay)

-- Run over the rounds so far: its state, the delays, and whether it has returned.
abbrev pub after_round :
    Round → State × Option Duration → State × List Duration × Bool → State × List Duration × Bool
after_round r (s, none) rest = (s, [], true)
after_round r (s, some delay) rest =
    if r.cancelled_at_wait then (s, delay ∷ [], true) else (rest.0, delay ∷ rest.1, rest.2)

unfoldable pub run : List Round → State → State × List Duration × Bool
run [] s = (s, [], false)
run (r ∷ rs) s = let rest = run rs (round r s).0 in after_round r (round r s) rest
