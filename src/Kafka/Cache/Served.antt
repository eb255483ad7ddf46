-- ===== src/Kafka/Cache/Served.antt =====
-- What the cache serves after any sequence of readings, and when its health check passes.
use trade_pulse.Prelude.{
  ℕ, suc, ◌+◌, ◌<◌, ◌^◌, ◌≡◌, refl, ap, ◌∙◌, ◌↔◌, ◌≢◌, false, List, [], ◌∷◌, Option, none, some,
  arith, length,
}
use trade_pulse.Prelude.Int.{pos, ltb_ℤ}
use trade_pulse.Machine.{Duration, Time, time_sub}
use trade_pulse.Retry.Bounds.{add64_pos}
use trade_pulse.Kafka.Lag.{ConsumerLag, Result, ok, err, is_stalled}
use trade_pulse.Kafka.Cache.{
  LagSnapshot, LagCache, zero_snapshot, new_lag_cache, snapshot, refresh, check, check_snapshot,
}

abbrev pub Reading : Type 0
Reading = Result ConsumerLag × Time

-- The cache after some refreshes, oldest first.
abbrev pub refresh_all : List Reading → LagCache → LagCache
refresh_all [] c = c
refresh_all ((reading, now) ∷ rest) c = refresh_all rest (refresh reading now c).0

-- The last reading that succeeded, and when.
unfoldable pub last_good : List Reading → Option (ConsumerLag × Time)
last_good [] = none
last_good ((reading, now) ∷ rest) = elim (last_good rest) [
  | some later ↦ some later
  | none ↦ elim reading [ ok lag ↦ some (lag, now) | err e ↦ none ]
]

-- How many readings failed since then.
unfoldable pub failures_since : List Reading → ℕ
failures_since [] = 0
failures_since ((reading, now) ∷ rest) =
    let later = failures_since rest in
    elim (last_good rest) [
      | some good ↦ later
      | none ↦ elim reading [ ok lag ↦ later | err e ↦ suc later ]
    ]

abbrev pub served : Option (ConsumerLag × Time) → LagSnapshot → ConsumerLag × Time
served none s = (s.lag, s.as_of)
served (some good) s = good

abbrev snapshot_of : LagCache → LagSnapshot
snapshot_of c = snapshot (some c)

refresh_all-served :
    (rs : List Reading) (c : LagCache)
    → ((snapshot_of (refresh_all rs c)).lag, (snapshot_of (refresh_all rs c)).as_of)
      ≡ served (last_good rs) (snapshot_of c)
unfolding last_good
refresh_all-served [] c = refl
refresh_all-served ((ok lag, now) ∷ rest) c =
    refresh_all-served rest (refresh (ok lag) now c).0 ∙ unfold refresh in ground arith
refresh_all-served ((err e, now) ∷ rest) c =
    refresh_all-served rest (refresh (err e) now c).0 ∙ unfold refresh in ground arith

abbrev plus_if_none : Option (ConsumerLag × Time) → ℕ → ℕ → ℕ
plus_if_none none n k = n + k
plus_if_none (some good) n k = k

refresh_all-failures :
    (rs : List Reading) (c : LagCache) (n : ℕ)
    → (snapshot_of c).failures ≡ pos n
    → n + length rs < 2 ^ 63
    → (snapshot_of (refresh_all rs c)).failures
      ≡ pos (plus_if_none (last_good rs) n (failures_since rs))
unfolding last_good failures_since refresh
refresh_all-failures [] c n e h = e ∙ ap pos (omega arith)
refresh_all-failures ((ok lag, now) ∷ rest) c n e h =
    refresh_all-failures rest (refresh (ok lag) now c).0 0 refl (omega arith) ∙ ground arith
refresh_all-failures ((err x, now) ∷ rest) c n e h =
    refresh_all-failures rest (refresh (err x) now c).0 (n + 1) (rw e (add64_pos n 1 (omega arith)))
      (omega arith)
    ∙ ground arith

refresh_all-stale_after :
    (rs : List Reading) (c : LagCache) → (refresh_all rs c).stale_after ≡ c.stale_after
unfolding refresh
refresh_all-stale_after [] c = refl
refresh_all-stale_after ((r, now) ∷ rest) c = refresh_all-stale_after rest (refresh r now c).0

-- After any readings the cache serves the last that succeeded, with its time, and how many failed
-- since; before the first success it serves zero values. (There are fewer than 2^63 readings.)
pub cache_serves_last_good :
    (rs : List Reading) (interval : Duration)
    → length rs < 2 ^ 63
    → let s = snapshot (some (refresh_all rs (new_lag_cache interval))) in
      ((s.lag, s.as_of) ≡ served (last_good rs) zero_snapshot)
      × (s.failures ≡ pos (failures_since rs))
unfolding new_lag_cache snapshot
cache_serves_last_good rs interval h = (
  refresh_all-served rs (new_lag_cache interval),
  refresh_all-failures rs (new_lag_cache interval) 0 refl (omega arith) ∙ ap pos (ground arith),
)

-- Fit to be served: read at a time that is set, no older than the limit, of a group that is not
-- stalled.
abbrev pub IsFresh : Duration → Time → Option (ConsumerLag × Time) → Type 0
IsFresh limit now none = ⊥
IsFresh limit now (some (lag, at)) =
    (at ≢ 0) × (ltb_ℤ limit (time_sub now at) ≡ false) × (is_stalled lag ≡ false)

check_snapshot-IsFresh :
    (limit : Duration) (now : Time) (s : LagSnapshot) (good : Option (ConsumerLag × Time))
    → (s.lag, s.as_of) ≡ served good zero_snapshot
    → (check_snapshot limit now s ≡ none) ↔ IsFresh limit now good
check_snapshot-IsFresh limit now s none e = (λ h. ground arith, λ h. absurd h)
check_snapshot-IsFresh limit now s (some (lag, at)) e =
    (λ h. (ground arith, ground arith, ground arith), λ h. ground arith)

-- The health check passes exactly when some reading succeeded, the last such one is at most
-- `stale_after` old, and its group has members or no lag: failed readings since then do not matter.
pub check-IsFresh :
    (rs : List Reading) (interval : Duration) (now : Time)
    → (check (some (refresh_all rs (new_lag_cache interval))) now ≡ none)
      ↔ IsFresh (new_lag_cache interval).stale_after now (last_good rs)
unfolding check new_lag_cache snapshot
check-IsFresh rs interval now = rw (refresh_all-stale_after rs (new_lag_cache interval)) (
    check_snapshot-IsFresh (new_lag_cache interval).stale_after now
      (snapshot_of (refresh_all rs (new_lag_cache interval))) (last_good rs)
      (refresh_all-served rs (new_lag_cache interval)))
