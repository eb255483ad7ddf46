-- ===== src/Scenarios/Cache.antt =====
-- The consumer-lag reading and its cache.
use mathlib.Core.List.{Permᴰ}
use trade_pulse.Prelude.{ℕ, ◌≡◌, refl, ◌+◌, ◌*◌, ◌↔◌, true, false, List, [], ◌∷◌, none, some, arith}
use trade_pulse.Prelude.Int.{negsuc, ◌*ℤ◌, ℤ, pos}
use trade_pulse.Text.{text_eq, codes}
use trade_pulse.Table.{Table, lookup}
use trade_pulse.Machine.{wrap64, time_sub, unix_epoch, second}
use trade_pulse.Kafka.Lag.{
  groups, read_lag, MemberLag, Described, LagReader, admin, ok, err, zero_lag, lag_of,
}
use trade_pulse.Kafka.Lag.Order.{lag_of-perm}
use trade_pulse.Kafka.Cache.{refresh, Round, snapshot, new_lag_cache, zero_snapshot, check}
use trade_pulse.Kafka.Cache.Served.{
  Reading, refresh_all, last_good, failures_since, served, IsFresh, cache_serves_last_good,
  check-IsFresh,
}
use trade_pulse.Kafka.Cache.Unknown.{unknown_lag_passes}

abbrev readings : List Reading
readings =
    (ok (record zero_lag { total = pos 12; members = 1 }), unix_epoch)
    ∷ (err (admin (codes "unreachable")), unix_epoch + second)
    ∷ []

cache_serves_last_good_example :
    let s = snapshot (some (refresh_all readings (new_lag_cache (pos second)))) in
    ((s.lag, s.as_of) ≡ served (last_good readings) zero_snapshot)
    × (s.failures ≡ pos (failures_since readings))
cache_serves_last_good_example = cache_serves_last_good readings (pos second) (omega arith)

check-IsFresh_example :
    (check (some (refresh_all readings (new_lag_cache (pos second)))) (unix_epoch + 2 * second)
      ≡ none)
    ↔ IsFresh
        (new_lag_cache (pos second)).stale_after
        (unix_epoch + 2 * second)
        (last_good readings)
check-IsFresh_example = check-IsFresh readings (pos second) (unix_epoch + 2 * second)

-- A source of randomness that always draws 0.
abbrev draw_zero : ℤ → ℤ
draw_zero n = pos 0

abbrev rounds : List Round
rounds =
    record {
      jittered = pos second;
      reading = err (admin (codes "unreachable"));
      now = unix_epoch;
      cancelled_at_read = false;
      rng = draw_zero;
      cancelled_at_wait = false;
    }
    ∷ record {
      jittered = pos second;
      reading = ok zero_lag;
      now = unix_epoch + second;
      cancelled_at_read = false;
      rng = draw_zero;
      cancelled_at_wait = true;
    }
    ∷ []

abbrev reader : LagReader
reader = record { group = codes "processor-service"; topic = codes "trades.raw" }

abbrev two_lags : List (ℕ × MemberLag)
two_lags =
    (0, record { lag = pos 5; err = none })
    ∷ (3, record { lag = pos 7; err = some (codes "no leader") })
    ∷ []

abbrev two_lags_turned : List (ℕ × MemberLag)
two_lags_turned =
    (3, record { lag = pos 7; err = some (codes "no leader") })
    ∷ (0, record { lag = pos 5; err = none })
    ∷ []

abbrev described : List (ℕ × MemberLag) → Described
described lags = record {
  error = none;
  state = codes "Stable";
  members = codes "m1" ∷ [];
  lag = (codes "trades.raw", lags) ∷ [];
}

found : (lags : List (ℕ × MemberLag)) → lookup (codes "trades.raw") (described lags).lag ≡ some lags
unfolding lookup text_eq
found lags = refl

lag_of-perm_example : lag_of reader (described two_lags) ≡ lag_of reader (described two_lags_turned)
lag_of-perm_example =
    lag_of-perm reader (described two_lags) (described two_lags_turned) two_lags two_lags_turned
      (found two_lags) (found two_lags_turned) refl refl (Permᴰ.swap refl refl)
      ((λ h. ground arith, tt), (tt, tt))

abbrev no_lags : List (ℕ × MemberLag)
no_lags = (0, record { lag = negsuc 0; err = some (codes "no leader") }) ∷ []

abbrev described_groups : Table Described
described_groups = (reader.group, described no_lags) ∷ []

group_found : lookup reader.group described_groups ≡ some (described no_lags)
unfolding lookup text_eq
group_found = refl

unknown_lag_passes_example :
    let cache =
      (refresh
        (read_lag (some reader) (groups described_groups))
        unix_epoch
        (new_lag_cache (pos second))).0 in
    ((snapshot (some cache)).err ≡ none)
    × ((snapshot (some cache)).as_of ≡ unix_epoch)
    × ((snapshot (some cache)).lag.total ≡ pos 0)
    × (check (some cache) (unix_epoch + second) ≡ none)
unfolding new_lag_cache time_sub wrap64 ◌*ℤ◌
unknown_lag_passes_example =
    unknown_lag_passes reader described_groups (described no_lags) no_lags unix_epoch
      (unix_epoch + second) (pos second) group_found refl (found no_lags)
      ((codes "no leader", refl), tt) (λ h. ground arith) refl
