-- ===== src/Kafka/Cache/Unknown.antt =====
-- A reading of which no partition's lag is known, and what the cache makes of it.
use trade_pulse.Prelude.{ℕ, ◌≡◌, refl, ap, ◌∙◌, ◌≢◌, false, List, [], ◌∷◌, none, some, arith, All}
use trade_pulse.Prelude.Int.{ℤ, pos, ltb_ℤ}
use trade_pulse.Text.{Text}
use trade_pulse.Table.{Table, lookup}
use trade_pulse.Machine.{Duration, Time, time_sub}
use trade_pulse.Kafka.Lag.{MemberLag, Described, LagReader, groups, read_lag, is_stalled, lag_of}
use trade_pulse.Kafka.Lag.Order.{sum_lags, lag_of-parts}
use trade_pulse.Kafka.Cache.{new_lag_cache, refresh, snapshot, check}

-- Each partition comes with an error in place of a lag.
abbrev pub AllUnknown : List (ℕ × MemberLag) → Type 0
AllUnknown ms = All (λ (x : ℕ × MemberLag). (e : Text) × (x.1.err ≡ some e)) ms

unknown_total : (ms : List (ℕ × MemberLag)) (t : ℤ) → AllUnknown ms → sum_lags t ms ≡ t
unfolding sum_lags
unknown_total [] t h = refl
unknown_total (m ∷ ms) t ((e, h), hs) = rw h (unknown_total ms t hs)

-- If the group can be described but the lag of no partition can be computed, ReadLag returns no
-- error, the cache takes its reading for a good one of that time, with a total of 0, and the health
-- check passes until the reading is too old.
pub unknown_lag_passes :
    (l : LagReader) (groups_of : Table Described) (d : Described) (ms : List (ℕ × MemberLag))
    (at now : Time) (interval : Duration)
    → lookup l.group groups_of ≡ some d
    → d.error ≡ none
    → lookup l.topic d.lag ≡ some ms
    → AllUnknown ms
    → at ≢ 0
    → ltb_ℤ (new_lag_cache interval).stale_after (time_sub now at) ≡ false
    → let cache = (refresh (read_lag (some l) (groups groups_of)) at (new_lag_cache interval)).0 in
      ((snapshot (some cache)).err ≡ none)
      × ((snapshot (some cache)).as_of ≡ at)
      × ((snapshot (some cache)).lag.total ≡ pos 0)
      × (check (some cache) now ≡ none)
unfolding refresh snapshot check is_stalled read_lag
unknown_lag_passes l groups_of d ms at now interval described fine found unknown set young =
    let total : (lag_of l d).total ≡ pos 0 =
      ap (λ x. x.total) (lag_of-parts l d ms found) ∙ unknown_total ms (pos 0) unknown in
    rw (described, fine) (refl, refl, total, ground (arith, total))
