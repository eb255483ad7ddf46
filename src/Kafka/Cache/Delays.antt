-- ===== src/Kafka/Cache/Delays.antt =====
-- The pauses of the refresh loop: the jittered interval after a success, a growing delay after each
-- failure in a row.
use trade_pulse.Prelude.{
  ℕ, suc, ◌*◌, ◌^◌, ◌≤◌, min, ◌≡◌, refl, Bool, false, ◌&&◌, ◌||◌, List, [], ◌∷◌, Option, none, some,
  arith, is_some,
}
use trade_pulse.Prelude.Int.{pos}
use trade_pulse.Machine.{Duration, second}
use trade_pulse.Retry.Bounds.{DrawsBelow}
use trade_pulse.Retry.Loop.{with_attempt}
use trade_pulse.Kafka.Lag.{ConsumerLag, Result, ok, err}
use trade_pulse.Kafka.Cache.{LagCache, Round, State, error_of, round, run}

-- `failures` is how many readings in a row have failed before this round.
abbrev pub IsPause : ℕ → Duration → Result ConsumerLag → Duration → Type 0
IsPause failures jittered (ok lag) delay = delay ≡ jittered
IsPause failures jittered (err e) delay =
    (k : ℕ) × (delay ≡ pos k) × (k ≤ min (second * 2 ^ failures) (30 * second))

abbrev pub failures_after : ℕ → Result ConsumerLag → ℕ
failures_after failures (ok lag) = 0
failures_after failures (err e) = suc failures

abbrev pub ArePauses : ℕ → List Round → List Duration → Type 0
ArePauses failures rounds [] = Unit
ArePauses failures [] (delay ∷ delays) = ⊥
ArePauses failures (r ∷ rs) (delay ∷ delays) =
    IsPause failures r.jittered r.reading delay
    × ArePauses (failures_after failures r.reading) rs delays

abbrev pub AllDraw : List Round → Type 0
AllDraw [] = Unit
AllDraw (r ∷ rs) = DrawsBelow r.rng × AllDraw rs

abbrev state_at : LagCache → ℕ → State
state_at c failures = record { cache = c; backoff = with_attempt failures }

abbrev IsPauseOption : ℕ → Duration → Result ConsumerLag → Option Duration → Type 0
IsPauseOption failures jittered reading none = Unit
IsPauseOption failures jittered reading (some delay) = IsPause failures jittered reading delay

abbrev WentOn : Option Duration → State → State → Type 0
WentOn none s t = Unit
WentOn (some delay) s t = s ≡ t

-- Whether ctx is cancelled where a round looks: after a failed read, or during the pause.
abbrev pub any_stop : List Round → Bool
any_stop [] = false
any_stop (r ∷ rs) =
    (is_some (error_of r.reading) && r.cancelled_at_read) || r.cancelled_at_wait || any_stop rs

-- The loop returns, with nil, exactly when its context is cancelled; no failed read ends it.
pub run-returns : (rs : List Round) (s : State) → (run rs s).2 ≡ any_stop rs
unfolding run round
run-returns [] s = refl
run-returns (r ∷ rs) s = let rest = run-returns rs (round r s).0 in ground (arith, rest)
