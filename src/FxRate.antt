-- ===== src/FxRate.antt =====
-- services/fx-rate-service/internal/service.go: pollSession over what its `select` takes, and Run, the
-- loop of WithBackoff with it as the work. `S` is the state that a fetch changes.
pub mod Stub
use trade_pulse.Prelude.{Bool, true, false, ◌||◌, List, [], ◌∷◌, Option, none, some, if◌then◌else◌}
use trade_pulse.Prelude.Int.{pos}
use trade_pulse.Machine.{Duration, leb_ℤ}
use trade_pulse.Retry.{Backoff, Round, new_backoff, next, observe}

pub data Input : Type 0 where
  tick done : Input

-- How a session has ended, if it has: what it returned, and whether it had seen ctx.Done by then.
-- time.NewTicker panics on an interval that is not positive.
pub data Ended {ℓ} (E : Type ℓ) : Type ℓ where
  polling panicked : Ended E
  returned : Option E → Bool → Ended E

-- A session: what its `select` takes, and the round of WithBackoff that it stands in.
pub record Session : Type 0 where
  pub inputs : List Input
  pub round : Round

pub record Polled {ℓ} (S : Type ℓ) : Type ℓ where
  pub state : S
  pub delays : List Duration
  pub returned : Bool
  pub panicked : Bool

-- fetchRates, which only logs so far.
unfoldable pub fetch_rates {ℓ κ} : {S : Type ℓ} {E : Type κ} → S → S × Option E
fetch_rates s = (s, none)

module _ {ℓ κ} {S : Type ℓ} {E : Type κ} (fetch : S → S × Option E) where
  abbrev pub after_fetch : S × Option E → (S → S × Ended E) → S × Ended E
  after_fetch (s, none) go_on = go_on s
  after_fetch (s, some e) go_on = (s, returned (some e) false)

  -- The loop of pollSession.
  unfoldable pub poll : List Input → S → S × Ended E
  poll [] s = (s, polling)
  poll (done ∷ inputs) s = (s, returned none true)
  poll (tick ∷ inputs) s = after_fetch (fetch s) (poll inputs)

  unfoldable pub poll_session : Duration → List Input → S → S × Ended E
  unfolding poll
  poll_session interval inputs s = if leb_ℤ interval (pos 0) then (s, panicked) else poll inputs s

  -- One round of WithBackoff, which looks at ctx.Err and not at what the session returned. ctx is
  -- cancelled if the session saw it, or if `cancelled_at_work` says so.
  abbrev pub after_session : Session → Backoff → S × Ended E → (Backoff → S → Polled S) → Polled S
  after_session x b (s, polling) go_on = record {
    state = s;
    delays = [];
    returned = false;
    panicked = false;
  }
  after_session x b (s, panicked) go_on = record {
    state = s;
    delays = [];
    returned = false;
    panicked = true;
  }
  after_session x b (s, returned r seen) go_on =
      let (delay, b') = next x.round.rng (observe x.round.uptime b) in
      let rest = go_on b' s in
      if x.round.cancelled_at_work || seen
      then record { state = s; delays = []; returned = true; panicked = false }
      else if x.round.cancelled_at_wait
      then record { state = s; delays = delay ∷ []; returned = true; panicked = false }
      else record rest { delays = delay ∷ rest.delays }

  unfoldable pub run_from : Duration → List Session → Backoff → S → Polled S
  run_from interval [] b s = record { state = s; delays = []; returned = false; panicked = false }
  run_from interval (x ∷ sessions) b s =
      after_session x b (poll_session interval x.inputs s) (run_from interval sessions)

  unfoldable pub run : Duration → List Session → S → Polled S
  unfolding run_from
  run interval sessions s = run_from interval sessions new_backoff s
