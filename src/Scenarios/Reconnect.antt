-- ===== src/Scenarios/Reconnect.antt =====
-- The backoff and the reconnect loop.
use trade_pulse.Prelude.{refl, ◌*◌, true, false, List, [], ◌∷◌, arith}
use trade_pulse.Prelude.Int.{ℤ, pos}
use trade_pulse.Machine.{second}
use trade_pulse.Retry.{Backoff, Round, with_backoff}
use trade_pulse.Retry.Bounds.{DrawsBelow}
use trade_pulse.Retry.Loop.{Escalates, with_backoff-Escalates}

abbrev draw_zero : ℤ → ℤ
draw_zero n = pos 0

draw_zero-DrawsBelow : DrawsBelow draw_zero
draw_zero-DrawsBelow n h = (0, refl, h)

abbrev after_three : Backoff
after_three = record { base = pos 3; max = pos 20; reset_after = pos 100; attempt = pos 3 }

abbrev rounds : List Round
rounds =
    record {
      uptime = pos second;
      cancelled_at_work = false;
      rng = draw_zero;
      cancelled_at_wait = false;
    }
    ∷ record {
      uptime = pos (200 * second);
      cancelled_at_work = false;
      rng = draw_zero;
      cancelled_at_wait = true;
    }
    ∷ []

with_backoff-Escalates_example : Escalates 0 rounds (with_backoff rounds).0
with_backoff-Escalates_example =
    with_backoff-Escalates rounds (draw_zero-DrawsBelow, (draw_zero-DrawsBelow, tt)) (omega arith)
