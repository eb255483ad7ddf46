-- ===== src/Processor/Pipeline/Accounts.antt =====
-- Every trade of the pipeline is accounted for: the marked records' trades are those that entered
-- the pool, each of which waits, is with a worker, was published or was abandoned; and each sink
-- was sent the enriched copies of just those that it accepted.
pub mod Marks
pub mod Jobs
pub mod Sinks
pub mod Totals
use trade_pulse.Prelude.{
  ℕ, ◌≡◌, Bool, true, false, List, [], ◌∷◌, Option, none, some, if◌then◌else◌,
}
use trade_pulse.Prelude.Counting.{count, total}
use trade_pulse.Text.{Text}
use trade_pulse.Domain.{TradeEvent}
use trade_pulse.Processor.Consumer.{Record}
use trade_pulse.Processor.FanOut.{Sink, Pending, is_pending, Call, selecting, returned}
use trade_pulse.Processor.Pool.{Worker, idle, busy, stopped}

-- The trades of those records that decode.
abbrev pub trade_list : Option TradeEvent → List TradeEvent → List TradeEvent
trade_list none rest = rest
trade_list (some event) rest = event ∷ rest

abbrev pub trades_of : (Text → Option TradeEvent) → List Record → List TradeEvent
trades_of decode [] = []
trades_of decode (rec ∷ recs) = trade_list (decode rec.value) (trades_of decode recs)

module _ (p : TradeEvent → Bool) where
  -- 1 for a worker that is busy with a trade of the test.
  abbrev pub in_flight : Worker Call → ℕ
  in_flight idle = 0
  in_flight (busy event c) = if p event then 1 else 0
  in_flight stopped = 0

  abbrev pub given_up : TradeEvent × Pending → ℕ
  given_up (event, q) = if p event then 1 else 0

module _ (p : TradeEvent → Bool) (k : Sink) where
  -- 1 where the sink has accepted the copy, a trade of the test, of a call that still waits for
  -- the sinks of `q`.
  abbrev pub accepted_of : TradeEvent → Pending → ℕ
  accepted_of copy q = if is_pending k q then 0 else (if p copy then 1 else 0)

  abbrev pub accepted_by : (TradeEvent → TradeEvent) → Worker Call → ℕ
  accepted_by enriched idle = 0
  accepted_by enriched (busy event (selecting q)) = accepted_of (enriched event) q
  accepted_by enriched (busy event (returned r)) = 0
  accepted_by enriched stopped = 0

  abbrev pub accepted_before : (TradeEvent → TradeEvent) → TradeEvent × Pending → ℕ
  accepted_before enriched (event, q) = accepted_of (enriched event) q
