-- ===== src/Processor/Pipeline/Fifo.antt =====
-- With one worker the pipeline keeps the order of the partition: the state that it is in.
pub mod Delivers
pub mod Steps
pub mod Prefix
use mathlib.Core.List.{append-nil, append_assoc, map-append}
use trade_pulse.Prelude.{
  ℕ, zero, suc, ◌≡◌, ◌≢◌, refl, sym, ap, subst, ◌∙◌, ◌++◌, ◌⊎◌, inl, inr, Bool, true, false, List,
  [], ◌∷◌, map, Option, none, some, arith, get_elem?, set, Bool-cases, Option-cases, if◌then◌else◌,
}
use trade_pulse.Prelude.Int.{ℤ, pos}
use trade_pulse.Machine.{Float64}
use trade_pulse.Text.{Text}
use trade_pulse.Channel.{Chan, sent, make, send, receive, receive-some, send-some}
use trade_pulse.Domain.{TradeEvent}
use trade_pulse.Processor.Enricher.{Provider, enrich}
use trade_pulse.Processor.FanOut.{
  FanOut, Sink, order_book, redis_writer, broadcast, chan, set_chan, Pending, is_pending, clear,
  Call, selecting, returned, CtxError, Case, accept, ctx_done, loop, publish, publish_step,
  new_fan_out, size_or,
}
use trade_pulse.Processor.FanOut.Delivery.{Delivered, accept_delivers}
use trade_pulse.Processor.Pool.{
  Worker, idle, busy, stopped, WorkerPool, new_worker_pool, submit, take, stop, take_by, taken,
  stop_by,
}
use trade_pulse.Processor.Pipeline.{
  Processor, Action, polls, visits, submits, gives_up, takes, publishes, stops, receives, cancels,
  new_processor, step, run, progress, publish_by, after_receive,
}
use trade_pulse.Processor.Pipeline.Accounts.{trades_of}
use trade_pulse.Processor.Pipeline.Accounts.Sinks.{accept_inversion, received-sent, submit-workers}
use trade_pulse.Processor.Pipeline.Accounts.Totals.{IsConserved, run-IsConserved, sent-new}

module _ (mul : Float64 → Float64 → Float64) (metadata : Provider)
    (decode : Text → Option TradeEvent) where
  abbrev enriched : TradeEvent → TradeEvent
  enriched = enrich mul metadata

  -- What the sinks were sent, by what the one worker does with the last trade that it took.
  abbrev pub InLine : List TradeEvent → FanOut → Worker Call → Type 0
  InLine received f idle = (k : Sink) → sent (chan k f) ≡ map enriched received
  InLine received f (busy event (selecting q)) =
      (past : List TradeEvent) × (received ≡ past ++ event ∷ [])
      × ((k : Sink)
          → Delivered (enriched event) (map enriched past) k (selecting q) (sent (chan k f)))
  InLine received f (busy event (returned r)) = ⊥
  InLine received f stopped = ⊥

  -- There is one worker, and it is in line.
  abbrev pub OneInLine : WorkerPool Call → FanOut → Type 0
  OneInLine pool f = (w : Worker Call) × (pool.workers ≡ w ∷ []) × InLine pool.jobs.received f w

  -- Until the cancellation, the one worker is in line.
  abbrev pub IsFifo : Processor → Type 0
  IsFifo s = (s.cancelled ≡ true) ⊎ OneInLine s.pool s.fan
