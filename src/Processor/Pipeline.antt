-- ===== src/Processor/Pipeline.antt =====
-- services/processor-service/internal/service.go: the consumer, the worker pool, the enricher and
-- the fan-out as Run wires them, as one system of interleaved steps. The order book and the Redis
-- writer take trades from their sinks and change nothing upstream.
pub mod Accounts
pub mod Shutdown
pub mod Overtaking
pub mod Fifo
use trade_pulse.Prelude.{
  ℕ, Bool, true, false, List, [], ◌∷◌, ◌++◌, Option, none, some, get_elem?, set, if◌then◌else◌,
}
use trade_pulse.Prelude.Int.{ℤ}
use trade_pulse.Machine.{Float64}
use trade_pulse.Text.{Text}
use trade_pulse.Channel.{Chan, receive}
use trade_pulse.Domain.{TradeEvent}
use trade_pulse.Processor.Enricher.{Provider, enrich}
use trade_pulse.Processor.Consumer.{Record}
use trade_pulse.Processor.FanOut.{
  FanOut, Sink, Pending, CtxError, Call, selecting, returned, Case, accept, ctx_done, publish,
  publish_step, chan, set_chan, new_fan_out,
}
use trade_pulse.Processor.Pool.{
  Worker, idle, busy, stopped, WorkerPool, new_worker_pool, submit, take, stop,
}

-- `batch` is what EachRecord has still to visit, `submitting` the record whose trade waits in
-- Submit. `published` and `abandoned` record the trades whose handler has returned nil, or an
-- error and, for that, which sinks had not accepted yet.
pub record Processor : Type 0 where
  pub batch : List Record
  pub submitting : Option (Record × TradeEvent)
  pub marked : List Record
  pub pool : WorkerPool Call
  pub fan : FanOut
  pub cancelled : Bool
  pub published : List TradeEvent
  pub abandoned : List (TradeEvent × Pending)

pub data Action : Type 0 where
  polls : List Record → Action
  visits : Action
  submits : Action
  gives_up : Action
  takes : ℕ → Action
  publishes : ℕ → Case → Action
  stops : ℕ → Action
  receives : Sink → Action
  cancels : Action

-- From the configured pool size and fan-out buffer.
unfoldable pub new_processor : ℤ → ℤ → Processor
new_processor pool_size buffer_size = record {
  batch = [];
  submitting = none;
  marked = [];
  pool = new_worker_pool pool_size;
  fan = new_fan_out buffer_size;
  cancelled = false;
  published = [];
  abandoned = [];
}

module _ (mul : Float64 → Float64 → Float64) (metadata : Provider)
    (decode : Text → Option TradeEvent) where
  abbrev pub visit_decoded : Record → List Record → Processor → Option TradeEvent → Processor
  visit_decoded rec rest p none = record p { batch = rest; marked = p.marked ++ rec ∷ [] }
  visit_decoded rec rest p (some event) = record p { batch = rest; submitting = some (rec, event) }

  abbrev pub visit : List Record → Option (Record × TradeEvent) → Processor → Processor
  visit (rec ∷ rest) none p = visit_decoded rec rest p (decode rec.value)
  visit _ _ p = p

  abbrev poll : List Record → List Record → Option (Record × TradeEvent) → Processor → Processor
  poll recs [] none p = if p.cancelled then p else record p { batch = recs }
  poll recs _ _ p = p

  abbrev pub submitted : Record → Processor → Option (WorkerPool Call) → Processor
  submitted rec p none = p
  submitted rec p (some pool) = record p {
    pool = pool;
    submitting = none;
    marked = p.marked ++ rec ∷ [];
  }

  abbrev pub submit_to : Option (Record × TradeEvent) → Processor → Processor
  submit_to none p = p
  submit_to (some (rec, event)) p = submitted rec p (submit event p.pool)

  -- What a worker does with the outcome of its `select`; an error is logged and the worker goes on.
  abbrev pub progress : ℕ → TradeEvent → Pending → Processor → Option (Call × FanOut) → Processor
  progress i event before p none = p
  progress i event before p (some (selecting q, fan)) = record p {
    pool = record (p.pool) { workers = set p.pool.workers i (busy event (selecting q)) };
    fan = fan;
  }
  progress i event before p (some (returned none, fan)) = record p {
    pool = record (p.pool) { workers = set p.pool.workers i idle };
    fan = fan;
    published = event ∷ p.published;
  }
  progress i event before p (some (returned (some e), fan)) = record p {
    pool = record (p.pool) { workers = set p.pool.workers i idle };
    fan = fan;
    abandoned = (event, before) ∷ p.abandoned;
  }

  abbrev pub publish_by : ℕ → Case → Processor → Option (Worker Call) → Processor
  publish_by i c p (some (busy event (selecting q))) =
      progress i event q p
        (publish_step p.cancelled (enrich mul metadata event) c (selecting q) p.fan)
  publish_by i c p _ = p

  abbrev pub after_receive : Sink → Processor → Option (TradeEvent × Chan TradeEvent) → Processor
  after_receive k p none = p
  after_receive k p (some (event, c)) = record p { fan = set_chan k c p.fan }

  -- An action that is not ready changes nothing.
  unfoldable pub step : Action → Processor → Processor
  step (polls recs) p = poll recs p.batch p.submitting p
  step visits p = visit p.batch p.submitting p
  step submits p = submit_to p.submitting p
  step gives_up p = if p.cancelled then record p { submitting = none } else p
  step (takes i) p = record p { pool = take (λ event. publish) i p.pool }
  step (publishes i c) p = publish_by i c p (get_elem? p.pool.workers i)
  step (stops i) p = record p { pool = stop p.cancelled i p.pool }
  step (receives k) p = after_receive k p (receive (chan k p.fan))
  step cancels p = record p { cancelled = true }

  unfoldable pub run : List Action → Processor → Processor
  run [] p = p
  run (a ∷ actions) p = run actions (step a p)
