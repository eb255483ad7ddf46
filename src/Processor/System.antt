-- ===== src/Processor/System.antt =====
-- services/processor-service/internal/service.go: all the goroutines that Run starts, as one system.
-- To the pipeline it adds the three loops on the sinks: the order book's, the Redis writer's and
-- drainSink. Write reads the store once, under its lock, so that it is one step here.
pub mod Upstream
pub mod InHand
pub mod Appends
pub mod Replays
pub mod Serves
pub mod Stale
pub mod Snapshots
use trade_pulse.Prelude.{List, [], ◌∷◌, Option, none, some, Bool, true, false, if◌then◌else◌}
use trade_pulse.Prelude.Int.{ℤ}
use trade_pulse.Machine.{Float64}
use trade_pulse.Text.{Text}
use trade_pulse.Channel.{Chan, receive}
use trade_pulse.Json.{Codec}
use trade_pulse.Redis.{Redis}
use trade_pulse.Domain.{TradeEvent}
use trade_pulse.Processor.Enricher.{Provider}
use trade_pulse.Processor.FanOut.{FanOut, Sink, order_book, redis_writer, broadcast, chan, set_chan}
use trade_pulse.Processor.OrderBook.{Store, new_store, apply}
use trade_pulse.Processor.RedisWriter.{write}
use trade_pulse.Processor.Pipeline
use trade_pulse.Processor.Pipeline.{Processor, Action, receives, new_processor}

-- Where the loop on a sink stands: at its `select`, with a trade that it has received, or returned.
pub data Loop : Type 0 where
  waiting : Loop
  holding : TradeEvent → Loop
  returned : Loop

pub record Loops : Type 0 where
  pub order_book : Loop
  pub redis_writer : Loop
  pub broadcast : Loop

abbrev pub loop_of : Sink → Loops → Loop
loop_of order_book l = l.order_book
loop_of redis_writer l = l.redis_writer
loop_of broadcast l = l.broadcast

abbrev pub set_loop : Sink → Loop → Loops → Loops
set_loop order_book x l = record l { order_book = x }
set_loop redis_writer x l = record l { redis_writer = x }
set_loop broadcast x l = record l { broadcast = x }

pub record System (R : Type 0) : Type 0 where
  pub upstream : Processor
  pub loops : Loops
  pub books : Store
  pub redis : R

-- A loop takes a trade from its sink, works it off, or returns after the cancellation.
pub data Move : Type 0 where
  upstream : Action → Move
  takes : Sink → Move
  works : Sink → Move
  returns : Sink → Move

-- What Run builds, from the configured sizes and what Redis holds.
unfoldable pub new_system : {R : Type 0} → ℤ → ℤ → R → System R
new_system pool_size buffer_size redis = record {
  upstream = new_processor pool_size buffer_size;
  loops = record { order_book = waiting; redis_writer = waiting; broadcast = waiting };
  books = new_store;
  redis = redis;
}

module _ (mul : Float64 → Float64 → Float64) (metadata : Provider)
    (decode : Text → Option TradeEvent) where
  -- A receive belongs to the loop of its sink.
  abbrev pub upstream_step : Action → Processor → Processor
  upstream_step (receives k) p = p
  upstream_step a p = Pipeline.step mul metadata decode a p

module _ (mul : Float64 → Float64 → Float64) (metadata : Provider)
    (decode : Text → Option TradeEvent) (c : Codec) (format_value : Float64 → Text) {R : Type 0}
    (ops : Redis R) where
  abbrev pub taken : Sink → System R → Option (TradeEvent × Chan TradeEvent) → System R
  taken k s none = s
  taken k s (some (event, from)) = record s {
    upstream = record (s.upstream) { fan = set_chan k from s.upstream.fan };
    loops = set_loop k (holding event) s.loops;
  }

  abbrev pub take_if : Sink → System R → Loop → System R
  take_if k s waiting = taken k s (receive (chan k s.upstream.fan))
  take_if k s _ = s

  -- Apply, Write with its error logged, or drainSink's entry in the log.
  abbrev pub work : Sink → TradeEvent → System R → System R
  work order_book event s = record s { books = apply s.books event }
  work redis_writer event s = record s {
    redis = (write c format_value ops event (some s.books) s.redis).0;
  }
  work broadcast event s = s

  abbrev pub work_if : Sink → System R → Loop → System R
  work_if k s (holding event) = record (work k event s) { loops = set_loop k waiting s.loops }
  work_if k s _ = s

  abbrev pub return_if : Sink → System R → Bool → Loop → System R
  return_if k s true waiting = record s { loops = set_loop k returned s.loops }
  return_if k s _ _ = s

  -- A move that is not ready changes nothing.
  unfoldable pub step : Move → System R → System R
  step (upstream a) s = record s { upstream = upstream_step mul metadata decode a s.upstream }
  step (takes k) s = take_if k s (loop_of k s.loops)
  step (works k) s = work_if k s (loop_of k s.loops)
  step (returns k) s = return_if k s s.upstream.cancelled (loop_of k s.loops)

  unfoldable pub run : List Move → System R → System R
  run [] s = s
  run (m ∷ moves) s = run moves (step m s)
