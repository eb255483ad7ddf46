-- ===== src/Processor/FanOut.antt =====
-- services/processor-service/internal/fanout.go: each published trade goes to three sinks. A `select`
-- is a step whose case the schedule chooses among those that are ready.
pub mod Delivery
use trade_pulse.Prelude.{
  ℕ, Bool, true, false, ◌||◌, List, [], ◌∷◌, Option, none, some, if◌then◌else◌,
}
use trade_pulse.Prelude.Int.{ℤ, pos, negsuc}
use trade_pulse.Channel.{Chan, make, send, receive}
use trade_pulse.Machine.{leb_ℤ}
use trade_pulse.Domain.{TradeEvent}

pub data Sink : Type 0 where
  order_book redis_writer broadcast : Sink

pub record FanOut : Type 0 where
  pub order_book : Chan TradeEvent
  pub redis_writer : Chan TradeEvent
  pub broadcast : Chan TradeEvent

abbrev pub default_fan_out_buffer : ℕ
default_fan_out_buffer = 256

-- The size of a buffer from the configured int, the guard of NewFanOut.
unfoldable pub size_or : ℕ → ℤ → ℕ
size_or default (pos ℕ.zero) = default
size_or default (pos (ℕ.suc n)) = ℕ.suc n
size_or default (negsuc n) = default

unfoldable pub new_fan_out : ℤ → FanOut
unfolding size_or
new_fan_out buffer_size =
    let size = size_or default_fan_out_buffer buffer_size in
    record { order_book = make size; redis_writer = make size; broadcast = make size }

abbrev pub chan : Sink → FanOut → Chan TradeEvent
chan order_book f = f.order_book
chan redis_writer f = f.redis_writer
chan broadcast f = f.broadcast

abbrev pub set_chan : Sink → Chan TradeEvent → FanOut → FanOut
set_chan order_book c f = record f { order_book = c }
set_chan redis_writer c f = record f { redis_writer = c }
set_chan broadcast c f = record f { broadcast = c }

-- Which of the variables ob, rw, bc of Publish are not nil yet.
pub record Pending : Type 0 where
  pub ob : Bool
  pub rw : Bool
  pub bc : Bool

abbrev pub is_pending : Sink → Pending → Bool
is_pending order_book p = p.ob
is_pending redis_writer p = p.rw
is_pending broadcast p = p.bc

abbrev pub clear : Sink → Pending → Pending
clear order_book p = record p { ob = false }
clear redis_writer p = record p { rw = false }
clear broadcast p = record p { bc = false }

pub data CtxError : Type 0 where
  canceled : CtxError

-- Where a call of Publish stands: at its `select`, or returned.
pub data Call : Type 0 where
  selecting : Pending → Call
  returned : Option CtxError → Call

-- The test of the loop.
abbrev pub loop : Pending → Call
loop p = if p.ob || p.rw || p.bc then selecting p else returned none

unfoldable pub publish : Call
publish = loop (record { ob = true; rw = true; bc = true })

pub data Case : Type 0 where
  accept : Sink → Case
  ctx_done : Case

abbrev pub accepted : Sink → Pending → FanOut → Option (Chan TradeEvent) → Option (Call × FanOut)
accepted k p f none = none
accepted k p f (some c) = some (loop (clear k p), set_chan k c f)

-- One case of the `select`; `none` where it is not ready.
unfoldable pub publish_step : Bool → TradeEvent → Case → Call → FanOut → Option (Call × FanOut)
publish_step cancelled event c (returned r) f = none
publish_step cancelled event (accept k) (selecting p) f =
    if is_pending k p then accepted k p f (send event (chan k f)) else none
publish_step cancelled event ctx_done (selecting p) f =
    if cancelled then some (returned (some canceled), f) else none

-- A call, the fan-out, and its context, with what else may happen meanwhile.
pub record World : Type 0 where
  pub call : Call
  pub fan : FanOut
  pub cancelled : Bool

pub data Turn : Type 0 where
  own : Case → Turn
  receives : Sink → Turn
  cancels : Turn

abbrev pub after_step : World → Option (Call × FanOut) → World
after_step w none = w
after_step w (some (call, fan)) = record w { call = call; fan = fan }

abbrev pub after_receive : Sink → World → Option (TradeEvent × Chan TradeEvent) → World
after_receive k w none = w
after_receive k w (some (event, c)) = record w { fan = set_chan k c w.fan }

-- A turn that is not ready changes nothing.
unfoldable pub turn : TradeEvent → Turn → World → World
turn event (own c) w = after_step w (publish_step w.cancelled event c w.call w.fan)
turn event (receives k) w = after_receive k w (receive (chan k w.fan))
turn event cancels w = record w { cancelled = true }

unfoldable pub run : TradeEvent → List Turn → World → World
run event [] w = w
run event (t ∷ ts) w = run event ts (turn event t w)
