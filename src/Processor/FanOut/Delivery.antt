-- ===== src/Processor/FanOut/Delivery.antt =====
-- What a call of Publish has delivered, under any interleaving with the sinks and a cancellation.
use trade_pulse.Prelude.{
  ◌≡◌, refl, ◌⊎◌, inl, inr, ◌≢◌, ◌++◌, ◌<◌, Bool, true, List, [], ◌∷◌, Option, none, some, arith,
  length, if◌then◌else◌, Bool-cases,
}
use mathlib.Core.List.{append-nil}
use trade_pulse.Channel.{Chan, sent, send, receive, send-some, receive-some, send_with_room}
use trade_pulse.Domain.{TradeEvent}
use trade_pulse.Processor.FanOut.{
  Sink, order_book, redis_writer, broadcast, FanOut, chan, set_chan, Pending, is_pending, clear,
  Call, selecting, returned, loop, publish, Case, accept, ctx_done, publish_step, accepted, World,
  Turn, own, receives, cancels, after_step, after_receive, turn, run,
}

-- What a sink has been sent since the call began, by where the call stands.
abbrev pub Delivered : TradeEvent → List TradeEvent → Sink → Call → List TradeEvent → Type 0
Delivered event before k (selecting p) now =
    now ≡ before ++ (if is_pending k p then [] else event ∷ [])
Delivered event before k (returned none) now = now ≡ before ++ event ∷ []
Delivered event before k (returned (some e)) now = (now ≡ before) ⊎ (now ≡ before ++ event ∷ [])

abbrev pub DeliveredTo : TradeEvent → FanOut → World → Sink → Type 0
DeliveredTo event f w k = Delivered event (sent (chan k f)) k w.call (sent (chan k w.fan))

module _ (event : TradeEvent) where
  pub accept_delivers :
      (k j : Sink) (p : Pending) (f : FanOut) (c : Chan TradeEvent) (before : List TradeEvent)
      → send event (chan k f) ≡ some c
      → is_pending k p ≡ true
      → Delivered event before j (selecting p) (sent (chan j f))
      → Delivered event before j (loop (clear k p)) (sent (chan j (set_chan k c f)))
  accept_delivers order_book order_book p f c before s h d =
      ground (arith, send-some event f.order_book c s, append-nil before)
  accept_delivers order_book _ p f c before s h d = ground arith
  accept_delivers redis_writer redis_writer p f c before s h d =
      ground (arith, send-some event f.redis_writer c s, append-nil before)
  accept_delivers redis_writer _ p f c before s h d = ground arith
  accept_delivers broadcast broadcast p f c before s h d =
      ground (arith, send-some event f.broadcast c s, append-nil before)
  accept_delivers broadcast _ p f c before s h d = ground arith

  accepted_delivers :
      (f : FanOut) (k j : Sink) (p : Pending) (w : World) (r : Option (Chan TradeEvent))
      → send event (chan k w.fan) ≡ r
      → w.call ≡ selecting p
      → is_pending k p ≡ true
      → DeliveredTo event f w j
      → DeliveredTo event f (after_step w (accepted k p w.fan r)) j
  accepted_delivers f k j p w none s call h d = d
  accepted_delivers f k j p w (some c) s call h d =
      accept_delivers k j p w.fan c (sent (chan j f)) s h (rw call at d)

  own_delivers :
      (f : FanOut) (c : Case) (j : Sink) (w : World) (call : Call)
      → w.call ≡ call
      → DeliveredTo event f w j
      → DeliveredTo event f (after_step w (publish_step w.cancelled event c call w.fan)) j
  unfolding publish_step
  own_delivers f c j w (returned r) e d = d
  own_delivers f (accept k) j w (selecting p) e d = elim (Bool-cases (is_pending k p)) [
    | inl h ↦ rw h (accepted_delivers f k j p w (send event (chan k w.fan)) refl e h d)
    | inr h ↦ rw h d
  ]
  own_delivers f ctx_done j w (selecting p) e d = ground (arith, append-nil (sent (chan j f)))

  receive_delivers :
      (f : FanOut) (k j : Sink) (w : World) (r : Option (TradeEvent × Chan TradeEvent))
      → receive (chan k w.fan) ≡ r
      → DeliveredTo event f w j
      → DeliveredTo event f (after_receive k w r) j
  receive_delivers f k j w none e d = d
  receive_delivers f order_book order_book w (some (x, c)) e d =
      rw (← (receive-some w.fan.order_book c x e).0) d
  receive_delivers f order_book _ w (some (x, c)) e d = d
  receive_delivers f redis_writer redis_writer w (some (x, c)) e d =
      rw (← (receive-some w.fan.redis_writer c x e).0) d
  receive_delivers f redis_writer _ w (some (x, c)) e d = d
  receive_delivers f broadcast broadcast w (some (x, c)) e d =
      rw (← (receive-some w.fan.broadcast c x e).0) d
  receive_delivers f broadcast _ w (some (x, c)) e d = d

  turn_delivers :
      (f : FanOut) (t : Turn) (j : Sink) (w : World)
      → DeliveredTo event f w j
      → DeliveredTo event f (turn event t w) j
  unfolding turn
  turn_delivers f (own c) j w d = own_delivers f c j w w.call refl d
  turn_delivers f (receives k) j w d = receive_delivers f k j w (receive (chan k w.fan)) refl d
  turn_delivers f cancels j w d = d

  run_delivers :
      (f : FanOut) (ts : List Turn) (j : Sink) (w : World)
      → DeliveredTo event f w j
      → DeliveredTo event f (run event ts w) j
  unfolding run
  run_delivers f [] j w d = d
  run_delivers f (t ∷ ts) j w d = run_delivers f ts j (turn event t w) (turn_delivers f t j w d)

abbrev pub started : FanOut → Bool → World
started f cancelled = record { call = publish; fan = f; cancelled = cancelled }

started_delivers :
    (event : TradeEvent) (f : FanOut) (cancelled : Bool) (k : Sink)
    → DeliveredTo event f (started f cancelled) k
unfolding publish
started_delivers event f cancelled order_book = rw append-nil
started_delivers event f cancelled _ = rw append-nil

-- Under every interleaving of the call with the sinks and a cancellation, and for each sink: if
-- Publish has returned nil, the sink was sent the trade exactly once, after all it was sent before;
-- if it has returned the context's error, at most once; and while it waits, the trade was sent to
-- exactly the sinks that are no longer pending.
pub publish-Delivered :
    (event : TradeEvent) (f : FanOut) (cancelled : Bool) (ts : List Turn) (k : Sink)
    → Delivered event
        (sent (chan k f))
        k
        (run event ts (started f cancelled)).call
        (sent (chan k (run event ts (started f cancelled)).fan))
publish-Delivered event f cancelled ts k =
    run_delivers event f ts k (started f cancelled) (started_delivers event f cancelled k)

abbrev pub pushed : TradeEvent → Chan TradeEvent → Chan TradeEvent
pushed event c = record c { buffered = c.buffered ++ event ∷ [] }

-- A pending sink with room accepts, however full the other sinks are: its channel gets the trade,
-- the call goes on without it, and the other channels stay as they were.
pub accept_enabled :
    (cancelled : Bool) (event : TradeEvent) (k : Sink) (p : Pending) (f : FanOut)
    → is_pending k p ≡ true
    → length (chan k f).buffered < (chan k f).cap
    → publish_step cancelled event (accept k) (selecting p) f
      ≡ some (loop (clear k p), set_chan k (pushed event (chan k f)) f)
unfolding publish_step
accept_enabled cancelled event order_book p f h room =
    ground (arith, send_with_room event f.order_book room)
accept_enabled cancelled event redis_writer p f h room =
    ground (arith, send_with_room event f.redis_writer room)
accept_enabled cancelled event broadcast p f h room =
    ground (arith, send_with_room event f.broadcast room)

-- With room in each of the three sinks, Publish returns nil once they have accepted, in whichever
-- order.
pub publish_completes :
    (cancelled : Bool) (event : TradeEvent) (f : FanOut) (k j i : Sink)
    → k ≢ j
    → j ≢ i
    → k ≢ i
    → ((s : Sink) → length (chan s f).buffered < (chan s f).cap)
    → (run event (own (accept k) ∷ own (accept j) ∷ own (accept i) ∷ []) (started f cancelled)).call
      ≡ returned none
unfolding run turn publish publish_step
publish_completes cancelled event f k j i kj ji ki room = ground (
  arith,
  send_with_room event f.order_book (room order_book),
  send_with_room event f.redis_writer (room redis_writer),
  send_with_room event f.broadcast (room broadcast),
)
