-- ===== src/Processor/System/InHand.antt =====
-- What the three loops have received, worked off and still have in hand.
use mathlib.Core.List.{append-nil}
use trade_pulse.Prelude.{◌≡◌, refl, sym, ap, ◌∙◌, ◌++◌, List, [], ◌∷◌, some}
use trade_pulse.Prelude.Int.{ℤ}
use trade_pulse.Channel.{Chan, receive, receive-some, make}
use trade_pulse.Domain.{TradeEvent}
use trade_pulse.Processor.FanOut.{
  FanOut, Sink, order_book, redis_writer, broadcast, chan, set_chan, new_fan_out,
}
use trade_pulse.Processor.System.{Loop, Loops, waiting, holding, returned, loop_of, set_loop}

-- What a loop has received and not worked off yet.
abbrev pub in_hand : Loop → List TradeEvent
in_hand waiting = []
in_hand (holding event) = event ∷ []
in_hand returned = []

-- The trades that each loop has worked off, with one more.
abbrev pub also : Sink → TradeEvent → (Sink → List TradeEvent) → Sink → List TradeEvent
also order_book e d order_book = d order_book ++ e ∷ []
also redis_writer e d redis_writer = d redis_writer ++ e ∷ []
also broadcast e d broadcast = d broadcast ++ e ∷ []
also k e d j = d j

-- What a loop has received is what is done and what is in hand; after it has taken one more,
pub took :
    (k j : Sink) (f : FanOut) (l : Loops) (from : Chan TradeEvent) (event : TradeEvent)
    (done : List TradeEvent)
    → receive (chan k f) ≡ some (event, from)
    → loop_of k l ≡ waiting
    → (chan j f).received ≡ done ++ in_hand (loop_of j l)
    → (chan j (set_chan k from f)).received
      ≡ done ++ in_hand (loop_of j (set_loop k (holding event) l))
took order_book order_book f l from event done e w h =
    (receive-some f.order_book from event e).2
    ∙ ap (λ xs. xs ++ event ∷ []) (rw (w, append-nil done) at h)
took redis_writer redis_writer f l from event done e w h =
    (receive-some f.redis_writer from event e).2
    ∙ ap (λ xs. xs ++ event ∷ []) (rw (w, append-nil done) at h)
took broadcast broadcast f l from event done e w h =
    (receive-some f.broadcast from event e).2
    ∙ ap (λ xs. xs ++ event ∷ []) (rw (w, append-nil done) at h)
took order_book redis_writer f l from event done e w h = h
took order_book broadcast f l from event done e w h = h
took redis_writer order_book f l from event done e w h = h
took redis_writer broadcast f l from event done e w h = h
took broadcast order_book f l from event done e w h = h
took broadcast redis_writer f l from event done e w h = h

-- after it has worked one off,
pub worked :
    (k j : Sink) (l : Loops) (event : TradeEvent) (done : Sink → List TradeEvent)
    (received : List TradeEvent)
    → loop_of k l ≡ holding event
    → received ≡ done j ++ in_hand (loop_of j l)
    → received ≡ also k event done j ++ in_hand (loop_of j (set_loop k waiting l))
worked order_book order_book l event done received w h =
    (rw w at h) ∙ sym (append-nil (done order_book ++ event ∷ []))
worked redis_writer redis_writer l event done received w h =
    (rw w at h) ∙ sym (append-nil (done redis_writer ++ event ∷ []))
worked broadcast broadcast l event done received w h =
    (rw w at h) ∙ sym (append-nil (done broadcast ++ event ∷ []))
worked order_book redis_writer l event done received w h = h
worked order_book broadcast l event done received w h = h
worked redis_writer order_book l event done received w h = h
worked redis_writer broadcast l event done received w h = h
worked broadcast order_book l event done received w h = h
worked broadcast redis_writer l event done received w h = h

-- and after it has returned.
pub left :
    (k j : Sink) (l : Loops)
    → loop_of k l ≡ waiting
    → in_hand (loop_of j (set_loop k returned l)) ≡ in_hand (loop_of j l)
left order_book order_book l w = ap in_hand (sym w)
left redis_writer redis_writer l w = ap in_hand (sym w)
left broadcast broadcast l w = ap in_hand (sym w)
left order_book redis_writer l w = refl
left order_book broadcast l w = refl
left redis_writer order_book l w = refl
left redis_writer broadcast l w = refl
left broadcast order_book l w = refl
left broadcast redis_writer l w = refl

pub nothing_received :
    (buffer_size : ℤ) (k : Sink)
    → (chan k (new_fan_out buffer_size)).received
      ≡ in_hand
          (loop_of k (record { order_book = waiting; redis_writer = waiting; broadcast = waiting }))
unfolding new_fan_out make
nothing_received buffer_size order_book = refl
nothing_received buffer_size redis_writer = refl
nothing_received buffer_size broadcast = refl
