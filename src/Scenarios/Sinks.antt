-- ===== src/Scenarios/Sinks.antt =====
-- The fan-out, the order book, the handlers and the Redis writer of processor-service.
use trade_pulse.Prelude.{
  ℕ, suc, ◌≡◌, refl, ◌<◌, true, false, List, [], ◌∷◌, ◌++◌, map, Option, none, some, arith, length,
  if◌then◌else◌, ◌==◌, ltb,
}
use trade_pulse.Text.{Text, codes, text_eq}
use trade_pulse.Channel.{sent}
use trade_pulse.Domain.{TradeEvent, side_sell}
use trade_pulse.Processor.FanOut.{
  FanOut, Sink, order_book, redis_writer, broadcast, Pending, accept, own, receives, cancels, chan,
  returned, run,
}
use trade_pulse.Processor.FanOut.Delivery.{Delivered, started, publish-Delivered, publish_completes}
use trade_pulse.Processor.OrderBook.{Store, new_store, get, trade}
use trade_pulse.Processor.OrderBook.Replay.{book_after, run-book_after}
use trade_pulse.Processor.Handler.{Handler, Middleware}
use trade_pulse.Processor.Consumer.{Record, Poll, dispatch, dispatch_all}
use trade_pulse.Processor.Consumer.Marks.{
  records_before, settled, handle_all, run-settled, CoversMarks, failed_record_passed_over,
}
use trade_pulse.Scenarios.Data.{btc, buy, sell, decode, first_record, second_record, bad_record}

abbrev two_slots : FanOut
two_slots = record {
  order_book = record { cap = 2; buffered = sell ∷ []; received = [] };
  redis_writer = record { cap = 2; buffered = []; received = [] };
  broadcast = record { cap = 2; buffered = []; received = [] };
}

publish-Delivered_example :
    Delivered buy
      (sent (chan order_book two_slots))
      order_book
      (run buy
        (own (accept broadcast) ∷ own (accept order_book) ∷ receives order_book ∷ cancels ∷ [])
        (started two_slots false)).call
      (sent (
        chan order_book
          (run buy
            (own (accept broadcast) ∷ own (accept order_book) ∷ receives order_book ∷ cancels ∷ [])
            (started two_slots false)).fan))
publish-Delivered_example =
    publish-Delivered buy two_slots false
      (own (accept broadcast) ∷ own (accept order_book) ∷ receives order_book ∷ cancels ∷ [])
      order_book

abbrev all_pending : Pending
all_pending = record { ob = true; rw = true; bc = true }

has_room : (s : Sink) → length (chan s two_slots).buffered < (chan s two_slots).cap
has_room order_book = omega arith
has_room redis_writer = omega arith
has_room broadcast = omega arith

publish_completes_example :
    (run buy
      (own (accept broadcast) ∷ own (accept redis_writer) ∷ own (accept order_book) ∷ [])
      (started two_slots false)).call
    ≡ returned none
publish_completes_example =
    publish_completes false buy two_slots broadcast redis_writer order_book (λ h. cc) (λ h. cc)
      (λ h. cc) has_room

run-book_after_example :
    get (trade_pulse.Processor.OrderBook.run new_store (map trade (buy ∷ sell ∷ []))) btc
    ≡ book_after btc (buy ∷ sell ∷ []) (get new_store btc)
run-book_after_example = run-book_after btc new_store (buy ∷ sell ∷ [])

-- A handler that refuses sells and keeps the others.
abbrev refuse_sells : Handler (List TradeEvent) Text
refuse_sells event s =
    (s ++ event ∷ [], (if text_eq event.side side_sell then some (codes "refused") else none))

abbrev refusal : TradeEvent → Option Text
refusal event = if text_eq event.side side_sell then some (codes "refused") else none

abbrev polls : List Poll
polls =
    record { cancelled = false; records = second_record ∷ bad_record ∷ first_record ∷ [] }
    ∷ record { cancelled = true; records = first_record ∷ [] }
    ∷ []

run-settled_example :
    (trade_pulse.Processor.Consumer.run decode refuse_sells polls
      (record { handler = []; marked = [] })).0
    ≡ record {
      handler = handle_all decode refuse_sells refusal (records_before polls) [];
      marked = [] ++ settled decode refuse_sells refusal (records_before polls);
    }
run-settled_example = run-settled decode refuse_sells refusal (λ event s. refl) polls [] []

-- The commit position of a partition: past the largest offset that was marked.
abbrev past_all : ℕ → List Record → ℕ
past_all p [] = 0
past_all p (rec ∷ recs) =
    let rest = past_all p recs in
    if rec.partition == p
    then (if ltb rest (suc rec.offset) then suc rec.offset else rest)
    else rest

past_all-CoversMarks : CoversMarks past_all
past_all-CoversMarks [] rec = ground arith
past_all-CoversMarks (x ∷ marked) rec = ground (arith, past_all-CoversMarks marked rec)

abbrev first_later : Record
first_later = record { partition = 0; offset = 5; key = btc; value = 0 ∷ [] }

failed_record_passed_over_example :
    let r =
      dispatch_all decode refuse_sells
        (second_record ∷ first_later ∷ [])
        (record { handler = []; marked = [] }) in
    (r.marked ≡ [] ++ first_later ∷ [])
    × (second_record.offset < past_all second_record.partition r.marked)
unfolding text_eq
failed_record_passed_over_example =
    failed_record_passed_over decode refuse_sells past_all past_all-CoversMarks second_record
      first_later sell buy [] [] refl refl refl refl refl (omega arith)

abbrev keep_text : Handler (List Text) Text
keep_text event s = (s ++ event.symbol ∷ [], none)

abbrev note : Text → Middleware (List Text) Text
note t next event s = next event (s ++ t ∷ [])
