-- ===== src/Processor/OrderBook.antt =====
-- services/processor-service/internal/orderbook.go: the in-memory book of each symbol. The lock
-- makes Get and Update atomic, and one goroutine, Run, is the only writer, so that a store is a
-- table passed on from call to call.
pub mod Replay
use trade_pulse.Prelude.{Bool, true, false, List, [], ◌∷◌, Option, none, some, if◌then◌else◌}
use trade_pulse.Text.{Text, text_eq}
use trade_pulse.Table.{Table, lookup, insert}
use trade_pulse.Domain.{TradeEvent, PriceLevel, OrderBook, Side, side_buy, side_sell, zero_book}

abbrev pub Store : Type 0
Store = Table OrderBook

unfoldable pub new_store : Store
new_store = []

unfoldable pub get : Store → Text → Option OrderBook
get s symbol = lookup symbol s

unfoldable pub update : Store → Text → OrderBook → Store
update s symbol book = insert symbol book s

abbrev pub or_zero : Option OrderBook → OrderBook
or_zero none = zero_book
or_zero (some book) = book

abbrev pub level_of : TradeEvent → PriceLevel
level_of event = record { price = event.price; quantity = event.quantity }

-- The `switch event.Side`: a side that is neither leaves both lists alone.
unfoldable pub set_side : Side → PriceLevel → OrderBook → OrderBook
set_side side level book =
    if text_eq side side_buy
    then record book { asks = level ∷ [] }
    else if text_eq side side_sell
    then record book { bids = level ∷ [] }
    else book

unfoldable pub apply : Store → TradeEvent → Store
unfolding get update set_side
apply s event =
    let found = or_zero (get s event.symbol) in
    let book = record found { symbol = event.symbol; last_update = event.event_time } in
    update s event.symbol (set_side event.side (level_of event) book)

-- What a `select` of the loop takes: a trade, or the cancellation.
pub data Input : Type 0 where
  trade : TradeEvent → Input
  done : Input

unfoldable pub run : Store → List Input → Store
run s [] = s
run s (done ∷ inputs) = s
run s (trade event ∷ inputs) = run (apply s event) inputs
