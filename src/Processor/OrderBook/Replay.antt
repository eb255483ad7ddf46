-- ===== src/Processor/OrderBook/Replay.antt =====
-- The book of a symbol after any sequence of trades, against a description that reads the trades
-- from the end.
use trade_pulse.Prelude.{
  ◌≡◌, refl, ◌∙◌, ◌++◌, Bool, true, ◌&&◌, List, [], ◌∷◌, map, Option, none, some, arith,
  if◌then◌else◌,
}
use trade_pulse.Text.{Text, text_eq, text_eq_iff}
use trade_pulse.Table.{lookup-insert}
use trade_pulse.Domain.{TradeEvent, PriceLevel, OrderBook, side_buy, side_sell}
use trade_pulse.Processor.OrderBook.{
  Store, Input, trade, done, or_zero, level_of, get, set_side, apply, update, run,
}

-- The last trade of a list that passes a test.
unfoldable pub latest : (TradeEvent → Bool) → List TradeEvent → Option TradeEvent
latest p [] = none
latest p (e ∷ es) = elim (latest p es) [
  | some later ↦ some later
  | none ↦ if p e then some e else none
]

abbrev pub levels_or : Option TradeEvent → List PriceLevel → List PriceLevel
levels_or none old = old
levels_or (some e) old = level_of e ∷ []

abbrev pub of_symbol : Text → TradeEvent → Bool
of_symbol symbol e = text_eq e.symbol symbol

abbrev pub of_buyer : Text → TradeEvent → Bool
of_buyer symbol e = text_eq e.symbol symbol && text_eq e.side side_buy

abbrev pub of_seller : Text → TradeEvent → Bool
of_seller symbol e = text_eq e.symbol symbol && text_eq e.side side_sell

-- The book that the trades leave: nothing without a trade of the symbol, else the time of the last
-- one, the level of the last buy as the only ask and that of the last sell as the only bid.
unfoldable pub book_after : Text → List TradeEvent → Option OrderBook → Option OrderBook
book_after symbol es old = elim (latest (of_symbol symbol) es) [
  | none ↦ old
  | some e ↦ some (record {
    symbol = symbol;
    bids = levels_or (latest (of_seller symbol) es) (or_zero old).bids;
    asks = levels_or (latest (of_buyer symbol) es) (or_zero old).asks;
    last_update = e.event_time;
  })
]

get-apply :
    (symbol : Text) (s : Store) (e : TradeEvent)
    → get (apply s e) symbol ≡ book_after symbol (e ∷ []) (get s symbol)
unfolding get update apply book_after latest set_side
get-apply symbol s e = ground (
  arith,
  lookup-insert e.symbol symbol
      (set_side e.side (level_of e)
        (record (or_zero (get s e.symbol)) { symbol = e.symbol; last_update = e.event_time }))
      s,
  text_eq_iff e.symbol symbol,
  text_eq_iff e.side side_buy,
  text_eq_iff e.side side_sell,
)

-- No trade passes a stronger test where none passes the weaker.
latest-none :
    (p q : TradeEvent → Bool) (es : List TradeEvent)
    → ((e : TradeEvent) → q e ≡ true → p e ≡ true)
    → latest p es ≡ none
    → latest q es ≡ none
unfolding latest
latest-none p q [] h e = refl
latest-none p q (x ∷ es) h e = ground (arith, h x, latest-none p q es h)

book_after-cons :
    (symbol : Text) (e : TradeEvent) (es : List TradeEvent) (old : Option OrderBook)
    → book_after symbol (e ∷ es) old ≡ book_after symbol es (book_after symbol (e ∷ []) old)
unfolding book_after latest
book_after-cons symbol e es old = ground (
  arith,
  latest-none (of_symbol symbol) (of_seller symbol) es (λ x h. ground arith),
  latest-none (of_symbol symbol) (of_buyer symbol) es (λ x h. ground arith),
)

-- After any trades, Get finds for a symbol what it found before if none of them is of the symbol;
-- else a book with the time of the last such trade, whose only ask is the level of its last buy and
-- whose only bid that of its last sell, or the old asks or bids where there was no buy or no sell.
pub run-book_after :
    (symbol : Text) (s : Store) (es : List TradeEvent)
    → get (run s (map trade es)) symbol ≡ book_after symbol es (get s symbol)
unfolding run
run-book_after symbol s [] = unfold book_after latest in refl
run-book_after symbol s (e ∷ es) =
    run-book_after symbol (apply s e) es
    ∙ rw (get-apply symbol s e, ← book_after-cons symbol e es (get s symbol))

-- What comes after the cancellation is not applied.
pub run-done :
    (s : Store) (es : List TradeEvent) (rest : List Input)
    → run s (map trade es ++ done ∷ rest) ≡ run s (map trade es)
unfolding run
run-done s [] rest = refl
run-done s (e ∷ es) rest = run-done (apply s e) es rest
