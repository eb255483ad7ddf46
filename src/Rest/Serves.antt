-- ===== src/Rest/Serves.antt =====
-- What the two services agree on: what processor-service writes to Redis is what api-service serves.
use trade_pulse.Prelude.{
  ◌≡◌, refl, sym, subst, ap, ◌∙◌, ◌⊎◌, inl, inr, true, false, Option, none, some,
}
use trade_pulse.Text.{Text, Casing, codes, is_empty}
use trade_pulse.Machine.{Float64}
use trade_pulse.Json.{Codec, IsCodec, ◌>>=◌}
use trade_pulse.Domain.{TradeEvent, OrderBook}
use trade_pulse.Domain.Keys.{key_latest_trade, key_order_book}
use trade_pulse.Domain.Json.{marshal_trade, unmarshal_trade}
use trade_pulse.Domain.Json.RoundTrip.{IsPrintable, unmarshal-marshal_trade}
use trade_pulse.Domain.BookJson.{marshal_book, unmarshal_book, is_marshallable}
use trade_pulse.Domain.BookJson.RoundTrip.{unmarshal-marshal_book}
use trade_pulse.Redis.{Redis, IsRedis, value, failed, reply_of}
use trade_pulse.Processor.OrderBook.{Store, get}
use trade_pulse.Processor.RedisWriter.{write}
use trade_pulse.Processor.RedisWriter.Writes.{HoldsBook, write-IsWritten}
use trade_pulse.Rest.{
  trade_found, book_found, normalize_symbol, latest_trade, get_order_book, write_error,
}

-- An answer by what a GET of a key says: `good` where it finds a value, `bad` where it fails.
abbrev pub IsServed : {R A : Type 0} → Redis R → Text → R → A → A → A → Type 0
IsServed ops key r answer good bad =
    (((v : Text) × (ops.get key r ≡ value v)) × (answer ≡ good))
    ⊎ (((e : Text) × (ops.get key r ≡ failed e)) × (answer ≡ bad))

module _ {R : Type 0} (c : Codec) (codec_laws : IsCodec c) (t : Casing)
    (format_value : Float64 → Text) (ops : Redis R) (laws : IsRedis ops) where
  -- The answer to a GET of a key that holds a value: the value, or a failure.
  get_found :
      (k v : Text) (r : R)
      → laws.held k r ≡ some v
      → (ops.get k r ≡ value v) ⊎ ((e : Text) × (ops.get k r ≡ failed e))
  get_found k v r h = elim (laws.get_held k r) [ inl e ↦ inl (e ∙ ap reply_of h) | inr e ↦ inr e ]

  trade_read_back :
      (event : TradeEvent) (text : Text)
      → IsPrintable event
      → marshal_trade c event ≡ some text
      → unmarshal_trade c text ≡ some event
  trade_read_back event text h e =
      ap (λ m. m >>= unmarshal_trade c) (sym e) ∙ unmarshal-marshal_trade c codec_laws event h

  -- Where the latest-trade key of a symbol holds the JSON of a trade, a request for the symbol is
  -- answered with the trade if the GET finds it, else with 503.
  pub held-latest_trade :
      (event : TradeEvent) (text : Text) (r : R) (param : Text)
      → IsPrintable event
      → marshal_trade c event ≡ some text
      → laws.held (key_latest_trade event.symbol) r ≡ some text
      → normalize_symbol t param ≡ event.symbol
      → is_empty event.symbol ≡ false
      → IsServed ops
          (key_latest_trade event.symbol)
          r
          (latest_trade c t ops param r)
          (trade_found event.symbol (some event))
          (write_error 503 (codes "redis unavailable"))
  unfolding latest_trade
  held-latest_trade event text r param printable marshalled held same full =
      elim (get_found (key_latest_trade event.symbol) text r held) [
        | inl e ↦
            inl
              ((text, e), rw (same, full, e, trade_read_back event text printable marshalled) refl)
        | inr (x, e) ↦ inr ((x, e), rw (same, full, e) refl)
      ]

  -- After a write that reports no error of a trade that can be printed, a request whose parameter,
  -- trimmed and in upper case, is its symbol is answered with that trade and 200 where the GET
  -- finds it, and with 503 where the GET fails. (The symbol is not empty, the codec reads back what it prints, and Redis keeps
  -- what it is given.)
  pub write-latest_trade :
      (event : TradeEvent) (books : Option Store) (r : R) (param : Text)
      → IsPrintable event
      → (write c format_value ops event books r).1 ≡ none
      → normalize_symbol t param ≡ event.symbol
      → is_empty event.symbol ≡ false
      → let after = (write c format_value ops event books r).0 in
        IsServed ops
          (key_latest_trade event.symbol)
          after
          (latest_trade c t ops param after)
          (trade_found event.symbol (some event))
          (write_error 503 (codes "redis unavailable"))
  write-latest_trade event books r param printable ok same full =
      let after = (write c format_value ops event books r).0 in
      let (text, marshalled, held) =
        (write-IsWritten c format_value ops laws event books r ok).latest in
      held-latest_trade event text after param printable marshalled held same full

  book_read_back :
      (book : OrderBook) (text : Text)
      → is_marshallable c book ≡ true
      → marshal_book c book ≡ some text
      → unmarshal_book c text ≡ some book
  book_read_back book text h e =
      ap (λ m. m >>= unmarshal_book c) (sym e) ∙ unmarshal-marshal_book c codec_laws book h

  -- After a write that reports no error, with a store that has a book for the symbol whose numbers
  -- are finite and whose time is before year 10000, a request whose parameter, trimmed and in
  -- upper case, is the symbol is answered with that book, cut to 20 levels a side, its best bid,
  -- its best ask and 200 where the GET finds it, and with 503 where it fails. (The symbol is not empty, the codec reads
  -- back what it prints, and Redis keeps what it is given.)
  pub write-get_order_book :
      (event : TradeEvent) (books : Store) (book : OrderBook) (r : R) (param : Text)
      → get books event.symbol ≡ some book
      → is_marshallable c book ≡ true
      → (write c format_value ops event (some books) r).1 ≡ none
      → normalize_symbol t param ≡ event.symbol
      → is_empty event.symbol ≡ false
      → let after = (write c format_value ops event (some books) r).0 in
        IsServed ops
          (key_order_book event.symbol)
          after
          (get_order_book c t ops param after)
          (book_found (some book))
          (write_error 503 (codes "redis unavailable"))
  unfolding get_order_book
  write-get_order_book event books book r param there printable ok same full =
      let after = (write c format_value ops event (some books) r).0 in
      let (text, marshalled, held) =
        subst (λ b. HoldsBook c format_value ops laws b event after) there
          (write-IsWritten c format_value ops laws event (some books) r ok).book in
      elim (get_found (key_order_book event.symbol) text after held) [
        | inl e ↦
            inl ((text, e), rw (same, full, e, book_read_back book text printable marshalled) refl)
        | inr (x, e) ↦ inr ((x, e), rw (same, full, e) refl)
      ]
