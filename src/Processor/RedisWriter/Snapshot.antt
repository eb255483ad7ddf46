-- ===== src/Processor/RedisWriter/Snapshot.antt =====
-- What a write does to the order-book keys.
use trade_pulse.Prelude.{
  ◌≡◌, refl, ◌∙◌, sym, ap, ◌⊎◌, inl, inr, some, arith, Option-cases, Bool-cases,
}
use trade_pulse.Text.{Text, text_eq, text_eq_iff}
use trade_pulse.Machine.{Float64}
use trade_pulse.Domain.{TradeEvent, OrderBook}
use trade_pulse.Domain.Keys.{
  key_price, key_latest_trade, key_order_book, key_kinds_ne, key_injective,
}
use trade_pulse.Domain.Json.{marshal_trade}
use trade_pulse.Domain.BookJson.{marshal_book}
use trade_pulse.Json.{Codec}
use trade_pulse.Redis.{Redis, IsRedis}
use trade_pulse.Processor.OrderBook.{Store, get}
use trade_pulse.Processor.RedisWriter.{set_order_book, write_book, write}
use trade_pulse.Processor.RedisWriter.Latest.{
  TakesAll, after_last, trade_set, write_text-write_book,
}

module _ {R : Type 0} (c : Codec) (format_value : Float64 → Text) (ops : Redis R)
    (laws : IsRedis ops) where
  -- The key holds the JSON of the store's book of the symbol.
  abbrev pub ShowsBook : Text → Store → R → Type 0
  ShowsBook symbol books r =
      (book : OrderBook) × (text : Text) × (get books symbol ≡ some book)
      × (marshal_book c book ≡ some text)
      × (laws.held (key_order_book symbol) r ≡ some text)

  -- The key holds what it held, or shows the store's book.
  abbrev pub KeptOrShown : Text → Store → R → R → Type 0
  KeptOrShown symbol books before after =
      (laws.held (key_order_book symbol) after ≡ laws.held (key_order_book symbol) before)
      ⊎ ShowsBook symbol books after

  book_set :
      (symbol of : Text) (books : Store) (book : OrderBook) (text : Text) (r : R)
      → TakesAll ops
      → get books of ≡ some book
      → marshal_book c book ≡ some text
      → KeptOrShown symbol books r (ops.set (key_order_book of) text r).0
  book_set symbol of books book text r ok there made = elim (Bool-cases (text_eq of symbol)) [
    | inl e ↦
        let same = (text_eq_iff of symbol).0 e in
        inr (
          book,
          text,
          ap (get books) (sym same) ∙ there,
          made,
          ap (λ x. laws.held (key_order_book x) (ops.set (key_order_book of) text r).0) (sym same)
              ∙ laws.set_held (key_order_book of) text r (ok (key_order_book of) text r),
        )
    | inr e ↦ inl (
        laws.set_other (key_order_book of) (key_order_book symbol) text r (λ q.
          let same = (key_injective of symbol).2 q in ground (arith, text_eq_iff of symbol, same)))
  ]

  write_book-KeptOrShown :
      (symbol : Text) (event : TradeEvent) (books : Store) (r : R)
      → TakesAll ops
      → KeptOrShown symbol books r (write_book c format_value ops event (some books) r).0
  write_book-KeptOrShown symbol event books r ok = elim (Option-cases (get books event.symbol)) [
    | inl e ↦ rw e (inl refl)
    | inr (book, e) ↦ elim (Option-cases (marshal_book c book)) [
      | inl f ↦ rw (e, f) (inl refl)
      | inr (text, f) ↦
          let set = ops.set (key_order_book event.symbol) text r in
          rw (e, f, after_last c format_value ops laws set_order_book set)
            (book_set symbol event.symbol books book text r ok e f)
    ]
  ]

  trade_set-kept :
      (symbol : Text) (event : TradeEvent) (text : Text) (r : R)
      → laws.held (key_order_book symbol) (trade_set c format_value ops laws event text r)
        ≡ laws.held (key_order_book symbol) r
  trade_set-kept symbol event text r =
      let first = (ops.set (key_latest_trade event.symbol) text r).0 in
      laws.set_other (key_price event.symbol) (key_order_book symbol) (format_value event.price)
        first (key_kinds_ne event.symbol symbol).1
      ∙ laws.set_other (key_latest_trade event.symbol) (key_order_book symbol) text r
          (key_kinds_ne event.symbol symbol).2

  -- A write leaves the order-book key of a symbol as it is, or sets it to the JSON of the store's book
  -- of the symbol. (Redis keeps what it is given, and takes every value.)
  pub write-KeptOrShown :
      (symbol : Text) (event : TradeEvent) (books : Store) (r : R)
      → TakesAll ops
      → KeptOrShown symbol books r (write c format_value ops event (some books) r).0
  unfolding write
  write-KeptOrShown symbol event books r ok = elim (Option-cases (marshal_trade c event)) [
    | inl e ↦ rw e (inl refl)
    | inr (text, e) ↦
        let mid = trade_set c format_value ops laws event text r in
        rw (e, write_text-write_book c format_value ops laws event (some books) text r ok)
          (elim (write_book-KeptOrShown symbol event books mid ok) [
            | inl kept ↦ inl (kept ∙ trade_set-kept symbol event text r)
            | inr shown ↦ inr shown
          ])
  ]
