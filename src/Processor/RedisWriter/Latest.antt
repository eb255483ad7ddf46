-- ===== src/Processor/RedisWriter/Latest.antt =====
-- The latest-trade key after the loop of the writer, against a description that reads the trades from
-- the end.
use trade_pulse.Prelude.{
  ◌≡◌, refl, ◌∙◌, sym, ap, Bool, true, false, ◌&&◌, List, [], ◌∷◌, map, Option, none, some, arith,
  inl, inr, Option-cases, Bool-cases, if◌then◌else◌,
}
use trade_pulse.Text.{Text, text_eq, text_eq_iff}
use trade_pulse.Machine.{Float64}
use trade_pulse.Domain.{TradeEvent}
use trade_pulse.Domain.Keys.{
  key_price, key_latest_trade, key_order_book, key_kinds_ne, key_injective,
}
use trade_pulse.Domain.Json.{marshal_trade}
use trade_pulse.Domain.BookJson.{marshal_book}
use trade_pulse.Json.{Codec}
use trade_pulse.Redis.{Redis, IsRedis}
use trade_pulse.Processor.OrderBook.{Store, trade, get}
use trade_pulse.Processor.OrderBook.Replay.{latest, of_symbol}
use trade_pulse.Processor.RedisWriter.{
  WriteError, set_latest_trade, set_price, set_order_book, after_set, write_book, write_text, write,
  run,
}

-- The server takes every value.
abbrev pub TakesAll : {R : Type 0} → Redis R → Type 0
TakesAll {R} ops = (k v : Text) (r : R) → (ops.set k v r).1 ≡ none

abbrev pub is_marshalled : Option Text → Bool
is_marshalled none = false
is_marshalled (some text) = true

abbrev pub text_or : Option Text → Option Text → Option Text
text_or none old = old
text_or (some text) old = some text

-- Whether a trade is of the symbol and json.Marshal takes it.
abbrev pub shows : Codec → Text → TradeEvent → Bool
shows c symbol e = of_symbol symbol e && is_marshalled (marshal_trade c e)

abbrev pub text_of : Codec → Option TradeEvent → Option Text
text_of c none = none
text_of c (some e) = marshal_trade c e

-- What the key holds after the trades: the JSON of the last one that it can show, or what it held.
unfoldable pub text_after : Codec → Text → List TradeEvent → Option Text → Option Text
text_after c symbol es old = text_or (text_of c (latest (shows c symbol) es)) old

pub latest-passes :
    (p : TradeEvent → Bool) (es : List TradeEvent) (e : TradeEvent)
    → latest p es ≡ some e
    → p e ≡ true
unfolding latest
latest-passes p [] e h = absurd (ground arith)
latest-passes p (x ∷ es) e h = ground (arith, latest-passes p es e)

marshalled_or :
    (m old older : Option Text) → is_marshalled m ≡ true → text_or m old ≡ text_or m older
marshalled_or none old older h = absurd (ground arith)
marshalled_or (some text) old older h = refl

pub text_after-cons :
    (c : Codec) (symbol : Text) (e : TradeEvent) (es : List TradeEvent) (old : Option Text)
    → text_after c symbol (e ∷ es) old ≡ text_after c symbol es (text_after c symbol (e ∷ []) old)
unfolding text_after latest
text_after-cons c symbol e es old = elim (Option-cases (latest (shows c symbol) es)) [
  | inl h ↦ rw h refl
  | inr (x, h) ↦ rw h (
      marshalled_or (marshal_trade c x) old
        (text_or (text_of c (if shows c symbol e then some e else none)) old)
        (ground (arith, latest-passes (shows c symbol) es x h)))
]

module _ {R : Type 0} (c : Codec) (format_value : Float64 → Text) (ops : Redis R)
    (laws : IsRedis ops) where
  pub after_last :
      (wrap : Text → WriteError) (x : R × Option Text)
      → (after_set c format_value ops wrap x (λ r. (r, none))).0 ≡ x.0
  after_last wrap (r, none) = refl
  after_last wrap (r, some e) = refl

  pub after_ok :
      (wrap : Text → WriteError) (x : R × Option Text) (rest : R → R × Option WriteError)
      → x.1 ≡ none
      → after_set c format_value ops wrap x rest ≡ rest x.0
  after_ok wrap (r, none) rest h = refl
  after_ok wrap (r, some e) rest h = absurd (ground arith)

  -- The part of a write that is about the book leaves the latest trades alone, whether it fails or not.
  write_book-latest :
      (symbol : Text) (event : TradeEvent) (books : Option Store) (r : R)
      → laws.held (key_latest_trade symbol) (write_book c format_value ops event books r).0
        ≡ laws.held (key_latest_trade symbol) r
  write_book-latest symbol event none r = refl
  write_book-latest symbol event (some books) r = elim (Option-cases (get books event.symbol)) [
    | inl e ↦ rw e refl
    | inr (book, e) ↦ elim (Option-cases (marshal_book c book)) [
      | inl f ↦ rw (e, f) refl
      | inr (text, f) ↦
          let set = ops.set (key_order_book event.symbol) text r in
          rw (e, f)
            (ap (laws.held (key_latest_trade symbol)) (after_last set_order_book set)
              ∙ laws.set_other (key_order_book event.symbol) (key_latest_trade symbol) text r
                  (λ q. (key_kinds_ne symbol event.symbol).2 (sym q)))
    ]
  ]

  -- The state after the two values of the trade are set.
  abbrev pub trade_set : TradeEvent → Text → R → R
  trade_set event text r =
      (ops.set (key_price event.symbol) (format_value event.price)
        (ops.set (key_latest_trade event.symbol) text r).0).0

  pub write_text-write_book :
      (event : TradeEvent) (books : Option Store) (text : Text) (r : R)
      → TakesAll ops
      → write_text c format_value ops event books (some text) r
        ≡ write_book c format_value ops event books (trade_set event text r)
  write_text-write_book event books text r ok =
      let k₁ = key_latest_trade event.symbol in
      let k₂ = key_price event.symbol in
      let first = ops.set k₁ text r in
      after_ok set_latest_trade first
        (λ r'.
          after_set c format_value ops set_price (ops.set k₂ (format_value event.price) r')
            (write_book c format_value ops event books))
        (ok k₁ text r)
      ∙ after_ok set_price (ops.set k₂ (format_value event.price) first.0)
          (write_book c format_value ops event books) (ok k₂ (format_value event.price) first.0)

  write_text-latest :
      (symbol : Text) (event : TradeEvent) (books : Option Store) (text : Text) (r : R)
      → TakesAll ops
      → laws.held
          (key_latest_trade symbol)
          (write_text c format_value ops event books (some text) r).0
        ≡ (if text_eq event.symbol symbol then some text else laws.held (key_latest_trade symbol) r)
  write_text-latest symbol event books text r ok =
      let k₁ = key_latest_trade event.symbol in
      let k₂ = key_price event.symbol in
      let first = ops.set k₁ text r in
      ap (λ (x : R × Option WriteError). laws.held (key_latest_trade symbol) x.0)
        (write_text-write_book event books text r ok)
      ∙ write_book-latest symbol event books (trade_set event text r)
      ∙ laws.set_other k₂ (key_latest_trade symbol) (format_value event.price) first.0
          (key_kinds_ne event.symbol symbol).0
      ∙ elim (Bool-cases (text_eq event.symbol symbol)) [
        | inl e ↦
            let same = (text_eq_iff event.symbol symbol).0 e in
            rw e (
              ap (λ s. laws.held (key_latest_trade s) first.0) (sym same)
              ∙ laws.set_held k₁ text r (ok k₁ text r))
        | inr e ↦ rw e (
            laws.set_other k₁ (key_latest_trade symbol) text r (λ q.
              let same = (key_injective event.symbol symbol).1 q in
              ground (arith, text_eq_iff event.symbol symbol, same)))
      ]

  -- One write, whether it fails later or not.
  pub write-text_after :
      (symbol : Text) (event : TradeEvent) (books : Option Store) (r : R)
      → TakesAll ops
      → laws.held (key_latest_trade symbol) (write c format_value ops event books r).0
        ≡ text_after c symbol (event ∷ []) (laws.held (key_latest_trade symbol) r)
  unfolding write text_after latest
  write-text_after symbol event books r ok = elim (Option-cases (marshal_trade c event)) [
    | inl e ↦ rw e (ground (arith, e))
    | inr (text, e) ↦ rw e (write_text-latest symbol event books text r ok ∙ ground (arith, e))
  ]

  -- After the loop has taken any trades, the latest-trade key of a symbol holds the JSON of the last of
  -- them that is of the symbol and that json.Marshal takes, or what it held before if there is none;
  -- trades that cannot be marshalled, and books that cannot, make no difference. (Redis keeps what
  -- it is given, and takes every value.)
  pub run-text_after :
      (symbol : Text) (books : Option Store) (es : List TradeEvent) (r : R)
      → TakesAll ops
      → laws.held (key_latest_trade symbol) (run c format_value ops books (map trade es) r)
        ≡ text_after c symbol es (laws.held (key_latest_trade symbol) r)
  unfolding run
  run-text_after symbol books [] r ok = unfold text_after latest in refl
  run-text_after symbol books (e ∷ es) r ok =
      run-text_after symbol books es (write c format_value ops e books r).0 ok
      ∙ rw
          (
            write-text_after symbol e books r ok,
            ← text_after-cons c symbol e es (laws.held (key_latest_trade symbol) r),
          )
          refl
