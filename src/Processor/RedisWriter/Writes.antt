-- ===== src/Processor/RedisWriter/Writes.antt =====
-- What a write leaves in Redis.
use trade_pulse.Prelude.{
  ◌≡◌, refl, ap, ◌∙◌, sym, subst, ◌≢◌, Option, none, some, arith, Bool, true, false, ◌||◌,
  Bool-cases, inl, inr, ◌⊎◌,
}
use trade_pulse.Text.{Text, text_eq, text_eq_iff}
use trade_pulse.Machine.{Float64}
use trade_pulse.Domain.{TradeEvent, OrderBook}
use trade_pulse.Domain.Keys.{key_price, key_latest_trade, key_order_book, key_kinds_ne}
use trade_pulse.Domain.Json.{marshal_trade}
use trade_pulse.Domain.BookJson.{marshal_book}
use trade_pulse.Json.{Codec}
use trade_pulse.Redis.{Redis, IsRedis}
use trade_pulse.Processor.OrderBook.{Store, get}
use trade_pulse.Processor.RedisWriter.{
  WriteError, set_latest_trade, set_price, set_order_book, after_set, write_book_text, write_found,
  write_book, write_text, write,
}

-- The key of the book that a write adds, if it adds one.
abbrev pub is_book_key : Option OrderBook → Text → Text → Bool
is_book_key none symbol k = false
is_book_key (some book) symbol k = text_eq (key_order_book symbol) k

-- One of the keys that a write sets.
abbrev pub is_key_of : Option OrderBook → Text → Text → Bool
is_key_of book symbol k =
    text_eq (key_latest_trade symbol) k || text_eq (key_price symbol) k || is_book_key book symbol k

not_book_key :
    (book : Option OrderBook) (symbol k : Text)
    → key_order_book symbol ≢ k
    → is_book_key book symbol k ≡ false
not_book_key none symbol k d = refl
not_book_key (some book) symbol k d = ground (arith, text_eq_iff (key_order_book symbol) k)

other_key :
    (book : Option OrderBook) (symbol k : Text)
    → is_key_of book symbol k ≡ false
    → (key_latest_trade symbol ≢ k) × (key_price symbol ≢ k) × (is_book_key book symbol k ≡ false)
other_key book symbol k h =
    let e₁ = text_eq_iff (key_latest_trade symbol) k in
    let e₂ = text_eq_iff (key_price symbol) k in
    (λ d. ground (arith, e₁.1 d), λ d. ground (arith, e₂.1 d), ground arith)

module _ {R : Type 0} (c : Codec) (format_value : Float64 → Text) (ops : Redis R)
    (laws : IsRedis ops) where
  -- The book that a write adds, of those that Get finds.
  abbrev pub found : Option Store → Text → Option OrderBook
  found none symbol = none
  found (some books) symbol = get books symbol

  -- What Redis holds after a write of a trade, with the book that was found, if any.
  abbrev pub HoldsBook : Option OrderBook → TradeEvent → R → Type 0
  HoldsBook none event r = Unit
  HoldsBook (some book) event r =
      (text : Text) × (marshal_book c book ≡ some text)
      × (laws.held (key_order_book event.symbol) r ≡ some text)

  pub record IsWritten (event : TradeEvent) (books : Option Store) (before after : R) : Type 0 where
    pub latest :
        (text : Text) × (marshal_trade c event ≡ some text)
        × (laws.held (key_latest_trade event.symbol) after ≡ some text)
    pub price : laws.held (key_price event.symbol) after ≡ some (format_value event.price)
    pub book : HoldsBook (found books event.symbol) event after
    pub others :
        (k : Text)
        → (is_key_of (found books event.symbol) event.symbol k ≡ true)
          ⊎ (laws.held k after ≡ laws.held k before)

  after_set_ok :
      (wrap : Text → WriteError) (x : R × Option Text) (rest : R → R × Option WriteError)
      → (after_set c format_value ops wrap x rest).1 ≡ none
      → (x.1 ≡ none) × (after_set c format_value ops wrap x rest ≡ rest x.0)
  after_set_ok wrap (r, none) rest h = (refl, refl)
  after_set_ok wrap (r, some e) rest h = absurd (ground arith)

  -- What the last write, that of the book, leaves.
  abbrev LeavesBook : TradeEvent → Option OrderBook → R → R → Type 0
  LeavesBook event book before after =
      HoldsBook book event after
      × ((k : Text)
          → is_book_key book event.symbol k ≡ false
          → laws.held k after ≡ laws.held k before)

  write_book_text-LeavesBook :
      (event : TradeEvent) (book : OrderBook) (r : R) (m : Option Text)
      → marshal_book c book ≡ m
      → (write_book_text c format_value ops event m r).1 ≡ none
      → LeavesBook event (some book) r (write_book_text c format_value ops event m r).0
  write_book_text-LeavesBook event book r none e h = absurd (ground arith)
  write_book_text-LeavesBook event book r (some text) e h =
      let set = ops.set (key_order_book event.symbol) text r in
      let (ok, same) = after_set_ok set_order_book set (λ r'. (r', none)) h in
      rw same (
        (text, e, laws.set_held (key_order_book event.symbol) text r ok),
        λ k d.
            laws.set_other (key_order_book event.symbol) k text r
              (λ q. ground (arith, (text_eq_iff (key_order_book event.symbol) k).1 q)),
      )

  write_book-LeavesBook :
      (event : TradeEvent) (books : Option Store) (r : R) (book : Option OrderBook)
      → found books event.symbol ≡ book
      → (write_book c format_value ops event books r).1 ≡ none
      → LeavesBook event
          (found books event.symbol)
          r
          (write_book c format_value ops event books r).0
  write_book-LeavesBook event none r book e h = (tt, λ k d. refl)
  write_book-LeavesBook event (some books) r none e h = rw e (tt, λ k d. refl)
  write_book-LeavesBook event (some books) r (some book) e h = rw e (
      write_book_text-LeavesBook event book r (marshal_book c book) refl
        (subst (λ x. (write_found c format_value ops event x r).1 ≡ none) e h))

  write_text-IsWritten :
      (event : TradeEvent) (books : Option Store) (r : R) (m : Option Text)
      → marshal_trade c event ≡ m
      → (write_text c format_value ops event books m r).1 ≡ none
      → IsWritten event books r (write_text c format_value ops event books m r).0
  write_text-IsWritten event books r none e h = absurd (ground arith)
  write_text-IsWritten event books r (some text) e h =
      let k₁ = key_latest_trade event.symbol in
      let k₂ = key_price event.symbol in
      let (ne₁, ne₂, ne₃) = key_kinds_ne event.symbol event.symbol in
      let first = ops.set k₁ text r in
      let second = ops.set k₂ (format_value event.price) first.0 in
      let (ok₁, same₁) =
        after_set_ok set_latest_trade first
          (λ r'.
            after_set c format_value ops set_price (ops.set k₂ (format_value event.price) r')
              (write_book c format_value ops event books))
          h in
      let (ok₂, same₂) =
        after_set_ok set_price second (write_book c format_value ops event books)
          (ap (λ x. x.1) (sym same₁) ∙ h) in
      let all = same₁ ∙ same₂ in
      let (book, others) =
        write_book-LeavesBook event books second.0 (found books event.symbol) refl
          (ap (λ x. x.1) (sym all) ∙ h) in
      subst (λ x. IsWritten event books r x.0) (sym all)
        (record {
          latest = (
            text,
            e,
            others k₁ (not_book_key (found books event.symbol) event.symbol k₁ (λ q. ne₃ (sym q)))
                ∙ laws.set_other k₂ k₁ (format_value event.price) first.0 ne₁
                ∙ laws.set_held k₁ text r ok₁,
          );
          price =
              others k₂ (not_book_key (found books event.symbol) event.symbol k₂ (λ q. ne₂ (sym q)))
              ∙ laws.set_held k₂ (format_value event.price) first.0 ok₂;
          book = book;
          others = λ k. elim (Bool-cases (is_key_of (found books event.symbol) event.symbol k)) [
            | inl h ↦ inl h
            | inr h ↦
                let (d₁, d₂, d₃) = other_key (found books event.symbol) event.symbol k h in
                inr (
                  others k d₃
                  ∙ laws.set_other k₂ k (format_value event.price) first.0 d₂
                  ∙ laws.set_other k₁ k text r d₁)
          ];
        })

  -- A write that reports no error left the trade's JSON under the latest-trade key of its symbol,
  -- the price under the price key, the JSON of the symbol's order book, if the store has one,
  -- under its key, and every other key as it was: the order-book key too, if the store has no book. (Redis keeps what it is given.)
  pub write-IsWritten :
      (event : TradeEvent) (books : Option Store) (r : R)
      → (write c format_value ops event books r).1 ≡ none
      → IsWritten event books r (write c format_value ops event books r).0
  unfolding write
  write-IsWritten event books r h =
      write_text-IsWritten event books r (marshal_trade c event) refl h
