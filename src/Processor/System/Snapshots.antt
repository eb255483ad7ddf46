-- ===== src/Processor/System/Snapshots.antt =====
-- The order books in Redis, which the writer takes from the store while the order book's loop goes on.
use mathlib.Core.List.{append-nil, append_assoc}
use trade_pulse.Prelude.{
  ◌≡◌, refl, sym, ap, ◌∙◌, ◌++◌, ◌⊎◌, inl, inr, Bool, true, false, List, [], ◌∷◌, map, Option, none,
  some, Option-cases,
}
use trade_pulse.Prelude.Int.{ℤ}
use trade_pulse.Text.{Text}
use trade_pulse.Machine.{Float64}
use trade_pulse.Channel.{receive, make}
use trade_pulse.Json.{Codec}
use trade_pulse.Redis.{Redis, IsRedis}
use trade_pulse.Table.{lookup}
use trade_pulse.Domain.{TradeEvent, OrderBook}
use trade_pulse.Domain.Keys.{key_order_book}
use trade_pulse.Domain.BookJson.{marshal_book}
use trade_pulse.Processor.Enricher.{Provider}
use trade_pulse.Processor.FanOut.{Sink, order_book, redis_writer, broadcast, chan, new_fan_out}
use trade_pulse.Processor.OrderBook as Books
use trade_pulse.Processor.OrderBook.{Store, trade, apply, get, new_store}
use trade_pulse.Processor.OrderBook.Replay.{book_after, run-book_after}
use trade_pulse.Processor.RedisWriter.Latest.{TakesAll}
use trade_pulse.Processor.RedisWriter.Snapshot.{write-KeptOrShown}
use trade_pulse.Processor.System.{
  Loop, waiting, holding, returned, System, Move, upstream, takes, works, returns, loop_of, take_if,
  work_if, return_if, step, run, new_system,
}
use trade_pulse.Processor.System.InHand.{in_hand, took, worked, left}
use trade_pulse.Processor.System.Upstream.{received_from, upstream_step-received}
use trade_pulse.Processor.Pipeline.{new_processor}
use trade_pulse.Processor.System.Appends.{books_run-append}

module _ (mul : Float64 → Float64 → Float64) (metadata : Provider)
    (decode : Text → Option TradeEvent) (c : Codec) (format_value : Float64 → Text) {R : Type 0}
    (ops : Redis R) (laws : IsRedis ops) (r₀ : R) where
  abbrev books_of : List TradeEvent → Store
  books_of es = Books.run new_store (map trade es)

  -- The key holds what it held at the start, or the JSON of the symbol's book after some of the first of
  -- the trades.
  abbrev pub IsSnapshot : List TradeEvent → Text → R → Type 0
  IsSnapshot es symbol r =
      (laws.held (key_order_book symbol) r ≡ laws.held (key_order_book symbol) r₀)
      ⊎ ((early : List TradeEvent) × (late : List TradeEvent) × (book : OrderBook) × (text : Text)
          × (es ≡ early ++ late)
          × (book_after symbol early none ≡ some book)
          × (marshal_book c book ≡ some text)
          × (laws.held (key_order_book symbol) r ≡ some text))

  -- The trades that the order book's loop has worked off, those that it received but for the one in
  -- hand, built the store, and each order-book key is a snapshot of it.
  abbrev pub HasSnapshots : System R → Type 0
  HasSnapshots s =
      (es : List TradeEvent) × (received_from order_book s.upstream
        ≡ es ++ in_hand (loop_of order_book s.loops))
      × (s.books ≡ books_of es)
      × ((symbol : Text) → IsSnapshot es symbol s.redis)

  more_trades :
      (es : List TradeEvent) (e : TradeEvent) (symbol : Text) (r : R)
      → IsSnapshot es symbol r
      → IsSnapshot (es ++ e ∷ []) symbol r
  more_trades es e symbol r (inl h) = inl h
  more_trades es e symbol r (inr (early, late, book, text, split, there, made, held)) = inr (
    early,
    late ++ e ∷ [],
    book,
    text,
    ap (λ l. l ++ e ∷ []) split ∙ append_assoc early late (e ∷ []),
    there,
    made,
    held,
  )

  get-books_of :
      (symbol : Text) (es : List TradeEvent) → get (books_of es) symbol ≡ book_after symbol es none
  get-books_of symbol es =
      run-book_after symbol new_store es
      ∙ ap (book_after symbol es) (unfold new_store get lookup in refl)

  work-HasSnapshots :
      (k : Sink) (s : System R) (l : Loop)
      → loop_of k s.loops ≡ l
      → TakesAll ops
      → HasSnapshots s
      → HasSnapshots (work_if mul metadata decode c format_value ops k s l)
  work-HasSnapshots order_book s (holding e) w ok (es, got, built, shown) = (
    es ++ e ∷ [],
    worked order_book order_book s.loops e (λ j. es) (received_from order_book s.upstream) w got,
    ap (λ b. apply b e) built ∙ sym (books_run-append new_store es e),
    λ symbol. more_trades es e symbol s.redis (shown symbol),
  )
  work-HasSnapshots redis_writer s (holding e) w ok (es, got, built, shown) = (
    es,
    got,
    built,
    λ symbol. elim (write-KeptOrShown c format_value ops laws symbol e s.books s.redis ok) [
      | inl kept ↦ elim (shown symbol) [
        | inl h ↦ inl (kept ∙ h)
        | inr (early, late, book, text, split, there, made, held) ↦
            inr (early, late, book, text, split, there, made, kept ∙ held)
      ]
      | inr (book, text, there, made, held) ↦ inr (
        es,
        [],
        book,
        text,
        sym (append-nil es),
        sym (get-books_of symbol es) ∙ ap (λ b. get b symbol) (sym built) ∙ there,
        made,
        held,
      )
    ],
  )
  work-HasSnapshots broadcast s (holding e) w ok v = v
  work-HasSnapshots k s waiting w ok v = v
  work-HasSnapshots k s returned w ok v = v

  take-HasSnapshots :
      (k : Sink) (s : System R) (l : Loop)
      → loop_of k s.loops ≡ l
      → HasSnapshots s
      → HasSnapshots (take_if mul metadata decode c format_value ops k s l)
  take-HasSnapshots k s waiting w (es, got, built, shown) =
      elim (Option-cases (receive (chan k s.upstream.fan))) [
        | inl e ↦ rw e (es, got, built, shown)
        | inr ((event, from), e) ↦
            rw e (es, took k order_book s.upstream.fan s.loops from event es e w got, built, shown)
      ]
  take-HasSnapshots k s (holding e) w v = v
  take-HasSnapshots k s returned w v = v

  return-HasSnapshots :
      (k : Sink) (s : System R) (cancelled : Bool) (l : Loop)
      → loop_of k s.loops ≡ l
      → HasSnapshots s
      → HasSnapshots (return_if mul metadata decode c format_value ops k s cancelled l)
  return-HasSnapshots k s true waiting w (es, got, built, shown) =
      (es, got ∙ ap (λ xs. es ++ xs) (sym (left k order_book s.loops w)), built, shown)
  return-HasSnapshots k s true (holding e) w v = v
  return-HasSnapshots k s true returned w v = v
  return-HasSnapshots k s false l w v = v

  step-HasSnapshots :
      (m : Move) (s : System R)
      → TakesAll ops
      → HasSnapshots s
      → HasSnapshots (step mul metadata decode c format_value ops m s)
  unfolding step
  step-HasSnapshots (upstream a) s ok (es, got, built, shown) =
      (es, upstream_step-received mul metadata decode order_book a s.upstream ∙ got, built, shown)
  step-HasSnapshots (takes k) s ok v = take-HasSnapshots k s (loop_of k s.loops) refl v
  step-HasSnapshots (works k) s ok v = work-HasSnapshots k s (loop_of k s.loops) refl ok v
  step-HasSnapshots (returns k) s ok v =
      return-HasSnapshots k s s.upstream.cancelled (loop_of k s.loops) refl v

  run_from-HasSnapshots :
      (moves : List Move) (s : System R)
      → TakesAll ops
      → HasSnapshots s
      → HasSnapshots (run mul metadata decode c format_value ops moves s)
  unfolding run
  run_from-HasSnapshots [] s ok v = v
  run_from-HasSnapshots (m ∷ moves) s ok v =
      run_from-HasSnapshots moves (step mul metadata decode c format_value ops m s) ok
        (step-HasSnapshots m s ok v)

  -- Whatever the interleaving of the goroutines, with any sizes: the store is what the trades leave that
  -- the order book's loop has worked off, and each order-book key holds what it held at the start, or
  -- the JSON of the book that the first of those trades, up to some point, leave of its symbol: never
  -- one that the store did not have. (Redis keeps what it is given, and takes every value.)
  pub run-HasSnapshots :
      (pool_size buffer_size : ℤ) (moves : List Move)
      → TakesAll ops
      → HasSnapshots
          (run mul metadata decode c format_value ops moves (new_system pool_size buffer_size r₀))
  unfolding new_system new_processor new_fan_out make Books.run
  run-HasSnapshots pool_size buffer_size moves ok =
      run_from-HasSnapshots moves (new_system pool_size buffer_size r₀) ok
        ([], refl, refl, λ symbol. inl refl)
