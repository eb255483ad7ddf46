-- ===== src/Processor/System/Serves.antt =====
-- The two services together: what api-service answers once the trades have gone through all of
-- processor-service.
use mathlib.Core.List.{append-nil}
use trade_pulse.Prelude.{
  ◌≡◌, refl, sym, ap, ◌∙◌, ◌++◌, subst, Bool, true, false, List, [], ◌∷◌, map, Option, none, some,
  arith,
}
use trade_pulse.Prelude.Int.{ℤ, pos}
use trade_pulse.Text.{Text, Casing, codes, is_empty}
use trade_pulse.Machine.{Float64}
use trade_pulse.Channel.{sent}
use trade_pulse.Json.{Codec, IsCodec}
use trade_pulse.Redis.{Redis, IsRedis}
use trade_pulse.Domain.{TradeEvent}
use trade_pulse.Domain.Json.{marshal_trade, trade_json}
use trade_pulse.Domain.Keys.{key_latest_trade}
use trade_pulse.Domain.Json.RoundTrip.{IsPrintable, marshal_accepts}
use trade_pulse.Processor.Enricher.{Provider, enrich}
use trade_pulse.Table.{lookup}
use trade_pulse.Processor.FanOut.{Sink, order_book, redis_writer, chan}
use trade_pulse.Processor.OrderBook.{new_store, get, trade}
use trade_pulse.Processor.OrderBook as Books
use trade_pulse.Processor.OrderBook.Replay.{latest, of_symbol, book_after, run-book_after}
use trade_pulse.Processor.RedisWriter.Latest.{TakesAll, latest-passes, shows, text_after}
use trade_pulse.Processor.Pool.{idle}
use trade_pulse.Processor.Pipeline as Pipeline
use trade_pulse.Processor.Pipeline.{Processor, new_processor}
use trade_pulse.Processor.Pipeline.Accounts.{trades_of}
use trade_pulse.Processor.Pipeline.Fifo.Prefix.{one_worker_in_order}
use trade_pulse.Processor.System.{System, Move, waiting, loop_of, run, new_system}
use trade_pulse.Processor.System.Upstream.{received_from}
use trade_pulse.Processor.System.InHand.{in_hand}
use trade_pulse.Processor.System.Replays.{IsReplay, run-IsReplay}
use trade_pulse.Rest.{normalize_symbol, latest_trade, trade_found, write_error}
use trade_pulse.Rest.Serves.{IsServed, held-latest_trade}

-- Before any cancellation, all that was submitted has gone through the one worker and one sink, and
-- the loop on the sink has worked it off.
pub record IsDrained {R : Type 0} (k : Sink) (s : System R) : Type 0 where
  pub live : s.upstream.cancelled ≡ false
  pub no_jobs : s.upstream.pool.jobs.buffered ≡ []
  pub at_rest : s.upstream.pool.workers ≡ idle ∷ []
  pub sink_empty : (chan k s.upstream.fan).buffered ≡ []
  pub loop_waits : loop_of k s.loops ≡ waiting

latest-map-none :
    (p q : TradeEvent → Bool) (f : TradeEvent → TradeEvent) (es : List TradeEvent)
    → ((e : TradeEvent) → q (f e) ≡ true → p e ≡ true)
    → latest p es ≡ none
    → latest q (map f es) ≡ none
unfolding latest
latest-map-none p q f [] h e = refl
latest-map-none p q f (x ∷ es) h e = ground (arith, h x, latest-map-none p q f es h)

-- The last trade that passes a test is also the last to pass a stronger one, if it passes that.
latest-map :
    (p q : TradeEvent → Bool) (f : TradeEvent → TradeEvent) (es : List TradeEvent) (e : TradeEvent)
    → ((x : TradeEvent) → q (f x) ≡ true → p x ≡ true)
    → latest p es ≡ some e
    → q (f e) ≡ true
    → latest q (map f es) ≡ some (f e)
unfolding latest
latest-map p q f [] e h last passes = absurd (ground arith)
latest-map p q f (x ∷ es) e h last passes =
    ground (arith, latest-map p q f es e h, latest-map-none p q f es h)

module _ (mul : Float64 → Float64 → Float64) (metadata : Provider)
    (decode : Text → Option TradeEvent) where
  abbrev enriched : TradeEvent → TradeEvent
  enriched = enrich mul metadata

  -- The trades of the marked records, as the sinks get them.
  abbrev delivered : Processor → List TradeEvent
  delivered p = map enriched (trades_of decode p.marked)

  in_order :
      (buffer : ℤ) (actions : List Pipeline.Action) (p : Processor) (k : Sink)
      → p ≡ Pipeline.run mul metadata decode actions (new_processor (pos 1) buffer)
      → p.cancelled ≡ false
      → p.pool.jobs.buffered ≡ []
      → p.pool.workers ≡ idle ∷ []
      → (chan k p.fan).buffered ≡ []
      → received_from k p ≡ delivered p
  unfolding sent
  in_order buffer actions p k e live no_jobs at_rest empty =
      sym (append-nil (received_from k p))
      ∙ ap (λ xs. received_from k p ++ xs) (sym empty)
      ∙ subst
          (λ (q : Processor).
            q.cancelled ≡ false
            → q.pool.jobs.buffered ≡ []
            → q.pool.workers ≡ idle ∷ []
            → sent (chan k q.fan) ≡ delivered q)
          (sym e) (one_worker_in_order mul metadata decode buffer actions k) live no_jobs at_rest

  module _ (c : Codec) (format_value : Float64 → Text) {R : Type 0} (ops : Redis R)
      (laws : IsRedis ops) where
    drained_done :
        (buffer : ℤ) (r : R) (s : System R) (k : Sink)
        (v : IsReplay mul metadata decode c format_value ops laws (new_system (pos 1) buffer r) s)
        → IsDrained k s
        → v.done k ≡ delivered s.upstream
    unfolding new_system
    drained_done buffer r s k v d =
        sym (append-nil (v.done k))
        ∙ ap (λ l. v.done k ++ in_hand l) (sym d.loop_waits)
        ∙ sym (v.received k)
        ∙ in_order buffer v.actions s.upstream k v.pipeline d.live d.no_jobs d.at_rest d.sink_empty

    -- With one worker, once the order book's part of the system is drained: Get finds for each symbol
    -- the book that the description builds from the trades of the marked records, in their order.
    pub drained-book_after :
        (buffer : ℤ) (r : R) (moves : List Move) (symbol : Text)
        → IsDrained order_book
            (run mul metadata decode c format_value ops moves (new_system (pos 1) buffer r))
        → let s = run mul metadata decode c format_value ops moves (new_system (pos 1) buffer r) in
          get s.books symbol
          ≡ book_after symbol (map (enrich mul metadata) (trades_of decode s.upstream.marked)) none
    drained-book_after buffer r moves symbol d =
        let s = run mul metadata decode c format_value ops moves (new_system (pos 1) buffer r) in
        let v = run-IsReplay mul metadata decode c format_value ops laws (pos 1) buffer r moves in
        let built : s.books ≡ Books.run new_store (map trade (v.done order_book)) =
          unfold new_system in v.books in
        ap (λ b. get b symbol) built
        ∙ run-book_after symbol new_store (v.done order_book)
        ∙ ap (λ es. book_after symbol es (get new_store symbol))
            (drained_done buffer r s order_book v d)
        ∙ (unfold new_store get lookup in refl)

    shown_text :
        (symbol : Text) (es : List TradeEvent) (e : TradeEvent) (text : Text) (old : Option Text)
        → latest (of_symbol symbol) es ≡ some e
        → marshal_trade c (enriched e) ≡ some text
        → text_after c symbol (map enriched es) old ≡ some text
    unfolding text_after enrich
    shown_text symbol es e text old last accepted =
        let same = latest-passes (of_symbol symbol) es e last in
        let shown =
          latest-map (of_symbol symbol) (shows c symbol) enriched es e (λ x h. ground arith) last
            (rw (same, accepted) refl) in
        rw (shown, accepted) refl

    module _ (codec_laws : IsCodec c) (t : Casing) where
      -- With one worker, once the Redis writer's part of the system is drained, whatever the
      -- interleaving of the goroutines and whatever Redis held before: a request whose parameter,
      -- trimmed and in upper case, is a symbol is answered with the enriched copy of the last trade
      -- of the symbol among those of the marked records and 200 where the GET of its latest-trade
      -- key finds a value, and with 503 where that GET fails. (The copy can be printed, the symbol is not empty, Redis takes every value and keeps what it is
      -- given, and the codec reads back what it prints.)
      pub drained-latest_trade :
          (buffer : ℤ) (r : R) (moves : List Move) (e : TradeEvent) (param : Text)
          → TakesAll ops
          → IsDrained redis_writer
              (run mul metadata decode c format_value ops moves (new_system (pos 1) buffer r))
          → latest (of_symbol e.symbol) (
              trades_of decode
                (run mul metadata decode c format_value ops moves
                  (new_system (pos 1) buffer r)).upstream.marked)
            ≡ some e
          → IsPrintable (enrich mul metadata e)
          → normalize_symbol t param ≡ e.symbol
          → is_empty e.symbol ≡ false
          → let s =
              run mul metadata decode c format_value ops moves (new_system (pos 1) buffer r) in
            IsServed ops
              (key_latest_trade e.symbol)
              s.redis
              (latest_trade c t ops param s.redis)
              (trade_found e.symbol (some (enrich mul metadata e)))
              (write_error 503 (codes "redis unavailable"))
      unfolding enrich new_system
      drained-latest_trade buffer r moves e param ok d last printable same full =
          let s = run mul metadata decode c format_value ops moves (new_system (pos 1) buffer r) in
          let v = run-IsReplay mul metadata decode c format_value ops laws (pos 1) buffer r moves in
          let text = c.print (trade_json c (enriched e)) in
          let accepted = marshal_accepts c codec_laws (enriched e) printable in
          let shown =
            v.redis e.symbol ok
            ∙ ap (λ es. text_after c e.symbol es (laws.held (key_latest_trade e.symbol) r))
                (drained_done buffer r s redis_writer v d)
            ∙ shown_text e.symbol (trades_of decode s.upstream.marked) e text
                (laws.held (key_latest_trade e.symbol) r) last accepted in
          held-latest_trade c codec_laws t format_value ops laws (enriched e) text s.redis param
            printable accepted shown same full
