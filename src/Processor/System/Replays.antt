-- ===== src/Processor/System/Replays.antt =====
-- The invariant of the whole system: each loop has worked off, in order, what it received, and what it
-- keeps is what its code leaves after just those trades.
use trade_pulse.Prelude.{
  ◌≡◌, refl, sym, ap, ◌∙◌, ◌++◌, List, [], ◌∷◌, map, Option, some, inl, inr, Option-cases, Bool,
  true, false,
}
use trade_pulse.Prelude.Int.{ℤ}
use trade_pulse.Text.{Text}
use trade_pulse.Machine.{Float64}
use trade_pulse.Channel.{receive, make}
use trade_pulse.Json.{Codec}
use trade_pulse.Redis.{Redis, IsRedis}
use trade_pulse.Domain.{TradeEvent}
use trade_pulse.Domain.Keys.{key_latest_trade}
use trade_pulse.Processor.Enricher.{Provider}
use trade_pulse.Processor.FanOut.{
  Sink, order_book, redis_writer, broadcast, chan, set_chan, new_fan_out,
}
use trade_pulse.Processor.OrderBook as Books
use trade_pulse.Processor.OrderBook.{Store, trade, apply}
use trade_pulse.Processor.RedisWriter.Latest.{TakesAll, text_after, write-text_after}
use trade_pulse.Processor.OrderBook.Replay.{latest}
use trade_pulse.Processor.Pipeline
use trade_pulse.Processor.Pipeline.{
  Processor, Action, polls, visits, submits, gives_up, publishes, stops, receives, cancels,
}
use trade_pulse.Processor.System.{
  Loop, waiting, holding, returned, System, Move, upstream, takes, works, returns, loop_of,
  upstream_step, take_if, work_if, return_if, step, run, new_system,
}
use trade_pulse.Processor.System.Upstream.{received_from, upstream_step-received}
use trade_pulse.Processor.System.Appends.{
  books_run-append, text_after-append, pipeline_run-append, upstream_actions, receive_action,
}
use trade_pulse.Processor.System.InHand.{in_hand, also, took, worked, left, nothing_received}

module _ (mul : Float64 → Float64 → Float64) (metadata : Provider)
    (decode : Text → Option TradeEvent) where
  module _ (c : Codec) (format_value : Float64 → Text) {R : Type 0} (ops : Redis R)
      (laws : IsRedis ops) where
    -- `s` is reached from `s₀` by a run of the pipeline, and by what the loops do with the trades
    -- that they have worked off.
    pub record IsReplay (s₀ s : System R) : Type 0 where
      pub actions : List Action
      pub pipeline : s.upstream ≡ Pipeline.run mul metadata decode actions s₀.upstream
      pub done : Sink → List TradeEvent
      pub received : (k : Sink) → received_from k s.upstream ≡ done k ++ in_hand (loop_of k s.loops)
      pub books : s.books ≡ Books.run s₀.books (map trade (done order_book))
      pub redis :
          (symbol : Text)
          → TakesAll ops
          → laws.held (key_latest_trade symbol) s.redis
            ≡ text_after c symbol (done redis_writer) (laws.held (key_latest_trade symbol) s₀.redis)

    more_actions :
        (xs ys : List Action) (p₀ p q : Processor)
        → p ≡ Pipeline.run mul metadata decode xs p₀
        → q ≡ Pipeline.run mul metadata decode ys p
        → q ≡ Pipeline.run mul metadata decode (xs ++ ys) p₀
    more_actions xs ys p₀ p q e f =
        f
        ∙ ap (Pipeline.run mul metadata decode ys) e
        ∙ sym (pipeline_run-append mul metadata decode xs ys p₀)

    take-IsReplay :
        (k : Sink) (s₀ s : System R) (l : Loop)
        → loop_of k s.loops ≡ l
        → IsReplay s₀ s
        → IsReplay s₀ (take_if mul metadata decode c format_value ops k s l)
    take-IsReplay k s₀ s waiting w v = elim (Option-cases (receive (chan k s.upstream.fan))) [
      | inl e ↦ rw e v
      | inr ((event, from), e) ↦ rw e (record {
        actions = v.actions ++ receives k ∷ [];
        pipeline =
            more_actions v.actions (receives k ∷ []) s₀.upstream s.upstream
              (record (s.upstream) { fan = set_chan k from s.upstream.fan }) v.pipeline
              (receive_action mul metadata decode k s.upstream from event e);
        done = v.done;
        received = λ j. took k j s.upstream.fan s.loops from event (v.done j) e w (v.received j);
        books = v.books;
        redis = v.redis;
      })
    ]
    take-IsReplay k s₀ s (holding event) w v = v
    take-IsReplay k s₀ s returned w v = v

    work-IsReplay :
        (k : Sink) (s₀ s : System R) (l : Loop)
        → loop_of k s.loops ≡ l
        → IsReplay s₀ s
        → IsReplay s₀ (work_if mul metadata decode c format_value ops k s l)
    work-IsReplay order_book s₀ s (holding event) w v = record {
      actions = v.actions;
      pipeline = v.pipeline;
      done = also order_book event v.done;
      received = λ j.
          worked order_book j s.loops event v.done (received_from j s.upstream) w (v.received j);
      books =
          ap (λ b. apply b event) v.books
          ∙ sym (books_run-append s₀.books (v.done order_book) event);
      redis = v.redis;
    }
    work-IsReplay redis_writer s₀ s (holding event) w v = record {
      actions = v.actions;
      pipeline = v.pipeline;
      done = also redis_writer event v.done;
      received = λ j.
          worked redis_writer j s.loops event v.done (received_from j s.upstream) w (v.received j);
      books = v.books;
      redis = λ symbol ok.
          write-text_after c format_value ops laws symbol event (some s.books) s.redis ok
          ∙ ap (text_after c symbol (event ∷ [])) (v.redis symbol ok)
          ∙ sym (
              text_after-append c symbol (v.done redis_writer) event
                (laws.held (key_latest_trade symbol) s₀.redis));
    }
    work-IsReplay broadcast s₀ s (holding event) w v = record {
      actions = v.actions;
      pipeline = v.pipeline;
      done = also broadcast event v.done;
      received = λ j.
          worked broadcast j s.loops event v.done (received_from j s.upstream) w (v.received j);
      books = v.books;
      redis = v.redis;
    }
    work-IsReplay k s₀ s waiting w v = v
    work-IsReplay k s₀ s returned w v = v

    return-IsReplay :
        (k : Sink) (s₀ s : System R) (cancelled : Bool) (l : Loop)
        → loop_of k s.loops ≡ l
        → IsReplay s₀ s
        → IsReplay s₀ (return_if mul metadata decode c format_value ops k s cancelled l)
    return-IsReplay k s₀ s true waiting w v = record {
      actions = v.actions;
      pipeline = v.pipeline;
      done = v.done;
      received = λ j. v.received j ∙ ap (λ xs. v.done j ++ xs) (sym (left k j s.loops w));
      books = v.books;
      redis = v.redis;
    }
    return-IsReplay k s₀ s true (holding event) w v = v
    return-IsReplay k s₀ s true returned w v = v
    return-IsReplay k s₀ s false l w v = v

    step-IsReplay :
        (m : Move) (s₀ s : System R)
        → IsReplay s₀ s
        → IsReplay s₀ (step mul metadata decode c format_value ops m s)
    unfolding step
    step-IsReplay (upstream a) s₀ s v =
        let (more, e) = upstream_actions mul metadata decode a s.upstream in
        record {
          actions = v.actions ++ more;
          pipeline =
              more_actions v.actions more s₀.upstream s.upstream
                (upstream_step mul metadata decode a s.upstream) v.pipeline e;
          done = v.done;
          received = λ k. upstream_step-received mul metadata decode k a s.upstream ∙ v.received k;
          books = v.books;
          redis = v.redis;
        }
    step-IsReplay (takes k) s₀ s v = take-IsReplay k s₀ s (loop_of k s.loops) refl v
    step-IsReplay (works k) s₀ s v = work-IsReplay k s₀ s (loop_of k s.loops) refl v
    step-IsReplay (returns k) s₀ s v =
        return-IsReplay k s₀ s s.upstream.cancelled (loop_of k s.loops) refl v

    run-IsReplay_from :
        (moves : List Move) (s₀ s : System R)
        → IsReplay s₀ s
        → IsReplay s₀ (run mul metadata decode c format_value ops moves s)
    unfolding run
    run-IsReplay_from [] s₀ s v = v
    run-IsReplay_from (m ∷ moves) s₀ s v =
        run-IsReplay_from moves s₀ (step mul metadata decode c format_value ops m s)
          (step-IsReplay m s₀ s v)

    new-IsReplay :
        (pool_size buffer_size : ℤ) (r : R)
        → IsReplay (new_system pool_size buffer_size r) (new_system pool_size buffer_size r)
    unfolding new_system Pipeline.new_processor new_fan_out make Pipeline.run Books.run text_after
        latest
    new-IsReplay pool_size buffer_size r = record {
      actions = [];
      pipeline = refl;
      done = λ k. [];
      received = nothing_received buffer_size;
      books = refl;
      redis = λ symbol ok. refl;
    }

    -- Whatever the interleaving of all the goroutines, with any sizes: the pipeline has gone through
    -- a run of its own; each loop has worked off, in the order of its sink, the trades that it
    -- received but for the one in hand; the books are those that the order book's loop builds from the
    -- trades that it worked off; and, if Redis takes every value, the latest-trade key of each symbol
    -- holds what the trades that the writer worked off leave there. (Redis keeps what it is given.)
    pub run-IsReplay :
        (pool_size buffer_size : ℤ) (r : R) (moves : List Move)
        → IsReplay
            (new_system pool_size buffer_size r)
            (run mul metadata decode c format_value ops moves (new_system pool_size buffer_size r))
    run-IsReplay pool_size buffer_size r moves =
        run-IsReplay_from moves (new_system pool_size buffer_size r)
          (new_system pool_size buffer_size r) (new-IsReplay pool_size buffer_size r)
