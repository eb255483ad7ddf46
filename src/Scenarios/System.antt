-- ===== src/Scenarios/System.antt =====
-- All of processor-service at work on one record, and the request for its trade.
use trade_pulse.Prelude.{◌≡◌, refl, List, [], ◌∷◌, map, none, some, arith}
use trade_pulse.Prelude.Int.{pos}
use trade_pulse.Text.{Text, text_eq, ascii_casing, codes}
use trade_pulse.Machine.{is_finite, float_is_zero}
use trade_pulse.Json.{is_json_time}
use trade_pulse.Channel.{send, receive, make}
use trade_pulse.Domain.Json.RoundTrip.{IsPrintable}
use trade_pulse.Domain.Keys.{key_latest_trade}
use trade_pulse.Processor.Enricher.{default_provider, enrich}
use trade_pulse.Processor.FanOut.{
  order_book, redis_writer, broadcast, accept, publish, publish_step, new_fan_out, size_or,
}
use trade_pulse.Processor.Pool.{submit, take, new_worker_pool}
use trade_pulse.Processor.OrderBook.{trade, get}
use trade_pulse.Processor.OrderBook.Replay.{latest, of_symbol, book_after}
use trade_pulse.Processor.RedisWriter.{run}
use trade_pulse.Processor.RedisWriter.Latest.{text_after, run-text_after}
use trade_pulse.Processor.Pipeline
use trade_pulse.Processor.Pipeline.{polls, visits, submits, publishes, new_processor}
use trade_pulse.Processor.Pipeline.Accounts.{trades_of}
use trade_pulse.Processor.System as Whole
use trade_pulse.Processor.System.{System, Move, upstream, takes, works, step, new_system}
use trade_pulse.Processor.System.Replays.{IsReplay, run-IsReplay}
use trade_pulse.Processor.System.Snapshots.{HasSnapshots, run-HasSnapshots}
use trade_pulse.Processor.System.Stale.{late_moves, stale-latest_trade}
use trade_pulse.Processor.System.Upstream.{received_from}
use trade_pulse.Processor.System.Serves.{IsDrained, drained-book_after, drained-latest_trade}
use trade_pulse.Domain.Keys.{key_latest_trade}
use trade_pulse.Rest.Serves.{IsServed}
use trade_pulse.Rest.{latest_trade, trade_found, write_error}
use trade_pulse.Scenarios.Data.{
  btc, buy, sell, mul, decode, first_record, second_record, bad_record,
}
use trade_pulse.Scenarios.Reads.{bits, asked, asked_symbol}
use trade_pulse.Scenarios.TokenCodec.{token_codec, token_codec-IsCodec}
use trade_pulse.Scenarios.MemoryRedis.{memory_redis, memory_redis-IsRedis}

run-text_after_example :
    memory_redis-IsRedis.held
      (key_latest_trade btc)
      (run token_codec bits memory_redis none (map trade (buy ∷ sell ∷ [])) [])
    ≡ text_after token_codec btc
        (buy ∷ sell ∷ [])
        (memory_redis-IsRedis.held (key_latest_trade btc) [])
run-text_after_example =
    run-text_after token_codec bits memory_redis memory_redis-IsRedis btc none (buy ∷ sell ∷ []) []
      (λ k v r. refl)

abbrev moves : List Move
moves =
    upstream (polls (bad_record ∷ first_record ∷ []))
    ∷ upstream visits
    ∷ upstream visits
    ∷ upstream submits
    ∷ upstream (Pipeline.takes 0)
    ∷ upstream (publishes 0 (accept redis_writer))
    ∷ takes redis_writer
    ∷ upstream (publishes 0 (accept order_book))
    ∷ works redis_writer
    ∷ upstream (publishes 0 (accept broadcast))
    ∷ takes order_book
    ∷ works order_book
    ∷ []

abbrev reached : System (List (Text × Text))
reached =
    Whole.run mul default_provider decode token_codec bits memory_redis moves
      (new_system (pos 1) (pos 4) [])

run-IsReplay_example :
    IsReplay mul default_provider decode token_codec bits memory_redis memory_redis-IsRedis
      (new_system (pos 1) (pos 4) [])
      reached
run-IsReplay_example =
    run-IsReplay mul default_provider decode token_codec bits memory_redis memory_redis-IsRedis
      (pos 1) (pos 4) [] moves

books-IsDrained : IsDrained order_book reached
unfolding Whole.run step new_system Pipeline.step new_processor new_worker_pool submit take send
    receive make publish publish_step new_fan_out size_or
books-IsDrained = record {
  live = refl;
  no_jobs = refl;
  at_rest = refl;
  sink_empty = refl;
  loop_waits = refl;
}

writer-IsDrained : IsDrained redis_writer reached
unfolding Whole.run step new_system Pipeline.step new_processor new_worker_pool submit take send
    receive make publish publish_step new_fan_out size_or
writer-IsDrained = record {
  live = refl;
  no_jobs = refl;
  at_rest = refl;
  sink_empty = refl;
  loop_waits = refl;
}

drained-book_after_example :
    get reached.books btc
    ≡ book_after btc
        (map (enrich mul default_provider) (trades_of decode reached.upstream.marked))
        none
drained-book_after_example =
    drained-book_after mul default_provider decode token_codec bits memory_redis
      memory_redis-IsRedis (pos 4) [] moves btc books-IsDrained

last_marked : latest (of_symbol btc) (trades_of decode reached.upstream.marked) ≡ some buy
unfolding Whole.run step new_system Pipeline.step new_processor new_worker_pool submit take send
    receive make publish publish_step new_fan_out size_or latest text_eq
last_marked = refl

enriched_buy-IsPrintable : IsPrintable (enrich mul default_provider buy)
unfolding is_finite is_json_time float_is_zero enrich
enriched_buy-IsPrintable = record {
  price = refl;
  quantity = refl;
  notional = refl;
  event_time = refl;
  ingest_time = refl;
  notional_zero = λ h. ground arith;
  trade_id = omega arith;
}

drained-latest_trade_example :
    IsServed memory_redis
      (key_latest_trade btc)
      reached.redis
      (latest_trade token_codec ascii_casing memory_redis asked reached.redis)
      (trade_found buy.symbol (some (enrich mul default_provider buy)))
      (write_error 503 (codes "redis unavailable"))
drained-latest_trade_example =
    drained-latest_trade mul default_provider decode token_codec bits memory_redis
      memory_redis-IsRedis token_codec-IsCodec ascii_casing (pos 4) [] moves buy asked
      (λ k v r. refl) writer-IsDrained last_marked enriched_buy-IsPrintable asked_symbol refl

stale-latest_trade_example :
    let s =
      Whole.run mul default_provider decode token_codec bits memory_redis
        (late_moves first_record second_record)
        (new_system (pos 2) (pos 2) []) in
    (s.upstream.marked ≡ first_record ∷ second_record ∷ [])
    × (received_from redis_writer s.upstream
        ≡ enrich mul default_provider sell ∷ enrich mul default_provider buy ∷ [])
    × IsServed memory_redis
        (key_latest_trade btc)
        s.redis
        (latest_trade token_codec ascii_casing memory_redis asked s.redis)
        (trade_found buy.symbol (some (enrich mul default_provider buy)))
        (write_error 503 (codes "redis unavailable"))
stale-latest_trade_example =
    stale-latest_trade mul default_provider decode token_codec bits memory_redis
      memory_redis-IsRedis token_codec-IsCodec ascii_casing 0 0 first_record second_record buy sell
      [] asked refl refl (λ k v r. refl) enriched_buy-IsPrintable asked_symbol refl

run-HasSnapshots_example :
    HasSnapshots mul default_provider decode token_codec bits memory_redis memory_redis-IsRedis []
      reached
run-HasSnapshots_example =
    run-HasSnapshots mul default_provider decode token_codec bits memory_redis memory_redis-IsRedis
      [] (pos 1) (pos 4) moves (λ k v r. refl)
