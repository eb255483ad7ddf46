-- ===== src/Scenarios/EndToEnd.antt =====
-- One message of Binance, through the three services.
use trade_pulse.Prelude.{◌≡◌, refl, sym, ◌∙◌, ◌++◌, List, [], ◌∷◌, Option, some, none, false, arith}
use trade_pulse.Prelude.Int.{pos}
use trade_pulse.Text.{Text, codes, text_eq, ascii_casing}
use trade_pulse.Machine.{
  unix_epoch, unix_milli, float_one, float_zero, is_finite, float_is_zero, float_le_zero,
}
use trade_pulse.Json.{is_json_time, decode_fields}
use trade_pulse.Channel.{send, receive, make}
use trade_pulse.Domain.{TradeEvent, side_buy, zero_market}
use trade_pulse.Domain.Json.{marshal_trade, unmarshal_trade, trade_json}
use trade_pulse.Domain.Json.RoundTrip.{IsPrintable, unmarshal-marshal_trade}
use trade_pulse.Ingestion.Normalizer.{normalize_trade, normalize_message, unmarshal_message}
use trade_pulse.Ingestion.Publisher.{empty_publisher, publish}
use trade_pulse.Ingestion.Worker.{read_loop}
use trade_pulse.Processor.Consumer.{Record}
use trade_pulse.Processor.Enricher.{default_provider, enrich}
use trade_pulse.Processor.FanOut.{
  redis_writer, order_book, broadcast, accept, publish_step, new_fan_out, size_or,
}
use trade_pulse.Processor.FanOut as Sinks
use trade_pulse.Processor.Pool.{submit, take, new_worker_pool}
use trade_pulse.Processor.OrderBook.Replay.{latest, of_symbol}
use trade_pulse.Processor.Pipeline
use trade_pulse.Processor.Pipeline.{polls, visits, submits, publishes, new_processor}
use trade_pulse.Processor.Pipeline.Accounts.{trades_of}
use trade_pulse.Processor.System as Whole
use trade_pulse.Processor.System.{System, Move, upstream, takes, works, step, new_system}
use trade_pulse.Processor.System.Serves.{IsDrained}
use trade_pulse.Rest.{trade_found, write_error}
use trade_pulse.Rest.Health.{new_health_handler}
use trade_pulse.Api.Router.{serve, handled}
use trade_pulse.Scenarios.Router.{first_route, first_route-IsRouter}
use trade_pulse.Domain.Keys.{key_latest_trade}
use trade_pulse.Rest.Serves.{IsServed}
use trade_pulse.EndToEnd.{
  appended, stream_trades, IdsFit, decoded-stream_trades, answered-last_of_stream,
}
use trade_pulse.Scenarios.Data.{btc, mul}
use trade_pulse.Scenarios.Reads.{bits, asked, asked_symbol}
use trade_pulse.Scenarios.Streams.{parse, messages}
use trade_pulse.Scenarios.TokenCodec.{token_codec, token_codec-IsCodec}
use trade_pulse.Scenarios.MemoryRedis.{memory_redis, memory_redis-IsRedis}

abbrev wire_event : TradeEvent
wire_event = record {
  symbol = btc;
  price = float_one;
  quantity = float_one;
  side = side_buy;
  trade_id = pos 9;
  notional = float_zero;
  market = zero_market;
  is_whale = false;
  event_time = unix_milli 7;
  ingest_time = unix_epoch;
}

ids_fit : IdsFit token_codec parse messages
unfolding normalize_trade normalize_message unmarshal_message token_codec decode_fields text_eq
    float_le_zero
ids_fit = (tt, (omega arith, tt))

decoded-stream_trades_example :
    trades_of
      (unmarshal_trade token_codec)
      (appended 0 3 (read_loop token_codec parse messages empty_publisher).produced)
    ≡ stream_trades token_codec parse messages
decoded-stream_trades_example =
    decoded-stream_trades token_codec parse token_codec-IsCodec 0 3 messages ids_fit

abbrev wire_records : List Record
wire_records = appended 0 3 (read_loop token_codec parse messages empty_publisher).produced

abbrev wire_record : Record
wire_record = record {
  partition = 0;
  offset = 3;
  key = btc;
  value = token_codec.print (trade_json token_codec wire_event);
}

one_record : wire_records ≡ wire_record ∷ []
unfolding read_loop normalize_trade unmarshal_message token_codec decode_fields text_eq
    normalize_message float_le_zero publish marshal_trade is_finite is_json_time unix_milli
one_record = refl

reads_back : unmarshal_trade token_codec wire_record.value ≡ some wire_event
unfolding marshal_trade is_finite is_json_time unix_milli
reads_back = unmarshal-marshal_trade token_codec token_codec-IsCodec wire_event (record {
  price = refl;
  quantity = refl;
  notional = refl;
  event_time = refl;
  ingest_time = refl;
  notional_zero = λ h. refl;
  trade_id = omega arith;
})

-- A record, worked to the end of the Redis writer's part.
abbrev moves : Record → List Move
moves rec =
    upstream (polls (rec ∷ []))
    ∷ upstream visits
    ∷ upstream submits
    ∷ upstream (Pipeline.takes 0)
    ∷ upstream (publishes 0 (accept redis_writer))
    ∷ upstream (publishes 0 (accept order_book))
    ∷ upstream (publishes 0 (accept broadcast))
    ∷ takes redis_writer
    ∷ works redis_writer
    ∷ []

abbrev reached : (Text → Option TradeEvent) → Record → System (List (Text × Text))
reached decode rec =
    Whole.run mul default_provider decode token_codec bits memory_redis (moves rec)
      (new_system (pos 1) (pos 4) [])

works_off :
    (decode : Text → Option TradeEvent) (rec : Record) (event : TradeEvent)
    → decode rec.value ≡ some event
    → ((reached decode rec).upstream.marked ≡ rec ∷ [])
      × IsDrained redis_writer (reached decode rec)
unfolding Whole.run step new_system Pipeline.step new_processor new_worker_pool submit take send
    receive make publish_step Sinks.publish new_fan_out size_or
works_off decode rec event h = rw h (
  refl,
  record { live = refl; no_jobs = refl; at_rest = refl; sink_empty = refl; loop_waits = refl },
)

last_in_stream : latest (of_symbol btc) (stream_trades token_codec parse messages) ≡ some wire_event
unfolding latest stream_trades normalize_trade unmarshal_message token_codec decode_fields text_eq
    normalize_message float_le_zero marshal_trade is_finite is_json_time unix_milli
last_in_stream = refl

enriched-IsPrintable : IsPrintable (enrich mul default_provider wire_event)
unfolding is_finite is_json_time float_is_zero enrich unix_milli
enriched-IsPrintable = record {
  price = refl;
  quantity = refl;
  notional = refl;
  event_time = refl;
  ingest_time = refl;
  notional_zero = λ h. ground arith;
  trade_id = omega arith;
}

answered-last_of_stream_example :
    let s = reached (unmarshal_trade token_codec) wire_record in
    IsServed memory_redis
      (key_latest_trade btc)
      s.redis
      (serve token_codec ascii_casing memory_redis
        (new_health_handler none 0)
        first_route
        (codes "GET")
        (codes "/api/v1/trades/" ++ asked)
        s.redis)
      (handled (trade_found wire_event.symbol (some (enrich mul default_provider wire_event))))
      (handled (write_error 503 (codes "redis unavailable")))
answered-last_of_stream_example =
    answered-last_of_stream token_codec parse token_codec-IsCodec mul default_provider bits
      memory_redis memory_redis-IsRedis ascii_casing 0 3 messages (pos 4) [] (moves wire_record)
      wire_event asked (new_health_handler none 0) first_route first_route-IsRouter ids_fit
      (λ k v r. refl)
      ((works_off (unmarshal_trade token_codec) wire_record wire_event reads_back).0
        ∙ sym one_record)
      (works_off (unmarshal_trade token_codec) wire_record wire_event reads_back).1 last_in_stream
      enriched-IsPrintable asked_symbol refl refl
