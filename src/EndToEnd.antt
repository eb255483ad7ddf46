-- ===== src/EndToEnd.antt =====
-- The three services together: the messages of a Binance stream, from ingestion-service through Kafka
-- and processor-service to an answer of api-service. A topic's partition keeps what is produced to it,
-- in order.
use trade_pulse.Prelude.{
  ℕ, suc, ◌≡◌, refl, sym, ap, ◌∙◌, ◌++◌, false, List, [], ◌∷◌, Option, none, some, arith,
  Option-cases, inl, inr, All,
}
use trade_pulse.Prelude.Int.{ℤ, pos}
use trade_pulse.Text.{Text, Casing, codes, is_empty}
use trade_pulse.Machine.{Float64, Time, IsInt64, float_zero}
use trade_pulse.Json.{Codec, IsCodec, ◌>>=◌}
use trade_pulse.Redis.{Redis, IsRedis}
use trade_pulse.Domain.{TradeEvent}
use trade_pulse.Domain.Json.{marshal_trade, unmarshal_trade}
use trade_pulse.Domain.Json.RoundTrip.{IsPrintable, unmarshal-marshal_trade}
use trade_pulse.Api.Router.{Route, Found, serve, handled}
use trade_pulse.Api.Router.Paths.{IsRouter}
use trade_pulse.Text.Segments.{has_slash}
use trade_pulse.Api.Router.Serves.{handled-IsServed, serve-trade}
use trade_pulse.Ingestion.Normalizer.{
  Normalized, accepted, rejected, normalize_trade, normalize_message,
}
use trade_pulse.Ingestion.Publisher.{Produced, empty_publisher}
use trade_pulse.Ingestion.Worker.{read_loop}
use trade_pulse.Ingestion.Worker.Stream.{records_of, stream_records, read_loop-produced}
use trade_pulse.Processor.Consumer.{Record}
use trade_pulse.Processor.Enricher.{Provider, enrich}
use trade_pulse.Processor.FanOut.{redis_writer}
use trade_pulse.Processor.OrderBook.Replay.{latest, of_symbol}
use trade_pulse.Processor.Pipeline.Accounts.{trades_of}
use trade_pulse.Processor.RedisWriter.Latest.{TakesAll}
use trade_pulse.Processor.System.{Move, run, new_system}
use trade_pulse.Processor.System.Serves.{IsDrained, drained-latest_trade}
use trade_pulse.Domain.Keys.{key_latest_trade}
use trade_pulse.Rest.Serves.{IsServed}
use trade_pulse.Rest.Health.{LagReporter}
use trade_pulse.Rest.{normalize_symbol, trade_found, write_error}

-- The records of a partition, from an offset on.
abbrev pub appended : ℕ → ℕ → List Produced → List Record
appended partition offset [] = []
appended partition offset (p ∷ ps) =
    record { partition = partition; offset = offset; key = p.key; value = p.payload }
    ∷ appended partition (suc offset) ps

-- The trades of a stream: those of the messages that are accepted and that json.Marshal takes.
abbrev pub if_marshalled : Option Text → TradeEvent → List TradeEvent → List TradeEvent
if_marshalled none event rest = rest
if_marshalled (some payload) event rest = event ∷ rest

abbrev pub with_trade : Codec → Normalized → List TradeEvent → List TradeEvent
with_trade c (rejected e) rest = rest
with_trade c (accepted event) rest = if_marshalled (marshal_trade c event) event rest

module _ (c : Codec) (parse : Text → Option Float64) where
  unfoldable pub stream_trades : List (Text × Time) → List TradeEvent
  stream_trades [] = []
  stream_trades ((raw, now) ∷ messages) =
      with_trade c (normalize_trade c parse raw now) (stream_trades messages)

  -- The id of an accepted trade is an int64, as its type says.
  abbrev IdFits : Normalized → Type 0
  IdFits (rejected e) = Unit
  IdFits (accepted event) = IsInt64 event.trade_id

  abbrev pub IdsFit : List (Text × Time) → Type 0
  IdsFit messages = All (λ (m : Text × Time). IdFits (normalize_trade c parse m.0 m.1)) messages

  -- The normalizer leaves the notional to the enricher.
  accepted_raw :
      (raw : Text) (now : Time) (event : TradeEvent)
      → normalize_trade c parse raw now ≡ accepted event
      → event.notional ≡ float_zero
  unfolding normalize_trade normalize_message
  accepted_raw raw now event h = ground arith

  marshalled-IsPrintable :
      (event : TradeEvent) (payload : Text)
      → marshal_trade c event ≡ some payload
      → event.notional ≡ float_zero
      → IsInt64 event.trade_id
      → IsPrintable event
  unfolding marshal_trade
  marshalled-IsPrintable event payload h raw fits = record {
    price = ground arith;
    quantity = ground arith;
    notional = ground arith;
    notional_zero = λ z. raw;
    trade_id = fits;
    event_time = ground arith;
    ingest_time = ground arith;
  }

  module _ (laws : IsCodec c) where
    decoded :
        (event : TradeEvent) (payload : Text)
        → marshal_trade c event ≡ some payload
        → event.notional ≡ float_zero
        → IsInt64 event.trade_id
        → unmarshal_trade c payload ≡ some event
    decoded event payload h raw fits =
        ap (λ m. m >>= unmarshal_trade c) (sym h)
        ∙ unmarshal-marshal_trade c laws event (marshalled-IsPrintable event payload h raw fits)

    message_decoded :
        (partition offset : ℕ) (n : Normalized) (rest : List Produced) (trades : List TradeEvent)
        → ((event : TradeEvent) → n ≡ accepted event → event.notional ≡ float_zero)
        → IdFits n
        → ((o : ℕ) → trades_of (unmarshal_trade c) (appended partition o rest) ≡ trades)
        → trades_of (unmarshal_trade c) (appended partition offset (records_of c parse n ++ rest))
          ≡ with_trade c n trades
    message_decoded partition offset (rejected e) rest trades raw fits h = h offset
    message_decoded partition offset (accepted event) rest trades raw fits h =
        elim (Option-cases (marshal_trade c event)) [
          | inl e ↦ rw e (h offset)
          | inr (payload, e) ↦
              rw (e, decoded event payload e (raw event refl) fits)
                (ap (◌∷◌ event) (h (suc offset)))
        ]

    records_decoded :
        (partition : ℕ) (messages : List (Text × Time))
        → IdsFit messages
        → (offset : ℕ)
        → trades_of
            (unmarshal_trade c)
            (appended partition offset (stream_records c parse messages))
          ≡ stream_trades messages
    unfolding stream_trades
    records_decoded partition [] fits offset = refl
    records_decoded partition ((raw, now) ∷ messages) fits offset =
        let n = normalize_trade c parse raw now in
        message_decoded partition offset n (stream_records c parse messages)
          (stream_trades messages) (λ event e. accepted_raw raw now event e) fits.0
          (records_decoded partition messages fits.1)

    -- What processor-service decodes from the records of a stream, wherever they stand in a partition,
    -- is the trades of the stream, in order: those of the messages that are accepted and that
    -- json.Marshal takes. (The ids are int64, and the codec reads back what it prints.)
    pub decoded-stream_trades :
        (partition offset : ℕ) (messages : List (Text × Time))
        → IdsFit messages
        → trades_of
            (unmarshal_trade c)
            (appended partition offset (read_loop c parse messages empty_publisher).produced)
          ≡ stream_trades messages
    decoded-stream_trades partition offset messages fits =
        ap (λ ps. trades_of (unmarshal_trade c) (appended partition offset ps))
          (read_loop-produced c parse messages empty_publisher)
        ∙ records_decoded partition messages fits offset

    -- From the exchange to the API: the trades of a stream went to a partition, all its records are
    -- marked, the service has one worker and the Redis writer's part of it is drained. Then
    -- GET /api/v1/trades/<param>, where param has no slash and is, trimmed and in upper case, a
    -- symbol, is answered with the enriched copy of the last trade of the symbol in the stream and
    -- 200 where the GET of its latest-trade key finds a value, and with 503 where that GET fails. (The ids are int64, the copy can be printed, the
    -- symbol is not empty, Redis takes every value and keeps what it is given, the codec reads back
    -- what it prints, and the router sends a path that one route admits to that route.)
    pub answered-last_of_stream :
        {R : Type 0} (mul : Float64 → Float64 → Float64) (metadata : Provider)
        (format_value : Float64 → Text) (ops : Redis R) (redis_laws : IsRedis ops) (t : Casing)
        (partition offset : ℕ) (messages : List (Text × Time)) (buffer : ℤ) (r : R)
        (moves : List Move) (e : TradeEvent) (param : Text) (lag : LagReporter)
        (find : List Route → Text → Text → Found)
        → IsRouter find
        → IdsFit messages
        → TakesAll ops
        → (run mul metadata
            (unmarshal_trade c)
            c
            format_value
            ops
            moves
            (new_system (pos 1) buffer r)).upstream.marked
          ≡ appended partition offset (read_loop c parse messages empty_publisher).produced
        → IsDrained redis_writer (
            run mul metadata
              (unmarshal_trade c)
              c
              format_value
              ops
              moves
              (new_system (pos 1) buffer r))
        → latest (of_symbol e.symbol) (stream_trades messages) ≡ some e
        → IsPrintable (enrich mul metadata e)
        → normalize_symbol t param ≡ e.symbol
        → is_empty e.symbol ≡ false
        → has_slash param ≡ false
        → let s =
            run mul metadata
              (unmarshal_trade c)
              c
              format_value
              ops
              moves
              (new_system (pos 1) buffer r) in
          IsServed ops
            (key_latest_trade e.symbol)
            s.redis
            (serve c t ops lag find (codes "GET") (codes "/api/v1/trades/" ++ param) s.redis)
            (handled (trade_found e.symbol (some (enrich mul metadata e))))
            (handled (write_error 503 (codes "redis unavailable")))
    answered-last_of_stream mul metadata format_value ops redis_laws t partition offset messages
          buffer r moves e param lag find router fits ok marked drained last printable same full
          whole =
        let trades =
          ap (trades_of (unmarshal_trade c)) marked
          ∙ decoded-stream_trades partition offset messages fits in
        let s =
          run mul metadata (unmarshal_trade c) c format_value ops moves
            (new_system (pos 1) buffer r) in
        handled-IsServed ops (key_latest_trade e.symbol) s.redis
          (serve-trade c t ops lag find router param e.symbol s.redis same full whole)
          (drained-latest_trade mul metadata (unmarshal_trade c) c format_value ops redis_laws laws
            t buffer r moves e param ok drained (ap (latest (of_symbol e.symbol)) trades ∙ last)
            printable same full)
