-- ===== src/Processor/System/Stale.antt =====
-- What overtaking workers mean for api-service: it may go on answering with an older trade.
use trade_pulse.Prelude.{ℕ, suc, ◌≡◌, refl, ap, ◌∙◌, ◌++◌, false, List, [], ◌∷◌, map, Option, some}
use trade_pulse.Prelude.Int.{pos}
use trade_pulse.Text.{Text, Casing, codes, is_empty, text_eq_refl}
use trade_pulse.Machine.{Float64}
use trade_pulse.Channel.{send, receive, make}
use trade_pulse.Json.{Codec, IsCodec}
use trade_pulse.Redis.{Redis, IsRedis}
use trade_pulse.Domain.{TradeEvent}
use trade_pulse.Domain.Json.{marshal_trade, trade_json}
use trade_pulse.Domain.Json.RoundTrip.{IsPrintable, marshal_accepts}
use trade_pulse.Domain.Keys.{key_latest_trade}
use trade_pulse.Processor.Consumer.{Record}
use trade_pulse.Processor.Enricher.{Provider, enrich}
use trade_pulse.Processor.FanOut.{redis_writer, new_fan_out, size_or, publish_step}
use trade_pulse.Processor.FanOut as Sinks
use trade_pulse.Processor.OrderBook.{new_store}
use trade_pulse.Processor.OrderBook.Replay.{latest}
use trade_pulse.Processor.Pool.{submit, take, new_worker_pool}
use trade_pulse.Processor.Pipeline
use trade_pulse.Processor.Pipeline.{new_processor}
use trade_pulse.Processor.Pipeline.Overtaking.{overtaking, room, room_for_two}
use trade_pulse.Processor.RedisWriter.{write}
use trade_pulse.Processor.RedisWriter.Latest.{TakesAll, text_or, text_after, write-text_after}
use trade_pulse.Processor.System.{Move, upstream, takes, works, step, run, new_system}
use trade_pulse.Processor.System.Upstream.{received_from}
use trade_pulse.Rest.{normalize_symbol, latest_trade, trade_found, write_error}
use trade_pulse.Rest.Serves.{IsServed, held-latest_trade}

-- The faster worker's trade, then the other's, go through the Redis writer.
abbrev pub late_moves : Record → Record → List Move
late_moves first second =
    map upstream (overtaking first second redis_writer)
    ++ takes redis_writer ∷ works redis_writer ∷ takes redis_writer ∷ works redis_writer ∷ []

module _ (mul : Float64 → Float64 → Float64) (metadata : Provider)
    (decode : Text → Option TradeEvent) (c : Codec) (format_value : Float64 → Text) {R : Type 0}
    (ops : Redis R) where
  abbrev written_by : TradeEvent → R → R
  written_by event r = (write c format_value ops (enrich mul metadata event) (some new_store) r).0

  both_written :
      (workers slots : ℕ) (first second : Record) (e₁ e₂ : TradeEvent) (r : R)
      → decode first.value ≡ some e₁
      → decode second.value ≡ some e₂
      → let s =
          run mul metadata decode c format_value ops
            (late_moves first second)
            (new_system (pos (suc (suc workers))) (pos (suc (suc slots))) r) in
        (s.upstream.marked ≡ first ∷ second ∷ [])
        × (received_from redis_writer s.upstream
            ≡ enrich mul metadata e₂ ∷ enrich mul metadata e₁ ∷ [])
        × (s.redis ≡ written_by e₁ (written_by e₂ r))
  unfolding run step new_system Pipeline.step new_processor new_worker_pool submit take send receive
      make Sinks.publish publish_step new_fan_out size_or
  both_written workers slots first second e₁ e₂ r p q =
      rw (p, room workers, q, room_for_two workers, room slots, room_for_two slots)
        (refl, refl, refl)

  last_text :
      (laws : IsRedis ops) (event : TradeEvent) (text : Text) (r : R)
      → TakesAll ops
      → marshal_trade c (enrich mul metadata event) ≡ some text
      → laws.held (key_latest_trade event.symbol) (written_by event r) ≡ some text
  unfolding text_after latest enrich
  last_text laws event text r ok accepted =
      write-text_after c format_value ops laws event.symbol (enrich mul metadata event)
        (some new_store) r ok
      ∙ rw (text_eq_refl event.symbol, accepted)
          (ap (λ m. text_or m (laws.held (key_latest_trade event.symbol) r)) accepted)

  -- With two workers and two slots in each sink, or more, and for any two records that decode, there is
  -- a run in which both are marked in their order and the Redis writer has worked off both trades, after
  -- which a request for the symbol of the older trade is answered with that trade and 200 where the
  -- GET of its latest-trade key finds a value, and with 503 where that GET fails, whatever the symbol of
  -- the newer one. (The enriched older trade can be printed, its
  -- symbol is not empty, Redis takes every value and keeps what it is given, and the codec reads back
  -- what it prints.)
  pub stale-latest_trade :
      (laws : IsRedis ops) (codec_laws : IsCodec c) (t : Casing) (workers slots : ℕ)
      (first second : Record) (e₁ e₂ : TradeEvent) (r : R) (param : Text)
      → decode first.value ≡ some e₁
      → decode second.value ≡ some e₂
      → TakesAll ops
      → IsPrintable (enrich mul metadata e₁)
      → normalize_symbol t param ≡ e₁.symbol
      → is_empty e₁.symbol ≡ false
      → let s =
          run mul metadata decode c format_value ops
            (late_moves first second)
            (new_system (pos (suc (suc workers))) (pos (suc (suc slots))) r) in
        (s.upstream.marked ≡ first ∷ second ∷ [])
        × (received_from redis_writer s.upstream
            ≡ enrich mul metadata e₂ ∷ enrich mul metadata e₁ ∷ [])
        × IsServed ops
            (key_latest_trade e₁.symbol)
            s.redis
            (latest_trade c t ops param s.redis)
            (trade_found e₁.symbol (some (enrich mul metadata e₁)))
            (write_error 503 (codes "redis unavailable"))
  unfolding enrich
  stale-latest_trade laws codec_laws t workers slots first second e₁ e₂ r param p q ok printable
        same full =
      let (marked, received, written) = both_written workers slots first second e₁ e₂ r p q in
      let accepted = marshal_accepts c codec_laws (enrich mul metadata e₁) printable in
      (
        marked,
        received,
        held-latest_trade c codec_laws t format_value ops laws (enrich mul metadata e₁)
            (c.print (trade_json c (enrich mul metadata e₁)))
            (run mul metadata decode c format_value ops (late_moves first second)
              (new_system (pos (suc (suc workers))) (pos (suc (suc slots))) r)).redis
            param printable accepted
            (ap (laws.held (key_latest_trade e₁.symbol)) written
              ∙ last_text laws e₁ (c.print (trade_json c (enrich mul metadata e₁)))
                  (written_by e₂ r) ok accepted)
            same full,
      )
