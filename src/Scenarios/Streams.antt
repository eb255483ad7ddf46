-- ===== src/Scenarios/Streams.antt =====
-- The ingestion service: the symbols, the streams and the publisher.
use mathlib.Core.List.{Permᴰ}
use trade_pulse.Prelude.{
  inl, inr, zero, suc, ◌≡◌, refl, ◌+◌, ◌*◌, ◌++◌, Bool, true, false, List, [], ◌∷◌, map, Option,
  none, some, arith,
}
use trade_pulse.Prelude.Int.{ℤ, pos}
use trade_pulse.Text.{Text, text_eq, codes, ascii_casing}
use trade_pulse.Machine.{
  Float64, Time, unix_epoch, second, quiet_nan, float_one, is_nan, float_le_zero,
}
use trade_pulse.Domain.{TradeEvent}
use trade_pulse.Domain.Json.{marshal_trade}
use trade_pulse.Ingestion.Symbols.{normalize_symbol, normalize_symbols}
use trade_pulse.Ingestion.Symbols.Dedup.{keep, is_set, firsts, normalize_symbols-firsts}
use trade_pulse.Ingestion.Normalizer.{BinanceTradeMessage, normalize_message, accepted}
use trade_pulse.Ingestion.Workers.{Ingest, Turn, connects, reads, disconnects, run}
use trade_pulse.Ingestion.Workers.Interleaved.{
  messages_of, connected_after, made_by, all_made, run-interleaved,
}
use trade_pulse.Ingestion.Publisher.{Produced, empty_publisher, delivery_status}
use trade_pulse.Ingestion.Publisher.Streak.{
  Delivery, deliver_all, streak, reported, delivery_status-streak,
}
use trade_pulse.Ingestion.WsHealth.{WsHealth, new_ws_health, set_connected}
use trade_pulse.Ingestion.WsHealth.Order.{set_calls}
use trade_pulse.Ingestion.Worker.Stream.{stream_records, nan_price_passes}
use trade_pulse.Table.{insert, lookup}
use trade_pulse.Retry.{with_backoff}
use trade_pulse.Ingestion.Reconnect.{
  Attempt, run_symbol_with_reconnect, all_records, run_symbol_with_reconnect-streams,
}
use trade_pulse.Json.{Json, str, num, obj, field, end}
use trade_pulse.Scenarios.TokenCodec.{token_codec}

abbrev symbols : List Text
symbols = codes " BTCUSDT" ∷ codes "btcusdt" ∷ codes "  " ∷ codes "ethusdt" ∷ []

normalize_symbols-firsts_example :
    normalize_symbols ascii_casing symbols
    ≡ firsts (keep is_set (map (normalize_symbol ascii_casing) symbols))
normalize_symbols-firsts_example = normalize_symbols-firsts ascii_casing symbols

abbrev deliveries : List Delivery
deliveries =
    (some (codes "a"), unix_epoch)
    ∷ (none, unix_epoch)
    ∷ (some (codes "b"), unix_epoch)
    ∷ (some (codes "c"), unix_epoch + second)
    ∷ []

delivery_status-streak_example :
    delivery_status (unix_epoch + 2 * second) (deliver_all deliveries empty_publisher)
    ≡ reported (unix_epoch + 2 * second) (streak deliveries).failures (streak deliveries).last
delivery_status-streak_example =
    delivery_status-streak deliveries empty_publisher (unix_epoch + 2 * second) (omega arith) refl

abbrev two_up : List (Text × Bool)
two_up = (codes "btcusdt", true) ∷ (codes "btcusdt", false) ∷ []

abbrev read_back : WsHealth
read_back = (codes "ethusdt", false) ∷ (codes "btcusdt", false) ∷ []

turned : Permᴰ (set_calls two_up (new_ws_health (codes "btcusdt" ∷ codes "ethusdt" ∷ []))) read_back
unfolding new_ws_health set_connected insert text_eq
turned = Permᴰ.swap refl refl

-- A parser that reads one text as NaN and every other as 1.
abbrev pub parse : Text → Option Float64
parse [] = none
parse (zero ∷ s) = some quiet_nan
parse (suc c ∷ s) = some float_one

abbrev nan_message : BinanceTradeMessage
nan_message = record {
  event_type = codes "trade";
  event_time = pos 1;
  symbol = codes "BTCUSDT";
  trade_id = pos 1;
  price = 0 ∷ [];
  quantity = codes "1";
  trade_time = pos 1;
  buyer_is_maker = false;
  ignore = true;
}

nan_price_passes_example :
    (event : TradeEvent) × (normalize_message parse nan_message unix_epoch ≡ accepted event)
    × (event.price ≡ quiet_nan)
    × (marshal_trade token_codec event ≡ none)
unfolding text_eq is_nan float_le_zero
nan_price_passes_example =
    nan_price_passes token_codec parse nan_message unix_epoch quiet_nan float_one 0 refl refl refl
      refl refl refl refl

-- A trade of Binance on the wire.
abbrev wire_trade : Json
wire_trade = obj (
    field (codes "e") (str (codes "trade")) (
      field (codes "s") (str (codes "BTCUSDT")) (
        field (codes "t") (num (token_codec.format_int (pos 9))) (
          field (codes "p") (str (codes "2.5")) (
            field (codes "q") (str (codes "1"))
              (field (codes "T") (num (token_codec.format_int (pos 7))) end))))))

abbrev pub messages : List (Text × Time)
messages = (codes "garbage", unix_epoch) ∷ (token_codec.print wire_trade, unix_epoch) ∷ []

abbrev draw_zero : ℤ → ℤ
draw_zero n = pos 0

-- A dial that fails, then a session that is read until the service is stopped.
abbrev attempts : List Attempt
attempts =
    record {
      round = record {
        cancelled_at_work = false;
        uptime = pos 5;
        rng = draw_zero;
        cancelled_at_wait = false;
      };
      dialled = inl (codes "refused");
    }
    ∷ record {
      round = record {
        cancelled_at_work = true;
        uptime = pos 9;
        rng = draw_zero;
        cancelled_at_wait = false;
      };
      dialled = inr (record { messages = messages; read_error = codes "closed"; cancelled = true });
    }
    ∷ []

down_at_first : lookup (codes "btcusdt") (new_ws_health (codes "btcusdt" ∷ [])) ≡ some false
unfolding new_ws_health lookup insert text_eq
down_at_first = refl

run_symbol_with_reconnect-streams_example :
    let r =
      run_symbol_with_reconnect token_codec parse
        (codes "btcusdt")
        attempts
        empty_publisher
        (new_ws_health (codes "btcusdt" ∷ [])) in
    (r.publisher.produced
      ≡ empty_publisher.produced ++ all_records token_codec parse (codes "btcusdt") attempts)
    × (lookup (codes "btcusdt") r.health ≡ some false)
    × ((r.delays, r.returned) ≡ with_backoff (map (λ (a : Attempt). a.round) attempts))
run_symbol_with_reconnect-streams_example =
    run_symbol_with_reconnect-streams token_codec parse (codes "btcusdt") attempts empty_publisher
      (new_ws_health (codes "btcusdt" ∷ [])) down_at_first

-- Two workers by turns; the first reads a trade of Binance.
abbrev turns : List (Text × Turn)
turns =
    (codes "btcusdt", connects)
    ∷ (codes "ethusdt", connects)
    ∷ (codes "btcusdt", reads (token_codec.print wire_trade) unix_epoch)
    ∷ (codes "ethusdt", reads (codes "garbage") unix_epoch)
    ∷ (codes "ethusdt", disconnects)
    ∷ []

abbrev fresh : Ingest
fresh = record { publisher = empty_publisher; health = [] }

run-interleaved_example :
    ((log : List (Text × Produced)) × ((run token_codec parse turns fresh).publisher.produced
        ≡ all_made log)
      × ((w : Text) → made_by w log ≡ stream_records token_codec parse (messages_of w turns)))
    × ((w : Text)
        → lookup w (run token_codec parse turns fresh).health
          ≡ connected_after w turns (lookup w fresh.health))
run-interleaved_example = run-interleaved token_codec parse turns fresh
