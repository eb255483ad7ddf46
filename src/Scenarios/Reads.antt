-- ===== src/Scenarios/Reads.antt =====
-- What goes to Redis and what is served from it, and the health endpoints.
use trade_pulse.Prelude.{
  map, ℕ, zero, suc, ◌+◌, ◌*◌, ◌≡◌, refl, ◌<◌, ◌↔◌, ◌≢◌, true, false, List, [], ◌∷◌, none, some,
  arith, if◌then◌else◌, All, ◌++◌,
}
use trade_pulse.Prelude.Int.{pos}
use trade_pulse.Text.{
  Text, text_eq, ascii_casing, codes, trim_space, drop_space, to_upper, upper_rune, is_space,
}
use trade_pulse.Machine.{Float64, is_finite, second, unix_epoch}
use trade_pulse.Json.{◌>>=◌, is_json_time}
use trade_pulse.Table.{Table, lookup, insert}
use trade_pulse.Domain.{OrderBook}
use trade_pulse.Domain.Json.{marshal_trade}
use trade_pulse.Domain.Json.RoundTrip.{IsPrintable}
use trade_pulse.Domain.BookJson.{marshal_book, unmarshal_book, is_marshallable}
use trade_pulse.Domain.BookJson.RoundTrip.{unmarshal-marshal_book}
use trade_pulse.Processor.OrderBook.{Store, get}
use trade_pulse.Processor.RedisWriter.{write}
use trade_pulse.Processor.RedisWriter.Writes.{IsWritten, write-IsWritten}
use trade_pulse.Kafka.Lag.{admin, ok, err, zero_lag}
use trade_pulse.Kafka.Cache.{snapshot, new_lag_cache}
use trade_pulse.Kafka.Cache.Served.{Reading, refresh_all, last_good, IsFresh}
use trade_pulse.Rest.{normalize_symbol}
use trade_pulse.Rest.Health.{health, new_health_handler, lag_key, shows_total, health-IsFresh}
use trade_pulse.Text.Segments.{segments}
use trade_pulse.HttpServer.Mux as Mux
use trade_pulse.HttpServer.Mux.{
  Handler, health_report, live_report, metrics_report, mounted, new_mux, mount_all, live,
  by_mounted, serve, is_plain,
}
use trade_pulse.HttpServer.Mux.Mounts.{serve-mounts}
use trade_pulse.HttpServer.{Answer, serve_error, Checker, start, run_public, listen_failed, served}
use trade_pulse.HttpServer.Checks.{occurs, any_error}
use trade_pulse.Scenarios.Data.{btc, sell}
use trade_pulse.Scenarios.TokenCodec.{token_codec, token_codec-IsCodec}
use trade_pulse.Scenarios.MemoryRedis.{memory_redis, memory_redis-IsRedis}

-- The client prints a float64 as its bit pattern here.
abbrev pub bits : Float64 → Text
bits x = x ∷ []

abbrev pub books : Store
books =
    (
      btc,
      record {
        symbol = btc;
        bids = record { price = sell.price; quantity = sell.quantity } ∷ [];
        asks = [];
        last_update = sell.event_time;
      },
    )
    ∷ []

abbrev pub btc_book : OrderBook
btc_book = record {
  symbol = btc;
  bids = record { price = sell.price; quantity = sell.quantity } ∷ [];
  asks = [];
  last_update = sell.event_time;
}

pub sell-IsPrintable : IsPrintable sell
unfolding is_finite is_json_time
sell-IsPrintable = record {
  price = refl;
  quantity = refl;
  notional = refl;
  event_time = refl;
  ingest_time = refl;
  notional_zero = λ h. refl;
  trade_id = omega arith;
}

pub btc_book_fits : is_marshallable token_codec btc_book ≡ true
unfolding is_finite is_json_time
btc_book_fits = refl

unmarshal-marshal_book_example :
    (marshal_book token_codec btc_book >>= unmarshal_book token_codec) ≡ some btc_book
unmarshal-marshal_book_example =
    unmarshal-marshal_book token_codec token_codec-IsCodec btc_book btc_book_fits

pub write_succeeds : (write token_codec bits memory_redis sell (some books) []).1 ≡ none
unfolding write marshal_trade marshal_book is_finite is_json_time get lookup text_eq
write_succeeds = refl

write-IsWritten_example :
    IsWritten token_codec bits memory_redis memory_redis-IsRedis sell
      (some books)
      []
      (write token_codec bits memory_redis sell (some books) []).0
write-IsWritten_example =
    write-IsWritten token_codec bits memory_redis memory_redis-IsRedis sell (some books) []
      write_succeeds

-- A request with spaces around it and in lower case.
abbrev pub asked : Text
asked = codes " btcusdt "

pub asked_symbol : normalize_symbol ascii_casing asked ≡ btc
unfolding normalize_symbol trim_space drop_space is_space to_upper upper_rune
asked_symbol = refl

pub book_there : get books btc ≡ some btc_book
unfolding get lookup text_eq
book_there = refl

abbrev lag_readings : List Reading
lag_readings =
    (ok (record zero_lag { total = pos 12; members = 1 }), unix_epoch)
    ∷ (err (admin (codes "unreachable")), unix_epoch + second)
    ∷ []

health-IsFresh_example :
    let cache = refresh_all lag_readings (new_lag_cache (pos second)) in
    let answer =
      health (new_health_handler (some cache) (unix_epoch + 2 * second)) (some (codes "down")) in
    let fresh =
      IsFresh
        (new_lag_cache (pos second)).stale_after
        (unix_epoch + 2 * second)
        (last_good lag_readings) in
    ((answer.status ≡ 503) ↔ (some (codes "down") ≢ none))
    × ((answer.response.degraded ≡ false) ↔ ((some (codes "down") ≡ none) × fresh))
    × (fresh ↔ (
        lookup lag_key answer.response.checks
        ≡ some (shows_total (snapshot (some cache)).lag.total)))
health-IsFresh_example =
    health-IsFresh lag_readings (pos second) (unix_epoch + 2 * second) (some (codes "down"))

abbrev checkers : List (Checker ℕ)
checkers =
    record { name = codes "redis"; check = none; detail = none }
    ∷ record { name = codes "kafka"; check = some (codes "down"); detail = some 3 }
    ∷ []

both : (i : ℕ) → i < 2 → occurs i (0 ∷ 1 ∷ []) ≡ true
both zero h = refl
both (suc zero) h = refl
both (suc (suc i)) h = absurd (omega arith)

both_turned : (i : ℕ) → i < 2 → occurs i (1 ∷ 0 ∷ []) ≡ true
both_turned zero h = refl
both_turned (suc zero) h = refl
both_turned (suc (suc i)) h = absurd (omega arith)

abbrev mounts : List (Text × Text)
mounts = (codes "/debug/pprof", codes "pprof") ∷ []

abbrev new_server : Table Handler
new_server =
    (codes "/health", health_report)
    ∷ (codes "/health/live", live_report)
    ∷ (codes "/metrics", metrics_report)
    ∷ []

mounts_plain : All (λ m. is_plain m.0 ≡ true) mounts
unfolding is_plain segments text_eq
mounts_plain = (refl, tt)

is_new_server : new_mux ≡ some new_server
unfolding new_mux lookup insert text_eq
is_new_server = refl

is_mounted :
    mount_all mounts new_server
    ≡ some (new_server ++ (codes "/debug/pprof", mounted (codes "pprof")) ∷ [])
unfolding mount_all lookup insert text_eq
is_mounted = refl

other_patterns :
    map is_plain
      (codes "foo" ∷ codes "a.com/health" ∷ codes "/a//b" ∷ codes "/a/" ∷ codes "GET /a" ∷ [])
    ≡ false ∷ false ∷ false ∷ false ∷ false ∷ []
unfolding is_plain segments text_eq
other_patterns = refl

mounted_twice : mount_all ((codes "/metrics", codes "pprof") ∷ []) new_server ≡ none
unfolding mount_all lookup insert text_eq
mounted_twice = refl

serve-mounts_example :
    let mux = new_server ++ (codes "/debug/pprof", mounted (codes "pprof")) ∷ [] in
    ((answer : Answer ℕ) × (serve mux checkers (0 ∷ 1 ∷ []) (codes "/health") ≡ Mux.health answer)
      × (serve mux checkers (1 ∷ 0 ∷ []) (codes "/health") ≡ Mux.health answer)
      × (answer.code ≡ (if any_error checkers then 503 else 200)))
    × (serve mux checkers (0 ∷ 1 ∷ []) (codes "/health/live") ≡ live 200 (codes "ok"))
    × All (λ m. serve mux checkers (0 ∷ 1 ∷ []) m.0 ≡ by_mounted m.1) mounts
serve-mounts_example =
    serve-mounts mounts new_server
      (new_server ++ (codes "/debug/pprof", mounted (codes "pprof")) ∷ []) checkers (0 ∷ 1 ∷ [])
      (1 ∷ 0 ∷ []) mounts_plain is_new_server is_mounted both both_turned

-- A public server that cannot listen ends without an error, and the ops server with one.
not_listening :
    (run_public (served (listen_failed (codes "in use"))) ≡ none)
    × (start (served (listen_failed (codes "in use")))
        ≡ some (serve_error (listen_failed (codes "in use"))))
unfolding run_public start
not_listening = (refl, refl)
