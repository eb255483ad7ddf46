-- ===== src/Scenarios/Router.antt =====
-- Requests to the public server, with a router that takes the first route that admits a path.
use trade_pulse.Prelude.{◌≡◌, refl, ap, ◌∙◌, List, [], ◌∷◌, ◌++◌, some, none, if◌then◌else◌}
use trade_pulse.Text.{Text, codes, text_eq, text_eq_refl, ascii_casing}
use trade_pulse.Processor.RedisWriter.{write}
use trade_pulse.Rest.{book_found, trade_found, write_error}
use trade_pulse.Table.{Table}
use trade_pulse.Domain.Keys.{key_latest_trade, key_order_book}
use trade_pulse.Rest.Serves.{IsServed}
use trade_pulse.Rest.Health.{new_health_handler}
use trade_pulse.Api.Router.{
  Route, Found, Served, found, not_found, method_not_allowed, serve, handled, refused, new_router,
}
use trade_pulse.Api.Router.Paths.{IsRouter, admitting}
use trade_pulse.Text.Segments.{segments}
use trade_pulse.Api.Router.Serves.{write-serve}
use trade_pulse.Scenarios.Data.{btc, sell}
use trade_pulse.Scenarios.TokenCodec.{token_codec, token_codec-IsCodec}
use trade_pulse.Scenarios.MemoryRedis.{memory_redis, memory_redis-IsRedis}
use trade_pulse.Scenarios.Reads.{
  bits, books, btc_book, sell-IsPrintable, btc_book_fits, write_succeeds, asked, asked_symbol,
  book_there,
}

abbrev first_of : Text → List (Route × Text) → Found
first_of method [] = not_found
first_of method ((r, param) ∷ others) =
    if text_eq r.method method then found r.endpoint param else method_not_allowed

abbrev pub first_route : List Route → Text → Text → Found
first_route routes method path = first_of method (admitting routes path)

pub first_route-IsRouter : IsRouter first_route
first_route-IsRouter = record {
  only = λ routes path r param simple e. ap (first_of r.method) e ∙ rw (text_eq_refl r.method) refl;
}

abbrev written : Table Text
written = (write token_codec bits memory_redis sell (some books) []).0

abbrev request : Text → Text → Served
request method path =
    serve token_codec ascii_casing memory_redis (new_health_handler none 0) first_route method path
      (write token_codec bits memory_redis sell (some books) []).0

write-serve_example :
    let unavailable = handled (write_error 503 (codes "redis unavailable")) in
    IsServed memory_redis
      (key_order_book btc)
      written
      (request (codes "GET") (codes "/api/v1/orderbook/" ++ asked))
      (handled (book_found (some btc_book)))
      unavailable
    × IsServed memory_redis
        (key_latest_trade btc)
        written
        (request (codes "GET") (codes "/api/v1/trades/" ++ asked))
        (handled (trade_found btc (some sell)))
        unavailable
write-serve_example =
    write-serve token_codec ascii_casing memory_redis (new_health_handler none 0) first_route
      first_route-IsRouter token_codec-IsCodec bits memory_redis-IsRedis sell books btc_book []
      asked book_there btc_book_fits sell-IsPrintable write_succeeds asked_symbol refl refl

other_path : request (codes "GET") (codes "/api/v2/health") ≡ refused not_found
unfolding serve admitting new_router segments text_eq
other_path = refl

other_method : request (codes "POST") (codes "/api/v1/health") ≡ refused method_not_allowed
unfolding serve admitting new_router segments text_eq
other_method = refl
