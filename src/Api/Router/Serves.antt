-- ===== src/Api/Router/Serves.antt =====
-- From a request that the public server of api-service receives to its answer: the routes of
-- services/api-service/internal/server.go over the handlers of services/api-service/rest.
use trade_pulse.Prelude.{◌≡◌, refl, ap, ◌∙◌, inl, inr, true, false, [], ◌∷◌, ◌++◌, List, none, some}
use trade_pulse.Text.{Text, Casing, codes, is_empty, trim_space, drop_space, to_upper}
use trade_pulse.Machine.{Float64}
use trade_pulse.Json.{Codec, IsCodec}
use trade_pulse.Domain.{TradeEvent, OrderBook}
use trade_pulse.Domain.Json.RoundTrip.{IsPrintable}
use trade_pulse.Domain.BookJson.{is_marshallable}
use trade_pulse.Redis.{Redis, IsRedis}
use trade_pulse.Processor.OrderBook.{Store, get}
use trade_pulse.Processor.RedisWriter.{write}
use trade_pulse.Rest.{
  trade_found, book_found, normalize_symbol, latest_trade, get_order_book, write_error, Response,
}
use trade_pulse.Domain.Keys.{key_latest_trade, key_order_book}
use trade_pulse.Rest.Health.{LagReporter}
use trade_pulse.Rest.Serves.{IsServed, write-latest_trade, write-get_order_book}
use trade_pulse.Api.Router.{Route, Found, Served, handled, serve, serve_found, new_router}
use trade_pulse.Text.Segments.{has_slash}
use trade_pulse.Api.Router.Paths.{IsRouter, new_router_simple, order_book_path, trade_path}

-- A parameter that normalizes to a symbol that is not empty is not empty.
param_is_full :
    (t : Casing) (param symbol : Text)
    → normalize_symbol t param ≡ symbol
    → is_empty symbol ≡ false
    → is_empty param ≡ false
unfolding normalize_symbol trim_space drop_space to_upper
param_is_full t [] symbol same full = ap is_empty same ∙ full
param_is_full t (c ∷ cs) symbol same full = refl

-- Of a request that goes to a handler holds what holds of the handler's answer.
pub handled-IsServed :
    {R : Type 0} (ops : Redis R) (key : Text) (r : R) {s : Served} {answer x y : Response}
    → s ≡ handled answer
    → IsServed ops key r answer x y
    → IsServed ops key r s (handled x) (handled y)
handled-IsServed ops key r e h = elim h [
  | inl (g, k) ↦ inl (g, e ∙ ap handled k)
  | inr (g, k) ↦ inr (g, e ∙ ap handled k)
]

module _ {R : Type 0} (c : Codec) (t : Casing) (ops : Redis R) (lag : LagReporter)
    (find : List Route → Text → Text → Found) (router : IsRouter find) where
  abbrev pub serve_get : Text → R → Served
  serve_get path r = serve c t ops lag find (codes "GET") path r

  -- A GET below /trades/ is answered by LatestTrade, with the rest of the path as the symbol.
  pub serve-trade :
      (param symbol : Text) (r : R)
      → normalize_symbol t param ≡ symbol
      → is_empty symbol ≡ false
      → has_slash param ≡ false
      → serve_get (codes "/api/v1/trades/" ++ param) r ≡ handled (latest_trade c t ops param r)
  unfolding serve
  serve-trade param symbol r same full whole = ap (serve_found c t ops lag r) (
      router.only new_router _ _ param new_router_simple
        (trade_path param whole (param_is_full t param symbol same full)))

  -- A GET below /orderbook/ is answered by OrderBook, with the rest of the path as the symbol.
  serve-order_book :
      (param symbol : Text) (r : R)
      → normalize_symbol t param ≡ symbol
      → is_empty symbol ≡ false
      → has_slash param ≡ false
      → serve_get (codes "/api/v1/orderbook/" ++ param) r ≡ handled (get_order_book c t ops param r)
  unfolding serve
  serve-order_book param symbol r same full whole = ap (serve_found c t ops lag r) (
      router.only new_router _ _ param new_router_simple
        (order_book_path param whole (param_is_full t param symbol same full)))

  module _ (codec_laws : IsCodec c) (format_value : Float64 → Text) (laws : IsRedis ops) where
    -- After a write, that reports no error, of a trade that can be printed, with a store that has a
    -- book for its symbol whose numbers are finite and whose time is before year 10000, let param
    -- have no slash and be, trimmed and in upper case, the symbol. GET /api/v1/orderbook/<param> is
    -- answered with that book, cut to 20 levels a side, its best bid, its best ask and 200 where the
    -- GET of the order-book key finds a value, and with 503 where that GET fails;
    -- GET /api/v1/trades/<param> is answered with the trade written and 200 where the GET of the
    -- latest-trade key finds a value, and with 503 where that GET fails. (The symbol is not empty,
    -- the router sends a path that one route admits to that route, the codec reads back what it
    -- prints, and Redis keeps what it is given.)
    pub write-serve :
        (event : TradeEvent) (books : Store) (book : OrderBook) (r : R) (param : Text)
        → get books event.symbol ≡ some book
        → is_marshallable c book ≡ true
        → IsPrintable event
        → (write c format_value ops event (some books) r).1 ≡ none
        → normalize_symbol t param ≡ event.symbol
        → is_empty event.symbol ≡ false
        → has_slash param ≡ false
        → let after = (write c format_value ops event (some books) r).0 in
          let order_book = serve_get (codes "/api/v1/orderbook/" ++ param) after in
          let trade = serve_get (codes "/api/v1/trades/" ++ param) after in
          let unavailable = handled (write_error 503 (codes "redis unavailable")) in
          IsServed ops
            (key_order_book event.symbol)
            after
            order_book
            (handled (book_found (some book)))
            unavailable
          × IsServed ops
              (key_latest_trade event.symbol)
              after
              trade
              (handled (trade_found event.symbol (some event)))
              unavailable
    write-serve event books book r param there fits printable ok same full whole =
        let after = (write c format_value ops event (some books) r).0 in
        (
          handled-IsServed ops (key_order_book event.symbol) after
              (serve-order_book param event.symbol after same full whole)
              (write-get_order_book c codec_laws t format_value ops laws event books book r param
                there fits ok same full),
          handled-IsServed ops (key_latest_trade event.symbol) after
              (serve-trade param event.symbol after same full whole)
              (write-latest_trade c codec_laws t format_value ops laws event (some books) r param
                printable ok same full),
        )
