-- ===== src/Rest.antt =====
-- services/api-service/rest: the handlers that answer from Redis. A request is the value of its
-- {symbol} parameter; a response is its status and the value that is encoded as its body.
pub mod Serves
pub mod Health
use trade_pulse.Prelude.{
  ℕ, Bool, List, [], ◌∷◌, Option, none, some, leb, length, take, if◌then◌else◌,
}
use trade_pulse.Text.{Text, Casing, codes, trim_space, to_upper, is_empty}
use trade_pulse.Machine.{Time}
use trade_pulse.Json.{Codec}
use trade_pulse.Domain.{TradeEvent, PriceLevel, OrderBook, best_bid, best_ask}
use trade_pulse.Domain.Keys.{key_latest_trade, key_order_book}
use trade_pulse.Domain.Json.{unmarshal_trade}
use trade_pulse.Domain.BookJson.{unmarshal_book}
use trade_pulse.Redis.{Redis, Reply, value, missing, failed}

pub record TradeResponse : Type 0 where
  pub symbol : Text
  pub trades : List TradeEvent
  pub source : Text

pub record OrderBookResponse : Type 0 where
  pub symbol : Text
  pub bids : List PriceLevel
  pub asks : List PriceLevel
  pub best_bid : Option PriceLevel
  pub best_ask : Option PriceLevel
  pub last_update : Time
  pub source : Text

pub data Body : Type 0 where
  error : Text → Body
  trade : TradeResponse → Body
  order_book : OrderBookResponse → Body

pub record Response : Type 0 where
  pub status : ℕ
  pub body : Body

abbrev pub write_error : ℕ → Text → Response
write_error status message = record { status = status; body = error message }

unfoldable pub normalize_symbol : Casing → Text → Text
normalize_symbol t s = to_upper t (trim_space s)

unfoldable pub limit_levels : List PriceLevel → ℕ → List PriceLevel
limit_levels levels limit = if leb (length levels) limit then levels else take limit levels

-- The address of NewRedisReader is required.
unfoldable pub new_redis_reader_refuses : Text → Bool
new_redis_reader_refuses addr = is_empty addr

abbrev pub trade_found : Text → Option TradeEvent → Response
trade_found symbol none = write_error 500 (codes "cached trade is invalid")
trade_found symbol (some event) = record {
  status = 200;
  body = trade (record { symbol = symbol; trades = event ∷ []; source = codes "redis" });
}

unfoldable pub book_response : OrderBook → OrderBookResponse
unfolding limit_levels best_bid best_ask
book_response book = record {
  symbol = book.symbol;
  bids = limit_levels book.bids 20;
  asks = limit_levels book.asks 20;
  best_bid = best_bid book;
  best_ask = best_ask book;
  last_update = book.last_update;
  source = codes "redis";
}

abbrev pub book_found : Option OrderBook → Response
book_found none = write_error 500 (codes "cached order book is invalid")
book_found (some book) = record { status = 200; body = order_book (book_response book) }

module _ (c : Codec) where
  abbrev pub trade_reply : Text → Reply → Response
  trade_reply symbol missing = write_error 404 (codes "trade not found")
  trade_reply symbol (failed e) = write_error 503 (codes "redis unavailable")
  trade_reply symbol (value raw) = trade_found symbol (unmarshal_trade c raw)

  abbrev pub book_reply : Reply → Response
  book_reply missing = write_error 404 (codes "order book not found")
  book_reply (failed e) = write_error 503 (codes "redis unavailable")
  book_reply (value raw) = book_found (unmarshal_book c raw)

  module _ {R : Type 0} (t : Casing) (ops : Redis R) where
    unfoldable pub latest_trade : Text → R → Response
    latest_trade param r =
        let symbol = normalize_symbol t param in
        if is_empty symbol
        then write_error 400 (codes "symbol is required")
        else trade_reply symbol (ops.get (key_latest_trade symbol) r)

    unfoldable pub get_order_book : Text → R → Response
    get_order_book param r =
        let symbol = normalize_symbol t param in
        if is_empty symbol
        then write_error 400 (codes "symbol is required")
        else book_reply (ops.get (key_order_book symbol) r)

-- RedisReader.Check
unfoldable pub check : {R : Type 0} → Redis R → R → Option Text
check ops r = ops.ping r
