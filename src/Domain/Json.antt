-- ===== src/Domain/Json.antt =====
-- The JSON of shared/domain's types, as the struct tags say.
pub mod RoundTrip
use trade_pulse.Prelude.{Bool, true, false, ◌&&◌, List, [], ◌∷◌, Option, none, some, if◌then◌else◌}
use trade_pulse.Text.{Text, codes, is_empty}
use trade_pulse.Machine.{Float64, is_finite, float_is_zero}
use trade_pulse.Domain.{
  MarketMetadata, TradeEvent, PriceLevel, OrderBook, zero_trade, zero_book, zero_market,
}
use trade_pulse.Json.{
  Json, null, bool, num, str, arr, obj, Items, nil, cons, Fields, end, field, Codec, ◌>>=◌,
  is_json_time, decode_struct, read_text, read_bool, read_float, read_int, read_time,
}

pub data MarketKey : Type 0 where
  base_asset quote_asset exchange : MarketKey

abbrev pub market_keys : List (Text × MarketKey)
market_keys =
    (codes "base_asset", base_asset)
    ∷ (codes "quote_asset", quote_asset)
    ∷ (codes "exchange", exchange)
    ∷ []

-- `omitempty`
abbrev pub text_unless_empty : Text → Text → Fields → Fields
text_unless_empty key s rest = if is_empty s then rest else field key (str s) rest

unfoldable pub market_fields : MarketMetadata → Fields
market_fields m = text_unless_empty (codes "base_asset") m.base_asset (
    text_unless_empty (codes "quote_asset") m.quote_asset
      (text_unless_empty (codes "exchange") m.exchange end))

pub data TradeKey : Type 0 where
  symbol price quantity side trade_id notional market is_whale event_time ingest_time : TradeKey

abbrev pub trade_keys : List (Text × TradeKey)
trade_keys =
    (codes "symbol", symbol)
    ∷ (codes "price", price)
    ∷ (codes "quantity", quantity)
    ∷ (codes "side", side)
    ∷ (codes "trade_id", trade_id)
    ∷ (codes "notional", notional)
    ∷ (codes "market", market)
    ∷ (codes "is_whale", is_whale)
    ∷ (codes "event_time", event_time)
    ∷ (codes "ingest_time", ingest_time)
    ∷ []

module _ (c : Codec) where
  unfoldable pub assign_market : MarketKey → Json → MarketMetadata → Option MarketMetadata
  assign_market base_asset j m =
      read_text c j m.base_asset >>= λ v. some (record m { base_asset = v })
  assign_market quote_asset j m =
      read_text c j m.quote_asset >>= λ v. some (record m { quote_asset = v })
  assign_market exchange j m = read_text c j m.exchange >>= λ v. some (record m { exchange = v })

  unfoldable pub assign_trade : TradeKey → Json → TradeEvent → Option TradeEvent
  unfolding assign_market
  assign_trade symbol j e = read_text c j e.symbol >>= λ v. some (record e { symbol = v })
  assign_trade price j e = read_float c j e.price >>= λ v. some (record e { price = v })
  assign_trade quantity j e = read_float c j e.quantity >>= λ v. some (record e { quantity = v })
  assign_trade side j e = read_text c j e.side >>= λ v. some (record e { side = v })
  assign_trade trade_id j e = read_int c j e.trade_id >>= λ v. some (record e { trade_id = v })
  assign_trade notional j e = read_float c j e.notional >>= λ v. some (record e { notional = v })
  assign_trade market j e =
      decode_struct market_keys assign_market j e.market >>= λ v. some (record e { market = v })
  assign_trade is_whale j e = read_bool c j e.is_whale >>= λ v. some (record e { is_whale = v })
  assign_trade event_time j e =
      read_time c j e.event_time >>= λ v. some (record e { event_time = v })
  assign_trade ingest_time j e =
      read_time c j e.ingest_time >>= λ v. some (record e { ingest_time = v })

  -- json.Unmarshal into a zero TradeEvent.
  unfoldable pub unmarshal_trade : Text → Option TradeEvent
  unmarshal_trade raw = c.parse raw >>= λ j. decode_struct trade_keys assign_trade j zero_trade

  unfoldable pub after_market : TradeEvent → Fields
  after_market e =
      let times =
        field (codes "event_time") (str (c.format_time e.event_time))
          (field (codes "ingest_time") (str (c.format_time e.ingest_time)) end) in
      if e.is_whale then field (codes "is_whale") (bool true) times else times

  unfoldable pub after_trade_id : TradeEvent → Fields
  unfolding after_market market_fields
  after_trade_id e =
      let rest = field (codes "market") (obj (market_fields e.market)) (after_market e) in
      if float_is_zero e.notional
      then rest
      else field (codes "notional") (num (c.format_float e.notional)) rest

  unfoldable pub trade_json : TradeEvent → Json
  unfolding after_trade_id
  trade_json e = obj (
      field (codes "symbol") (str e.symbol) (
        field (codes "price") (num (c.format_float e.price)) (
          field (codes "quantity") (num (c.format_float e.quantity)) (
            field (codes "side") (str e.side)
              (field (codes "trade_id") (num (c.format_int e.trade_id)) (after_trade_id e))))))

  -- json.Marshal refuses NaN, infinities and times past year 9999.
  abbrev pub is_marshallable : TradeEvent → Bool
  is_marshallable e =
      is_finite e.price
      && is_finite e.quantity
      && is_finite e.notional
      && is_json_time e.event_time
      && is_json_time e.ingest_time

  unfoldable pub marshal_trade : TradeEvent → Option Text
  unfolding trade_json
  marshal_trade e = if is_marshallable e then some (c.print (trade_json e)) else none
