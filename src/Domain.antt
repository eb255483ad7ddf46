-- ===== src/Domain.antt =====
-- shared/domain: trade events, order books, and the wire contract of Redis keys.
pub mod Keys
pub mod Json
pub mod BookJson
pub mod Fx
pub mod Candle
use trade_pulse.Prelude.{Bool, true, false, Option, none, some, List, [], ◌∷◌, ℕ}
use trade_pulse.Machine.{Float64, Time, float_zero, zero_time}
use trade_pulse.Prelude.Int.{ℤ, pos}
use trade_pulse.Text.{Text, codes}

-- `type Side string`: a string, with two values that have a meaning.
abbrev pub Side : Type 0
Side = Text

abbrev pub side_buy : Side
side_buy = codes "BUY"

abbrev pub side_sell : Side
side_sell = codes "SELL"

pub record MarketMetadata : Type 0 where
  pub base_asset : Text
  pub quote_asset : Text
  pub exchange : Text

abbrev pub zero_market : MarketMetadata
zero_market = record { base_asset = []; quote_asset = []; exchange = [] }

pub record TradeEvent : Type 0 where
  pub symbol : Text
  pub price : Float64
  pub quantity : Float64
  pub side : Side
  pub trade_id : ℤ
  pub notional : Float64
  pub market : MarketMetadata
  pub is_whale : Bool
  pub event_time : Time
  pub ingest_time : Time

abbrev pub zero_trade : TradeEvent
zero_trade = record {
  symbol = [];
  price = float_zero;
  quantity = float_zero;
  side = [];
  trade_id = pos 0;
  notional = float_zero;
  market = zero_market;
  is_whale = false;
  event_time = zero_time;
  ingest_time = zero_time;
}

pub record PriceLevel : Type 0 where
  pub price : Float64
  pub quantity : Float64

-- A nil slice and an empty one differ only in their JSON; the source makes no empty one.
pub record OrderBook : Type 0 where
  pub symbol : Text
  pub bids : List PriceLevel
  pub asks : List PriceLevel
  pub last_update : Time

abbrev pub zero_book : OrderBook
zero_book = record { symbol = []; bids = []; asks = []; last_update = zero_time }

abbrev pub head? {ℓ} : {A : Type ℓ} → List A → Option A
head? [] = none
head? (x ∷ xs) = some x

unfoldable pub best_bid : OrderBook → Option PriceLevel
best_bid b = head? b.bids

unfoldable pub best_ask : OrderBook → Option PriceLevel
best_ask b = head? b.asks
