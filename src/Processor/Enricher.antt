-- ===== src/Processor/Enricher.antt =====
-- services/processor-service/internal/enricher.go and metadata.go. The product of two float64
-- numbers, rounded as IEEE 754 says, is a parameter.
use trade_pulse.Prelude.{[], ◌∷◌, Option, none, some}
use trade_pulse.Text.{Text, codes}
use trade_pulse.Table.{Table, lookup}
use trade_pulse.Machine.{Float64}
use trade_pulse.Domain.{MarketMetadata, TradeEvent, zero_market}
use trade_pulse.Processor.Handler.{Handler}

-- MetadataProvider
abbrev pub Provider : Type 0
Provider = Text → Option MarketMetadata

abbrev usdt_pair : Text → MarketMetadata
usdt_pair base = record {
  base_asset = base;
  quote_asset = codes "USDT";
  exchange = codes "Binance";
}

unfoldable pub default_market_metadata : Table MarketMetadata
default_market_metadata =
    (codes "BTCUSDT", usdt_pair (codes "BTC"))
    ∷ (codes "ETHUSDT", usdt_pair (codes "ETH"))
    ∷ (codes "SOLUSDT", usdt_pair (codes "SOL"))
    ∷ []

-- NewStaticMetadataProvider and its Lookup.
unfoldable pub static_provider : Table MarketMetadata → Provider
static_provider table symbol = lookup symbol table

unfoldable pub default_provider : Provider
unfolding static_provider default_market_metadata
default_provider = static_provider default_market_metadata

abbrev pub or_zero : Option MarketMetadata → MarketMetadata
or_zero none = zero_market
or_zero (some m) = m

module _ (mul : Float64 → Float64 → Float64) (metadata : Provider) where
  -- The two assignments of Handle.
  unfoldable pub enrich : TradeEvent → TradeEvent
  enrich event = record event {
    notional = mul event.price event.quantity;
    market = or_zero (metadata event.symbol);
  }

  unfoldable pub handle {ℓ κ} : {S : Type ℓ} {E : Type κ} → Handler S E → Handler S E
  unfolding enrich
  handle next event s = next (enrich event) s
