-- ===== src/Scenarios/Data.antt =====
-- Trades, records and instances of the parameters that the scenarios share.
use trade_pulse.Prelude.{ℕ, zero, suc, ◌+◌, ◌*◌, false, [], ◌∷◌, Option, none, some}
use trade_pulse.Prelude.Int.{pos}
use trade_pulse.Text.{Text, codes}
use trade_pulse.Machine.{Float64, float_one, float_zero, unix_epoch, second}
use trade_pulse.Domain.{TradeEvent, side_buy, side_sell, zero_market}
use trade_pulse.Processor.Consumer.{Record}

-- A product of floats that is right where one factor is 1.
abbrev pub mul : Float64 → Float64 → Float64
mul x y = x

abbrev pub trade_of : Text → Text → ℕ → TradeEvent
trade_of symbol side n = record {
  symbol = symbol;
  price = float_one;
  quantity = float_one;
  side = side;
  trade_id = pos n;
  notional = float_zero;
  market = zero_market;
  is_whale = false;
  event_time = unix_epoch + n * second;
  ingest_time = unix_epoch + n * second;
}

abbrev pub btc : Text
btc = codes "BTCUSDT"

abbrev pub eth : Text
eth = codes "ETHUSDT"

abbrev pub buy : TradeEvent
buy = trade_of btc side_buy 1

abbrev pub sell : TradeEvent
sell = trade_of btc side_sell 2

-- A decoder that reads one text as each of the two trades, and no other.
abbrev pub decode : Text → Option TradeEvent
decode (zero ∷ []) = some buy
decode (suc zero ∷ []) = some sell
decode s = none

abbrev pub record_at : ℕ → Text → Record
record_at offset value = record { partition = 0; offset = offset; key = btc; value = value }

abbrev pub first_record : Record
first_record = record_at 0 (0 ∷ [])

abbrev pub second_record : Record
second_record = record_at 1 (1 ∷ [])

abbrev pub bad_record : Record
bad_record = record_at 2 (7 ∷ [])
