-- ===== src/Ingestion/Normalizer.antt =====
-- services/ingestion-service/internal/normalizer.go. `parse` is strconv.ParseFloat, which also reads
-- "NaN" and "Inf"; `none` is its error.
use trade_pulse.Prelude.{
  ℕ, zero, suc, Bool, false, not, List, [], ◌∷◌, Option, none, some, if◌then◌else◌,
}
use trade_pulse.Prelude.Int.{ℤ, pos, negsuc}
use trade_pulse.Text.{Text, codes, text_eq, is_empty}
use trade_pulse.Machine.{Float64, Time, float_le_zero, float_zero, unix_milli}
use trade_pulse.Domain.{TradeEvent, side_buy, side_sell, zero_market}
use trade_pulse.Json.{Json, Codec, decode_struct, read_text, read_int, read_bool, ◌>>=◌}

-- The wire shape of a raw @trade event.
pub record BinanceTradeMessage : Type 0 where
  pub event_type : Text
  pub event_time : ℤ
  pub symbol : Text
  pub trade_id : ℤ
  pub price : Text
  pub quantity : Text
  pub trade_time : ℤ
  pub buyer_is_maker : Bool
  pub ignore : Bool

abbrev pub zero_message : BinanceTradeMessage
zero_message = record {
  event_type = [];
  event_time = pos 0;
  symbol = [];
  trade_id = pos 0;
  price = [];
  quantity = [];
  trade_time = pos 0;
  buyer_is_maker = false;
  ignore = false;
}

pub data MessageKey : Type 0 where
  event_type event_time symbol trade_id price quantity trade_time buyer_is_maker ignore : MessageKey

-- The JSON names; they are told apart by case.
abbrev pub message_keys : List (Text × MessageKey)
message_keys =
    (codes "e", event_type)
    ∷ (codes "E", event_time)
    ∷ (codes "s", symbol)
    ∷ (codes "t", trade_id)
    ∷ (codes "p", price)
    ∷ (codes "q", quantity)
    ∷ (codes "T", trade_time)
    ∷ (codes "m", buyer_is_maker)
    ∷ (codes "M", ignore)
    ∷ []

pub data NormalizeError : Type 0 where
  unmarshal_failed missing_symbol : NormalizeError
  unexpected_event_type invalid_price invalid_quantity : Text → NormalizeError
  invalid_trade_time : ℤ → NormalizeError

pub data Normalized : Type 0 where
  accepted : TradeEvent → Normalized
  rejected : NormalizeError → Normalized

-- A parsed number that is not `<= 0`.
unfoldable pub not_le_zero : Option Float64 → Option Float64
not_le_zero none = none
not_le_zero (some x) = if float_le_zero x then none else some x

module _ (c : Codec) where
  unfoldable pub assign_message :
      MessageKey → Json → BinanceTradeMessage → Option BinanceTradeMessage
  assign_message event_type j m =
      read_text c j m.event_type >>= λ v. some (record m { event_type = v })
  assign_message event_time j m =
      read_int c j m.event_time >>= λ v. some (record m { event_time = v })
  assign_message symbol j m = read_text c j m.symbol >>= λ v. some (record m { symbol = v })
  assign_message trade_id j m = read_int c j m.trade_id >>= λ v. some (record m { trade_id = v })
  assign_message price j m = read_text c j m.price >>= λ v. some (record m { price = v })
  assign_message quantity j m = read_text c j m.quantity >>= λ v. some (record m { quantity = v })
  assign_message trade_time j m =
      read_int c j m.trade_time >>= λ v. some (record m { trade_time = v })
  assign_message buyer_is_maker j m =
      read_bool c j m.buyer_is_maker >>= λ v. some (record m { buyer_is_maker = v })
  assign_message ignore j m = read_bool c j m.ignore >>= λ v. some (record m { ignore = v })

  unfoldable pub unmarshal_message : Text → Option BinanceTradeMessage
  unfolding assign_message
  unmarshal_message raw =
      c.parse raw >>= λ j. decode_struct message_keys assign_message j zero_message

abbrev pub side_of : Bool → Text
side_of maker = if maker then side_sell else side_buy

abbrev pub event_of : BinanceTradeMessage → Float64 → Float64 → Time → ℕ → TradeEvent
event_of m x q ingest_time ms = record {
  symbol = m.symbol;
  price = x;
  quantity = q;
  side = side_of m.buyer_is_maker;
  trade_id = m.trade_id;
  notional = float_zero;
  market = zero_market;
  is_whale = false;
  event_time = unix_milli ms;
  ingest_time = ingest_time;
}

abbrev pub trade_at : BinanceTradeMessage → Float64 → Float64 → Time → ℤ → Normalized
trade_at m x q ingest_time (negsuc n) = rejected (invalid_trade_time (negsuc n))
trade_at m x q ingest_time (pos zero) = rejected (invalid_trade_time (pos 0))
trade_at m x q ingest_time (pos (suc ms)) = accepted (event_of m x q ingest_time (suc ms))

abbrev pub with_quantity : BinanceTradeMessage → Float64 → Time → Option Float64 → Normalized
with_quantity m x ingest_time none = rejected (invalid_quantity m.quantity)
with_quantity m x ingest_time (some q) = trade_at m x q ingest_time m.trade_time

abbrev pub with_price :
    (Text → Option Float64) → BinanceTradeMessage → Time → Option Float64 → Normalized
with_price parse m ingest_time none = rejected (invalid_price m.price)
with_price parse m ingest_time (some x) =
    with_quantity m x ingest_time (not_le_zero (parse m.quantity))

unfoldable pub normalize_message : (Text → Option Float64) → BinanceTradeMessage → Time → Normalized
unfolding not_le_zero
normalize_message parse m ingest_time =
    if not (text_eq m.event_type (codes "trade"))
    then rejected (unexpected_event_type m.event_type)
    else if is_empty m.symbol
    then rejected missing_symbol
    else with_price parse m ingest_time (not_le_zero (parse m.price))

abbrev pub of_message : (Text → Option Float64) → Time → Option BinanceTradeMessage → Normalized
of_message parse ingest_time none = rejected unmarshal_failed
of_message parse ingest_time (some m) = normalize_message parse m ingest_time

unfoldable pub normalize_trade : Codec → (Text → Option Float64) → Text → Time → Normalized
normalize_trade c parse raw ingest_time = of_message parse ingest_time (unmarshal_message c raw)
