-- ===== src/Domain/Keys.antt =====
-- shared/domain/broker.go: the Redis keys of a symbol. No two of them meet.
use trade_pulse.Prelude.{◌≡◌, ◌≢◌, ◌++◌, arith}
use trade_pulse.Text.{Text, codes}

unfoldable pub key_price : Text → Text
key_price symbol = codes "price:" ++ symbol

unfoldable pub key_latest_trade : Text → Text
key_latest_trade symbol = codes "trade:latest:" ++ symbol

unfoldable pub key_order_book : Text → Text
key_order_book symbol = codes "orderbook:" ++ symbol

abbrev pub consumer_group_processor : Text
consumer_group_processor = codes "processor-service"

abbrev pub topic_trades_raw : Text
topic_trades_raw = codes "trades.raw"

-- Two keys are equal only if they are of one kind and one symbol.
pub key_kinds_ne :
    (s t : Text)
    → (key_price s ≢ key_latest_trade t)
      × (key_price s ≢ key_order_book t)
      × (key_latest_trade s ≢ key_order_book t)
unfolding key_price key_latest_trade key_order_book
key_kinds_ne s t = (λ h. ground arith, λ h. ground arith, λ h. ground arith)

pub key_injective :
    (s t : Text)
    → (key_price s ≡ key_price t → s ≡ t)
      × (key_latest_trade s ≡ key_latest_trade t → s ≡ t)
      × (key_order_book s ≡ key_order_book t → s ≡ t)
unfolding key_price key_latest_trade key_order_book
key_injective s t = (λ h. cc, λ h. cc, λ h. cc)
