-- ===== src/Processor/RedisWriter.antt =====
-- services/processor-service/internal/redis_writer.go. `format_value` is how the Redis client prints
-- a float64.
pub mod Writes
pub mod Latest
pub mod Snapshot
use trade_pulse.Prelude.{Bool, List, [], ◌∷◌, Option, none, some, if◌then◌else◌}
use trade_pulse.Text.{Text, is_empty}
use trade_pulse.Machine.{Float64}
use trade_pulse.Domain.{TradeEvent, OrderBook}
use trade_pulse.Domain.Keys.{key_price, key_latest_trade, key_order_book}
use trade_pulse.Domain.Json.{marshal_trade}
use trade_pulse.Domain.BookJson.{marshal_book}
use trade_pulse.Json.{Codec}
use trade_pulse.Redis.{Redis}
use trade_pulse.Processor.OrderBook.{Store, Input, trade, done, get}

pub data WriteError : Type 0 where
  marshal_trade_failed marshal_order_book_failed : WriteError
  set_latest_trade set_price set_order_book : Text → WriteError

-- The address of NewRedisWriter's configuration is required.
unfoldable pub new_redis_writer_refuses : Text → Bool
new_redis_writer_refuses addr = is_empty addr

module _ {R : Type 0} (c : Codec) (format_value : Float64 → Text) (ops : Redis R) where
  abbrev pub after_set :
      (Text → WriteError) → R × Option Text → (R → R × Option WriteError) → R × Option WriteError
  after_set wrap (r, none) rest = rest r
  after_set wrap (r, some e) rest = (r, some (wrap e))

  abbrev finish : R → (R × Option WriteError)
  finish r = (r, none)

  abbrev pub write_book_text : TradeEvent → Option Text → R → R × Option WriteError
  write_book_text event none r = (r, some marshal_order_book_failed)
  write_book_text event (some text) r =
      after_set set_order_book (ops.set (key_order_book event.symbol) text r) finish

  abbrev pub write_found : TradeEvent → Option OrderBook → R → R × Option WriteError
  write_found event none r = (r, none)
  write_found event (some book) r = write_book_text event (marshal_book c book) r

  -- The part after the two values of the trade; `none` is a nil store.
  abbrev pub write_book : TradeEvent → Option Store → R → R × Option WriteError
  write_book event none r = (r, none)
  write_book event (some books) r = write_found event (get books event.symbol) r

  abbrev pub write_text : TradeEvent → Option Store → Option Text → R → R × Option WriteError
  write_text event books none r = (r, some marshal_trade_failed)
  write_text event books (some text) r =
      after_set set_latest_trade (ops.set (key_latest_trade event.symbol) text r) λ r'.
        after_set set_price (ops.set (key_price event.symbol) (format_value event.price) r')
          λ r''. write_book event books r''

  unfoldable pub write : TradeEvent → Option Store → R → R × Option WriteError
  write event books r = write_text event books (marshal_trade c event) r

  -- Run: an error is logged, and the loop goes on.
  unfoldable pub run : Option Store → List Input → R → R
  run books [] r = r
  run books (done ∷ inputs) r = r
  run books (trade event ∷ inputs) r = run books inputs (write event books r).0

-- RedisWriter.Check
unfoldable pub check : {R : Type 0} → Redis R → R → Option Text
check ops r = ops.ping r
