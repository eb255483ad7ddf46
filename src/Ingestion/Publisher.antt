-- ===== src/Ingestion/Publisher.antt =====
-- services/ingestion-service/internal/publisher.go. The client hands every record's outcome to
-- on_delivery; a step of that is atomic here.
pub mod Streak
use trade_pulse.Prelude.{
  ◌⊎◌, inl, inr, Bool, List, [], ◌∷◌, ◌++◌, Option, none, some, ◌==◌, if◌then◌else◌,
}
use trade_pulse.Prelude.Int.{ℤ, pos, negsuc, ltb_ℤ}
use trade_pulse.Text.{Text}
use trade_pulse.Machine.{Time, Duration, zero_time, time_sub, add64}
use trade_pulse.Domain.{TradeEvent}
use trade_pulse.Domain.Keys.{topic_trades_raw}
use trade_pulse.Domain.Json.{marshal_trade}
use trade_pulse.Json.{Codec}

-- kgo.Record, as far as it is set here.
pub record Produced : Type 0 where
  pub topic : Text
  pub key : Text
  pub payload : Text
  pub timestamp : Time

-- `produced` is what was handed to the client, oldest first.
pub record Publisher : Type 0 where
  pub produced : List Produced
  pub consecutive_failures : ℤ
  pub last_failure : Option Text
  pub last_failure_at : Time

pub data NewError : Type 0 where
  no_broker : NewError
  new_producer : Text → NewError

abbrev pub empty_publisher : Publisher
empty_publisher = record {
  produced = [];
  consecutive_failures = pos 0;
  last_failure = none;
  last_failure_at = zero_time;
}

abbrev pub with_client : Option Text → NewError ⊎ Publisher
with_client none = inr empty_publisher
with_client (some e) = inl (new_producer e)

-- NewPublisher; `client` is the error of kgo.NewClient.
unfoldable pub new_publisher : List Text → Option Text → NewError ⊎ Publisher
new_publisher [] client = inl no_broker
new_publisher (b ∷ brokers) client = with_client client

abbrev pub record_of : TradeEvent → Text → Produced
record_of event payload = record {
  topic = topic_trades_raw;
  key = event.symbol;
  payload = payload;
  timestamp = event.event_time;
}

abbrev pub produce : TradeEvent → Option Text → Publisher → Option Publisher
produce event none p = none
produce event (some payload) p =
    some (record p { produced = p.produced ++ record_of event payload ∷ [] })

-- `none` is the error of json.Marshal, with nothing produced.
unfoldable pub publish : Codec → TradeEvent → Publisher → Option Publisher
publish c event p = produce event (marshal_trade c event) p

unfoldable pub on_delivery : Option Text → Time → Publisher → Publisher
on_delivery none now p = record p { consecutive_failures = pos 0 }
on_delivery (some e) now p = record p {
  consecutive_failures = add64 p.consecutive_failures (pos 1);
  last_failure = some e;
  last_failure_at = now;
}

pub data CheckError : Type 0 where
  ping_failed : Text → CheckError
  deliveries_failed : ℤ → Duration → Option Text → CheckError

abbrev pub is_zero_ℤ : ℤ → Bool
is_zero_ℤ (pos n) = n == 0
is_zero_ℤ (negsuc n) = Bool.false

-- The message rounds the time since the last failure to seconds; it is exact here.
unfoldable pub delivery_status : Time → Publisher → Option CheckError
delivery_status now p =
    if is_zero_ℤ p.consecutive_failures
    then none
    else some
        (deliveries_failed p.consecutive_failures (time_sub now p.last_failure_at) p.last_failure)

unfoldable pub check : Option Text → Time → Publisher → Option CheckError
check (some e) now p = some (ping_failed e)
check none now p = delivery_status now p
