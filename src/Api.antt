-- ===== src/Api.antt =====
-- services/api-service/internal/service.go: what Run starts, by the configuration, and what it returns.
-- The errgroup is the parameter `wait`, and `client` the error of kgo.NewClient in NewLagReader.
pub mod Degrades
pub mod OpsHealth
pub mod Router
use trade_pulse.Prelude.{Bool, List, [], ◌∷◌, ◌++◌, map, Option, none, some, if◌then◌else◌}
use trade_pulse.Text.{Text, codes}
use trade_pulse.Config.{Config}
use trade_pulse.Domain.Keys.{consumer_group_processor, topic_trades_raw}
use trade_pulse.Kafka.Lag.{LagReader, ReaderError, new_lag_reader}
use trade_pulse.Machine.{Duration, Time}
use trade_pulse.Prelude.Int.{ℤ}
use trade_pulse.Kafka.Cache.{LagCache, CheckError, Details, new_lag_cache, check, details}
use trade_pulse.Rest.{new_redis_reader_refuses}
use trade_pulse.HttpServer.{Checker, register_checker, Ending, StartError, run_public}

pub data Goroutine : Type 0 where
  refreshes_lag serves_public : Goroutine

-- `checkers` are the names of those registered with the ops server, in order.
pub record Started : Type 0 where
  pub checkers : List Text
  pub lag : Option LagCache
  pub goroutines : List Goroutine

pub data RunError : Type 0 where
  redis_reader : RunError
  public_server : StartError → RunError

abbrev pub with_reader : Config → Option ReaderError × Option LagReader → Started → Started
with_reader cfg (some e, reader) s = s
with_reader cfg (none, none) s = s
with_reader cfg (none, some reader) s = record {
  checkers = s.checkers ++ codes "kafka_consumer_lag" ∷ [];
  lag = some (new_lag_cache cfg.kafka.lag_refresh_interval);
  goroutines = s.goroutines ++ refreshes_lag ∷ [];
}

unfoldable pub start_lag_cache : Config → Option Text → Started → Started
start_lag_cache cfg client s =
    with_reader cfg
      (new_lag_reader cfg.kafka.brokers consumer_group_processor topic_trades_raw client) s

abbrev pub with_public : Started → Started
with_public s = record s { goroutines = s.goroutines ++ serves_public ∷ [] }

-- Run up to its Wait; `none` where it returns the Redis reader's error.
unfoldable pub started : Config → Option Text → Option Started
unfolding start_lag_cache
started cfg client =
    if new_redis_reader_refuses cfg.redis.addr
    then none
    else some (
        with_public (
          start_lag_cache cfg client
            (record { checkers = codes "redis" ∷ []; lag = none; goroutines = [] })))

abbrev pub public_error : Option StartError → Option RunError
public_error none = none
public_error (some e) = some (public_server e)

-- What a goroutine returns: LagCache.Run always nil, PublicServer.Run by how it ends.
abbrev pub returns : Ending → Goroutine → Option RunError
returns ending refreshes_lag = none
returns ending serves_public = public_error (run_public ending)

abbrev pub waited :
    (List (Option RunError) → Option RunError) → Ending → Option Started → Option RunError
waited wait ending none = some redis_reader
waited wait ending (some s) = wait (map (returns ending) s.goroutines)

unfoldable pub run :
    (List (Option RunError) → Option RunError) → Config → Option Text → Ending → Option RunError
unfolding started
run wait cfg client ending = waited wait ending (started cfg client)

-- The checkers that the ops server has once Run has registered them, with what each answers: the
-- Redis reader's, and the lag cache's, which is also a Detailer. `error_text` is an error's message,
-- and `seconds` a duration in whole seconds.
module _ (error_text : CheckError → Text) (seconds : Duration → ℤ) where
  abbrev redis_checker : Option Text → Checker Details
  redis_checker redis = record { name = codes "redis"; check = redis; detail = none }

  abbrev pub text_of : Option CheckError → Option Text
  text_of none = none
  text_of (some e) = some (error_text e)

  abbrev lag_checker : LagCache → Time → Checker Details
  lag_checker cache now = record {
    name = codes "kafka_consumer_lag";
    check = text_of (check (some cache) now);
    detail = details seconds (some cache) now;
  }

  abbrev with_lag_checker : Option LagCache → Time → List (Checker Details) → List (Checker Details)
  with_lag_checker none now checkers = checkers
  with_lag_checker (some cache) now checkers = register_checker (lag_checker cache now) checkers

  unfoldable pub registered : Option LagCache → Time → Option Text → List (Checker Details)
  registered lag now redis = with_lag_checker lag now (register_checker (redis_checker redis) [])
