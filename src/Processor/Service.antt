-- ===== src/Processor/Service.antt =====
-- services/processor-service/internal/service.go: what Run builds from the configuration, and what it
-- returns. The errgroups are the parameter `wait`, and `client` is what kgo.NewClient gives.
pub mod Ends
use trade_pulse.Prelude.{
  ◌⊎◌, inl, inr, Bool, List, [], ◌∷◌, Option, none, some, replicate, length, if◌then◌else◌,
}
use trade_pulse.Text.{Text, codes}
use trade_pulse.Config.{Config}
use trade_pulse.Processor.Consumer.{ConsumerOptions, NewError, new_consumer}
use trade_pulse.Processor.RedisWriter.{new_redis_writer_refuses}
use trade_pulse.Processor.System.{System, new_system}

pub data RunError : Type 0 where
  kafka_consumer : NewError → RunError
  redis_writer : RunError
  worker_pool : RunError → RunError

-- What Run has built before its Wait, and the names of the checkers that it registered.
pub record Started (R : Type 0) : Type 0 where
  pub checkers : List Text
  pub system : System R

abbrev pub with_consumer :
    {R : Type 0} → Config → R → NewError ⊎ ConsumerOptions → RunError ⊎ Started R
with_consumer cfg redis (inl e) = inl (kafka_consumer e)
with_consumer cfg redis (inr options) =
    if new_redis_writer_refuses cfg.redis.addr
    then inl redis_writer
    else inr (record {
      checkers = codes "kafka_consumer" ∷ codes "redis" ∷ [];
      system = new_system cfg.processor.pool_size cfg.processor.fan_out_buffer redis;
    })

unfoldable pub started :
    {R : Type 0} → Config → (ConsumerOptions → Option Text) → R → RunError ⊎ Started R
started cfg client redis = with_consumer cfg redis (new_consumer cfg.kafka.brokers client)

module _ (wait : List (Option RunError) → Option RunError) where
  abbrev pub wrapped : Option RunError → Option RunError
  wrapped none = none
  wrapped (some e) = some (worker_pool e)

  -- WorkerPool.Start: each worker returns nil.
  abbrev pub pool_start : {R : Type 0} → System R → Option RunError
  pool_start s = wrapped (wait (replicate (length s.upstream.pool.workers) none))

  -- The pool, the consumer, which returns nil, and the three loops.
  abbrev pub waited : {R : Type 0} → RunError ⊎ Started R → Option RunError
  waited (inl e) = some e
  waited (inr s) = wait (pool_start s.system ∷ none ∷ none ∷ none ∷ none ∷ [])

  unfoldable pub run : {R : Type 0} → Config → (ConsumerOptions → Option Text) → R → Option RunError
  unfolding started
  run cfg client redis = waited (started cfg client redis)
