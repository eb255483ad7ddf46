-- ===== src/Processor/Service/Ends.antt =====
-- When processor-service starts, with what, and when its Run reports an error.
use trade_pulse.Prelude.{
  ℕ, zero, suc, ◌≡◌, refl, ap, ◌≢◌, ◌↔◌, ◌⊎◌, inl, inr, true, false, List, [], ◌∷◌, Option, none,
  arith, All, Bool-cases, Option-cases, replicate, length,
}
use trade_pulse.Text.{Text, codes, is_empty}
use trade_pulse.Config.{Config}
use trade_pulse.Runtime.{IsWait}
use trade_pulse.Domain.Keys.{consumer_group_processor, topic_trades_raw}
use trade_pulse.Processor.Consumer as Consumer
use trade_pulse.Processor.Consumer.{ConsumerOptions, NewError, new_consumer}
use trade_pulse.Processor.RedisWriter.{new_redis_writer_refuses}
use trade_pulse.Processor.System.{System, new_system}
use trade_pulse.Processor.Service.{
  RunError, kafka_consumer, redis_writer, started, wrapped, pool_start, run,
}

abbrev pub options_for : List Text → ConsumerOptions
options_for brokers = record {
  seed_brokers = brokers;
  group = consumer_group_processor;
  topic = topic_trades_raw;
  reset_to_start = true;
  auto_commit_marks = true;
}

-- A broker is configured and the client can be made.
abbrev pub HasConsumer : Config → (ConsumerOptions → Option Text) → Type 0
HasConsumer cfg client = (cfg.kafka.brokers ≢ []) × (client (options_for cfg.kafka.brokers) ≡ none)

consumer_cases :
    (brokers : List Text) (client : ConsumerOptions → Option Text)
    → ((brokers ≢ [])
        × (client (options_for brokers) ≡ none)
        × (new_consumer brokers client ≡ inr (options_for brokers)))
      ⊎ (((brokers ≡ []) ⊎ (client (options_for brokers) ≢ none))
          × ((e : NewError) × (new_consumer brokers client ≡ inl e)))
unfolding new_consumer
consumer_cases [] client = inr (inl refl, (Consumer.no_broker, refl))
consumer_cases (b ∷ bs) client = elim (Option-cases (client (options_for (b ∷ bs)))) [
  | inl e ↦ inl ((λ h. ground arith), e, rw e refl)
  | inr (x, e) ↦ inr (inr (λ h. ground arith), (Consumer.new_client x, rw e refl))
]

-- Run starts exactly where a broker and a Redis address are configured and the Kafka client can be
-- made, with the system of the configured sizes and the two checkers; else it returns an error.
pub started-new_system :
    {R : Type 0} (cfg : Config) (client : ConsumerOptions → Option Text) (redis : R)
    → (HasConsumer cfg client
        × (is_empty cfg.redis.addr ≡ false)
        × (started cfg client redis
            ≡ inr (record {
              checkers = codes "kafka_consumer" ∷ codes "redis" ∷ [];
              system = new_system cfg.processor.pool_size cfg.processor.fan_out_buffer redis;
            })))
      ⊎ (((cfg.kafka.brokers ≡ [])
            ⊎ (client (options_for cfg.kafka.brokers) ≢ none)
            ⊎ (is_empty cfg.redis.addr ≡ true))
          × ((e : RunError) × (started cfg client redis ≡ inl e)))
unfolding started new_redis_writer_refuses
started-new_system cfg client redis = elim (consumer_cases cfg.kafka.brokers client) [
  | inr (inl none_there, (e, h)) ↦ inr (inl none_there, (kafka_consumer e, rw h refl))
  | inr (inr refused, (e, h)) ↦ inr (inr (inl refused), (kafka_consumer e, rw h refl))
  | inl (there, made, h) ↦ elim (Bool-cases (is_empty cfg.redis.addr)) [
    | inl empty ↦ inr (inr (inr empty), (redis_writer, rw (h, empty) refl))
    | inr full ↦ inl ((there, made), full, rw (h, full) refl)
  ]
]

All-replicate-none : (n : ℕ) → All (λ (r : Option RunError). r ≡ none) (replicate n none)
All-replicate-none zero = tt
All-replicate-none (suc n) = (refl, All-replicate-none n)

module _ (wait : List (Option RunError) → Option RunError) (h : IsWait wait) where
  pool_start-none : {R : Type 0} (s : System R) → pool_start wait s ≡ none
  pool_start-none s = ap (wrapped wait) (
      h.all_nil (replicate (length s.upstream.pool.workers) none)
        (All-replicate-none (length s.upstream.pool.workers)))

  -- Run returns nil exactly where a broker and a Redis address are configured and the Kafka client
  -- can be made: once it has started, nothing makes it return an error. (Wait returns nil exactly
  -- when all functions do.)
  pub processor_run-none :
      {R : Type 0} (cfg : Config) (client : ConsumerOptions → Option Text) (redis : R)
      → (run wait cfg client redis ≡ none)
        ↔ (HasConsumer cfg client × (is_empty cfg.redis.addr ≡ false))
  unfolding run
  processor_run-none cfg client redis = elim (started-new_system cfg client redis) [
    | inl (consumer, full, e) ↦ rw e (
      (λ k. (consumer, full)),
      λ k. h.all_nil _ (
        pool_start-none (new_system cfg.processor.pool_size cfg.processor.fan_out_buffer redis),
        (refl, (refl, (refl, (refl, tt)))),
      ),
    )
    | inr (why, (e, f)) ↦ rw f (
      (λ k. absurd (ground arith)),
      λ k.
          absurd
            (elim why [ inl e ↦ k.0.0 e | inr (inl d) ↦ d k.0.1 | inr (inr empty) ↦ ground arith ]),
    )
  ]
