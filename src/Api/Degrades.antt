-- ===== src/Api/Degrades.antt =====
-- A broker that is not there never keeps api-service from starting, nor ends it.
use trade_pulse.Prelude.{
  ◌≡◌, refl, ap, ◌≢◌, ◌↔◌, ◌⊎◌, inl, inr, true, false, List, [], ◌∷◌, Option, none, some, arith,
  Bool-cases,
}
use trade_pulse.Text.{Text, codes, is_empty, text_eq}
use trade_pulse.Machine.{Time}
use trade_pulse.Table.{lookup, insert}
use trade_pulse.Config.{Config}
use trade_pulse.Domain.Keys.{consumer_group_processor, topic_trades_raw}
use trade_pulse.Kafka
use trade_pulse.Kafka.Lag.{LagReader, ReaderError, new_lag_reader}
use trade_pulse.Kafka.Cache.{new_lag_cache}
use trade_pulse.Runtime.{IsWait}
use trade_pulse.Rest.{new_redis_reader_refuses}
use trade_pulse.Rest.Health.{health, new_health_handler, lag_key, shows_not_configured, lag_status}
use trade_pulse.HttpServer.{Ending, StartError, run_public}
use trade_pulse.Api.{
  refreshes_lag, serves_public, Started, RunError, start_lag_cache, started, public_error, returns,
  waited, run,
}

-- The lag reader is refused without a broker, or where its client cannot be made.
abbrev pub HasNoBroker : Config → Option Text → Type 0
HasNoBroker cfg client = (cfg.kafka.brokers ≡ []) ⊎ (client ≢ none)

-- With the reader, there is one more check and one more goroutine, before the public server's.
abbrev pub with_lag : Config → Started
with_lag cfg = record {
  checkers = codes "redis" ∷ codes "kafka_consumer_lag" ∷ [];
  lag = some (new_lag_cache cfg.kafka.lag_refresh_interval);
  goroutines = refreshes_lag ∷ serves_public ∷ [];
}

abbrev pub without_lag : Started
without_lag = record { checkers = codes "redis" ∷ []; lag = none; goroutines = serves_public ∷ [] }

abbrev reader_for : List Text → Option Text → Option ReaderError × Option LagReader
reader_for brokers client = new_lag_reader brokers consumer_group_processor topic_trades_raw client

reader_cases :
    (brokers : List Text) (client : Option Text)
    → (((brokers ≡ []) ⊎ (client ≢ none))
        × ((e : ReaderError) × (reader_for brokers client ≡ (some e, none))))
      ⊎ ((client ≡ none)
          × (brokers ≢ [])
          × ((l : LagReader) × (reader_for brokers client ≡ (none, some l))))
unfolding new_lag_reader
reader_cases [] client = inl (inl refl, (Kafka.Lag.no_broker, refl))
reader_cases (b ∷ bs) (some e) = inl (inr (λ h. ground arith), (Kafka.Lag.new_client e, refl))
reader_cases (b ∷ bs) none = inr (
  refl,
  λ h. ground arith,
  (record { group = consumer_group_processor; topic = topic_trades_raw }, refl),
)

-- Run starts, whatever the broker, exactly when a Redis address is configured: with the lag cache,
-- its checker and its refresher where there is a broker whose client can be made, else without
-- them.
pub started-lag :
    (cfg : Config) (client : Option Text)
    → ((is_empty cfg.redis.addr ≡ true) × (started cfg client ≡ none))
      ⊎ (HasNoBroker cfg client × (started cfg client ≡ some without_lag))
      ⊎ ((client ≡ none) × (cfg.kafka.brokers ≢ []) × (started cfg client ≡ some (with_lag cfg)))
unfolding started start_lag_cache new_redis_reader_refuses
started-lag cfg client = elim (Bool-cases (is_empty cfg.redis.addr)) [
  | inl empty ↦ inl (empty, rw empty refl)
  | inr full ↦ elim (reader_cases cfg.kafka.brokers client) [
    | inl (refused, (e, h)) ↦ inr (inl (refused, rw (full, h) refl))
    | inr (made, brokers, (l, h)) ↦ inr (inr (made, brokers, rw (full, h) refl))
  ]
]

public_error-none : (r : Option StartError) → public_error r ≡ none → r ≡ none
public_error-none none h = refl
public_error-none (some e) h = absurd (ground arith)

waited-none :
    (wait : List (Option RunError) → Option RunError) (ending : Ending) (s : Started)
    → IsWait wait
    → (s ≡ without_lag) ⊎ ((cfg : Config) × (s ≡ with_lag cfg))
    → (waited wait ending (some s) ≡ none) ↔ (run_public ending ≡ none)
waited-none wait ending s h (inl e) = rw e (
  (λ k.
      public_error-none (run_public ending) (h.some_error (returns ending serves_public ∷ []) k).0),
  λ k. h.all_nil (returns ending serves_public ∷ []) (ap public_error k, tt),
)
waited-none wait ending s h (inr (cfg, e)) = rw e (
  (λ k.
      public_error-none (run_public ending)
        (h.some_error (none ∷ returns ending serves_public ∷ []) k).1.0),
  λ k. h.all_nil (none ∷ returns ending serves_public ∷ []) (refl, (ap public_error k, tt)),
)

has_addr :
    (cfg : Config) (client : Option Text) (s : Started)
    → started cfg client ≡ some s
    → is_empty cfg.redis.addr ≡ false
unfolding started new_redis_reader_refuses
has_addr cfg client s h = elim (Bool-cases (is_empty cfg.redis.addr)) [
  | inl empty ↦ absurd (ground arith)
  | inr full ↦ full
]

-- Run returns nil exactly when a Redis address is configured and the public server returned nil,
-- whatever the broker. (Wait returns nil exactly when all functions do.)
pub api_run-none :
    (wait : List (Option RunError) → Option RunError) (cfg : Config) (client : Option Text)
    (ending : Ending)
    → IsWait wait
    → (run wait cfg client ending ≡ none)
      ↔ ((is_empty cfg.redis.addr ≡ false) × (run_public ending ≡ none))
unfolding run
api_run-none wait cfg client ending h = elim (started-lag cfg client) [
  | inl (empty, e) ↦ rw (e, empty) ((λ k. absurd (ground arith)), λ k. absurd (ground arith))
  | inr (inl (refused, e)) ↦
      let same = waited-none wait ending without_lag h (inl refl) in
      rw e ((λ k. (has_addr cfg client without_lag e, same.0 k)), λ k. same.1 k.1)
  | inr (inr (made, brokers, e)) ↦
      let same = waited-none wait ending (with_lag cfg) h (inr (cfg, refl)) in
      rw e ((λ k. (has_addr cfg client (with_lag cfg) e, same.0 k)), λ k. same.1 k.1)
]

-- Without a lag reader the health endpoint names the lag as not configured, and is degraded, with
-- status 503, exactly when Redis does not answer.
pub health-without_lag :
    (now : Time) (redis : Option Text)
    → let answer = health (new_health_handler none now) redis in
      (lookup lag_key answer.response.checks ≡ some shows_not_configured)
      × ((answer.status ≡ 503) ↔ (redis ≢ none))
      × ((answer.response.degraded ≡ true) ↔ (redis ≢ none))
unfolding health new_health_handler lag_status lookup insert text_eq
health-without_lag now none =
    (refl, ((λ h. ground arith), λ h. absurd (h refl)), ((λ h. ground arith), λ h. absurd (h refl)))
health-without_lag now (some e) =
    (refl, ((λ h. λ k. ground arith), λ h. refl), ((λ h. λ k. ground arith), λ h. refl))
