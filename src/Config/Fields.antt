-- ===== src/Config/Fields.antt =====
-- shared/config/config.go: what the struct tags say of the fields. A key is the path of the tags.
use trade_pulse.Prelude.{List, [], Option, none, some}
use trade_pulse.Prelude.Int.{ℤ, pos}
use trade_pulse.Json.{◌>>=◌}
use trade_pulse.Text.{Text, codes}
use trade_pulse.Machine.{Duration}
use trade_pulse.Config.{
  Config, KafkaConfig, RedisConfig, ClickHouseConfig, FxConfig, ProcessorConfig, Setting, Decoder,
}

-- A field whose key has no setting keeps its zero value.
abbrev pub read {ℓ} : {A : Type ℓ} → (Setting → Option A) → A → Option Setting → Option A
read decode zero none = some zero
read decode zero (some s) = decode s

module _ (d : Decoder) (get : Text → Option Setting) where
  abbrev pub text_at : Text → Option Text
  text_at key = read d.to_text [] (get key)

  abbrev int_at : Text → Option ℤ
  int_at key = read d.to_int (pos 0) (get key)

  abbrev duration_at : Text → Option Duration
  duration_at key = read d.to_duration (pos 0) (get key)

  abbrev texts_at : Text → Option (List Text)
  texts_at key = read d.to_texts [] (get key)

  unfoldable pub kafka_of : Option KafkaConfig
  kafka_of = do
    brokers ← texts_at (codes "kafka.brokers")
    interval ← duration_at (codes "kafka.lag_refresh_interval")
    some (record { brokers = brokers; lag_refresh_interval = interval })

  unfoldable pub redis_of : Option RedisConfig
  redis_of = do
    addr ← text_at (codes "redis.addr")
    password ← text_at (codes "redis.password")
    db ← int_at (codes "redis.db")
    some (record { addr = addr; password = password; db = db })

  unfoldable pub click_house_of : Option ClickHouseConfig
  click_house_of = do
    addr ← text_at (codes "clickhouse.addr")
    database ← text_at (codes "clickhouse.database")
    username ← text_at (codes "clickhouse.username")
    password ← text_at (codes "clickhouse.password")
    some (record { addr = addr; database = database; username = username; password = password })

  unfoldable pub fx_of : Option FxConfig
  fx_of = do
    provider ← text_at (codes "fx.provider")
    api_key ← text_at (codes "fx.api_key")
    poll_interval ← duration_at (codes "fx.poll_interval")
    cache_ttl ← duration_at (codes "fx.cache_ttl")
    max_fail ← int_at (codes "fx.breaker_max_fail")
    cooldown ← duration_at (codes "fx.breaker_cooldown")
    some (record {
      provider = provider;
      api_key = api_key;
      poll_interval = poll_interval;
      cache_ttl = cache_ttl;
      breaker_max_fail = max_fail;
      breaker_cooldown = cooldown;
    })

  unfoldable pub processor_of : Option ProcessorConfig
  processor_of = do
    pool_size ← int_at (codes "processor.pool_size")
    fan_out_buffer ← int_at (codes "processor.fanout_buffer")
    some (record { pool_size = pool_size; fan_out_buffer = fan_out_buffer })

  -- The tag of ServiceName leaves it out.
  unfoldable pub config_of : Option Config
  config_of = do
    env ← text_at (codes "env")
    log_level ← text_at (codes "log_level")
    http_addr ← text_at (codes "http_addr")
    kafka ← kafka_of
    redis ← redis_of
    url ← text_at (codes "rabbitmq.url")
    click_house ← click_house_of
    fx ← fx_of
    symbols ← texts_at (codes "ingestion.symbols")
    processor ← processor_of
    public_addr ← text_at (codes "api.publicaddr")
    some (record {
      service_name = [];
      env = env;
      log_level = log_level;
      http_addr = http_addr;
      kafka = kafka;
      redis = redis;
      rabbit_mq_url = url;
      click_house = click_house;
      fx = fx;
      symbols = symbols;
      processor = processor;
      public_addr = public_addr;
    })
