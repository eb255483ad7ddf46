-- ===== src/Kafka.antt =====
-- shared/kafka: the lag of a consumer group, read from the broker and cached.
pub mod Lag
pub mod Cache
