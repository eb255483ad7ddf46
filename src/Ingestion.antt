-- ===== src/Ingestion.antt =====
-- services/ingestion-service: the path of a trade from a Binance stream to Kafka, and its health.
pub mod Symbols
pub mod Normalizer
pub mod Publisher
pub mod WsHealth
pub mod Worker
pub mod Reconnect
pub mod Service
pub mod Workers
