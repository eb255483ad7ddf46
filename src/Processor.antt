-- ===== src/Processor.antt =====
-- services/processor-service/internal
pub mod OrderBook
pub mod Handler
pub mod Enricher
pub mod Consumer
pub mod FanOut
pub mod Pool
pub mod Pipeline
pub mod RedisWriter
pub mod System
pub mod Service
