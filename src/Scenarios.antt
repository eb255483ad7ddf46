-- ===== src/Scenarios.antt =====
-- Runs of the model at concrete inputs, with concrete instances of its parameters.
pub mod TokenCodec
pub mod MemoryRedis
pub mod Data
mod Pipeline
mod Sinks
mod Cache
mod Reconnect
mod Streams
mod Reads
mod Router
mod System
mod Config
mod EndToEnd
mod Services
