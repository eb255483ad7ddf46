-- ===== src/Lib.antt =====
-- Trade Pulse ingests trades from Binance, moves them through Kafka, enriches them, keeps order books,
-- writes the newest state to Redis and serves it over HTTP. This library models its Go services.
--
-- The parts, and how a trade moves through them:
--   services/ingestion-service reads a stream for each configured symbol, normalizes each message and
--   publishes it to the topic trades.raw, keyed by its symbol.
--   services/processor-service consumes the topic: the consumer hands each record to the worker pool,
--   a worker enriches the trade and the fan-out publishes it to three sinks, of which one feeds the
--   order books and one the Redis writer.
--   services/api-service reads the keys that the Redis writer wrote, and reports the consumer's lag.
--   shared/ holds what the services have in common: the domain types and keys, the reconnect loop, the
--   lag reading and its cache, and the ops server with its health checks.
--
-- The files:
--   EndToEnd: the three services in a row. Commands: services/*/cmd/main.go.
--   Domain, Domain/Keys, Domain/Json, Domain/BookJson: shared/domain (trade.go, broker.go). A record
--     for each struct; the JSON by the struct tags, omitempty and case folding included.
--   Config, Config/Fields: shared/config/config.go. Config/Values: what viper documents.
--   Retry: shared/retry/backoff.go. Kafka/Lag, Kafka/Cache: shared/kafka (lag.go, lag_cache.go).
--   Domain/Fx, Domain/Candle, Runtime: shared/domain/fx.go and candle.go, shared/runtime/runtime.go.
--   HttpServer, HttpServer/Mux: shared/httpserver; and PublicServer.Run of
--     services/api-service/internal/server.go.
--   Processor/Consumer, Handler, Enricher, Pool, FanOut, OrderBook, RedisWriter, Pipeline:
--     services/processor-service/internal (consumer.go, middleware.go, enricher.go and metadata.go,
--     pool.go, fanout.go, orderbook.go, redis_writer.go, service.go). Pipeline is the consumer, the pool
--     and the fan-out as one system of steps; Processor/System adds the loops on the sinks, and
--     Processor/Service what Run builds and returns.
--   Ingestion/Symbols, Normalizer, Publisher, WsHealth, Worker, Workers, Reconnect,
--     Service:
--     services/ingestion-service/internal (service.go, normalizer.go, publisher.go, health.go,
--     worker.go, reconnect.go).
--   Rest, Rest/Health: services/api-service/rest. Api, Api/Router: services/api-service/internal
--     (service.go, and the routes of server.go).
--   FxRate: services/fx-rate-service/internal/service.go.
--   Text, Machine, Json, Table, Channel, Sorting, Redis: what the source uses of Go and of its
--     libraries. Scenarios: runs at concrete inputs, and instances of the parameters.
--
-- How the code is translated. A string is the list of its code points; a time.Time is the nanoseconds
-- since its zero value; int64 and time.Duration wrap around at 64 bits; a float64 is its bit pattern.
-- An error is a value, `none` where the source returns nil. A map is an association list, or, where
-- its iteration matters, a list in any order. A goroutine is not run: what it may do is a step, a
-- `select` is a step whose case is chosen by the schedule, and a statement about a run holds for every
-- list of steps; a step that is not ready changes nothing. A buffered channel keeps what it holds and
-- what was received from it. A loop that waits for its context takes the list of what its rounds meet,
-- so that it needs no fuel. Logging is left out, except where a middleware is about it.
--
-- Parameters, for code that is not of the repository: the codec of JSON, numbers and times
-- (IsCodec: what is printed reads back), the Unicode case tables (IsCasing), the Redis client
-- (IsRedis: what SET and GET document), the errgroup's Wait (IsWait), the random source
-- (DrawsBelow), the float product and conversions, strconv.ParseFloat, the chi router (IsRouter: a path that one
-- route of simple patterns admits goes to it), the position that the Kafka client commits
-- (CoversMarks), and viper (IsViper: the order of environment, file and defaults, the keys that
-- Unmarshal looks up, and what shadows them).
--
-- Not modelled: logging, build data, the middlewares of the router, the metrics, the dialling and the
-- deadlines of websockets, the closing of clients, the alert and candle records that no code uses, and
-- the analytics and notification services, which are skeletons but for their main functions.
pub mod Prelude
pub mod Text
pub mod Machine
pub mod Json
pub mod Domain
pub mod Table
pub mod Channel
pub mod Redis
pub mod Retry
pub mod Sorting
pub mod Kafka
pub mod Processor
pub mod Ingestion
pub mod Rest
pub mod HttpServer
pub mod Runtime
pub mod Scenarios
pub mod Config
pub mod Api
pub mod FxRate
pub mod EndToEnd
pub mod Commands
