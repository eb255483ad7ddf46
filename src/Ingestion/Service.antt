-- ===== src/Ingestion/Service.antt =====
-- services/ingestion-service/internal/service.go: what New and Run build from the configuration, and what
-- Run returns. The errgroup is the parameter `wait`, and `client` the error of kgo.NewClient.
pub mod Ends
use trade_pulse.Prelude.{
  ◌⊎◌, inl, inr, Bool, List, [], ◌∷◌, ◌++◌, map, Option, none, some, if◌then◌else◌,
}
use trade_pulse.Text.{Text, Casing, codes}
use trade_pulse.Config.{Config}
use trade_pulse.Ingestion.Symbols.{normalize_symbols}
use trade_pulse.Ingestion.WsHealth.{WsHealth, new_ws_health}
use trade_pulse.Ingestion.Publisher.{Publisher, NewError, new_publisher}

-- `checkers` are the names of those registered with the ops server, in order.
pub record Service : Type 0 where
  pub symbols : List Text
  pub ws : WsHealth
  pub checkers : List Text

-- New
unfoldable pub new_service : Casing → Config → Service
new_service t cfg =
    let symbols = normalize_symbols t cfg.symbols in
    record { symbols = symbols; ws = new_ws_health symbols; checkers = codes "websocket" ∷ [] }

pub data RunError : Type 0 where
  no_symbols : RunError
  kafka_publisher : NewError → RunError

-- What Run has built before its Wait: the symbols of `workers` have a goroutine each.
pub record Started : Type 0 where
  pub checkers : List Text
  pub publisher : Publisher
  pub workers : List Text

abbrev pub with_publisher : List Text → List Text → NewError ⊎ Publisher → RunError ⊎ Started
with_publisher symbols checkers (inl e) = inl (kafka_publisher e)
with_publisher symbols checkers (inr p) = inr (record {
  checkers = checkers ++ codes "kafka_producer" ∷ [];
  publisher = p;
  workers = symbols;
})

abbrev pub started_with : List Text → List Text → Config → Option Text → RunError ⊎ Started
started_with [] checkers cfg client = inl no_symbols
started_with (sym ∷ symbols) checkers cfg client =
    with_publisher (sym ∷ symbols) checkers (new_publisher cfg.kafka.brokers client)

unfoldable pub started : Casing → Config → Option Text → RunError ⊎ Started
started t cfg client = let s = new_service t cfg in started_with s.symbols s.checkers cfg client

module _ (wait : List (Option RunError) → Option RunError) where
  -- runSymbolWithReconnect returns nil, once the context is cancelled.
  abbrev pub waited : RunError ⊎ Started → Option RunError
  waited (inl e) = some e
  waited (inr s) = wait (map (λ sym. none) s.workers)

  unfoldable pub run : Casing → Config → Option Text → Option RunError
  unfolding started
  run t cfg client = waited (started t cfg client)
