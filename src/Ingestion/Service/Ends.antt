-- ===== src/Ingestion/Service/Ends.antt =====
-- When ingestion-service starts, with which workers, and when its Run reports an error.
use trade_pulse.Prelude.{
  ◌≡◌, refl, ◌≢◌, ◌↔◌, ◌⊎◌, inl, inr, List, [], ◌∷◌, map, Option, none, some, arith, All,
}
use trade_pulse.Text.{Text, Casing, codes}
use trade_pulse.Config.{Config}
use trade_pulse.Runtime.{IsWait}
use trade_pulse.Ingestion.Symbols.{normalize_symbols}
use trade_pulse.Ingestion.Publisher.{Publisher, NewError, new_publisher, empty_publisher}
use trade_pulse.Ingestion.Publisher as Publisher
use trade_pulse.Ingestion.Service.{
  new_service, RunError, no_symbols, kafka_publisher, Started, started_with, started, run,
}

-- There is something to stream and a broker to stream it to.
abbrev pub CanStream : Casing → Config → Option Text → Type 0
CanStream t cfg client =
    (normalize_symbols t cfg.symbols ≢ []) × (cfg.kafka.brokers ≢ []) × (client ≡ none)

abbrev pub CannotStream : Casing → Config → Option Text → Type 0
CannotStream t cfg client =
    (normalize_symbols t cfg.symbols ≡ []) ⊎ (cfg.kafka.brokers ≡ []) ⊎ (client ≢ none)

abbrev pub streaming : List Text → Started
streaming symbols = record {
  checkers = codes "websocket" ∷ codes "kafka_producer" ∷ [];
  publisher = empty_publisher;
  workers = symbols;
}

start_cases :
    (symbols brokers : List Text) (cfg : Config) (client : Option Text)
    → cfg.kafka.brokers ≡ brokers
    → ((symbols ≢ [])
        × (brokers ≢ [])
        × (client ≡ none)
        × (started_with symbols (codes "websocket" ∷ []) cfg client ≡ inr (streaming symbols)))
      ⊎ (((symbols ≡ []) ⊎ (brokers ≡ []) ⊎ (client ≢ none))
          × ((e : RunError) × (started_with symbols (codes "websocket" ∷ []) cfg client ≡ inl e)))
unfolding new_publisher
start_cases [] brokers cfg client h = inr (inl refl, (no_symbols, refl))
start_cases (x ∷ xs) [] cfg client h =
    inr (inr (inl refl), (kafka_publisher Publisher.no_broker, rw h refl))
start_cases (x ∷ xs) (b ∷ bs) cfg none h =
    inl ((λ k. ground arith), (λ k. ground arith), refl, rw h refl)
start_cases (x ∷ xs) (b ∷ bs) cfg (some e) h =
    inr (inr (inr (λ k. ground arith)), (kafka_publisher (Publisher.new_producer e), rw h refl))

-- Run starts exactly where a symbol is left after normalization, a broker is configured and the Kafka
-- client can be made, with one worker for each normalized symbol, an empty publisher and the two
-- checkers; else it returns an error.
pub started-streaming :
    (t : Casing) (cfg : Config) (client : Option Text)
    → (CanStream t cfg client
        × (started t cfg client ≡ inr (streaming (normalize_symbols t cfg.symbols))))
      ⊎ (CannotStream t cfg client × ((e : RunError) × (started t cfg client ≡ inl e)))
unfolding started new_service
started-streaming t cfg client =
    elim (start_cases (normalize_symbols t cfg.symbols) cfg.kafka.brokers cfg client refl) [
      | inl (symbols, brokers, made, e) ↦ inl ((symbols, brokers, made), e)
      | inr (why, e) ↦ inr (why, e)
    ]

All-map-none : (xs : List Text) → All (λ (r : Option RunError). r ≡ none) (map (λ x. none) xs)
All-map-none [] = tt
All-map-none (x ∷ xs) = (refl, All-map-none xs)

-- Run returns nil exactly where it starts: none of its workers returns an error. (Wait returns nil
-- exactly when all functions do.)
pub ingestion_run-none :
    (wait : List (Option RunError) → Option RunError) (t : Casing) (cfg : Config)
    (client : Option Text)
    → IsWait wait
    → (run wait t cfg client ≡ none) ↔ CanStream t cfg client
unfolding run
ingestion_run-none wait t cfg client h = elim (started-streaming t cfg client) [
  | inl (can, e) ↦
      rw e ((λ k. can), λ k. h.all_nil _ (All-map-none (normalize_symbols t cfg.symbols)))
  | inr (why, (e, f)) ↦ rw f (
    (λ k. absurd (ground arith)),
    λ k. absurd (elim why [ inl z ↦ k.0 z | inr (inl z) ↦ k.1 z | inr (inr z) ↦ z k.2 ]),
  )
]
