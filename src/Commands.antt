-- ===== src/Commands.antt =====
-- The main functions, services/*/cmd/main.go: the status with which each process exits. `outer` is
-- Wait of the errgroup of runtime.Run and `inner` that of the service's own; `cancelled` is whether a
-- signal has come when the components have ended.
pub mod Status
use trade_pulse.Prelude.{ℕ, ◌⊎◌, inl, inr, Bool, List, [], ◌∷◌, Option, none, some}
use trade_pulse.Text.{Text, Casing, codes}
use trade_pulse.Config.{Config, Viper, LoadError, load}
use trade_pulse.HttpServer.{Ending, StartError, start}
use trade_pulse.Processor.Consumer.{ConsumerOptions}
use trade_pulse.Api
use trade_pulse.Processor.Service as Processor
use trade_pulse.Ingestion.Service as Ingestion
use trade_pulse.Runtime

-- An error of one of the two components.
pub data ComponentError {ℓ} (E : Type ℓ) : Type ℓ where
  ops_failed : StartError → ComponentError E
  service_failed : E → ComponentError E

module _ {ℓ} {E : Type ℓ} where
  abbrev pub ops_error : Option StartError → Option (ComponentError E)
  ops_error none = none
  ops_error (some e) = some (ops_failed e)

  abbrev pub service_error : Option E → Option (ComponentError E)
  service_error none = none
  service_error (some e) = some (service_failed e)

  -- log.Fatal exits with 1.
  abbrev pub fatal : Option (ComponentError E) → ℕ
  fatal none = 0
  fatal (some e) = 1

  -- The main function over what Load gives, the end of the ops server, and the service's Run.
  unfoldable pub main :
      (List (Option (ComponentError E)) → Option (ComponentError E))
      → Bool
      → Ending
      → (Config → Option E)
      → LoadError ⊎ Config
      → ℕ
  main outer cancelled ops run (inl e) = 1
  main outer cancelled ops run (inr cfg) =
      fatal (Runtime.run outer cancelled (ops_error (start ops) ∷ service_error (run cfg) ∷ []))

abbrev pub Outer : Type 0 → Type 0
Outer E = List (Option (ComponentError E)) → Option (ComponentError E)

abbrev pub Inner : Type 0 → Type 0
Inner E = List (Option E) → Option E

module _ {V : Type 0} (viper : Viper V) (cancelled : Bool) (ops : Ending) where
  unfoldable pub api_service : Outer Api.RunError → Inner Api.RunError → Option Text → Ending → ℕ
  api_service outer inner client public =
      main outer cancelled ops (λ cfg. Api.run inner cfg client public)
        (load viper (codes "api-service"))

  unfoldable pub processor_service :
      {R : Type 0}
      → Outer Processor.RunError
      → Inner Processor.RunError
      → (ConsumerOptions → Option Text)
      → R
      → ℕ
  processor_service outer inner client redis =
      main outer cancelled ops (λ cfg. Processor.run inner cfg client redis)
        (load viper (codes "processor-service"))

  unfoldable pub ingestion_service :
      Outer Ingestion.RunError → Inner Ingestion.RunError → Casing → Option Text → ℕ
  ingestion_service outer inner t client =
      main outer cancelled ops (λ cfg. Ingestion.run inner t cfg client)
        (load viper (codes "ingestion-service"))

  -- Run of these three returns nil: WithBackoff does, and the skeletons of the other two.
  abbrev returns_nil : Config → Option Text
  returns_nil cfg = none

  unfoldable pub fx_rate_service : Outer Text → ℕ
  fx_rate_service outer =
      main outer cancelled ops returns_nil (load viper (codes "fx-rate-service"))

  unfoldable pub analytics_service : Outer Text → ℕ
  analytics_service outer =
      main outer cancelled ops returns_nil (load viper (codes "analytics-service"))

  unfoldable pub notification_service : Outer Text → ℕ
  notification_service outer =
      main outer cancelled ops returns_nil (load viper (codes "notification-service"))
