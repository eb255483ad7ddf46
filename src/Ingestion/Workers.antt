-- ===== src/Ingestion/Workers.antt =====
-- services/ingestion-service/internal: the goroutines of the symbols, which share the publisher and the
-- connection health, as interleaved steps. A publish and an update of the health are atomic.
pub mod Interleaved
use trade_pulse.Prelude.{List, [], ◌∷◌, Option, true, false}
use trade_pulse.Text.{Text}
use trade_pulse.Machine.{Float64, Time}
use trade_pulse.Json.{Codec}
use trade_pulse.Ingestion.Normalizer.{normalize_trade}
use trade_pulse.Ingestion.Publisher.{Publisher}
use trade_pulse.Ingestion.WsHealth.{WsHealth, set_connected}
use trade_pulse.Ingestion.Worker.{forward}

pub record Ingest : Type 0 where
  pub publisher : Publisher
  pub health : WsHealth

-- What the worker of a symbol does next: its dial has succeeded, a message has come at a time, or
-- runSymbol returns.
pub data Turn : Type 0 where
  connects : Turn
  reads : Text → Time → Turn
  disconnects : Turn

module _ (c : Codec) (parse : Text → Option Float64) where
  unfoldable pub step : Text × Turn → Ingest → Ingest
  step (symbol, connects) s = record s { health = set_connected symbol true s.health }
  step (symbol, reads raw now) s = record s {
    publisher = forward c (normalize_trade c parse raw now) s.publisher;
  }
  step (symbol, disconnects) s = record s { health = set_connected symbol false s.health }

  unfoldable pub run : List (Text × Turn) → Ingest → Ingest
  run [] s = s
  run (t ∷ turns) s = run turns (step t s)
