-- ===== src/Ingestion/Worker.antt =====
-- services/ingestion-service/internal/worker.go: runSymbol, with what the connection delivers as a
-- list. The dial, the deadlines and the pings are the websocket library's.
pub mod Stream
use trade_pulse.Prelude.{
  Bool, true, false, List, [], ◌∷◌, Option, none, some, ◌⊎◌, inl, inr, if◌then◌else◌,
}
use trade_pulse.Text.{Text}
use trade_pulse.Machine.{Float64, Time}
use trade_pulse.Json.{Codec}
use trade_pulse.Ingestion.Normalizer.{Normalized, accepted, rejected, normalize_trade}
use trade_pulse.Ingestion.Publisher.{Publisher, publish}
use trade_pulse.Ingestion.WsHealth.{WsHealth, set_connected}

-- What ReadMessage returns: a message, with the time it is read, or an error, with whether ctx is
-- cancelled by then. The list is what the connection gives until it fails.
pub record Connection : Type 0 where
  pub messages : List (Text × Time)
  pub read_error : Text
  pub cancelled : Bool

pub data WorkerError : Type 0 where
  dial_failed read_failed : Text → Text → WorkerError

-- The publisher, the health, and the result.
pub record Session : Type 0 where
  pub publisher : Publisher
  pub health : WsHealth
  pub result : Option WorkerError

abbrev pub keep_old : Publisher → Option Publisher → Publisher
keep_old p none = p
keep_old p (some q) = q

-- One accepted message; an error of Publish is logged and the message is dropped.
abbrev pub forward : Codec → Normalized → Publisher → Publisher
forward c (rejected e) p = p
forward c (accepted event) p = keep_old p (publish c event p)

unfoldable pub read_loop :
    Codec → (Text → Option Float64) → List (Text × Time) → Publisher → Publisher
read_loop c parse [] p = p
read_loop c parse ((raw, now) ∷ messages) p =
    read_loop c parse messages (forward c (normalize_trade c parse raw now) p)

abbrev pub read_result : Text → Text → Bool → Option WorkerError
read_result symbol e cancelled = if cancelled then none else some (read_failed symbol e)

-- The result of the dial is an error or a connection.
unfoldable pub run_symbol :
    Codec → (Text → Option Float64) → Text → Text ⊎ Connection → Publisher → WsHealth → Session
unfolding set_connected
run_symbol c parse symbol (inl e) p h = record {
  publisher = p;
  health = h;
  result = some (dial_failed symbol e);
}
run_symbol c parse symbol (inr conn) p h = record {
  publisher = read_loop c parse conn.messages p;
  health = set_connected symbol false (set_connected symbol true h);
  result = read_result symbol conn.read_error conn.cancelled;
}
