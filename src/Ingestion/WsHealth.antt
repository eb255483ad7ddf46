-- ===== src/Ingestion/WsHealth.antt =====
-- services/ingestion-service/internal/health.go: which symbols' connections are up. A Go map is read
-- in any order; the report is sorted.
pub mod Order
use trade_pulse.Prelude.{
  Bool, true, false, List, [], ◌∷◌, Option, none, some, if◌then◌else◌, ltb, ◌==◌, ◌||◌, ◌&&◌,
}
use trade_pulse.Text.{Text}
use trade_pulse.Table.{Table, insert}
use trade_pulse.Sorting.{sort_by}

abbrev pub WsHealth : Type 0
WsHealth = Table Bool

abbrev pub set_all : List Text → WsHealth → WsHealth
set_all [] h = h
set_all (sym ∷ symbols) h = set_all symbols (insert sym false h)

unfoldable pub new_ws_health : List Text → WsHealth
new_ws_health symbols = set_all symbols []

unfoldable pub set_connected : Text → Bool → WsHealth → WsHealth
set_connected symbol connected h = insert symbol connected h

-- Go's order of strings.
abbrev pub text_lt : Text → Text → Bool
text_lt [] [] = false
text_lt [] (d ∷ t) = true
text_lt (c ∷ s) [] = false
text_lt (c ∷ s) (d ∷ t) = ltb c d || (c == d && text_lt s t)

-- The symbols that are down, in the order of the iteration.
unfoldable pub down : WsHealth → List Text
down [] = []
down ((sym, connected) ∷ h) = if connected then down h else sym ∷ down h

-- `none` is healthy; the error lists the symbols that are down.
abbrev pub report : List Text → Option (List Text)
report [] = none
report (sym ∷ symbols) = some (sort_by text_lt (sym ∷ symbols))

unfoldable pub check : WsHealth → Option (List Text)
unfolding down
check h = report (down h)
