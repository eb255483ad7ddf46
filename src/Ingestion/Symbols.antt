-- ===== src/Ingestion/Symbols.antt =====
-- services/ingestion-service/internal/service.go: normalizeSymbols, over the Unicode case tables.
pub mod Dedup
use trade_pulse.Prelude.{
  Bool, true, false, List, [], ◌∷◌, ◌++◌, Option, none, some, is_some, if◌then◌else◌,
}
use trade_pulse.Text.{Text, Casing, trim_space, to_lower, is_empty}
use trade_pulse.Table.{Table, lookup, insert}

-- The set of the symbols seen, and the output.
pub record Scan : Type 0 where
  pub seen : Table (Unit {0})
  pub out : List Text

unfoldable pub normalize_symbol : Casing → Text → Text
normalize_symbol t s = to_lower t (trim_space s)

-- One round of the loop, on the normalized symbol.
unfoldable pub visit : Text → Scan → Scan
visit sym s =
    if is_empty sym
    then s
    else if is_some (lookup sym s.seen)
    then s
    else record { seen = insert sym tt s.seen; out = s.out ++ sym ∷ [] }

unfoldable pub scan : Casing → List Text → Scan → Scan
scan t [] s = s
scan t (x ∷ xs) s = scan t xs (visit (normalize_symbol t x) s)

unfoldable pub normalize_symbols : Casing → List Text → List Text
normalize_symbols t symbols = (scan t symbols (record { seen = []; out = [] })).out
