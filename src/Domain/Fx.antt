-- ===== src/Domain/Fx.antt =====
-- shared/domain/fx.go: the table of exchange rates, and the rate of a quote asset.
use trade_pulse.Prelude.{
  ◌≡◌, refl, Bool, true, false, ◌||◌, [], ◌∷◌, Option, none, some, is_some, arith, if◌then◌else◌,
}
use trade_pulse.Text.{Text, Casing, codes, to_upper}
use trade_pulse.Text.Laws.{IsCasing, to_upper_idem}
use trade_pulse.Machine.{Float64, Time, float_one, float_zero}
use trade_pulse.Table.{Table, lookup}

pub record FxRates : Type 0 where
  pub base : Text
  pub rates : Table Float64
  pub fetched_at : Time

unfoldable pub on_exchange_quote_assets : Table Bool
on_exchange_quote_assets = (codes "USD", true) ∷ (codes "USDT", true) ∷ (codes "USDC", true) ∷ []

-- A missing key reads as the zero value.
abbrev pub or_false : Option Bool → Bool
or_false none = false
or_false (some b) = b

abbrev pub found_rate : Option Float64 → Float64 × Bool
found_rate none = (float_zero, false)
found_rate (some r) = (r, true)

unfoldable pub rate : Casing → FxRates → Text → Float64 × Bool
rate t f quote =
    let upper = to_upper t quote in
    if or_false (lookup upper on_exchange_quote_assets)
    then (float_one, true)
    else found_rate (lookup upper f.rates)

found_iff : (m : Option Float64) → (found_rate m).1 ≡ is_some m
found_iff none = refl
found_iff (some r) = refl

-- Writing a quote asset in upper case does not change its rate; and there is a rate exactly for
-- the assets that the exchange quotes in and those of the table, looked up in upper case. (The
-- case tables change nothing that is in upper case.)
pub rate-any_case :
    (t : Casing) (f : FxRates) (quote : Text)
    → IsCasing t
    → (rate t f (to_upper t quote) ≡ rate t f quote)
      × ((rate t f quote).1 ≡ (
          or_false (lookup (to_upper t quote) on_exchange_quote_assets)
          || is_some (lookup (to_upper t quote) f.rates)))
unfolding rate
rate-any_case t f quote h = (
  rw (to_upper_idem t h quote) refl,
  ground (arith, found_iff (lookup (to_upper t quote) f.rates)),
)
