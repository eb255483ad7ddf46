-- ===== src/Domain/Candle.antt =====
-- shared/domain/candle.go: the supported intervals and their lengths.
use trade_pulse.Prelude.{◌*◌, if◌then◌else◌}
use trade_pulse.Prelude.Int.{pos}
use trade_pulse.Text.{Text, codes, text_eq}
use trade_pulse.Machine.{Duration, second}

-- Interval, a string
abbrev pub Interval : Type 0
Interval = Text

unfoldable pub duration : Interval → Duration
duration i =
    if text_eq i (codes "1m")
    then pos (60 * second)
    else if text_eq i (codes "5m")
    then pos (5 * (60 * second))
    else if text_eq i (codes "15m")
    then pos (15 * (60 * second))
    else if text_eq i (codes "1h")
    then pos (3600 * second)
    else pos 0
