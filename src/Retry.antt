-- ===== src/Retry.antt =====
-- shared/retry/backoff.go: jittered exponential backoff and the reconnect loop. The uniform random
-- source is an argument of each call that draws from it.
pub mod Bounds
pub mod Loop
use trade_pulse.Prelude.{ℕ, zero, suc, ◌*◌, Bool, true, false, List, [], ◌∷◌, if◌then◌else◌}
use trade_pulse.Prelude.Int.{ℤ, pos, negsuc, pos_part, ltb_ℤ}
use trade_pulse.Machine.{Duration, second, add64, leb_ℤ}

pub record Backoff : Type 0 where
  pub base : Duration
  pub max : Duration
  pub reset_after : Duration
  pub attempt : ℤ

abbrev pub default_base : Duration
default_base = pos second

abbrev pub default_max : Duration
default_max = pos (30 * second)

abbrev pub default_reset_after : Duration
default_reset_after = pos (120 * second)

unfoldable pub new_backoff : Backoff
new_backoff = record {
  base = default_base;
  max = default_max;
  reset_after = default_reset_after;
  attempt = pos 0;
}

abbrev pub min_ℤ : ℤ → ℤ → ℤ
min_ℤ a b = if ltb_ℤ b a then b else a

-- `for i := 0; i < attempt && d < max; i++ { d *= 2 }`, with the rounds left.
unfoldable pub doubled : ℕ → Duration → Duration → Duration
doubled zero d max = d
doubled (suc i) d max = let rest = doubled i (add64 d d) max in if ltb_ℤ d max then rest else d

unfoldable pub ceiling : Backoff → Duration
ceiling b = min_ℤ (doubled (pos_part b.attempt) b.base b.max) b.max

-- `rng n` is the draw from [0, n).
unfoldable pub jitter : (ℤ → ℤ) → Duration → Duration
jitter rng d = rng (add64 d (pos 1))

unfoldable pub next : (ℤ → ℤ) → Backoff → Duration × Backoff
next rng b = (jitter rng (ceiling b), record b { attempt = add64 b.attempt (pos 1) })

unfoldable pub observe : Duration → Backoff → Backoff
observe uptime b = if leb_ℤ b.reset_after uptime then record b { attempt = pos 0 } else b

unfoldable pub reset : Backoff → Backoff
reset b = record b { attempt = pos 0 }

-- What one round of the loop meets: whether ctx is cancelled when the work returns, how long the
-- work ran, the random draw, and whether ctx is cancelled before the delay is over.
pub record Round : Type 0 where
  pub cancelled_at_work : Bool
  pub uptime : Duration
  pub rng : ℤ → ℤ
  pub cancelled_at_wait : Bool

-- The delays that WithBackoff draws over the rounds so far, and whether it has returned.
unfoldable pub with_backoff_from : List Round → Backoff → List Duration × Bool
with_backoff_from [] b = ([], false)
with_backoff_from (r ∷ rs) b =
    let (delay, b') = next r.rng (observe r.uptime b) in
    let rest = with_backoff_from rs b' in
    if r.cancelled_at_work
    then ([], true)
    else if r.cancelled_at_wait
    then (delay ∷ [], true)
    else (delay ∷ rest.0, rest.1)

unfoldable pub with_backoff : List Round → List Duration × Bool
with_backoff rounds = with_backoff_from rounds new_backoff
