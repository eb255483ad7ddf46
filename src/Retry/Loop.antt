-- ===== src/Retry/Loop.antt =====
-- The reconnect loop: every delay against the number of rounds since the last long-lived one.
use trade_pulse.Prelude.{
  ℕ, suc, ◌+◌, ◌*◌, ◌^◌, ◌≤◌, ◌<◌, min, ◌≡◌, refl, List, [], ◌∷◌, arith, if◌then◌else◌, Bool-cases,
  inl, inr, length,
}
use trade_pulse.Prelude.Int.{ℤ, pos}
use trade_pulse.Machine.{Duration, second, leb_ℤ}
use trade_pulse.Retry.{
  Backoff, default_base, default_max, default_reset_after, new_backoff, next, observe, Round,
  with_backoff_from, with_backoff,
}
use trade_pulse.Retry.Bounds.{add64_pos, ceiling-exponential, DrawsBelow, next-le-ceiling}

-- How many rounds in a row, the present one left out, ended before they counted as recovered.
abbrev pub streak : Duration → ℕ → ℕ
streak uptime before = if leb_ℤ default_reset_after uptime then 0 else before

-- Each delay lies between 0 and a second doubled once for each round of the streak, or 30 seconds.
abbrev pub Escalates : ℕ → List Round → List Duration → Type 0
Escalates before rounds [] = Unit
Escalates before [] (delay ∷ delays) = ⊥
Escalates before (r ∷ rs) (delay ∷ delays) =
    ((k : ℕ) × (delay ≡ pos k) × (k ≤ min (second * 2 ^ streak r.uptime before) (30 * second)))
    × Escalates (suc (streak r.uptime before)) rs delays

abbrev pub AllDraw : List Round → Type 0
AllDraw [] = Unit
AllDraw (r ∷ rs) = DrawsBelow r.rng × AllDraw rs

abbrev pub with_attempt : ℕ → Backoff
with_attempt n = record {
  base = default_base;
  max = default_max;
  reset_after = default_reset_after;
  attempt = pos n;
}

observe-streak :
    (uptime : Duration) (n : ℕ) → observe uptime (with_attempt n) ≡ with_attempt (streak uptime n)
unfolding observe
observe-streak uptime n = ground arith

pub next-attempt :
    (rng : ℤ → ℤ) (n : ℕ) → n + 1 < 2 ^ 63 → (next rng (with_attempt n)).1 ≡ with_attempt (suc n)
unfolding next
next-attempt rng n h = rw (add64_pos n 1 h) (ground arith)

pub delay_bound :
    (rng : ℤ → ℤ) (n : ℕ)
    → DrawsBelow rng
    → (k : ℕ) × ((next rng (with_attempt n)).0 ≡ pos k) × (k ≤ min (second * 2 ^ n) (30 * second))
delay_bound rng n draws =
    next-le-ceiling rng (with_attempt n) (min (second * 2 ^ n) (30 * second)) draws
      (ceiling-exponential (with_attempt n) second (30 * second) n refl refl refl (omega arith)
        (omega arith))
      (omega arith)

from_attempt :
    (rounds : List Round) (n : ℕ)
    → AllDraw rounds
    → n + length rounds < 2 ^ 63
    → Escalates n rounds (with_backoff_from rounds (with_attempt n)).0
unfolding with_backoff_from
from_attempt [] n draws h = tt
from_attempt (r ∷ rs) n (draws, later) h =
    let m = streak r.uptime n in
    let one = delay_bound r.rng m draws in
    let rest = from_attempt rs (suc m) later (ground arith) in
    let b = with_attempt m in
    elim (Bool-cases r.cancelled_at_work) [
      | inl e ↦ rw e tt
      | inr e ↦ elim (Bool-cases r.cancelled_at_wait) [
        | inl f ↦ rw (e, f, observe-streak r.uptime n) (one, tt)
        | inr f ↦
            rw (e, f, observe-streak r.uptime n, next-attempt r.rng m (ground arith)) (one, rest)
      ]
    ]

-- Over any rounds, the delay before the next attempt is at most a second doubled once for each
-- round, since the last one that stayed up for two minutes, that preceded it, and at most 30
-- seconds; it is never negative. (The random source draws as documented, and there are fewer than
-- 2^63 rounds.)
pub with_backoff-Escalates :
    (rounds : List Round)
    → AllDraw rounds
    → length rounds < 2 ^ 63
    → Escalates 0 rounds (with_backoff rounds).0
unfolding with_backoff new_backoff
with_backoff-Escalates rounds draws h = from_attempt rounds 0 draws (omega arith)
