-- ===== src/Retry/Bounds.antt =====
-- The delays of a backoff: exponential, capped, and free of overflow.
use native.Mathlib.Nat.{pow-suc, one-le-pow}
use trade_pulse.Prelude.{
  ℕ, zero, suc, ◌+◌, ◌-◌, ◌*◌, ◌^◌, ◌≤◌, ◌<◌, min, ◌≡◌, ap, ◌∙◌, arith, Bool-cases, inl, inr,
}
use trade_pulse.Prelude.Int.{ℤ, pos, ltb_ℤ, ◌+ℤ◌}
use trade_pulse.Machine.{add64, wrap64}
use trade_pulse.Retry.{Backoff, min_ℤ, doubled, ceiling, jitter, next}

pub add64_pos : (a b : ℕ) → a + b < 2 ^ 63 → add64 (pos a) (pos b) ≡ pos (a + b)
unfolding add64 ◌+ℤ◌ wrap64
add64_pos a b h = ground arith

double-pow : (d k : ℕ) → (d + d) * 2 ^ k ≡ d * 2 ^ suc k
double-pow d k = rw (pow-suc 2 k) (omega arith)

le-mul-pow : (d k : ℕ) → d ≤ d * 2 ^ k
le-mul-pow d k = grind (arith, one-le-pow k 2 (omega arith))

min_ℤ-pos : (a b : ℕ) → min_ℤ (pos a) (pos b) ≡ pos (min a b)
min_ℤ-pos a b = ground arith

doubled-min :
    (k d m : ℕ)
    → 0 < d
    → m ≤ 2 ^ 62
    → min_ℤ (doubled k (pos d) (pos m)) (pos m) ≡ pos (min (d * 2 ^ k) m)
unfolding doubled
doubled-min zero d m h small = ground arith
doubled-min (suc k) d m h small = elim (Bool-cases (ltb_ℤ (pos d) (pos m))) [
  | inl e ↦
      rw (e, add64_pos d d (ground arith))
        (doubled-min k (d + d) m (omega arith) small ∙ rw (double-pow d k))
  | inr e ↦ rw e (min_ℤ-pos d m ∙ ap pos (ground (arith, le-mul-pow d (suc k))))
]

-- For a positive base, a maximum of at most 2^62 and a count of failures that is not negative, the
-- ceiling is the base doubled once for each failure, or the maximum if that is less; no doubling
-- overflows.
pub ceiling-exponential :
    (b : Backoff) (base max failures : ℕ)
    → b.base ≡ pos base
    → b.max ≡ pos max
    → b.attempt ≡ pos failures
    → 0 < base
    → max ≤ 2 ^ 62
    → ceiling b ≡ pos (min (base * 2 ^ failures) max)
unfolding ceiling
ceiling-exponential b base max failures p q r h small =
    rw (p, q, r) (doubled-min failures base max h small)

-- What math/rand/v2 documents of Int64N: a number from 0 up to, and without, a positive bound.
abbrev pub DrawsBelow : (ℤ → ℤ) → Type 0
DrawsBelow rng = (n : ℕ) → 0 < n → (k : ℕ) × (rng (pos n) ≡ pos k) × (k < n)

-- The delay is not negative and at most the ceiling, if that is not negative and below 2^63 - 1.
-- (The random source draws as documented.)
pub next-le-ceiling :
    (rng : ℤ → ℤ) (b : Backoff) (c : ℕ)
    → DrawsBelow rng
    → ceiling b ≡ pos c
    → c < 2 ^ 63 - 1
    → (k : ℕ) × ((next rng b).0 ≡ pos k) × (k ≤ c)
unfolding next jitter
next-le-ceiling rng b c draws e h =
    let (k, drawn, below) = draws (c + 1) (omega arith) in
    (k, rw (e, add64_pos c 1 (omega arith)) drawn, omega arith)
