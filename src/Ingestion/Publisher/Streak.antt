-- ===== src/Ingestion/Publisher/Streak.antt =====
-- What the producer's health check reports, by the deliveries so far.
use trade_pulse.Prelude.{
  ℕ, suc, ◌+◌, ◌<◌, ◌^◌, ◌≡◌, refl, ap, ◌∙◌, List, [], ◌∷◌, Option, none, some, arith, length,
}
use trade_pulse.Prelude.Int.{pos}
use trade_pulse.Text.{Text}
use trade_pulse.Machine.{Time, time_sub, add64}
use trade_pulse.Retry.Bounds.{add64_pos}
use trade_pulse.Ingestion.Publisher.{
  Publisher, CheckError, deliveries_failed, on_delivery, delivery_status,
}

-- A delivery's outcome and when it is told.
abbrev pub Delivery : Type 0
Delivery = Option Text × Time

abbrev pub deliver_all : List Delivery → Publisher → Publisher
deliver_all [] p = p
deliver_all ((e, now) ∷ rest) p = deliver_all rest (on_delivery e now p)

-- The failures since the last success, and the last of them.
pub record Streak : Type 0 where
  pub failures : ℕ
  pub last : Option (Text × Time)

abbrev pub extend : Delivery → Streak → Streak
extend (none, now) s = record { failures = 0; last = none }
extend (some e, now) s = record { failures = s.failures + 1; last = some (e, now) }

abbrev pub streak_from : List Delivery → Streak → Streak
streak_from [] s = s
streak_from (d ∷ rest) s = streak_from rest (extend d s)

abbrev pub streak : List Delivery → Streak
streak ds = streak_from ds (record { failures = 0; last = none })

abbrev pub reported : Time → ℕ → Option (Text × Time) → Option CheckError
reported now failures none = none
reported now failures (some (e, at)) =
    some (deliveries_failed (pos failures) (time_sub now at) (some e))

abbrev Matches : Publisher → ℕ → Option (Text × Time) → Type 0
Matches p n none = (p.consecutive_failures ≡ pos 0) × (n ≡ 0)
Matches p n (some (e, at)) =
    (p.consecutive_failures ≡ pos n)
    × ((m : ℕ) × (n ≡ suc m))
    × (p.last_failure ≡ some e)
    × (p.last_failure_at ≡ at)

Matches-failures :
    (p : Publisher) (n : ℕ) (l : Option (Text × Time))
    → Matches p n l
    → p.consecutive_failures ≡ pos n
Matches-failures p n none (h, k) = rw k h
Matches-failures p n (some (e, at)) (h, k, f, a) = h

on_delivery-Matches :
    (d : Delivery) (p : Publisher) (s : Streak)
    → s.failures + 1 < 2 ^ 63
    → Matches p s.failures s.last
    → Matches (on_delivery d.0 d.1 p) (extend d s).failures (extend d s).last
unfolding on_delivery
on_delivery-Matches (none, now) p s b h = (refl, refl)
on_delivery-Matches (some e, now) p s b h = (
  ap (λ z. add64 z (pos 1)) (Matches-failures p s.failures s.last h) ∙ add64_pos s.failures 1 b,
  (s.failures, ground arith),
  refl,
  refl,
)

extend-failures :
    (d : Delivery) (s : Streak) (k : ℕ)
    → s.failures + suc k < 2 ^ 63
    → (extend d s).failures + k < 2 ^ 63
extend-failures (none, now) s k h = omega arith
extend-failures (some e, now) s k h = omega arith

deliver_all-Matches :
    (ds : List Delivery) (p : Publisher) (s : Streak)
    → s.failures + length ds < 2 ^ 63
    → Matches p s.failures s.last
    → Matches (deliver_all ds p) (streak_from ds s).failures (streak_from ds s).last
deliver_all-Matches [] p s b h = h
deliver_all-Matches (d ∷ rest) p s b h =
    deliver_all-Matches rest (on_delivery d.0 d.1 p) (extend d s)
      (extend-failures d s (length rest) b) (on_delivery-Matches d p s (omega arith) h)

status-Matches :
    (now : Time) (p : Publisher) (n : ℕ) (l : Option (Text × Time))
    → Matches p n l
    → delivery_status now p ≡ reported now n l
unfolding delivery_status
status-Matches now p n none (h, k) = rw h refl
status-Matches now p n (some (e, at)) (h, (m, k), f, a) = rw (h, f, a, k) (ground arith)

-- After any deliveries of a publisher that had no failure yet, the status is healthy exactly when
-- the last delivery succeeded or there is none; otherwise it names how many failed since the last
-- success, the error of the last one, and how long ago that was. (There are fewer than 2^63
-- deliveries.)
pub delivery_status-streak :
    (ds : List Delivery) (p : Publisher) (now : Time)
    → length ds < 2 ^ 63
    → p.consecutive_failures ≡ pos 0
    → delivery_status now (deliver_all ds p) ≡ reported now (streak ds).failures (streak ds).last
delivery_status-streak ds p now b h =
    status-Matches now (deliver_all ds p) (streak ds).failures (streak ds).last
      (deliver_all-Matches ds p (record { failures = 0; last = none }) (omega arith) (h, refl))
