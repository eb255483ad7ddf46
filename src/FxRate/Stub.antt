-- ===== src/FxRate/Stub.antt =====
-- What Run of fx-rate-service does with fetchRates as it is, which never fails.
use trade_pulse.Prelude.{
  ◌≡◌, refl, Bool, true, false, not, ◌&&◌, List, [], ◌∷◌, Option, none, Bool-cases, inl, inr,
  if◌then◌else◌,
}
use trade_pulse.Prelude.Int.{pos}
use trade_pulse.Machine.{Duration, leb_ℤ}
use trade_pulse.FxRate.{
  Input, tick, done, polling, returned, Session, fetch_rates, poll, poll_session, run_from, run,
}

-- Whether the `select` of a session takes ctx.Done.
abbrev pub has_done : List Input → Bool
has_done [] = false
has_done (done ∷ inputs) = true
has_done (tick ∷ inputs) = has_done inputs

module _ {ℓ κ} {S : Type ℓ} (E : Type κ) where
  abbrev pub stub : S → S × Option E
  stub = fetch_rates

  poll-stub :
      (inputs : List Input) (s : S)
      → poll stub inputs s ≡ (s, if has_done inputs then returned none true else polling)
  unfolding poll fetch_rates
  poll-stub [] s = refl
  poll-stub (done ∷ inputs) s = refl
  poll-stub (tick ∷ inputs) s = poll-stub inputs s

  -- With fetchRates as it is, Run never reconnects, over whatever sessions: it draws no delay and leaves
  -- the state as it was; it panics exactly where the poll interval is not positive; and else it returns
  -- exactly where the first session sees the end of its context.
  pub run-fetch_rates :
      (interval : Duration) (x : Session) (sessions : List Session) (s : S)
      → let p = run stub interval (x ∷ sessions) s in
        (p.delays ≡ [])
        × (p.state ≡ s)
        × (p.panicked ≡ leb_ℤ interval (pos 0))
        × (p.returned ≡ (not (leb_ℤ interval (pos 0)) && has_done x.inputs))
  unfolding run run_from poll_session
  run-fetch_rates interval x sessions s = elim (Bool-cases (leb_ℤ interval (pos 0))) [
    | inl h ↦ rw h (refl, refl, refl, refl)
    | inr h ↦ elim (Bool-cases (has_done x.inputs)) [
      | inl d ↦ elim (Bool-cases x.round.cancelled_at_work) [
        | inl w ↦ rw (h, poll-stub x.inputs s, d, w) (refl, refl, refl, refl)
        | inr w ↦ rw (h, poll-stub x.inputs s, d, w) (refl, refl, refl, refl)
      ]
      | inr d ↦ rw (h, poll-stub x.inputs s, d) (refl, refl, refl, refl)
    ]
  ]
