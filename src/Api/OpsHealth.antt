-- ===== src/Api/OpsHealth.antt =====
-- The two health endpoints of api-service, that of the ops server and the public one, agree.
use trade_pulse.Prelude.{
  ℕ, ◌≡◌, refl, ◌∙◌, sym, ◌↔◌, Bool, true, false, List, Option, none, some, arith, length,
  Option-cases, inl, inr, if◌then◌else◌,
}
use trade_pulse.Prelude.Int.{ℤ}
use trade_pulse.Text.{Text}
use trade_pulse.Machine.{Duration, Time}
use trade_pulse.Kafka.Cache.{LagCache, CheckError, check}
use trade_pulse.HttpServer.{handle_health, register_checker}
use trade_pulse.HttpServer.Checks.{Covers, any_error, handle_health-any_order}
use trade_pulse.Rest.Health.{health, new_health_handler, lag_status}
use trade_pulse.Api.{registered}

module _ (error_text : CheckError → Text) (seconds : Duration → ℤ) where
  failing :
      (lag : Option LagCache) (now : Time) (redis : Option Text)
      → (any_error (registered error_text seconds lag now redis) ≡ false)
        ↔ ((health (new_health_handler lag now) redis).response.degraded ≡ false)
  unfolding registered register_checker health new_health_handler lag_status
  failing none now none = ((λ h. refl), λ h. refl)
  failing none now (some e) = ((λ h. absurd (ground arith)), λ h. absurd (ground arith))
  failing (some cache) now none = elim (Option-cases (check (some cache) now)) [
    | inl e ↦ rw e ((λ h. refl), λ h. refl)
    | inr (x, e) ↦ rw e ((λ h. absurd (ground arith)), λ h. absurd (ground arith))
  ]
  failing (some cache) now (some x) = ((λ h. absurd (ground arith)), λ h. absurd (ground arith))

  abbrev code_for : Bool → ℕ
  code_for b = if b then 503 else 200

  code_of_errors : (b : Bool) → (code_for b ≡ 200) ↔ (b ≡ false)
  code_of_errors true = ((λ h. absurd (omega arith)), λ h. absurd (ground arith))
  code_of_errors false = ((λ h. refl), λ h. refl)

  -- At one moment, and with one answer of Redis: the ops server's /health, whose checks end in any
  -- order, answers 200 exactly when the public endpoint is not degraded, with or without a lag
  -- cache.
  pub ops_health-degraded :
      (lag : Option LagCache) (now : Time) (redis : Option Text) (order : List ℕ)
      → Covers (length (registered error_text seconds lag now redis)) order
      → ((handle_health (registered error_text seconds lag now redis) order).code ≡ 200)
        ↔ ((health (new_health_handler lag now) redis).response.degraded ≡ false)
  ops_health-degraded lag now redis order all =
      let checkers = registered error_text seconds lag now redis in
      let code = (handle_health-any_order checkers order order all all).1 in
      let bad = code_of_errors (any_error checkers) in
      let public = failing lag now redis in
      (λ h. public.0 (bad.0 (sym code ∙ h)), λ h. code ∙ bad.1 (public.1 h))
