-- ===== src/Scenarios/Services.antt =====
-- The services' Run at concrete configurations.
use trade_pulse.Prelude.{
  ℕ, zero, suc, not, ◌&&◌, ◌<◌, ◌==◌, if◌then◌else◌, ◌⊎◌, ◌≡◌, refl, ◌↔◌, false, true, List, [],
  ◌∷◌, Option, none, some, All, arith, inr,
}
use trade_pulse.Prelude.Int.{ℤ, pos}
use trade_pulse.Text.{Text, codes, is_empty}
use trade_pulse.Runtime.{IsWait}
use trade_pulse.HttpServer.{
  register_checker, handle_health, served, listen_failed, run_public, start,
}
use trade_pulse.Api.{registered}
use trade_pulse.Config.{Config, load}
use trade_pulse.Commands.{api_service}
use trade_pulse.Commands.Status.{api_service-zero}
use trade_pulse.Api.OpsHealth.{ops_health-degraded}
use trade_pulse.Kafka.Cache.{CheckError, new_lag_cache}
use trade_pulse.HttpServer.Checks.{occurs}
use trade_pulse.Rest.Health.{health, new_health_handler}
use trade_pulse.Machine.{Duration, unix_epoch, leb_ℤ}
use trade_pulse.FxRate as Rates
use trade_pulse.FxRate.{Session, Ended, tick, done}
use trade_pulse.FxRate.Stub.{has_done, stub, run-fetch_rates}
use trade_pulse.Scenarios.Config.{memory_viper}

-- A Wait that returns the first error.
abbrev first_error {ℓ} : {E : Type ℓ} → List (Option E) → Option E
first_error [] = none
first_error (none ∷ rs) = first_error rs
first_error (some e ∷ rs) = some e

first_error-none {ℓ} :
    {E : Type ℓ} (rs : List (Option E)) → All (λ r. r ≡ none) rs → first_error rs ≡ none
first_error-none [] h = refl
first_error-none (none ∷ rs) h = first_error-none rs h.1
first_error-none (some e ∷ rs) h = absurd (ground arith)

first_error-All {ℓ} :
    {E : Type ℓ} (rs : List (Option E)) → first_error rs ≡ none → All (λ r. r ≡ none) rs
first_error-All [] h = tt
first_error-All (none ∷ rs) h = (refl, first_error-All rs h)
first_error-All (some e ∷ rs) h = absurd (ground arith)

first_error-IsWait {ℓ} : {E : Type ℓ} → IsWait {E = E} first_error
first_error-IsWait = record { all_nil = first_error-none; some_error = first_error-All }

-- The second fetch fails.
abbrev fetch : ℕ → ℕ × Option Text
fetch n = (suc n, if n == 1 then some (codes "timeout") else none)

abbrev draw_zero : ℤ → ℤ
draw_zero n = pos 0

abbrev failing : Session
failing = record {
  inputs = tick ∷ tick ∷ tick ∷ [];
  round = record {
    cancelled_at_work = false;
    uptime = pos 5;
    rng = draw_zero;
    cancelled_at_wait = false;
  };
}

abbrev ended : Session
ended = record {
  inputs = tick ∷ done ∷ [];
  round = record {
    cancelled_at_work = false;
    uptime = pos 5;
    rng = draw_zero;
    cancelled_at_wait = false;
  };
}

-- A failed fetch, a reconnect, and a session that ends with its context.
reconnected : (Rates.run fetch (pos 60) (failing ∷ ended ∷ []) 0).returned ≡ true
unfolding Rates.run Rates.run_from Rates.poll_session Rates.poll
reconnected = refl

abbrev start_state : ℕ
start_state = 7

run-fetch_rates_example :
    let p = Rates.run (stub Text) (pos 60) (ended ∷ failing ∷ []) start_state in
    (p.delays ≡ [])
    × (p.state ≡ start_state)
    × (p.panicked ≡ leb_ℤ (pos 60) (pos 0))
    × (p.returned ≡ (not (leb_ℤ (pos 60) (pos 0)) && has_done ended.inputs))
run-fetch_rates_example = run-fetch_rates Text (pos 60) ended (failing ∷ []) start_state

both : (i : ℕ) → i < 2 → occurs i (1 ∷ 0 ∷ []) ≡ true
both zero h = refl
both (suc zero) h = refl
both (suc (suc i)) h = absurd (omega arith)

abbrev text_of_error : CheckError → Text
text_of_error e = codes "lag"

abbrev whole_seconds : Duration → ℤ
whole_seconds d = d

-- A cache without a reading, and Redis up.
ops_health-degraded_example :
    ((handle_health
        (registered text_of_error whole_seconds (some (new_lag_cache (pos 5))) unix_epoch none)
        (1 ∷ 0 ∷ [])).code
      ≡ 200)
    ↔ ((health
          (new_health_handler (some (new_lag_cache (pos 5))) unix_epoch)
          none).response.degraded
        ≡ false)
unfolding registered register_checker
ops_health-degraded_example =
    ops_health-degraded text_of_error whole_seconds (some (new_lag_cache (pos 5))) unix_epoch none
      (1 ∷ 0 ∷ []) both

-- Neither the ops server nor the public server could listen, but a signal has come by then.
api_service-zero_example :
    (api_service memory_viper true
        (served (listen_failed (codes "in use")))
        first_error
        first_error
        none
        (served (listen_failed (codes "in use")))
      ≡ 0)
    ↔ ((cfg : Config) × (load memory_viper (codes "api-service") ≡ inr cfg)
        × ((true ≡ true)
            ⊎ ((start (served (listen_failed (codes "in use"))) ≡ none)
                × (is_empty cfg.redis.addr ≡ false)
                × (run_public (served (listen_failed (codes "in use"))) ≡ none))))
api_service-zero_example =
    api_service-zero memory_viper true (served (listen_failed (codes "in use"))) first_error
      first_error none (served (listen_failed (codes "in use"))) first_error-IsWait
      first_error-IsWait
