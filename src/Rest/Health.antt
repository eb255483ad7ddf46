-- ===== src/Rest/Health.antt =====
-- services/api-service/rest/health.go. The lag's reporter is the cache of shared/kafka, or none,
-- which stands for a broker that is not configured. A budget that runs out is an error of the check.
use trade_pulse.Prelude.{
  ℕ, ◌≡◌, refl, ◌≢◌, ◌↔◌, Bool, true, false, List, [], Option, none, some, arith,
}
use trade_pulse.Prelude.Int.{ℤ, pos}
use trade_pulse.Text.{Text, codes, text_eq}
use trade_pulse.Machine.{Time, Duration}
use trade_pulse.Table.{Table, lookup, insert}
use trade_pulse.Kafka.Cache.{LagCache, CheckError, snapshot, check, new_lag_cache}
use trade_pulse.Kafka.Cache.Served.{Reading, refresh_all, last_good, IsFresh, check-IsFresh}

-- What a check shows: ok, not_configured, a total, or the text of an error.
pub data Shown : Type 0 where
  shows_ok shows_not_configured : Shown
  shows_total : ℤ → Shown
  shows_lag_error : CheckError → Shown
  shows_redis_error : Text → Shown

-- The service's name and the build, which are constants, are left out.
pub record HealthResponse : Type 0 where
  pub degraded : Bool
  pub checks : Table Shown

-- A status and its body.
pub record Reported : Type 0 where
  pub status : ℕ
  pub response : HealthResponse

abbrev pub lag_key : Text
lag_key = codes "kafka_consumer_lag"

abbrev pub redis_key : Text
redis_key = codes "redis"

-- LagReporter: what Check and Snapshot().Lag.Total answer.
pub data LagError : Type 0 where
  lag_not_configured : LagError
  lag_failed : CheckError → LagError

pub record LagReporter : Type 0 where
  pub total : ℤ
  pub error : Option LagError

abbrev pub not_configured_lag : LagReporter
not_configured_lag = record { total = pos 0; error = some lag_not_configured }

abbrev pub lag_error : Option CheckError → Option LagError
lag_error none = none
lag_error (some e) = some (lag_failed e)

-- NewHealthHandler, with what startLagCache returned.
unfoldable pub new_health_handler : Option LagCache → Time → LagReporter
new_health_handler none now = not_configured_lag
new_health_handler (some cache) now = record {
  total = (snapshot (some cache)).lag.total;
  error = lag_error (check (some cache) now);
}

abbrev pub shown_lag : ℤ → Option LagError → Shown × Bool
shown_lag total (some lag_not_configured) = (shows_not_configured, false)
shown_lag total (some (lag_failed e)) = (shows_lag_error e, true)
shown_lag total none = (shows_total total, false)

-- The checks with the lag's, and whether it is degraded.
unfoldable pub lag_status : LagReporter → Table Shown → Table Shown × Bool
lag_status lag checks =
    let (shown, degraded) = shown_lag lag.total lag.error in (insert lag_key shown checks, degraded)

abbrev pub with_redis : Option Text → Table Shown × Bool → Reported
with_redis (some e) (checks, degraded) = record {
  status = 503;
  response = record { degraded = true; checks = insert redis_key (shows_redis_error e) checks };
}
with_redis none (checks, degraded) = record {
  status = 200;
  response = record { degraded = degraded; checks = insert redis_key shows_ok checks };
}

unfoldable pub health : LagReporter → Option Text → Reported
unfolding lag_status
health lag redis = with_redis redis (lag_status lag [])

-- What the answer says, by the result of the lag's check.
answer_cases :
    (total : ℤ) (e : Option CheckError) (redis : Option Text)
    → let answer = health (record { total = total; error = lag_error e }) redis in
      ((answer.status ≡ 503) ↔ (redis ≢ none))
      × ((answer.response.degraded ≡ false) ↔ ((redis ≡ none) × (e ≡ none)))
      × ((e ≡ none) ↔ (lookup lag_key answer.response.checks ≡ some (shows_total total)))
unfolding health lookup insert text_eq
answer_cases total none none = (
  (λ h. ground arith, λ h. absurd (h refl)),
  (λ h. (refl, refl), λ h. refl),
  (λ h. refl, λ h. refl),
)
answer_cases total (some e) none = (
  (λ h. ground arith, λ h. absurd (h refl)),
  (λ h. ground arith, λ h. ground arith),
  (λ h. ground arith, λ h. ground arith),
)
answer_cases total none (some x) = (
  (λ h. λ k. ground arith, λ h. refl),
  (λ h. ground arith, λ h. ground arith),
  (λ h. refl, λ h. refl),
)
answer_cases total (some e) (some x) = (
  (λ h. λ k. ground arith, λ h. refl),
  (λ h. ground arith, λ h. ground arith),
  (λ h. ground arith, λ h. ground arith),
)

-- With a lag cache, after any readings: the status is 503 exactly when Redis does not answer; the
-- answer is "ok", not "degraded", exactly when Redis answers and the last good reading is there, not
-- too old, and of a group that is not stalled; and just for such a reading, whatever Redis answers,
-- the body shows the cache's total.
pub health-IsFresh :
    (rs : List Reading) (interval : Duration) (now : Time) (redis : Option Text)
    → let cache = refresh_all rs (new_lag_cache interval) in
      let answer = health (new_health_handler (some cache) now) redis in
      let fresh = IsFresh (new_lag_cache interval).stale_after now (last_good rs) in
      ((answer.status ≡ 503) ↔ (redis ≢ none))
      × ((answer.response.degraded ≡ false) ↔ ((redis ≡ none) × fresh))
      × (fresh ↔ (
          lookup lag_key answer.response.checks
          ≡ some (shows_total (snapshot (some cache)).lag.total)))
unfolding new_health_handler
health-IsFresh rs interval now redis =
    let cache = refresh_all rs (new_lag_cache interval) in
    let (to, from) = check-IsFresh rs interval now in
    let (code, (ok_to, ok_from), shown) =
      answer_cases (snapshot (some cache)).lag.total (check (some cache) now) redis in
    (
      code,
      (λ h. ((ok_to h).0, to (ok_to h).1), λ h. ok_from (h.0, from h.1)),
      (λ h. shown.0 (from h), λ h. to (shown.1 h)),
    )
