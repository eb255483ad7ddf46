-- ===== src/HttpServer.antt =====
-- shared/httpserver: the dependency checks that a service registers, the /health handler that runs
-- them, and the life of the ops server; and services/api-service/internal/server.go, whose life is
-- the same but for one test.
pub mod Checks
pub mod Mux
use trade_pulse.Prelude.{
  ℕ, ◌==◌, Bool, true, false, not, ◌&&◌, List, [], ◌∷◌, ◌++◌, map, Option, none, some, ◌⊎◌, inl,
  inr, is_some, set, get_elem?, length, replicate, if◌then◌else◌,
}
use trade_pulse.Text.{Text, codes, text_eq}
use trade_pulse.Table.{Table, insert}

-- A Checker, with what Check answers under its deadline, and the Details of a Detailer. `D` is the
-- type of the details.
pub record Checker (D : Type 0) : Type 0 where
  pub name : Text
  pub check : Option Text
  pub detail : Option D

-- The build, a constant, and the service's name, which is not set, are left out.
pub record HealthResponse (D : Type 0) : Type 0 where
  pub status : Text
  pub checks : Table Text
  pub details : Option (Table D)

pub record Answer (D : Type 0) : Type 0 where
  pub code : ℕ
  pub response : HealthResponse D

-- checkResult, whose zero value fills the slots before their goroutines are done.
pub record CheckResult (D : Type 0) : Type 0 where
  pub name : Text
  pub err : Option Text
  pub detail : Option D

module _ {D : Type 0} where
  -- healthRegistry.add
  unfoldable pub register_checker : Checker D → List (Checker D) → List (Checker D)
  register_checker c registered = registered ++ c ∷ []

  abbrev pub zero_result : CheckResult D
  zero_result = record { name = []; err = none; detail = none }

  unfoldable pub result_of : Checker D → CheckResult D
  result_of c = record { name = c.name; err = c.check; detail = c.detail }

  abbrev pub store_result : ℕ → Option (Checker D) → List (CheckResult D) → List (CheckResult D)
  store_result i none results = results
  store_result i (some c) results = set results i (result_of c)

  -- The goroutines of the checkers, in the order in which they store their results.
  unfoldable pub finish_all :
      List (Checker D) → List ℕ → List (CheckResult D) → List (CheckResult D)
  unfolding result_of
  finish_all checkers [] results = results
  finish_all checkers (i ∷ order) results =
      finish_all checkers order (store_result i (get_elem? checkers i) results)

  unfoldable pub run_checks : List (Checker D) → List ℕ → List (CheckResult D)
  unfolding finish_all
  run_checks checkers order = finish_all checkers order (replicate (length checkers) zero_result)

  abbrev pub add_detail : Text → Option D → Table D → Table D
  add_detail name none details = details
  add_detail name (some d) details = insert name d details

  abbrev pub add_error : Text → Option Text → HealthResponse D → HealthResponse D
  add_error name (some e) resp = record resp {
    status = codes "degraded";
    checks = insert name e resp.checks;
  }
  add_error name none resp = record resp { checks = insert name (codes "ok") resp.checks }

  abbrev pub or_empty : Option (Table D) → Table D
  or_empty none = []
  or_empty (some t) = t

  -- One round of the loop of handleHealth.
  unfoldable pub add_result : CheckResult D → HealthResponse D → HealthResponse D
  add_result r resp =
      let added = add_error r.name r.err resp in
      record added { details = some (add_detail r.name r.detail (or_empty added.details)) }

  abbrev pub add_results : List (CheckResult D) → HealthResponse D → HealthResponse D
  add_results [] resp = resp
  add_results (r ∷ rs) resp = add_results rs (add_result r resp)

  abbrev pub nil_if_empty : Option (Table D) → Option (Table D)
  nil_if_empty none = none
  nil_if_empty (some []) = none
  nil_if_empty (some (x ∷ t)) = some (x ∷ t)

  abbrev pub answer_of : HealthResponse D → Answer D
  answer_of resp = record {
    code = if text_eq resp.status (codes "ok") then 200 else 503;
    response = record resp { details = nil_if_empty resp.details };
  }

  unfoldable pub handle_health : List (Checker D) → List ℕ → Answer D
  unfolding add_result run_checks
  handle_health checkers order = answer_of (
      add_results (run_checks checkers order)
        (record { status = codes "ok"; checks = []; details = some [] }))

-- What ListenAndServe returns: http.ErrServerClosed, or another error. It never returns nil.
pub data ServeError : Type 0 where
  server_closed : ServeError
  listen_failed : Text → ServeError

abbrev pub is_server_closed : ServeError → Bool
is_server_closed server_closed = true
is_server_closed (listen_failed e) = false

-- What the `select` of Start meets first: the goroutine's value, or the end of ctx, with the result
-- of Shutdown.
pub data Ending : Type 0 where
  served : ServeError → Ending
  shut_down : Option Text → Ending

pub data StartError : Type 0 where
  serve_error : ServeError → StartError
  shutdown_error : Text → StartError

abbrev pub shutdown_result : Option Text → Option StartError
shutdown_result none = none
shutdown_result (some e) = some (shutdown_error e)

-- httpserver.Server.Start
unfoldable pub start : Ending → Option StartError
start (served e) = if not (is_server_closed e) then some (serve_error e) else none
start (shut_down e) = shutdown_result e

-- PublicServer.Run of api-service
unfoldable pub run_public : Ending → Option StartError
run_public (served e) = if is_server_closed e then some (serve_error e) else none
run_public (shut_down e) = shutdown_result e
