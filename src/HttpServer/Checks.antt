-- ===== src/HttpServer/Checks.antt =====
-- What /health answers, whatever the order in which the concurrent checks finish.
use trade_pulse.Prelude.{
  ℕ, zero, suc, ◌<◌, ◌≡◌, refl, sym, ap, ◌∙◌, inl, inr, Bool, true, false, ◌||◌, is_some, List, [],
  ◌∷◌, map, Option, none, some, arith, get_elem?, length, replicate, Option-cases, if◌then◌else◌,
}
use trade_pulse.Text.{Text, codes, text_eq}
use trade_pulse.HttpServer.{
  Checker, CheckResult, HealthResponse, result_of, zero_result, store_result, finish_all,
  run_checks, add_result, add_results, answer_of, handle_health,
}

abbrev same : ℕ → ℕ → Bool
same zero zero = true
same zero (suc j) = false
same (suc i) zero = false
same (suc i) (suc j) = same i j

abbrev pub occurs : ℕ → List ℕ → Bool
occurs i [] = false
occurs i (j ∷ order) = same j i || occurs i order

-- Every index below a bound is in the list.
abbrev pub Covers : ℕ → List ℕ → Type 0
Covers n order = (i : ℕ) → i < n → occurs i order ≡ true

abbrev marks : List ℕ → (ℕ → Bool) → ℕ → Bool
marks [] b = b
marks (i ∷ order) b = marks order (λ j. same i j || b j)

marks_occurs : (order : List ℕ) (b : ℕ → Bool) (i : ℕ) → marks order b i ≡ (occurs i order || b i)
marks_occurs [] b i = refl
marks_occurs (j ∷ order) b i = ground (arith, marks_occurs order (λ k. same j k || b k) i)

code_of :
    (b : Bool)
    → ◌≡◌ {A = ℕ}
        (if text_eq (if b then codes "degraded" else codes "ok") (codes "ok") then 200 else 503)
        (if b then 503 else 200)
unfolding text_eq
code_of true = refl
code_of false = refl

module _ {D : Type 0} where
  -- The slots of which some are filled.
  abbrev slots : List (Checker D) → (ℕ → Bool) → List (CheckResult D)
  slots [] b = []
  slots (c ∷ cs) b = (if b 0 then result_of c else zero_result) ∷ slots cs (λ i. b (suc i))

  store_suc :
      (i : ℕ) (x : Option (Checker D)) (r : CheckResult D) (rs : List (CheckResult D))
      → store_result (suc i) x (r ∷ rs) ≡ r ∷ store_result i x rs
  store_suc i none r rs = refl
  store_suc i (some c) r rs = refl

  store-slots :
      (i : ℕ) (cs : List (Checker D)) (b : ℕ → Bool)
      → store_result i (get_elem? cs i) (slots cs b) ≡ slots cs (λ j. same i j || b j)
  store-slots i [] b = refl
  store-slots zero (c ∷ cs) b = refl
  store-slots (suc i) (c ∷ cs) b =
      store_suc i (get_elem? cs i) _ _
      ∙ ap (◌∷◌ (if b 0 then result_of c else zero_result)) (store-slots i cs (λ j. b (suc j)))

  finish_all-slots :
      (order : List ℕ) (cs : List (Checker D)) (b : ℕ → Bool)
      → finish_all cs order (slots cs b) ≡ slots cs (marks order b)
  unfolding finish_all
  finish_all-slots [] cs b = refl
  finish_all-slots (i ∷ order) cs b =
      ap (finish_all cs order) (store-slots i cs b)
      ∙ finish_all-slots order cs (λ j. same i j || b j)

  no_slots : (cs : List (Checker D)) → replicate (length cs) zero_result ≡ slots cs (λ i. false)
  no_slots [] = refl
  no_slots (c ∷ cs) = ap (◌∷◌ zero_result) (no_slots cs)

  all_slots :
      (cs : List (Checker D)) (b : ℕ → Bool)
      → ((i : ℕ) → i < length cs → b i ≡ true)
      → slots cs b ≡ map result_of cs
  all_slots [] b h = refl
  all_slots (c ∷ cs) b h =
      rw (h 0 (omega arith))
        (ap (◌∷◌ (result_of c)) (all_slots cs (λ i. b (suc i)) (λ i k. h (suc i) (omega arith))))

  -- The slots hold the result of each checker, in the order of the registration, whatever the order
  -- in which the goroutines of all of them store theirs.
  pub run_checks-map :
      (checkers : List (Checker D)) (order : List ℕ)
      → Covers (length checkers) order
      → run_checks checkers order ≡ map result_of checkers
  unfolding run_checks
  run_checks-map checkers order h =
      ap (finish_all checkers order) (no_slots checkers)
      ∙ finish_all-slots order checkers (λ i. false)
      ∙ all_slots checkers (marks order (λ i. false))
          (λ i k. marks_occurs order (λ j. false) i ∙ ground (arith, h i k))

  abbrev pub any_error : List (Checker D) → Bool
  any_error [] = false
  any_error (c ∷ cs) = is_some c.check || any_error cs

  add_result-status :
      (c : Checker D) (resp : HealthResponse D)
      → (add_result (result_of c) resp).status
        ≡ (if is_some c.check then codes "degraded" else resp.status)
  unfolding add_result result_of
  add_result-status c resp = elim (Option-cases c.check) [
    | inl e ↦ rw e refl
    | inr (x, e) ↦ rw e refl
  ]

  add_results-status :
      (cs : List (Checker D)) (resp : HealthResponse D)
      → (add_results (map result_of cs) resp).status
        ≡ (if any_error cs then codes "degraded" else resp.status)
  add_results-status [] resp = refl
  add_results-status (c ∷ cs) resp =
      add_results-status cs (add_result (result_of c) resp)
      ∙ ap (λ s. if any_error cs then codes "degraded" else s) (add_result-status c resp)
      ∙ either_degraded (is_some c.check) (any_error cs) resp.status
    where
      either_degraded :
          (a b : Bool) (s : Text)
          → (if b then codes "degraded" else (if a then codes "degraded" else s))
            ≡ (if a || b then codes "degraded" else s)
      either_degraded true true s = refl
      either_degraded true false s = refl
      either_degraded false true s = refl
      either_degraded false false s = refl

  -- In whatever order the concurrent checks, all of them, store their results, /health answers the
  -- same; and it answers 503 exactly when some check fails, else 200.
  pub handle_health-any_order :
      (checkers : List (Checker D)) (order other : List ℕ)
      → Covers (length checkers) order
      → Covers (length checkers) other
      → (handle_health checkers order ≡ handle_health checkers other)
        × ((handle_health checkers order).code ≡ (if any_error checkers then 503 else 200))
  unfolding handle_health
  handle_health-any_order checkers order other h k =
      let start_of : HealthResponse D = record {
        status = codes "ok";
        checks = [];
        details = some [];
      } in
      (
        ap (λ rs. answer_of (add_results rs start_of))
            (run_checks-map checkers order h ∙ sym (run_checks-map checkers other k)),
        ap (λ rs. (answer_of (add_results rs start_of)).code) (run_checks-map checkers order h)
            ∙ ap (λ s. if text_eq s (codes "ok") then 200 else 503)
                (add_results-status checkers start_of)
            ∙ code_of (any_error checkers),
      )
