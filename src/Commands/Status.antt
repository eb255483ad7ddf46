-- ===== src/Commands/Status.antt =====
-- When a process exits with 0.
use trade_pulse.Prelude.{
  ◌≡◌, refl, subst, ◌↔◌, ◌⊎◌, inl, inr, Bool, true, false, List, [], ◌∷◌, Option, none, some, arith,
}
use trade_pulse.Text.{Text, codes, is_empty}
use trade_pulse.Config.{Config, Viper, LoadError, load}
use trade_pulse.HttpServer.{Ending, StartError, start, run_public}
use trade_pulse.Api
use trade_pulse.Api.Degrades.{api_run-none}
use trade_pulse.Runtime
use trade_pulse.Runtime.{IsWait}
use trade_pulse.Commands.{
  ComponentError, ops_error, service_error, fatal, main, Outer, Inner, api_service,
}

ops_error-none {ℓ} :
    {E : Type ℓ} (r : Option StartError) → (ops_error {E = E} r ≡ none) ↔ (r ≡ none)
ops_error-none none = ((λ h. refl), λ h. refl)
ops_error-none (some e) = ((λ h. absurd (ground arith)), λ h. absurd (ground arith))

service_error-none {ℓ} : {E : Type ℓ} (r : Option E) → (service_error r ≡ none) ↔ (r ≡ none)
service_error-none none = ((λ h. refl), λ h. refl)
service_error-none (some e) = ((λ h. absurd (ground arith)), λ h. absurd (ground arith))

fatal-none {ℓ} : {E : Type ℓ} (r : Option (ComponentError E)) → (fatal r ≡ 0) ↔ (r ≡ none)
fatal-none none = ((λ h. refl), λ h. refl)
fatal-none (some e) = ((λ h. absurd (omega arith)), λ h. absurd (ground arith))

-- Both components returned nil, or a signal had come.
abbrev pub EndsWell {ℓ} : {E : Type ℓ} → Bool → Ending → Option E → Type ℓ
EndsWell cancelled ops r = (cancelled ≡ true) ⊎ ((start ops ≡ none) × (r ≡ none))

ends_well {ℓ} :
    {E : Type ℓ} (outer : List (Option (ComponentError E)) → Option (ComponentError E))
    (cancelled : Bool) (ops : Ending) (r : Option E)
    → IsWait outer
    → (fatal (Runtime.run outer cancelled (ops_error (start ops) ∷ service_error r ∷ [])) ≡ 0)
      ↔ EndsWell cancelled ops r
ends_well outer cancelled ops r h =
    let results = ops_error (start ops) ∷ service_error r ∷ [] in
    let code = fatal-none (Runtime.run outer cancelled results) in
    let (to, from) = Runtime.run-none outer cancelled results h in
    let ops_none = ops_error-none (start ops) in
    let service_none = service_error-none r in
    (
      λ k. elim (to (code.0 k)) [
        | inl c ↦ inl c
        | inr all ↦ inr (ops_none.0 all.0, service_none.0 all.1.0)
      ],
      λ k. code.1 (elim k [
        | inl c ↦ from (inl c)
        | inr both ↦ from (inr (ops_none.1 both.0, (service_none.1 both.1, tt)))
      ]),
    )

abbrev loaded_as : Config → LoadError ⊎ Config
loaded_as cfg = inr cfg

same_config : (cfg other : Config) → loaded_as cfg ≡ loaded_as other → other ≡ cfg
same_config cfg other h = cc

-- A process exits with 0 exactly where its configuration loads and, unless a signal had come when its
-- components have ended, the ops server and the service returned nil. (Wait returns nil exactly
-- when all functions do.)
pub main-EndsWell {ℓ} :
    {E : Type ℓ} (outer : List (Option (ComponentError E)) → Option (ComponentError E))
    (cancelled : Bool) (ops : Ending) (run : Config → Option E) (loaded : LoadError ⊎ Config)
    → IsWait outer
    → (main outer cancelled ops run loaded ≡ 0)
      ↔ ((cfg : Config) × (loaded ≡ inr cfg) × EndsWell cancelled ops (run cfg))
unfolding main
main-EndsWell outer cancelled ops run (inl e) h =
    ((λ k. absurd (omega arith)), λ (cfg, k, w). absurd (ground arith))
main-EndsWell outer cancelled ops run (inr cfg) h =
    let well = ends_well outer cancelled ops (run cfg) h in
    (
      λ k. (cfg, refl, well.0 k),
      λ (other, e, w).
          well.1 (subst (λ x. EndsWell cancelled ops (run x)) (same_config cfg other e) w),
    )

-- The process of api-service exits with 0 exactly where its configuration loads and, unless a signal
-- had come when its components have ended, the ops server returned nil, a Redis address is
-- configured and the public server returned nil, whatever the broker. (Wait returns nil exactly
-- when all functions do.)
pub api_service-zero :
    {V : Type 0} (viper : Viper V) (cancelled : Bool) (ops : Ending) (outer : Outer Api.RunError)
    (inner : Inner Api.RunError) (client : Option Text) (public : Ending)
    → IsWait outer
    → IsWait inner
    → (api_service viper cancelled ops outer inner client public ≡ 0) ↔ (
        (cfg : Config) × (load viper (codes "api-service") ≡ inr cfg)
        × ((cancelled ≡ true)
            ⊎ ((start ops ≡ none)
                × (is_empty cfg.redis.addr ≡ false)
                × (run_public public ≡ none))))
unfolding api_service
api_service-zero viper cancelled ops outer inner client public h k =
    let loaded = load viper (codes "api-service") in
    let (to, from) =
      main-EndsWell outer cancelled ops (λ cfg. Api.run inner cfg client public) loaded h in
    (
      λ z.
          let (cfg, e, well) = to z in
          (
            cfg,
            e,
            elim well [
              | inl c ↦ inl c
              | inr (ops_none, r) ↦
                  let (full, served) = (api_run-none inner cfg client public k).0 r in
                  inr (ops_none, full, served)
            ],
          ),
      λ (cfg, e, well). from (
        cfg,
        e,
        elim well [
          | inl c ↦ inl c
          | inr (ops_none, full, served) ↦
              inr (ops_none, (api_run-none inner cfg client public k).1 (full, served))
        ],
      ),
    )
