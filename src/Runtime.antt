-- ===== src/Runtime.antt =====
-- shared/runtime/runtime.go: Run, over what its components return. The group that runs them is
-- errgroup's: `wait` is what its Wait returns, given what the functions return in the order in which
-- they end.
use trade_pulse.Prelude.{
  ◌≡◌, refl, ◌↔◌, ◌⊎◌, inl, inr, Bool, true, false, not, List, Option, none, some, arith, All,
  if◌then◌else◌,
}

module _ {ℓ} {E : Type ℓ} where
  -- Wait returns nil if all functions do, else an error that one of them returned.
  pub record IsWait (wait : List (Option E) → Option E) : Type ℓ where
    pub all_nil : (rs : List (Option E)) → All (λ r. r ≡ none) rs → wait rs ≡ none
    pub some_error : (rs : List (Option E)) → wait rs ≡ none → All (λ r. r ≡ none) rs

  abbrev pub unless_cancelled : Bool → Option E → Option E
  unless_cancelled cancelled none = none
  unless_cancelled cancelled (some e) = if not cancelled then some e else none

  -- `cancelled` is whether ctx, the caller's, is cancelled when the group has ended.
  unfoldable pub run : (List (Option E) → Option E) → Bool → List (Option E) → Option E
  run wait cancelled results = unless_cancelled cancelled (wait results)

  unless_cancelled_iff :
      (cancelled : Bool) (r : Option E)
      → (unless_cancelled cancelled r ≡ none) ↔ ((cancelled ≡ true) ⊎ (r ≡ none))
  unless_cancelled_iff cancelled none = (λ h. inr refl, λ h. refl)
  unless_cancelled_iff true (some e) = (λ h. inl refl, λ h. refl)
  unless_cancelled_iff false (some e) = (λ h. absurd (ground arith), λ h. absurd (ground arith))

  -- Run returns nil exactly when the caller's context is cancelled or every component returned
  -- nil: no failure of a component is taken for a clean shutdown. (Wait returns nil exactly when
  -- all functions do.)
  pub run-none :
      (wait : List (Option E) → Option E) (cancelled : Bool) (results : List (Option E))
      → IsWait wait
      → (run wait cancelled results ≡ none) ↔ ((cancelled ≡ true) ⊎ All (λ r. r ≡ none) results)
  unfolding run
  run-none wait cancelled results h =
      let (to, from) = unless_cancelled_iff cancelled (wait results) in
      (
        λ k. elim (to k) [ inl c ↦ inl c | inr c ↦ inr (h.some_error results c) ],
        λ k. elim k [ inl c ↦ from (inl c) | inr c ↦ from (inr (h.all_nil results c)) ],
      )
