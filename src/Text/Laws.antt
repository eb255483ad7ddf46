-- ===== src/Text/Laws.antt =====
-- Trimming and case mapping: both are idempotent, and they commute.
use mathlib.Core.List.{reverse, reverse-reverse, reverse-cons, reverse-append, map-append}
use mathlib.Core.Path.{ap₂}
use trade_pulse.Prelude.{
  ℕ, ◌+◌, ◌-◌, ◌≤◌, ◌≡◌, refl, sym, ap, ◌∙◌, inl, inr, ◌++◌, false, [], ◌∷◌, map, arith, Bool-cases,
}
use trade_pulse.Text.{
  Text, Casing, is_space, drop_space, trim_space, lower_rune, upper_rune, to_lower, to_upper,
  ascii_casing,
}

-- No leading space.
abbrev IsFlush : Text → Type 0
IsFlush [] = Unit
IsFlush (c ∷ s) = is_space c ≡ false

drop_space_fixed : (s : Text) → IsFlush s → drop_space s ≡ s
unfolding drop_space
drop_space_fixed [] h = refl
drop_space_fixed (c ∷ s) h = rw h

drop_space-IsFlush : (s : Text) → IsFlush (drop_space s)
unfolding drop_space
drop_space-IsFlush [] = tt
drop_space-IsFlush (c ∷ s) = elim (Bool-cases (is_space c)) [
  | inl e ↦ rw e (drop_space-IsFlush s)
  | inr e ↦ rw e e
]

drop_space-concat :
    (s : Text) (c : ℕ) → is_space c ≡ false → drop_space (s ++ c ∷ []) ≡ drop_space s ++ c ∷ []
unfolding drop_space
drop_space-concat [] c h = rw h
drop_space-concat (x ∷ s) c h = elim (Bool-cases (is_space x)) [
  | inl e ↦ rw e (drop_space-concat s c h)
  | inr e ↦ rw e
]

-- What is trimmed at the end stays flush at the start.
trim_end-IsFlush : (s : Text) → IsFlush s → IsFlush (reverse (drop_space (reverse s)))
trim_end-IsFlush [] h = unfold drop_space in tt
trim_end-IsFlush (c ∷ s) h =
    rw
      (
        reverse-cons c s,
        drop_space-concat (reverse s) c h,
        reverse-append (drop_space (reverse s)) (c ∷ []),
      )
      h

pub trim_space_idem : (s : Text) → trim_space (trim_space s) ≡ trim_space s
unfolding trim_space
trim_space_idem s =
    let u = drop_space s in
    let v = drop_space (reverse u) in
    rw (
      drop_space_fixed (reverse v) (trim_end-IsFlush u (drop_space-IsFlush s)),
      reverse-reverse v,
      drop_space_fixed v (drop_space-IsFlush (reverse u)),
    )

-- A mapping under which spaces, and only they, are spaces.
abbrev pub KeepsSpaces : (ℕ → ℕ) → Type 0
KeepsSpaces f = (c : ℕ) → is_space (f c) ≡ is_space c

module _ (f : ℕ → ℕ) (keeps : KeepsSpaces f) where
  reverse-map : (s : Text) → reverse (map f s) ≡ map f (reverse s)
  reverse-map [] = refl
  reverse-map (c ∷ s) =
      rw (reverse-cons (f c) (map f s), reverse-map s, reverse-cons c s)
        (sym (map-append f (reverse s) (c ∷ [])))

  drop_space-map : (s : Text) → drop_space (map f s) ≡ map f (drop_space s)
  unfolding drop_space
  drop_space-map [] = refl
  drop_space-map (c ∷ s) = elim (Bool-cases (is_space c)) [
    | inl e ↦ rw (keeps c, e) (drop_space-map s)
    | inr e ↦ rw (keeps c, e)
  ]

  pub trim_space-map : (s : Text) → trim_space (map f s) ≡ map f (trim_space s)
  unfolding trim_space
  trim_space-map s = rw (
    drop_space-map s,
    reverse-map (drop_space s),
    drop_space-map (reverse (drop_space s)),
    reverse-map (drop_space (reverse (drop_space s))),
  )

-- What the Unicode tables give for the code points that they hold.
pub record IsCasing (t : Casing) : Type 0 where
  pub lower_twice : (c : ℕ) → 128 ≤ c → lower_rune t (t.lower c) ≡ t.lower c
  pub upper_twice : (c : ℕ) → 128 ≤ c → upper_rune t (t.upper c) ≡ t.upper c
  pub lower_space : (c : ℕ) → 128 ≤ c → is_space (t.lower c) ≡ is_space c
  pub upper_space : (c : ℕ) → 128 ≤ c → is_space (t.upper c) ≡ is_space c

letter_no_space : (c : ℕ) → 65 ≤ c → c ≤ 122 → is_space c ≡ false
unfolding is_space
letter_no_space c h k = ground arith

module _ (t : Casing) (h : IsCasing t) where
  lower_rune_idem : (c : ℕ) → lower_rune t (lower_rune t c) ≡ lower_rune t c
  unfolding lower_rune
  lower_rune_idem c = ground (arith, h.lower_twice c)

  upper_rune_idem : (c : ℕ) → upper_rune t (upper_rune t c) ≡ upper_rune t c
  unfolding upper_rune
  upper_rune_idem c = ground (arith, h.upper_twice c)

  pub lower_rune-KeepsSpaces : KeepsSpaces (lower_rune t)
  unfolding lower_rune
  lower_rune-KeepsSpaces c =
      ground (arith, h.lower_space c, letter_no_space c, letter_no_space (c + 32))

  pub upper_rune-KeepsSpaces : KeepsSpaces (upper_rune t)
  unfolding upper_rune
  upper_rune-KeepsSpaces c =
      ground (arith, h.upper_space c, letter_no_space c, letter_no_space (c - 32))

  pub to_lower_idem : (s : Text) → to_lower t (to_lower t s) ≡ to_lower t s
  unfolding to_lower
  to_lower_idem [] = refl
  to_lower_idem (c ∷ s) = ap₂ ◌∷◌ (lower_rune_idem c) (to_lower_idem s)

  pub to_upper_idem : (s : Text) → to_upper t (to_upper t s) ≡ to_upper t s
  unfolding to_upper
  to_upper_idem [] = refl
  to_upper_idem (c ∷ s) = ap₂ ◌∷◌ (upper_rune_idem c) (to_upper_idem s)

  trim-to_lower : (s : Text) → trim_space (to_lower t s) ≡ to_lower t (trim_space s)
  unfolding to_lower
  trim-to_lower = trim_space-map (lower_rune t) lower_rune-KeepsSpaces

  trim-to_upper : (s : Text) → trim_space (to_upper t s) ≡ to_upper t (trim_space s)
  unfolding to_upper
  trim-to_upper = trim_space-map (upper_rune t) upper_rune-KeepsSpaces

  -- A symbol that was trimmed and mapped to one case is left alone by doing both again.
  pub lower-trim_idem :
      (s : Text) → to_lower t (trim_space (to_lower t (trim_space s))) ≡ to_lower t (trim_space s)
  lower-trim_idem s =
      ap (to_lower t) (trim-to_lower (trim_space s))
      ∙ to_lower_idem (trim_space (trim_space s))
      ∙ ap (to_lower t) (trim_space_idem s)

  pub upper-trim_idem :
      (s : Text) → to_upper t (trim_space (to_upper t (trim_space s))) ≡ to_upper t (trim_space s)
  upper-trim_idem s =
      ap (to_upper t) (trim-to_upper (trim_space s))
      ∙ to_upper_idem (trim_space (trim_space s))
      ∙ ap (to_upper t) (trim_space_idem s)

pub ascii_casing-IsCasing : IsCasing ascii_casing
unfolding lower_rune upper_rune
ascii_casing-IsCasing = record {
  lower_twice = λ c h. ground arith;
  upper_twice = λ c h. ground arith;
  lower_space = λ c h. refl;
  upper_space = λ c h. refl;
}
