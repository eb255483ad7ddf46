-- ===== src/Text/Segments.antt =====
-- The segments of a path between its slashes.
use trade_pulse.Prelude.{
  ℕ, ◌≡◌, refl, ap, ◌∙◌, arith, Bool, true, false, List, [], ◌∷◌, ◌++◌, ◌==◌, if◌then◌else◌,
  Bool-cases, inl, inr,
}
use trade_pulse.Text.{Text}

abbrev pub has_slash : Text → Bool
has_slash [] = false
has_slash (c ∷ cs) = let rest = has_slash cs in if c == 47 then true else rest

-- A character in front of the first segment.
abbrev pub in_front : ℕ → List Text → List Text
in_front c [] = (c ∷ []) ∷ []
in_front c (s ∷ ss) = (c ∷ s) ∷ ss

abbrev pub before : ℕ → List Text → List Text
before c ss = if c == 47 then [] ∷ ss else in_front c ss

-- The segments between the slashes.
unfoldable pub segments : Text → List Text
segments [] = [] ∷ []
segments (c ∷ cs) = before c (segments cs)

-- Segments behind a text.
abbrev pub after : Text → List Text → List Text
after [] ss = ss
after (c ∷ cs) ss = before c (after cs ss)

pub segments-after : (a b : Text) → segments (a ++ b) ≡ after a (segments b)
unfolding segments
segments-after [] b = refl
segments-after (c ∷ cs) b = ap (before c) (segments-after cs b)

pub one_segment : (s : Text) → has_slash s ≡ false → segments s ≡ s ∷ []
unfolding segments
one_segment [] h = refl
one_segment (c ∷ cs) h = elim (Bool-cases (c == 47)) [
  | inl e ↦ ground arith
  | inr e ↦ ap (before c) (one_segment cs (ground arith)) ∙ rw e refl
]
