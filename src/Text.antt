-- ===== src/Text.antt =====
-- Go strings as lists of code points (valid UTF-8), with the operations of package strings and
-- unicode that the source calls: equality, TrimSpace, ToLower, ToUpper.
pub mod Laws
pub mod Segments
use Prim.Native.Char.{code}
use Prim.Native.String.{String}
use mathlib.Core.List.{reverse}
use trade_pulse.Prelude.{
  ℕ, ◌+◌, ◌-◌, ◌≡◌, refl, ◌↔◌, Bool, true, false, ◌&&◌, ◌||◌, List, [], ◌∷◌, map, arith, ltb, leb,
  ◌==◌, if◌then◌else◌,
}

abbrev pub Text : Type 0
Text = List ℕ

-- The code points of a literal.
abbrev pub codes : String → Text
codes String.[] = []
codes (String.◌∷◌ c s) = code c ∷ codes s

unfoldable pub text_eq : Text → Text → Bool
text_eq [] [] = true
text_eq [] (b ∷ t) = false
text_eq (a ∷ s) [] = false
text_eq (a ∷ s) (b ∷ t) = (a == b) && text_eq s t

pub text_eq_iff : (s t : Text) → (text_eq s t ≡ true) ↔ (s ≡ t)
unfolding text_eq
text_eq_iff [] [] = (λ _. refl, λ _. refl)
text_eq_iff [] (b ∷ t) = (λ h. cc, λ h. cc)
text_eq_iff (a ∷ s) [] = (λ h. cc, λ h. cc)
text_eq_iff (a ∷ s) (b ∷ t) =
    (λ h. ground (arith, (text_eq_iff s t).0), λ h. ground (arith, (text_eq_iff s t).1))

pub text_eq_refl : (s : Text) → text_eq s s ≡ true
text_eq_refl s = (text_eq_iff s s).1 refl

-- unicode.IsSpace
unfoldable pub is_space : ℕ → Bool
is_space c =
    (leb 9 c && leb c 13)
    || c == 0x20
    || c == 0x85
    || c == 0xa0
    || c == 0x1680
    || (leb 0x2000 c && leb c 0x200a)
    || c == 0x2028
    || c == 0x2029
    || c == 0x202f
    || c == 0x205f
    || c == 0x3000

unfoldable pub drop_space : Text → Text
drop_space [] = []
drop_space (c ∷ s) = if is_space c then drop_space s else c ∷ s

-- strings.TrimSpace
unfoldable pub trim_space : Text → Text
unfolding drop_space
trim_space s = reverse (drop_space (reverse (drop_space s)))

-- The Unicode case mappings of the code points from 128 on, which package unicode holds as tables.
pub record Casing : Type 0 where
  pub lower : ℕ → ℕ
  pub upper : ℕ → ℕ

-- unicode.ToLower and unicode.ToUpper
unfoldable pub lower_rune : Casing → ℕ → ℕ
lower_rune t c = if ltb c 128 then (if leb b'A' c && leb c b'Z' then c + 32 else c) else t.lower c

unfoldable pub upper_rune : Casing → ℕ → ℕ
upper_rune t c = if ltb c 128 then (if leb b'a' c && leb c b'z' then c - 32 else c) else t.upper c

-- strings.ToLower and strings.ToUpper
unfoldable pub to_lower : Casing → Text → Text
to_lower t = map (lower_rune t)

unfoldable pub to_upper : Casing → Text → Text
to_upper t = map (upper_rune t)

abbrev pub is_empty : Text → Bool
is_empty [] = true
is_empty (c ∷ s) = false

-- The mappings of ASCII alone, which leave every other code point alone.
abbrev pub ascii_casing : Casing
ascii_casing = record { lower = λ c. c; upper = λ c. c }
