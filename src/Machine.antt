-- ===== src/Machine.antt =====
-- Go's machine types as the source uses them: int64 with its wrap-around, time.Duration,
-- time.Time, and float64 by its bit pattern.
use trade_pulse.Prelude.{
  ℕ, ◌+◌, ◌-◌, ◌*◌, ◌/◌, ◌%◌, ◌^◌, ◌<◌, ◌≡◌, refl, Bool, ◌&&◌, ◌||◌, not, arith, ltb, ◌==◌,
  if◌then◌else◌,
}
use trade_pulse.Prelude.Int.{ℤ, pos, negsuc, sub_ℕ, ◌+ℤ◌, ltb_ℤ}

-- The int64 that has the low 64 bits of an integer.
of_bits : ℕ → ℤ
of_bits b = if ltb b (2 ^ 63) then pos b else negsuc (2 ^ 64 - 1 - b)

unfoldable pub wrap64 : ℤ → ℤ
unfolding of_bits
wrap64 (pos n) = of_bits (n % 2 ^ 64)
wrap64 (negsuc n) = of_bits (2 ^ 64 - 1 - n % 2 ^ 64)

-- `a + b` on int64.
unfoldable pub add64 : ℤ → ℤ → ℤ
add64 a b = wrap64 (a +ℤ b)

abbrev pub leb_ℤ : ℤ → ℤ → Bool
leb_ℤ a b = not (ltb_ℤ b a)

-- The values of an int64.
abbrev pub IsInt64 : ℤ → Type 0
IsInt64 (pos n) = n < 2 ^ 63
IsInt64 (negsuc n) = n < 2 ^ 63

pub wrap64-eq : (z : ℤ) → IsInt64 z → wrap64 z ≡ z
unfolding wrap64
wrap64-eq (pos n) h = ground arith
wrap64-eq (negsuc n) h = ground arith

-- time.Duration is an int64 of nanoseconds.
abbrev pub Duration : Type 0
Duration = ℤ

abbrev pub second : ℕ
second = 1_000_000_000

-- time.Time as the nanoseconds since its zero value, 1 January of year 1 (UTC).
abbrev pub Time : Type 0
Time = ℕ

abbrev pub zero_time : Time
zero_time = 0

abbrev pub unix_epoch : Time
unix_epoch = 62135596800 * second

-- time.UnixMilli of a positive argument.
unfoldable pub unix_milli : ℕ → Time
unix_milli ms = unix_epoch + ms * 1_000_000

-- Time.IsZero
abbrev pub is_zero_time : Time → Bool
is_zero_time t = t == 0

-- Time.Sub: the difference, saturated to an int64.
unfoldable pub time_sub : Time → Time → Duration
time_sub a b =
    if ltb (2 ^ 63 - 1 + b) a
    then pos (2 ^ 63 - 1)
    else if ltb (2 ^ 63 + a) b
    then negsuc (2 ^ 63 - 1)
    else sub_ℕ a b

-- float64 as its IEEE 754 bit pattern: sign, 11 bits of exponent, 52 of mantissa.
abbrev pub Float64 : Type 0
Float64 = ℕ

abbrev pub float_zero : Float64
float_zero = 0

unfoldable pub exponent : Float64 → ℕ
exponent x = x / 2 ^ 52 % 2 ^ 11

unfoldable pub mantissa : Float64 → ℕ
mantissa x = x % 2 ^ 52

unfoldable pub is_negative : Float64 → Bool
is_negative x = x / 2 ^ 63 % 2 == 1

-- Infinities and NaN have the largest exponent.
unfoldable pub is_finite : Float64 → Bool
unfolding exponent
is_finite x = not (exponent x == 2047)

unfoldable pub is_nan : Float64 → Bool
unfolding exponent mantissa
is_nan x = exponent x == 2047 && not (mantissa x == 0)

-- `x == 0`, true of both zeros.
unfoldable pub float_is_zero : Float64 → Bool
float_is_zero x = x % 2 ^ 63 == 0

-- `x <= 0`, false of NaN.
unfoldable pub float_le_zero : Float64 → Bool
unfolding is_nan is_negative float_is_zero
float_le_zero x = not (is_nan x) && (is_negative x || float_is_zero x)

-- A quiet NaN, one and minus one.
abbrev pub quiet_nan : Float64
quiet_nan = 0x7ff8000000000000

abbrev pub float_one : Float64
float_one = 0x3ff0000000000000

float_tests :
    (float_le_zero quiet_nan ≡ Bool.false)
    × (float_le_zero float_one ≡ Bool.false)
    × (float_le_zero 0xbff0000000000000 ≡ Bool.true)
    × (float_le_zero 0 ≡ Bool.true)
unfolding float_le_zero
float_tests = (refl, refl, refl, refl)

pub wrap64-add : (z y : ℤ) → wrap64 (wrap64 z +ℤ y) ≡ wrap64 (z +ℤ y)
unfolding wrap64 ◌+ℤ◌
wrap64-add z y = ground arith
