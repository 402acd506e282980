-- ===== src/Model/Float.antt =====
-- `f64` as its 64-bit pattern (`f64::to_bits`), for positions, weather and ranges. The comparisons
-- and the test for finiteness are computed on the pattern, as IEEE 754 defines them. Arithmetic and
-- the transcendental functions are parameters: nothing is assumed of them.
use aster_fsd.Prelude.{ℕ, ◌/◌, ◌%◌, ◌^◌, Bool, true, false, ◌&&◌, not, ltb, leb, ◌==◌, nat_eq}
use aster_fsd.Prelude.Int.{ℤ}

abbrev pub F64 : Type 0
F64 = ℕ

unfoldable pub exponent : F64 → ℕ
exponent x = (x / 2 ^ 52) % 2 ^ 11

-- The pattern without its sign: exponent and mantissa, ordered as the absolute values are.
unfoldable pub magnitude : F64 → ℕ
magnitude x = x % 2 ^ 63

unfoldable pub is_negative : F64 → Bool
is_negative x = (x / 2 ^ 63) % 2 == 1

-- `f64::is_finite`
unfoldable pub is_finite : F64 → Bool
unfolding exponent
is_finite x = not (exponent x == 2047)

unfoldable pub is_nan : F64 → Bool
unfolding magnitude
is_nan x = ltb 0x7ff0000000000000 (magnitude x)

ordered : Bool → Bool → ℕ → ℕ → Bool
ordered false false a b = leb a b
ordered false true a b = a == 0 && b == 0
ordered true false a b = true
ordered true true a b = leb b a

-- `a <= b`: false where one side is not a number; the two zeros are equal.
unfoldable pub le_f64 : F64 → F64 → Bool
unfolding ordered magnitude is_negative is_nan
le_f64 a b =
    not (is_nan a)
    && not (is_nan b)
    && ordered (is_negative a) (is_negative b) (magnitude a) (magnitude b)

-- `a < b`
unfoldable pub lt_f64 : F64 → F64 → Bool
unfolding le_f64
lt_f64 a b = not (is_nan a) && not (is_nan b) && not (le_f64 b a)

-- The operations of `f64` that the routing computes with.
pub record FloatOps : Type 0 where
  pub add : F64 → F64 → F64
  pub sub : F64 → F64 → F64
  pub mul : F64 → F64 → F64
  pub div : F64 → F64 → F64
  pub max_f64 : F64 → F64 → F64
  pub sqrt : F64 → F64
  pub trunc : F64 → F64
  pub sin : F64 → F64
  pub cos : F64 → F64
  pub atan2 : F64 → F64 → F64
  pub powi : F64 → ℕ → F64
  pub to_radians : F64 → F64
  pub from_i32 : ℤ → F64
