-- ===== src/Floats.antt =====
-- The floating-point numbers of the source, f32 and f64, as far as it tests and compares them.
use code_is_cheap.Common.{ℕ, ◌+◌, ◌*◌, ◌^◌, Bool, true, false, not, ◌&&◌, ◌||◌, leb, ltb, ◌==◌}

-- `finite negative mantissa exponent` is the number mantissa * 2 ^ exponent / 2 ^ 1074.
pub data Float : Type 0 where
  nan : Float
  infinite : Bool → Float
  finite : Bool → ℕ → ℕ → Float

unfoldable pub is_finite : Float → Bool
is_finite (finite negative mantissa exponent) = true
is_finite _ = false

-- `(0.0..=1.0).contains`
unfoldable pub in_unit : Float → Bool
in_unit (finite negative mantissa exponent) =
    (not negative || mantissa == 0) && leb (mantissa * 2 ^ exponent) (2 ^ 1074)
in_unit _ = false

-- `< 0.0`
unfoldable pub is_negative : Float → Bool
is_negative nan = false
is_negative (infinite negative) = negative
is_negative (finite negative mantissa exponent) = negative && not (mantissa == 0)

abbrev pub magnitude : ℕ → ℕ → ℕ
magnitude mantissa exponent = mantissa * 2 ^ exponent

-- `<`, which no comparison with a NaN satisfies.
unfoldable pub is_less : Float → Float → Bool
is_less nan y = false
is_less (infinite negative) nan = false
is_less (infinite negative) (infinite negative') = negative && not negative'
is_less (infinite negative) (finite negative' m e) = negative
is_less (finite negative m e) nan = false
is_less (finite negative m e) (infinite negative') = not negative'
is_less (finite false m e) (finite false m' e') = ltb (magnitude m e) (magnitude m' e')
is_less (finite true m e) (finite true m' e') = ltb (magnitude m' e') (magnitude m e)
is_less (finite true m e) (finite false m' e') = ltb 0 (magnitude m e + magnitude m' e')
is_less (finite false m e) (finite true m' e') = false
