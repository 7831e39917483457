-- ===== src/Text/Numbers.antt =====
-- Numbers as text, the way Rust's `format!` writes them and `str::parse` and `from_str_radix` read
-- them.
use code_is_cheap.Common.{
  ℕ, zero, suc, ◌+◌, ◌-◌, ◌*◌, ◌/◌, ◌%◌, ◌&&◌, Option, none, some, [], ◌∷◌, ◌++◌, ltb, leb, ◌==◌,
  if◌then◌else◌, length,
}
use code_is_cheap.Text.{Text, is_ascii_digit}

-- The digits of a number in front of others; `fuel` is more than the number of digits.
unfoldable pub digits_on : ℕ → (ℕ → ℕ) → ℕ → ℕ → Text → Text
digits_on radix show zero n rest = rest
digits_on radix show (suc fuel) n rest =
    let more = digits_on radix show fuel (n / radix) (show (n % radix) ∷ rest) in
    if ltb n radix then show n ∷ rest else more

abbrev pub decimal_digit : ℕ → ℕ
decimal_digit d = b'0' + d

abbrev pub upper_hex_digit : ℕ → ℕ
upper_hex_digit d = if ltb d 10 then b'0' + d else b'A' + (d - 10)

-- `{}` of an unsigned integer.
unfoldable pub decimal : ℕ → Text
unfolding digits_on
decimal n = digits_on 10 decimal_digit (suc n) n []

-- `{:X}`.
unfoldable pub upper_hex : ℕ → Text
unfolding digits_on
upper_hex n = digits_on 16 upper_hex_digit (suc n) n []

abbrev pub zeros : ℕ → Text
zeros zero = []
zeros (suc n) = b'0' ∷ zeros n

-- `{:0width$X}`: at least `width` digits.
unfoldable pub padded_hex : ℕ → ℕ → Text
unfolding upper_hex
padded_hex width n = zeros (width - length (upper_hex n)) ++ upper_hex n

-- The digits of `str::parse` of an unsigned type whose largest value is `max`.
unfoldable pub parse_digits : ℕ → ℕ → Text → Option ℕ
parse_digits max value [] = some value
parse_digits max value (c ∷ s) =
    let next = value * 10 + (c - b'0') in
    let rest = parse_digits max next s in if is_ascii_digit c && leb next max then rest else none

abbrev pub parse_signless : ℕ → Text → Option ℕ
parse_signless max [] = none
parse_signless max (c ∷ s) = parse_digits max 0 (c ∷ s)

-- `str::parse` of an unsigned type: one sign + may stand in front.
unfoldable pub parse_unsigned : ℕ → Text → Option ℕ
unfolding parse_digits
parse_unsigned max [] = none
parse_unsigned max (c ∷ s) = if c == b'+' then parse_signless max s else parse_signless max (c ∷ s)

abbrev pub u16_max : ℕ
u16_max = 0xFFFF

abbrev pub u32_max : ℕ
u32_max = 0xFFFF_FFFF

abbrev pub u64_max : ℕ
u64_max = 0xFFFF_FFFF_FFFF_FFFF
