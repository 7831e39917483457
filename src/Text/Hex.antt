-- ===== src/Text/Hex.antt =====
-- Hexadecimal digits: reading what `{:0width$X}` wrote, and how long it is.
use code_is_cheap.Common.{
  ℕ, zero, suc, ◌+◌, ◌-◌, ◌*◌, ◌/◌, ◌%◌, ◌^◌, ◌≤◌, ◌<◌, ◌≡◌, refl, ap, ◌∙◌, inl, inr, Option, none,
  some, [], ◌∷◌, ◌++◌, ltb, length, length-append, arith, Bool-cases,
}
use code_is_cheap.Text.{Text}
use code_is_cheap.Text.Numbers.{digits_on, upper_hex_digit, upper_hex, zeros, padded_hex}
use code_is_cheap.Net.{to_digit}

-- `u64::from_str_radix` of digits, without its bound, in front of which `value` was read.
unfoldable pub read_hex : ℕ → Text → Option ℕ
unfolding to_digit
read_hex value [] = some value
read_hex value (c ∷ s) = elim (to_digit 16 c) [
  | none ↦ none
  | some digit ↦ read_hex (value * 16 + digit) s
]

to_digit-upper : (d : ℕ) → d < 16 → to_digit 16 (upper_hex_digit d) ≡ some d
unfolding to_digit
to_digit-upper d h = ground arith

read_hex-digit :
    (v d : ℕ) (s : Text) → d < 16 → read_hex v (upper_hex_digit d ∷ s) ≡ read_hex (v * 16 + d) s
unfolding read_hex
read_hex-digit v d s h = rw (to_digit-upper d h, read_hex) refl

read_hex-digits :
    (fuel n : ℕ) (rest : Text)
    → n < fuel
    → read_hex 0 (digits_on 16 upper_hex_digit fuel n rest) ≡ read_hex n rest
unfolding digits_on
read_hex-digits zero n rest h = absurd (omega arith)
read_hex-digits (suc fuel) n rest h = elim (Bool-cases (ltb n 16)) [
  | inl e ↦ rw e (
      read_hex-digit 0 n rest (ground (arith, e))
      ∙ ap (λ k. read_hex k rest) (let q : 0 * 16 + n ≡ n = omega arith in q))
  | inr e ↦ rw e (
      read_hex-digits fuel (n / 16) (upper_hex_digit (n % 16) ∷ rest) (ground (arith, e, h))
      ∙ read_hex-digit (n / 16) (n % 16) rest (omega arith)
      ∙ ap (λ k. read_hex k rest) (let q : n / 16 * 16 + n % 16 ≡ n = omega arith in q))
]

read_hex-zeros : (k : ℕ) (s : Text) → read_hex 0 (zeros k ++ s) ≡ read_hex 0 s
unfolding read_hex
read_hex-zeros zero s = refl
read_hex-zeros (suc k) s = read_hex-zeros k s

pub read_hex-padded_hex : (width n : ℕ) → read_hex 0 (padded_hex width n) ≡ some n
unfolding padded_hex upper_hex read_hex
read_hex-padded_hex width n =
    read_hex-zeros (width - length (upper_hex n)) (upper_hex n)
    ∙ read_hex-digits (suc n) n [] (omega arith)

length-digits :
    (k fuel n : ℕ) (rest : Text)
    → n < 16 ^ suc k
    → length (digits_on 16 upper_hex_digit fuel n rest) ≤ suc k + length rest
unfolding digits_on
length-digits k zero n rest h = omega arith
length-digits zero (suc fuel) n rest h = ground arith
length-digits (suc k) (suc fuel) n rest h =
    ground (arith, length-digits k fuel (n / 16) (upper_hex_digit (n % 16) ∷ rest))

length-zeros : (k : ℕ) → length (zeros k) ≡ k
length-zeros zero = refl
length-zeros (suc k) = omega (arith, length-zeros k)

pub length-padded_hex : (k n : ℕ) → n < 16 ^ suc k → length (padded_hex (suc k) n) ≡ suc k
unfolding padded_hex upper_hex
length-padded_hex k n h =
    length-append (zeros (suc k - length (upper_hex n))) (upper_hex n)
    ∙ omega (arith, length-zeros (suc k - length (upper_hex n)), length-digits k (suc n) n [] h)
