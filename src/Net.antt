-- ===== src/Net.antt =====
-- `str::parse::<IpAddr>().is_ok()` of Rust's standard library, on which crates/capture-policy
-- relies: the parser of core/net for IPv4 and IPv6 addresses, without the value that it computes.
use code_is_cheap.Common.{
  ℕ, zero, suc, ◌+◌, ◌-◌, ◌*◌, Bool, true, false, not, ◌&&◌, ◌||◌, Option, none, some, [], ◌∷◌, ltb,
  leb, ◌==◌, if◌then◌else◌, is_empty,
}
use code_is_cheap.Text.{Text, is_ascii_digit}

-- `char::to_digit` at the radix 10 or 16.
unfoldable pub to_digit : ℕ → ℕ → Option ℕ
to_digit radix c =
    if is_ascii_digit c
    then some (c - b'0')
    else if radix == 16 && leb b'a' c && leb c b'f'
    then some (c - b'a' + 10)
    else if radix == 16 && leb b'A' c && leb c b'F'
    then some (c - b'A' + 10)
    else none

-- What `read_number` accepts: the radix, the digits allowed, the largest value, a leading zero.
pub record NumberFormat : Type 0 where
  pub radix : ℕ
  pub max_digits : ℕ
  pub max_value : ℕ
  pub allow_zero_prefix : Bool

-- The digits at the head of the text: how many, and what follows. `none` is an overflow of the
-- value or of the number of digits.
unfoldable pub read_digits : NumberFormat → ℕ → ℕ → Text → Option (ℕ × Text)
unfolding to_digit
read_digits format result digit_count [] = some (digit_count, [])
read_digits format result digit_count (c ∷ s) = elim (to_digit format.radix c) [
  | none ↦ some (digit_count, c ∷ s)
  | some digit ↦
      let value = result * format.radix + digit in
      let rest = read_digits format value (digit_count + 1) s in
      if ltb format.max_value value || ltb format.max_digits (digit_count + 1) then none else rest
]

abbrev starts_with_zero : Text → Bool
starts_with_zero [] = false
starts_with_zero (c ∷ s) = c == b'0'

unfoldable pub read_number : NumberFormat → Text → Option Text
unfolding read_digits
read_number format s = elim (read_digits format 0 0 s) [
  | none ↦ none
  | some (digit_count, rest) ↦
      if digit_count == 0
      then none
      else if not format.allow_zero_prefix && starts_with_zero s && ltb 1 digit_count
      then none
      else some rest
]

abbrev octet : NumberFormat
octet = record { radix = 10; max_digits = 3; max_value = 255; allow_zero_prefix = false }

abbrev group : NumberFormat
group = record { radix = 16; max_digits = 4; max_value = 65535; allow_zero_prefix = true }

unfoldable pub read_given_char : ℕ → Text → Option Text
read_given_char c [] = none
read_given_char c (d ∷ s) = if d == c then some s else none

-- `read_separator`: the separator stands before every item but the first.
unfoldable pub read_separator : ℕ → ℕ → Text → Option Text
unfolding read_given_char
read_separator sep zero s = some s
read_separator sep (suc index) s = read_given_char sep s

abbrev then_read : Option Text → (Text → Option Text) → Option Text
then_read none f = none
then_read (some s) f = f s

-- The octets that are left, from the one of this index.
unfoldable pub read_octets : ℕ → ℕ → Text → Option Text
unfolding read_separator read_number
read_octets zero index s = some s
read_octets (suc left) index s =
    then_read (then_read (read_separator b'.' index s) (read_number octet))
      (read_octets left (index + 1))

unfoldable pub read_ipv4_addr : Text → Option Text
unfolding read_octets
read_ipv4_addr s = read_octets 4 0 s

-- `read_groups` with `left` groups to go: the groups read, whether an IPv4 address ended them, and
-- what follows.
unfoldable pub read_groups : ℕ → ℕ → Text → ℕ × Bool × Text
unfolding read_separator read_number read_ipv4_addr
read_groups zero index s = (index, false, s)
read_groups (suc left) index s =
    elim (if left == 0 then none else then_read (read_separator b':' index s) read_ipv4_addr) [
      | some rest ↦ (index + 2, true, rest)
      | none ↦ elim (then_read (read_separator b':' index s) (read_number group)) [
        | some rest ↦ read_groups left (index + 1) rest
        | none ↦ (index, false, s)
      ]
    ]

-- Behind the first groups: all eight of them, or `::` and the groups at the back.
abbrev read_ipv6_tail : ℕ × Bool × Text → Option Text
read_ipv6_tail (head_size, head_ipv4, s) =
    if head_size == 8
    then some s
    else if head_ipv4
    then none
    else then_read (then_read (read_given_char b':' s) (read_given_char b':'))
        λ r. let (tail_size, tail_ipv4, rest) = read_groups (8 - (head_size + 1)) 0 r in some rest

unfoldable pub read_ipv6_addr : Text → Option Text
unfolding read_groups read_given_char
read_ipv6_addr s = read_ipv6_tail (read_groups 8 0 s)

unfoldable pub is_ip_addr : Text → Bool
unfolding read_ipv4_addr read_ipv6_addr
is_ip_addr s = elim (read_ipv4_addr s) [
  | some rest ↦ is_empty rest
  | none ↦ elim (read_ipv6_addr s) [ some rest ↦ is_empty rest | none ↦ false ]
]
