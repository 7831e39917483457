-- ===== src/Text.antt =====
-- What the program uses of Rust's `str`, `char` and `u8`. A text is the list of its code points;
-- where the source looks at bytes, the text is encoded by `utf8` first.
pub mod Laws
pub mod Numbers
pub mod Bounds
pub mod Hex
pub mod Utf8
pub mod Lines
pub mod Distinct
use Prim.Native.Char.{code}
use code_is_cheap.Common.{
  ℕ, ◌+◌, ◌-◌, ◌*◌, ◌/◌, ◌%◌, String, Bool, true, false, not, ◌&&◌, ◌||◌, Option, List, [], ◌∷◌,
  ◌++◌, map, ltb, leb, ◌==◌, if◌then◌else◌, length, any,
}

abbrev pub Text : Type 0
Text = List ℕ

-- The text of a literal.
abbrev pub text : String → Text
text String.[] = []
text (String.◌∷◌ c s) = code c ∷ text s

-- `==` on strings.
unfoldable pub text_eq : Text → Text → Bool
text_eq [] [] = true
text_eq [] (d ∷ t) = false
text_eq (c ∷ s) [] = false
text_eq (c ∷ s) (d ∷ t) = c == d && text_eq s t

unfoldable pub utf8_char : ℕ → List ℕ
utf8_char c =
    if ltb c 0x80
    then c ∷ []
    else if ltb c 0x800
    then (0xC0 + c / 64) ∷ (0x80 + c % 64) ∷ []
    else if ltb c 0x10000
    then (0xE0 + c / 4096) ∷ (0x80 + c / 64 % 64) ∷ (0x80 + c % 64) ∷ []
    else (0xF0 + c / 262144) ∷ (0x80 + c / 4096 % 64) ∷ (0x80 + c / 64 % 64) ∷ (0x80 + c % 64) ∷ []

-- `str::as_bytes`.
unfoldable pub utf8 : Text → List ℕ
unfolding utf8_char
utf8 [] = []
utf8 (c ∷ s) = utf8_char c ++ utf8 s

-- `str::len`, in bytes.
unfoldable pub byte_len : Text → ℕ
unfolding utf8
byte_len s = length (utf8 s)

abbrev pub is_ascii_uppercase : ℕ → Bool
is_ascii_uppercase c = leb b'A' c && leb c b'Z'

abbrev pub is_ascii_lowercase : ℕ → Bool
is_ascii_lowercase c = leb b'a' c && leb c b'z'

abbrev pub is_ascii_digit : ℕ → Bool
is_ascii_digit c = leb b'0' c && leb c b'9'

unfoldable pub is_ascii_alphanumeric : ℕ → Bool
is_ascii_alphanumeric c = is_ascii_uppercase c || is_ascii_lowercase c || is_ascii_digit c

-- `char::is_whitespace`: the code points with the property White_Space.
unfoldable pub is_whitespace : ℕ → Bool
is_whitespace c =
    (leb 9 c && leb c 13)
    || c == 32
    || c == 0x85
    || c == 0xA0
    || c == 0x1680
    || (leb 0x2000 c && leb c 0x200A)
    || c == 0x2028
    || c == 0x2029
    || c == 0x202F
    || c == 0x205F
    || c == 0x3000

unfoldable pub char_to_ascii_lowercase : ℕ → ℕ
char_to_ascii_lowercase c = if is_ascii_uppercase c then c + 32 else c

unfoldable pub to_ascii_lowercase : Text → Text
unfolding char_to_ascii_lowercase
to_ascii_lowercase = map char_to_ascii_lowercase

unfoldable pub eq_ignore_ascii_case : Text → Text → Bool
unfolding to_ascii_lowercase text_eq
eq_ignore_ascii_case a b = text_eq (to_ascii_lowercase a) (to_ascii_lowercase b)

-- `str::trim_start_matches` and `str::trim_end_matches`, by a test on characters.
unfoldable pub trim_start_matches : (ℕ → Bool) → Text → Text
trim_start_matches p [] = []
trim_start_matches p (c ∷ s) = let rest = trim_start_matches p s in if p c then rest else c ∷ s

-- `c` stands before what is left of its tail.
abbrev pub keep_before : (ℕ → Bool) → ℕ → Text → Text
keep_before p c [] = if p c then [] else c ∷ []
keep_before p c (d ∷ s) = c ∷ d ∷ s

unfoldable pub trim_end_matches : (ℕ → Bool) → Text → Text
trim_end_matches p [] = []
trim_end_matches p (c ∷ s) = keep_before p c (trim_end_matches p s)

unfoldable pub trim : Text → Text
unfolding trim_start_matches trim_end_matches is_whitespace
trim s = trim_end_matches is_whitespace (trim_start_matches is_whitespace s)

-- `contains` with a set of characters.
unfoldable pub contains_any : Text → Text → Bool
contains_any chars [] = false
contains_any chars (c ∷ s) = any (λ d. c == d) chars || contains_any chars s

unfoldable pub starts_with : Text → Text → Bool
starts_with [] s = true
starts_with (c ∷ p) [] = false
starts_with (c ∷ p) (d ∷ s) = c == d && starts_with p s

-- `str::contains` with a string.
unfoldable pub contains_text : Text → Text → Bool
unfolding starts_with
contains_text p [] = starts_with p []
contains_text p (c ∷ s) = starts_with p (c ∷ s) || contains_text p s

-- `str::split` with one character: always at least one piece.
abbrev push_head : ℕ → List Text → List Text
push_head c [] = (c ∷ []) ∷ []
push_head c (w ∷ ws) = (c ∷ w) ∷ ws

unfoldable pub split : ℕ → Text → List Text
split sep [] = [] ∷ []
split sep (c ∷ s) = let rest = split sep s in if c == sep then [] ∷ rest else push_head c rest

-- `HashSet::contains` and `slice::contains` on strings.
unfoldable pub contains : Text → List Text → Bool
unfolding text_eq
contains x [] = false
contains x (y ∷ ys) = text_eq x y || contains x ys
