-- ===== src/Text/Utf8.antt =====
-- `str::from_utf8`: the validation of UTF-8 by Rust's standard library, with the text it gives.
use code_is_cheap.Common.{
  ℕ, ◌+◌, ◌-◌, ◌*◌, ◌≡◌, refl, sym, ap, ◌∙◌, Bool, true, false, not, ◌&&◌, ◌||◌, Option, none, some,
  List, [], ◌∷◌, ◌++◌, leb, ltb, ◌==◌, if◌then◌else◌, arith, some_injective,
}
use code_is_cheap.Text.{Text, utf8, utf8_char}

-- The number of bytes of a character, by the first of them.
pub data Width : Type 0 where
  one two three four invalid : Width

unfoldable pub width : ℕ → Width
width a =
    if ltb a 0x80
    then one
    else if leb 0xC2 a && leb a 0xDF
    then two
    else if leb 0xE0 a && leb a 0xEF
    then three
    else if leb 0xF0 a && leb a 0xF4
    then four
    else invalid

abbrev is_next : ℕ → Bool
is_next b = leb 0x80 b && leb b 0xBF

-- The second byte rules out a form that is too long, a surrogate and a number above 0x10FFFF.
abbrev is_second_of_three : ℕ → ℕ → Bool
is_second_of_three a b = is_next b && (ltb 0xE0 a || leb 0xA0 b) && (not (a == 0xED) || leb b 0x9F)

abbrev is_second_of_four : ℕ → ℕ → Bool
is_second_of_four a b = is_next b && (ltb 0xF0 a || leb 0x90 b) && (ltb a 0xF4 || leb b 0x8F)

abbrev with_char : Bool → ℕ → Option Text → Option Text
with_char true c (some s) = some (c ∷ s)
with_char _ c _ = none

abbrev two_of : ℕ → ℕ → ℕ
two_of a b = (a - 0xC0) * 64 + (b - 0x80)

abbrev three_of : ℕ → ℕ → ℕ → ℕ
three_of a b c = (a - 0xE0) * 4096 + (b - 0x80) * 64 + (c - 0x80)

abbrev four_of : ℕ → ℕ → ℕ → ℕ → ℕ
four_of a b c d = (a - 0xF0) * 262144 + (b - 0x80) * 4096 + (c - 0x80) * 64 + (d - 0x80)

unfoldable pub from_utf8 : List ℕ → Option Text
unfolding width
from_utf8 [] = some []
from_utf8 (a ∷ []) = elim (width a) [ one ↦ some (a ∷ []) | _ ↦ none ]
from_utf8 (a ∷ b ∷ []) = elim (width a) [
  | one ↦ with_char true a (from_utf8 (b ∷ []))
  | two ↦ with_char (is_next b) (two_of a b) (some [])
  | _ ↦ none
]
from_utf8 (a ∷ b ∷ c ∷ []) = elim (width a) [
  | one ↦ with_char true a (from_utf8 (b ∷ c ∷ []))
  | two ↦ with_char (is_next b) (two_of a b) (from_utf8 (c ∷ []))
  | three ↦ with_char (is_second_of_three a b && is_next c) (three_of a b c) (some [])
  | _ ↦ none
]
from_utf8 (a ∷ b ∷ c ∷ d ∷ bytes) = elim (width a) [
  | one ↦ with_char true a (from_utf8 (b ∷ c ∷ d ∷ bytes))
  | two ↦ with_char (is_next b) (two_of a b) (from_utf8 (c ∷ d ∷ bytes))
  | three ↦ with_char (is_second_of_three a b && is_next c) (three_of a b c) (from_utf8 (d ∷ bytes))
  | four ↦
      with_char (is_second_of_four a b && is_next c && is_next d) (four_of a b c d)
        (from_utf8 bytes)
  | invalid ↦ none
]

one_byte : (a : ℕ) → width a ≡ one → utf8_char a ≡ a ∷ []
unfolding width utf8_char
one_byte a h = ground (arith, h)

two_bytes : (a b : ℕ) → width a ≡ two → is_next b ≡ true → utf8_char (two_of a b) ≡ a ∷ b ∷ []
unfolding width utf8_char
two_bytes a b h k = ground (arith, h, k)

three_bytes :
    (a b c : ℕ)
    → width a ≡ three
    → (is_second_of_three a b && is_next c) ≡ true
    → utf8_char (three_of a b c) ≡ a ∷ b ∷ c ∷ []
unfolding width utf8_char
three_bytes a b c h k = ground (arith, h, k)

four_bytes :
    (a b c d : ℕ)
    → width a ≡ four
    → (is_second_of_four a b && is_next c && is_next d) ≡ true
    → utf8_char (four_of a b c d) ≡ a ∷ b ∷ c ∷ d ∷ []
unfolding width utf8_char
four_bytes a b c d h k = ground (arith, h, k)

-- A character in front: its bytes, if it was accepted, and those of the rest.
with_char-utf8 :
    (b : Bool) (c : ℕ) (o : Option Text) (s : Text) (bytes front : List ℕ)
    → with_char b c o ≡ some s
    → (b ≡ true → utf8_char c ≡ front)
    → ((t : Text) → o ≡ some t → utf8 t ≡ bytes)
    → utf8 s ≡ front ++ bytes
unfolding utf8
with_char-utf8 false c o s bytes front h f g = absurd (cc (h))
with_char-utf8 true c none s bytes front h f g = absurd (cc (h))
with_char-utf8 true c (some t) s bytes front h f g =
    ap utf8 (sym (some_injective h)) ∙ cc (f refl, g t refl)

abbrev Decodes : Option Text → List ℕ → Type 0
Decodes o bytes = (s : Text) → o ≡ some s → utf8 s ≡ bytes

no_bytes : Decodes (some []) []
unfolding utf8
no_bytes s h = ap utf8 (sym (some_injective h))

last_one :
    (a : ℕ) (w : Width) → width a ≡ w → Decodes (elim w [ one ↦ some (a ∷ []) | _ ↦ none ]) (a ∷ [])
last_one a one e s h = with_char-utf8 true a (some []) s [] (a ∷ []) h (λ _. one_byte a e) no_bytes
last_one a two e s h = absurd (cc (h))
last_one a three e s h = absurd (cc (h))
last_one a four e s h = absurd (cc (h))
last_one a invalid e s h = absurd (cc (h))

last_two :
    (a b : ℕ) (after_one : Option Text) (w : Width)
    → width a ≡ w
    → Decodes after_one (b ∷ [])
    → Decodes
        (elim w [
          | one ↦ with_char true a after_one
          | two ↦ with_char (is_next b) (two_of a b) (some [])
          | _ ↦ none
        ])
        (a ∷ b ∷ [])
last_two a b o one e g s h = with_char-utf8 true a o s _ (a ∷ []) h (λ _. one_byte a e) g
last_two a b o two e g s h =
    with_char-utf8 (is_next b) (two_of a b) (some []) s [] (a ∷ b ∷ []) h (two_bytes a b e) no_bytes
last_two a b o three e g s h = absurd (cc (h))
last_two a b o four e g s h = absurd (cc (h))
last_two a b o invalid e g s h = absurd (cc (h))

last_three :
    (a b c : ℕ) (after_one after_two : Option Text) (w : Width)
    → width a ≡ w
    → Decodes after_one (b ∷ c ∷ [])
    → Decodes after_two (c ∷ [])
    → Decodes
        (elim w [
          | one ↦ with_char true a after_one
          | two ↦ with_char (is_next b) (two_of a b) after_two
          | three ↦ with_char (is_second_of_three a b && is_next c) (three_of a b c) (some [])
          | _ ↦ none
        ])
        (a ∷ b ∷ c ∷ [])
last_three a b c o p one e f g s h = with_char-utf8 true a o s _ (a ∷ []) h (λ _. one_byte a e) f
last_three a b c o p two e f g s h =
    with_char-utf8 (is_next b) (two_of a b) p s _ (a ∷ b ∷ []) h (two_bytes a b e) g
last_three a b c o p three e f g s h =
    with_char-utf8 (is_second_of_three a b && is_next c) (three_of a b c) (some []) s [] _ h
      (three_bytes a b c e) no_bytes
last_three a b c o p four e f g s h = absurd (cc (h))
last_three a b c o p invalid e f g s h = absurd (cc (h))

first_four :
    (a b c d : ℕ) (bytes : List ℕ) (after_one after_two after_three after_four : Option Text)
    (w : Width)
    → width a ≡ w
    → Decodes after_one (b ∷ c ∷ d ∷ bytes)
    → Decodes after_two (c ∷ d ∷ bytes)
    → Decodes after_three (d ∷ bytes)
    → Decodes after_four bytes
    → Decodes
        (elim w [
          | one ↦ with_char true a after_one
          | two ↦ with_char (is_next b) (two_of a b) after_two
          | three ↦ with_char (is_second_of_three a b && is_next c) (three_of a b c) after_three
          | four ↦
              with_char
                (is_second_of_four a b && is_next c && is_next d)
                (four_of a b c d)
                after_four
          | invalid ↦ none
        ])
        (a ∷ b ∷ c ∷ d ∷ bytes)
first_four a b c d bytes o p q r one e f g k l s h =
    with_char-utf8 true a o s _ (a ∷ []) h (λ _. one_byte a e) f
first_four a b c d bytes o p q r two e f g k l s h =
    with_char-utf8 (is_next b) (two_of a b) p s _ (a ∷ b ∷ []) h (two_bytes a b e) g
first_four a b c d bytes o p q r three e f g k l s h =
    with_char-utf8 _ (three_of a b c) q s _ (a ∷ b ∷ c ∷ []) h (three_bytes a b c e) k
first_four a b c d bytes o p q r four e f g k l s h =
    with_char-utf8 _ (four_of a b c d) r s _ (a ∷ b ∷ c ∷ d ∷ []) h (four_bytes a b c d e) l
first_four a b c d bytes o p q r invalid e f g k l s h = absurd (cc (h))

-- What from_utf8 accepts is the encoding of the text that it gives.
pub utf8-from_utf8 : (bytes : List ℕ) → Decodes (from_utf8 bytes) bytes
unfolding from_utf8
utf8-from_utf8 [] = no_bytes
utf8-from_utf8 (a ∷ []) = last_one a (width a) refl
utf8-from_utf8 (a ∷ b ∷ []) = last_two a b _ (width a) refl (utf8-from_utf8 (b ∷ []))
utf8-from_utf8 (a ∷ b ∷ c ∷ []) =
    last_three a b c _ _ (width a) refl (utf8-from_utf8 (b ∷ c ∷ [])) (utf8-from_utf8 (c ∷ []))
utf8-from_utf8 (a ∷ b ∷ c ∷ d ∷ bytes) =
    first_four a b c d bytes _ _ _ _ (width a) refl (utf8-from_utf8 (b ∷ c ∷ d ∷ bytes))
      (utf8-from_utf8 (c ∷ d ∷ bytes)) (utf8-from_utf8 (d ∷ bytes)) (utf8-from_utf8 bytes)
