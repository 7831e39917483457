-- ===== src/Wildcard.antt =====
-- `wildcard_match` of crates/capture-policy/src/lib.rs, with its four indices, its `while` loop on
-- fuel, and the loop that skips the stars at the end of the pattern.
pub mod Relation
mod Suffixes
pub mod Verdict
pub mod Decides
use code_is_cheap.Common.{
  ℕ, zero, suc, ◌+◌, ◌*◌, Bool, true, false, Option, none, some, List, ◌==◌, ltb, if◌then◌else◌,
  length, get_elem?,
}
use code_is_cheap.Text.{Text, utf8}

pub record Cursor : Type 0 where
  pub pattern_index : ℕ
  pub text_index : ℕ
  pub star_index : Option ℕ
  pub retry_text_index : ℕ

-- One round of the first loop: it goes on, or the function returns `false`.
pub data Round : Type 0 where
  next : Cursor → Round
  reject : Round

-- `index < bytes.len() && bytes[index] == b`
unfoldable pub byte_is : List ℕ → ℕ → ℕ → Bool
byte_is bytes index b = elim (get_elem? bytes index) [ none ↦ false | some c ↦ c == b ]

-- `pattern_index < pattern.len() && pattern[pattern_index] == text[text_index]`, where
-- `text_index < text.len()` is the guard of the loop.
unfoldable pub bytes_agree : List ℕ → List ℕ → Cursor → Bool
unfolding byte_is
bytes_agree pattern bytes c = elim (get_elem? bytes c.text_index) [
  | none ↦ false
  | some b ↦ byte_is pattern c.pattern_index b
]

unfoldable pub round : List ℕ → List ℕ → Cursor → Round
unfolding bytes_agree
round pattern bytes c =
    if bytes_agree pattern bytes c
    then next (record c { pattern_index = c.pattern_index + 1; text_index = c.text_index + 1 })
    else if byte_is pattern c.pattern_index b'*'
    then next (record c {
      pattern_index = c.pattern_index + 1;
      star_index = some c.pattern_index;
      retry_text_index = c.text_index;
    })
    else elim c.star_index [
      | none ↦ reject
      | some star ↦ next (record c {
        pattern_index = star + 1;
        text_index = c.retry_text_index + 1;
        retry_text_index = c.retry_text_index + 1;
      })
    ]

-- The second loop and the test after it: only stars are left of the pattern.
unfoldable pub at_end : ℕ → List ℕ → ℕ → Bool
at_end zero pattern index = false
at_end (suc fuel) pattern index =
    let rest = at_end fuel pattern (index + 1) in
    if byte_is pattern index b'*' then rest else index == length pattern

-- The first loop. `none` means that the fuel ran out.
unfoldable pub scan : ℕ → List ℕ → List ℕ → Cursor → Option Bool
unfolding round at_end
scan zero pattern bytes c = none
scan (suc fuel) pattern bytes c = elim (ltb c.text_index (length bytes)) [
  | true ↦ elim (round pattern bytes c) [
    | next c' ↦ scan fuel pattern bytes c'
    | reject ↦ some false
  ]
  | false ↦ some (at_end (suc (length pattern)) pattern c.pattern_index)
]

abbrev pub start : Cursor
start = record { pattern_index = 0; text_index = 0; star_index = none; retry_text_index = 0 }

abbrev pub scan_fuel : List ℕ → List ℕ → ℕ
scan_fuel pattern bytes = suc (length bytes) * suc (length pattern)

-- The loop on bytes, with fuel from the two lengths.
unfoldable pub match_bytes : List ℕ → List ℕ → Option Bool
unfolding scan
match_bytes pattern bytes = scan (scan_fuel pattern bytes) pattern bytes start

abbrev is_match : Option Bool → Bool
is_match none = false
is_match (some b) = b

unfoldable pub wildcard_match : Text → Text → Bool
unfolding match_bytes
wildcard_match pattern t = is_match (match_bytes (utf8 pattern) (utf8 t))
