-- ===== src/Text/Lines.antt =====
-- `str::lines`, `str::split_whitespace` and the other cuts of a text into pieces.
use code_is_cheap.Common.{
  ℕ, Bool, not, ◌&&◌, Option, none, some, List, [], ◌∷◌, ◌==◌, if◌then◌else◌, retain, is_empty,
}
use code_is_cheap.Text.{Text, push_head, is_whitespace, starts_with}

-- A carriage return before a line feed belongs to the end of the line.
unfoldable pub lines : Text → List Text
unfolding starts_with
lines [] = []
lines (c ∷ s) =
    let rest = lines s in
    if c == b'\n'
    then [] ∷ rest
    else if c == b'\r' && starts_with (b'\n' ∷ []) s
    then rest
    else push_head c rest

-- `str::split` by a test on characters.
unfoldable pub split_by : (ℕ → Bool) → Text → List Text
split_by p [] = [] ∷ []
split_by p (c ∷ s) = let rest = split_by p s in if p c then [] ∷ rest else push_head c rest

unfoldable pub split_whitespace : Text → List Text
unfolding split_by is_whitespace
split_whitespace s = retain (λ w. not (is_empty w)) (split_by is_whitespace s)

abbrev before_split : ℕ → Option (Text × Text) → Option (Text × Text)
before_split c none = none
before_split c (some (key, value)) = some (c ∷ key, value)

-- `str::split_once` with one character.
unfoldable pub split_once : ℕ → Text → Option (Text × Text)
split_once sep [] = none
split_once sep (c ∷ s) =
    let rest = before_split c (split_once sep s) in if c == sep then some ([], s) else rest

-- `str::strip_prefix`.
unfoldable pub strip_prefix : Text → Text → Option Text
strip_prefix [] s = some s
strip_prefix (c ∷ p) [] = none
strip_prefix (c ∷ p) (d ∷ s) = let rest = strip_prefix p s in if c == d then rest else none
