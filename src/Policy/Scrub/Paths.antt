-- ===== src/Policy/Scrub/Paths.antt =====
-- `scrub_json` of crates/capture-policy/src/lib.rs, by what a reader finds on the paths into its
-- result.
use code_is_cheap.Common.{
  ◌&&◌, ℕ, Bool, not, all, if◌then◌else◌, zero, suc, ◌≡◌, refl, sym, ap, ◌∙◌, inl, inr, true, false,
  Option, none, some, List, [], ◌∷◌, Bool-cases,
}
use code_is_cheap.Text.{Text, text_eq}
use code_is_cheap.Text.Laws.{text_eq_iff}
use code_is_cheap.Json.{
  Value, null, bool, number, string, array, object, Items, nil, item, Fields, end, field, lookup,
}
use code_is_cheap.Policy.Names.{is_sensitive}
use code_is_cheap.Policy.Scrub.Bodies.{strip, strip_items, strip_fields}
use code_is_cheap.Capture.{RedactionLocation}
use code_is_cheap.Policy.Scrub.{Log, scrub_json}
use code_is_cheap.Policy.Scrub.Bodies.{scrub_json-eq-strip}

-- A step into a value: to the entry of a key, or to an element.
pub data Hop : Type 0 where
  key : Text → Hop
  index : ℕ → Hop

abbrev nth : ℕ → Items → Option Value
nth n nil = none
nth zero (item v vs) = some v
nth (suc n) (item v vs) = nth n vs

abbrev hop : Hop → Value → Option Value
hop (key k) (object fs) = lookup k fs
hop (index n) (array xs) = nth n xs
hop h v = none

-- What a value is, apart from what stands in it.
pub data Head : Type 0 where
  null_head array_head object_head : Head
  bool_head : Bool → Head
  number_head string_head : Text → Head

abbrev pub head : Value → Head
head null = null_head
head (bool b) = bool_head b
head (number n) = number_head n
head (string s) = string_head s
head (array xs) = array_head
head (object fs) = object_head

abbrev and_then : Option Value → (Value → Option Head) → Option Head
and_then none f = none
and_then (some v) f = f v

-- What is at a path, if there is something.
abbrev pub head_at : List Hop → Value → Option Head
head_at [] v = some (head v)
head_at (h ∷ hs) v = and_then (hop h v) (head_at hs)

abbrev pub is_open : List Text → Hop → Bool
is_open names (key k) = not (is_sensitive names k)
is_open names (index n) = true

abbrev stripped_at : List Text → Bool → Option Value → Option Value
stripped_at names opened none = none
stripped_at names true (some v) = some (strip names v)
stripped_at names false (some v) = none

nothing_at : (names : List Text) (o : Option Value) → stripped_at names false o ≡ none
nothing_at names none = refl
nothing_at names (some v) = refl

agree :
    (names : List Text) (j k : Text) (b c : Bool)
    → is_sensitive names j ≡ b
    → is_sensitive names k ≡ c
    → text_eq j k ≡ true
    → b ≡ c
agree names j k b c p q e = sym p ∙ ap (is_sensitive names) ((text_eq_iff j k).0 e) ∙ q

lookup-strip :
    (names : List Text) (k : Text) (b : Bool) (fs : Fields)
    → is_sensitive names k ≡ b
    → lookup k (strip_fields names fs) ≡ stripped_at names (not b) (lookup k fs)
unfolding lookup strip
lookup-strip names k b end h = refl
lookup-strip names k b (field j v fs) h = elim (Bool-cases (is_sensitive names j)) [
  | inl e ↦ elim (Bool-cases (text_eq j k)) [
    | inl q ↦
        (let z : true ≡ b = agree names j k true b e h q in
          rw (e, q, sym z)
            (lookup-strip names k b fs h ∙ rw (sym z) (nothing_at names (lookup k fs))))
    | inr q ↦ rw (e, q) (lookup-strip names k b fs h)
  ]
  | inr e ↦ elim (Bool-cases (text_eq j k)) [
    | inl q ↦ (let z : false ≡ b = agree names j k false b e h q in rw (e, q, sym z))
    | inr q ↦ rw (e, q) (lookup-strip names k b fs h)
  ]
]

nth-strip :
    (names : List Text) (n : ℕ) (xs : Items)
    → nth n (strip_items names xs) ≡ stripped_at names true (nth n xs)
unfolding strip
nth-strip names n nil = refl
nth-strip names zero (item v vs) = refl
nth-strip names (suc n) (item v vs) = nth-strip names n vs

hop-strip :
    (names : List Text) (h : Hop) (v : Value)
    → hop h (strip names v) ≡ stripped_at names (is_open names h) (hop h v)
unfolding strip
hop-strip names (key k) (object fs) = lookup-strip names k (is_sensitive names k) fs refl
hop-strip names (index n) (array xs) = nth-strip names n xs
hop-strip names _ _ = refl

head-strip : (names : List Text) (v : Value) → head (strip names v) ≡ head v
unfolding strip
head-strip names null = refl
head-strip names (bool b) = refl
head-strip names (number n) = refl
head-strip names (string s) = refl
head-strip names (array xs) = refl
head-strip names (object fs) = refl

if_none : (b : Bool) → ◌≡◌ {A = Option Head} none (if b then none else none)
if_none true = refl
if_none false = refl

and_then-stripped_at :
    (names : List Text) (hs : List Hop) (opened rest : Bool) (o : Option Value)
    → ((w : Value) → head_at hs (strip names w) ≡ (if rest then head_at hs w else none))
    → and_then (stripped_at names opened o) (head_at hs)
      ≡ (if opened && rest then and_then o (head_at hs) else none)
and_then-stripped_at names hs opened rest none h = if_none (opened && rest)
and_then-stripped_at names hs true rest (some v) h = h v
and_then-stripped_at names hs false rest (some v) h = refl

head_at-strip :
    (names : List Text) (hs : List Hop) (v : Value)
    → head_at hs (strip names v) ≡ (if all (is_open names) hs then head_at hs v else none)
head_at-strip names [] v = ap some (head-strip names v)
head_at-strip names (h ∷ hs) v =
    ap (λ o. and_then o (head_at hs)) (hop-strip names h v)
    ∙ and_then-stripped_at names hs (is_open names h) (all (is_open names) hs) (hop h v)
        (head_at-strip names hs)

-- `scrub_json` takes away what stands behind a sensitive key, at any depth, and nothing else: on a
-- path with such a key a reader finds nothing, and on every other path what was there before, the
-- same scalar, an array or an object, or nothing where there was nothing.
pub head_at-scrub_json :
    (names : List Text) (location : RedactionLocation) (hs : List Hop) (v : Value) (log : Log)
    → head_at hs (scrub_json names location v log).0
      ≡ (if all (is_open names) hs then head_at hs v else none)
head_at-scrub_json names location hs v log =
    ap (λ r. head_at hs r.0) (scrub_json-eq-strip names location v log) ∙ head_at-strip names hs v
