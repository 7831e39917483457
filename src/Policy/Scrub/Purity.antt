-- ===== src/Policy/Scrub/Purity.antt =====
-- A stripped value has no sensitive key left, and stripping it again changes nothing.
use code_is_cheap.Common.{◌≡◌, refl, inl, inr, false, List, [], Bool-cases}
use code_is_cheap.Text.{Text}
use code_is_cheap.Json.{
  Value, null, bool, number, string, array, object, Items, nil, item, Fields, end, field,
}
use code_is_cheap.Policy.Names.{is_sensitive}
use code_is_cheap.Policy.Scrub.Bodies.{
  strip, strip_items, strip_fields, stripped, stripped_items, stripped_fields, sensitive_keys,
}

-- No object inside the value has a sensitive key.
unfoldable mutual
  pub IsClean : List Text → Value → Type 0
  IsClean names null = Unit
  IsClean names (bool b) = Unit
  IsClean names (number n) = Unit
  IsClean names (string s) = Unit
  IsClean names (array xs) = AreClean names xs
  IsClean names (object fs) = HasCleanFields names fs

  pub AreClean : List Text → Items → Type 0
  AreClean names nil = Unit
  AreClean names (item v vs) = IsClean names v × AreClean names vs

  pub HasCleanFields : List Text → Fields → Type 0
  HasCleanFields names end = Unit
  HasCleanFields names (field k v fs) =
      (is_sensitive names k ≡ false) × IsClean names v × HasCleanFields names fs

mutual
  unfolding IsClean strip

  pub strip-IsClean : (names : List Text) (v : Value) → IsClean names (strip names v)
  strip-IsClean names null = tt
  strip-IsClean names (bool b) = tt
  strip-IsClean names (number n) = tt
  strip-IsClean names (string s) = tt
  strip-IsClean names (array xs) = items-clean names xs
  strip-IsClean names (object fs) = fields-clean names fs

  items-clean : (names : List Text) (xs : Items) → AreClean names (strip_items names xs)
  items-clean names nil = tt
  items-clean names (item v vs) = (strip-IsClean names v, items-clean names vs)

  fields-clean : (names : List Text) (fs : Fields) → HasCleanFields names (strip_fields names fs)
  fields-clean names end = tt
  fields-clean names (field k v fs) = elim (Bool-cases (is_sensitive names k)) [
    | inl e ↦ rw e (fields-clean names fs)
    | inr e ↦ rw e (e, strip-IsClean names v, fields-clean names fs)
  ]

sensitive_keys_of_clean :
    (names : List Text) (fs : Fields) → HasCleanFields names fs → sensitive_keys names fs ≡ []
unfolding sensitive_keys IsClean
sensitive_keys_of_clean names end h = refl
sensitive_keys_of_clean names (field k v fs) h = rw h.0 (sensitive_keys_of_clean names fs h.2)

mutual
  unfolding IsClean strip stripped

  value_clean :
      (names : List Text) (v : Value)
      → IsClean names v
      → (strip names v ≡ v) × (stripped names v ≡ [])
  value_clean names null h = (refl, refl)
  value_clean names (bool b) h = (refl, refl)
  value_clean names (number n) h = (refl, refl)
  value_clean names (string s) h = (refl, refl)
  value_clean names (array xs) h = let (a, b) = items_clean names xs h in (rw a, b)
  value_clean names (object fs) h =
      let (a, b) = fields_clean names fs h in (rw a, rw (sensitive_keys_of_clean names fs h) b)

  items_clean :
      (names : List Text) (xs : Items)
      → AreClean names xs
      → (strip_items names xs ≡ xs) × (stripped_items names xs ≡ [])
  items_clean names nil h = (refl, refl)
  items_clean names (item v vs) (h, k) =
      let (a, b) = value_clean names v h in
      let (c, d) = items_clean names vs k in (rw (a, c), rw b d)

  fields_clean :
      (names : List Text) (fs : Fields)
      → HasCleanFields names fs
      → (strip_fields names fs ≡ fs) × (stripped_fields names fs ≡ [])
  fields_clean names end h = (refl, refl)
  fields_clean names (field k v fs) (s, h, r) =
      let (a, b) = value_clean names v h in
      let (c, d) = fields_clean names fs r in (rw (s, a, c), rw (s, b) d)

pub strip_of_clean :
    (names : List Text) (v : Value)
    → IsClean names v
    → (strip names v ≡ v) × (stripped names v ≡ [])
strip_of_clean names v h = value_clean names v h
