-- ===== src/Policy/Scrub/Bodies.antt =====
-- `scrub_json` against its description: the value without the sensitive keys, at every depth, and
-- a log that names them in the order of the walk.
use code_is_cheap.Common.{◌≡◌, inl, inr, List, [], ◌∷◌, ◌++◌, Bool-cases, if◌then◌else◌}
use code_is_cheap.Text.{Text}
use code_is_cheap.Json.{
  Value, null, bool, number, string, array, object, Items, nil, item, Fields, end, field,
}
use code_is_cheap.Capture.{RedactionLocation}
use code_is_cheap.Policy.Names.{is_sensitive}
use code_is_cheap.Policy.Scrub.{Log, note, note_keys, scrub_json, scrub_items, scrub_children}
use code_is_cheap.Policy.Scrub.Headers.{extend, extend-nil, extend-note, extend-append}

unfoldable pub sensitive_keys : List Text → Fields → List Text
sensitive_keys names end = []
sensitive_keys names (field k v fs) =
    let rest = sensitive_keys names fs in if is_sensitive names k then k ∷ rest else rest

-- The value without its sensitive keys.
unfoldable mutual
  pub strip : List Text → Value → Value
  strip names null = null
  strip names (bool b) = bool b
  strip names (number n) = number n
  strip names (string s) = string s
  strip names (array xs) = array (strip_items names xs)
  strip names (object fs) = object (strip_fields names fs)

  pub strip_items : List Text → Items → Items
  strip_items names nil = nil
  strip_items names (item v vs) = item (strip names v) (strip_items names vs)

  pub strip_fields : List Text → Fields → Fields
  strip_fields names end = end
  strip_fields names (field k v fs) =
      let kept = field k (strip names v) (strip_fields names fs) in
      if is_sensitive names k then strip_fields names fs else kept

-- The keys that go, in the order in which the walk meets them: those of an object before those
-- inside the children that stay.
unfoldable mutual
  unfolding sensitive_keys

  pub stripped : List Text → Value → List Text
  stripped names null = []
  stripped names (bool b) = []
  stripped names (number n) = []
  stripped names (string s) = []
  stripped names (array xs) = stripped_items names xs
  stripped names (object fs) = sensitive_keys names fs ++ stripped_fields names fs

  pub stripped_items : List Text → Items → List Text
  stripped_items names nil = []
  stripped_items names (item v vs) = stripped names v ++ stripped_items names vs

  pub stripped_fields : List Text → Fields → List Text
  stripped_fields names end = []
  stripped_fields names (field k v fs) =
      let kept = stripped names v ++ stripped_fields names fs in
      if is_sensitive names k then stripped_fields names fs else kept

note_keys-eq-extend :
    (names : List Text) (location : RedactionLocation) (fs : Fields) (log : Log)
    → note_keys names location fs log ≡ extend location (sensitive_keys names fs) log
unfolding note_keys sensitive_keys
note_keys-eq-extend names location end log = rw extend-nil
note_keys-eq-extend names location (field k v fs) log = elim (Bool-cases (is_sensitive names k)) [
  | inl e ↦ rw (
    e,
    note_keys-eq-extend names location fs (note location k log),
    extend-note location k (sensitive_keys names fs) log,
  )
  | inr e ↦ rw e (note_keys-eq-extend names location fs log)
]

mutual
  unfolding scrub_json strip stripped

  value_lem :
      (names : List Text) (location : RedactionLocation) (v : Value) (log : Log)
      → scrub_json names location v log ≡ (strip names v, extend location (stripped names v) log)
  value_lem names location null log = rw extend-nil
  value_lem names location (bool b) log = rw extend-nil
  value_lem names location (number n) log = rw extend-nil
  value_lem names location (string s) log = rw extend-nil
  value_lem names location (array xs) log = rw (items_lem names location xs log)
  value_lem names location (object fs) log =
      rw (note_keys-eq-extend names location fs log, fields_lem names location fs, extend-append)

  items_lem :
      (names : List Text) (location : RedactionLocation) (xs : Items) (log : Log)
      → scrub_items names location xs log
        ≡ (strip_items names xs, extend location (stripped_items names xs) log)
  items_lem names location nil log = rw extend-nil
  items_lem names location (item v vs) log =
      rw (value_lem names location v log, items_lem names location vs, extend-append)

  fields_lem :
      (names : List Text) (location : RedactionLocation) (fs : Fields) (log : Log)
      → scrub_children names location fs log
        ≡ (strip_fields names fs, extend location (stripped_fields names fs) log)
  fields_lem names location end log = rw extend-nil
  fields_lem names location (field k v fs) log = elim (Bool-cases (is_sensitive names k)) [
    | inl e ↦ rw e (fields_lem names location fs log)
    | inr e ↦
        rw e (rw (value_lem names location v log, fields_lem names location fs, extend-append))
  ]

-- `scrub_json` returns the value without its sensitive keys, whatever the depth at which they
-- stand; the log has a redaction for exactly each key that is gone, in the order of the walk, behind
-- what it had, and counts them.
pub scrub_json-eq-strip :
    (names : List Text) (location : RedactionLocation) (v : Value) (log : Log)
    → scrub_json names location v log ≡ (strip names v, extend location (stripped names v) log)
scrub_json-eq-strip names location v log = value_lem names location v log
