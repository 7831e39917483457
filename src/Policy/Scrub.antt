-- ===== src/Policy/Scrub.antt =====
-- `scrub_fields` and `scrub_json` of crates/capture-policy/src/lib.rs. Both record what they remove
-- in the two `&mut` arguments that they share; `names` is the set of normalized sensitive names.
pub mod Headers
pub mod Bodies
pub mod Purity
pub mod Paths
use code_is_cheap.Common.{ℕ, ◌+◌, Bool, true, false, Option, List, [], ◌∷◌, ◌++◌, if◌then◌else◌}
use code_is_cheap.Text.{Text}
use code_is_cheap.Json.{
  Value, null, bool, number, string, array, object, Items, nil, item, Fields, end, field,
}
use code_is_cheap.Capture.{CapturedField, CaptureRedaction, RedactionLocation}
use code_is_cheap.Policy.Names.{is_sensitive}

pub record Log : Type 0 where
  pub redactions : List CaptureRedaction
  pub newly_redacted : ℕ

-- `redactions.push(…); *newly_redacted += 1;`
abbrev pub note : RedactionLocation → Text → Log → Log
note location name log = record {
  redactions = log.redactions ++ record { location = location; name = name } ∷ [];
  newly_redacted = log.newly_redacted + 1;
}

-- `fields.retain(…)`, with what its closure writes.
unfoldable pub scrub_fields :
    List Text → RedactionLocation → List CapturedField → Log → List CapturedField × Log
unfolding is_sensitive
scrub_fields names location [] log = ([], log)
scrub_fields names location (f ∷ fields) log =
    let sensitive = is_sensitive names f.name in
    let (rest, log') =
      scrub_fields names location fields (if sensitive then note location f.name log else log) in
    (if sensitive then rest else f ∷ rest, log')

-- The first loop over an object: a redaction for each key that is removed, in the map's order.
unfoldable pub note_keys : List Text → RedactionLocation → Fields → Log → Log
unfolding is_sensitive
note_keys names location end log = log
note_keys names location (field k v fs) log =
    note_keys names location fs (if is_sensitive names k then note location k log else log)

-- The removals, and the second loop, over the children that are left, are one traversal here: the
-- keys of a map differ, so that a removal takes one entry away and no other.
unfoldable mutual
  unfolding is_sensitive note_keys

  pub scrub_json : List Text → RedactionLocation → Value → Log → Value × Log
  scrub_json names location null log = (null, log)
  scrub_json names location (bool b) log = (bool b, log)
  scrub_json names location (number n) log = (number n, log)
  scrub_json names location (string s) log = (string s, log)
  scrub_json names location (array xs) log =
      let (xs', log') = scrub_items names location xs log in (array xs', log')
  scrub_json names location (object fs) log =
      let (fs', log') = scrub_children names location fs (note_keys names location fs log) in
      (object fs', log')

  pub scrub_items : List Text → RedactionLocation → Items → Log → Items × Log
  scrub_items names location nil log = (nil, log)
  scrub_items names location (item v vs) log =
      let (v', log') = scrub_json names location v log in
      let (vs', log'') = scrub_items names location vs log' in (item v' vs', log'')

  pub scrub_children : List Text → RedactionLocation → Fields → Log → Fields × Log
  scrub_children names location end log = (end, log)
  scrub_children names location (field k v fs) log =
      let without = scrub_children names location fs log in
      let (v', log') = scrub_json names location v log in
      let (fs', log'') = scrub_children names location fs log' in
      let kept : Fields × Log = (field k v' fs', log'') in
      if is_sensitive names k then without else kept
