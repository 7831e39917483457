-- ===== src/Policy/Sanitize/Growth.antt =====
-- How the log of redactions grows while an envelope is scrubbed.
use mathlib.Core.List.{append-nil, append_assoc}
use code_is_cheap.Common.{
  suc, ◌+◌, ◌≡◌, refl, sym, ap, ◌∙◌, inl, inr, true, Option, none, some, List, [], ◌∷◌, ◌++◌, map,
  arith, length, length-append, All, All-append, Bool-cases,
}
use code_is_cheap.Text.{Text}
use code_is_cheap.Json.{
  Value, null, bool, number, string, array, object, Items, nil, item, Fields, end, field,
}
use code_is_cheap.Capture.{
  CaptureEnvelope, CaptureAttribution, CapturedField, CapturedRequest, CapturedBody,
  CaptureRedaction, CaptureOutcome, response, upstream_failure, RedactionLocation, header, query,
  body, response_header, response_body,
}
use code_is_cheap.Policy.{CapturePolicy}
use code_is_cheap.Policy.Names.{normalized_names, is_sensitive}
use code_is_cheap.Policy.Scrub.{Log, scrub_fields}
use code_is_cheap.Policy.Scrub.Headers.{extend, redaction, sensitive_fields, scrub_fields-eq-retain}
use code_is_cheap.Policy.Scrub.Bodies.{
  stripped, stripped_items, stripped_fields, sensitive_keys, scrub_json-eq-strip,
}
use code_is_cheap.Policy.Sanitize.{
  drop_label, scrub_content, scrub_body, scrub_request, scrub_outcome, scrub_envelope, opening_log,
}

abbrev pub AreSensitive : List Text → List Text → Type 0
AreSensitive names xs = All (λ x. is_sensitive names x ≡ true) xs

-- Entries for sensitive names are added at the end, and counted.
pub record Grows (names : List Text) (before after : Log) : Type 0 where
  pub entries : List CaptureRedaction
  pub appended : after.redactions ≡ before.redactions ++ entries
  pub counted : after.newly_redacted ≡ before.newly_redacted + length entries
  pub sensitive : All (λ r. is_sensitive names r.name ≡ true) entries

module _ {names : List Text} where
  Grows-refl : (a : Log) → Grows names a a
  Grows-refl a = record {
    entries = [];
    appended = sym (append-nil a.redactions);
    counted = omega arith;
    sensitive = tt;
  }

  Grows-trans : {a b c : Log} → Grows names a b → Grows names b c → Grows names a c
  Grows-trans {a = a} g h = record {
    entries = g.entries ++ h.entries;
    appended =
        h.appended
        ∙ ap (λ l. l ++ h.entries) g.appended
        ∙ append_assoc a.redactions g.entries h.entries;
    counted = omega (arith, g.counted, h.counted, length-append g.entries h.entries);
    sensitive = All-append _ g.entries h.entries g.sensitive h.sensitive;
  }

length-redactions :
    (location : RedactionLocation) (xs : List Text)
    → length (map (redaction location) xs) ≡ length xs
length-redactions location [] = refl
length-redactions location (x ∷ xs) = ap suc (length-redactions location xs)

redactions-sensitive :
    (names : List Text) (location : RedactionLocation) (xs : List Text)
    → AreSensitive names xs
    → All (λ r. is_sensitive names r.name ≡ true) (map (redaction location) xs)
redactions-sensitive names location [] h = tt
redactions-sensitive names location (x ∷ xs) (a, h) = (a, redactions-sensitive names location xs h)

Grows-extend :
    (names : List Text) (location : RedactionLocation) (xs : List Text) (log : Log)
    → AreSensitive names xs
    → Grows names log (extend location xs log)
unfolding extend
Grows-extend names location xs log h = record {
  entries = map (redaction location) xs;
  appended = refl;
  counted = omega (arith, length-redactions location xs);
  sensitive = redactions-sensitive names location xs h;
}

sensitive_fields-AreSensitive :
    (names : List Text) (fields : List CapturedField)
    → AreSensitive names (sensitive_fields names fields)
unfolding sensitive_fields
sensitive_fields-AreSensitive names [] = tt
sensitive_fields-AreSensitive names (f ∷ fields) =
    ground (arith, sensitive_fields-AreSensitive names fields)

sensitive_keys-AreSensitive :
    (names : List Text) (fs : Fields) → AreSensitive names (sensitive_keys names fs)
unfolding sensitive_keys
sensitive_keys-AreSensitive names end = tt
sensitive_keys-AreSensitive names (field k v fs) =
    ground (arith, sensitive_keys-AreSensitive names fs)

mutual
  unfolding stripped

  value_sensitive : (names : List Text) (v : Value) → AreSensitive names (stripped names v)
  value_sensitive names null = tt
  value_sensitive names (bool b) = tt
  value_sensitive names (number n) = tt
  value_sensitive names (string s) = tt
  value_sensitive names (array xs) = items_sensitive names xs
  value_sensitive names (object fs) =
      All-append _ (sensitive_keys names fs) (stripped_fields names fs)
        (sensitive_keys-AreSensitive names fs) (fields_sensitive names fs)

  items_sensitive : (names : List Text) (xs : Items) → AreSensitive names (stripped_items names xs)
  items_sensitive names nil = tt
  items_sensitive names (item v vs) =
      All-append _ (stripped names v) (stripped_items names vs) (value_sensitive names v)
        (items_sensitive names vs)

  fields_sensitive :
      (names : List Text) (fs : Fields) → AreSensitive names (stripped_fields names fs)
  fields_sensitive names end = tt
  fields_sensitive names (field k v fs) = elim (Bool-cases (is_sensitive names k)) [
    | inl e ↦ rw e (fields_sensitive names fs)
    | inr e ↦ rw e (
        All-append _ (stripped names v) (stripped_fields names fs) (value_sensitive names v)
          (fields_sensitive names fs))
  ]

fields_grow :
    (names : List Text) (location : RedactionLocation) (fields : List CapturedField) (log : Log)
    → Grows names log (scrub_fields names location fields log).1
fields_grow names location fields log = rw scrub_fields-eq-retain (
    Grows-extend names location (sensitive_fields names fields) log
      (sensitive_fields-AreSensitive names fields))

content-Grows :
    (names : List Text) (location : RedactionLocation) (o : Option Value) (log : Log)
    → Grows names log (scrub_content names location o log).1
unfolding scrub_content
content-Grows names location none log = Grows-refl log
content-Grows names location (some v) log =
    rw scrub_json-eq-strip
      (Grows-extend names location (stripped names v) log (value_sensitive names v))

body-Grows :
    (names : List Text) (location : RedactionLocation) (b : CapturedBody) (log : Log)
    → Grows names log (scrub_body names location b log).1
unfolding scrub_body
body-Grows names location b log = content-Grows names location b.content log

request-Grows :
    (policy : CapturePolicy) (names : List Text) (r : CapturedRequest) (log : Log)
    → Grows names log (scrub_request policy names r log).1
unfolding scrub_request
request-Grows policy names r log =
    let a = scrub_fields names header (drop_label policy r.headers) log in
    let b = scrub_fields names query r.query a.1 in
    Grows-trans (fields_grow names header (drop_label policy r.headers) log)
      (Grows-trans (fields_grow names query r.query a.1) (body-Grows names body r.body b.1))

outcome-Grows :
    (names : List Text) (o : Option CaptureOutcome) (log : Log)
    → Grows names log (scrub_outcome names o log).1
unfolding scrub_outcome
outcome-Grows names none log = Grows-refl log
outcome-Grows names (some (upstream_failure f)) log = Grows-refl log
outcome-Grows names (some (response r)) log =
    let a = scrub_fields names response_header r.headers log in
    Grows-trans (fields_grow names response_header r.headers log)
      (body-Grows names response_body r.body a.1)

pub envelope-Grows :
    (policy : CapturePolicy) (e : CaptureEnvelope) (a : CaptureAttribution)
    → Grows (normalized_names policy) (opening_log e) (scrub_envelope policy e a).1
unfolding scrub_envelope
envelope-Grows policy e a =
    let names = normalized_names policy in
    let r = scrub_request policy names e.request (opening_log e) in
    Grows-trans (request-Grows policy names e.request (opening_log e))
      (outcome-Grows names e.outcome r.1)
