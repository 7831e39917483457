-- ===== src/Policy/Scrub/Headers.antt =====
-- `scrub_fields` against its description: the list without its sensitive fields, and a log that
-- grows by one entry for each field that is gone.
use mathlib.Core.List.{append-nil, append_assoc}
use code_is_cheap.Common.{
  ◌+◌, ◌≡◌, refl, sym, ap, ◌∙◌, inl, inr, Bool, true, not, List, [], ◌∷◌, ◌++◌, map, arith, length,
  retain, All, Bool-cases, if◌then◌else◌,
}
use code_is_cheap.Text.{Text}
use code_is_cheap.Capture.{CapturedField, CaptureRedaction, RedactionLocation}
use code_is_cheap.Policy.Names.{is_sensitive}
use code_is_cheap.Policy.Scrub.{Log, note, scrub_fields}

abbrev pub redaction : RedactionLocation → Text → CaptureRedaction
redaction location name = record { location = location; name = name }

-- The log with a redaction for each of these names at its end, all of them counted.
unfoldable pub extend : RedactionLocation → List Text → Log → Log
extend location names log = record {
  redactions = log.redactions ++ map (redaction location) names;
  newly_redacted = log.newly_redacted + length names;
}

Log-eq : (a b : Log) → a.redactions ≡ b.redactions → a.newly_redacted ≡ b.newly_redacted → a ≡ b
Log-eq a b h k = cc (h, k)

pub extend-nil : (location : RedactionLocation) (log : Log) → extend location [] log ≡ log
unfolding extend
extend-nil location log = Log-eq _ _ (append-nil log.redactions) (omega arith)

pub extend-note :
    (location : RedactionLocation) (name : Text) (names : List Text) (log : Log)
    → extend location names (note location name log) ≡ extend location (name ∷ names) log
unfolding extend
extend-note location name names log =
    Log-eq _ _
      (append_assoc log.redactions (redaction location name ∷ []) (map (redaction location) names))
      (omega arith)

pub extend-append :
    (location : RedactionLocation) (xs ys : List Text) (log : Log)
    → extend location ys (extend location xs log) ≡ extend location (xs ++ ys) log
extend-append location [] ys log = ap (extend location ys) (extend-nil location log)
extend-append location (x ∷ xs) ys log =
    ap (extend location ys) (sym (extend-note location x xs log))
    ∙ extend-append location xs ys (note location x log)
    ∙ extend-note location x (xs ++ ys) log

abbrev pub keeps : List Text → CapturedField → Bool
keeps names f = not (is_sensitive names f.name)

-- The names of the sensitive fields, in their order.
unfoldable pub sensitive_fields : List Text → List CapturedField → List Text
sensitive_fields names [] = []
sensitive_fields names (f ∷ fields) =
    let rest = sensitive_fields names fields in
    if is_sensitive names f.name then f.name ∷ rest else rest

-- `scrub_fields` keeps the fields whose names are not sensitive, in their order, and logs the names
-- of the others in theirs, each counted.
pub scrub_fields-eq-retain :
    (names : List Text) (location : RedactionLocation) (fields : List CapturedField) (log : Log)
    → scrub_fields names location fields log
      ≡ (retain (keeps names) fields, extend location (sensitive_fields names fields) log)
unfolding scrub_fields sensitive_fields
scrub_fields-eq-retain names location [] log = rw extend-nil
scrub_fields-eq-retain names location (f ∷ fields) log =
    elim (Bool-cases (is_sensitive names f.name)) [
      | inl e ↦ rw (
        e,
        scrub_fields-eq-retain names location fields (note location f.name log),
        extend-note location f.name (sensitive_fields names fields) log,
      )
      | inr e ↦ rw (e, scrub_fields-eq-retain names location fields log)
    ]

-- Without sensitive fields there is nothing to log.
pub sensitive_fields_of_kept :
    (names : List Text) (fields : List CapturedField)
    → All (λ f. keeps names f ≡ true) fields
    → sensitive_fields names fields ≡ []
unfolding sensitive_fields
sensitive_fields_of_kept names [] h = refl
sensitive_fields_of_kept names (f ∷ fields) (a, h) =
    ground (arith, sensitive_fields_of_kept names fields h)
