-- ===== src/PromptIr/Checks.antt =====
-- crates/prompt-ir/src/validation.rs: the single checks. Each adds its errors to those found before,
-- and `register_id` also adds to the ids seen.
use code_is_cheap.Common.{
  ℕ, ◌+◌, Bool, true, false, not, ◌&&◌, ◌||◌, if◌then◌else◌, Option, none, some, List, [], ◌∷◌,
  ◌++◌, is_empty,
}
use code_is_cheap.Text.{Text, text, trim, contains}
use code_is_cheap.Text.Numbers.{decimal}
use code_is_cheap.Floats.{Float, is_finite, in_unit}
use code_is_cheap.PromptIr.{
  Evidence, EvidenceLevel, observed, inferred, EvidenceSource, PromptPart, part_id, part_evidence,
}

pub data ValidationError : Type 0 where
  unsupported_version : Text → Text → ValidationError
  empty_field : Text → ValidationError
  duplicate_id : Text → ValidationError
  invalid_confidence : Text → Float → ValidationError
  observed_evidence_missing_source : Text → ValidationError
  inferred_evidence_missing_rule : Text → ValidationError
  invalid_metric : Text → ValidationError

-- The two mutable variables of `validate`.
pub record Checks : Type 0 where
  pub ids : List Text
  pub errors : List ValidationError

abbrev pub Check : Type 0
Check = Checks → Checks

-- `if test { errors.push(error) }`
abbrev pub report_if : Bool → ValidationError → Check
report_if test error s = if test then record s { errors = s.errors ++ error ∷ [] } else s

unfoldable pub is_blank : Text → Bool
is_blank value = is_empty (trim value)

-- `format!("{name}[{index}]")`
abbrev pub indexed : Text → ℕ → Text
indexed name index = name ++ text "[" ++ decimal index ++ text "]"

unfoldable pub register_id : Text → Text → Check
register_id id path s =
    if is_blank id
    then record s { errors = s.errors ++ empty_field (path ++ text ".id") ∷ [] }
    else if contains id s.ids
    then record s { errors = s.errors ++ duplicate_id id ∷ [] }
    else record s { ids = id ∷ s.ids }

unfoldable pub check_non_empty : Text → Text → Check
check_non_empty value path = report_if (is_blank value) (empty_field path)

unfoldable pub check_confidence : Option Float → Text → Check
check_confidence none path s = s
check_confidence (some value) path s =
    report_if (not (in_unit value) || not (is_finite value)) (invalid_confidence path value) s

abbrev pub is_observed : EvidenceLevel → Bool
is_observed observed = true
is_observed _ = false

abbrev pub is_inferred : EvidenceLevel → Bool
is_inferred inferred = true
is_inferred _ = false

abbrev pub is_missing : Option EvidenceSource → Bool
is_missing none = true
is_missing (some source) = false

unfoldable pub has_no_rule : Option Text → Bool
has_no_rule none = true
has_no_rule (some rule_id) = is_blank rule_id

unfoldable pub check_evidence : Evidence → Text → Check
check_evidence evidence path s =
    report_if (is_inferred evidence.level && has_no_rule evidence.rule_id)
      (inferred_evidence_missing_rule path)
      (report_if (is_observed evidence.level && is_missing evidence.source)
        (observed_evidence_missing_source path)
        (check_confidence evidence.confidence (path ++ text ".confidence") s))

-- `check_parts` from the part number `index` on.
unfoldable pub check_parts : List PromptPart → Text → ℕ → Check
check_parts [] parent_path index s = s
check_parts (part ∷ parts) parent_path index s =
    let path = indexed (parent_path ++ text ".parts") index in
    check_parts parts parent_path (index + 1) (
      check_evidence (part_evidence part) (path ++ text ".evidence")
        (register_id (part_id part) path s))
