-- ===== src/PromptIr/Entries.antt =====
-- When the checks of evidence and of parts find no error.
use code_is_cheap.Common.{
  ℕ, ◌+◌, ◌≡◌, refl, ◌↔◌, true, false, not, ◌&&◌, ◌||◌, Option, none, some, List, [], ◌∷◌, ◌++◌,
  map, All, arith,
}
use code_is_cheap.Text.{Text, text}
use code_is_cheap.Floats.{Float, in_unit, is_finite}
use code_is_cheap.PromptIr.{
  Evidence, EvidenceLevel, observed, derived, inferred, unknown_level, EvidenceSource, PromptPart,
  part_id, part_evidence,
}
use code_is_cheap.PromptIr.Checks.{
  is_blank, is_observed, is_inferred, is_missing, has_no_rule, check_confidence, check_evidence,
  check_parts,
}
use code_is_cheap.PromptIr.Adds.{
  Adds, Adds-then, Adds-skip, Adds-iff, report_if-Adds, register_id-Adds,
}

abbrev pub IsGoodConfidence : Option Float → Type 0
IsGoodConfidence none = Unit
IsGoodConfidence (some value) = (in_unit value ≡ true) × (is_finite value ≡ true)

-- Observed evidence has a source, and inferred evidence a rule.
abbrev pub IsSupported : EvidenceLevel → Option EvidenceSource → Option Text → Type 0
IsSupported observed none rule_id = ⊥
IsSupported observed (some source) rule_id = Unit
IsSupported inferred source none = ⊥
IsSupported inferred source (some rule_id) = is_blank rule_id ≡ false
IsSupported derived source rule_id = Unit
IsSupported unknown_level source rule_id = Unit

abbrev pub IsGoodEvidence : Evidence → Type 0
IsGoodEvidence e = IsGoodConfidence e.confidence × IsSupported e.level e.source e.rule_id

abbrev pub IsGoodPart : PromptPart → Type 0
IsGoodPart part = IsGoodEvidence (part_evidence part)

pub check_confidence-Adds :
    (c : Option Float) (path : Text) → Adds (check_confidence c path) [] (IsGoodConfidence c)
unfolding check_confidence
check_confidence-Adds none path = Adds-skip
check_confidence-Adds (some value) path =
    Adds-iff (ground arith) (report_if-Adds (not (in_unit value) || not (is_finite value)) _)

support_iff :
    (level : EvidenceLevel) (source : Option EvidenceSource) (rule_id : Option Text)
    → (((is_observed level && is_missing source) ≡ false)
        × ((is_inferred level && has_no_rule rule_id) ≡ false))
      ↔ IsSupported level source rule_id
unfolding has_no_rule
support_iff observed none rule_id = (λ h. absurd (cc (h.0)), λ h. absurd h)
support_iff observed (some source) rule_id = (λ h. tt, λ h. (refl, refl))
support_iff inferred source none = (λ h. absurd (cc (h.1)), λ h. absurd h)
support_iff inferred source (some rule_id) = (λ h. h.1, λ h. (refl, h))
support_iff derived source rule_id = (λ h. tt, λ h. (refl, refl))
support_iff unknown_level source rule_id = (λ h. tt, λ h. (refl, refl))

pub check_evidence-Adds :
    (e : Evidence) (path : Text) → Adds (check_evidence e path) [] (IsGoodEvidence e)
unfolding check_evidence
check_evidence-Adds e path =
    Adds-iff
      (
        λ ((c, o), i). (c, (support_iff e.level e.source e.rule_id).0 (o, i)),
        λ (c, h). let (o, i) = (support_iff e.level e.source e.rule_id).1 h in ((c, o), i),
      )
      (Adds-then
        (Adds-then (check_confidence-Adds e.confidence (path ++ text ".confidence"))
          (report_if-Adds (is_observed e.level && is_missing e.source) _))
        (report_if-Adds (is_inferred e.level && has_no_rule e.rule_id) _))

pub check_parts-Adds :
    (parts : List PromptPart) (path : Text) (index : ℕ)
    → Adds (check_parts parts path index) (map part_id parts) (All IsGoodPart parts)
unfolding check_parts
check_parts-Adds [] path index = Adds-skip
check_parts-Adds (part ∷ parts) path index =
    Adds-iff (λ ((u, e), h). (e, h), λ (e, h). ((tt, e), h))
      (Adds-then
        (Adds-then (register_id-Adds (part_id part) _) (check_evidence-Adds (part_evidence part) _))
        (check_parts-Adds parts path (index + 1)))
