-- ===== src/Policy/Attribution/Labels.antt =====
-- The application that `attribution_for` names is always a valid label.
use code_is_cheap.Common.{
  ℕ, ◌≡◌, refl, subst, Bool, true, Option, none, some, List, arith, All, All-find, if◌then◌else◌,
}
use code_is_cheap.Text.{Text, text, trim}
use code_is_cheap.Capture.{CaptureSource, gateway, mitmproxy, CapturedField}
use code_is_cheap.Policy.{AttributionPolicy, UserAgentRule}
use code_is_cheap.Policy.Rules.{valid_application_label}
use code_is_cheap.Policy.Rules.Valid.{IsGoodRule, IsGoodAttribution}
use code_is_cheap.Policy.Attribution.{
  normalized_application_label, label_of, header_value, client_label_for, rule_for, fallback,
  choose_attribution, attribution_for,
}

if_some : (b : Bool) (x l : Text) → (if b then some x else none) ≡ some l → (b ≡ true) × (x ≡ l)
if_some b x l h = ground arith

normalized_label_valid :
    (value : Text) (max_bytes : ℕ) (l : Text)
    → normalized_application_label value max_bytes ≡ some l
    → valid_application_label l max_bytes ≡ true
unfolding normalized_application_label
normalized_label_valid value max_bytes l h =
    let (valid, e) = if_some (valid_application_label (trim value) max_bytes) (trim value) l h in
    subst (λ w. valid_application_label w max_bytes ≡ true) e valid

label_of_valid :
    (o : Option Text) (max_bytes : ℕ) (l : Text)
    → label_of o max_bytes ≡ some l
    → valid_application_label l max_bytes ≡ true
label_of_valid none max_bytes l h = absurd (ground arith)
label_of_valid (some v) max_bytes l h = normalized_label_valid v max_bytes l h

rule_for_good :
    (max_bytes : ℕ) (rules : List UserAgentRule) (agent : Option Text) (r : UserAgentRule)
    → All (IsGoodRule max_bytes) rules
    → rule_for rules agent ≡ some r
    → IsGoodRule max_bytes r
unfolding rule_for
rule_for_good max_bytes rules none r h e = absurd (ground arith)
rule_for_good max_bytes rules (some agent) r h e = All-find (IsGoodRule max_bytes) _ rules r h e

fallback_valid :
    (a : AttributionPolicy) (source : CaptureSource)
    → IsGoodAttribution a
    → valid_application_label (fallback a source) a.max_label_bytes ≡ true
fallback_valid a gateway h = h.gateway
fallback_valid a mitmproxy h = h.proxy

choose_attribution-valid :
    (a : AttributionPolicy) (source : CaptureSource) (o : Option Text) (q : Option UserAgentRule)
    → IsGoodAttribution a
    → ((l : Text) → o ≡ some l → valid_application_label l a.max_label_bytes ≡ true)
    → ((r : UserAgentRule) → q ≡ some r → IsGoodRule a.max_label_bytes r)
    → (valid_application_label (choose_attribution a source o q).application a.max_label_bytes
        ≡ true)
      × ((choose_attribution a source o q).process_id ≡ none)
unfolding choose_attribution
choose_attribution-valid a source (some l) q h lab rul = (lab l refl, refl)
choose_attribution-valid a source none (some r) h lab rul = ((rul r refl).label, refl)
choose_attribution-valid a source none none h lab rul = (fallback_valid a source h, refl)

client_label_for_valid :
    (a : AttributionPolicy) (headers : List CapturedField) (l : Text)
    → client_label_for a headers ≡ some l
    → valid_application_label l a.max_label_bytes ≡ true
unfolding client_label_for
client_label_for_valid a headers l =
    label_of_valid (header_value headers a.client_label_header) a.max_label_bytes l

-- Under an attribution policy that `validate` accepts, whatever the headers, `attribution_for`
-- names an application by a label that passes `valid_application_label`, and names no process.
pub attribution_for-valid :
    (a : AttributionPolicy) (source : CaptureSource) (headers : List CapturedField)
    → IsGoodAttribution a
    → (valid_application_label (attribution_for a source headers).application a.max_label_bytes
        ≡ true)
      × ((attribution_for a source headers).process_id ≡ none)
unfolding attribution_for
attribution_for-valid a source headers h =
    let agent = header_value headers (text "user-agent") in
    choose_attribution-valid a source (client_label_for a headers) (rule_for a.user_agents agent) h
      (client_label_for_valid a headers)
      λ r e. rule_for_good a.max_label_bytes a.user_agents agent r h.rules e
