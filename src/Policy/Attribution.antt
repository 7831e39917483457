-- ===== src/Policy/Attribution.antt =====
-- `attribution_for` of crates/capture-policy/src/lib.rs: which application a request comes from.
pub mod Labels
use code_is_cheap.Common.{ℕ, Bool, Option, none, some, List, any, find, if◌then◌else◌}
use code_is_cheap.Text.{Text, text, trim, to_ascii_lowercase, eq_ignore_ascii_case, contains_text}
use code_is_cheap.Capture.{
  CaptureSource, gateway, mitmproxy, CaptureAttribution, AttributionSource, AttributionConfidence,
  CapturedField, client_label, user_agent, capture_mode, high, medium, low,
}
use code_is_cheap.Policy.{CapturePolicy, UserAgentRule, AttributionPolicy}
use code_is_cheap.Policy.Rules.{valid_application_label}

abbrev pub field_value : Option CapturedField → Option Text
field_value none = none
field_value (some field) = some field.value

unfoldable pub header_value : List CapturedField → Text → Option Text
unfolding eq_ignore_ascii_case
header_value headers name =
    field_value (find (λ field. eq_ignore_ascii_case field.name name) headers)

unfoldable pub normalized_application_label : Text → ℕ → Option Text
unfolding trim valid_application_label
normalized_application_label value max_bytes =
    let trimmed = trim value in
    if valid_application_label trimmed max_bytes then some trimmed else none

-- `and_then` of the label.
abbrev label_of : Option Text → ℕ → Option Text
label_of none max_bytes = none
label_of (some value) max_bytes = normalized_application_label value max_bytes

unfoldable pub client_label_for : AttributionPolicy → List CapturedField → Option Text
unfolding header_value normalized_application_label
client_label_for policy headers =
    label_of (header_value headers policy.client_label_header) policy.max_label_bytes

unfoldable pub rule_for : List UserAgentRule → Option Text → Option UserAgentRule
unfolding to_ascii_lowercase contains_text
rule_for rules none = none
rule_for rules (some agent) =
    let normalized = to_ascii_lowercase agent in
    find (λ rule. any (λ pattern. contains_text pattern normalized) rule.patterns) rules

abbrev pub fallback : AttributionPolicy → CaptureSource → Text
fallback policy gateway = policy.gateway_fallback
fallback policy mitmproxy = policy.proxy_fallback

abbrev pub attributed : Text → AttributionSource → AttributionConfidence → CaptureAttribution
attributed application source confidence = record {
  application = application;
  source = source;
  confidence = confidence;
  process_id = none;
}

-- The label of the client, or the rule of its user agent, or what the source falls back to.
unfoldable pub choose_attribution :
    AttributionPolicy → CaptureSource → Option Text → Option UserAgentRule → CaptureAttribution
choose_attribution policy source (some label) rule = attributed label client_label high
choose_attribution policy source none (some rule) = attributed rule.application user_agent medium
choose_attribution policy source none none = attributed (fallback policy source) capture_mode low

unfoldable pub attribution_for :
    AttributionPolicy → CaptureSource → List CapturedField → CaptureAttribution
unfolding client_label_for rule_for header_value choose_attribution
attribution_for policy source headers =
    choose_attribution policy source (client_label_for policy headers)
      (rule_for policy.user_agents (header_value headers (text "user-agent")))
