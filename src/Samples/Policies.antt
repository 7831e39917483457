-- ===== src/Samples/Policies.antt =====
-- A small policy, an envelope with secrets in it, and the theorems about both.
use mathlib.Core.List.{Perm}
use code_is_cheap.Common.{
  ◌≤◌, ◌≡◌, refl, ◌↔◌, true, none, some, List, [], ◌∷◌, ◌++◌, map, length, All, any, ◌||◌, ◌&&◌, ok,
}
use code_is_cheap.Text.{Text, text, utf8, contains, eq_ignore_ascii_case}
use code_is_cheap.Json.{Value, null, string, array, object, nil, item, end, field}
use code_is_cheap.Capture.{
  CaptureEnvelope, CapturedField, CapturedRequest, CaptureRedaction, gateway, json, header, query,
  body, client_label, high,
}
use code_is_cheap.Policy.{
  CapturePolicy, CaptureTarget, SanitizedCapture, default_attribution, capture_policy_version,
}
use code_is_cheap.Text.Distinct.{AreDistinct}
use code_is_cheap.Wildcard.{wildcard_match}
use code_is_cheap.Policy.Names.{normalize_name, normalized_names, is_sensitive}
use code_is_cheap.Policy.Hosts.{normalize_host, normalize_additional_hosts}
use code_is_cheap.Policy.Hosts.Sorting.{IsSorted}
use code_is_cheap.Policy.Hosts.Laws.{AreValid, normalize_additional_hosts-ok}
use code_is_cheap.Policy.Rules.{
  validate, with_additional_hosts, matching_target, covers, push_hosts, widen_target,
  valid_application_label,
}
use code_is_cheap.Policy.Rules.Valid.{IsWellFormed, validate_iff}
use code_is_cheap.Policy.Rules.Widen.{covers-widen_target, with_additional_hosts_mono}
use code_is_cheap.Policy.Attribution.{attribution_for}
use code_is_cheap.Policy.Attribution.Labels.{attribution_for-valid}
use code_is_cheap.Policy.Scrub.{scrub_json}
use code_is_cheap.Policy.Scrub.Headers.{extend}
use code_is_cheap.Policy.Scrub.Bodies.{strip, stripped, scrub_json-eq-strip}
use code_is_cheap.Policy.Scrub.Paths.{key, index, head_at, head_at-scrub_json}
use code_is_cheap.Policy.Sanitize.{
  settle_attribution, scrub_request, scrub_outcome, scrub_envelope, opening_log, sanitize_envelope,
}
use code_is_cheap.Policy.Sanitize.Clean.{
  IsCleanRequest, IsCleanOutcome, sanitize_envelope-IsClean, sanitize_envelope-redactions,
}
use code_is_cheap.Policy.Sanitize.Again.{sanitize_envelope_again}

abbrev target : CaptureTarget
target = record {
  id = text "openai";
  hosts = text "api.openai.com" ∷ [];
  methods = text "POST" ∷ [];
  paths = text "/v1/*" ∷ [];
}

abbrev pub policy : CapturePolicy
policy = record {
  version = capture_policy_version;
  targets = target ∷ [];
  sensitive_names = text "authorization" ∷ text "api-key" ∷ [];
  attribution = default_attribution;
}

abbrev pub named : Text → Text → CapturedField
named n v = record { name = n; value = v }

abbrev pub request : CapturedRequest
request = record {
  method = text "post";
  scheme = text "https";
  host = text "API.OpenAI.com.";
  port = 443;
  path = text "/v1/chat";
  query = named (text "API_KEY") (text "k") ∷ named (text "q") (text "1") ∷ [];
  headers =
      named (text "Authorization") (text "Bearer s")
      ∷ named (text "X-CodeIsCheap-Client") (text " Cursor ")
      ∷ named (text "accept") (text "*")
      ∷ [];
  body = record {
    state = json;
    content = some (
        object (
          field (text "apiKey") (string (text "s"))
            (field (text "m") (array (item (object (field (text "Api Key") null end)) nil)) end)));
  };
}

abbrev pub envelope : CaptureEnvelope
envelope = record {
  version = text "0.1";
  capture_id = text "c1";
  observed_at_unix_ms = 7;
  source = gateway;
  attribution = none;
  request = request;
  outcome = none;
  redactions = [];
}

policy_valid : validate policy ≡ ok tt
unfolding validate
policy_valid = refl

in_scope : matching_target policy request ≡ some target
unfolding matching_target covers utf8
in_scope = refl

abbrev pub cleaned : SanitizedCapture
cleaned = record {
  envelope = record envelope {
    attribution = some (record {
      application = text "Cursor";
      source = client_label;
      confidence = high;
      process_id = none;
    });
    request = record request {
      query = named (text "q") (text "1") ∷ [];
      headers = named (text "accept") (text "*") ∷ [];
      body = record {
        state = json;
        content = some (object (field (text "m") (array (item (object end) nil)) end));
      };
    };
    redactions =
        record { location = header; name = text "Authorization" }
        ∷ record { location = query; name = text "API_KEY" }
        ∷ record { location = body; name = text "apiKey" }
        ∷ record { location = body; name = text "Api Key" }
        ∷ [];
  };
  target_id = text "openai";
  newly_redacted = 4;
}

runs : sanitize_envelope policy envelope ≡ ok cleaned
unfolding sanitize_envelope validate matching_target covers utf8 settle_attribution scrub_envelope
    scrub_request scrub_outcome normalized_names normalize_name
runs = refl

sanitize_envelope-IsClean_example :
    IsCleanRequest policy cleaned.envelope.request
    × IsCleanOutcome (normalized_names policy) cleaned.envelope.outcome
sanitize_envelope-IsClean_example = sanitize_envelope-IsClean policy envelope cleaned runs

sanitize_envelope-redactions_example :
    (entries : List CaptureRedaction) × (cleaned.envelope.redactions ≡ [] ++ entries)
    × (4 ≡ length entries)
    × All (λ r. is_sensitive (normalized_names policy) r.name ≡ true) entries
sanitize_envelope-redactions_example = sanitize_envelope-redactions policy envelope cleaned runs

sanitize_envelope_again_example :
    sanitize_envelope policy cleaned.envelope
    ≡ ok (record { envelope = cleaned.envelope; target_id = text "openai"; newly_redacted = 0 })
sanitize_envelope_again_example = sanitize_envelope_again policy envelope cleaned runs

validate_iff_example : (validate policy ≡ ok tt) ↔ IsWellFormed policy
validate_iff_example = validate_iff policy

attribution_for-valid_example :
    (valid_application_label
        (attribution_for default_attribution gateway request.headers).application
        64
      ≡ true)
    × ((attribution_for default_attribution gateway request.headers).process_id ≡ none)
attribution_for-valid_example =
    attribution_for-valid default_attribution gateway request.headers
      ((validate_iff policy).0 policy_valid).attribution

abbrev extra_hosts : List Text
extra_hosts = text "B.example" ∷ text "a.example." ∷ []

abbrev widened : CapturePolicy
widened = record policy {
  targets =
      record target { hosts = text "api.openai.com" ∷ text "a.example" ∷ text "b.example" ∷ [] }
      ∷ [];
}

normalizes : normalize_additional_hosts extra_hosts ≡ ok (text "a.example" ∷ text "b.example" ∷ [])
unfolding normalize_additional_hosts
normalizes = refl

widens : with_additional_hosts policy extra_hosts ≡ ok widened
unfolding with_additional_hosts normalize_additional_hosts validate push_hosts
widens = refl

with_additional_hosts_mono_example :
    (validate widened ≡ ok tt)
    × ((t' : CaptureTarget) × (matching_target widened request ≡ some t'))
with_additional_hosts_mono_example =
    with_additional_hosts_mono policy widened extra_hosts request target widens in_scope

normalize_additional_hosts-ok_example :
    (2 ≤ 16)
    × Perm (text "a.example" ∷ text "b.example" ∷ []) (map normalize_host extra_hosts)
    × IsSorted (text "a.example" ∷ text "b.example" ∷ [])
    × AreDistinct (text "a.example" ∷ text "b.example" ∷ [])
    × AreValid (text "a.example" ∷ text "b.example" ∷ [])
normalize_additional_hosts-ok_example =
    normalize_additional_hosts-ok extra_hosts (text "a.example" ∷ text "b.example" ∷ []) normalizes

scrub_json-eq-strip_example :
    scrub_json
      (normalized_names policy)
      body
      (object (field (text "API key") null end))
      (opening_log envelope)
    ≡ (
      strip (normalized_names policy) (object (field (text "API key") null end)),
      extend body
          (stripped (normalized_names policy) (object (field (text "API key") null end)))
          (opening_log envelope),
    )
scrub_json-eq-strip_example =
    scrub_json-eq-strip (normalized_names policy) body (object (field (text "API key") null end))
      (opening_log envelope)

abbrev nested : Value
nested = object (field (text "a") (array (item (object (field (text "api-key") null end)) nil)) end)

-- The key `api-key` is sensitive.
head_at-scrub_json_example :
    head_at
      (key (text "a") ∷ index 0 ∷ key (text "api-key") ∷ [])
      (scrub_json (normalized_names policy) body nested (opening_log envelope)).0
    ≡ none
unfolding is_sensitive normalized_names normalize_name contains
head_at-scrub_json_example =
    head_at-scrub_json (normalized_names policy) body
      (key (text "a") ∷ index 0 ∷ key (text "api-key") ∷ []) nested (opening_log envelope)

covers-widen_target_example : covers request (widen_target (text "b.example" ∷ []) target) ≡ (
    (contains (normalize_host request.host) target.hosts
      || contains (normalize_host request.host) (text "b.example" ∷ []))
    && any (λ allowed. eq_ignore_ascii_case allowed request.method) target.methods
    && any (λ pattern. wildcard_match pattern request.path) target.paths)
covers-widen_target_example = covers-widen_target request (text "b.example" ∷ []) target
