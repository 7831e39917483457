-- ===== src/Policy/Sanitize.antt =====
-- `CapturePolicy::sanitize_envelope` of crates/capture-policy/src/lib.rs.
pub mod Growth
pub mod Clean
pub mod Again
use code_is_cheap.Common.{
  ℕ, Bool, true, false, not, ◌||◌, Option, none, some, List, [], ◌∷◌, ◌==◌, retain, Result, ok, err,
  ◌>>=◌, ◌>>◌, fail_if, ok_or,
}
use code_is_cheap.Text.{Text, text, eq_ignore_ascii_case}
use code_is_cheap.Json.{Value}
use code_is_cheap.Capture.{
  CaptureEnvelope, CaptureSource, CaptureAttribution, CapturedField, CapturedRequest, CapturedBody,
  CapturedResponse, CaptureOutcome, response, upstream_failure, RedactionLocation, header, query,
  body, response_header, response_body,
}
use code_is_cheap.Policy.{
  CapturePolicy, SanitizedCapture, PolicyError, out_of_scope, invalid_attribution,
}
use code_is_cheap.Policy.Names.{normalized_names}
use code_is_cheap.Policy.Rules.{validate, matching_target, valid_application_label}
use code_is_cheap.Policy.Attribution.{attribution_for}
use code_is_cheap.Policy.Scrub.{Log, scrub_fields, scrub_json}

abbrev pub is_zero : Option ℕ → Bool
is_zero none = false
is_zero (some n) = n == 0

-- The attribution that the envelope brings is checked; a missing one is worked out.
unfoldable pub settle_attribution :
    CapturePolicy
    → CaptureEnvelope
    → Option CaptureAttribution
    → Result PolicyError CaptureAttribution
unfolding valid_application_label attribution_for
settle_attribution policy envelope none =
    ok (attribution_for policy.attribution envelope.source envelope.request.headers)
settle_attribution policy envelope (some a) = do
  fail_if
      (not (valid_application_label a.application policy.attribution.max_label_bytes)
        || is_zero a.process_id)
      (invalid_attribution (text "capture attribution is invalid"))
  ok a

-- `request.headers.retain(…)`: the header with the client's label goes.
unfoldable pub drop_label : CapturePolicy → List CapturedField → List CapturedField
unfolding eq_ignore_ascii_case
drop_label policy headers =
    retain (λ f. not (eq_ignore_ascii_case f.name policy.attribution.client_label_header)) headers

unfoldable pub scrub_content :
    List Text → RedactionLocation → Option Value → Log → Option Value × Log
unfolding scrub_json
scrub_content names location none log = (none, log)
scrub_content names location (some content) log =
    let (content', log') = scrub_json names location content log in (some content', log')

unfoldable pub scrub_body : List Text → RedactionLocation → CapturedBody → Log → CapturedBody × Log
unfolding scrub_content
scrub_body names location b log =
    let (content, log') = scrub_content names location b.content log in
    (record b { content = content }, log')

unfoldable pub scrub_request :
    CapturePolicy → List Text → CapturedRequest → Log → CapturedRequest × Log
unfolding drop_label scrub_fields scrub_body
scrub_request policy names request log =
    let (headers, log1) = scrub_fields names header (drop_label policy request.headers) log in
    let (kept, log2) = scrub_fields names query request.query log1 in
    let (content, log3) = scrub_body names body request.body log2 in
    (record request { headers = headers; query = kept; body = content }, log3)

unfoldable pub scrub_outcome : List Text → Option CaptureOutcome → Log → Option CaptureOutcome × Log
unfolding scrub_fields scrub_body
scrub_outcome names none log = (none, log)
scrub_outcome names (some (upstream_failure f)) log = (some (upstream_failure f), log)
scrub_outcome names (some (response r)) log =
    let (headers, log1) = scrub_fields names response_header r.headers log in
    let (content, log2) = scrub_body names response_body r.body log1 in
    (some (response (record r { headers = headers; body = content })), log2)

abbrev pub opening_log : CaptureEnvelope → Log
opening_log envelope = record { redactions = envelope.redactions; newly_redacted = 0 }

-- The part of `sanitize_envelope` that cannot fail.
unfoldable pub scrub_envelope :
    CapturePolicy → CaptureEnvelope → CaptureAttribution → CaptureEnvelope × Log
scrub_envelope policy envelope attribution =
    let names = normalized_names policy in
    let (request, log1) = scrub_request policy names envelope.request (opening_log envelope) in
    let (outcome, log2) = scrub_outcome names envelope.outcome log1 in
    (
      record envelope {
        attribution = some attribution;
        request = request;
        outcome = outcome;
        redactions = log2.redactions;
      },
      log2,
    )

unfoldable pub sanitize_envelope :
    CapturePolicy → CaptureEnvelope → Result PolicyError SanitizedCapture
sanitize_envelope policy envelope = do
  validate policy
  target ← ok_or (matching_target policy envelope.request) out_of_scope
  attribution ← settle_attribution policy envelope envelope.attribution
  let scrubbed = scrub_envelope policy envelope attribution
  ok (record {
    envelope = scrubbed.0;
    target_id = target.id;
    newly_redacted = scrubbed.1.newly_redacted;
  })
