-- ===== src/Policy/Sanitize/Again.antt =====
-- Sanitizing twice: the second run, as the trusted core makes it, finds nothing left to do.
use code_is_cheap.Common.{
  ℕ, ◌≡◌, refl, sym, ap, subst, ◌∙◌, Bool, true, false, not, ◌||◌, Option, none, some, List,
  retain_of_All, Result, ok, fail_if-inv, ok_injective,
}
use code_is_cheap.Text.{Text}
use code_is_cheap.Json.{Value}
use code_is_cheap.Capture.{
  CaptureEnvelope, CaptureAttribution, CapturedField, CapturedRequest, CaptureOutcome, response,
  upstream_failure, RedactionLocation, header, query, body, response_header, response_body,
}
use code_is_cheap.Policy.{CapturePolicy, CaptureTarget, SanitizedCapture, PolicyError}
use code_is_cheap.Policy.Names.{normalized_names}
use code_is_cheap.Policy.Rules.{validate, covers, matching_target, valid_application_label}
use code_is_cheap.Policy.Rules.Valid.{validate_iff}
use code_is_cheap.Policy.Attribution.{attribution_for}
use code_is_cheap.Policy.Attribution.Labels.{attribution_for-valid}
use code_is_cheap.Policy.Scrub.{Log, scrub_fields}
use code_is_cheap.Policy.Scrub.Headers.{
  extend-nil, keeps, scrub_fields-eq-retain, sensitive_fields_of_kept,
}
use code_is_cheap.Policy.Scrub.Bodies.{scrub_json-eq-strip}
use code_is_cheap.Policy.Scrub.Purity.{strip_of_clean}
use code_is_cheap.Policy.Sanitize.{
  is_zero, settle_attribution, drop_label, scrub_content, scrub_body, scrub_request, scrub_outcome,
  scrub_envelope, opening_log, sanitize_envelope,
}
use code_is_cheap.Policy.Sanitize.Clean.{
  AreKept, HasCleanContent, IsCleanRequest, IsCleanOutcome, sanitize_envelope-Success,
  sanitize_envelope-IsClean,
}

module _ (names : List Text) where
  scrub_fields_of_kept :
      (location : RedactionLocation) (fields : List CapturedField) (log : Log)
      → AreKept names fields
      → scrub_fields names location fields log ≡ (fields, log)
  scrub_fields_of_kept location fields log h = rw scrub_fields-eq-retain (
      rw
        (retain_of_All (keeps names) fields h, sensitive_fields_of_kept names fields h, extend-nil))

  scrub_content_of_clean :
      (location : RedactionLocation) (o : Option Value) (log : Log)
      → HasCleanContent names o
      → scrub_content names location o log ≡ (o, log)
  unfolding scrub_content
  scrub_content_of_clean location none log h = refl
  scrub_content_of_clean location (some v) log h =
      let (same, gone) = strip_of_clean names v h in
      rw scrub_json-eq-strip (rw (same, gone, extend-nil))

  scrub_outcome_of_clean :
      (o : Option CaptureOutcome) (log : Log)
      → IsCleanOutcome names o
      → scrub_outcome names o log ≡ (o, log)
  unfolding scrub_outcome scrub_body
  scrub_outcome_of_clean none log h = refl
  scrub_outcome_of_clean (some (upstream_failure f)) log h = refl
  scrub_outcome_of_clean (some (response r)) log (h, k) = rw (
    scrub_fields_of_kept response_header r.headers log h,
    scrub_content_of_clean response_body r.body.content log k,
  )

scrub_request_of_clean :
    (policy : CapturePolicy) (r : CapturedRequest) (log : Log)
    → IsCleanRequest policy r
    → scrub_request policy (normalized_names policy) r log ≡ (r, log)
unfolding scrub_request scrub_body drop_label
scrub_request_of_clean policy r log h =
    let names = normalized_names policy in
    rw (
      retain_of_All _ r.headers h.unlabelled,
      scrub_fields_of_kept names header r.headers log h.headers,
      scrub_fields_of_kept names query r.query log h.query,
      scrub_content_of_clean names body r.body.content log h.content,
    )

scrub_envelope_of_clean :
    (policy : CapturePolicy) (e : CaptureEnvelope) (a : CaptureAttribution)
    → e.attribution ≡ some a
    → IsCleanRequest policy e.request
    → IsCleanOutcome (normalized_names policy) e.outcome
    → scrub_envelope policy e a ≡ (e, opening_log e)
unfolding scrub_envelope
scrub_envelope_of_clean policy e a given h k =
    rw
      (
        scrub_request_of_clean policy e.request (opening_log e) h,
        scrub_outcome_of_clean (normalized_names policy) e.outcome (opening_log e) k,
      )
      (λ i. (record e { attribution = sym given i }, opening_log e))

settle_some :
    (policy : CapturePolicy) (e : CaptureEnvelope) (a : CaptureAttribution)
    → (not (valid_application_label a.application policy.attribution.max_label_bytes)
        || is_zero a.process_id)
      ≡ false
    → settle_attribution policy e (some a) ≡ ok a
unfolding settle_attribution
settle_some policy e a h = rw h

rejects_nothing : (b : Bool) (p : Option ℕ) → b ≡ true → p ≡ none → (not b || is_zero p) ≡ false
rejects_nothing b p h k = rw (h, k)

settle_inv :
    (policy : CapturePolicy) (e : CaptureEnvelope) (b a : CaptureAttribution)
    → settle_attribution policy e (some b) ≡ ok a
    → ((not (valid_application_label b.application policy.attribution.max_label_bytes)
          || is_zero b.process_id)
        ≡ false)
      × (b ≡ a)
unfolding settle_attribution
settle_inv policy e b a h =
    let (passed, same) = fail_if-inv _ _ (ok b) a h in (passed, ok_injective same)

-- An attribution that was settled once is settled to itself.
settle_again :
    (policy : CapturePolicy) (e e' : CaptureEnvelope) (o : Option CaptureAttribution)
    (a : CaptureAttribution)
    → validate policy ≡ ok tt
    → settle_attribution policy e o ≡ ok a
    → settle_attribution policy e' (some a) ≡ ok a
settle_again policy e e' none a valid h =
    let found : attribution_for policy.attribution e.source e.request.headers ≡ a =
      unfold settle_attribution in ok_injective h in
    let (label, process) =
      attribution_for-valid policy.attribution e.source e.request.headers
        ((validate_iff policy).0 valid).attribution in
    settle_some policy e' a (
      subst
        (λ z.
          (not (valid_application_label z.application policy.attribution.max_label_bytes)
            || is_zero z.process_id)
          ≡ false)
        found (rejects_nothing _ _ label process))
settle_again policy e e' (some b) a valid h =
    let (passed, same) = settle_inv policy e b a h in
    subst (λ z. settle_attribution policy e' (some z) ≡ ok z) same (settle_some policy e' b passed)

matching_again :
    (policy : CapturePolicy) (e : CaptureEnvelope) (a : CaptureAttribution)
    → matching_target policy (scrub_envelope policy e a).0.request
      ≡ matching_target policy e.request
unfolding matching_target covers scrub_envelope scrub_request
matching_again policy e a = refl

sanitize_envelope_ok :
    (policy : CapturePolicy) (e e' : CaptureEnvelope) (a : CaptureAttribution) (t : CaptureTarget)
    → validate policy ≡ ok tt
    → matching_target policy e.request ≡ some t
    → settle_attribution policy e e.attribution ≡ ok a
    → scrub_envelope policy e a ≡ (e', opening_log e)
    → sanitize_envelope policy e
      ≡ ok (record { envelope = e'; target_id = t.id; newly_redacted = 0 })
unfolding sanitize_envelope
sanitize_envelope_ok policy e e' a t valid matched settled scrubbed =
    rw (valid, matched, settled, scrubbed)

attribution_kept :
    (policy : CapturePolicy) (e : CaptureEnvelope) (a : CaptureAttribution)
    → (scrub_envelope policy e a).0.attribution ≡ some a
unfolding scrub_envelope
attribution_kept policy e a = refl

abbrev unchanged : CaptureEnvelope → Text → Result PolicyError SanitizedCapture
unchanged e id = ok (record { envelope = e; target_id = id; newly_redacted = 0 })

again_result : (e : CaptureEnvelope) {x y : Text} → x ≡ y → unchanged e x ≡ unchanged e y
again_result e p = ap (unchanged e) p

-- What `sanitize_envelope` returns it accepts again: it gives the same envelope and target, and
-- reports no new redaction.
pub sanitize_envelope_again :
    (policy : CapturePolicy) (e : CaptureEnvelope) (s : SanitizedCapture)
    → sanitize_envelope policy e ≡ ok s
    → sanitize_envelope policy s.envelope
      ≡ ok (record { envelope = s.envelope; target_id = s.target_id; newly_redacted = 0 })
sanitize_envelope_again policy e s h =
    let run = sanitize_envelope-Success policy e s h in
    let (request, outcome) = sanitize_envelope-IsClean policy e s h in
    let a = run.attribution in
    let given : s.envelope.attribution ≡ some a =
      ap (λ (z : SanitizedCapture). z.envelope.attribution) run.result
      ∙ attribution_kept policy e a in
    let matched =
      ap (λ (z : SanitizedCapture). matching_target policy z.envelope.request) run.result
      ∙ matching_again policy e a
      ∙ run.matched in
    let settled =
      subst (λ o. settle_attribution policy s.envelope o ≡ ok a) (sym given)
        (settle_again policy e s.envelope e.attribution a run.valid run.settled) in
    sanitize_envelope_ok policy s.envelope s.envelope a run.target run.valid matched settled
      (scrub_envelope_of_clean policy s.envelope a given request outcome)
    ∙ again_result s.envelope (sym (ap (λ (z : SanitizedCapture). z.target_id) run.result))
