-- ===== src/Policy/Sanitize/Clean.antt =====
-- What comes out of `sanitize_envelope`: no sensitive name is left in any part of the envelope, and
-- the redactions account for everything that went.
use code_is_cheap.Common.{
  ◌≡◌, refl, sym, true, not, Option, none, some, List, ◌++◌, arith, length, All, All-retain, Result,
  ok, err, ◌>>=◌, ◌>>◌, retain-All, ok_or,
}
use code_is_cheap.Text.{Text, eq_ignore_ascii_case}
use code_is_cheap.Json.{Value}
use code_is_cheap.Capture.{
  CaptureEnvelope, CaptureAttribution, CapturedField, CapturedRequest, CaptureRedaction,
  CaptureOutcome, response, upstream_failure, RedactionLocation, header, query, body,
  response_header, response_body,
}
use code_is_cheap.Policy.{CapturePolicy, CaptureTarget, SanitizedCapture, PolicyError, out_of_scope}
use code_is_cheap.Policy.Rules.{validate, matching_target}
use code_is_cheap.Policy.Names.{normalized_names, is_sensitive}
use code_is_cheap.Policy.Sanitize.Growth.{envelope-Grows}
use code_is_cheap.Policy.Scrub.{Log, scrub_fields}
use code_is_cheap.Policy.Scrub.Headers.{keeps, scrub_fields-eq-retain}
use code_is_cheap.Policy.Scrub.Bodies.{scrub_json-eq-strip}
use code_is_cheap.Policy.Scrub.Purity.{IsClean, strip-IsClean}
use code_is_cheap.Policy.Sanitize.{
  settle_attribution, sanitize_envelope, drop_label, scrub_content, scrub_body, scrub_request,
  scrub_outcome, scrub_envelope, opening_log,
}

abbrev pub AreKept : List Text → List CapturedField → Type 0
AreKept names fields = All (λ f. keeps names f ≡ true) fields

abbrev pub HasCleanContent : List Text → Option Value → Type 0
HasCleanContent names none = Unit
HasCleanContent names (some v) = IsClean names v

-- The header with the client's label is gone, and no field or key is sensitive.
pub record IsCleanRequest (policy : CapturePolicy) (r : CapturedRequest) : Type 0 where
  pub unlabelled :
      All
        (λ f. not (eq_ignore_ascii_case f.name policy.attribution.client_label_header) ≡ true)
        r.headers
  pub headers : AreKept (normalized_names policy) r.headers
  pub query : AreKept (normalized_names policy) r.query
  pub content : HasCleanContent (normalized_names policy) r.body.content

abbrev pub IsCleanOutcome : List Text → Option CaptureOutcome → Type 0
IsCleanOutcome names none = Unit
IsCleanOutcome names (some (upstream_failure f)) = Unit
IsCleanOutcome names (some (response r)) =
    AreKept names r.headers × HasCleanContent names r.body.content

ok_ne_err :
    {s : SanitizedCapture} {x : PolicyError}
    → ¬ (◌≡◌ {A = Result PolicyError SanitizedCapture} (err x) (ok s))
ok_ne_err e = cc

module _ (names : List Text) where
  scrub_fields-AreKept :
      (location : RedactionLocation) (fields : List CapturedField) (log : Log)
      → AreKept names (scrub_fields names location fields log).0
  scrub_fields-AreKept location fields log =
      rw scrub_fields-eq-retain (All-retain (keeps names) fields)

  scrub_content-HasCleanContent :
      (location : RedactionLocation) (o : Option Value) (log : Log)
      → HasCleanContent names (scrub_content names location o log).0
  unfolding scrub_content
  scrub_content-HasCleanContent location none log = tt
  scrub_content-HasCleanContent location (some v) log =
      rw scrub_json-eq-strip (strip-IsClean names v)

  scrub_outcome-IsCleanOutcome :
      (o : Option CaptureOutcome) (log : Log) → IsCleanOutcome names (scrub_outcome names o log).0
  unfolding scrub_outcome scrub_body
  scrub_outcome-IsCleanOutcome none log = tt
  scrub_outcome-IsCleanOutcome (some (upstream_failure f)) log = tt
  scrub_outcome-IsCleanOutcome (some (response r)) log = (
    scrub_fields-AreKept response_header r.headers log,
    scrub_content-HasCleanContent response_body r.body.content
        (scrub_fields names response_header r.headers log).1,
  )

scrub_request-IsCleanRequest :
    (policy : CapturePolicy) (r : CapturedRequest) (log : Log)
    → IsCleanRequest policy (scrub_request policy (normalized_names policy) r log).0
unfolding scrub_request scrub_body drop_label
scrub_request-IsCleanRequest policy r log =
    let names = normalized_names policy in
    let a = scrub_fields names header (drop_label policy r.headers) log in
    let b = scrub_fields names query r.query a.1 in
    record {
      unlabelled =
          rw scrub_fields-eq-retain
            (retain-All _ (keeps names) (drop_label policy r.headers) (All-retain _ r.headers));
      headers = scrub_fields-AreKept names header (drop_label policy r.headers) log;
      query = scrub_fields-AreKept names query r.query a.1;
      content = scrub_content-HasCleanContent names body r.body.content b.1;
    }

-- The successful runs of `sanitize_envelope`, taken apart.
pub record Success (policy : CapturePolicy) (e : CaptureEnvelope) (s : SanitizedCapture)
    : Type 0 where
  pub valid : validate policy ≡ ok tt
  pub target : CaptureTarget
  pub matched : matching_target policy e.request ≡ some target
  pub attribution : CaptureAttribution
  pub settled : settle_attribution policy e e.attribution ≡ ok attribution
  pub result : s ≡ record {
    envelope = (scrub_envelope policy e attribution).0;
    target_id = target.id;
    newly_redacted = (scrub_envelope policy e attribution).1.newly_redacted;
  }

invert :
    {T A : Type 0} (v : Result PolicyError (Unit {0})) (o : Option T) (r : Result PolicyError A)
    (result : T → A → SanitizedCapture) (s : SanitizedCapture)
    → (do v; t ← ok_or o out_of_scope; a ← r; ok (result t a)) ≡ ok s
    → (t : T) × (a : A) × (v ≡ ok tt) × (o ≡ some t) × (r ≡ ok a) × (result t a ≡ s)
invert (ok u) (some t) (ok a) result s h = (t, a, refl, refl, refl, cc)
invert (ok u) (some t) (err x) result s h = absurd (ok_ne_err h)
invert (ok u) none r result s h = absurd (ok_ne_err h)
invert (err x) o r result s h = absurd (ok_ne_err h)

pub sanitize_envelope-Success :
    (policy : CapturePolicy) (e : CaptureEnvelope) (s : SanitizedCapture)
    → sanitize_envelope policy e ≡ ok s
    → Success policy e s
unfolding sanitize_envelope
sanitize_envelope-Success policy e s h =
    let (t, a, valid, matched, settled, result) =
      invert (validate policy) (matching_target policy e.request)
        (settle_attribution policy e e.attribution) _ s h in
    record {
      valid = valid;
      target = t;
      matched = matched;
      attribution = a;
      settled = settled;
      result = sym result;
    }

-- If `sanitize_envelope` succeeds, no name of the policy is left in the headers, the query, the
-- request body, the response headers or the response body, at any depth of the JSON, and the
-- header with the client's label is gone.
pub sanitize_envelope-IsClean :
    (policy : CapturePolicy) (e : CaptureEnvelope) (s : SanitizedCapture)
    → sanitize_envelope policy e ≡ ok s
    → IsCleanRequest policy s.envelope.request
      × IsCleanOutcome (normalized_names policy) s.envelope.outcome
unfolding scrub_envelope
sanitize_envelope-IsClean policy e s h =
    let names = normalized_names policy in
    let run = sanitize_envelope-Success policy e s h in
    let first = scrub_request policy names e.request (opening_log e) in
    rw run.result (
      scrub_request-IsCleanRequest policy e.request (opening_log e),
      scrub_outcome-IsCleanOutcome names e.outcome first.1,
    )

-- If `sanitize_envelope` succeeds, the redactions are the old ones followed by `newly_redacted` new
-- ones, each for a name that the policy calls sensitive.
pub sanitize_envelope-redactions :
    (policy : CapturePolicy) (e : CaptureEnvelope) (s : SanitizedCapture)
    → sanitize_envelope policy e ≡ ok s
    → (entries : List CaptureRedaction) × (s.envelope.redactions ≡ e.redactions ++ entries)
      × (s.newly_redacted ≡ length entries)
      × All (λ r. is_sensitive (normalized_names policy) r.name ≡ true) entries
unfolding scrub_envelope
sanitize_envelope-redactions policy e s h =
    let run = sanitize_envelope-Success policy e s h in
    let g = envelope-Grows policy e run.attribution in
    rw run.result (g.entries, g.appended, omega (arith, g.counted), g.sensitive)
