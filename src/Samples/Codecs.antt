-- ===== src/Samples/Codecs.antt =====
-- A concrete serializer of plain envelopes, in the place of serde_json: numbers and texts behind
-- their lengths, for envelopes without fields, bodies, outcomes and redactions.
use code_is_cheap.Common.{
  ℕ, zero, suc, ◌≡◌, refl, ap, subst, ◌∙◌, Bool, true, false, ◌&&◌, Option, none, some, List, [],
  ◌∷◌, ◌++◌, length, take, drop, take-length, drop-length, is_empty, Result, ok, err, ok_injective,
  err_ne_ok, Bool-cases, inl, inr, if◌then◌else◌,
}
use code_is_cheap.Text.{Text, text, text_eq}
use code_is_cheap.Text.Laws.{text_eq_iff}
use code_is_cheap.Json.{null}
use code_is_cheap.Capture.{
  CaptureEnvelope, CaptureSource, gateway, mitmproxy, CaptureAttribution, AttributionSource,
  capture_mode, AttributionConfidence, low, CapturedBodyState, empty,
}
use code_is_cheap.Storage.Prepare.{Codec}

abbrev encode_texts : List Text → Text
encode_texts [] = []
encode_texts (t ∷ ts) = length t ∷ (t ++ encode_texts ts)

-- The first `count` texts.
abbrev decode_texts : ℕ → Text → List Text
decode_texts zero s = []
decode_texts (suc count) [] = []
decode_texts (suc count) (n ∷ s) = take n s ∷ decode_texts count (drop n s)

decode_texts-encode : (ts : List Text) → decode_texts (length ts) (encode_texts ts) ≡ ts
decode_texts-encode [] = refl
decode_texts-encode (t ∷ ts) =
    ap (λ u. u ∷ decode_texts (length ts) (drop (length t) (t ++ encode_texts ts)))
      (take-length t (encode_texts ts))
    ∙ ap (λ s. t ∷ decode_texts (length ts) s) (drop-length t (encode_texts ts))
    ∙ ap (λ us. t ∷ us) (decode_texts-encode ts)

abbrev is_gateway : CaptureSource → Bool
is_gateway gateway = true
is_gateway mitmproxy = false

is_gateway-eq : (s : CaptureSource) → is_gateway s ≡ true → s ≡ gateway
is_gateway-eq gateway h = refl
is_gateway-eq mitmproxy h = absurd (cc (h))

abbrev fallback : CaptureAttribution
fallback = record {
  application = text "Gateway client";
  source = capture_mode;
  confidence = low;
  process_id = none;
}

abbrev is_capture_mode : AttributionSource → Bool
is_capture_mode capture_mode = true
is_capture_mode _ = false

abbrev is_low : AttributionConfidence → Bool
is_low low = true
is_low _ = false

abbrev is_absent {ℓ} : {A : Type ℓ} → Option A → Bool
is_absent none = true
is_absent (some a) = false

abbrev is_fallback : Option CaptureAttribution → Bool
is_fallback none = false
is_fallback (some a) =
    text_eq a.application (text "Gateway client")
    && (is_capture_mode a.source && (is_low a.confidence && is_absent a.process_id))

abbrev is_plain_state : CapturedBodyState → Bool
is_plain_state empty = true
is_plain_state _ = false

abbrev is_plain : CaptureEnvelope → Bool
is_plain e =
    is_gateway e.source
    && (is_fallback e.attribution
        && (is_empty e.request.query
            && (is_empty e.request.headers
                && (is_plain_state e.request.body.state
                    && (is_absent e.request.body.content
                        && (is_absent e.outcome && is_empty e.redactions))))))

-- The plain envelope of these numbers and texts.
abbrev pub plain : ℕ → ℕ → Text → Text → Text → Text → Text → Text → CaptureEnvelope
plain observed port version id method scheme host path = record {
  version = version;
  capture_id = id;
  observed_at_unix_ms = observed;
  source = gateway;
  attribution = some fallback;
  request = record {
    method = method;
    scheme = scheme;
    host = host;
    port = port;
    path = path;
    query = [];
    headers = [];
    body = record { state = empty; content = none };
  };
  outcome = none;
  redactions = [];
}

and_true : (a b : Bool) → (a && b) ≡ true → (a ≡ true) × (b ≡ true)
and_true true b h = (refl, h)
and_true false b h = absurd (cc (h))

is_empty-eq {ℓ} : {A : Type ℓ} (xs : List A) → is_empty xs ≡ true → xs ≡ []
is_empty-eq [] h = refl
is_empty-eq (x ∷ xs) h = absurd (cc (h))

is_absent-eq {ℓ} : {A : Type ℓ} (o : Option A) → is_absent o ≡ true → o ≡ none
is_absent-eq none h = refl
is_absent-eq (some a) h = absurd (cc (h))

is_plain_state-eq : (s : CapturedBodyState) → is_plain_state s ≡ true → s ≡ empty
is_plain_state-eq empty h = refl
is_plain_state-eq CapturedBodyState.json h = absurd (cc (h))
is_plain_state-eq CapturedBodyState.plain_text h = absurd (cc (h))
is_plain_state-eq CapturedBodyState.invalid_json h = absurd (cc (h))
is_plain_state-eq CapturedBodyState.invalid_utf8 h = absurd (cc (h))
is_plain_state-eq CapturedBodyState.truncated h = absurd (cc (h))
is_plain_state-eq CapturedBodyState.omitted_unsupported_content_type h = absurd (cc (h))

is_capture_mode-eq : (s : AttributionSource) → is_capture_mode s ≡ true → s ≡ capture_mode
is_capture_mode-eq capture_mode h = refl
is_capture_mode-eq AttributionSource.client_label h = absurd (cc (h))
is_capture_mode-eq AttributionSource.user_agent h = absurd (cc (h))

is_low-eq : (c : AttributionConfidence) → is_low c ≡ true → c ≡ low
is_low-eq low h = refl
is_low-eq AttributionConfidence.medium h = absurd (cc (h))
is_low-eq AttributionConfidence.high h = absurd (cc (h))

is_fallback-eq : (o : Option CaptureAttribution) → is_fallback o ≡ true → o ≡ some fallback
is_fallback-eq none h = absurd (cc (h))
is_fallback-eq (some a) h =
    let (p, h1) = and_true _ _ h in
    let (q, h2) = and_true _ _ h1 in
    let (r, t) = and_true _ _ h2 in
    let e1 = (text_eq_iff a.application (text "Gateway client")).0 p in
    let e2 = is_capture_mode-eq a.source q in
    let e3 = is_low-eq a.confidence r in let e4 = is_absent-eq a.process_id t in cc (e1, e2, e3, e4)

-- The parts of an envelope that a plain one keeps.
abbrev replica : CaptureEnvelope → CaptureEnvelope
replica e =
    plain e.observed_at_unix_ms e.request.port e.version e.capture_id e.request.method
      e.request.scheme e.request.host e.request.path

is_plain-eq : (e : CaptureEnvelope) → is_plain e ≡ true → replica e ≡ e
is_plain-eq e h =
    let (p, h1) = and_true _ _ h in
    let (q, h2) = and_true _ _ h1 in
    let (r, h3) = and_true _ _ h2 in
    let (s, h4) = and_true _ _ h3 in
    let (t, h5) = and_true _ _ h4 in
    let (u, h6) = and_true _ _ h5 in
    let (v, w) = and_true _ _ h6 in
    let e1 = is_gateway-eq e.source p in
    let e2 = is_fallback-eq e.attribution q in
    let e3 = is_empty-eq e.request.query r in
    let e4 = is_empty-eq e.request.headers s in
    let e5 = is_plain_state-eq e.request.body.state t in
    let e6 = is_absent-eq e.request.body.content u in
    let e7 = is_absent-eq e.outcome v in
    let e8 = is_empty-eq e.redactions w in cc (e1, e2, e3, e4, e5, e6, e7, e8)

abbrev texts_of : CaptureEnvelope → List Text
texts_of e =
    e.version ∷ e.capture_id ∷ e.request.method ∷ e.request.scheme ∷ e.request.host ∷ e.request.path
    ∷ []

abbrev encoded : CaptureEnvelope → Text
encoded e = e.observed_at_unix_ms ∷ e.request.port ∷ encode_texts (texts_of e)

abbrev pub encode : CaptureEnvelope → Result Text Text
encode e = if is_plain e then ok (encoded e) else err (text "not plain")

abbrev from_texts : ℕ → ℕ → List Text → Result Text CaptureEnvelope
from_texts observed port (version ∷ id ∷ method ∷ scheme ∷ host ∷ path ∷ []) =
    ok (plain observed port version id method scheme host path)
from_texts observed port _ = err (text "other texts")

abbrev pub decode : Text → Result Text CaptureEnvelope
decode (observed ∷ port ∷ s) = from_texts observed port (decode_texts 6 s)
decode _ = err (text "cut short")

decode-encoded : (e : CaptureEnvelope) → decode (encoded e) ≡ ok (replica e)
decode-encoded e =
    ap (from_texts e.observed_at_unix_ms e.request.port) (decode_texts-encode (texts_of e))

pub encode-faithful : (e : CaptureEnvelope) (t : Text) → encode e ≡ ok t → decode t ≡ ok e
encode-faithful e t h = elim (Bool-cases (is_plain e)) [
  | inl p ↦
      subst (λ x. decode x ≡ ok e) (ok_injective (rw p at h))
        (decode-encoded e ∙ ap ok (is_plain-eq e p))
  | inr p ↦ absurd (err_ne_ok (rw p at h))
]

-- Prompts are not written in these runs.
abbrev pub codec : Codec
codec = record {
  encode_envelope = encode;
  decode_envelope = decode;
  encode_prompt = λ p. err (text "no prompts");
  decode_prompt = λ t. err (text "no prompts");
  prompt_value = λ p. ok null;
  decode_value = λ t. ok null;
}
