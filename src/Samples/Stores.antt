-- ===== src/Samples/Stores.antt =====
-- Concrete runs of the store and of the processing of the gateway's events.
use code_is_cheap.Common.{
  ℕ, String, ◌≡◌, ◌≢◌, refl, true, false, none, some, List, [], ◌∷◌, map, ap, ok, err, arith, inl,
}
use code_is_cheap.Text.{text, contains}
use code_is_cheap.Text.Distinct.{AreDistinct, Fresh-iff}
use code_is_cheap.Json.{string}
use code_is_cheap.Capture.{CaptureEnvelope, capture_envelope_version, plain_text}
use code_is_cheap.Policy.{SanitizedCapture, capture_policy_version}
use code_is_cheap.Policy.Sanitize.{settle_attribution, scrub_envelope, scrub_request, scrub_outcome}
use code_is_cheap.Policy.Rules.{validate, matching_target, covers}
use code_is_cheap.Adapters.{raw_result}
use code_is_cheap.Gateway.{GatewayCaptureEvent, CapturedPayload}
use code_is_cheap.Storage.{RetentionPolicy, invalid_page_limit}
use code_is_cheap.Storage.Store.{
  CaptureRow, EncryptedStore, row_id, row_before, upsert_capture, get_capture,
}
use code_is_cheap.Storage.Pages.{row_to_summary, list_captures, plain_fts_query}
use code_is_cheap.Storage.Pages.Walk.{walk, walk_complete}
use mathlib.Core.List.{reverse}
use code_is_cheap.Storage.Store.Rows.{IsTable}
use code_is_cheap.Storage.Store.Reads.{IsReadable, stored, get_capture-upsert}
use code_is_cheap.Storage.Retention.{enforce_retention}
use code_is_cheap.Storage.Retention.Deletes.{ids_of}
use code_is_cheap.Storage.Retention.Phases.{
  IsEnforceable, Enforced, kept, enforce_retention-Enforced,
}
use code_is_cheap.Core.{Context, GatewayCaptureOutcome, process_gateway_event}
use code_is_cheap.Core.Clean.{process_events}
use code_is_cheap.Core.Refused.{IsUnpersisted, process_gateway_event-IsUnpersisted}
use code_is_cheap.Core.Bodies.{captured_body}
use code_is_cheap.Core.Bodies.Content.{IsCaptured, captured_body-IsCaptured}
use code_is_cheap.Samples.Codecs.{codec, encode-faithful, plain}
use code_is_cheap.Samples.Policies.{policy}

abbrev row : String → ℕ → CaptureRow
row id at = record {
  columns = record {
    capture_id = text id;
    observed_at = at;
    target_id = text "openai";
    source = text "gateway";
    method = text "POST";
    scheme = text "https";
    host = text "api.openai.com";
    port = 443;
    path = text "/v1/responses";
    provider_id = none;
    model = none;
    operation = none;
    request_json = [];
    prompt_ir_json = none;
    redaction_count = 0;
    outcome = record { kind = none; status_code = none; duration_ms = none };
    searchable_text = [];
  };
  policy_version = capture_policy_version;
}

abbrev store_of : List CaptureRow → EncryptedStore
store_of rows = record {
  captures = rows;
  search = [];
  settings = [];
  schema_version = 3;
  options = record { minimum_free_space_bytes = 1000 };
  read_only_mode = false;
}

abbrev four_rows : EncryptedStore
four_rows = store_of (row "a" 10 ∷ row "b" 1500 ∷ row "c" 2000 ∷ row "d" 2000 ∷ [])

-- One second, two captures, batches of one.
abbrev retention : RetentionPolicy
retention = record {
  max_age = some (record { secs = 1; nanos = 0 });
  max_captures = some 2;
  batch_size = 1;
}

keeps_two : kept retention 2400 four_rows.captures ≡ row "c" 2000 ∷ row "d" 2000 ∷ []
keeps_two = refl

enforceable : IsEnforceable retention 2400
enforceable = record { at_least = omega arith; at_most = omega arith; cutoff = omega arith }

distinct : AreDistinct (ids_of four_rows.captures)
unfolding contains
distinct = (
  (Fresh-iff (text "a") (text "b" ∷ text "c" ∷ text "d" ∷ [])).0 refl,
  (
    (Fresh-iff (text "b") (text "c" ∷ text "d" ∷ [])).0 refl,
    ((Fresh-iff (text "c") (text "d" ∷ [])).0 refl, (tt, tt)),
  ),
)

enforce_retention-Enforced_example :
    Enforced (enforce_retention 5 four_rows retention 2400) retention 2400 four_rows.captures
enforce_retention-Enforced_example =
    enforce_retention-Enforced 5 four_rows retention 2400 enforceable refl (omega arith) distinct

lists_newest_first : list_captures four_rows 0 none ≡ err invalid_page_limit
unfolding list_captures
lists_newest_first = refl

quotes_terms : plain_fts_query (text "a \"b") ≡ ok (text "\"a\" AND \"\"\"b\"")
unfolding plain_fts_query
quotes_terms = refl

abbrev envelope : CaptureEnvelope
envelope =
    plain 5 443 capture_envelope_version (text "one") (text "POST") (text "https")
      (text "api.openai.com") (text "/v1/responses")

abbrev capture : SanitizedCapture
capture = record { envelope = envelope; target_id = text "openai"; newly_redacted = 0 }

readable : IsReadable codec envelope none
readable = record { envelope_lem = encode-faithful envelope; prompt_lem = λ p e. absurd (cc (e)) }

writes :
    (store' : EncryptedStore) × (upsert_capture codec (ok 2000) four_rows capture none ≡ ok store')
unfolding upsert_capture
writes = (_, refl)

in_order : IsTable four_rows.captures
unfolding row_before
in_order = record {
  sorted = ((refl, (refl, (refl, tt))), ((refl, (refl, tt)), ((refl, tt), (tt, tt))));
  distinct = distinct;
}

walk_complete_example :
    walk 5 four_rows 3 none ≡ some (map row_to_summary (reverse four_rows.captures))
walk_complete_example =
    walk_complete 5 3 four_rows (omega arith) (omega arith) in_order
      (omega arith, (omega arith, (omega arith, (omega arith, tt)))) (omega arith)

fresh_id : envelope.capture_id ≢ text "a"
unfolding contains
fresh_id = ((Fresh-iff (text "one") (text "a" ∷ [])).0 refl).0

get_capture-upsert_example :
    (get_capture codec writes.0 (text "one") ≡ ok (some (stored capture none)))
    × (get_capture codec writes.0 (text "a") ≡ get_capture codec four_rows (text "a"))
    × IsTable writes.0.captures
get_capture-upsert_example =
    get_capture-upsert codec (ok 2000) four_rows writes.0 capture none (text "a") readable in_order
      fresh_id writes.1

abbrev context : Context
context = record {
  policy = policy;
  adapters = λ sanitized. raw_result [];
  codec = codec;
  available_space = ok 2000;
  from_slice = λ bytes. none;
}

abbrev no_body : CapturedPayload
no_body = record { bytes = []; truncated = false; complete = true }

-- A request and the failure of its connection to the provider.
abbrev events : List GatewayCaptureEvent
events =
    GatewayCaptureEvent.request (record {
      capture_id = text "one";
      observed_at_unix_ms = 5;
      method = text "POST";
      scheme = text "https";
      host = text "api.openai.com";
      port = 443;
      path = text "/v1/responses";
      client_addr = none;
      process_id = none;
      query = [];
      headers = [];
      body = no_body;
    })
    ∷ GatewayCaptureEvent.upstream_failure (record { capture_id = text "two"; duration_ms = 9 })
    ∷ []

stores_one : map row_id (process_events context (store_of []) events).captures ≡ text "one" ∷ []
unfolding process_events settle_attribution validate matching_target covers scrub_envelope
    scrub_request scrub_outcome
stores_one = refl

-- A read-only store, and a failure of a capture that it does not have.
abbrev four_rows_closed : EncryptedStore
four_rows_closed = record four_rows { read_only_mode = true }

abbrev failure : GatewayCaptureEvent
failure = GatewayCaptureEvent.upstream_failure (record { capture_id = text "two"; duration_ms = 9 })

unheard :
    (r : GatewayCaptureOutcome × EncryptedStore) × (process_gateway_event context four_rows_closed
        failure
      ≡ ok r)
unfolding process_gateway_event
unheard = (_, refl)

process_gateway_event-IsUnpersisted_example :
    IsUnpersisted unheard.0.0 × (unheard.0.1 ≡ four_rows_closed)
process_gateway_event-IsUnpersisted_example =
    process_gateway_event-IsUnpersisted context four_rows_closed (inl refl) failure unheard.0.0
      unheard.0.1 unheard.1

abbrev text_payload : CapturedPayload
text_payload = record { bytes = 0xC3 ∷ 0xA9 ∷ []; truncated = false; complete = true }

captures_text :
    captured_body (λ bytes. none) text_payload (some (text "text/plain; charset=utf-8")) true
    ≡ record { state = plain_text; content = some (string (0xE9 ∷ [])) }
unfolding captured_body
captures_text = refl

captured_body-IsCaptured_example :
    IsCaptured
      (λ bytes. none)
      text_payload
      (some (text "text/plain; charset=utf-8"))
      true
      plain_text
      (string (0xE9 ∷ []))
unfolding captured_body
captured_body-IsCaptured_example =
    captured_body-IsCaptured (λ bytes. none) text_payload (some (text "text/plain; charset=utf-8"))
      true (string (0xE9 ∷ [])) (ap (λ b. b.content) captures_text)
