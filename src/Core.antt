-- ===== src/Core.antt =====
-- crates/core/src/lib.rs: the events of the gateway become sanitized captures with their prompts in
-- the store.
pub mod Bodies
pub mod Clean
pub mod Refused
use code_is_cheap.Common.{
  ℕ, Bool, true, false, not, Option, none, some, List, [], ◌∷◌, ◌==◌, if◌then◌else◌, Result, ok,
  err, ◌>>=◌, map_err,
}
use code_is_cheap.Text.{Text}
use code_is_cheap.Json.{Value}
use code_is_cheap.Capture.{
  CaptureEnvelope, capture_envelope_version, CaptureSource, gateway, CaptureAttribution,
  CapturedField, CaptureOutcome, response, upstream_failure, ResponseCompleteness, complete,
  cut_short, incomplete,
}
use code_is_cheap.Ipc.{IpcError}
use code_is_cheap.Policy.{CapturePolicy, SanitizedCapture, PolicyError}
use code_is_cheap.Policy.Attribution.{attribution_for}
use code_is_cheap.Policy.Sanitize.{sanitize_envelope}
use code_is_cheap.PromptIr.{PromptIr}
use code_is_cheap.Adapters.{ParseIssue, ParseResult}
use code_is_cheap.Gateway.{
  GatewayRequestCapture, GatewayResponseCapture, GatewayUpstreamFailure, GatewayCaptureEvent,
}
use code_is_cheap.Storage.{StorageError, StoredCapture}
use code_is_cheap.Storage.Prepare.{Codec}
use code_is_cheap.Storage.Store.{EncryptedStore, get_capture, upsert_capture}
use code_is_cheap.Core.Bodies.{captured_fields, content_type, captured_body}

pub data IngestError : Type 0 where
  ipc : IpcError → IngestError
  policy : PolicyError → IngestError

pub data GatewayCaptureError : Type 0 where
  policy_error : PolicyError → GatewayCaptureError
  storage_error : StorageError → GatewayCaptureError

pub record PersistedGatewayCapture : Type 0 where
  pub capture_id : Text
  pub adapter_id : Option Text
  pub issues : List ParseIssue
  pub raw_fallback : Bool

pub record ObservedGatewayResponse : Type 0 where
  pub capture_id : Text
  pub status : ℕ
  pub duration_ms : ℕ
  pub complete : Bool
  pub truncated : Bool
  pub persisted : Bool

pub record ObservedGatewayFailure : Type 0 where
  pub capture_id : Text
  pub duration_ms : ℕ
  pub persisted : Bool

pub data GatewayCaptureOutcome : Type 0 where
  persisted_capture : PersistedGatewayCapture → GatewayCaptureOutcome
  response_observed : ObservedGatewayResponse → GatewayCaptureOutcome
  upstream_failed : ObservedGatewayFailure → GatewayCaptureOutcome

unfoldable pub ingest_envelope :
    CaptureEnvelope → CapturePolicy → Result IngestError SanitizedCapture
unfolding sanitize_envelope
ingest_envelope envelope capture_policy = map_err policy (sanitize_envelope capture_policy envelope)

-- What the processing works with: the policy, `AdapterRegistry::parse`, serde_json, the free space of
-- the disk and serde_json's parser of bytes.
pub record Context : Type 0 where
  pub policy : CapturePolicy
  pub adapters : SanitizedCapture → ParseResult
  pub codec : Codec
  pub available_space : Result StorageError ℕ
  pub from_slice : List ℕ → Option Value

-- `process_id.filter(…).map(…)`
unfoldable pub gateway_attribution :
    CapturePolicy → Option ℕ → List CapturedField → Option CaptureAttribution
unfolding attribution_for
gateway_attribution capture_policy none headers = none
gateway_attribution capture_policy (some process_id) headers =
    if process_id == 0
    then none
    else some (record (attribution_for capture_policy.attribution gateway headers) {
      process_id = some process_id;
    })

unfoldable pub request_envelope :
    (List ℕ → Option Value) → GatewayRequestCapture → CapturePolicy → CaptureEnvelope
unfolding gateway_attribution captured_fields captured_body content_type
request_envelope from_slice request capture_policy = record {
  version = capture_envelope_version;
  capture_id = request.capture_id;
  observed_at_unix_ms = request.observed_at_unix_ms;
  source = gateway;
  attribution =
      gateway_attribution capture_policy request.process_id (captured_fields request.headers);
  request = record {
    method = request.method;
    scheme = request.scheme;
    host = request.host;
    port = request.port;
    path = request.path;
    query = captured_fields request.query;
    headers = captured_fields request.headers;
    body = captured_body from_slice request.body (content_type request.headers) false;
  };
  outcome = none;
  redactions = [];
}

unfoldable pub persist_capture :
    Context
    → EncryptedStore
    → SanitizedCapture
    → Option PromptIr
    → Result GatewayCaptureError EncryptedStore
unfolding upsert_capture
persist_capture context store capture prompt =
    map_err storage_error
      (upsert_capture context.codec context.available_space store capture prompt)

-- `first.or(second)`
abbrev pub or_else : Option PromptIr → Option PromptIr → Option PromptIr
or_else none second = second
or_else (some first) second = some first

-- The rest of `persist_outcome`, behind the test that the capture is stored.
unfoldable pub persist_stored :
    Context
    → EncryptedStore
    → Option StoredCapture
    → CaptureOutcome
    → Result GatewayCaptureError (Bool × EncryptedStore)
unfolding sanitize_envelope persist_capture
persist_stored context store none outcome = ok (false, store)
persist_stored context store (some stored) outcome =
    map_err policy_error
      (sanitize_envelope context.policy (record (stored.envelope) { outcome = some outcome }))
    >>= λ sanitized.
        persist_capture context store sanitized
          (or_else (context.adapters sanitized).prompt_ir stored.prompt_ir)
        >>= λ store'. ok (true, store')

unfoldable pub persist_outcome :
    Context
    → EncryptedStore
    → Text
    → CaptureOutcome
    → Result GatewayCaptureError (Bool × EncryptedStore)
unfolding get_capture persist_stored
persist_outcome context store capture_id outcome =
    map_err storage_error (get_capture context.codec store capture_id) >>= λ stored.
    persist_stored context store stored outcome

abbrev pub completeness_of : Bool → Bool → ResponseCompleteness
completeness_of is_truncated is_complete =
    if is_truncated then cut_short else if is_complete then complete else incomplete

unfoldable pub response_outcome :
    Context
    → EncryptedStore
    → GatewayResponseCapture
    → Result GatewayCaptureError (ObservedGatewayResponse × EncryptedStore)
unfolding persist_outcome captured_fields captured_body content_type
response_outcome context store r =
    persist_outcome context store r.capture_id (
      response (record {
        status = r.status;
        headers = captured_fields r.headers;
        body = captured_body context.from_slice r.body (content_type r.headers) true;
        duration_ms = r.duration_ms;
        completeness = completeness_of r.body.truncated r.body.complete;
      }))
    >>= λ (persisted, store'). ok (
      record {
        capture_id = r.capture_id;
        status = r.status;
        duration_ms = r.duration_ms;
        complete = r.body.complete;
        truncated = r.body.truncated;
        persisted = persisted;
      },
      store',
    )

unfoldable pub failure_outcome :
    Context
    → EncryptedStore
    → GatewayUpstreamFailure
    → Result GatewayCaptureError (ObservedGatewayFailure × EncryptedStore)
unfolding persist_outcome
failure_outcome context store f =
    persist_outcome context store f.capture_id
      (upstream_failure (record { duration_ms = f.duration_ms }))
    >>= λ (persisted, store'). ok (
      record { capture_id = f.capture_id; duration_ms = f.duration_ms; persisted = persisted },
      store',
    )

-- A failed event leaves the store as it was.
unfoldable pub process_gateway_event :
    Context
    → EncryptedStore
    → GatewayCaptureEvent
    → Result GatewayCaptureError (GatewayCaptureOutcome × EncryptedStore)
unfolding sanitize_envelope request_envelope persist_capture response_outcome failure_outcome
process_gateway_event context store (GatewayCaptureEvent.request request) =
    map_err policy_error (
      sanitize_envelope context.policy (request_envelope context.from_slice request context.policy))
    >>= λ sanitized.
        persist_capture context store sanitized (context.adapters sanitized).prompt_ir >>= λ store'.
        ok (
          persisted_capture (record {
            capture_id = sanitized.envelope.capture_id;
            adapter_id = (context.adapters sanitized).adapter_id;
            issues = (context.adapters sanitized).issues;
            raw_fallback = (context.adapters sanitized).raw_fallback;
          }),
          store',
        )
process_gateway_event context store (GatewayCaptureEvent.response r) =
    response_outcome context store r >>= λ (observed, store').
    ok (response_observed observed, store')
process_gateway_event context store (GatewayCaptureEvent.upstream_failure f) =
    failure_outcome context store f >>= λ (observed, store'). ok (upstream_failed observed, store')
