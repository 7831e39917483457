-- ===== src/Gateway/Guard.antt =====
-- crates/gateway/src/capture.rs: the guards that emit one event for each request and response.
use code_is_cheap.Common.{ℕ, ◌-◌, ◌/◌, min, Bool, true, false, ◌||◌, leb, Option, none, some, List}
use code_is_cheap.Text.{Text}
use code_is_cheap.Gateway.{
  u64_max, CapturedPayload, GatewayCaptureEvent, GatewayCapture, emit, mark_payload,
  PayloadAccumulator, new_payload, push, finish_payload, request, response,
}

-- `RequestCaptureGuard` and `ResponseCaptureGuard`, which differ in their metadata; the handle on the
-- shared capture is an argument of the operations.
pub record CaptureGuard (M : Type 0) : Type 0 where
  pub metadata : Option M
  pub payload : PayloadAccumulator
  pub expected_body_bytes : Option ℕ

pub record RequestMetadata : Type 0 where
  pub capture_id : Text
  pub observed_at_unix_ms : ℕ
  pub method : Text
  pub scheme : Text
  pub host : Text
  pub port : ℕ
  pub path : Text
  pub client_addr : Option Text
  pub process_id : Option ℕ
  pub query : List (Text × Text)
  pub headers : List (Text × Text)

-- `started` is a time in nanoseconds.
pub record ResponseMetadata : Type 0 where
  pub capture_id : Text
  pub status : ℕ
  pub headers : List (Text × Text)
  pub started : ℕ

abbrev pub elapsed_ms : ℕ → ℕ → ℕ
elapsed_ms now started = min ((now - started) / 1000000) u64_max

abbrev pub request_event : RequestMetadata → CapturedPayload → GatewayCaptureEvent
request_event m payload = request (record {
  capture_id = m.capture_id;
  observed_at_unix_ms = m.observed_at_unix_ms;
  method = m.method;
  scheme = m.scheme;
  host = m.host;
  port = m.port;
  path = m.path;
  client_addr = m.client_addr;
  process_id = m.process_id;
  query = m.query;
  headers = m.headers;
  body = payload;
})

abbrev pub response_event : ℕ → ResponseMetadata → CapturedPayload → GatewayCaptureEvent
response_event now m payload = response (record {
  capture_id = m.capture_id;
  status = m.status;
  headers = m.headers;
  duration_ms = elapsed_ms now m.started;
  body = payload;
})

abbrev pub has_expected : Option ℕ → ℕ → Bool
has_expected none observed = false
has_expected (some expected) observed = leb expected observed

module _ {M : Type 0} where
  abbrev pub new_guard : GatewayCapture → M → Option ℕ → CaptureGuard M
  new_guard capture metadata expected = record {
    metadata = some metadata;
    payload = new_payload capture.max_body_bytes;
    expected_body_bytes = expected;
  }

  abbrev pub push_guard : List ℕ → CaptureGuard M → CaptureGuard M
  push_guard chunk guard = record guard { payload = push chunk guard.payload }

  -- `finish` of a guard; `event_of` builds its event.
  abbrev finish_with :
      (M → CapturedPayload → GatewayCaptureEvent)
      → Bool
      → Option M
      → CaptureGuard M
      → GatewayCapture
      → CaptureGuard M × GatewayCapture
  finish_with event_of complete none guard capture = (guard, capture)
  finish_with event_of complete (some metadata) guard capture =
      let complete' =
        complete || has_expected guard.expected_body_bytes guard.payload.observed_bytes in
      let (payload, accumulator) = finish_payload complete' guard.payload in
      (
        record guard { metadata = none; payload = accumulator },
        emit (event_of metadata payload) (mark_payload payload capture),
      )

  unfoldable pub finish_guard :
      (M → CapturedPayload → GatewayCaptureEvent)
      → Bool
      → CaptureGuard M
      → GatewayCapture
      → CaptureGuard M × GatewayCapture
  finish_guard event_of complete guard capture =
      finish_with event_of complete guard.metadata guard capture

  -- `complete`, and the drop of a guard.
  abbrev pub complete_guard :
      (M → CapturedPayload → GatewayCaptureEvent)
      → CaptureGuard M
      → GatewayCapture
      → CaptureGuard M × GatewayCapture
  complete_guard event_of guard capture = finish_guard event_of true guard capture

  abbrev pub drop_guard :
      (M → CapturedPayload → GatewayCaptureEvent) → CaptureGuard M → GatewayCapture → GatewayCapture
  drop_guard event_of guard capture = (finish_guard event_of false guard capture).1
