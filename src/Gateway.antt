-- ===== src/Gateway.antt =====
-- crates/gateway/src/capture.rs: the bounded queue of captured events, its metrics, the accumulation
-- of a body, and the guards that emit one event for each request and response.
pub mod Payload
pub mod Guard
pub mod Guards
pub mod Queue
use code_is_cheap.Common.{
  ℕ, ◌+◌, ◌-◌, ◌*◌, ◌/◌, ◌%◌, ◌^◌, min, Bool, true, false, not, ◌||◌, if◌then◌else◌, ltb, leb, ◌==◌,
  Option, none, some, List, [], ◌∷◌, ◌++◌, length, take, Result, ok, err,
}
use code_is_cheap.Text.{Text}

abbrev pub u64_bound : ℕ
u64_bound = 2 ^ 64

abbrev pub u64_max : ℕ
u64_max = 2 ^ 64 - 1

-- `AtomicU64::fetch_add(1)`, which wraps around.
abbrev pub fetch_add : ℕ → ℕ
fetch_add n = (n + 1) % 2 ^ 64

-- `u64::saturating_add`
abbrev pub saturating_add : ℕ → ℕ → ℕ
saturating_add a b = min (a + b) u64_max

pub record CapturedPayload : Type 0 where
  pub bytes : List ℕ
  pub truncated : Bool
  pub complete : Bool

pub record GatewayRequestCapture : Type 0 where
  pub capture_id : Text
  pub observed_at_unix_ms : ℕ
  pub method : Text
  pub scheme : Text
  pub host : Text
  pub port : ℕ
  pub path : Text
  -- The text of the address.
  pub client_addr : Option Text
  pub process_id : Option ℕ
  pub query : List (Text × Text)
  pub headers : List (Text × Text)
  pub body : CapturedPayload

pub record GatewayResponseCapture : Type 0 where
  pub capture_id : Text
  pub status : ℕ
  pub headers : List (Text × Text)
  pub duration_ms : ℕ
  pub body : CapturedPayload

pub record GatewayUpstreamFailure : Type 0 where
  pub capture_id : Text
  pub duration_ms : ℕ

pub data GatewayCaptureEvent : Type 0 where
  request : GatewayRequestCapture → GatewayCaptureEvent
  response : GatewayResponseCapture → GatewayCaptureEvent
  upstream_failure : GatewayUpstreamFailure → GatewayCaptureEvent

pub record CaptureMetrics : Type 0 where
  pub emitted_events : ℕ
  pub dropped_queue_full : ℕ
  pub dropped_receiver_closed : ℕ
  pub truncated_bodies : ℕ
  pub incomplete_streams : ℕ

-- The channel of `tokio::sync::mpsc`: what was sent and not received yet, oldest first.
pub record Channel : Type 0 where
  pub queue : List GatewayCaptureEvent
  pub capacity : ℕ
  pub closed : Bool

pub record GatewayCapture : Type 0 where
  pub sender : Channel
  pub max_body_bytes : ℕ
  pub metrics : CaptureMetrics
  pub enabled : Bool

pub data CaptureConfigError : Type 0 where
  zero_queue_capacity zero_body_limit : CaptureConfigError

abbrev no_metrics : CaptureMetrics
no_metrics = record {
  emitted_events = 0;
  dropped_queue_full = 0;
  dropped_receiver_closed = 0;
  truncated_bodies = 0;
  incomplete_streams = 0;
}

abbrev pub channel : ℕ → ℕ → Result CaptureConfigError GatewayCapture
channel capacity max_body_bytes =
    if capacity == 0
    then err zero_queue_capacity
    else if max_body_bytes == 0
    then err zero_body_limit
    else ok (record {
      sender = record { queue = []; capacity = capacity; closed = false };
      max_body_bytes = max_body_bytes;
      metrics = no_metrics;
      enabled = true;
    })

abbrev pub set_enabled : Bool → GatewayCapture → GatewayCapture
set_enabled enabled capture = record capture { enabled = enabled }

-- `Sender::try_send`: the results Ok, Full and Closed.
pub data Sent : Type 0 where
  sent full closed_channel : Sent

abbrev pub try_send : GatewayCaptureEvent → Channel → Sent × Channel
try_send event channel =
    if channel.closed
    then (closed_channel, channel)
    else if ltb (length channel.queue) channel.capacity
    then (sent, record channel { queue = channel.queue ++ event ∷ [] })
    else (full, channel)

abbrev pub count_sent : Sent → CaptureMetrics → CaptureMetrics
count_sent sent m = record m { emitted_events = fetch_add m.emitted_events }
count_sent full m = record m { dropped_queue_full = fetch_add m.dropped_queue_full }
count_sent closed_channel m = record m {
  dropped_receiver_closed = fetch_add m.dropped_receiver_closed;
}

unfoldable pub emit : GatewayCaptureEvent → GatewayCapture → GatewayCapture
emit event capture =
    let (result, sender) = try_send event capture.sender in
    record capture { sender = sender; metrics = count_sent result capture.metrics }

unfoldable pub mark_payload : CapturedPayload → GatewayCapture → GatewayCapture
mark_payload payload capture = record capture {
  metrics = record capture.metrics {
    truncated_bodies =
        if payload.truncated
        then fetch_add capture.metrics.truncated_bodies
        else capture.metrics.truncated_bodies;
    incomplete_streams =
        if not payload.complete
        then fetch_add capture.metrics.incomplete_streams
        else capture.metrics.incomplete_streams;
  };
}

pub record PayloadAccumulator : Type 0 where
  pub bytes : List ℕ
  pub limit : ℕ
  pub truncated : Bool
  pub observed_bytes : ℕ

abbrev pub new_payload : ℕ → PayloadAccumulator
new_payload limit = record { bytes = []; limit = limit; truncated = false; observed_bytes = 0 }

unfoldable pub push : List ℕ → PayloadAccumulator → PayloadAccumulator
push chunk payload =
    let remaining = payload.limit - length payload.bytes in
    let observed = saturating_add payload.observed_bytes (length chunk) in
    if leb (length chunk) remaining
    then record payload { observed_bytes = observed; bytes = payload.bytes ++ chunk }
    else record payload {
      observed_bytes = observed;
      bytes = payload.bytes ++ take remaining chunk;
      truncated = true;
    }

abbrev pub finish_payload : Bool → PayloadAccumulator → CapturedPayload × PayloadAccumulator
finish_payload complete payload = (
  record { bytes = payload.bytes; truncated = payload.truncated; complete = complete },
  record payload { bytes = [] },
)
