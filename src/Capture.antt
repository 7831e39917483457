-- ===== src/Capture.antt =====
-- The capture envelope of crates/capture-ipc/src/lib.rs: what a sidecar or the gateway hands on.
use code_is_cheap.Common.{ℕ, Option, List}
use code_is_cheap.Text.{Text, text}
use code_is_cheap.Json.{Value}

abbrev pub client_label_header : Text
client_label_header = text "x-codeischeap-client"

abbrev pub capture_envelope_version : Text
capture_envelope_version = text "0.1"

pub data CaptureSource : Type 0 where
  gateway mitmproxy : CaptureSource

pub data AttributionSource : Type 0 where
  client_label user_agent capture_mode : AttributionSource

pub data AttributionConfidence : Type 0 where
  high medium low : AttributionConfidence

pub record CaptureAttribution : Type 0 where
  pub application : Text
  pub source : AttributionSource
  pub confidence : AttributionConfidence
  pub process_id : Option ℕ

pub record CapturedField : Type 0 where
  pub name : Text
  pub value : Text

pub data CapturedBodyState : Type 0 where
  empty json plain_text invalid_json invalid_utf8 truncated omitted_unsupported_content_type :
      CapturedBodyState

pub record CapturedBody : Type 0 where
  pub state : CapturedBodyState
  pub content : Option Value

pub record CapturedRequest : Type 0 where
  pub method : Text
  pub scheme : Text
  pub host : Text
  pub port : ℕ
  pub path : Text
  pub query : List CapturedField
  pub headers : List CapturedField
  pub body : CapturedBody

pub data ResponseCompleteness : Type 0 where
  complete cut_short incomplete : ResponseCompleteness

pub record CapturedResponse : Type 0 where
  pub status : ℕ
  pub headers : List CapturedField
  pub body : CapturedBody
  pub duration_ms : ℕ
  pub completeness : ResponseCompleteness

pub record CapturedUpstreamFailure : Type 0 where
  pub duration_ms : ℕ

pub data CaptureOutcome : Type 0 where
  response : CapturedResponse → CaptureOutcome
  upstream_failure : CapturedUpstreamFailure → CaptureOutcome

pub data RedactionLocation : Type 0 where
  header query body response_header response_body : RedactionLocation

pub record CaptureRedaction : Type 0 where
  pub location : RedactionLocation
  pub name : Text

pub record CaptureEnvelope : Type 0 where
  pub version : Text
  pub capture_id : Text
  pub observed_at_unix_ms : ℕ
  pub source : CaptureSource
  pub attribution : Option CaptureAttribution
  pub request : CapturedRequest
  pub outcome : Option CaptureOutcome
  pub redactions : List CaptureRedaction
