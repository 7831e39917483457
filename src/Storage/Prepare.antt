-- ===== src/Storage/Prepare.antt =====
-- crates/storage/src/store.rs: what upsert_captures checks and makes of a capture before it writes.
use code_is_cheap.Common.{
  ℕ, not, Option, none, some, List, [], ◌∷◌, ◌++◌, length, Result, ok, ◌>>=◌, ◌>>◌, fail_if,
  map_err,
}
use code_is_cheap.Text.{Text, text, text_eq}
use code_is_cheap.Json.{
  Value, null, bool, number, string, array, object, Items, nil, item, Fields, end, field,
}
use code_is_cheap.Capture.{
  CaptureEnvelope, CaptureSource, gateway, mitmproxy, CaptureOutcome, response, upstream_failure,
}
use code_is_cheap.PromptIr.{PromptIr}
use code_is_cheap.PromptIr.Validate.{validate_prompt}
use code_is_cheap.Storage.{
  StorageError, json, prompt_ir, prompt_request_mismatch, to_i64, CaptureWrite,
}

-- serde_json on the types that are stored: `to_string`, `to_value` and `from_str`.
pub record Codec : Type 0 where
  pub encode_envelope : CaptureEnvelope → Result Text Text
  pub decode_envelope : Text → Result Text CaptureEnvelope
  pub encode_prompt : PromptIr → Result Text Text
  pub decode_prompt : Text → Result Text PromptIr
  pub prompt_value : PromptIr → Result Text Value
  pub decode_value : Text → Result Text Value

unfoldable mutual
  pub collect_json_strings : Value → List Text → List Text
  collect_json_strings null output = output
  collect_json_strings (bool b) output = output
  collect_json_strings (number n) output = output
  collect_json_strings (string s) output = output ++ s ∷ []
  collect_json_strings (array values) output = collect_item_strings values output
  collect_json_strings (object values) output = collect_field_strings values output

  pub collect_item_strings : Items → List Text → List Text
  collect_item_strings nil output = output
  collect_item_strings (item v vs) output = collect_item_strings vs (collect_json_strings v output)

  pub collect_field_strings : Fields → List Text → List Text
  collect_field_strings end output = output
  collect_field_strings (field k v fs) output =
      collect_field_strings fs (collect_json_strings v output)

-- `[String]::join`
abbrev pub join : Text → List Text → Text
join sep [] = []
join sep (w ∷ []) = w
join sep (w ∷ v ∷ ws) = w ++ sep ++ join sep (v ∷ ws)

abbrev option_list : Option Text → List Text
option_list none = []
option_list (some value) = value ∷ []

abbrev content_strings : Option Value → List Text → List Text
content_strings none values = values
content_strings (some content) values = collect_json_strings content values

abbrev prompt_strings : Codec → Option PromptIr → List Text → Result StorageError (List Text)
prompt_strings codec none values = ok values
prompt_strings codec (some prompt) values =
    map_err json (codec.prompt_value (record prompt { response = none })) >>= λ value.
    ok (collect_json_strings value (values ++ prompt.provider.id ∷ option_list prompt.model))

unfoldable pub searchable_text :
    Codec → CaptureEnvelope → Option PromptIr → Result StorageError Text
unfolding collect_json_strings
searchable_text codec envelope prompt =
    prompt_strings codec prompt (
      content_strings envelope.request.body.content
        (envelope.request.host ∷ envelope.request.path ∷ []))
    >>= λ values. ok (join (text " ") values)

abbrev pub source_name : CaptureSource → Text
source_name gateway = text "gateway"
source_name mitmproxy = text "mitmproxy"

pub record OutcomeColumns : Type 0 where
  pub kind : Option Text
  pub status_code : Option ℕ
  pub duration_ms : Option ℕ

unfoldable pub outcome_columns : Option CaptureOutcome → Result StorageError OutcomeColumns
unfolding to_i64
outcome_columns none = ok (record { kind = none; status_code = none; duration_ms = none })
outcome_columns (some (response r)) = to_i64 r.duration_ms >>= λ duration. ok (record {
  kind = some (text "response");
  status_code = some r.status;
  duration_ms = some duration;
})
outcome_columns (some (upstream_failure f)) = to_i64 f.duration_ms >>= λ duration. ok (record {
  kind = some (text "upstream_failure");
  status_code = none;
  duration_ms = some duration;
})

-- A row of the table `captures` without the version of the policy, with the text of its row in
-- `capture_search`.
pub record PreparedCapture : Type 0 where
  pub capture_id : Text
  pub observed_at : ℕ
  pub target_id : Text
  pub source : Text
  pub method : Text
  pub scheme : Text
  pub host : Text
  pub port : ℕ
  pub path : Text
  pub provider_id : Option Text
  pub model : Option Text
  pub operation : Option Text
  pub request_json : Text
  pub prompt_ir_json : Option Text
  pub redaction_count : ℕ
  pub outcome : OutcomeColumns
  pub searchable_text : Text

unfoldable pub check_prompt : CaptureEnvelope → Option PromptIr → Result StorageError (Unit {0})
unfolding validate_prompt text_eq
check_prompt envelope none = ok tt
check_prompt envelope (some prompt) =
    map_err prompt_ir (validate_prompt prompt)
    >> fail_if (not (text_eq prompt.request_id envelope.capture_id)) prompt_request_mismatch

-- `write.prompt_ir.map(…)` and `and_then`.
abbrev pub of_prompt : (PromptIr → Option Text) → Option PromptIr → Option Text
of_prompt f none = none
of_prompt f (some prompt) = f prompt

unfoldable pub encode_prompt_ir : Codec → Option PromptIr → Result StorageError (Option Text)
encode_prompt_ir codec none = ok none
encode_prompt_ir codec (some prompt) =
    map_err json (codec.encode_prompt prompt) >>= λ encoded. ok (some encoded)

unfoldable pub prepare_capture : Codec → CaptureWrite → Result StorageError PreparedCapture
unfolding check_prompt to_i64 encode_prompt_ir outcome_columns searchable_text
prepare_capture codec write = do
  let envelope = write.capture.envelope
  check_prompt envelope write.prompt_ir
  observed_at ← to_i64 envelope.observed_at_unix_ms
  request_json ← map_err json (codec.encode_envelope envelope)
  prompt_ir_json ← encode_prompt_ir codec write.prompt_ir
  redaction_count ← to_i64 (length envelope.redactions)
  outcome ← outcome_columns envelope.outcome
  searchable ← searchable_text codec envelope write.prompt_ir
  ok (record {
    capture_id = envelope.capture_id;
    observed_at = observed_at;
    target_id = write.capture.target_id;
    source = source_name envelope.source;
    method = envelope.request.method;
    scheme = envelope.request.scheme;
    host = envelope.request.host;
    port = envelope.request.port;
    path = envelope.request.path;
    provider_id = of_prompt (λ p. some p.provider.id) write.prompt_ir;
    model = of_prompt (λ p. p.model) write.prompt_ir;
    operation = of_prompt (λ p. p.operation) write.prompt_ir;
    request_json = request_json;
    prompt_ir_json = prompt_ir_json;
    redaction_count = redaction_count;
    outcome = outcome;
    searchable_text = searchable;
  })
