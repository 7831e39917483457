-- ===== src/PromptIr/Metrics.antt =====
-- crates/prompt-ir/src/metrics.rs: the token counts, the cost and the fingerprint that are added to
-- a prompt.
pub mod Rename
pub mod Totals
use code_is_cheap.Common.{
  ℕ, ◌+◌, ◌/◌, min, Bool, true, false, ◌&&◌, Option, none, some, List, [], ◌∷◌, ◌++◌, length, find,
  is_empty, if◌then◌else◌,
}
use code_is_cheap.Text.{
  Text, text, text_eq, utf8, to_ascii_lowercase, eq_ignore_ascii_case, starts_with,
}
use code_is_cheap.Text.Numbers.{u64_max, parse_unsigned}
use code_is_cheap.Json.{
  Value, null, number, string, array, object, Items, nil, item, Fields, end, field,
}
use code_is_cheap.PromptIr.Canonical.{
  Price, Tools, items_of, canonical_part, canonical_parts, canonical_request,
}
use code_is_cheap.Floats.{Float, finite}
use code_is_cheap.PromptIr.{
  PromptIr, PromptPart, text_part, json_part, image_ref, audio_ref, file_ref, tool_use, tool_result,
  unknown_part, Instruction, InstructionRole, system_instruction, developer_instruction,
  unknown_instruction, Message, MessageRole, system, developer, user, assistant, tool, unknown_role,
  ContextItem, ContextKind, retrieved_document, cached_content, tool_result_context,
  application_state, unknown_context, ToolDefinition, GenerationOptions, ResponseTrace,
  MetricSource, reported, estimated, TokenMeasurement, PricingCost, SemanticFingerprint,
  PromptMetrics,
}

abbrev pub pricing_catalog_version : Text
pricing_catalog_version = text "2026-07-17.v1"

abbrev pub estimator_method : Text
estimator_method = text "unicode_chars_div_4.v1"

abbrev pub fingerprint_canonicalization : Text
fingerprint_canonicalization = text "prompt_semantics.v1"

-- `Value::as_u64`
unfoldable pub as_u64 : Value → Option ℕ
unfolding parse_unsigned
as_u64 (number literal) = parse_unsigned u64_max literal
as_u64 _ = none

-- `BTreeMap::get`
unfoldable pub entry_of : Text → List (Text × Value) → Option Value
unfolding text_eq
entry_of key [] = none
entry_of key ((k, v) ∷ entries) =
    let rest = entry_of key entries in if text_eq k key then some v else rest

abbrev pub and_then_u64 : Option Value → Option ℕ
and_then_u64 none = none
and_then_u64 (some v) = as_u64 v

abbrev pub provider_usage : Text → ℕ → TokenMeasurement
provider_usage key value = record {
  value = value;
  source = reported;
  method = text "provider_usage." ++ key;
}

unfoldable pub reported_in : List (Text × Value) → List Text → Option TokenMeasurement
unfolding entry_of as_u64
reported_in usage [] = none
reported_in usage (key ∷ keys) = elim (and_then_u64 (entry_of key usage)) [
  | some value ↦ some (provider_usage key value)
  | none ↦ reported_in usage keys
]

-- `reported`, on the usage of the response, if there is one.
unfoldable pub reported_usage : Option ResponseTrace → List Text → Option TokenMeasurement
unfolding reported_in
reported_usage none keys = none
reported_usage (some trace) keys = reported_in trace.usage keys

abbrev pub estimated_tokens : ℕ → TokenMeasurement
estimated_tokens value = record { value = value; source = estimated; method = estimator_method }

abbrev char_count : Option Text → ℕ
char_count none = 0
char_count (some encoded) = length encoded

unfoldable pub estimate_value : Tools → Value → ℕ
estimate_value tools value = min ((char_count (tools.to_string value) + 3) / 4) u64_max

unfoldable pub estimated_output : Tools → Option ResponseTrace → Option TokenMeasurement
unfolding estimate_value canonical_part
estimated_output tools none = none
estimated_output tools (some trace) =
    if is_empty trace.parts
    then none
    else some (estimated_tokens (estimate_value tools (canonical_parts trace.parts)))

abbrev bytes_of : Option Text → List ℕ
bytes_of none = []
bytes_of (some encoded) = utf8 encoded

-- `to_vec` fails for no value; the model takes no bytes then.
unfoldable pub fingerprint : Tools → PromptIr → SemanticFingerprint
unfolding canonical_request utf8
fingerprint tools prompt = record {
  algorithm = text "blake3-256";
  canonicalization_version = fingerprint_canonicalization;
  digest = tools.blake3_hex (bytes_of (tools.to_string (canonical_request tools prompt)));
}

abbrev pub is_reported : MetricSource → Bool
is_reported reported = true
is_reported estimated = false

-- Reported only if both are.
abbrev pub combined : MetricSource → MetricSource → MetricSource
combined a b = if is_reported a && is_reported b then reported else estimated

abbrev output_value : Option TokenMeasurement → ℕ
output_value none = 0
output_value (some m) = m.value

abbrev cost_source : TokenMeasurement → Option TokenMeasurement → MetricSource
cost_source input none = input.source
cost_source input (some output) = combined input.source output.source

unfoldable pub is_price_for : Text → Text → Price → Bool
unfolding eq_ignore_ascii_case starts_with
is_price_for provider model entry =
    eq_ignore_ascii_case provider entry.provider && starts_with entry.model_prefix model

abbrev priced :
    Tools → TokenMeasurement → Option TokenMeasurement → Option Price → Option PricingCost
priced tools input output none = none
priced tools input output (some entry) = some (record {
  usd = tools.cost_of input.value (output_value output) entry;
  source = cost_source input output;
  catalog_version = pricing_catalog_version;
  price_id = entry.id;
})

abbrev priced_model :
    Tools → Text → TokenMeasurement → Option TokenMeasurement → Option Text → Option PricingCost
priced_model tools provider input output none = none
priced_model tools provider input output (some model) =
    priced tools input output (find (is_price_for provider model) tools.prices)

unfoldable pub price :
    Tools → PromptIr → TokenMeasurement → Option TokenMeasurement → Option PricingCost
unfolding eq_ignore_ascii_case is_price_for
price tools prompt input output =
    if eq_ignore_ascii_case prompt.provider.id (text "ollama")
    then some (record {
      usd = finite false 0 0;
      source = input.source;
      catalog_version = pricing_catalog_version;
      price_id = text "ollama:local:no_external_api_cost";
    })
    else priced_model tools prompt.provider.id input output prompt.model

abbrev pub or_estimate : Option TokenMeasurement → ℕ → TokenMeasurement
or_estimate none n = estimated_tokens n
or_estimate (some m) n = m

abbrev pub or_other : Option TokenMeasurement → Option TokenMeasurement → Option TokenMeasurement
or_other none other = other
or_other (some m) other = some m

abbrev pub sum_of : TokenMeasurement → Option TokenMeasurement → Option TokenMeasurement
sum_of input none = none
sum_of input (some output) = some (record {
  value = min (input.value + output.value) u64_max;
  source = combined input.source output.source;
  method = text "input_plus_output.v1";
})

abbrev pub input_keys : List Text
input_keys =
    text "input_tokens"
    ∷ text "prompt_tokens"
    ∷ text "promptTokenCount"
    ∷ text "prompt_eval_count"
    ∷ []

abbrev pub output_keys : List Text
output_keys =
    text "output_tokens"
    ∷ text "completion_tokens"
    ∷ text "candidatesTokenCount"
    ∷ text "eval_count"
    ∷ []

abbrev pub total_keys : List Text
total_keys = text "total_tokens" ∷ text "totalTokenCount" ∷ []

unfoldable pub input_tokens_of : Tools → PromptIr → TokenMeasurement
unfolding reported_usage estimate_value canonical_request
input_tokens_of tools prompt =
    or_estimate (reported_usage prompt.response input_keys)
      (estimate_value tools (canonical_request tools prompt))

unfoldable pub output_tokens_of : Tools → PromptIr → Option TokenMeasurement
unfolding reported_usage estimated_output
output_tokens_of tools prompt =
    or_other (reported_usage prompt.response output_keys) (estimated_output tools prompt.response)

unfoldable pub metrics_of : Tools → PromptIr → PromptMetrics
unfolding input_tokens_of output_tokens_of reported_usage price fingerprint
metrics_of tools prompt =
    let input = input_tokens_of tools prompt in
    let output = output_tokens_of tools prompt in
    record {
      input_tokens = some input;
      output_tokens = output;
      total_tokens = or_other (reported_usage prompt.response total_keys) (sum_of input output);
      cost = price tools prompt input output;
      fingerprint = fingerprint tools prompt;
    }

unfoldable pub enrich_metrics : Tools → PromptIr → PromptIr
unfolding metrics_of
enrich_metrics tools prompt = record prompt { metrics = some (metrics_of tools prompt) }
