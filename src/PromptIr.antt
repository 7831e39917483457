-- ===== src/PromptIr.antt =====
-- crates/prompt-ir/src/model.rs and evidence.rs: the provider-neutral description of a prompt.
pub mod Checks
pub mod Validate
pub mod Adds
pub mod Entries
pub mod Loops
pub mod Valid
pub mod Canonical
pub mod Metrics
use code_is_cheap.Common.{ℕ, Bool, Option, none, some, List, []}
use code_is_cheap.Text.{Text, text}
use code_is_cheap.Json.{Value}
use code_is_cheap.Floats.{Float}

abbrev pub prompt_ir_version : Text
prompt_ir_version = text "0.1.0"

pub data EvidenceLevel : Type 0 where
  observed derived inferred unknown_level : EvidenceLevel

pub data EvidenceSource : Type 0 where
  json_pointer : Text → EvidenceSource
  stream_event : ℕ → EvidenceSource
  attribute : Text → EvidenceSource
  byte_range : ℕ → ℕ → EvidenceSource

pub record Evidence : Type 0 where
  pub level : EvidenceLevel
  pub source : Option EvidenceSource
  pub rule_id : Option Text
  pub confidence : Option Float

pub record ProviderRef : Type 0 where
  pub id : Text
  pub host : Option Text
  pub confidence : Option Float

pub data InstructionRole : Type 0 where
  system_instruction developer_instruction unknown_instruction : InstructionRole

pub data MessageRole : Type 0 where
  system developer user assistant tool unknown_role : MessageRole

pub data PromptPart : Type 0 where
  text_part : Text → Text → Evidence → PromptPart
  json_part : Text → Value → Evidence → PromptPart
  image_ref : Text → Text → Option Text → Evidence → PromptPart
  audio_ref : Text → Text → Option Text → Evidence → PromptPart
  file_ref : Text → Text → Option Text → Evidence → PromptPart
  tool_use : Text → Text → Value → Evidence → PromptPart
  tool_result : Text → Text → Value → Evidence → PromptPart
  unknown_part : Text → Value → Evidence → PromptPart

-- `PromptPart::id` and `PromptPart::evidence`
abbrev pub part_id : PromptPart → Text
part_id (text_part id content evidence) = id
part_id (json_part id value evidence) = id
part_id (image_ref id location media_type evidence) = id
part_id (audio_ref id location media_type evidence) = id
part_id (file_ref id location media_type evidence) = id
part_id (tool_use id name input evidence) = id
part_id (tool_result id tool_use_id value evidence) = id
part_id (unknown_part id value evidence) = id

abbrev pub part_evidence : PromptPart → Evidence
part_evidence (text_part id content evidence) = evidence
part_evidence (json_part id value evidence) = evidence
part_evidence (image_ref id location media_type evidence) = evidence
part_evidence (audio_ref id location media_type evidence) = evidence
part_evidence (file_ref id location media_type evidence) = evidence
part_evidence (tool_use id name input evidence) = evidence
part_evidence (tool_result id tool_use_id value evidence) = evidence
part_evidence (unknown_part id value evidence) = evidence

pub record Instruction : Type 0 where
  pub id : Text
  pub role : InstructionRole
  pub parts : List PromptPart
  pub evidence : Evidence

pub record Message : Type 0 where
  pub id : Text
  pub role : MessageRole
  pub parts : List PromptPart
  pub evidence : Evidence

pub data ContextKind : Type 0 where
  retrieved_document cached_content tool_result_context application_state unknown_context :
      ContextKind

pub record ContextItem : Type 0 where
  pub id : Text
  pub kind : ContextKind
  pub source_label : Option Text
  pub parts : List PromptPart
  pub evidence : Evidence

pub record ToolDefinition : Type 0 where
  pub id : Text
  pub name : Text
  pub description : Option Text
  pub input_schema : Value
  pub evidence : Evidence

pub record ResponseEvent : Type 0 where
  pub index : ℕ
  pub kind : Text
  pub content_index : Option ℕ
  pub delta_kind : Option Text
  pub evidence : Evidence

pub record ResponseTrace : Type 0 where
  pub id : Option Text
  pub model : Option Text
  pub role : MessageRole
  pub parts : List PromptPart
  pub stop_reason : Option Text
  pub stop_sequence : Option Text
  pub usage : List (Text × Value)
  pub error : Option Value
  pub events : List ResponseEvent
  pub evidence : Evidence

pub record GenerationOptions : Type 0 where
  pub temperature : Option Float
  pub top_p : Option Float
  pub max_output_tokens : Option ℕ
  pub stop : List Text
  pub extra : List (Text × Value)

pub data BodyState : Type 0 where
  complete partial streaming missing unsupported : BodyState

pub record Completeness : Type 0 where
  pub request_body : BodyState
  pub response_body : BodyState

pub data MetricSource : Type 0 where
  reported estimated : MetricSource

pub record TokenMeasurement : Type 0 where
  pub value : ℕ
  pub source : MetricSource
  pub method : Text

pub record PricingCost : Type 0 where
  pub usd : Float
  pub source : MetricSource
  pub catalog_version : Text
  pub price_id : Text

pub record SemanticFingerprint : Type 0 where
  pub algorithm : Text
  pub canonicalization_version : Text
  pub digest : Text

pub record PromptMetrics : Type 0 where
  pub input_tokens : Option TokenMeasurement
  pub output_tokens : Option TokenMeasurement
  pub total_tokens : Option TokenMeasurement
  pub cost : Option PricingCost
  pub fingerprint : SemanticFingerprint

pub record PromptIr : Type 0 where
  pub ir_version : Text
  pub request_id : Text
  pub provider : ProviderRef
  pub operation : Option Text
  pub model : Option Text
  pub instructions : List Instruction
  pub messages : List Message
  pub context : List ContextItem
  pub tools : List ToolDefinition
  pub generation : GenerationOptions
  pub vendor : List (Text × Value)
  pub response : Option ResponseTrace
  pub completeness : Completeness
  pub metrics : Option PromptMetrics

abbrev pub new_prompt_ir : Text → Text → PromptIr
new_prompt_ir request_id provider_id = record {
  ir_version = prompt_ir_version;
  request_id = request_id;
  provider = record { id = provider_id; host = none; confidence = none };
  operation = none;
  model = none;
  instructions = [];
  messages = [];
  context = [];
  tools = [];
  generation = record {
    temperature = none;
    top_p = none;
    max_output_tokens = none;
    stop = [];
    extra = [];
  };
  vendor = [];
  response = none;
  completeness = record { request_body = complete; response_body = missing };
  metrics = none;
}
