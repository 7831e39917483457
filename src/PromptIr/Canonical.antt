-- ===== src/PromptIr/Canonical.antt =====
-- crates/prompt-ir/src/metrics.rs: the canonical form of a request, which its fingerprint is of.
use code_is_cheap.Common.{ℕ, Option, none, some, List, [], ◌∷◌}
use code_is_cheap.Text.{Text, text, to_ascii_lowercase}
use code_is_cheap.Json.{Value, null, string, array, object, Items, nil, item, end, field}
use code_is_cheap.Floats.{Float}
use code_is_cheap.PromptIr.{
  PromptIr, PromptPart, text_part, json_part, image_ref, audio_ref, file_ref, tool_use, tool_result,
  unknown_part, Instruction, InstructionRole, system_instruction, developer_instruction,
  unknown_instruction, Message, MessageRole, system, developer, user, assistant, tool, unknown_role,
  ContextItem, ContextKind, retrieved_document, cached_content, tool_result_context,
  application_state, unknown_context, ToolDefinition, GenerationOptions,
}

pub record Price : Type 0 where
  pub provider : Text
  pub model_prefix : Text
  pub input_per_million : Float
  pub output_per_million : Float
  pub id : Text

-- What the code calls and reads: serde_json's `to_string` of a value and its form of the generation
-- options, blake3 in hexadecimal digits, the catalog of prices, and the arithmetic of f64 that makes
-- a cost of two numbers of tokens.
pub record Tools : Type 0 where
  pub to_string : Value → Option Text
  pub generation_value : GenerationOptions → Value
  pub blake3_hex : List ℕ → Text
  pub prices : List Price
  pub cost_of : ℕ → ℕ → Price → Float

abbrev string_or_null : Option Text → Value
string_or_null none = null
string_or_null (some s) = string s

-- `json!` lists the keys of an object in their order.
unfoldable pub canonical_part : PromptPart → Value
canonical_part (text_part id content evidence) =
    object (field (text "kind") (string (text "text")) (field (text "text") (string content) end))
canonical_part (json_part id value evidence) =
    object (field (text "kind") (string (text "json")) (field (text "value") value end))
canonical_part (image_ref id location media_type evidence) = object (
    field (text "kind") (string (text "image_ref")) (
      field (text "location") (string location)
        (field (text "media_type") (string_or_null media_type) end)))
canonical_part (audio_ref id location media_type evidence) = object (
    field (text "kind") (string (text "audio_ref")) (
      field (text "location") (string location)
        (field (text "media_type") (string_or_null media_type) end)))
canonical_part (file_ref id location media_type evidence) = object (
    field (text "kind") (string (text "file_ref")) (
      field (text "location") (string location)
        (field (text "media_type") (string_or_null media_type) end)))
canonical_part (tool_use id name input evidence) = object (
    field (text "input") input
      (field (text "kind") (string (text "tool_use")) (field (text "name") (string name) end)))
canonical_part (tool_result id tool_use_id value evidence) =
    object (field (text "kind") (string (text "tool_result")) (field (text "value") value end))
canonical_part (unknown_part id value evidence) =
    object (field (text "kind") (string (text "unknown")) (field (text "value") value end))

abbrev pub items_of {ℓ} : {A : Type ℓ} → (A → Value) → List A → Items
items_of f [] = nil
items_of f (x ∷ xs) = item (f x) (items_of f xs)

abbrev pub canonical_parts : List PromptPart → Value
canonical_parts parts = array (items_of canonical_part parts)

abbrev pub instruction_role_name : InstructionRole → Text
instruction_role_name system_instruction = text "system"
instruction_role_name developer_instruction = text "developer"
instruction_role_name unknown_instruction = text "unknown"

abbrev pub role_name : MessageRole → Text
role_name system = text "system"
role_name developer = text "developer"
role_name user = text "user"
role_name assistant = text "assistant"
role_name tool = text "tool"
role_name unknown_role = text "unknown"

abbrev pub context_kind_name : ContextKind → Text
context_kind_name retrieved_document = text "retrieved_document"
context_kind_name cached_content = text "cached_content"
context_kind_name tool_result_context = text "tool_result"
context_kind_name application_state = text "application_state"
context_kind_name unknown_context = text "unknown"

unfoldable pub canonical_instruction : Instruction → Value
unfolding canonical_part
canonical_instruction i = object (
    field (text "parts") (canonical_parts i.parts)
      (field (text "role") (string (instruction_role_name i.role)) end))

unfoldable pub canonical_message : Message → Value
unfolding canonical_part
canonical_message m = object (
    field (text "parts") (canonical_parts m.parts)
      (field (text "role") (string (role_name m.role)) end))

unfoldable pub canonical_context : ContextItem → Value
unfolding canonical_part
canonical_context c = object (
    field (text "kind") (string (context_kind_name c.kind)) (
      field (text "parts") (canonical_parts c.parts)
        (field (text "source_label") (string_or_null c.source_label) end)))

unfoldable pub canonical_tool : ToolDefinition → Value
canonical_tool t = object (
    field (text "description") (string_or_null t.description)
      (field (text "input_schema") t.input_schema (field (text "name") (string t.name) end)))

unfoldable pub canonical_request : Tools → PromptIr → Value
unfolding canonical_instruction canonical_message canonical_context canonical_tool
    to_ascii_lowercase
canonical_request tools prompt = object (
    field (text "context") (array (items_of canonical_context prompt.context)) (
      field (text "generation") (tools.generation_value prompt.generation) (
        field (text "instructions") (array (items_of canonical_instruction prompt.instructions)) (
          field (text "messages") (array (items_of canonical_message prompt.messages)) (
            field (text "model") (string_or_null prompt.model) (
              field (text "operation") (string_or_null prompt.operation) (
                field (text "provider") (string (to_ascii_lowercase prompt.provider.id))
                  (field (text "tools") (array (items_of canonical_tool prompt.tools)) end))))))))
