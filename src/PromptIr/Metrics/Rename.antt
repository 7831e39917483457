-- ===== src/PromptIr/Metrics/Rename.antt =====
-- crates/prompt-ir/src/metrics.rs: prompts that differ in their ids and their evidence only.
use code_is_cheap.Common.{◌≡◌, refl, ap, List, [], ◌∷◌, Option, none, some, map, is_empty}
use code_is_cheap.Text.{Text}
use code_is_cheap.Json.{Value, array}
use code_is_cheap.PromptIr.{
  PromptIr, Evidence, PromptPart, text_part, json_part, image_ref, audio_ref, file_ref, tool_use,
  tool_result, unknown_part, Instruction, Message, ContextItem, ToolDefinition, ResponseTrace,
  TokenMeasurement,
}
use code_is_cheap.PromptIr.Canonical.{
  Tools, items_of, canonical_part, canonical_parts, canonical_instruction, canonical_message,
  canonical_context, canonical_tool, canonical_request,
}
use code_is_cheap.PromptIr.Metrics.{
  fingerprint, reported_usage, estimated_output, input_tokens_of, output_tokens_of, price,
  metrics_of, input_keys, output_keys, total_keys,
}

-- Another id for each id and other evidence for each evidence.
pub record Renaming : Type 0 where
  pub ident : Text → Text
  pub evidence : Evidence → Evidence

module _ (r : Renaming) where
  abbrev pub rename_part : PromptPart → PromptPart
  rename_part (text_part id content e) = text_part (r.ident id) content (r.evidence e)
  rename_part (json_part id value e) = json_part (r.ident id) value (r.evidence e)
  rename_part (image_ref id location media_type e) =
      image_ref (r.ident id) location media_type (r.evidence e)
  rename_part (audio_ref id location media_type e) =
      audio_ref (r.ident id) location media_type (r.evidence e)
  rename_part (file_ref id location media_type e) =
      file_ref (r.ident id) location media_type (r.evidence e)
  rename_part (tool_use id name input e) = tool_use (r.ident id) name input (r.evidence e)
  rename_part (tool_result id tool_use_id value e) =
      tool_result (r.ident id) (r.ident tool_use_id) value (r.evidence e)
  rename_part (unknown_part id value e) = unknown_part (r.ident id) value (r.evidence e)

  abbrev rename_parts : List PromptPart → List PromptPart
  rename_parts parts = map rename_part parts

  abbrev rename_instruction : Instruction → Instruction
  rename_instruction i = record i {
    id = r.ident i.id;
    parts = rename_parts i.parts;
    evidence = r.evidence i.evidence;
  }

  abbrev rename_message : Message → Message
  rename_message m = record m {
    id = r.ident m.id;
    parts = rename_parts m.parts;
    evidence = r.evidence m.evidence;
  }

  abbrev rename_context : ContextItem → ContextItem
  rename_context c = record c {
    id = r.ident c.id;
    parts = rename_parts c.parts;
    evidence = r.evidence c.evidence;
  }

  abbrev rename_tool : ToolDefinition → ToolDefinition
  rename_tool t = record t { id = r.ident t.id; evidence = r.evidence t.evidence }

  abbrev rename_response : Option ResponseTrace → Option ResponseTrace
  rename_response none = none
  rename_response (some trace) =
      some (record trace { parts = rename_parts trace.parts; evidence = r.evidence trace.evidence })

  -- A prompt of the same content under another request's id.
  abbrev pub rename : PromptIr → PromptIr
  rename prompt = record prompt {
    request_id = r.ident prompt.request_id;
    instructions = map rename_instruction prompt.instructions;
    messages = map rename_message prompt.messages;
    context = map rename_context prompt.context;
    tools = map rename_tool prompt.tools;
    response = rename_response prompt.response;
  }

  is_empty-map {ℓ} : {A : Type ℓ} → (g : A → A) (xs : List A) → is_empty (map g xs) ≡ is_empty xs
  is_empty-map g [] = refl
  is_empty-map g (x ∷ xs) = refl

  items_of-map {ℓ} :
      {A : Type ℓ}
      → (f : A → Value) (g : A → A) → ((x : A) → f (g x) ≡ f x)
      → (xs : List A) → items_of f (map g xs) ≡ items_of f xs
  items_of-map f g same [] = refl
  items_of-map f g same (x ∷ xs) = rw (same x, items_of-map f g same xs)

  canonical_part-rename :
      (part : PromptPart) → canonical_part (rename_part part) ≡ canonical_part part
  unfolding canonical_part
  canonical_part-rename (text_part id content e) = refl
  canonical_part-rename (json_part id value e) = refl
  canonical_part-rename (image_ref id location media_type e) = refl
  canonical_part-rename (audio_ref id location media_type e) = refl
  canonical_part-rename (file_ref id location media_type e) = refl
  canonical_part-rename (tool_use id name input e) = refl
  canonical_part-rename (tool_result id tool_use_id value e) = refl
  canonical_part-rename (unknown_part id value e) = refl

  canonical_parts-rename :
      (parts : List PromptPart) → canonical_parts (rename_parts parts) ≡ canonical_parts parts
  canonical_parts-rename parts =
      ap array (items_of-map canonical_part rename_part canonical_part-rename parts)

  canonical_instruction-rename :
      (i : Instruction) → canonical_instruction (rename_instruction i) ≡ canonical_instruction i
  unfolding canonical_instruction
  canonical_instruction-rename i = rw (canonical_parts-rename i.parts)

  canonical_message-rename :
      (m : Message) → canonical_message (rename_message m) ≡ canonical_message m
  unfolding canonical_message
  canonical_message-rename m = rw (canonical_parts-rename m.parts)

  canonical_context-rename :
      (c : ContextItem) → canonical_context (rename_context c) ≡ canonical_context c
  unfolding canonical_context
  canonical_context-rename c = rw (canonical_parts-rename c.parts)

  canonical_tool-rename : (t : ToolDefinition) → canonical_tool (rename_tool t) ≡ canonical_tool t
  unfolding canonical_tool
  canonical_tool-rename t = refl

  canonical_request-rename :
      (tools : Tools) (p : PromptIr)
      → canonical_request tools (rename p) ≡ canonical_request tools p
  unfolding canonical_request
  canonical_request-rename tools p = rw (
    items_of-map canonical_instruction rename_instruction canonical_instruction-rename
        p.instructions,
    items_of-map canonical_message rename_message canonical_message-rename p.messages,
    items_of-map canonical_context rename_context canonical_context-rename p.context,
    items_of-map canonical_tool rename_tool canonical_tool-rename p.tools,
  )

  fingerprint-rename :
      (tools : Tools) (p : PromptIr) → fingerprint tools (rename p) ≡ fingerprint tools p
  unfolding fingerprint
  fingerprint-rename tools p = rw (canonical_request-rename tools p)

  reported_usage-rename :
      (trace : Option ResponseTrace) (keys : List Text)
      → reported_usage (rename_response trace) keys ≡ reported_usage trace keys
  unfolding reported_usage
  reported_usage-rename none keys = refl
  reported_usage-rename (some trace) keys = refl

  estimated_output-rename :
      (tools : Tools) (trace : Option ResponseTrace)
      → estimated_output tools (rename_response trace) ≡ estimated_output tools trace
  unfolding estimated_output
  estimated_output-rename tools none = refl
  estimated_output-rename tools (some trace) =
      rw (is_empty-map rename_part trace.parts, canonical_parts-rename trace.parts)

  input_tokens_of-rename :
      (tools : Tools) (p : PromptIr) → input_tokens_of tools (rename p) ≡ input_tokens_of tools p
  unfolding input_tokens_of
  input_tokens_of-rename tools p =
      rw (reported_usage-rename p.response input_keys, canonical_request-rename tools p)

  output_tokens_of-rename :
      (tools : Tools) (p : PromptIr) → output_tokens_of tools (rename p) ≡ output_tokens_of tools p
  unfolding output_tokens_of
  output_tokens_of-rename tools p =
      rw (reported_usage-rename p.response output_keys, estimated_output-rename tools p.response)

  price-rename :
      (tools : Tools) (p : PromptIr) (input : TokenMeasurement) (output : Option TokenMeasurement)
      → price tools (rename p) input output ≡ price tools p input output
  unfolding price
  price-rename tools p input output = refl

  -- The metrics of a prompt do not depend on its ids, which are those of the request, the
  -- instructions, messages, context items, tools and parts, or on the evidence of these.
  pub metrics_of-rename :
      (tools : Tools) (p : PromptIr) → metrics_of tools (rename p) ≡ metrics_of tools p
  unfolding metrics_of
  metrics_of-rename tools p = rw (
    input_tokens_of-rename tools p,
    output_tokens_of-rename tools p,
    reported_usage-rename p.response total_keys,
    fingerprint-rename tools p,
    price-rename tools p,
  )
