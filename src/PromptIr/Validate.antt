-- ===== src/PromptIr/Validate.antt =====
-- crates/prompt-ir/src/validation.rs: `validate`, the loops over the parts of a prompt.
use code_is_cheap.Common.{
  ℕ, ◌+◌, Bool, false, not, ◌&&◌, ◌||◌, all, ◌==◌, leb, Option, none, some, List, [], ◌∷◌, ◌++◌,
  Result, ok, err,
}
use code_is_cheap.Text.{text, text_eq, utf8, byte_len}
use code_is_cheap.Floats.{is_finite, is_negative}
use code_is_cheap.PromptIr.{
  PromptIr, prompt_ir_version, Instruction, Message, ContextItem, ToolDefinition, ResponseTrace,
  ResponseEvent, PromptMetrics, TokenMeasurement, PricingCost, SemanticFingerprint,
}
use code_is_cheap.PromptIr.Checks.{
  ValidationError, unsupported_version, invalid_metric, Checks, Check, report_if, is_blank, indexed,
  register_id, check_non_empty, check_confidence, check_evidence, check_parts,
}

unfoldable pub check_instructions : List Instruction → ℕ → Check
check_instructions [] index s = s
check_instructions (instruction ∷ instructions) index s =
    let path = indexed (text "instructions") index in
    check_instructions instructions (index + 1) (
      check_parts instruction.parts path 0 (
        check_evidence instruction.evidence (path ++ text ".evidence")
          (register_id instruction.id path s)))

unfoldable pub check_messages : List Message → ℕ → Check
check_messages [] index s = s
check_messages (message ∷ messages) index s =
    let path = indexed (text "messages") index in
    check_messages messages (index + 1) (
      check_parts message.parts path 0 (
        check_evidence message.evidence (path ++ text ".evidence") (register_id message.id path s)))

unfoldable pub check_context : List ContextItem → ℕ → Check
check_context [] index s = s
check_context (context ∷ contexts) index s =
    let path = indexed (text "context") index in
    check_context contexts (index + 1) (
      check_parts context.parts path 0 (
        check_evidence context.evidence (path ++ text ".evidence") (register_id context.id path s)))

unfoldable pub check_tools : List ToolDefinition → ℕ → Check
check_tools [] index s = s
check_tools (tool ∷ tools) index s =
    let path = indexed (text "tools") index in
    check_tools tools (index + 1) (
      check_evidence tool.evidence (path ++ text ".evidence")
        (check_non_empty tool.name (path ++ text ".name") (register_id tool.id path s)))

unfoldable pub check_events : List ResponseEvent → ℕ → Check
check_events [] index s = s
check_events (event ∷ events) index s =
    let path = indexed (text "response.events") index in
    check_events events (index + 1) (
      check_evidence event.evidence (path ++ text ".evidence")
        (check_non_empty event.kind (path ++ text ".kind") s))

unfoldable pub check_response : Option ResponseTrace → Check
check_response none s = s
check_response (some response) s = check_events response.events 0 (
    check_parts response.parts (text "response") 0
      (check_evidence response.evidence (text "response.evidence") s))

-- `measurement.is_some_and(…)`
unfoldable pub has_blank_method : Option TokenMeasurement → Bool
has_blank_method none = false
has_blank_method (some measurement) = is_blank measurement.method

abbrev pub is_ascii_hexdigit : ℕ → Bool
is_ascii_hexdigit byte =
    (leb 48 byte && leb byte 57) || (leb 65 byte && leb byte 70) || (leb 97 byte && leb byte 102)

unfoldable pub is_bad_fingerprint : SemanticFingerprint → Bool
is_bad_fingerprint fingerprint =
    not (text_eq fingerprint.algorithm (text "blake3-256"))
    || not (byte_len fingerprint.digest == 64)
    || not (all is_ascii_hexdigit (utf8 fingerprint.digest))

unfoldable pub is_bad_cost : Option PricingCost → Bool
is_bad_cost none = false
is_bad_cost (some cost) =
    not (is_finite cost.usd)
    || is_negative cost.usd
    || is_blank cost.catalog_version
    || is_blank cost.price_id

unfoldable pub check_metrics : Option PromptMetrics → Check
check_metrics none s = s
check_metrics (some metrics) s =
    report_if (is_bad_cost metrics.cost) (invalid_metric (text "metrics.cost")) (
      report_if (is_blank metrics.fingerprint.canonicalization_version)
        (invalid_metric (text "metrics.fingerprint.canonicalization_version"))
        (report_if (is_bad_fingerprint metrics.fingerprint)
          (invalid_metric (text "metrics.fingerprint"))
          (report_if (has_blank_method metrics.total_tokens)
            (invalid_metric (text "metrics.total_tokens.method"))
            (report_if (has_blank_method metrics.output_tokens)
              (invalid_metric (text "metrics.output_tokens.method"))
              (report_if (has_blank_method metrics.input_tokens)
                (invalid_metric (text "metrics.input_tokens.method")) s)))))

unfoldable pub check_provider : PromptIr → Check
check_provider ir s = check_confidence ir.provider.confidence (text "provider.confidence") (
    check_non_empty ir.provider.id (text "provider.id") (
      check_non_empty ir.request_id (text "request_id") (
        report_if (not (text_eq ir.ir_version prompt_ir_version))
          (unsupported_version prompt_ir_version ir.ir_version) s)))

unfoldable pub run_checks : PromptIr → Check
run_checks ir s = check_metrics ir.metrics (
    check_response ir.response (
      check_tools ir.tools 0 (
        check_context ir.context 0 (
          check_messages ir.messages 0
            (check_instructions ir.instructions 0 (check_provider ir s))))))

abbrev pub result_of : List ValidationError → Result (List ValidationError) (Unit {0})
result_of [] = ok tt
result_of (error ∷ errors) = err (error ∷ errors)

abbrev pub no_checks : Checks
no_checks = record { ids = []; errors = [] }

unfoldable pub validate_prompt : PromptIr → Result (List ValidationError) (Unit {0})
validate_prompt ir = result_of (run_checks ir no_checks).errors
