-- ===== src/PromptIr/Valid.antt =====
-- Which prompts `validate` accepts.
use code_is_cheap.Common.{
  ◌≡◌, refl, ◌↔◌, false, not, Option, none, some, List, [], ◌∷◌, ◌++◌, map, All, ok, arith,
  err_ne_ok,
}
use code_is_cheap.Text.{Text, text_eq}
use code_is_cheap.Text.Laws.{text_eq_iff}
use code_is_cheap.Text.Distinct.{AreDistinct, AreNew-nil}
use code_is_cheap.PromptIr.{PromptIr, prompt_ir_version, PromptMetrics}
use code_is_cheap.PromptIr.Checks.{ValidationError, is_blank}
use code_is_cheap.PromptIr.Validate.{
  check_metrics, check_provider, run_checks, validate_prompt, no_checks, result_of,
  has_blank_method, is_bad_fingerprint, is_bad_cost,
}
use code_is_cheap.PromptIr.Adds.{
  Adds, New-iff, Adds-then, Adds-last, Adds-skip, Adds-iff, report_if-Adds,
}
use code_is_cheap.PromptIr.Entries.{IsGoodConfidence, check_confidence-Adds}
use code_is_cheap.PromptIr.Loops.{
  instruction_ids, message_ids, context_ids, IsGoodInstruction, IsGoodMessage, IsGoodContext,
  IsGoodTool, check_instructions-Adds, check_messages-Adds, check_context-Adds,
  check_non_empty-Adds, check_tools-Adds, response_ids, IsGoodResponse, check_response-Adds,
}

abbrev pub IsGoodMetrics : Option PromptMetrics → Type 0
IsGoodMetrics none = Unit
IsGoodMetrics (some m) =
    (has_blank_method m.input_tokens ≡ false)
    × (has_blank_method m.output_tokens ≡ false)
    × (has_blank_method m.total_tokens ≡ false)
    × (is_bad_fingerprint m.fingerprint ≡ false)
    × (is_blank m.fingerprint.canonicalization_version ≡ false)
    × (is_bad_cost m.cost ≡ false)

check_metrics-Adds : (m : Option PromptMetrics) → Adds (check_metrics m) [] (IsGoodMetrics m)
unfolding check_metrics
check_metrics-Adds none = Adds-skip
check_metrics-Adds (some m) =
    Adds-iff
      (
        λ (((((a, b), c), d), e), f). (a, b, c, d, e, f),
        λ (a, b, c, d, e, f). (((((a, b), c), d), e), f),
      )
      (Adds-then
        (Adds-then
          (Adds-then
            (Adds-then
              (Adds-then (report_if-Adds (has_blank_method m.input_tokens) _)
                (report_if-Adds (has_blank_method m.output_tokens) _))
              (report_if-Adds (has_blank_method m.total_tokens) _))
            (report_if-Adds (is_bad_fingerprint m.fingerprint) _))
          (report_if-Adds (is_blank m.fingerprint.canonicalization_version) _))
        (report_if-Adds (is_bad_cost m.cost) _))

-- The version, the request and the provider.
abbrev pub IsGoodHead : PromptIr → Type 0
IsGoodHead ir =
    (ir.ir_version ≡ prompt_ir_version)
    × (is_blank ir.request_id ≡ false)
    × (is_blank ir.provider.id ≡ false)
    × IsGoodConfidence ir.provider.confidence

not-text_eq_iff : (s t : Text) → (not (text_eq s t) ≡ false) ↔ (s ≡ t)
not-text_eq_iff s t = ground (arith, text_eq_iff s t)

check_provider-Adds : (ir : PromptIr) → Adds (check_provider ir) [] (IsGoodHead ir)
unfolding check_provider
check_provider-Adds ir =
    Adds-iff
      (
        λ (((a, b), c), d). ((not-text_eq_iff ir.ir_version prompt_ir_version).0 a, b, c, d),
        λ (a, b, c, d). ((((not-text_eq_iff ir.ir_version prompt_ir_version).1 a, b), c), d),
      )
      (Adds-then
        (Adds-then
          (Adds-then (report_if-Adds (not (text_eq ir.ir_version prompt_ir_version)) _)
            (check_non_empty-Adds ir.request_id _))
          (check_non_empty-Adds ir.provider.id _))
        (check_confidence-Adds ir.provider.confidence _))

-- All ids of a prompt, in the order of `validate`.
abbrev pub all_ids : PromptIr → List Text
all_ids ir =
    instruction_ids ir.instructions
    ++ message_ids ir.messages
    ++ context_ids ir.context
    ++ map (λ t. t.id) ir.tools
    ++ response_ids ir.response

-- A well-formed prompt, without the order of the checks.
pub record IsGoodPrompt (ir : PromptIr) : Type 0 where
  pub head : IsGoodHead ir
  pub instructions : All IsGoodInstruction ir.instructions
  pub messages : All IsGoodMessage ir.messages
  pub context : All IsGoodContext ir.context
  pub tools : All IsGoodTool ir.tools
  pub response : IsGoodResponse ir.response
  pub metrics : IsGoodMetrics ir.metrics
  pub ids_present : All (λ id. is_blank id ≡ false) (all_ids ir)
  pub ids_distinct : AreDistinct (all_ids ir)

abbrev Parts : PromptIr → Type 0
Parts ir =
    IsGoodHead ir
    × All IsGoodInstruction ir.instructions
    × All IsGoodMessage ir.messages
    × All IsGoodContext ir.context
    × All IsGoodTool ir.tools
    × IsGoodResponse ir.response
    × IsGoodMetrics ir.metrics

run_checks-Adds : (ir : PromptIr) → Adds (run_checks ir) (all_ids ir) (Parts ir)
unfolding run_checks
run_checks-Adds ir =
    Adds-iff
      (
        λ ((((((h, i), m), c), t), r), x). (h, i, m, c, t, r, x),
        λ (h, i, m, c, t, r, x). ((((((h, i), m), c), t), r), x),
      )
      (Adds-last
        (Adds-then
          (Adds-then
            (Adds-then
              (Adds-then
                (Adds-then (check_provider-Adds ir) (check_instructions-Adds ir.instructions 0))
                (check_messages-Adds ir.messages 0))
              (check_context-Adds ir.context 0))
            (check_tools-Adds ir.tools 0))
          (check_response-Adds ir.response))
        (check_metrics-Adds ir.metrics))

result_of_iff : (errors : List ValidationError) → (result_of errors ≡ ok tt) ↔ (errors ≡ [])
result_of_iff [] = (λ h. refl, λ h. refl)
result_of_iff (e ∷ es) = (λ h. absurd (err_ne_ok h), λ h. absurd (cc))

-- `validate` accepts exactly the well-formed prompts: the version is the supported one, no required
-- text is blank, every confidence is between 0 and 1, observed evidence has a source and inferred
-- evidence a rule, the metrics are sound, and all ids of entries and parts are different.
pub validate_prompt_iff : (ir : PromptIr) → (validate_prompt ir ≡ ok tt) ↔ IsGoodPrompt ir
unfolding validate_prompt
validate_prompt_iff ir = (
  λ h.
      let (e, (head, i, m, c, t, r, x), n) =
        ((run_checks-Adds ir).clean_iff no_checks).0
          ((result_of_iff (run_checks ir no_checks).errors).0 h) in
      let (b, d) = (New-iff (all_ids ir) []).0 n in
      record {
        head = head;
        instructions = i;
        messages = m;
        context = c;
        tools = t;
        response = r;
        metrics = x;
        ids_present = b;
        ids_distinct = (AreNew-nil (all_ids ir)).0 d;
      },
  λ g. (result_of_iff (run_checks ir no_checks).errors).1 (
      ((run_checks-Adds ir).clean_iff no_checks).1 (
        refl,
        (g.head, g.instructions, g.messages, g.context, g.tools, g.response, g.metrics),
        (New-iff (all_ids ir) []).1 (g.ids_present, (AreNew-nil (all_ids ir)).1 g.ids_distinct),
      )),
)
