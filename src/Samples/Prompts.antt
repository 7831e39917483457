-- ===== src/Samples/Prompts.antt =====
-- Validation of small prompts, and a registry of three adapters.
use code_is_cheap.Common.{◌≡◌, refl, ◌⊎◌, false, none, some, List, [], ◌∷◌, ok, err}
use code_is_cheap.Text.{
  Text, text, text_eq, trim, contains, is_whitespace, trim_start_matches, trim_end_matches,
}
use code_is_cheap.Text.Numbers.{decimal}
use code_is_cheap.Floats.{Float, finite, is_finite, in_unit, is_less}
use code_is_cheap.PromptIr.{
  PromptIr, new_prompt_ir, Evidence, observed, inferred, json_pointer, Message, user, text_part,
}
use code_is_cheap.PromptIr.Checks.{
  duplicate_id, inferred_evidence_missing_rule, is_blank, register_id, check_non_empty,
  check_confidence, has_no_rule, check_evidence, check_parts,
}
use code_is_cheap.PromptIr.Validate.{
  check_instructions, check_messages, check_context, check_tools, check_response, check_metrics,
  check_provider, run_checks, validate_prompt,
}
use code_is_cheap.PromptIr.Valid.{IsGoodPrompt, validate_prompt_iff}
use code_is_cheap.Adapters.{
  input_of, PromptAdapter, returned, panicked, candidates_of, insert_candidate, sort_candidates,
  try_candidates, parse,
}
use code_is_cheap.Adapters.Registry.{Succeeds, IsRaw, AllDetected}
use code_is_cheap.Adapters.Best.{IsBest, parse-IsBest}
use code_is_cheap.Samples.Policies.{cleaned}

abbrev pointer : Evidence
pointer = record {
  level = observed;
  source = some (json_pointer (text "/messages/0"));
  rule_id = none;
  confidence = some (finite false 1 1074);
}

abbrev message : Text → Evidence → Message
message id evidence = record {
  id = id;
  role = user;
  parts = text_part (text "p") (text "hi") pointer ∷ [];
  evidence = evidence;
}

abbrev prompt : List Message → PromptIr
prompt messages = record (new_prompt_ir (text "r1") (text "openai")) { messages = messages }

abbrev good_prompt : PromptIr
good_prompt = prompt (message (text "m") pointer ∷ [])

accepts : validate_prompt good_prompt ≡ ok tt
unfolding validate_prompt run_checks check_provider check_instructions check_messages check_context
    check_tools check_response check_metrics check_parts check_evidence check_confidence
    check_non_empty register_id is_blank contains text_eq trim trim_start_matches trim_end_matches
    is_whitespace in_unit is_finite
accepts = refl

-- The part's id comes twice, and the inferred evidence has no rule.
rejects :
    validate_prompt (
      prompt (
        message (text "m") pointer ∷ message (text "n") (record pointer { level = inferred }) ∷ []))
    ≡ err (
        inferred_evidence_missing_rule (text "messages[1].evidence") ∷ duplicate_id (text "p") ∷ [])
unfolding validate_prompt run_checks check_provider check_instructions check_messages check_context
    check_tools check_response check_metrics check_parts check_evidence check_confidence
    check_non_empty register_id has_no_rule is_blank contains text_eq trim trim_start_matches
    trim_end_matches is_whitespace in_unit is_finite decimal
rejects = refl

validate_prompt_iff_example : IsGoodPrompt good_prompt
validate_prompt_iff_example = (validate_prompt_iff good_prompt).0 accepts

abbrev adapter : Text → Float → PromptIr → PromptAdapter
adapter id confidence ir = record {
  id = id;
  detect = λ _. some confidence;
  parse = λ _. returned (ok (record { prompt_ir = ir; issues = [] }));
}

abbrev panicking : PromptAdapter
panicking = record {
  id = text "broken";
  detect = λ _. some (finite false 1 1074);
  parse = λ _. panicked;
}

abbrev adapters : List PromptAdapter
adapters =
    adapter (text "low") (finite false 1 1072) good_prompt
    ∷ panicking
    ∷ adapter (text "high") (finite false 1 1073) good_prompt
    ∷ []

-- The third adapter has the greatest confidence among the two that work.
skips_panicked : (parse (λ ir. ir) adapters cleaned).adapter_id ≡ some (text "high")
unfolding parse candidates_of insert_candidate sort_candidates try_candidates is_less
    validate_prompt run_checks check_provider check_instructions check_messages check_context
    check_tools check_response check_metrics check_parts check_evidence check_confidence
    check_non_empty register_id is_blank contains text_eq trim trim_start_matches trim_end_matches
    is_whitespace in_unit is_finite
skips_panicked = refl

parse-IsBest_example :
    IsBest (λ ir. ir) (input_of cleaned) adapters (parse (λ ir. ir) adapters cleaned)
    ⊎ (AllDetected
          (λ ir. ir)
          (input_of cleaned)
          (λ c. ¬ Succeeds (λ ir. ir) (input_of cleaned) c.1)
          adapters
        × IsRaw (λ ir. ir) (input_of cleaned) (parse (λ ir. ir) adapters cleaned))
parse-IsBest_example = parse-IsBest (λ ir. ir) adapters cleaned
