-- ===== src/Samples/Metrics.antt =====
-- The metrics of a small prompt, with a printer of JSON and a checksum in the place of serde_json
-- and blake3.
use code_is_cheap.Common.{ℕ, ◌+◌, ◌≡◌, refl, true, false, none, some, List, [], ◌∷◌, ◌++◌}
use code_is_cheap.Text.{Text, text, text_eq}
use code_is_cheap.Text.Numbers.{decimal, parse_unsigned, parse_digits}
use code_is_cheap.Json.{
  Value, null, bool, number, string, array, object, Items, nil, item, Fields, end, field,
}
use code_is_cheap.Floats.{finite}
use code_is_cheap.PromptIr.{
  PromptIr, new_prompt_ir, Evidence, observed, unknown_level, user, assistant, text_part, tool_use,
  reported,
}
use code_is_cheap.PromptIr.Canonical.{Tools}
use code_is_cheap.PromptIr.Metrics.{
  metrics_of, input_tokens_of, output_tokens_of, reported_usage, reported_in, entry_of, as_u64,
}
use code_is_cheap.PromptIr.Metrics.Rename.{Renaming, rename, metrics_of-rename}
use code_is_cheap.PromptIr.Metrics.Totals.{AreCounts, metrics_of-AreCounts}

abbrev quoted : Text → Text
quoted s = b'"' ∷ (s ++ b'"' ∷ [])

abbrev mutual
  print : Value → Text
  print null = text "null"
  print (bool true) = text "true"
  print (bool false) = text "false"
  print (number literal) = literal
  print (string s) = quoted s
  print (array items) = b'[' ∷ (print_items items ++ b']' ∷ [])
  print (object fields) = b'{' ∷ (print_fields fields ++ b'}' ∷ [])

  print_items : Items → Text
  print_items nil = []
  print_items (item v items) = print v ++ b',' ∷ print_items items

  print_fields : Fields → Text
  print_fields end = []
  print_fields (field key v fields) = quoted key ++ b':' ∷ (print v ++ b',' ∷ print_fields fields)

abbrev total : List ℕ → ℕ
total [] = 0
total (n ∷ ns) = n + total ns

abbrev tools : Tools
tools = record {
  to_string = λ v. some (print v);
  generation_value = λ g. object end;
  blake3_hex = λ bytes. decimal (total bytes);
  prices =
      record {
        provider = text "openai";
        model_prefix = text "gpt-5-mini";
        input_per_million = finite false 1 1072;
        output_per_million = finite false 2 1074;
        id = text "openai:gpt-5-mini:standard";
      }
      ∷ [];
  cost_of = λ input output price. finite false (input + output) 1000;
}

abbrev no_evidence : Evidence
no_evidence = record { level = unknown_level; source = none; rule_id = none; confidence = none }

abbrev asked : PromptIr
asked = record (new_prompt_ir (text "request") (text "openai")) {
  model = some (text "gpt-5-mini");
  messages =
      record {
        id = text "message";
        role = user;
        parts = text_part (text "part") (text "hello") no_evidence ∷ [];
        evidence = no_evidence;
      }
      ∷ [];
  response = some (record {
    id = none;
    model = none;
    role = assistant;
    parts = tool_use (text "call") (text "search") (object end) no_evidence ∷ [];
    stop_reason = none;
    stop_sequence = none;
    usage =
        (text "eval_count", number (text "4")) ∷ (text "prompt_tokens", number (text "12")) ∷ [];
    error = none;
    events = [];
    evidence = no_evidence;
  });
}

abbrev primed : Renaming
primed = record { ident = λ id. id ++ text "-2"; evidence = λ e. record e { level = observed } }

metrics_of-rename_example : metrics_of tools (rename primed asked) ≡ metrics_of tools asked
metrics_of-rename_example = metrics_of-rename primed tools asked

metrics_of-AreCounts_example : AreCounts asked.response (metrics_of tools asked)
metrics_of-AreCounts_example = metrics_of-AreCounts tools asked

adds_reported :
    (metrics_of tools asked).total_tokens
    ≡ some (record { value = 16; source = reported; method = text "input_plus_output.v1" })
unfolding metrics_of input_tokens_of output_tokens_of reported_usage reported_in entry_of as_u64
    parse_unsigned parse_digits text_eq
adds_reported = refl
