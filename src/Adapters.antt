-- ===== src/Adapters.antt =====
-- crates/adapters/src/model.rs and registry.rs: the adapters that turn a sanitized capture into a
-- prompt, and the registry that asks them in the order of their confidence.
pub mod Ranking
pub mod Registry
pub mod Best
use code_is_cheap.Common.{
  Bool, true, false, ◌&&◌, if◌then◌else◌, Option, none, some, List, [], ◌∷◌, ◌++◌, Result, ok, err,
}
use code_is_cheap.Text.{Text}
use code_is_cheap.Floats.{Float, is_finite, in_unit, is_less}
use code_is_cheap.Capture.{CaptureEnvelope}
use code_is_cheap.Policy.{SanitizedCapture}
use code_is_cheap.PromptIr.{PromptIr}
use code_is_cheap.PromptIr.Checks.{ValidationError}
use code_is_cheap.PromptIr.Validate.{validate_prompt}

pub record AdapterInput : Type 0 where
  pub target_id : Text
  pub envelope : CaptureEnvelope

-- `AdapterInput::from`
abbrev pub input_of : SanitizedCapture → AdapterInput
input_of capture = record { target_id = capture.target_id; envelope = capture.envelope }

pub data ParseIssueCode : Type 0 where
  no_adapter adapter_rejected adapter_panicked all_adapters_failed invalid_body invalid_stream_event
        unsupported_operation missing_field unsupported_content invalid_field invalid_prompt_ir :
      ParseIssueCode

pub record ParseIssue : Type 0 where
  pub adapter_id : Option Text
  pub code : ParseIssueCode
  pub path : Option Text

-- `ParseIssue::adapter`
abbrev pub adapter_issue : Text → ParseIssueCode → ParseIssue
adapter_issue adapter_id code = record { adapter_id = some adapter_id; code = code; path = none }

pub record AdapterError : Type 0 where
  pub code : ParseIssueCode
  pub path : Option Text

pub record AdapterOutput : Type 0 where
  pub prompt_ir : PromptIr
  pub issues : List ParseIssue

-- What `catch_unwind` makes of a parse: its result, or that it panicked.
pub data Caught : Type 0 where
  returned : Result AdapterError AdapterOutput → Caught
  panicked : Caught

-- `trait PromptAdapter`
pub record PromptAdapter : Type 0 where
  pub id : Text
  pub detect : AdapterInput → Option Float
  pub parse : AdapterInput → Caught

pub record ParseResult : Type 0 where
  pub adapter_id : Option Text
  pub confidence : Option Float
  pub prompt_ir : Option PromptIr
  pub issues : List ParseIssue
  pub raw_fallback : Bool

abbrev pub Candidate : Type 0
Candidate = Float × PromptAdapter

-- The filter of the detected confidences, in front of the candidates of the other adapters.
abbrev pub consider : Option Float → PromptAdapter → List Candidate → List Candidate
consider none adapter rest = rest
consider (some confidence) adapter rest =
    if is_finite confidence && in_unit confidence then (confidence, adapter) ∷ rest else rest

unfoldable pub candidates_of : AdapterInput → List PromptAdapter → List Candidate
candidates_of input [] = []
candidates_of input (adapter ∷ adapters) =
    consider (adapter.detect input) adapter (candidates_of input adapters)

-- `sort_by` on descending confidences, which is stable: a candidate stays before those that are not
-- greater.
unfoldable pub insert_candidate : Candidate → List Candidate → List Candidate
insert_candidate c [] = c ∷ []
insert_candidate c (d ∷ ds) =
    let rest = insert_candidate c ds in if is_less c.0 d.0 then d ∷ rest else c ∷ d ∷ ds

unfoldable pub sort_candidates : List Candidate → List Candidate
sort_candidates [] = []
sort_candidates (c ∷ cs) = insert_candidate c (sort_candidates cs)

abbrev pub raw_result : List ParseIssue → ParseResult
raw_result issues = record {
  adapter_id = none;
  confidence = none;
  prompt_ir = none;
  issues = issues;
  raw_fallback = true;
}

-- The end of the loop over the candidates that accepts an output.
abbrev pub accepted_result : Candidate → PromptIr → List ParseIssue → ParseResult
accepted_result c prompt_ir issues = record {
  adapter_id = some c.1.id;
  confidence = some c.0;
  prompt_ir = some prompt_ir;
  issues = issues;
  raw_fallback = false;
}

-- One turn of the loop. `rest` goes on with the issues so far; `enrich_metrics` adds the metrics.
abbrev pub accept_valid :
    Candidate
    → PromptIr
    → List ParseIssue
    → List ParseIssue
    → Result (List ValidationError) (Unit {0})
    → (List ParseIssue → ParseResult)
    → ParseResult
accept_valid c prompt_ir output_issues issues (ok _) rest =
    accepted_result c prompt_ir (issues ++ output_issues)
accept_valid c prompt_ir output_issues issues (err _) rest =
    rest (issues ++ adapter_issue c.1.id invalid_prompt_ir ∷ [])

abbrev pub try_candidate :
    (PromptIr → PromptIr)
    → Candidate
    → Caught
    → List ParseIssue
    → (List ParseIssue → ParseResult)
    → ParseResult
try_candidate enrich_metrics c (returned (ok output)) issues rest =
    accept_valid c (enrich_metrics output.prompt_ir) output.issues issues
      (validate_prompt (enrich_metrics output.prompt_ir)) rest
try_candidate enrich_metrics c (returned (err error)) issues rest = rest (
    issues
    ++ record (adapter_issue c.1.id error.code) { path = error.path }
      ∷ adapter_issue c.1.id adapter_rejected
      ∷ [])
try_candidate enrich_metrics c panicked issues rest =
    rest (issues ++ adapter_issue c.1.id adapter_panicked ∷ [])

unfoldable pub try_candidates :
    (PromptIr → PromptIr) → AdapterInput → List Candidate → List ParseIssue → ParseResult
try_candidates enrich_metrics input [] issues =
    raw_result
      (issues ++ record { adapter_id = none; code = all_adapters_failed; path = none } ∷ [])
try_candidates enrich_metrics input (c ∷ cs) issues =
    try_candidate enrich_metrics c (c.1.parse input) issues
      (λ issues'. try_candidates enrich_metrics input cs issues')

abbrev pub parse_candidates : (PromptIr → PromptIr) → AdapterInput → List Candidate → ParseResult
parse_candidates enrich_metrics input [] =
    raw_result (record { adapter_id = none; code = no_adapter; path = none } ∷ [])
parse_candidates enrich_metrics input (c ∷ cs) = try_candidates enrich_metrics input (c ∷ cs) []

-- `AdapterRegistry::parse`
unfoldable pub parse : (PromptIr → PromptIr) → List PromptAdapter → SanitizedCapture → ParseResult
parse enrich_metrics adapters capture =
    parse_candidates enrich_metrics (input_of capture)
      (sort_candidates (candidates_of (input_of capture) adapters))

-- `AdapterRegistry::register`
abbrev pub register : List PromptAdapter → PromptAdapter → List PromptAdapter
register adapters adapter = adapters ++ adapter ∷ []

-- `AdapterRegistry::default`, of the adapters of the four providers.
abbrev pub default_adapters :
    PromptAdapter → PromptAdapter → PromptAdapter → PromptAdapter → List PromptAdapter
default_adapters openai anthropic gemini ollama =
    register (register (register (register [] openai) anthropic) gemini) ollama
