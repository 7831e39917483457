-- ===== src/PromptIr/Metrics/Totals.antt =====
-- crates/prompt-ir/src/metrics.rs: where the counts of tokens come from, and their range.
use code_is_cheap.Common.{
  ℕ, ◌+◌, ◌≤◌, min, ◌≡◌, refl, ◌⊎◌, inl, inr, ◌↔◌, List, [], ◌∷◌, ◌++◌, Option, none, some,
  Bool-cases, Option-cases, All, arith, true, is_empty,
}
use mathlib.Core.List.{Memᴰ}
use mathlib.Core.List.Memᴰ.{head, tail}
use code_is_cheap.Text.{Text, text}
use code_is_cheap.Text.Numbers.{u64_max}
use code_is_cheap.Text.Bounds.{parse_unsigned-le}
use code_is_cheap.Json.{Value, null, bool, number, string, array, object}
use code_is_cheap.PromptIr.{
  PromptIr, PromptPart, ResponseTrace, MetricSource, reported, estimated, TokenMeasurement,
  PromptMetrics,
}
use code_is_cheap.PromptIr.Canonical.{Tools, canonical_parts, canonical_request}
use code_is_cheap.PromptIr.Metrics.{
  as_u64, entry_of, reported_in, reported_usage, estimate_value, estimated_output, input_tokens_of,
  output_tokens_of, metrics_of, input_keys, output_keys, total_keys, and_then_u64, provider_usage,
  or_estimate, or_other, sum_of, combined, canonical_parts, canonical_request,
}

-- What the provider states under one key.
abbrev pub stated_under : Option ResponseTrace → Text → Option ℕ
stated_under none key = none
stated_under (some trace) key = and_then_u64 (entry_of key trace.usage)

abbrev pub IsUnstated : Option ResponseTrace → List Text → Type 0
IsUnstated trace keys = All (λ key. stated_under trace key ≡ none) keys

-- The number stands under one of the keys.
abbrev pub IsStated : Option ResponseTrace → List Text → TokenMeasurement → Type 0
IsStated trace keys m =
    (key : Text) × Memᴰ key keys
    × (stated_under trace key ≡ some m.value)
    × (m.source ≡ reported)
    × (m.method ≡ text "provider_usage." ++ key)

abbrev pub IsCount : Option ResponseTrace → List Text → TokenMeasurement → Type 0
IsCount trace keys m =
    (m.value ≤ u64_max) × (IsStated trace keys m ⊎ (IsUnstated trace keys × (m.source ≡ estimated)))

abbrev pub parts_of : Option ResponseTrace → List PromptPart
parts_of none = []
parts_of (some trace) = trace.parts

abbrev pub IsOutput : Option ResponseTrace → Option TokenMeasurement → Type 0
IsOutput trace none = IsUnstated trace output_keys × (parts_of trace ≡ [])
IsOutput trace (some m) = IsCount trace output_keys m

-- The sum of two counts, cut off at the greatest u64.
abbrev pub IsSum : TokenMeasurement → TokenMeasurement → TokenMeasurement → Type 0
IsSum input output m =
    (m.value ≡ min (input.value + output.value) u64_max)
    × ((m.source ≡ reported) ↔ ((input.source ≡ reported) × (output.source ≡ reported)))

abbrev pub IsTotal :
    Option ResponseTrace
    → TokenMeasurement
    → Option TokenMeasurement
    → Option TokenMeasurement
    → Type 0
IsTotal trace input output none = IsUnstated trace total_keys × (output ≡ none)
IsTotal trace input output (some m) =
    (m.value ≤ u64_max)
    × (IsStated trace total_keys m
        ⊎ (IsUnstated trace total_keys
            × ((o : TokenMeasurement) × (output ≡ some o) × IsSum input o m)))

pub record AreCounts (trace : Option ResponseTrace) (m : PromptMetrics) : Type 0 where
  pub input : TokenMeasurement
  pub input_eq : m.input_tokens ≡ some input
  pub input_lem : IsCount trace input_keys input
  pub output_lem : IsOutput trace m.output_tokens
  pub total_lem : IsTotal trace input m.output_tokens m.total_tokens

as_u64-le : (v : Value) (n : ℕ) → as_u64 v ≡ some n → n ≤ u64_max
unfolding as_u64
as_u64-le (number literal) n h = parse_unsigned-le u64_max literal n h
as_u64-le null n h = absurd (cc h)
as_u64-le (bool b) n h = absurd (cc h)
as_u64-le (string s) n h = absurd (cc h)
as_u64-le (array vs) n h = absurd (cc h)
as_u64-le (object fs) n h = absurd (cc h)

stated_under-le :
    (trace : Option ResponseTrace) (key : Text) (n : ℕ)
    → stated_under trace key ≡ some n
    → n ≤ u64_max
stated_under-le none key n h = absurd (cc h)
stated_under-le (some trace) key n h = elim (Option-cases (entry_of key trace.usage)) [
  | inl p ↦ absurd (cc (p, h))
  | inr (v, p) ↦ as_u64-le v n (rw p at h)
]

-- What `reported` answers: the first key that a number stands under.
abbrev Answer : Option ResponseTrace → List Text → Option TokenMeasurement → Type 0
Answer trace keys none = IsUnstated trace keys
Answer trace keys (some m) = (m.value ≤ u64_max) × IsStated trace keys m

before :
    (trace : Option ResponseTrace) (key : Text) (keys : List Text)
    → (o : Option ℕ) (rest : Option TokenMeasurement) → stated_under trace key ≡ o
    → Answer trace keys rest
    → Answer trace
        (key ∷ keys)
        (elim o [ some value ↦ some (provider_usage key value) | none ↦ rest ])
before trace key keys none none p a = (p, a)
before trace key keys none (some m) p (bound, (k, at, stated, source, method)) =
    (bound, (k, tail at, stated, source, method))
before trace key keys (some n) rest p a =
    (stated_under-le trace key n p, (key, head refl, p, refl, refl))

reported_in-Answer :
    (trace : ResponseTrace) (keys : List Text)
    → Answer (some trace) keys (reported_in trace.usage keys)
unfolding reported_in
reported_in-Answer trace [] = tt
reported_in-Answer trace (key ∷ keys) =
    before (some trace) key keys (stated_under (some trace) key) (reported_in trace.usage keys) refl
      (reported_in-Answer trace keys)

IsUnstated-none : (keys : List Text) → IsUnstated none keys
IsUnstated-none [] = tt
IsUnstated-none (key ∷ keys) = (refl, IsUnstated-none keys)

reported_usage-Answer :
    (trace : Option ResponseTrace) (keys : List Text)
    → Answer trace keys (reported_usage trace keys)
unfolding reported_usage
reported_usage-Answer none keys = IsUnstated-none keys
reported_usage-Answer (some trace) keys = reported_in-Answer trace keys

estimate_value-le : (tools : Tools) (v : Value) → estimate_value tools v ≤ u64_max
unfolding estimate_value
estimate_value-le tools v = omega arith

or_estimate-IsCount :
    (trace : Option ResponseTrace) (keys : List Text) (answer : Option TokenMeasurement) (n : ℕ)
    → Answer trace keys answer
    → n ≤ u64_max
    → IsCount trace keys (or_estimate answer n)
or_estimate-IsCount trace keys none n a bound = (bound, inr (a, refl))
or_estimate-IsCount trace keys (some m) n (le, stated) bound = (le, inl stated)

of_empty {ℓ} : {A : Type ℓ} (xs : List A) → is_empty xs ≡ true → xs ≡ []
of_empty [] h = refl
of_empty (x ∷ xs) h = absurd (cc h)

or_other-IsOutput :
    (tools : Tools) (trace : Option ResponseTrace) (answer : Option TokenMeasurement)
    → Answer trace output_keys answer
    → IsOutput trace (or_other answer (estimated_output tools trace))
unfolding estimated_output
or_other-IsOutput tools trace (some m) (le, stated) = (le, inl stated)
or_other-IsOutput tools none none a = (a, refl)
or_other-IsOutput tools (some trace) none a = elim (Bool-cases (is_empty trace.parts)) [
  | inl p ↦ rw p (a, of_empty trace.parts p)
  | inr p ↦ rw p (estimate_value-le tools (canonical_parts trace.parts), inr (a, refl))
]

combined_iff : (a b : MetricSource) → (combined a b ≡ reported) ↔ ((a ≡ reported) × (b ≡ reported))
combined_iff reported reported = (λ h. (refl, refl), λ h. refl)
combined_iff reported estimated = (λ h. absurd (cc h), λ h. absurd (cc (h.1)))
combined_iff estimated b = (λ h. absurd (cc h), λ h. absurd (cc (h.0)))

or_other-IsTotal :
    (trace : Option ResponseTrace) (input : TokenMeasurement)
    → (output answer : Option TokenMeasurement) → Answer trace total_keys answer
    → IsTotal trace input output (or_other answer (sum_of input output))
or_other-IsTotal trace input output (some m) (le, stated) = (le, inl stated)
or_other-IsTotal trace input none none a = (a, refl)
or_other-IsTotal trace input (some o) none a =
    (omega arith, inr (a, (o, refl, (refl, combined_iff input.source o.source))))

-- Every count of the metrics fits in a u64 and is reported only if the provider states it: the
-- number under one of the keys for it, or for the total the sum, cut off at the greatest u64, of
-- two reported counts. It is estimated only if there is no number under any of the keys; the count
-- of the output is left out only if the response has no parts either, and the total only with it.
pub metrics_of-AreCounts :
    (tools : Tools) (prompt : PromptIr) → AreCounts prompt.response (metrics_of tools prompt)
unfolding metrics_of input_tokens_of output_tokens_of
metrics_of-AreCounts tools prompt = record {
  input = input_tokens_of tools prompt;
  input_eq = refl;
  input_lem =
      or_estimate-IsCount prompt.response input_keys (reported_usage prompt.response input_keys) _
        (reported_usage-Answer prompt.response input_keys)
        (estimate_value-le tools (canonical_request tools prompt));
  output_lem =
      or_other-IsOutput tools prompt.response (reported_usage prompt.response output_keys)
        (reported_usage-Answer prompt.response output_keys);
  total_lem =
      or_other-IsTotal prompt.response (input_tokens_of tools prompt)
        (output_tokens_of tools prompt) (reported_usage prompt.response total_keys)
        (reported_usage-Answer prompt.response total_keys);
}
