-- ===== src/Adapters/Registry.antt =====
-- Which adapter's prompt the registry returns, and when it falls back to the raw capture.
use code_is_cheap.Common.{
  some_injective, ◌≡◌, refl, sym, ap, subst, ◌∙◌, ◌⊎◌, inl, inr, err_ne_ok, true, false, ◌&&◌,
  Option, none, some, List, [], ◌∷◌, ◌++◌, All, Bool-cases, Result, ok, err,
}
use mathlib.Core.List.{Memᴰ}
use mathlib.Core.List.Memᴰ.{head, tail}
use code_is_cheap.Floats.{Float, is_finite, in_unit}
use code_is_cheap.PromptIr.{PromptIr}
use code_is_cheap.PromptIr.Checks.{ValidationError}
use code_is_cheap.PromptIr.Validate.{validate_prompt}
use code_is_cheap.Adapters.{
  AdapterInput, ParseIssue, AdapterOutput, Caught, returned, panicked, PromptAdapter, ParseResult,
  Candidate, consider, candidates_of, accept_valid, try_candidate, try_candidates,
}

returned_injective : {a b : AdapterOutput} → returned (ok a) ≡ returned (ok b) → a ≡ b
returned_injective h = cc

module _ (enrich_metrics : PromptIr → PromptIr) (input : AdapterInput) where
  -- The adapter returns an output whose prompt, with its metrics, is valid.
  abbrev pub Succeeds : PromptAdapter → Type 0
  Succeeds adapter =
      (output : AdapterOutput) × (adapter.parse input ≡ returned (ok output))
      × (validate_prompt (enrich_metrics output.prompt_ir) ≡ ok tt)

  -- The first of the candidates to succeed made the result.
  pub record Chosen (cs : List Candidate) (r : ParseResult) : Type 0 where
    pub before : List Candidate
    pub winner : Candidate
    pub after : List Candidate
    pub split_lem : cs ≡ before ++ winner ∷ after
    pub failed_lem : All (λ c. ¬ Succeeds c.1) before
    pub succeeds_lem : Succeeds winner.1
    pub prompt_lem : r.prompt_ir ≡ some (enrich_metrics succeeds_lem.0.prompt_ir)
    pub adapter_lem : r.adapter_id ≡ some winner.1.id
    pub confidence_lem : r.confidence ≡ some winner.0
    pub raw_lem : r.raw_fallback ≡ false

  abbrev pub IsRaw : ParseResult → Type 0
  IsRaw r =
      (r.raw_fallback ≡ true) × (r.prompt_ir ≡ none) × (r.adapter_id ≡ none) × (r.confidence ≡ none)

  abbrev pub Outcome : List Candidate → ParseResult → Type 0
  Outcome cs r = Chosen cs r ⊎ (All (λ c. ¬ Succeeds c.1) cs × IsRaw r)

  later :
      (c : Candidate) (cs : List Candidate) (r : ParseResult)
      → ¬ Succeeds c.1
      → Outcome cs r
      → Outcome (c ∷ cs) r
  later c cs r n (inl h) = inl (record {
    before = c ∷ h.before;
    winner = h.winner;
    after = h.after;
    split_lem = ap (λ xs. c ∷ xs) h.split_lem;
    failed_lem = (n, h.failed_lem);
    succeeds_lem = h.succeeds_lem;
    prompt_lem = h.prompt_lem;
    adapter_lem = h.adapter_lem;
    confidence_lem = h.confidence_lem;
    raw_lem = h.raw_lem;
  })
  later c cs r n (inr (h, k)) = inr ((n, h), k)

  accept_valid-Outcome :
      (c : Candidate) (cs : List Candidate) (output : AdapterOutput) (issues : List ParseIssue)
      (rest : List ParseIssue → ParseResult) (v : Result (List ValidationError) (Unit {0}))
      → c.1.parse input ≡ returned (ok output)
      → validate_prompt (enrich_metrics output.prompt_ir) ≡ v
      → ((is : List ParseIssue) → Outcome cs (rest is))
      → Outcome
          (c ∷ cs)
          (accept_valid c (enrich_metrics output.prompt_ir) output.issues issues v rest)
  accept_valid-Outcome c cs output issues rest (ok _) p v h = inl (record {
    before = [];
    winner = c;
    after = cs;
    split_lem = refl;
    failed_lem = tt;
    succeeds_lem = (output, p, v);
    prompt_lem = refl;
    adapter_lem = refl;
    confidence_lem = refl;
    raw_lem = refl;
  })
  accept_valid-Outcome c cs output issues rest (err e) p v h =
      later c cs _
        (λ (o, q, k). err_ne_ok (
          sym v
          ∙ ap (λ x. validate_prompt (enrich_metrics x.prompt_ir)) (returned_injective (sym p ∙ q))
          ∙ k))
        (h _)

  try_candidate-Outcome :
      (c : Candidate) (cs : List Candidate) (caught : Caught) (issues : List ParseIssue)
      (rest : List ParseIssue → ParseResult)
      → c.1.parse input ≡ caught
      → ((is : List ParseIssue) → Outcome cs (rest is))
      → Outcome (c ∷ cs) (try_candidate enrich_metrics c caught issues rest)
  try_candidate-Outcome c cs (returned (ok output)) issues rest p h =
      accept_valid-Outcome c cs output issues rest _ p refl h
  try_candidate-Outcome c cs (returned (err e)) issues rest p h =
      later c cs _ (λ (o, q, k). absurd (cc (p, q))) (h _)
  try_candidate-Outcome c cs panicked issues rest p h =
      later c cs _ (λ (o, q, k). absurd (cc (p, q))) (h _)

  pub try_candidates-Outcome :
      (cs : List Candidate) (issues : List ParseIssue)
      → Outcome cs (try_candidates enrich_metrics input cs issues)
  unfolding try_candidates
  try_candidates-Outcome [] issues = inr (tt, (refl, refl, refl, refl))
  try_candidates-Outcome (c ∷ cs) issues =
      try_candidate-Outcome c cs (c.1.parse input) issues _ refl
        (λ issues'. try_candidates-Outcome cs issues')

  -- The adapter is one of them and detects the input with this confidence, between 0 and 1.
  abbrev pub IsDetected : List PromptAdapter → Candidate → Type 0
  IsDetected adapters c =
      Memᴰ c.1 adapters × (c.1.detect input ≡ some c.0) × ((is_finite c.0 && in_unit c.0) ≡ true)

  consider-All :
      (P : Candidate → Type 0) (detected : Option Float) (a : PromptAdapter) (cs : List Candidate)
      → ((x : Float) → detected ≡ some x → ((is_finite x && in_unit x) ≡ true) → P (x, a))
      → All P cs
      → All P (consider detected a cs)
  consider-All P none a cs f h = h
  consider-All P (some x) a cs f h = elim (Bool-cases (is_finite x && in_unit x)) [
    | inl e ↦ rw e (f x refl e, h)
    | inr e ↦ rw e h
  ]

  pub candidates_of-IsDetected :
      (adapters all : List PromptAdapter)
      → ((a : PromptAdapter) → Memᴰ a adapters → Memᴰ a all)
      → All (IsDetected all) (candidates_of input adapters)
  unfolding candidates_of
  candidates_of-IsDetected [] all m = tt
  candidates_of-IsDetected (a ∷ adapters) all m =
      consider-All (IsDetected all) (a.detect input) a _ (λ x e g. (m a (head refl), e, g))
        (candidates_of-IsDetected adapters all (λ b k. m b (tail k)))

  -- `P` holds of every adapter and the confidence that it detects the input with.
  abbrev pub AllDetected : (Candidate → Type 0) → List PromptAdapter → Type 0
  AllDetected P adapters =
      All
        (λ a.
          (x : Float) → a.detect input ≡ some x → ((is_finite x && in_unit x) ≡ true) → P (x, a))
        adapters

  consider-All_back :
      (P : Candidate → Type 0) (detected : Option Float) (a : PromptAdapter) (cs : List Candidate)
      → All P (consider detected a cs)
      → ((x : Float) → detected ≡ some x → ((is_finite x && in_unit x) ≡ true) → P (x, a))
        × All P cs
  consider-All_back P none a cs h = (λ x e g. absurd (cc), h)
  consider-All_back P (some x) a cs h = elim (Bool-cases (is_finite x && in_unit x)) [
    | inl e ↦
        (let k : All P ((x, a) ∷ cs) = (rw e at h) in
          (λ y q g. subst (λ z. P (z, a)) (some_injective q) k.0, k.1))
    | inr e ↦
        (let k : All P cs = (rw e at h) in
          (λ y q g. absurd (cc (g, e, ap (λ z. is_finite z && in_unit z) (some_injective q))), k))
  ]

  pub candidates_of-AllDetected :
      (P : Candidate → Type 0) (adapters : List PromptAdapter)
      → All P (candidates_of input adapters)
      → AllDetected P adapters
  unfolding candidates_of
  candidates_of-AllDetected P [] h = tt
  candidates_of-AllDetected P (a ∷ adapters) h =
      let (f, k) = consider-All_back P (a.detect input) a (candidates_of input adapters) h in
      (f, candidates_of-AllDetected P adapters k)
