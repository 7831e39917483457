-- ===== src/Adapters/Best.antt =====
-- The registry returns the prompt of the adapter with the greatest confidence among those that
-- succeed.
use code_is_cheap.Common.{
  ◌≤◌, ◌≡◌, refl, sym, subst, ◌∙◌, ◌⊎◌, inl, inr, true, false, ◌&&◌, some, List, [], ◌∷◌, ◌++◌, All,
  All-append_right, All-map, arith,
}
use code_is_cheap.Floats.{Float, is_finite, in_unit, is_less}
use code_is_cheap.Policy.{SanitizedCapture}
use code_is_cheap.PromptIr.{PromptIr}
use code_is_cheap.Adapters.{
  AdapterInput, input_of, PromptAdapter, ParseResult, Candidate, candidates_of, sort_candidates,
  parse_candidates, parse,
}
use code_is_cheap.Adapters.Ranking.{
  key, is_less-key, IsUnit, Ordered, sort_candidates-All, sort_candidates-All_back,
  sort_candidates-Ordered,
}
use code_is_cheap.Adapters.Registry.{
  Succeeds, IsRaw, Outcome, try_candidates-Outcome, IsDetected, AllDetected,
  candidates_of-IsDetected, candidates_of-AllDetected,
}

-- The result is the prompt of a registered adapter that succeeds, with the confidence that it
-- detected the capture with; no adapter with a greater confidence succeeds.
pub record IsBest (enrich_metrics : PromptIr → PromptIr) (input : AdapterInput)
    (adapters : List PromptAdapter) (r : ParseResult) : Type 0 where
  pub winner : Candidate
  pub detected_lem : IsDetected enrich_metrics input adapters winner
  pub succeeds_lem : Succeeds enrich_metrics input winner.1
  pub prompt_lem : r.prompt_ir ≡ some (enrich_metrics succeeds_lem.0.prompt_ir)
  pub adapter_lem : r.adapter_id ≡ some winner.1.id
  pub confidence_lem : r.confidence ≡ some winner.0
  pub raw_lem : r.raw_fallback ≡ false
  pub best_lem :
      AllDetected enrich_metrics input
        (λ c. (is_less winner.0 c.0 ≡ true) → ¬ Succeeds enrich_metrics input c.1)
        adapters

module _ (enrich_metrics : PromptIr → PromptIr) (input : AdapterInput) where
  parse_candidates-Outcome :
      (cs : List Candidate)
      → Outcome enrich_metrics input cs (parse_candidates enrich_metrics input cs)
  parse_candidates-Outcome [] = inr (tt, (refl, refl, refl, refl))
  parse_candidates-Outcome (c ∷ cs) = try_candidates-Outcome enrich_metrics input (c ∷ cs) []

  not_greater :
      (w c : Candidate) → IsUnit w → IsUnit c → key c.0 ≤ key w.0 → is_less w.0 c.0 ≡ true → ⊥
  not_greater w c u v l e = let q = sym (is_less-key w.0 c.0 u v) ∙ e in ground arith

  none_greater :
      (Q : Candidate → Type 0) (w : Candidate) (cs : List Candidate)
      → IsUnit w
      → All IsUnit cs
      → All (λ c. key c.0 ≤ key w.0) cs
      → All (λ c. (is_less w.0 c.0 ≡ true) → Q c) cs
  none_greater Q w [] u us b = tt
  none_greater Q w (c ∷ cs) u (v, us) (l, b) =
      ((λ e. absurd (not_greater w c u v l e)), none_greater Q w cs u us b)

  -- In an ordered list, whoever is greater than an element stands before it.
  greater_before :
      (Q : Candidate → Type 0) (before : List Candidate) (w : Candidate) (after : List Candidate)
      → IsUnit w
      → All IsUnit (before ++ w ∷ after)
      → Ordered (before ++ w ∷ after)
      → All Q before
      → All (λ c. (is_less w.0 c.0 ≡ true) → Q c) (before ++ w ∷ after)
  greater_before Q [] w after u (v, us) (b, o) h =
      ((λ e. absurd (not_greater w w u u (omega arith) e)), none_greater Q w after u us b)
  greater_before Q (c ∷ before) w after u (v, us) (b, o) (q, h) =
      ((λ e. q), greater_before Q before w after u us o h)

  unit_of : (x : Float) → (is_finite x && in_unit x) ≡ true → in_unit x ≡ true
  unit_of x h = ground arith

  IsBest-of :
      (adapters : List PromptAdapter) (r : ParseResult)
      → Outcome enrich_metrics input (sort_candidates (candidates_of input adapters)) r
      → IsBest enrich_metrics input adapters r
        ⊎ (AllDetected enrich_metrics input (λ c. ¬ Succeeds enrich_metrics input c.1) adapters
            × IsRaw enrich_metrics input r)
  IsBest-of adapters r (inr (h, k)) = inr (
    candidates_of-AllDetected enrich_metrics input _ adapters
        (sort_candidates-All_back _ (candidates_of input adapters) h),
    k,
  )
  IsBest-of adapters r (inl h) = inl (record {
    winner = h.winner;
    detected_lem = detected.0;
    succeeds_lem = h.succeeds_lem;
    prompt_lem = h.prompt_lem;
    adapter_lem = h.adapter_lem;
    confidence_lem = h.confidence_lem;
    raw_lem = h.raw_lem;
    best_lem = candidates_of-AllDetected enrich_metrics input _ adapters (
        sort_candidates-All_back _ (candidates_of input adapters) (
          subst (All _) (sym h.split_lem) (
            greater_before (λ c. ¬ Succeeds enrich_metrics input c.1) h.before h.winner h.after
              (unit_of h.winner.0 detected.0.2)
              (subst (All IsUnit) h.split_lem
                (sort_candidates-All IsUnit (candidates_of input adapters) units))
              (subst Ordered h.split_lem
                (sort_candidates-Ordered (candidates_of input adapters) units))
              h.failed_lem)));
  })
    where
      units : All IsUnit (candidates_of input adapters)
      units =
          All-map (IsDetected enrich_metrics input adapters) IsUnit (candidates_of input adapters)
            (λ c d. unit_of c.0 d.2)
            (candidates_of-IsDetected enrich_metrics input adapters adapters (λ a m. m))

      all_detected :
          All
            (IsDetected enrich_metrics input adapters)
            (sort_candidates (candidates_of input adapters))
      all_detected =
          sort_candidates-All _ (candidates_of input adapters)
            (candidates_of-IsDetected enrich_metrics input adapters adapters (λ a m. m))

      detected : All (IsDetected enrich_metrics input adapters) (h.winner ∷ h.after)
      detected =
          All-append_right _ h.before (h.winner ∷ h.after)
            (subst (All (IsDetected enrich_metrics input adapters)) h.split_lem all_detected)

-- `AdapterRegistry::parse`, whatever the adapters do: it returns the valid prompt of a registered
-- adapter, with the confidence that it detected the capture with, and no adapter with a greater
-- confidence succeeds; or no adapter that detects the capture succeeds, and it falls back to the raw
-- capture without a prompt.
pub parse-IsBest :
    (enrich_metrics : PromptIr → PromptIr) (adapters : List PromptAdapter)
    (capture : SanitizedCapture)
    → let input = input_of capture in
      let r = parse enrich_metrics adapters capture in
      IsBest enrich_metrics input adapters r
      ⊎ (AllDetected enrich_metrics input (λ c. ¬ Succeeds enrich_metrics input c.1) adapters
          × IsRaw enrich_metrics input r)
unfolding parse
parse-IsBest enrich_metrics adapters capture =
    IsBest-of enrich_metrics (input_of capture) adapters _
      (parse_candidates-Outcome enrich_metrics (input_of capture) _)
