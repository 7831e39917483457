-- ===== src/Process/Linux/Verdicts.antt =====
-- Searches for one number in crates/process-attribution/src/linux.rs: what a result says of the
-- candidates, and how it is carried over to an equivalent set of them.
use code_is_cheap.Common.{
  ℕ, ◌≡◌, ◌≢◌, ◌⊎◌, inl, inr, Option, none, some, List, [], ◌∷◌, Result, ok, err,
}
use code_is_cheap.Process.{ProcessAttributionError}

-- The predicate holds of an element of the list.
abbrev pub Has {ℓ} : {A : Type ℓ} → (A → Type 0) → List A → Type 0
Has P [] = ⊥
Has P (x ∷ xs) = P x ⊎ Has P xs

-- A result over the candidates `C`, of which those in `Z` rule every answer out, and the possible
-- errors `F`: the only candidate; none, since there is none, one in `Z` or more than one; an error.
abbrev pub Verdict :
    (ℕ → Type 0)
    → (ℕ → Type 0)
    → (ProcessAttributionError → Type 0)
    → Result ProcessAttributionError (Option ℕ)
    → Type 0
Verdict C Z F (ok (some n)) = C n × ((m : ℕ) → C m → m ≡ n) × ¬ Z n
Verdict C Z F (ok none) =
    ((m : ℕ) → ¬ C m) ⊎ (((m : ℕ) × C m × Z m) ⊎ ((m : ℕ) × (n : ℕ) × C m × C n × (m ≢ n)))
Verdict C Z F (err e) = F e

pub Verdict-map :
    (C D Z : ℕ → Type 0) (F G : ProcessAttributionError → Type 0)
    → ((m : ℕ) → C m → D m)
    → ((m : ℕ) → D m → C m)
    → ((e : ProcessAttributionError) → F e → G e)
    → (r : Result ProcessAttributionError (Option ℕ)) → Verdict C Z F r
    → Verdict D Z G r
Verdict-map C D Z F G f g k (ok (some n)) (c, u, z) = (f n c, λ m d. u m (g m d), z)
Verdict-map C D Z F G f g k (ok none) (inl h) = inl (λ m d. h m (g m d))
Verdict-map C D Z F G f g k (ok none) (inr (inl (m, c, z))) = inr (inl (m, f m c, z))
Verdict-map C D Z F G f g k (ok none) (inr (inr (m, n, c, d, e))) =
    inr (inr (m, n, f m c, f n d, e))
Verdict-map C D Z F G f g k (err e) h = k e h
