-- ===== src/Wildcard/Decides.antt =====
-- `wildcard_match` against the relation `Matches`.
use code_is_cheap.Common.{
  ℕ, suc, ◌+◌, ◌*◌, ◌≡◌, refl, ◌↔◌, Bool, true, false, Option, none, some, List, [], ◌∷◌, arith,
  length,
}
use code_is_cheap.Text.{Text, utf8}
use code_is_cheap.Wildcard.{is_match, match_bytes, scan_fuel, start, wildcard_match}
use code_is_cheap.Wildcard.Relation.{Matches, done, skip, grow, star}
use code_is_cheap.Wildcard.Suffixes.{retry, walk, scan-eq-walk}
use code_is_cheap.Wildcard.Verdict.{StarFree, Verdict, match_bytes-Verdict}

-- The loop always returns: the fuel given by the two lengths is never used up.
pub match_bytes_total : (pattern bytes : List ℕ) → (b : Bool) × (match_bytes pattern bytes ≡ some b)
match_bytes_total pattern bytes = go (match_bytes pattern bytes) (match_bytes-Verdict pattern bytes)
  where
    go :
        (r : Option Bool)
        → Verdict (Matches pattern bytes) (StarFree bytes) r
        → (b : Bool) × (r ≡ some b)
    go none v = absurd v
    go (some b) v = (b, refl)

is_match-Verdict :
    (G C : Type 0) (r : Option Bool)
    → Verdict G C r
    → (is_match r ≡ true → G) × (C → G → is_match r ≡ true)
is_match-Verdict G C none v = absurd v
is_match-Verdict G C (some true) v = (λ _. v, λ u g. refl)
is_match-Verdict G C (some false) v = (λ h. absurd (cc h), λ u g. absurd (v u g))

-- What `wildcard_match` accepts does match the pattern, whatever the text.
pub wildcard_match_sound :
    (pattern t : Text) → wildcard_match pattern t ≡ true → Matches (utf8 pattern) (utf8 t)
unfolding wildcard_match
wildcard_match_sound pattern t =
    (is_match-Verdict _ _ _ (match_bytes-Verdict (utf8 pattern) (utf8 t))).0

-- On a text without `*`, `wildcard_match` accepts exactly what matches the pattern.
pub wildcard_match_iff :
    (pattern t : Text)
    → StarFree (utf8 t)
    → (wildcard_match pattern t ≡ true) ↔ Matches (utf8 pattern) (utf8 t)
unfolding wildcard_match
wildcard_match_iff pattern t free =
    let v = is_match-Verdict _ _ _ (match_bytes-Verdict (utf8 pattern) (utf8 t)) in (v.0, v.1 free)

Matches-all : (s : List ℕ) → Matches (star ∷ []) s
Matches-all [] = skip refl done
Matches-all (c ∷ s) = grow refl (Matches-all s)

star-walk : (f c : ℕ) (s : List ℕ) → walk (suc (suc f)) (star ∷ []) (star ∷ c ∷ s) none ≡ some false
unfolding walk retry
star-walk f c s = refl

star_fuel :
    (c : ℕ) (s : List ℕ) → scan_fuel (star ∷ []) (star ∷ c ∷ s) ≡ suc (suc (length s * 2 + 4))
star_fuel c s = omega arith

-- A `*` in the text meets the `*` of the pattern as an equal byte and uses it up: the pattern `*`
-- rejects every text of two bytes or more that begins with `*`, though it matches.
pub literal_star_missed :
    (c : ℕ) (s : List ℕ)
    → (match_bytes (star ∷ []) (star ∷ c ∷ s) ≡ some false) × Matches (star ∷ []) (star ∷ c ∷ s)
unfolding match_bytes
literal_star_missed c s = (
  rw
      (scan-eq-walk (scan_fuel (star ∷ []) (star ∷ c ∷ s)) (star ∷ []) (star ∷ c ∷ s) start
        (record { pattern_bound = omega arith; star_bound = tt }))
      (rw (star_fuel c s) (star-walk (length s * 2 + 4) c s)),
  Matches-all (star ∷ c ∷ s),
)
