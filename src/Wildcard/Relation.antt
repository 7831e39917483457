-- ===== src/Wildcard/Relation.antt =====
-- What a pattern means, independently of any algorithm: a byte stands for itself, and `*` for any
-- run of bytes.
use code_is_cheap.Common.{ℕ, ◌≡◌, ◌≢◌, refl, sym, subst, ◌∙◌, ◌⊎◌, inl, inr, List, [], ◌∷◌}

abbrev pub star : ℕ
star = b'*'

pub data Matches : List ℕ → List ℕ → Type 0 where
  done : Matches [] []
  same : {x c : ℕ} {p s : List ℕ} → x ≡ c → Matches p s → Matches (x ∷ p) (c ∷ s)
  skip : {x : ℕ} {p s : List ℕ} → x ≡ star → Matches p s → Matches (x ∷ p) s
  grow : {x c : ℕ} {p s : List ℕ} → x ≡ star → Matches (x ∷ p) s → Matches (x ∷ p) (c ∷ s)

-- Inversions.
pub star_cases :
    {x c : ℕ} {p s : List ℕ}
    → Matches (x ∷ p) (c ∷ s)
    → ((x ≡ c) × Matches p s) ⊎ ((Matches p (c ∷ s)) ⊎ (Matches (x ∷ p) s))
star_cases (same e m) = inl (e, m)
star_cases (skip e m) = inr (inl m)
star_cases (grow e m) = inr (inr m)

pub byte_inv :
    {x : ℕ} {p t : List ℕ}
    → Matches (x ∷ p) t
    → x ≢ star
    → (c : ℕ) × (s : List ℕ) × (t ≡ c ∷ s) × (x ≡ c) × Matches p s
byte_inv (same {c = c} {s = s} e m) h = (c, s, refl, e, m)
byte_inv (skip e m) h = absurd (h e)
byte_inv (grow e m) h = absurd (h e)

pub byte_step : {x c : ℕ} {p s : List ℕ} → Matches (x ∷ p) (c ∷ s) → x ≢ star → Matches p s
byte_step (same e m) h = m
byte_step (skip e m) h = absurd (h e)
byte_step (grow e m) h = absurd (h e)

pub mismatch : {x c : ℕ} {p s : List ℕ} → x ≢ c → x ≢ star → ¬ Matches (x ∷ p) (c ∷ s)
mismatch n h (same e m) = n e
mismatch n h (skip e m) = h e
mismatch n h (grow e m) = h e

pub mismatch_end : {c : ℕ} {s : List ℕ} → ¬ Matches [] (c ∷ s)
mismatch_end m = elim m [ ]

-- A byte behind a star can be dropped: the star takes it.
shorten : {y x : ℕ} {p s : List ℕ} → Matches (x ∷ p) s → y ≡ star → x ≢ star → Matches (y ∷ p) s
shorten (same e m) y h = grow y (skip y m)
shorten (skip e m) y h = absurd (h e)
shorten (grow e m) y h = absurd (h e)

pub drop_byte :
    {y x : ℕ} {p s : List ℕ} → Matches (y ∷ x ∷ p) s → y ≡ star → x ≢ star → Matches (y ∷ p) s
drop_byte (same e m) y h = grow y (shorten m y h)
drop_byte (skip e m) y h = shorten m y h
drop_byte (grow e m) y h = grow e (drop_byte m y h)

-- Two stars in a row are one.
as_star : {y x : ℕ} {p s : List ℕ} → Matches (x ∷ p) s → y ≡ star → x ≡ star → Matches (y ∷ p) s
as_star {p = p} {s = s} m y h = subst (λ z. Matches (z ∷ p) s) (h ∙ sym y) m

pub collapse :
    {y x : ℕ} {p s : List ℕ} → Matches (y ∷ x ∷ p) s → y ≡ star → x ≡ star → Matches (y ∷ p) s
collapse (same e m) y h = grow y (as_star m y h)
collapse (skip e m) y h = as_star m y h
collapse (grow e m) y h = grow e (collapse m y h)
