-- ===== src/Adapters/Ranking.antt =====
-- The order of the candidates: sorting keeps them, and puts greater confidences first.
use code_is_cheap.Common.{
  ℕ, ◌+◌, ◌*◌, ◌^◌, ◌≤◌, ◌≡◌, refl, sym, ap, ◌∙◌, inl, inr, true, false, ==_iff, leb, ◌&&◌, ltb,
  ◌==◌, List, [], ◌∷◌, All, All-map, Bool-cases, arith,
}
use code_is_cheap.Floats.{Float, nan, infinite, finite, in_unit, is_less, magnitude}
use code_is_cheap.Adapters.{Candidate, insert_candidate, sort_candidates}

-- The place of a confidence in the order of those between 0 and 1.
abbrev pub key : Float → ℕ
key (finite negative mantissa exponent) = magnitude mantissa exponent
key _ = 0

zero_add : (n : ℕ) → 0 + n ≡ n
zero_add n = omega arith

zero_mul : (n : ℕ) → 0 * n ≡ 0
zero_mul n = omega arith

negative_zero : (m e : ℕ) → ((m == 0) && leb (m * 2 ^ e) (2 ^ 1074)) ≡ true → m ≡ 0
negative_zero m e h = elim (Bool-cases (m == 0)) [
  | inl q ↦ (==_iff m 0).0 q
  | inr q ↦ absurd (cc (h, ap (λ b. b && leb (m * 2 ^ e) (2 ^ 1074)) q))
]

no_magnitude : (m e : ℕ) → m ≡ 0 → magnitude m e ≡ 0
no_magnitude m e h = ap (λ n. n * 2 ^ e) h ∙ zero_mul (2 ^ e)

pub is_less-key :
    (x y : Float) → in_unit x ≡ true → in_unit y ≡ true → is_less x y ≡ ltb (key x) (key y)
unfolding is_less in_unit
is_less-key nan y h k = absurd (cc)
is_less-key (infinite n) y h k = absurd (cc)
is_less-key (finite n m e) nan h k = absurd (cc)
is_less-key (finite n m e) (infinite n') h k = absurd (cc)
is_less-key (finite false m e) (finite false m' e') h k = refl
is_less-key (finite true m e) (finite true m' e') h k =
    rw (no_magnitude m e (negative_zero m e h), no_magnitude m' e' (negative_zero m' e' k)) refl
is_less-key (finite true m e) (finite false m' e') h k =
    rw (no_magnitude m e (negative_zero m e h), zero_add (magnitude m' e')) refl
is_less-key (finite false m e) (finite true m' e') h k =
    rw (no_magnitude m' e' (negative_zero m' e' k)) (ground arith)

module _ (P : Candidate → Type 0) where
  insert-All :
      (c : Candidate) (cs : List Candidate) → P c → All P cs → All P (insert_candidate c cs)
  unfolding insert_candidate
  insert-All c [] p h = (p, tt)
  insert-All c (d ∷ ds) p (q, h) = elim (Bool-cases (is_less c.0 d.0)) [
    | inl e ↦ rw e (q, insert-All c ds p h)
    | inr e ↦ rw e (p, (q, h))
  ]

  insert-All_back :
      (c : Candidate) (cs : List Candidate) → All P (insert_candidate c cs) → P c × All P cs
  unfolding insert_candidate
  insert-All_back c [] h = h
  insert-All_back c (d ∷ ds) h = elim (Bool-cases (is_less c.0 d.0)) [
    | inl e ↦
        (let g : All P (d ∷ insert_candidate c ds) = (rw e at h) in
          let (p, k) = insert-All_back c ds g.1 in (p, (g.0, k)))
    | inr e ↦ (let g : All P (c ∷ d ∷ ds) = (rw e at h) in g)
  ]

  pub sort_candidates-All : (cs : List Candidate) → All P cs → All P (sort_candidates cs)
  unfolding sort_candidates
  sort_candidates-All [] h = tt
  sort_candidates-All (c ∷ cs) (p, h) =
      insert-All c (sort_candidates cs) p (sort_candidates-All cs h)

  pub sort_candidates-All_back : (cs : List Candidate) → All P (sort_candidates cs) → All P cs
  unfolding sort_candidates
  sort_candidates-All_back [] h = tt
  sort_candidates-All_back (c ∷ cs) h =
      let (p, k) = insert-All_back c (sort_candidates cs) h in (p, sort_candidates-All_back cs k)

abbrev pub IsUnit : Candidate → Type 0
IsUnit c = in_unit c.0 ≡ true

-- Greater confidences first.
abbrev pub Ordered : List Candidate → Type 0
Ordered [] = Unit
Ordered (c ∷ cs) = All (λ d. key d.0 ≤ key c.0) cs × Ordered cs

less_key : (c d : Candidate) → IsUnit c → IsUnit d → is_less c.0 d.0 ≡ true → key c.0 ≤ key d.0
less_key c d h k e = let q = sym (is_less-key c.0 d.0 h k) ∙ e in ground arith

not_less_key : (c d : Candidate) → IsUnit c → IsUnit d → is_less c.0 d.0 ≡ false → key d.0 ≤ key c.0
not_less_key c d h k e = let q = sym (is_less-key c.0 d.0 h k) ∙ e in ground arith

insert-Ordered :
    (c : Candidate) (cs : List Candidate)
    → IsUnit c
    → All IsUnit cs
    → Ordered cs
    → Ordered (insert_candidate c cs)
unfolding insert_candidate
insert-Ordered c [] h u o = (tt, tt)
insert-Ordered c (d ∷ ds) h (k, u) (b, o) = elim (Bool-cases (is_less c.0 d.0)) [
  | inl e ↦
      rw e
        (insert-All (λ x. key x.0 ≤ key d.0) c ds (less_key c d h k e) b, insert-Ordered c ds h u o)
  | inr e ↦
      (let q = not_less_key c d h k e in
        rw e (
          (q, All-map (λ x. key x.0 ≤ key d.0) (λ x. key x.0 ≤ key c.0) ds (λ x l. omega arith) b),
          (b, o),
        ))
]

pub sort_candidates-Ordered : (cs : List Candidate) → All IsUnit cs → Ordered (sort_candidates cs)
unfolding sort_candidates
sort_candidates-Ordered [] u = tt
sort_candidates-Ordered (c ∷ cs) (h, u) =
    insert-Ordered c (sort_candidates cs) h (sort_candidates-All IsUnit cs u)
      (sort_candidates-Ordered cs u)
