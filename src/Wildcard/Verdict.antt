-- ===== src/Wildcard/Verdict.antt =====
-- The invariant of the loop of `wildcard_match`: what a run that goes on from any cursor answers.
use code_is_cheap.Common.{
  ℕ, zero, suc, ◌+◌, ◌*◌, ◌≤◌, ◌<◌, ◌≡◌, ◌≢◌, refl, sym, subst, ◌∙◌, inl, inr, Bool, true, false,
  Option, none, some, List, [], ◌∷◌, arith, ◌==◌, Bool-cases, ==_iff, length, All,
}
use code_is_cheap.Wildcard.{match_bytes, scan_fuel, start}
use code_is_cheap.Wildcard.Relation.{
  Matches, done, same, skip, grow, star, star_cases, byte_step, mismatch, mismatch_end, drop_byte,
  collapse,
}
use code_is_cheap.Wildcard.Suffixes.{Back, retry, only_stars, walk, scan-eq-walk}

-- No byte of the text is a star.
abbrev pub StarFree : List ℕ → Type 0
StarFree s = All (λ c. c ≢ star) s

-- The run ended; `true` is right, and `false` is right if `C` holds.
abbrev pub Verdict : Type 0 → Type 0 → Option Bool → Type 0
Verdict G C none = ⊥
Verdict G C (some true) = G
Verdict G C (some false) = C → ¬ G

only_stars-Matches : (p : List ℕ) → only_stars p ≡ true → Matches p []
unfolding only_stars
only_stars-Matches [] h = done
only_stars-Matches (x ∷ p) h = skip (ground arith) (only_stars-Matches p (ground arith))

Matches-only_stars : {p s : List ℕ} → Matches p s → s ≡ [] → only_stars p ≡ true
unfolding only_stars
Matches-only_stars done e = refl
Matches-only_stars (same x m) e = absurd (cc)
Matches-only_stars (skip x m) e = ground (arith, Matches-only_stars m e)
Matches-only_stars (grow x m) e = absurd (cc)

take_byte :
    {x c : ℕ} {p s : List ℕ}
    → Matches (star ∷ x ∷ p) (c ∷ s)
    → c ≢ star
    → x ≢ star
    → Matches (star ∷ p) s
take_byte m hc hx = elim (star_cases m) [
  | inl (e, r) ↦ absurd (hc (sym e))
  | inr (inl r) ↦ skip refl (byte_step r hx)
  | inr (inr r) ↦ drop_byte r refl hx
]

-- After a mismatch the last star takes one byte more.
take_more :
    {c : ℕ} {p s : List ℕ}
    → Matches (star ∷ p) (c ∷ s)
    → c ≢ star
    → ¬ Matches p (c ∷ s)
    → Matches (star ∷ p) s
take_more m hc n = elim (star_cases m) [
  | inl (e, r) ↦ absurd (hc (sym e))
  | inr (inl r) ↦ absurd (n r)
  | inr (inr r) ↦ r
]

no_end : (p : List ℕ) → only_stars (star ∷ p) ≡ true → only_stars p ≡ false → ⊥
unfolding only_stars
no_end p h e = ground arith

module _ (G C : Type 0) (k : ℕ) where
  abbrev Saved : ℕ → List ℕ → List ℕ → Back → Type 0
  Saved m p s none = C → G → Matches p s
  Saved m p s (some (bp, bs)) =
      (Matches (star ∷ bp) bs → G)
      × (C → G → Matches (star ∷ bp) bs)
      × (C → Matches bp bs → Matches p s)
      × (C → StarFree bs)
      × (length s ≤ length bs)
      × (length bs ≤ m)
      × (length bp < k)

  record Inv (f m : ℕ) (p s : List ℕ) (b : Back) : Type 0 where
    now : Matches p s → G
    later : C → G → Matches (star ∷ p) s
    saved : Saved m p s b
    free : C → StarFree s
    text_bound : length s ≤ m
    pattern_bound : length p < k
    fuel : m * k + length p < f

  Saved-byte :
      (m x c : ℕ) (p s : List ℕ) (b : Back)
      → (C → x ≢ star)
      → Saved m (x ∷ p) (c ∷ s) b
      → Saved m p s b
  Saved-byte m x c p s none n h = λ u g. byte_step (h u g) (n u)
  Saved-byte m x c p s (some (bp, bs)) n (h0, h1, h2, h3, h4, h5, h6) =
      (h0, h1, λ u r. byte_step (h2 u r) (n u), h3, omega arith, h5, h6)

  Inv-byte :
      (f m x c : ℕ) (p s : List ℕ) (b : Back)
      → x ≡ c
      → Inv (suc f) m (x ∷ p) (c ∷ s) b
      → Inv f m p s b
  Inv-byte f m x c p s b e i = record {
    now = λ h. i.now (same e h);
    later = λ u g. take_byte (i.later u g) (i.free u).0 (not_star u);
    saved = Saved-byte m x c p s b not_star i.saved;
    free = λ u. (i.free u).1;
    text_bound = omega (arith, i.text_bound);
    pattern_bound = omega (arith, i.pattern_bound);
    fuel = omega (arith, i.fuel);
  }
    where
      not_star : C → x ≢ star
      not_star u = λ h. (i.free u).0 (sym e ∙ h)

  Inv-star :
      (f m x c : ℕ) (p s : List ℕ) (b : Back)
      → x ≡ star
      → Inv (suc f) m (x ∷ p) (c ∷ s) b
      → Inv f m p (c ∷ s) (some (p, c ∷ s))
  Inv-star f m x c p s b e i = record {
    now = λ h. i.now (skip e h);
    later = λ u g. collapse (i.later u g) refl e;
    saved = (
      λ h. i.now (subst (λ z. Matches (z ∷ p) (c ∷ s)) (sym e) h),
      λ u g. collapse (i.later u g) refl e,
      λ u h. h,
      i.free,
      omega arith,
      i.text_bound,
      omega (arith, i.pattern_bound),
    );
    free = i.free;
    text_bound = i.text_bound;
    pattern_bound = omega (arith, i.pattern_bound);
    fuel = omega (arith, i.fuel);
  }

  -- The loop with one fuel less decides whatever keeps the invariant.
  abbrev Sound : ℕ → Type 0
  Sound f = (m : ℕ) (p s : List ℕ) (b : Back) → Inv f m p s b → Verdict G C (walk f p s b)

  retry-Verdict :
      (f m c : ℕ) (p s : List ℕ) (b : Back)
      → Sound f
      → Inv (suc f) m p (c ∷ s) b
      → ¬ Matches p (c ∷ s)
      → Verdict G C (retry b (walk f))
  unfolding retry
  retry-Verdict f m c p s none ih i n = λ u g. n (i.saved u g)
  retry-Verdict f m c p s (some (bp, [])) ih i n = absurd (omega (arith, i.saved))
  retry-Verdict f zero c p s (some (bp, d ∷ bs)) ih i n = absurd (omega (arith, i.saved))
  retry-Verdict f (suc m) c p s (some (bp, d ∷ bs)) ih i n =
      let (h0, h1, h2, h3, h4, h5, h6) = i.saved in
      let more : (C → G → Matches (star ∷ bp) bs) =
        λ u g. take_more (h1 u g) (h3 u).0 (λ r. n (h2 u r)) in
      ih m bp bs (some (bp, bs)) (record {
        now = λ r. h0 (grow refl (skip refl r));
        later = more;
        saved =
            (λ r. h0 (grow refl r), more, λ u r. r, λ u. (h3 u).1, omega arith, omega arith, h6);
        free = λ u. (h3 u).1;
        text_bound = omega arith;
        pattern_bound = h6;
        fuel = omega (arith, i.fuel);
      })

  walk-Verdict : (f : ℕ) → Sound f
  unfolding walk
  walk-Verdict zero m p s b i = absurd (omega (arith, i.fuel))
  walk-Verdict (suc f) m p [] b i = elim (Bool-cases (only_stars p)) [
    | inl e ↦ rw e (i.now (only_stars-Matches p e))
    | inr e ↦ rw e (λ u g. no_end p (Matches-only_stars (i.later u g) refl) e)
  ]
  walk-Verdict (suc f) m [] (c ∷ s) b i = retry-Verdict f m c [] s b (walk-Verdict f) i mismatch_end
  walk-Verdict (suc f) m (x ∷ p) (c ∷ s) b i = elim (Bool-cases (x == c)) [
    | inl e ↦ rw (e, Verdict) (walk-Verdict f m p s b (Inv-byte f m x c p s b ((==_iff x c).0 e) i))
    | inr n ↦
        rw (n, Verdict)
          elim (Bool-cases (x == star)) [
            | inl e ↦ rw e (
                walk-Verdict f m p (c ∷ s) (some (p, c ∷ s))
                  (Inv-star f m x c p s b ((==_iff x star).0 e) i))
            | inr e ↦ rw e (
                retry-Verdict f m c (x ∷ p) s b (walk-Verdict f) i
                  (mismatch (λ h. ground (arith, h)) (λ h. ground (arith, h))))
          ]
  ]

pub match_bytes-Verdict :
    (pattern bytes : List ℕ)
    → Verdict (Matches pattern bytes) (StarFree bytes) (match_bytes pattern bytes)
unfolding match_bytes
match_bytes-Verdict pattern bytes =
    rw
      (scan-eq-walk (scan_fuel pattern bytes) pattern bytes start
        (record { pattern_bound = omega arith; star_bound = tt }))
      (walk-Verdict (Matches pattern bytes) (StarFree bytes) (suc (length pattern))
        (scan_fuel pattern bytes) (length bytes) pattern bytes none
        (record {
          now = λ r. r;
          later = λ u g. skip refl g;
          saved = λ u g. g;
          free = λ u. u;
          text_bound = omega arith;
          pattern_bound = omega arith;
          fuel = omega arith;
        }))
