-- ===== src/Wildcard/Suffixes.antt =====
-- The loop of `wildcard_match` over the suffixes that its indices point at. The loop over indices
-- is shown equal to it, so that the proofs about the relation need no index.
use mathlib.Core.List.{tail}
use code_is_cheap.Common.{
  ℕ, zero, suc, ◌+◌, ◌≤◌, ◌<◌, ◌≡◌, refl, ◌∙◌, ◌⊎◌, inl, inr, Bool, true, false, ◌&&◌, Option, none,
  some, List, [], ◌∷◌, arith, ◌==◌, length, get_elem?, drop,
}
use code_is_cheap.Wildcard.{Cursor, byte_is, round, Round, next, reject, at_end, scan}
use code_is_cheap.Wildcard.Relation.{star}

-- What stands behind the last star, and the text at which to try next.
abbrev pub Back : Type 0
Back = Option (List ℕ × List ℕ)

unfoldable pub retry : Back → (List ℕ → List ℕ → Back → Option Bool) → Option Bool
retry none k = some false
retry (some (bp, bs)) k = k bp (tail bs) (some (bp, tail bs))

unfoldable pub only_stars : List ℕ → Bool
only_stars [] = true
only_stars (x ∷ p) = x == star && only_stars p

unfoldable pub walk : ℕ → List ℕ → List ℕ → Back → Option Bool
walk zero p s back = none
walk (suc f) p [] back = some (only_stars p)
walk (suc f) [] (c ∷ s) back = retry back (walk f)
walk (suc f) (x ∷ p) (c ∷ s) back = elim (x == c) [
  | true ↦ walk f p s back
  | false ↦ elim (x == star) [
    | true ↦ walk f p (c ∷ s) (some (p, c ∷ s))
    | false ↦ retry back (walk f)
  ]
]

-- An index points behind the end, or at an element.
abbrev IsPast : List ℕ → ℕ → Type 0
IsPast xs i = (drop i xs ≡ []) × (get_elem? xs i ≡ none) × (length xs ≤ i)

abbrev PointsAt : List ℕ → ℕ → ℕ → Type 0
PointsAt xs i c = (drop i xs ≡ c ∷ drop (i + 1) xs) × (get_elem? xs i ≡ some c) × (i < length xs)

locate : (xs : List ℕ) (i : ℕ) → IsPast xs i ⊎ ((c : ℕ) × PointsAt xs i c)
locate [] zero = inl (refl, refl, omega arith)
locate [] (suc i) = inl (refl, refl, omega arith)
locate (x ∷ xs) zero = inr (x, (refl, refl, omega arith))
locate (x ∷ xs) (suc i) = ground (arith, locate xs i)

tail-drop : (xs : List ℕ) (i : ℕ) → tail (drop i xs) ≡ drop (i + 1) xs
tail-drop [] zero = refl
tail-drop [] (suc i) = ground arith
tail-drop (x ∷ xs) zero = refl
tail-drop (x ∷ xs) (suc i) = ground (arith, tail-drop xs i)

at_end_lem :
    (f : ℕ) (xs : List ℕ) (i : ℕ)
    → i ≤ length xs
    → length xs < f + i
    → at_end f xs i ≡ only_stars (drop i xs)
unfolding at_end only_stars byte_is
at_end_lem zero xs i h k = absurd (omega arith)
at_end_lem (suc f) xs i h k = elim (locate xs i) [
  | inl (e, g, past) ↦ rw e (ground arith)
  | inr (c, (e, g, inside)) ↦ rw e (ground (arith, at_end_lem f xs (i + 1)))
]

-- The indices of the loop stay in range.
abbrev StarBelow : ℕ → Option ℕ → Type 0
StarBelow n none = Unit
StarBelow n (some star) = star < n

pub record InRange (pattern : List ℕ) (c : Cursor) : Type 0 where
  pub pattern_bound : c.pattern_index ≤ length pattern
  pub star_bound : StarBelow (length pattern) c.star_index

abbrev pub back : List ℕ → List ℕ → Cursor → Back
back pattern bytes c = elim c.star_index [
  | none ↦ none
  | some star ↦ some (drop (star + 1) pattern, drop c.retry_text_index bytes)
]

module _ (f : ℕ) (pattern bytes : List ℕ) where
  -- The loop over indices is the loop over suffixes, at this fuel.
  abbrev Agrees : Cursor → Type 0
  Agrees c =
      scan f pattern bytes c
      ≡ walk f (drop c.pattern_index pattern) (drop c.text_index bytes) (back pattern bytes c)

module _ (f : ℕ) (pattern bytes : List ℕ)
    (ih : (c : Cursor) → InRange pattern c → Agrees f pattern bytes c) where
  agree_past :
      (c : Cursor) → InRange pattern c → IsPast bytes c.text_index → Agrees (suc f) pattern bytes c
  unfolding scan walk
  agree_past c h (e, g, past) =
      rw e (ground (arith, at_end_lem (suc (length pattern)) pattern c.pattern_index))

  abbrev advanced : Cursor → Cursor
  advanced c = record c { pattern_index = c.pattern_index + 1; text_index = c.text_index + 1 }

  abbrev starred : Cursor → Cursor
  starred c = record c {
    pattern_index = c.pattern_index + 1;
    star_index = some c.pattern_index;
    retry_text_index = c.text_index;
  }

  abbrev retried : Cursor → ℕ → Cursor
  retried c at = record c {
    pattern_index = at + 1;
    text_index = c.retry_text_index + 1;
    retry_text_index = c.retry_text_index + 1;
  }

  -- What the loop does after a round.
  abbrev after : Round → Option Bool
  after (next c) = scan f pattern bytes c
  after reject = some false

  abbrev retry_round : Cursor → Option ℕ → Round
  retry_round c none = reject
  retry_round c (some at) = next (retried c at)

  retry_at :
      (c : Cursor) (at : ℕ)
      → InRange pattern c
      → c.star_index ≡ some at
      → scan f pattern bytes (retried c at)
        ≡ walk f
            (drop (at + 1) pattern)
            (drop (c.retry_text_index + 1) bytes)
            (some (drop (at + 1) pattern, drop (c.retry_text_index + 1) bytes))
  retry_at c at h found =
      let agrees =
        ih (retried c at) (record { pattern_bound = ground arith; star_bound = h.star_bound }) in
      cc (agrees, found)

  abbrev behind : Cursor → Option ℕ → Back
  behind c none = none
  behind c (some at) = some (drop (at + 1) pattern, drop c.retry_text_index bytes)

  retry_agrees :
      (c : Cursor) (o : Option ℕ)
      → InRange pattern c
      → c.star_index ≡ o
      → after (retry_round c o) ≡ retry (behind c o) (walk f)
  unfolding retry
  retry_agrees c none h e = refl
  retry_agrees c (some at) h e = rw tail-drop (retry_at c at h e)

  module _ (c : Cursor) (b : ℕ) (h : InRange pattern c) (pb : PointsAt bytes c.text_index b) where
    scan_inside : scan (suc f) pattern bytes c ≡ after (round pattern bytes c)
    unfolding scan
    scan_inside = ground arith

    -- The pattern is used up: only a retry is left.
    agree_short :
        IsPast pattern c.pattern_index
        → after (round pattern bytes c)
          ≡ walk
              (suc f)
              (drop c.pattern_index pattern)
              (drop c.text_index bytes)
              (back pattern bytes c)
    unfolding round walk
    agree_short (e, g, past) = rw (e, pb.0) (ground (arith, retry_agrees c c.star_index h refl))

    agree_long :
        (x : ℕ)
        → PointsAt pattern c.pattern_index x
        → after (round pattern bytes c)
          ≡ walk
              (suc f)
              (drop c.pattern_index pattern)
              (drop c.text_index bytes)
              (back pattern bytes c)
    unfolding round walk
    agree_long x (e, g, inside) =
        let a1 =
          ih (advanced c) (record { pattern_bound = omega arith; star_bound = h.star_bound }) in
        let a2 = ih (starred c) (record { pattern_bound = omega arith; star_bound = inside }) in
        rw (e, pb.0) (ground (arith, a1, a2, retry_agrees c c.star_index h refl))

    pub agree_inside : Agrees (suc f) pattern bytes c
    agree_inside = scan_inside ∙ elim (locate pattern c.pattern_index) [
      | inl past ↦ agree_short past
      | inr (x, at) ↦ agree_long x at
    ]

pub scan-eq-walk :
    (f : ℕ) (pattern bytes : List ℕ) (c : Cursor) → InRange pattern c → Agrees f pattern bytes c
scan-eq-walk zero pattern bytes c h = unfold scan walk in refl
scan-eq-walk (suc f) pattern bytes c h = elim (locate bytes c.text_index) [
  | inl past ↦ agree_past f pattern bytes (scan-eq-walk f pattern bytes) c h past
  | inr (b, at) ↦ agree_inside f pattern bytes (scan-eq-walk f pattern bytes) c b h at
]
