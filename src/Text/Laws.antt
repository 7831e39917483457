-- ===== src/Text/Laws.antt =====
-- Laws of texts: equality, case, trimming and sets of texts.
use code_is_cheap.Common.{
  ℕ, ◌≡◌, refl, ◌↔◌, inl, inr, Bool, true, false, ◌||◌, List, [], ◌∷◌, map, arith, Bool-cases, All,
  ◌++◌,
}
use code_is_cheap.Text.{
  Text, text_eq, char_to_ascii_lowercase, to_ascii_lowercase, trim_start_matches, trim_end_matches,
  keep_before, contains,
}

pub text_eq_iff : (s t : Text) → (text_eq s t ≡ true) ↔ (s ≡ t)
unfolding text_eq
text_eq_iff [] [] = (λ _. refl, λ _. refl)
text_eq_iff [] (d ∷ t) = ground arith
text_eq_iff (c ∷ s) [] = ground arith
text_eq_iff (c ∷ s) (d ∷ t) = ground (arith, text_eq_iff s t)

pub text_eq_refl : (s : Text) → text_eq s s ≡ true
text_eq_refl s = (text_eq_iff s s).1 refl

pub char_to_ascii_lowercase_idem :
    (c : ℕ) → char_to_ascii_lowercase (char_to_ascii_lowercase c) ≡ char_to_ascii_lowercase c
unfolding char_to_ascii_lowercase
char_to_ascii_lowercase_idem c = ground arith

pub to_ascii_lowercase_idem :
    (s : Text) → to_ascii_lowercase (to_ascii_lowercase s) ≡ to_ascii_lowercase s
unfolding to_ascii_lowercase
to_ascii_lowercase_idem [] = refl
to_ascii_lowercase_idem (c ∷ s) = cc (char_to_ascii_lowercase_idem c, to_ascii_lowercase_idem s)

-- No code point of the text passes the test.
abbrev pub Free : (ℕ → Bool) → Text → Type 0
Free p s = All (λ c. p c ≡ false) s

pub trim_start_matches-Free : (p : ℕ → Bool) (s : Text) → Free p s → trim_start_matches p s ≡ s
unfolding trim_start_matches
trim_start_matches-Free p [] h = refl
trim_start_matches-Free p (c ∷ s) h = rw h.0

pub trim_end_matches-Free : (p : ℕ → Bool) (s : Text) → Free p s → trim_end_matches p s ≡ s
unfolding trim_end_matches
trim_end_matches-Free p [] h = refl
trim_end_matches-Free p (c ∷ []) h = rw h.0
trim_end_matches-Free p (c ∷ d ∷ s) h = rw (trim_end_matches-Free p (d ∷ s) h.1)

trim_end_matches-keep_before :
    (p : ℕ → Bool) (c : ℕ) (r : Text)
    → trim_end_matches p r ≡ r
    → trim_end_matches p (keep_before p c r) ≡ keep_before p c r
unfolding trim_end_matches
trim_end_matches-keep_before p c [] e = ground arith
trim_end_matches-keep_before p c (d ∷ r) e = rw e

pub trim_end_matches_idem :
    (p : ℕ → Bool) (s : Text) → trim_end_matches p (trim_end_matches p s) ≡ trim_end_matches p s
unfolding trim_end_matches
trim_end_matches_idem p [] = refl
trim_end_matches_idem p (c ∷ s) =
    trim_end_matches-keep_before p c (trim_end_matches p s) (trim_end_matches_idem p s)

-- Trimming commutes with a change of characters that the test does not see.
keep_before-map :
    (p : ℕ → Bool) (f : ℕ → ℕ)
    → ((c : ℕ) → p (f c) ≡ p c)
    → (c : ℕ) (r : Text) → keep_before p (f c) (map f r) ≡ map f (keep_before p c r)
keep_before-map p f h c [] = elim (Bool-cases (p c)) [ inl e ↦ rw (h c, e) | inr e ↦ rw (h c, e) ]
keep_before-map p f h c (d ∷ r) = refl

pub trim_end_matches-map :
    (p : ℕ → Bool) (f : ℕ → ℕ)
    → ((c : ℕ) → p (f c) ≡ p c)
    → (s : Text) → trim_end_matches p (map f s) ≡ map f (trim_end_matches p s)
unfolding trim_end_matches
trim_end_matches-map p f h [] = refl
trim_end_matches-map p f h (c ∷ s) =
    rw (trim_end_matches-map p f h s) (keep_before-map p f h c (trim_end_matches p s))

pub contains-append :
    (x : Text) (xs ys : List Text) → contains x (xs ++ ys) ≡ (contains x xs || contains x ys)
unfolding contains
contains-append x [] ys = refl
contains-append x (y ∷ xs) ys = ground (arith, contains-append x xs ys)
