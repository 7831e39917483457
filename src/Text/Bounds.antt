-- ===== src/Text/Bounds.antt =====
-- The numbers that `str::parse` of an unsigned type reads are in its range.
use code_is_cheap.Common.{
  Bool, ℕ, ◌+◌, ◌-◌, ◌*◌, ◌≤◌, ◌≡◌, subst, inl, inr, [], ◌∷◌, some, Bool-cases, some_injective,
  arith, true, false, ◌&&◌, leb, ◌==◌,
}
use code_is_cheap.Text.{Text, is_ascii_digit}
use code_is_cheap.Text.Numbers.{parse_digits, parse_signless, parse_unsigned}

bounded : {n max : ℕ} (b : Bool) → (b && leb n max) ≡ true → n ≤ max
bounded true h = ground arith
bounded false h = absurd (cc h)

parse_digits-le :
    (max value : ℕ) (s : Text) (n : ℕ) → value ≤ max → parse_digits max value s ≡ some n → n ≤ max
unfolding parse_digits
parse_digits-le max value [] n bound h = subst (λ k. k ≤ max) (some_injective h) bound
parse_digits-le max value (c ∷ s) n bound h =
    elim (Bool-cases (is_ascii_digit c && leb (value * 10 + (c - b'0')) max)) [
      | inl p ↦
          parse_digits-le max (value * 10 + (c - b'0')) s n (bounded (is_ascii_digit c) p)
            (rw p at h)
      | inr p ↦ absurd (cc (p, h))
    ]

parse_signless-le : (max : ℕ) (s : Text) (n : ℕ) → parse_signless max s ≡ some n → n ≤ max
parse_signless-le max [] n h = absurd (cc h)
parse_signless-le max (c ∷ s) n h = parse_digits-le max 0 (c ∷ s) n (omega arith) h

pub parse_unsigned-le : (max : ℕ) (s : Text) (n : ℕ) → parse_unsigned max s ≡ some n → n ≤ max
unfolding parse_unsigned
parse_unsigned-le max [] n h = absurd (cc h)
parse_unsigned-le max (c ∷ s) n h = elim (Bool-cases (c == b'+')) [
  | inl p ↦ parse_signless-le max s n (rw p at h)
  | inr p ↦ parse_signless-le max (c ∷ s) n (rw p at h)
]
