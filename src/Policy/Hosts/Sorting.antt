-- ===== src/Policy/Hosts/Sorting.antt =====
-- `sort` on texts: an ordered rearrangement.
use mathlib.Core.List.{Perm}
use mathlib.Core.List.Perm
use code_is_cheap.Common.{
  ℕ, ◌≡◌, refl, sym, inl, inr, true, false, List, [], ◌∷◌, arith, All, Bool-cases,
}
use code_is_cheap.Text.{Text, utf8}
use code_is_cheap.Text.Distinct.{Fresh, AreDistinct}
use code_is_cheap.Policy.Hosts.{bytes_le, text_le, insert_sorted, sort}

bytes_le_total : (s t : List ℕ) → bytes_le s t ≡ false → bytes_le t s ≡ true
unfolding bytes_le
bytes_le_total [] t h = absurd (ground arith)
bytes_le_total (c ∷ s) [] h = refl
bytes_le_total (c ∷ s) (d ∷ t) h = ground (arith, bytes_le_total s t)

bytes_le_trans : (s t u : List ℕ) → bytes_le s t ≡ true → bytes_le t u ≡ true → bytes_le s u ≡ true
unfolding bytes_le
bytes_le_trans [] t u h k = refl
bytes_le_trans (c ∷ s) [] u h k = absurd (ground arith)
bytes_le_trans (c ∷ s) (d ∷ t) [] h k = absurd (ground arith)
bytes_le_trans (c ∷ s) (d ∷ t) (e ∷ u) h k = ground (arith, bytes_le_trans s t u)

-- Every text is at most each text behind it, by bytes.
abbrev pub IsSorted : List Text → Type 0
IsSorted [] = Unit
IsSorted (x ∷ xs) = All (λ y. text_le x y ≡ true) xs × IsSorted xs

below-All :
    (x y : Text) (ys : List Text)
    → text_le x y ≡ true
    → All (λ z. text_le y z ≡ true) ys
    → All (λ z. text_le x z ≡ true) ys
unfolding text_le
below-All x y [] h k = tt
below-All x y (z ∷ ys) h (a, k) =
    (bytes_le_trans (utf8 x) (utf8 y) (utf8 z) h a, below-All x y ys h k)

pub insert_sorted-All {ℓ} :
    (P : Text → Type ℓ) (x : Text) (ys : List Text) → P x → All P ys → All P (insert_sorted x ys)
unfolding insert_sorted
insert_sorted-All P x [] p h = (p, h)
insert_sorted-All P x (y ∷ ys) p h = elim (Bool-cases (text_le x y)) [
  | inl e ↦ rw e (p, h)
  | inr e ↦ rw e (h.0, insert_sorted-All P x ys p h.1)
]

insert_sorted-IsSorted : (x : Text) (ys : List Text) → IsSorted ys → IsSorted (insert_sorted x ys)
unfolding insert_sorted
insert_sorted-IsSorted x [] h = (tt, tt)
insert_sorted-IsSorted x (y ∷ ys) h = elim (Bool-cases (text_le x y)) [
  | inl e ↦ rw e ((e, below-All x y ys e h.0), h)
  | inr e ↦ rw e (
    insert_sorted-All _ x ys (unfold text_le in bytes_le_total (utf8 x) (utf8 y) e) h.0,
    insert_sorted-IsSorted x ys h.1,
  )
]

insert_sorted-AreDistinct :
    (x : Text) (ys : List Text) → Fresh x ys → AreDistinct ys → AreDistinct (insert_sorted x ys)
unfolding insert_sorted
insert_sorted-AreDistinct x [] f h = (tt, tt)
insert_sorted-AreDistinct x (y ∷ ys) f h = elim (Bool-cases (text_le x y)) [
  | inl e ↦ rw e (f, h)
  | inr e ↦
      rw e (insert_sorted-All _ x ys (λ p. f.0 (sym p)) h.0, insert_sorted-AreDistinct x ys f.1 h.1)
]

insert_sorted-perm : (x : Text) (ys : List Text) → Perm (insert_sorted x ys) (x ∷ ys)
unfolding insert_sorted
insert_sorted-perm x [] = Perm.refl (x ∷ [])
insert_sorted-perm x (y ∷ ys) = elim (Bool-cases (text_le x y)) [
  | inl e ↦ rw e (Perm.refl (x ∷ y ∷ ys))
  | inr e ↦ rw e (Perm.trans (Perm.cons y (insert_sorted-perm x ys)) (Perm.swap x y ys))
]

pub sort-IsSorted : (xs : List Text) → IsSorted (sort xs)
unfolding sort
sort-IsSorted [] = tt
sort-IsSorted (x ∷ xs) = insert_sorted-IsSorted x (sort xs) (sort-IsSorted xs)

pub sort-All {ℓ} : (P : Text → Type ℓ) (xs : List Text) → All P xs → All P (sort xs)
unfolding sort
sort-All P [] h = h
sort-All P (x ∷ xs) (a, h) = insert_sorted-All P x (sort xs) a (sort-All P xs h)

pub sort-AreDistinct : (xs : List Text) → AreDistinct xs → AreDistinct (sort xs)
unfolding sort
sort-AreDistinct [] h = h
sort-AreDistinct (x ∷ xs) (f, h) =
    insert_sorted-AreDistinct x (sort xs) (sort-All _ xs f) (sort-AreDistinct xs h)

pub sort-perm : (xs : List Text) → Perm (sort xs) xs
unfolding sort
sort-perm [] = Perm.refl []
sort-perm (x ∷ xs) = Perm.trans (insert_sorted-perm x (sort xs)) (Perm.cons x (sort-perm xs))
