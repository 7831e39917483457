-- ===== src/Storage/Pages/Newest.antt =====
-- crates/storage/src/store.rs: `ORDER BY … DESC`, the rows of a table from the newest on.
use code_is_cheap.Common.{
  ◌+◌, ◌≡◌, refl, inl, inr, true, false, List, [], ◌∷◌, ◌++◌, length, retain, All, All-append_right,
  retain_of_All, arith, Bool-cases,
}
use mathlib.Core.List.{reverse, reverse_aux}
use code_is_cheap.Text.{Text}
use code_is_cheap.Storage.Store.{CaptureRow, row_id, text_less, row_before}
use code_is_cheap.Storage.Store.Rows.{IsSorted, row_before_trans}

text_less_irrefl : (a : Text) → text_less a a ≡ false
unfolding text_less
text_less_irrefl [] = refl
text_less_irrefl (c ∷ a) = ground (arith, text_less_irrefl a)

row_before_irrefl : (r : CaptureRow) → row_before r r ≡ false
unfolding row_before
row_before_irrefl r = ground (arith, text_less_irrefl (row_id r))

row_before_asym : (a b : CaptureRow) → row_before a b ≡ true → row_before b a ≡ false
row_before_asym a b h = elim (Bool-cases (row_before b a)) [
  | inl e ↦ absurd (cc (row_before_trans a b a h e, row_before_irrefl a))
  | inr e ↦ e
]

-- Every row is behind those before it.
abbrev pub IsDescending : List CaptureRow → Type 0
IsDescending [] = Unit
IsDescending (r ∷ rows) = All (λ s. row_before s r ≡ true) rows × IsDescending rows

push-All :
    (r : CaptureRow) (seen rows : List CaptureRow)
    → All (λ s. row_before r s ≡ true) rows
    → All (λ s. All (λ t. row_before t s ≡ true) seen) rows
    → All (λ s. All (λ t. row_before t s ≡ true) (r ∷ seen)) rows
push-All r seen [] h k = tt
push-All r seen (s ∷ rows) (a, h) (b, k) = ((a, b), push-All r seen rows h k)

reverse_aux-IsDescending :
    (rows seen : List CaptureRow)
    → IsSorted rows
    → All (λ s. All (λ t. row_before t s ≡ true) seen) rows
    → IsDescending seen
    → IsDescending (reverse_aux rows seen)
reverse_aux-IsDescending [] seen h k d = d
reverse_aux-IsDescending (r ∷ rows) seen (b, h) (a, k) d =
    reverse_aux-IsDescending rows (r ∷ seen) h (push-All r seen rows b k) (a, d)

nothing_seen : (rows : List CaptureRow) → All (λ s. All (λ t. row_before t s ≡ true) []) rows
nothing_seen [] = tt
nothing_seen (r ∷ rows) = (tt, nothing_seen rows)

pub reverse-IsDescending : (rows : List CaptureRow) → IsSorted rows → IsDescending (reverse rows)
reverse-IsDescending rows h = reverse_aux-IsDescending rows [] h (nothing_seen rows) tt

-- Behind a row are exactly those that come after it.
pub retain-row_before :
    (front : List CaptureRow) (row : CaptureRow) (after : List CaptureRow)
    → IsDescending (front ++ row ∷ after)
    → retain (λ r. row_before r row) (front ++ row ∷ after) ≡ after
retain-row_before [] row after (h, d) =
    rw (row_before_irrefl row) (retain_of_All (λ r. row_before r row) after h)
retain-row_before (r ∷ front) row after (h, d) =
    rw (row_before_asym row r (All-append_right _ front (row ∷ after) h).0)
      (retain-row_before front row after d)

pub reverse_aux-All :
    (P : CaptureRow → Type 0) (rows seen : List CaptureRow)
    → All P rows
    → All P seen
    → All P (reverse_aux rows seen)
reverse_aux-All P [] seen h k = k
reverse_aux-All P (r ∷ rows) seen (a, h) k = reverse_aux-All P rows (r ∷ seen) h (a, k)

pub length-reverse_aux :
    (rows seen : List CaptureRow) → length (reverse_aux rows seen) ≡ length rows + length seen
length-reverse_aux [] seen = omega arith
length-reverse_aux (r ∷ rows) seen = omega (arith, length-reverse_aux rows (r ∷ seen))
