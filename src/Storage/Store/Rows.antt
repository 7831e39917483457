-- ===== src/Storage/Store/Rows.antt =====
-- crates/storage/src/store.rs: the tables stay in order, with different ids, under upserts and
-- deletions.
use code_is_cheap.Common.{
  ◌≡◌, ◌≢◌, ◌⊎◌, refl, sym, inl, inr, Bool, true, false, List, [], ◌∷◌, map, retain, ltb, All,
  All-map, retain-All, arith, Bool-cases,
}
use code_is_cheap.Text.{Text, text_eq}
use code_is_cheap.Text.Laws.{text_eq_iff}
use code_is_cheap.Text.Distinct.{Fresh, AreDistinct}
use code_is_cheap.Storage.Store.{CaptureRow, text_less, row_id, row_before, insert_row, delete_row}

pub text_less_trans :
    (a b c : Text) → text_less a b ≡ true → text_less b c ≡ true → text_less a c ≡ true
unfolding text_less
text_less_trans [] [] c h k = absurd (cc (h))
text_less_trans [] (y ∷ b) [] h k = absurd (cc (k))
text_less_trans [] (y ∷ b) (z ∷ c) h k = refl
text_less_trans (x ∷ a) [] c h k = absurd (cc (h))
text_less_trans (x ∷ a) (y ∷ b) [] h k = absurd (cc (k))
text_less_trans (x ∷ a) (y ∷ b) (z ∷ c) h k = ground (arith, text_less_trans a b c, h, k)

text_less_total : (a b : Text) → a ≢ b → (text_less a b ≡ true) ⊎ (text_less b a ≡ true)
unfolding text_less
text_less_total [] [] n = absurd (n refl)
text_less_total [] (y ∷ b) n = inl refl
text_less_total (x ∷ a) [] n = inr refl
text_less_total (x ∷ a) (y ∷ b) n = elim (Bool-cases (ltb x y)) [
  | inl e ↦ inl (ground (arith, e))
  | inr e ↦ elim (Bool-cases (ltb y x)) [
    | inl f ↦ inr (ground (arith, f))
    | inr f ↦
        (let q : x ≡ y = ground (arith, e, f) in
          elim (text_less_total a b (λ z. n (cc (q, z)))) [
            | inl k ↦ inl (ground (arith, e, q, k))
            | inr k ↦ inr (ground (arith, f, q, k))
          ])
  ]
]

pub row_before_trans :
    (a b c : CaptureRow) → row_before a b ≡ true → row_before b c ≡ true → row_before a c ≡ true
unfolding row_before
row_before_trans a b c h k = ground (arith, text_less_trans (row_id a) (row_id b) (row_id c), h, k)

row_before_total :
    (a b : CaptureRow) → row_id a ≢ row_id b → row_before a b ≡ false → row_before b a ≡ true
unfolding row_before
row_before_total a b n h = ground (arith, text_less_total (row_id a) (row_id b) n, h)

-- Every row is before those behind it.
abbrev pub IsSorted : List CaptureRow → Type 0
IsSorted [] = Unit
IsSorted (r ∷ rows) = All (λ s. row_before r s ≡ true) rows × IsSorted rows

pub All-insert_row :
    (P : CaptureRow → Type 0) (row : CaptureRow) (rows : List CaptureRow)
    → P row
    → All P rows
    → All P (insert_row row rows)
unfolding insert_row
All-insert_row P row [] p h = (p, tt)
All-insert_row P row (r ∷ rows) p (a, h) = elim (Bool-cases (row_before row r)) [
  | inl e ↦ rw e (p, (a, h))
  | inr e ↦ rw e (a, All-insert_row P row rows p h)
]

insert_row-IsSorted :
    (row : CaptureRow) (rows : List CaptureRow)
    → All (λ r. row_id row ≢ row_id r) rows
    → IsSorted rows
    → IsSorted (insert_row row rows)
unfolding insert_row
insert_row-IsSorted row [] n h = (tt, tt)
insert_row-IsSorted row (r ∷ rows) (n, ns) (b, h) = elim (Bool-cases (row_before row r)) [
  | inl e ↦ rw e ((e, All-map _ _ rows (λ s k. row_before_trans row r s e k) b), (b, h))
  | inr e ↦ rw e (
    All-insert_row (λ s. row_before r s ≡ true) row rows (row_before_total row r n e) b,
    insert_row-IsSorted row rows ns h,
  )
]

retain-IsSorted :
    (p : CaptureRow → Bool) (rows : List CaptureRow) → IsSorted rows → IsSorted (retain p rows)
retain-IsSorted p [] h = tt
retain-IsSorted p (r ∷ rows) (b, h) = elim (Bool-cases (p r)) [
  | inl e ↦ rw e (retain-All _ p rows b, retain-IsSorted p rows h)
  | inr e ↦ rw e (retain-IsSorted p rows h)
]

-- No two rows have an id in common.
abbrev pub HasDistinctIds : List CaptureRow → Type 0
HasDistinctIds [] = Unit
HasDistinctIds (r ∷ rows) = All (λ s. row_id r ≢ row_id s) rows × HasDistinctIds rows

insert_row-HasDistinctIds :
    (row : CaptureRow) (rows : List CaptureRow)
    → All (λ r. row_id row ≢ row_id r) rows
    → HasDistinctIds rows
    → HasDistinctIds (insert_row row rows)
unfolding insert_row
insert_row-HasDistinctIds row [] n h = (tt, tt)
insert_row-HasDistinctIds row (r ∷ rows) (n, ns) (b, h) = elim (Bool-cases (row_before row r)) [
  | inl e ↦ rw e ((n, ns), (b, h))
  | inr e ↦ rw e (
    All-insert_row (λ s. row_id r ≢ row_id s) row rows (λ q. n (sym q)) b,
    insert_row-HasDistinctIds row rows ns h,
  )
]

retain-HasDistinctIds :
    (p : CaptureRow → Bool) (rows : List CaptureRow)
    → HasDistinctIds rows
    → HasDistinctIds (retain p rows)
retain-HasDistinctIds p [] h = tt
retain-HasDistinctIds p (r ∷ rows) (b, h) = elim (Bool-cases (p r)) [
  | inl e ↦ rw e (retain-All _ p rows b, retain-HasDistinctIds p rows h)
  | inr e ↦ rw e (retain-HasDistinctIds p rows h)
]

delete_row-Fresh :
    (id : Text) (rows : List CaptureRow) → All (λ r. id ≢ row_id r) (delete_row id rows)
unfolding delete_row
delete_row-Fresh id [] = tt
delete_row-Fresh id (r ∷ rows) = elim (Bool-cases (text_eq (row_id r) id)) [
  | inl e ↦ rw e (delete_row-Fresh id rows)
  | inr e ↦ rw e (λ q. cc ((text_eq_iff (row_id r) id).1 (sym q), e), delete_row-Fresh id rows)
]

pub HasDistinctIds-AreDistinct :
    (rows : List CaptureRow) → HasDistinctIds rows → AreDistinct (map row_id rows)
HasDistinctIds-AreDistinct [] h = tt
HasDistinctIds-AreDistinct (r ∷ rows) (b, h) =
    (fresh (row_id r) rows b, HasDistinctIds-AreDistinct rows h)
  where
    fresh : (x : Text) (rs : List CaptureRow) → All (λ s. x ≢ row_id s) rs → Fresh x (map row_id rs)
    fresh x [] k = tt
    fresh x (s ∷ rs) (n, k) = (n, fresh x rs k)

-- The rows are in the order of the index, with different ids.
pub record IsTable (rows : List CaptureRow) : Type 0 where
  pub sorted : IsSorted rows
  pub distinct : HasDistinctIds rows

pub upsert_row-IsTable :
    (row : CaptureRow) (rows : List CaptureRow)
    → IsTable rows
    → IsTable (insert_row row (delete_row (row_id row) rows))
unfolding delete_row
upsert_row-IsTable row rows h = record {
  sorted =
      insert_row-IsSorted row _ (delete_row-Fresh (row_id row) rows)
        (retain-IsSorted _ rows h.sorted);
  distinct =
      insert_row-HasDistinctIds row _ (delete_row-Fresh (row_id row) rows)
        (retain-HasDistinctIds _ rows h.distinct);
}

pub retain-IsTable :
    (p : CaptureRow → Bool) (rows : List CaptureRow) → IsTable rows → IsTable (retain p rows)
retain-IsTable p rows h = record {
  sorted = retain-IsSorted p rows h.sorted;
  distinct = retain-HasDistinctIds p rows h.distinct;
}
