-- ===== src/Storage/Retention/Deletes.antt =====
-- crates/storage/src/store.rs: the deletion of a batch of captures, by its effect on the table.
use code_is_cheap.Common.{
  ℕ, zero, suc, ◌+◌, min, ◌≡◌, refl, sym, ap, ◌∙◌, inl, inr, Bool, true, not, List, [], ◌∷◌, length,
  take, drop, map, retain, if◌then◌else◌, arith, Bool-cases,
}
use code_is_cheap.Text.{Text, text_eq, contains}
use code_is_cheap.Text.Laws.{text_eq_iff}
use code_is_cheap.Text.Distinct.{Fresh, AreDistinct, Fresh-iff}
use code_is_cheap.Storage.Store.{CaptureRow, EncryptedStore, row_id, delete_row}
use code_is_cheap.Storage.Retention.{rows_of, delete_capture_ids}

-- The rows without the first `n` that pass the test.
abbrev pub drop_first : (CaptureRow → Bool) → ℕ → List CaptureRow → List CaptureRow
drop_first p n [] = []
drop_first p zero (r ∷ rows) = r ∷ rows
drop_first p (suc n) (r ∷ rows) = if p r then drop_first p n rows else r ∷ drop_first p (suc n) rows

abbrev pub ids_of : List CaptureRow → List Text
ids_of rows = map row_id rows

-- The rows of none of these ids.
abbrev without : List Text → List CaptureRow → List CaptureRow
without ids rows = retain (λ r. not (contains (row_id r) ids)) rows

delete_row-without :
    (id : Text) (ids : List Text) (rows : List CaptureRow)
    → without ids (delete_row id rows) ≡ without (id ∷ ids) rows
unfolding delete_row contains
delete_row-without id ids [] = refl
delete_row-without id ids (r ∷ rows) = ground (arith, delete_row-without id ids rows)

without-nil : (rows : List CaptureRow) → without [] rows ≡ rows
unfolding contains
without-nil [] = refl
without-nil (r ∷ rows) = ap (λ rs. r ∷ rs) (without-nil rows)

pub delete_capture_ids-without :
    (ids : List Text) (store : EncryptedStore)
    → (delete_capture_ids store ids).1.captures ≡ without ids store.captures
unfolding delete_capture_ids
delete_capture_ids-without [] store = sym (without-nil store.captures)
delete_capture_ids-without (id ∷ ids) store =
    delete_capture_ids-without ids _ ∙ delete_row-without id ids store.captures

-- A row that is none of the ids stays.
without-Fresh :
    (x : Text) (ids : List Text) (rows : List CaptureRow)
    → Fresh x (ids_of rows)
    → without (x ∷ ids) rows ≡ without ids rows
unfolding contains
without-Fresh x ids [] h = refl
without-Fresh x ids (r ∷ rows) (n, h) =
    ground (arith, text_eq_iff (row_id r) x, without-Fresh x ids rows h)

Fresh-batch :
    (x : Text) (p : CaptureRow → Bool) (n : ℕ) (rows : List CaptureRow)
    → Fresh x (ids_of rows)
    → Fresh x (ids_of (take n (retain p rows)))
Fresh-batch x p zero rows h = tt
Fresh-batch x p (suc n) [] h = tt
Fresh-batch x p (suc n) (r ∷ rows) (f, h) = elim (Bool-cases (p r)) [
  | inl e ↦ rw e (f, Fresh-batch x p n rows h)
  | inr e ↦ rw e (Fresh-batch x p (suc n) rows h)
]

-- The row that is the first of the batch goes, one that is not in the batch stays.
without-first :
    (r : CaptureRow) (ids : List Text) (rows : List CaptureRow)
    → Fresh (row_id r) (ids_of rows)
    → without (row_id r ∷ ids) (r ∷ rows) ≡ without ids rows
unfolding contains
without-first r ids rows f =
    rw ((text_eq_iff (row_id r) (row_id r)).1 refl) (without-Fresh (row_id r) ids rows f)

without-other :
    (r : CaptureRow) (ids : List Text) (rows : List CaptureRow)
    → Fresh (row_id r) ids
    → without ids (r ∷ rows) ≡ r ∷ without ids rows
without-other r ids rows f = rw ((Fresh-iff (row_id r) ids).1 f) refl

pub without-batch :
    (p : CaptureRow → Bool) (n : ℕ) (rows : List CaptureRow)
    → AreDistinct (ids_of rows)
    → without (ids_of (take n (retain p rows))) rows ≡ drop_first p n rows
without-batch p n [] h = refl
without-batch p zero (r ∷ rows) h = without-nil (r ∷ rows)
without-batch p (suc n) (r ∷ rows) (f, h) = elim (Bool-cases (p r)) [
  | inl e ↦
      (let b : take (suc n) (retain p (r ∷ rows)) ≡ r ∷ take n (retain p rows) = rw e refl in
        let d : drop_first p (suc n) (r ∷ rows) ≡ drop_first p n rows = rw e refl in
        ap (λ rs. without (ids_of rs) (r ∷ rows)) b
        ∙ without-first r (ids_of (take n (retain p rows))) rows f
        ∙ without-batch p n rows h
        ∙ sym d)
  | inr e ↦
      (let b : take (suc n) (retain p (r ∷ rows)) ≡ take (suc n) (retain p rows) = rw e refl in
        let d : drop_first p (suc n) (r ∷ rows) ≡ r ∷ drop_first p (suc n) rows = rw e refl in
        ap (λ rs. without (ids_of rs) (r ∷ rows)) b
        ∙ without-other r (ids_of (take (suc n) (retain p rows))) rows
            (Fresh-batch _ p (suc n) rows f)
        ∙ ap (λ rs. r ∷ rs) (without-batch p (suc n) rows h)
        ∙ sym d)
]

Fresh-drop_first :
    (x : Text) (p : CaptureRow → Bool) (n : ℕ) (rows : List CaptureRow)
    → Fresh x (ids_of rows)
    → Fresh x (ids_of (drop_first p n rows))
Fresh-drop_first x p n [] h = tt
Fresh-drop_first x p zero (r ∷ rows) h = h
Fresh-drop_first x p (suc n) (r ∷ rows) (f, h) = elim (Bool-cases (p r)) [
  | inl e ↦ rw e (Fresh-drop_first x p n rows h)
  | inr e ↦ rw e (f, Fresh-drop_first x p (suc n) rows h)
]

pub AreDistinct-drop_first :
    (p : CaptureRow → Bool) (n : ℕ) (rows : List CaptureRow)
    → AreDistinct (ids_of rows)
    → AreDistinct (ids_of (drop_first p n rows))
AreDistinct-drop_first p n [] h = tt
AreDistinct-drop_first p zero (r ∷ rows) h = h
AreDistinct-drop_first p (suc n) (r ∷ rows) (f, h) = elim (Bool-cases (p r)) [
  | inl e ↦ rw e (AreDistinct-drop_first p n rows h)
  | inr e ↦
      rw e (Fresh-drop_first (row_id r) p (suc n) rows f, AreDistinct-drop_first p (suc n) rows h)
]

-- What does not pass the test is not touched.
pub retain-drop_first :
    (p : CaptureRow → Bool) (n : ℕ) (rows : List CaptureRow)
    → retain (λ r. not (p r)) (drop_first p n rows) ≡ retain (λ r. not (p r)) rows
retain-drop_first p n [] = refl
retain-drop_first p zero (r ∷ rows) = refl
retain-drop_first p (suc n) (r ∷ rows) =
    ground (arith, retain-drop_first p n rows, retain-drop_first p (suc n) rows)

pub length-drop_first :
    (p : CaptureRow → Bool) (n : ℕ) (rows : List CaptureRow)
    → length (drop_first p n rows) + min n (length (retain p rows)) ≡ length rows
length-drop_first p n [] = omega arith
length-drop_first p zero (r ∷ rows) = omega arith
length-drop_first p (suc n) (r ∷ rows) = elim (Bool-cases (p r)) [
  | inl e ↦ rw e (omega (arith, length-drop_first p n rows))
  | inr e ↦ rw e (omega (arith, length-drop_first p (suc n) rows))
]

pub drop_first-true : (n : ℕ) (rows : List CaptureRow) → drop_first (λ r. true) n rows ≡ drop n rows
drop_first-true zero [] = refl
drop_first-true (suc n) [] = refl
drop_first-true zero (r ∷ rows) = refl
drop_first-true (suc n) (r ∷ rows) = drop_first-true n rows

pub retain-true : (rows : List CaptureRow) → retain (λ r. true) rows ≡ rows
retain-true [] = refl
retain-true (r ∷ rows) = ap (λ rs. r ∷ rs) (retain-true rows)

length-retain :
    (p : CaptureRow → Bool) (rows : List CaptureRow)
    → length (retain p rows) + length (retain (λ r. not (p r)) rows) ≡ length rows
length-retain p [] = omega arith
length-retain p (r ∷ rows) = ground (arith, length-retain p rows)

-- The number that a transaction reports is the number of rows that went.
pub delete_capture_ids-count :
    (ids : List Text) (store : EncryptedStore)
    → (delete_capture_ids store ids).0 + length (delete_capture_ids store ids).1.captures
      ≡ length store.captures
unfolding delete_capture_ids rows_of delete_row
delete_capture_ids-count [] store = omega arith
delete_capture_ids-count (id ∷ ids) store = omega (
  arith,
  length-retain (λ r. text_eq (row_id r) id) store.captures,
  delete_capture_ids-count ids _,
)
