-- ===== src/Storage/Retention/Kept.antt =====
-- crates/storage/src/store.rs: what enforce_retention leaves and reports, as a function of the table.
use code_is_cheap.Common.{
  ℕ, zero, suc, ◌+◌, ◌-◌, min, ◌<◌, ◌≡◌, refl, sym, ap, subst, ◌∙◌, inl, inr, Bool, true, false,
  not, Option, some, List, [], ◌∷◌, length, take, drop, map, retain, is_empty, arith, Bool-cases,
}
use code_is_cheap.Text.Distinct.{AreDistinct}
use code_is_cheap.Storage.{RetentionReport}
use code_is_cheap.Storage.Store.{CaptureRow, EncryptedStore, row_id}
use code_is_cheap.Storage.Retention.{is_before, delete_capture_ids, Progress}
use code_is_cheap.Storage.Retention.Deletes.{
  drop_first, ids_of, delete_capture_ids-without, without-batch, AreDistinct-drop_first,
  retain-drop_first, length-drop_first, delete_capture_ids-count,
}

-- The captures that are not older than the cutoff.
abbrev pub kept_by_age : ℕ → List CaptureRow → List CaptureRow
kept_by_age cutoff rows = retain (λ r. not (is_before cutoff r)) rows

-- The last ones, up to a number.
abbrev pub kept_by_count : ℕ → List CaptureRow → List CaptureRow
kept_by_count max_captures rows = drop (length rows - max_captures) rows

-- A phase ended with these rows, and counted in the report what went; `counted` is the count that it
-- adds to, and `other` the one that it leaves.
pub record Ended (result : Option Progress) (report : RetentionReport) (rows kept : List CaptureRow)
    (counted other : RetentionReport → ℕ) : Type 0 where
  pub progress : Progress
  pub result_lem : result ≡ some progress
  pub distinct_lem : AreDistinct (ids_of progress.1.captures)
  pub rows_lem : progress.1.captures ≡ kept
  pub counted_lem : counted progress.0 + length kept ≡ counted report + length rows
  pub other_lem : other progress.0 ≡ other report

pub batch_of_none :
    (p : CaptureRow → Bool) (n : ℕ) (rows : List CaptureRow)
    → is_empty (map row_id (take (suc n) (retain p rows))) ≡ true
    → retain (λ r. not (p r)) rows ≡ rows
batch_of_none p n [] h = refl
batch_of_none p n (r ∷ rows) h = elim (Bool-cases (p r)) [
  | inl e ↦ absurd (cc (rw e at h))
  | inr e ↦
      (let k : retain (λ r. not (p r)) (r ∷ rows) ≡ r ∷ retain (λ r. not (p r)) rows = rw e refl in
        k ∙ ap (λ rs. r ∷ rs) (batch_of_none p n rows (rw e at h)))
]

pub batch_of_some :
    (p : CaptureRow → Bool) (n : ℕ) (rows : List CaptureRow)
    → is_empty (map row_id (take n (retain p rows))) ≡ false
    → 0 < min n (length (retain p rows))
batch_of_some p zero rows h = absurd (cc (h))
batch_of_some p (suc n) rows h = go (retain p rows) h
  where
    go :
        (os : List CaptureRow)
        → is_empty (map row_id (take (suc n) os)) ≡ false
        → 0 < min (suc n) (length os)
    go [] k = absurd (cc (k))
    go (o ∷ os) k = omega arith

-- The store behind the deletion of a batch of the rows that pass a test.
pub record Batch (store store' : EncryptedStore) (p : CaptureRow → Bool) (n deleted : ℕ)
    : Type 0 where
  pub batch_lem : store'.captures ≡ drop_first p n store.captures
  pub distinct_lem : AreDistinct (ids_of store'.captures)
  pub others_lem : retain (λ r. not (p r)) store'.captures ≡ retain (λ r. not (p r)) store.captures
  pub length_lem :
      length store'.captures + min n (length (retain p store.captures)) ≡ length store.captures
  pub deleted_lem : deleted + length store'.captures ≡ length store.captures

pub delete-Batch :
    (p : CaptureRow → Bool) (n : ℕ) (store : EncryptedStore)
    → AreDistinct (ids_of store.captures)
    → let ids = ids_of (take n (retain p store.captures)) in
      Batch store (delete_capture_ids store ids).1 p n (delete_capture_ids store ids).0
delete-Batch p n store h =
    let ids = ids_of (take n (retain p store.captures)) in
    let e : (delete_capture_ids store ids).1.captures ≡ drop_first p n store.captures =
      delete_capture_ids-without ids store ∙ without-batch p n store.captures h in
    record {
      batch_lem = e;
      distinct_lem =
          subst (λ rows. AreDistinct (ids_of rows)) (sym e)
            (AreDistinct-drop_first p n store.captures h);
      others_lem =
          ap (λ rows. retain (λ r. not (p r)) rows) e ∙ retain-drop_first p n store.captures;
      length_lem =
          ap (λ rows. length rows + min n (length (retain p store.captures))) e
          ∙ length-drop_first p n store.captures;
      deleted_lem = delete_capture_ids-count ids store;
    }

-- A turn of a loop in front of the rest of it.
pub Ended-after :
    (result result' : Option Progress) (report report' : RetentionReport)
    (rows rows' kept kept' : List CaptureRow) (counted other : RetentionReport → ℕ) (deleted : ℕ)
    → result ≡ result'
    → kept' ≡ kept
    → deleted + length rows' ≡ length rows
    → counted report' ≡ counted report + deleted
    → other report' ≡ other report
    → Ended result' report' rows' kept' counted other
    → Ended result report rows kept counted other
Ended-after result result' report report' rows rows' kept kept' counted other deleted e k d c o h =
    record {
      progress = h.progress;
      result_lem = e ∙ h.result_lem;
      distinct_lem = h.distinct_lem;
      rows_lem = h.rows_lem ∙ k;
      counted_lem = omega (arith, ap length k, h.counted_lem, d, c);
      other_lem = h.other_lem ∙ o;
    }
