-- ===== src/Storage/Retention/Loops.antt =====
-- crates/storage/src/store.rs: the two loops of enforce_retention end, by the rows that they keep.
use code_is_cheap.Common.{
  length-drop, ℕ, zero, suc, ◌+◌, ◌-◌, min, ◌≤◌, ◌<◌, ◌≡◌, refl, sym, ap, subst, ◌∙◌, inl, inr,
  true, some, List, [], ◌∷◌, length, take, drop, retain, is_empty, ◌==◌, arith, Bool-cases,
}
use code_is_cheap.Storage.{RetentionReport}
use code_is_cheap.Text.Distinct.{AreDistinct}
use code_is_cheap.Storage.Store.{CaptureRow, EncryptedStore}
use code_is_cheap.Storage.Retention.{
  is_before, select_oldest_before, select_oldest, delete_capture_ids, delete_by_age,
  delete_by_count,
}
use code_is_cheap.Storage.Retention.Deletes.{ids_of, drop_first-true, retain-true}
use code_is_cheap.Storage.Retention.Kept.{
  kept_by_age, kept_by_count, Ended, Ended-after, Batch, delete-Batch, batch_of_none, batch_of_some,
}

pub delete_by_age-Ended :
    (fuel cutoff n : ℕ) (report : RetentionReport) (store : EncryptedStore)
    → length store.captures < fuel
    → AreDistinct (ids_of store.captures)
    → Ended
        (delete_by_age fuel cutoff (suc n) report store)
        report
        store.captures
        (kept_by_age cutoff store.captures)
        (λ r. r.deleted_by_age)
        (λ r. r.deleted_by_count)
unfolding delete_by_age select_oldest_before
delete_by_age-Ended zero cutoff n report store l h = absurd (omega arith)
delete_by_age-Ended (suc fuel) cutoff n report store l h =
    let p = is_before cutoff in
    let ids = ids_of (take (suc n) (retain p store.captures)) in
    let result = delete_by_age (suc fuel) cutoff (suc n) report store in
    elim (Bool-cases (is_empty ids)) [
      | inl e ↦
          (let q : result ≡ some (report, store) = rw (e, delete_by_age) refl in
            record {
              progress = (report, store);
              result_lem = q;
              distinct_lem = h;
              rows_lem = sym (batch_of_none p n store.captures e);
              counted_lem =
                  ap (λ rows. report.deleted_by_age + length rows)
                    (batch_of_none p n store.captures e);
              other_lem = refl;
            })
      | inr e ↦
          (let b = delete-Batch p (suc n) store h in
            let (deleted, store') = delete_capture_ids store ids in
            let report' : RetentionReport = record report {
              deleted_by_age = report.deleted_by_age + deleted;
              transaction_count = report.transaction_count + 1;
            } in
            let q : result ≡ delete_by_age fuel cutoff (suc n) report' store' =
              rw (e, delete_by_age) refl in
            Ended-after result _ report report' store.captures store'.captures _ _ _ _ deleted q
              b.others_lem b.deleted_lem refl refl
              (delete_by_age-Ended fuel cutoff n report' store'
                (omega (arith, batch_of_some p (suc n) store.captures e, b.length_lem))
                b.distinct_lem))
    ]

drop_nil : (n : ℕ) → drop {A = CaptureRow} n [] ≡ []
drop_nil zero = refl
drop_nil (suc n) = refl

drop-drop : (a b : ℕ) (rows : List CaptureRow) → drop a (drop b rows) ≡ drop (b + a) rows
drop-drop a zero rows = ap (λ n. drop n rows) (let q : a ≡ 0 + a = omega arith in q)
drop-drop a (suc b) [] = drop_nil a ∙ sym (drop_nil (suc b + a))
drop-drop a (suc b) (r ∷ rows) =
    drop-drop a b rows
    ∙ ap (λ n. drop n (r ∷ rows)) (let q : suc (b + a) ≡ suc b + a = omega arith in q)

-- A batch at the front does not change which rows are the last ones.
kept_by_count-drop :
    (m n : ℕ) (rows : List CaptureRow)
    → n ≤ length rows - m
    → kept_by_count m (drop n rows) ≡ kept_by_count m rows
kept_by_count-drop m n rows h =
    drop-drop (length (drop n rows) - m) n rows
    ∙ ap (λ k. drop k rows)
        (let q : n + (length (drop n rows) - m) ≡ length rows - m =
            omega (arith, length-drop n rows, h) in
          q)

pub delete_by_count-Ended :
    (fuel m n : ℕ) (report : RetentionReport) (store : EncryptedStore)
    → length store.captures < fuel
    → AreDistinct (ids_of store.captures)
    → Ended
        (delete_by_count fuel m (suc n) report store)
        report
        store.captures
        (kept_by_count m store.captures)
        (λ r. r.deleted_by_count)
        (λ r. r.deleted_by_age)
unfolding delete_by_count select_oldest
delete_by_count-Ended zero m n report store l h = absurd (omega arith)
delete_by_count-Ended (suc fuel) m n report store l h =
    let excess = length store.captures - m in
    let limit = min excess (suc n) in
    let ids = ids_of (take limit store.captures) in
    let result = delete_by_count (suc fuel) m (suc n) report store in
    elim (Bool-cases (excess == 0)) [
      | inl e ↦
          (let q : result ≡ some (report, store) = rw (e, delete_by_count) refl in
            let z : excess ≡ 0 = ground (arith, e) in
            let k : kept_by_count m store.captures ≡ store.captures =
              ap (λ j. drop j store.captures) z in
            record {
              progress = (report, store);
              result_lem = q;
              distinct_lem = h;
              rows_lem = sym k;
              counted_lem = ap (λ rows. report.deleted_by_count + length rows) k;
              other_lem = refl;
            })
      | inr e ↦
          (let b : Batch store (delete_capture_ids store ids).1 (λ r. true) limit
                (delete_capture_ids store ids).0 =
              subst
                (λ rows.
                  Batch store (delete_capture_ids store (ids_of (take limit rows))).1 (λ r. true)
                    limit (delete_capture_ids store (ids_of (take limit rows))).0)
                (retain-true store.captures) (delete-Batch (λ r. true) limit store h) in
            let (deleted, store') = delete_capture_ids store ids in
            let report' : RetentionReport = record report {
              deleted_by_count = report.deleted_by_count + deleted;
              transaction_count = report.transaction_count + 1;
            } in
            let q : result ≡ delete_by_count fuel m (suc n) report' store' =
              rw (e, delete_by_count) refl in
            let k : kept_by_count m store'.captures ≡ kept_by_count m store.captures =
              ap (λ rows. kept_by_count m rows) (b.batch_lem ∙ drop_first-true limit store.captures)
              ∙ kept_by_count-drop m limit store.captures (omega arith) in
            let z : 0 < excess = ground (arith, e) in
            Ended-after result _ report report' store.captures store'.captures _ _ _ _ deleted q k
              b.deleted_lem refl refl
              (delete_by_count-Ended fuel m n report' store'
                (omega (arith, b.length_lem, ap length (retain-true store.captures), z, l))
                b.distinct_lem))
    ]
