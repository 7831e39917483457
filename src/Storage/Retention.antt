-- ===== src/Storage/Retention.antt =====
-- crates/storage/src/store.rs: enforce_retention, which deletes captures in batches, first those that
-- are too old and then the oldest ones above a number. A loop without fuel gives none.
pub mod Deletes
pub mod Kept
pub mod Loops
pub mod Phases
use code_is_cheap.Common.{
  ℕ, zero, suc, ◌+◌, ◌-◌, ◌*◌, ◌/◌, min, Bool, true, false, not, ◌&&◌, Option, none, some, List, [],
  ◌∷◌, length, take, map, retain, ltb, leb, ◌==◌, if◌then◌else◌, is_empty, Result, ok, err, ◌>>=◌,
  ◌>>◌, fail_if,
}
use code_is_cheap.Text.{Text, text_eq}
use code_is_cheap.Text.Numbers.{u64_max}
use code_is_cheap.Storage.{
  StorageError, invalid_retention_policy, to_i64, Duration, RetentionPolicy, RetentionReport,
}
use code_is_cheap.Storage.Store.{
  CaptureRow, EncryptedStore, row_id, ensure_writable, delete_row, delete_search, capture_count,
}

abbrev pub max_retention_batch_size : ℕ
max_retention_batch_size = 10000

unfoldable pub validate_retention_policy : RetentionPolicy → Result StorageError (Unit {0})
validate_retention_policy policy =
    fail_if (not (leb 1 policy.batch_size && leb policy.batch_size max_retention_batch_size))
      invalid_retention_policy

abbrev pub is_before : ℕ → CaptureRow → Bool
is_before cutoff row = ltb row.columns.observed_at cutoff

unfoldable pub select_oldest_before : EncryptedStore → ℕ → ℕ → List Text
select_oldest_before store cutoff limit =
    map row_id (take limit (retain (is_before cutoff) store.captures))

unfoldable pub select_oldest : EncryptedStore → ℕ → List Text
select_oldest store limit = map row_id (take limit store.captures)

-- The number of rows that `DELETE … WHERE capture_id = ?1` deletes.
unfoldable pub rows_of : Text → List CaptureRow → ℕ
unfolding text_eq
rows_of id rows = length (retain (λ r. text_eq (row_id r) id) rows)

-- One transaction: the number of captures deleted, and the store behind it.
unfoldable pub delete_capture_ids : EncryptedStore → List Text → ℕ × EncryptedStore
unfolding rows_of delete_row delete_search
delete_capture_ids store [] = (0, store)
delete_capture_ids store (id ∷ ids) =
    let (deleted, store') =
      delete_capture_ids
        (record store {
          captures = delete_row id store.captures;
          search = delete_search id store.search;
        })
        ids in
    (rows_of id store.captures + deleted, store')

abbrev pub Progress : Type 0
Progress = RetentionReport × EncryptedStore

unfoldable pub delete_by_age : ℕ → ℕ → ℕ → RetentionReport → EncryptedStore → Option Progress
unfolding select_oldest_before delete_capture_ids
delete_by_age zero cutoff batch_size report store = none
delete_by_age (suc fuel) cutoff batch_size report store =
    let ids = select_oldest_before store cutoff batch_size in
    let (deleted, store') = delete_capture_ids store ids in
    elim (is_empty ids) [
      | true ↦ some (report, store)
      | false ↦
          delete_by_age fuel cutoff batch_size
            (record report {
              deleted_by_age = report.deleted_by_age + deleted;
              transaction_count = report.transaction_count + 1;
            })
            store'
    ]

unfoldable pub delete_by_count : ℕ → ℕ → ℕ → RetentionReport → EncryptedStore → Option Progress
unfolding select_oldest delete_capture_ids
delete_by_count zero max_captures batch_size report store = none
delete_by_count (suc fuel) max_captures batch_size report store =
    let excess = capture_count store - max_captures in
    let ids = select_oldest store (min excess batch_size) in
    let (deleted, store') = delete_capture_ids store ids in
    elim (excess == 0) [
      | true ↦ some (report, store)
      | false ↦
          delete_by_count fuel max_captures batch_size
            (record report {
              deleted_by_count = report.deleted_by_count + deleted;
              transaction_count = report.transaction_count + 1;
            })
            store'
    ]

-- `u64::try_from(max_age.as_millis()).unwrap_or(u64::MAX)`
abbrev pub age_ms : Duration → ℕ
age_ms age = min (age.secs * 1000 + age.nanos / 1000000) u64_max

unfoldable pub age_phase :
    ℕ
    → Option Duration
    → ℕ
    → ℕ
    → RetentionReport
    → EncryptedStore
    → Result StorageError (Option Progress)
unfolding to_i64 delete_by_age
age_phase fuel none batch_size now_unix_ms report store = ok (some (report, store))
age_phase fuel (some max_age) batch_size now_unix_ms report store =
    to_i64 (now_unix_ms - age_ms max_age) >>= λ cutoff.
    ok (delete_by_age fuel cutoff batch_size report store)

unfoldable pub count_phase : ℕ → Option ℕ → ℕ → Option Progress → Option Progress
unfolding delete_by_count
count_phase fuel max_captures batch_size none = none
count_phase fuel none batch_size (some progress) = some progress
count_phase fuel (some max_captures) batch_size (some (report, store)) =
    delete_by_count fuel max_captures batch_size report store

-- The last count, in front of a checkpoint that changes nothing of the tables.
abbrev final_count : Option Progress → Option Progress
final_count none = none
final_count (some (report, store)) =
    some (record report { remaining_captures = capture_count store }, store)

unfoldable pub enforce_retention :
    ℕ → EncryptedStore → RetentionPolicy → ℕ → Result StorageError (Option Progress)
unfolding ensure_writable validate_retention_policy age_phase count_phase
enforce_retention fuel store policy now_unix_ms = do
  ensure_writable store
  validate_retention_policy policy
  let report : RetentionReport = record {
    deleted_by_age = 0;
    deleted_by_count = 0;
    remaining_captures = capture_count store;
    transaction_count = 0;
  }
  aged ← age_phase fuel policy.max_age policy.batch_size now_unix_ms report store
  ok (final_count (count_phase fuel policy.max_captures policy.batch_size aged))
