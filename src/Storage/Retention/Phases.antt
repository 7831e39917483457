-- ===== src/Storage/Retention/Phases.antt =====
-- crates/storage/src/store.rs: enforce_retention as a whole, by the captures that it keeps.
use code_is_cheap.Common.{
  ℕ, suc, ◌+◌, ◌-◌, ◌≤◌, ◌<◌, ◌≡◌, refl, sym, ap, subst, ◌∙◌, false, Option, none, some, List,
  length, Result, ok, fail_if, arith,
}
use code_is_cheap.Storage.{
  StorageError, read_only, to_i64, i64_max, Duration, RetentionPolicy, RetentionReport,
}
use code_is_cheap.Text.Distinct.{AreDistinct}
use code_is_cheap.Storage.Store.{CaptureRow, EncryptedStore, capture_count}
use code_is_cheap.Storage.Retention.{
  max_retention_batch_size, validate_retention_policy, delete_by_age, age_ms, age_phase,
  count_phase, enforce_retention, Progress,
}
use code_is_cheap.Storage.Retention.Loops.{delete_by_age-Ended, delete_by_count-Ended}
use code_is_cheap.Storage.Retention.Deletes.{ids_of}
use code_is_cheap.Storage.Retention.Kept.{kept_by_age, kept_by_count, Ended}

-- The captures that the policy keeps at a time.
abbrev pub kept_aged : Option Duration → ℕ → List CaptureRow → List CaptureRow
kept_aged none now rows = rows
kept_aged (some max_age) now rows = kept_by_age (now - age_ms max_age) rows

abbrev pub kept_counted : Option ℕ → List CaptureRow → List CaptureRow
kept_counted none rows = rows
kept_counted (some m) rows = kept_by_count m rows

abbrev pub kept : RetentionPolicy → ℕ → List CaptureRow → List CaptureRow
kept policy now rows = kept_counted policy.max_captures (kept_aged policy.max_age now rows)

-- The batch size is in its range and the cutoff fits in an i64.
pub record IsEnforceable (policy : RetentionPolicy) (now : ℕ) : Type 0 where
  pub at_least : 1 ≤ policy.batch_size
  pub at_most : policy.batch_size ≤ max_retention_batch_size
  pub cutoff : now ≤ i64_max

-- What a run of enforce_retention left and reported.
pub record Enforced (result : Result StorageError (Option Progress)) (policy : RetentionPolicy)
    (now : ℕ) (rows : List CaptureRow) : Type 0 where
  pub progress : Progress
  pub result_lem : result ≡ ok (some progress)
  pub rows_lem : progress.1.captures ≡ kept policy now rows
  pub remaining_lem : progress.0.remaining_captures ≡ length (kept policy now rows)
  pub age_lem : progress.0.deleted_by_age + length (kept_aged policy.max_age now rows) ≡ length rows
  pub count_lem :
      progress.0.deleted_by_count + length (kept policy now rows)
      ≡ length (kept_aged policy.max_age now rows)

unchanged :
    (report : RetentionReport) (store : EncryptedStore) (rows : List CaptureRow)
    (counted other : RetentionReport → ℕ)
    → store.captures ≡ rows
    → AreDistinct (ids_of store.captures)
    → Ended (some (report, store)) report rows rows counted other
unchanged report store rows counted other e h = record {
  progress = (report, store);
  result_lem = refl;
  distinct_lem = h;
  rows_lem = e;
  counted_lem = refl;
  other_lem = refl;
}

to_i64-ok : (n : ℕ) → n ≤ i64_max → to_i64 n ≡ ok n
unfolding to_i64
to_i64-ok n h = ground (arith, h)

age_phase-Ended :
    (fuel n now : ℕ) (max_age : Option Duration) (report : RetentionReport) (store : EncryptedStore)
    → now ≤ i64_max
    → length store.captures < fuel
    → AreDistinct (ids_of store.captures)
    → (result : Option Progress) × (age_phase fuel max_age (suc n) now report store ≡ ok result)
      × Ended result report store.captures
          (kept_aged max_age now store.captures)
          (λ r. r.deleted_by_age)
          (λ r. r.deleted_by_count)
unfolding age_phase
age_phase-Ended fuel n now none report store c l h =
    (some (report, store), refl, unchanged report store store.captures _ _ refl h)
age_phase-Ended fuel n now (some max_age) report store c l h =
    let cutoff = now - age_ms max_age in
    (
      delete_by_age fuel cutoff (suc n) report store,
      cc (to_i64-ok cutoff (omega arith)),
      delete_by_age-Ended fuel cutoff n report store l h,
    )

count_phase-Ended :
    (fuel n : ℕ) (m : Option ℕ) (report : RetentionReport) (store : EncryptedStore)
    → length store.captures < fuel
    → AreDistinct (ids_of store.captures)
    → Ended
        (count_phase fuel m (suc n) (some (report, store)))
        report
        store.captures
        (kept_counted m store.captures)
        (λ r. r.deleted_by_count)
        (λ r. r.deleted_by_age)
unfolding count_phase
count_phase-Ended fuel n none report store l h = unchanged report store store.captures _ _ refl h
count_phase-Ended fuel n (some m) report store l h = delete_by_count-Ended fuel m n report store l h

abbrev policy_of : Option Duration → Option ℕ → ℕ → RetentionPolicy
policy_of max_age m n = record { max_age = max_age; max_captures = m; batch_size = suc n }

abbrev opening : EncryptedStore → RetentionReport
opening store = record {
  deleted_by_age = 0;
  deleted_by_count = 0;
  remaining_captures = capture_count store;
  transaction_count = 0;
}

validate_retention_policy-ok :
    (policy : RetentionPolicy) (now : ℕ)
    → IsEnforceable policy now
    → validate_retention_policy policy ≡ ok tt
unfolding validate_retention_policy
validate_retention_policy-ok policy now g = ground (arith, g.at_least, g.at_most)

Enforced-at :
    (fuel n now : ℕ) (max_age : Option Duration) (m : Option ℕ) (store : EncryptedStore)
    → IsEnforceable (policy_of max_age m n) now
    → store.read_only_mode ≡ false
    → length store.captures < fuel
    → AreDistinct (ids_of store.captures)
    → Enforced
        (enforce_retention fuel store (policy_of max_age m n) now)
        (policy_of max_age m n)
        now
        store.captures
unfolding enforce_retention
Enforced-at fuel n now max_age m store g w l h =
    let (result, e, a) = age_phase-Ended fuel n now max_age (opening store) store g.cutoff l h in
    let (report, store') = a.progress in
    let s : length store'.captures ≡ length (kept_aged max_age now store.captures) =
      ap length a.rows_lem in
    let k : kept_counted m store'.captures ≡ kept_counted m (kept_aged max_age now store.captures) =
      ap (λ rows. kept_counted m rows) a.rows_lem in
    let c =
      count_phase-Ended fuel n m report store' (omega (arith, l, s, a.counted_lem))
        a.distinct_lem in
    record {
      progress =
          (record (c.progress.0) { remaining_captures = capture_count c.progress.1 }, c.progress.1);
      result_lem = cc (
        ap (λ b. fail_if b read_only) w,
        validate_retention_policy-ok (policy_of max_age m n) now g,
        e,
        a.result_lem,
        c.result_lem,
      );
      rows_lem = c.rows_lem ∙ k;
      remaining_lem = ap length (c.rows_lem ∙ k);
      age_lem = omega (arith, c.other_lem, a.counted_lem);
      count_lem = omega (arith, c.counted_lem, a.other_lem, s, ap length k);
    }

-- With more fuel than captures enforce_retention ends: it keeps exactly the captures that are not
-- older than the cutoff, of those the last ones in the order of time and id up to the number, and
-- reports how many went for each reason and how many are left.
pub enforce_retention-Enforced :
    (fuel : ℕ) (store : EncryptedStore) (policy : RetentionPolicy) (now : ℕ)
    → IsEnforceable policy now
    → store.read_only_mode ≡ false
    → length store.captures < fuel
    → AreDistinct (ids_of store.captures)
    → Enforced (enforce_retention fuel store policy now) policy now store.captures
enforce_retention-Enforced fuel store policy now g w l h =
    let n = policy.batch_size - 1 in
    let e : policy_of policy.max_age policy.max_captures n ≡ policy =
      ap (λ b. record policy { batch_size = b })
        (let q : suc n ≡ policy.batch_size = omega (arith, g.at_least) in q) in
    subst (λ p. Enforced (enforce_retention fuel store p now) p now store.captures) e
      (Enforced-at fuel n now policy.max_age policy.max_captures store
        (subst (λ p. IsEnforceable p now) (sym e) g) w l h)
