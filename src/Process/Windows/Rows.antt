-- ===== src/Process/Windows/Rows.antt =====
-- crates/process-attribution/src/windows.rs: the unchecked reads of table_rows.
use code_is_cheap.Common.{
  ℕ, zero, suc, ◌+◌, ◌*◌, ◌≤◌, ◌<◌, ◌≡◌, refl, ap, ◌∙◌, sym, Option, none, some, List, [], ◌∷◌,
  length, take, drop, get_elem?, ltb, leb, ok, arith, fail_if-inv, >>=-eq-ok, ok_injective, ok_or,
  err_ne_ok, Bool-cases, some_injective, inl, inr,
}
use code_is_cheap.Text.Numbers.{u64_max}
use code_is_cheap.Process.{ProcessAttributionError, invalid_system_table, from_le_bytes}
use code_is_cheap.Process.Windows.{header_size, checked, checked_add_to, read_rows, table_rows}

length-take_le : (n : ℕ) (bs : List ℕ) → n ≤ length bs → length (take n bs) ≡ n
length-take_le zero bs h = refl
length-take_le (suc n) [] h = absurd (omega arith)
length-take_le (suc n) (b ∷ bs) h = ap suc (length-take_le n bs (omega arith))

length-slice :
    (size offset : ℕ) (bs : List ℕ)
    → offset + size ≤ length bs
    → length (take size (drop offset bs)) ≡ size
length-slice size zero bs h = length-take_le size bs (omega arith)
length-slice size (suc offset) [] h = absurd (omega arith)
length-slice size (suc offset) (b ∷ bs) h = length-slice size offset bs (omega arith)

checked_sum : (m k n : ℕ) → checked_add_to (checked m) k ≡ some n → n ≡ m + k
checked_sum m k n h = elim (Bool-cases (leb m u64_max)) [
  | inl p ↦ elim (Bool-cases (leb (m + k) u64_max)) [
    | inl q ↦ sym (some_injective (rw (p, q) at h))
    | inr q ↦ absurd (cc (p, q, h))
  ]
  | inr p ↦ absurd (cc (p, h))
]

ok_or-some : (o : Option ℕ) (e : ProcessAttributionError) (n : ℕ) → ok_or o e ≡ ok n → o ≡ some n
ok_or-some none e n h = absurd (err_ne_ok h)
ok_or-some (some m) e n h = ap some (ok_injective h)

module _ {ℓ} {T : Type ℓ} (size : ℕ) (read : List ℕ → T) (table : List ℕ) where
  -- The number of rows that the table states.
  abbrev pub count_of : ℕ
  count_of = from_le_bytes (take header_size table)

  abbrev pub row_bytes : ℕ → List ℕ
  row_bytes index = take size (drop (header_size + index * size) table)

  get_elem?-read_rows :
      (left index i : ℕ)
      → i < left
      → get_elem? (read_rows size read table index left) i ≡ some (read (row_bytes (index + i)))
  unfolding read_rows
  get_elem?-read_rows zero index i h = absurd (omega arith)
  get_elem?-read_rows (suc left) index zero h =
      ap (λ n. some (read (row_bytes n))) (let q : index ≡ index + 0 = omega arith in q)
  get_elem?-read_rows (suc left) index (suc i) h =
      get_elem?-read_rows left (index + 1) i (omega arith)
      ∙ ap (λ n. some (read (row_bytes n)))
          (let q : index + 1 + i ≡ index + suc i = omega arith in q)

  length-read_rows : (left index : ℕ) → length (read_rows size read table index left) ≡ left
  unfolding read_rows
  length-read_rows zero index = refl
  length-read_rows (suc left) index = ap suc (length-read_rows left (index + 1))

  -- The rows are as many as the table states, the table holds all their bytes, and each is made of
  -- its own.
  pub record InBounds (rows : List T) : Type ℓ where
    pub count_lem : length rows ≡ count_of
    pub size_lem : header_size + count_of * size ≤ length table
    pub row_lem :
        (i : ℕ)
        → i < count_of
        → (header_size + i * size + size ≤ length table)
          × (length (row_bytes i) ≡ size)
          × (get_elem? rows i ≡ some (read (row_bytes i)))

  row_fits :
      (count i : ℕ)
      → i < count
      → header_size + count * size ≤ length table
      → header_size + i * size + size ≤ length table
  row_fits count i h k = grind arith

  length-row_bytes :
      (i : ℕ) → header_size + i * size + size ≤ length table → length (row_bytes i) ≡ size
  length-row_bytes i h = length-slice size (header_size + i * size) table h

  checked_size :
      (count n : ℕ)
      → checked_add_to (checked (count * size)) header_size ≡ some n
      → n ≡ count * size + header_size
  checked_size count n h = checked_sum (count * size) header_size n h

  -- Where table_rows succeeds, the unchecked reads stay inside the table.
  pub table_rows-InBounds : (rows : List T) → table_rows size read table ≡ ok rows → InBounds rows
  unfolding table_rows
  table_rows-InBounds rows e =
      let (h, e1) = fail_if-inv (ltb (length table) header_size) _ _ _ e in
      let (n, c, e2) =
        >>=-eq-ok
          (ok_or (checked_add_to (checked (count_of * size)) header_size) invalid_system_table) _
          e1 in
      let (k, e3) = fail_if-inv (ltb (length table) n) _ _ _ e2 in
      let q : read_rows size read table 0 count_of ≡ rows = ok_injective e3 in
      let m : n ≡ count_of * size + header_size = checked_size count_of n (ok_or-some _ _ n c) in
      let s : header_size + count_of * size ≤ length table = ground (arith, k, m) in
      record {
        count_lem = ap length (sym q) ∙ length-read_rows count_of 0;
        size_lem = s;
        row_lem = λ i l. (
          row_fits count_of i l s,
          length-row_bytes i (row_fits count_of i l s),
          ap (λ rs. get_elem? rs i) (sym q)
              ∙ get_elem?-read_rows count_of 0 i l
              ∙ ap (λ j. some (read (row_bytes j))) (let z : 0 + i ≡ i = omega arith in z),
        );
      }
