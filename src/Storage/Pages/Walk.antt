-- ===== src/Storage/Pages/Walk.antt =====
-- crates/storage/src/store.rs: a reader that asks list_captures for page after page, each time
-- behind the last capture that it got.
use code_is_cheap.Common.{
  length-drop, ℕ, zero, suc, ◌≤◌, ◌<◌, ◌≡◌, refl, sym, ap, subst, ◌∙◌, true, Option, none, some,
  List, [], ◌∷◌, ◌++◌, length, take, drop, map, retain, leb, All, All-append_right, Result, ok, err,
  arith,
}
use mathlib.Core.List.{reverse, append_assoc, map-append}
use code_is_cheap.Storage.{StorageError, i64_max, CaptureCursor, CaptureSummary}
use code_is_cheap.Storage.Store.{CaptureRow, EncryptedStore, row_id, row_before}
use code_is_cheap.Storage.Store.Rows.{IsTable}
use code_is_cheap.Storage.Pages.Newest.{
  IsDescending, reverse-IsDescending, retain-row_before, reverse_aux-All, length-reverse_aux,
}
use code_is_cheap.Storage.Pages.{
  max_page_size, checked_limit, row_to_summary, is_behind, list_captures,
}

abbrev cursor_of : CaptureRow → CaptureCursor
cursor_of row = record { observed_at_unix_ms = row.columns.observed_at; capture_id = row_id row }

-- The place behind the last summary of a page.
abbrev last_cursor : List CaptureSummary → Option CaptureCursor
last_cursor [] = none
last_cursor (s ∷ []) =
    some (record { observed_at_unix_ms = s.observed_at_unix_ms; capture_id = s.capture_id })
last_cursor (s ∷ t ∷ page) = last_cursor (t ∷ page)

abbrev with_page : List CaptureSummary → Option (List CaptureSummary) → Option (List CaptureSummary)
with_page page none = none
with_page page (some pages) = some (page ++ pages)

-- A page that is not empty, and the pages behind it.
abbrev walk_on :
    (Option CaptureCursor → Option (List CaptureSummary))
    → Result StorageError (List CaptureSummary)
    → Option (List CaptureSummary)
walk_on next (err e) = none
walk_on next (ok []) = some []
walk_on next (ok (s ∷ page)) = with_page (s ∷ page) (next (last_cursor (s ∷ page)))

-- The summaries of all pages up to an empty one; none after an error or when the fuel runs out.
unfoldable pub walk : ℕ → EncryptedStore → ℕ → Option CaptureCursor → Option (List CaptureSummary)
unfolding list_captures
walk zero store limit cursor = none
walk (suc fuel) store limit cursor =
    walk_on (walk fuel store limit) (list_captures store limit cursor)

-- A page of `suc n` summaries has a last row, with the rest behind it.
record Cut (n : ℕ) (rows : List CaptureRow) : Type 0 where
  front : List CaptureRow
  last : CaptureRow
  rows_eq : rows ≡ front ++ last ∷ drop (suc n) rows
  split_eq : take (suc n) rows ++ drop (suc n) rows ≡ rows
  cursor_eq : last_cursor (map row_to_summary (take (suc n) rows)) ≡ some (cursor_of last)

cut : (n : ℕ) (r : CaptureRow) (rows : List CaptureRow) → Cut n (r ∷ rows)
cut zero r rows = record { front = []; last = r; rows_eq = refl; split_eq = refl; cursor_eq = refl }
cut (suc n) r [] = record {
  front = [];
  last = r;
  rows_eq = refl;
  split_eq = refl;
  cursor_eq = refl;
}
cut (suc n) r (s ∷ rows) =
    let c = cut n s rows in
    record {
      front = r ∷ c.front;
      last = c.last;
      rows_eq = ap (λ xs. r ∷ xs) c.rows_eq;
      split_eq = ap (λ xs. r ∷ xs) c.split_eq;
      cursor_eq = c.cursor_eq;
    }

checked_limit-ok : (n : ℕ) → n < max_page_size → checked_limit (suc n) ≡ ok (suc n)
unfolding checked_limit
checked_limit-ok n h = ground (arith, h)

module _ (store : EncryptedStore) (n : ℕ) (bound : n < max_page_size)
    (timed : All (λ r. r.columns.observed_at ≤ i64_max) (reverse store.captures))
    (descending : IsDescending (reverse store.captures)) where
  retain-is_behind :
      (front : List CaptureRow) (row : CaptureRow) (after : List CaptureRow)
      → reverse store.captures ≡ front ++ row ∷ after
      → retain (is_behind row.columns.observed_at (row_id row)) (reverse store.captures) ≡ after
  unfolding is_behind row_before
  retain-is_behind front row after e =
      ap (λ rows. retain (is_behind row.columns.observed_at (row_id row)) rows) e
      ∙ retain-row_before front row after (subst IsDescending e descending)

  list_captures_next :
      (front : List CaptureRow) (row : CaptureRow) (after : List CaptureRow)
      → reverse store.captures ≡ front ++ row ∷ after
      → list_captures store (suc n) (some (cursor_of row))
        ≡ ok (map row_to_summary (take (suc n) after))
  unfolding list_captures
  list_captures_next front row after e =
      let t : row.columns.observed_at ≤ i64_max =
        (All-append_right _ front (row ∷ after) (subst (All _) e timed)).0 in
      let b : leb row.columns.observed_at i64_max ≡ true = ground (arith, t) in
      cc (checked_limit-ok n bound, b, retain-is_behind front row after e)

  -- From a place with the right page on, the walk gives the summaries of all rows behind it.
  walk_behind :
      (fuel : ℕ) (cursor : Option CaptureCursor) (front after : List CaptureRow)
      → reverse store.captures ≡ front ++ after
      → list_captures store (suc n) cursor ≡ ok (map row_to_summary (take (suc n) after))
      → length after < fuel
      → walk fuel store (suc n) cursor ≡ some (map row_to_summary after)
  unfolding walk
  walk_behind zero cursor front after e page h = absurd (omega arith)
  walk_behind (suc fuel) cursor front [] e page h = ap (walk_on (walk fuel store (suc n))) page
  walk_behind (suc fuel) cursor front (r ∷ after) e page h =
      let c = cut n r after in
      let rows = take (suc n) (r ∷ after) in
      let rest = drop (suc n) (r ∷ after) in
      let q : reverse store.captures ≡ (front ++ c.front) ++ c.last ∷ rest =
        e ∙ ap (λ xs. front ++ xs) c.rows_eq ∙ sym (append_assoc front c.front (c.last ∷ rest)) in
      let next : walk fuel store (suc n) (some (cursor_of c.last))
          ≡ some (map row_to_summary rest) =
        walk_behind fuel (some (cursor_of c.last)) ((front ++ c.front) ++ c.last ∷ []) rest
          (q ∙ sym (append_assoc (front ++ c.front) (c.last ∷ []) rest))
          (list_captures_next (front ++ c.front) c.last rest q)
          (omega (arith, length-drop (suc n) (r ∷ after), h)) in
      ap (walk_on (walk fuel store (suc n))) page
      ∙ ap (with_page (map row_to_summary rows)) (ap (walk fuel store (suc n)) c.cursor_eq ∙ next)
      ∙ ap some (sym (map-append row_to_summary rows rest) ∙ ap (map row_to_summary) c.split_eq)

  list_captures_first :
      list_captures store (suc n) none
      ≡ ok (map row_to_summary (take (suc n) (reverse store.captures)))
  unfolding list_captures
  list_captures_first = cc (checked_limit-ok n bound)

-- Pages of a valid size, each read behind the last capture of the one before, give every capture of
-- a table in order once, the newest first, and end if the fuel exceeds the number of captures.
pub walk_complete :
    (fuel limit : ℕ) (store : EncryptedStore)
    → 1 ≤ limit
    → limit ≤ max_page_size
    → IsTable store.captures
    → All (λ r. r.columns.observed_at ≤ i64_max) store.captures
    → length store.captures < fuel
    → walk fuel store limit none ≡ some (map row_to_summary (reverse store.captures))
walk_complete fuel zero store least most table timed h = absurd (omega arith)
walk_complete fuel (suc n) store least most table timed h =
    let newest = reverse store.captures in
    let t = reverse_aux-All (λ r. r.columns.observed_at ≤ i64_max) store.captures [] timed tt in
    let d = reverse-IsDescending store.captures table.sorted in
    walk_behind store n most t d fuel none [] newest refl (list_captures_first store n most t d)
      (omega (arith, length-reverse_aux store.captures [], h))
