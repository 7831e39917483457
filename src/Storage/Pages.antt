-- ===== src/Storage/Pages.antt =====
-- crates/storage/src/store.rs: pages of captures, the newest first, and the query of a search.
pub mod Newest
pub mod Walk
use code_is_cheap.Common.{
  ℕ, Bool, true, false, not, ◌&&◌, ◌||◌, Option, none, some, List, [], ◌∷◌, ◌++◌, take, map, retain,
  ltb, leb, ◌==◌, if◌then◌else◌, is_empty, Result, ok, err, ◌>>=◌, ◌>>◌, fail_if,
}
use mathlib.Core.List.{reverse}
use code_is_cheap.Text.{Text, text}
use code_is_cheap.Text.Lines.{split_whitespace}
use code_is_cheap.Storage.{
  StorageError, invalid_page_limit, empty_search, i64_max, CaptureCursor, CaptureSummary,
}
use code_is_cheap.Storage.Prepare.{join}
use code_is_cheap.Storage.Store.{CaptureRow, EncryptedStore, row_id, text_less}

abbrev pub max_page_size : ℕ
max_page_size = 200

unfoldable pub checked_limit : ℕ → Result StorageError ℕ
checked_limit limit =
    if not (leb 1 limit && leb limit max_page_size) then err invalid_page_limit else ok limit

abbrev has_json : Option Text → Bool
has_json none = false
has_json (some encoded) = true

abbrev pub row_to_summary : CaptureRow → CaptureSummary
row_to_summary row = record {
  capture_id = row.columns.capture_id;
  observed_at_unix_ms = row.columns.observed_at;
  target_id = row.columns.target_id;
  provider_id = row.columns.provider_id;
  model = row.columns.model;
  method = row.columns.method;
  host = row.columns.host;
  path = row.columns.path;
  has_prompt_ir = has_json row.columns.prompt_ir_json;
  redaction_count = row.columns.redaction_count;
  outcome_kind = row.columns.outcome.kind;
  status_code = row.columns.outcome.status_code;
  duration_ms = row.columns.outcome.duration_ms;
}

-- The rows behind the cursor, in descending order.
unfoldable pub is_behind : ℕ → Text → CaptureRow → Bool
unfolding text_less
is_behind observed_at capture_id row =
    ltb row.columns.observed_at observed_at
    || (row.columns.observed_at == observed_at && text_less (row_id row) capture_id)

unfoldable pub list_captures :
    EncryptedStore → ℕ → Option CaptureCursor → Result StorageError (List CaptureSummary)
unfolding checked_limit is_behind
list_captures store limit none =
    checked_limit limit >>= λ n. ok (map row_to_summary (take n (reverse store.captures)))
list_captures store limit (some cursor) = checked_limit limit >>= λ n.
    fail_if (not (leb cursor.observed_at_unix_ms i64_max)) invalid_page_limit
    >> ok (
        map row_to_summary (
          take n (
            retain (is_behind cursor.observed_at_unix_ms cursor.capture_id)
              (reverse store.captures))))

-- `term.replace('"', "\"\"")` between two quotes.
unfoldable pub double_quotes : Text → Text
double_quotes [] = []
double_quotes (c ∷ s) =
    let rest = double_quotes s in if c == b'"' then b'"' ∷ b'"' ∷ rest else c ∷ rest

unfoldable pub plain_fts_query : Text → Result StorageError Text
unfolding double_quotes split_whitespace
plain_fts_query query =
    fail_if (is_empty (split_whitespace query)) empty_search
    >> ok (
        join (text " AND ")
          (map (λ term. b'"' ∷ double_quotes term ++ b'"' ∷ []) (split_whitespace query)))
