-- ===== src/Storage/Store.antt =====
-- crates/storage/src/store.rs: the open store and its operations on captures. A table
-- lists its rows in the order of its index: captures by the time and then the id. A statement fails
-- only where a CHECK of the table or the schema refuses it, and then its transaction leaves nothing
-- behind.
pub mod Rows
pub mod RoundTrips
pub mod Reads
use code_is_cheap.Common.{
  ℕ, ◌+◌, ◌*◌, Bool, true, false, not, ◌&&◌, ◌||◌, Option, none, some, List, [], ◌∷◌, ◌++◌, length,
  take, map, any, all, find, retain, ltb, leb, ◌==◌, if◌then◌else◌, is_empty, is_ok, Result, ok,
  err, ◌>>=◌, ◌>>◌, fail_if, map_err,
}
use mathlib.Core.List.{reverse}
use code_is_cheap.Text.{
  Text, text, text_eq, byte_len, utf8, contains_text, is_ascii_lowercase, is_ascii_digit,
}
use code_is_cheap.Text.Lines.{split_whitespace}
use code_is_cheap.Capture.{CaptureEnvelope}
use code_is_cheap.Policy.{SanitizedCapture, capture_policy_version}
use code_is_cheap.PromptIr.{PromptIr}
use code_is_cheap.Storage.{
  StorageError, io, sqlite, json, disk_pressure, read_only, numeric_out_of_range,
  invalid_page_limit, invalid_setting_key, invalid_setting_value, empty_search, i64_max, to_i64,
  StorageOptions, CaptureWrite, CaptureCursor, CaptureSummary, StoredCapture,
}
use code_is_cheap.Storage.Prepare.{Codec, PreparedCapture, prepare_capture, join}

pub record CaptureRow : Type 0 where
  pub columns : PreparedCapture
  pub policy_version : Text

pub record SettingRow : Type 0 where
  pub key : Text
  pub value_json : Text
  pub updated_at_unix_ms : ℕ

-- The rows of `capture_search` are an id and a text.
pub record EncryptedStore : Type 0 where
  pub captures : List CaptureRow
  pub search : List (Text × Text)
  pub settings : List SettingRow
  pub schema_version : ℕ
  pub options : StorageOptions
  pub read_only_mode : Bool

unfoldable pub ensure_writable : EncryptedStore → Result StorageError (Unit {0})
ensure_writable store = fail_if store.read_only_mode read_only

-- `<` on TEXT, which compares bytes; UTF-8 keeps the order of the code points.
unfoldable pub text_less : Text → Text → Bool
text_less [] [] = false
text_less [] (d ∷ t) = true
text_less (c ∷ s) [] = false
text_less (c ∷ s) (d ∷ t) =
    let rest = text_less s t in if ltb c d then true else if c == d then rest else false

abbrev pub row_id : CaptureRow → Text
row_id row = row.columns.capture_id

-- The order `observed_at_unix_ms ASC, capture_id ASC`.
unfoldable pub row_before : CaptureRow → CaptureRow → Bool
unfolding text_less
row_before a b =
    ltb a.columns.observed_at b.columns.observed_at
    || (a.columns.observed_at == b.columns.observed_at && text_less (row_id a) (row_id b))

unfoldable pub insert_row : CaptureRow → List CaptureRow → List CaptureRow
unfolding row_before
insert_row row [] = row ∷ []
insert_row row (r ∷ rows) =
    let rest = insert_row row rows in if row_before row r then row ∷ r ∷ rows else r ∷ rest

-- `DELETE … WHERE capture_id = ?1`, on each of the tables.
unfoldable pub delete_row : Text → List CaptureRow → List CaptureRow
unfolding text_eq
delete_row id rows = retain (λ r. not (text_eq (row_id r) id)) rows

unfoldable pub delete_search : Text → List (Text × Text) → List (Text × Text)
unfolding text_eq
delete_search id entries = retain (λ e. not (text_eq e.0 id)) entries

abbrev in_range : ℕ → ℕ → Option ℕ → Bool
in_range low high none = true
in_range low high (some n) = leb low n && leb n high

-- The CHECK constraints that a capture can break: of the first version of the table, and of the
-- second.
abbrev has_valid_port : PreparedCapture → Bool
has_valid_port c = leb 1 c.port && leb c.port 65535

abbrev has_valid_status : PreparedCapture → Bool
has_valid_status c = in_range 100 599 c.outcome.status_code

unfoldable pub upsert_prepared :
    EncryptedStore → PreparedCapture → Result StorageError EncryptedStore
unfolding insert_row delete_row delete_search
upsert_prepared store c =
    fail_if (not (has_valid_port c && has_valid_status c)) (sqlite (text "CHECK constraint failed"))
    >> ok (record store {
      captures =
          insert_row (record { columns = c; policy_version = capture_policy_version })
            (delete_row c.capture_id store.captures);
      search = delete_search c.capture_id store.search ++ (c.capture_id, c.searchable_text) ∷ [];
    })

-- `available_space` is the answer of `available_space_bytes`.
unfoldable pub ensure_disk_headroom : EncryptedStore → Result StorageError ℕ → Result StorageError ℕ
ensure_disk_headroom store available_space = available_space >>= λ available_bytes.
    fail_if (ltb available_bytes store.options.minimum_free_space_bytes)
      (disk_pressure available_bytes store.options.minimum_free_space_bytes)
    >> ok available_bytes

-- `iter().map(prepare_capture).collect()`
unfoldable pub prepare_all : Codec → List CaptureWrite → Result StorageError (List PreparedCapture)
unfolding prepare_capture
prepare_all codec [] = ok []
prepare_all codec (write ∷ writes) =
    prepare_capture codec write >>= λ c. prepare_all codec writes >>= λ cs. ok (c ∷ cs)

-- The writes of one transaction.
unfoldable pub upsert_all :
    EncryptedStore → List PreparedCapture → Result StorageError EncryptedStore
unfolding upsert_prepared
upsert_all store [] = ok store
upsert_all store (c ∷ cs) = upsert_prepared store c >>= λ store'. upsert_all store' cs

-- A failed operation leaves the store as it was.
unfoldable pub upsert_captures :
    Codec
    → Result StorageError ℕ
    → EncryptedStore
    → List CaptureWrite
    → Result StorageError (ℕ × EncryptedStore)
unfolding ensure_writable prepare_all ensure_disk_headroom upsert_all
upsert_captures codec available_space store [] = ensure_writable store >> ok (0, store)
upsert_captures codec available_space store (write ∷ writes) = do
  ensure_writable store
  prepared ← prepare_all codec (write ∷ writes)
  available ← ensure_disk_headroom store available_space
  store' ← upsert_all store prepared
  ok (length prepared, store')

unfoldable pub upsert_capture :
    Codec
    → Result StorageError ℕ
    → EncryptedStore
    → SanitizedCapture
    → Option PromptIr
    → Result StorageError EncryptedStore
unfolding upsert_captures
upsert_capture codec available_space store capture prompt =
    upsert_captures codec available_space store
      (record { capture = capture; prompt_ir = prompt } ∷ [])
    >>= λ (count, store'). ok store'

-- `prompt_ir_json.map(from_str).transpose()`
unfoldable pub decode_prompt_ir : Codec → Option Text → Result StorageError (Option PromptIr)
decode_prompt_ir codec none = ok none
decode_prompt_ir codec (some encoded) =
    map_err json (codec.decode_prompt encoded) >>= λ prompt. ok (some prompt)

unfoldable pub stored_capture :
    Codec → Option CaptureRow → Result StorageError (Option StoredCapture)
unfolding decode_prompt_ir
stored_capture codec none = ok none
stored_capture codec (some row) =
    map_err json (codec.decode_envelope row.columns.request_json) >>= λ envelope.
    decode_prompt_ir codec row.columns.prompt_ir_json >>= λ prompt.
    ok
      (some (record { target_id = row.columns.target_id; envelope = envelope; prompt_ir = prompt }))

unfoldable pub get_capture :
    Codec → EncryptedStore → Text → Result StorageError (Option StoredCapture)
unfolding stored_capture text_eq
get_capture codec store capture_id =
    stored_capture codec (find (λ r. text_eq (row_id r) capture_id) store.captures)

unfoldable pub delete_capture : EncryptedStore → Text → Result StorageError (Bool × EncryptedStore)
unfolding ensure_writable delete_row delete_search text_eq
delete_capture store capture_id =
    ensure_writable store
    >> ok (
      any (λ r. text_eq (row_id r) capture_id) store.captures,
      record store {
        captures = delete_row capture_id store.captures;
        search = delete_search capture_id store.search;
      },
    )

abbrev pub capture_count : EncryptedStore → ℕ
capture_count store = length store.captures
