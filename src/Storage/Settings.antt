-- ===== src/Storage/Settings.antt =====
-- crates/storage/src/store.rs: the settings in the store.
use code_is_cheap.Common.{
  ℕ, ◌*◌, Bool, not, ◌||◌, Option, none, some, List, [], ◌∷◌, all, find, ltb, ◌==◌, if◌then◌else◌,
  is_empty, is_ok, Result, ok, ◌>>=◌, ◌>>◌, fail_if,
}
use code_is_cheap.Text.{Text, text, text_eq, byte_len, utf8, is_ascii_lowercase, is_ascii_digit}
use code_is_cheap.Storage.{
  StorageError, sqlite, numeric_out_of_range, invalid_setting_key, invalid_setting_value, to_i64,
}
use code_is_cheap.Storage.Prepare.{Codec}
use code_is_cheap.Storage.Store.{SettingRow, EncryptedStore, ensure_writable}

abbrev pub max_setting_key_bytes : ℕ
max_setting_key_bytes = 64

abbrev pub max_setting_json_bytes : ℕ
max_setting_json_bytes = 64 * 1024

abbrev is_key_byte : ℕ → Bool
is_key_byte b = is_ascii_lowercase b || is_ascii_digit b || b == b'.' || b == b'_' || b == b'-'

unfoldable pub validate_setting_key : Text → Result StorageError (Unit {0})
unfolding byte_len utf8
validate_setting_key key =
    fail_if
      (is_empty key || ltb max_setting_key_bytes (byte_len key) || not (all is_key_byte (utf8 key)))
      invalid_setting_key

unfoldable pub validate_setting_json : Codec → Text → Result StorageError (Unit {0})
unfolding byte_len
validate_setting_json codec value_json =
    fail_if
      (is_empty value_json
        || ltb max_setting_json_bytes (byte_len value_json)
        || not (is_ok (codec.decode_value value_json)))
      invalid_setting_value

abbrev pub settings_schema_version : ℕ
settings_schema_version = 3

abbrev setting_value : Option SettingRow → Option Text
setting_value none = none
setting_value (some row) = some row.value_json

unfoldable pub get_setting_json : EncryptedStore → Text → Result StorageError (Option Text)
unfolding validate_setting_key text_eq
get_setting_json store key =
    validate_setting_key key
    >> (if ltb store.schema_version settings_schema_version
        then ok none
        else ok (setting_value (find (λ r. text_eq r.key key) store.settings)))

-- `ON CONFLICT(key) DO UPDATE`
unfoldable pub upsert_setting : SettingRow → List SettingRow → List SettingRow
unfolding text_eq
upsert_setting row [] = row ∷ []
upsert_setting row (r ∷ rows) =
    let rest = upsert_setting row rows in if text_eq r.key row.key then row ∷ rows else r ∷ rest

unfoldable pub set_setting_json :
    Codec → EncryptedStore → Text → Text → ℕ → Result StorageError EncryptedStore
unfolding ensure_writable validate_setting_key validate_setting_json to_i64 upsert_setting
set_setting_json codec store key value_json updated_at_unix_ms = do
  ensure_writable store
  validate_setting_key key
  validate_setting_json codec value_json
  updated ← to_i64 updated_at_unix_ms
  fail_if (updated == 0) numeric_out_of_range
  fail_if (ltb store.schema_version settings_schema_version)
      (sqlite (text "no such table: app_settings"))
  ok (record store {
    settings =
        upsert_setting (record { key = key; value_json = value_json; updated_at_unix_ms = updated })
          store.settings;
  })
