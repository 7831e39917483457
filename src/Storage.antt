-- ===== src/Storage.antt =====
-- crates/storage/src/lib.rs and model.rs: the data of the encrypted store of captures, its errors
-- and options. The modules below hold its operations.
pub mod Prepare
pub mod Store
pub mod Settings
pub mod Pages
pub mod Retention
use code_is_cheap.Common.{
  ℕ, ◌*◌, ◌^◌, ◌-◌, Bool, Option, some, List, if◌then◌else◌, leb, Result, ok, err,
}
use code_is_cheap.Text.{Text}
use code_is_cheap.Capture.{CaptureEnvelope}
use code_is_cheap.Policy.{SanitizedCapture}
use code_is_cheap.PromptIr.{PromptIr}
use code_is_cheap.PromptIr.Checks.{ValidationError}

pub data KeyStoreError : Type 0 where
  invalid_identifier unsupported_platform random_unavailable missing_stored_key invalid_stored_key :
      KeyStoreError
  backend : Text → KeyStoreError

-- An error of the file system, of SQLite or of serde_json is its text.
pub data StorageError : Type 0 where
  io sqlite json : Text → StorageError
  prompt_ir : List ValidationError → StorageError
  key_store : KeyStoreError → StorageError
  cipher_unavailable : StorageError
  unexpected_journal_mode : Text → StorageError
  unsupported_schema_version : ℕ → StorageError
  prompt_request_mismatch numeric_out_of_range invalid_page_limit empty_search : StorageError
  invalid_backup_target read_only invalid_retention_policy : StorageError
  invalid_setting_key invalid_setting_value : StorageError
  disk_pressure : ℕ → ℕ → StorageError
  disk_full : StorageError
  integrity_check_failed : Text → StorageError

abbrev pub i64_max : ℕ
i64_max = 2 ^ 63 - 1

-- `i64::try_from` of an unsigned integer, with its error mapped.
unfoldable pub to_i64 : ℕ → Result StorageError ℕ
to_i64 n = if leb n i64_max then ok n else err numeric_out_of_range

pub record StorageOptions : Type 0 where
  pub minimum_free_space_bytes : ℕ

abbrev pub default_options : StorageOptions
default_options = record { minimum_free_space_bytes = 256 * 1024 * 1024 }

-- `Duration`, by its whole seconds and the nanoseconds behind them.
pub record Duration : Type 0 where
  pub secs : ℕ
  pub nanos : ℕ

pub record RetentionPolicy : Type 0 where
  pub max_age : Option Duration
  pub max_captures : Option ℕ
  pub batch_size : ℕ

abbrev pub default_retention : RetentionPolicy
default_retention = record {
  max_age = some (record { secs = 30 * 24 * 60 * 60; nanos = 0 });
  max_captures = some 50000;
  batch_size = 500;
}

pub record CaptureWrite : Type 0 where
  pub capture : SanitizedCapture
  pub prompt_ir : Option PromptIr

pub record RetentionReport : Type 0 where
  pub deleted_by_age : ℕ
  pub deleted_by_count : ℕ
  pub remaining_captures : ℕ
  pub transaction_count : ℕ

pub record CaptureCursor : Type 0 where
  pub observed_at_unix_ms : ℕ
  pub capture_id : Text

pub record CaptureSummary : Type 0 where
  pub capture_id : Text
  pub observed_at_unix_ms : ℕ
  pub target_id : Text
  pub provider_id : Option Text
  pub model : Option Text
  pub method : Text
  pub host : Text
  pub path : Text
  pub has_prompt_ir : Bool
  pub redaction_count : ℕ
  pub outcome_kind : Option Text
  pub status_code : Option ℕ
  pub duration_ms : Option ℕ

pub record StoredCapture : Type 0 where
  pub target_id : Text
  pub envelope : CaptureEnvelope
  pub prompt_ir : Option PromptIr
