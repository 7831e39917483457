-- ===== src/Recovery.antt =====
-- crates/proxy-recovery/src/lib.rs: settings, snapshots, the recovery journal and its errors. The
-- modules below hold the files that the code works on, the watchdog process and the session.
pub mod World
pub mod Files
pub mod Watchdog
pub mod Session
pub mod Outcomes
pub mod Contract
pub mod Handles
pub mod Invariant
pub mod FileBackend
pub mod Begin
pub mod Journals
pub mod Success
pub mod Transactions
pub mod Restores
use code_is_cheap.Common.{ℕ, Bool, Option, List, Result}
use code_is_cheap.Text.{Text, text}

abbrev pub recovery_journal_version : Text
recovery_journal_version = text "0.1"

pub data ProxySettings : Type 0 where
  disabled : ProxySettings
  manual : Text → Text → List Text → ProxySettings
  auto_config : Text → ProxySettings

pub data BackendDescriptor : Type 0 where
  file_backend : Text → BackendDescriptor
  windows_backend : Text → Bool → BackendDescriptor
  mac_os_backend : Text → BackendDescriptor

pub record WindowsRegistryValue : Type 0 where
  pub name : Text
  pub value_type : ℕ
  pub bytes : List ℕ

pub record MacOsManualProxy : Type 0 where
  pub enabled : Bool
  pub server : Text
  pub port : ℕ
  pub authenticated : Bool

pub record MacOsAutoConfig : Type 0 where
  pub enabled : Bool
  pub url : Option Text

pub record MacOsNetworkService : Type 0 where
  pub name : Text
  pub web_proxy : MacOsManualProxy
  pub secure_web_proxy : MacOsManualProxy
  pub auto_config : MacOsAutoConfig
  pub auto_discovery_enabled : Bool
  pub bypass_domains : List Text

pub data ProxySnapshot : Type 0 where
  file_snapshot : ProxySettings → ProxySnapshot
  windows_snapshot : List WindowsRegistryValue → List WindowsRegistryValue → ProxySnapshot
  mac_os_snapshot : List MacOsNetworkService → ProxySnapshot

pub data JournalStatus : Type 0 where
  armed restored : JournalStatus

pub record RecoveryJournal : Type 0 where
  pub version : Text
  pub transaction_id : Text
  pub owner_pid : ℕ
  pub status : JournalStatus
  pub backend : BackendDescriptor
  pub original : ProxySnapshot
  pub desired : ProxySettings

-- The details of an I/O or JSON error are left out.
pub data RecoveryError : Type 0 where
  io : RecoveryError
  json : RecoveryError
  invalid_journal_version : Text → RecoveryError
  watchdog_did_not_become_ready : RecoveryError
  watchdog_exited_early : RecoveryError
  owner_still_running : ℕ → RecoveryError
  unsupported_backend : RecoveryError
  snapshot_backend_mismatch : RecoveryError
  invalid_proxy_endpoint : Text → RecoveryError
  platform_command_failed : Text → RecoveryError
  platform_output_invalid : Text → RecoveryError
  authenticated_proxy_unsupported : Text → RecoveryError
  privileged_helper : Text → RecoveryError
  operation_failed : Text → RecoveryError → RecoveryError
  restore_retry_failed : RecoveryError → RecoveryError → RecoveryError
  rollback_recovery_failed : RecoveryError → RecoveryError → RecoveryError → RecoveryError

-- `trait ProxyBackend`, over the state `S` of the system whose proxy it sets. A call that fails may
-- have changed the system.
pub record ProxyBackend (S : Type 0) : Type 0 where
  pub descriptor : BackendDescriptor
  pub snapshot : S → Result RecoveryError ProxySnapshot
  pub apply : ProxySettings → S → Result RecoveryError (Unit {0}) × S
  pub restore : ProxySnapshot → S → Result RecoveryError (Unit {0}) × S
