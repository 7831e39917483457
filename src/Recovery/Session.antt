-- ===== src/Recovery/Session.antt =====
-- crates/proxy-recovery/src/lib.rs: `ProxySession`, from `begin` to `restore` or the drop.
use code_is_cheap.Common.{ℕ, Bool, true, false, if◌then◌else◌, Option, none, some, Result, ok, err}
use code_is_cheap.Text.{Text, text}
use code_is_cheap.Recovery.{
  recovery_journal_version, RecoveryJournal, RecoveryError, ProxySettings, ProxySnapshot, armed,
  ProxyBackend, operation_failed, restore_retry_failed, rollback_recovery_failed,
}
use code_is_cheap.Recovery.World.{
  Action, pure, raise, change_error, failing_as, ignoring, handle, ◌>>=◌, ◌>>◌, on_system,
}
use code_is_cheap.Recovery.Files.{Backends, mark_restored, write_journal, remove_if_exists}
use code_is_cheap.Recovery.Watchdog.{WatchdogHandle, spawn, disarm, drop_stdin, recover_now}

pub record ProxySession (S : Type 0) : Type 0 where
  pub backend : ProxyBackend S
  pub original : ProxySnapshot
  pub watchdog : Option WatchdogHandle
  pub restored : Bool

-- What `begin` takes from the operating system: the time in `transaction_id` and the process.
pub record Owner : Type 0 where
  pub transaction_id : Text
  pub owner_pid : ℕ

module _ {S : Type 0} where
  abbrev pub opening_journal :
      Owner → ProxyBackend S → ProxySettings → ProxySnapshot → RecoveryJournal
  opening_journal owner backend desired original = record {
    version = recovery_journal_version;
    transaction_id = owner.transaction_id;
    owner_pid = owner.owner_pid;
    status = armed;
    backend = backend.descriptor;
    original = original;
    desired = desired;
  }

  -- The end of `begin` when `apply` and then the synchronous rollback have failed.
  unfoldable pub recover_rollback :
      Backends S → WatchdogHandle → RecoveryError → RecoveryError → Action S (ProxySession S)
  recover_rollback backend_for watchdog apply_error rollback_error w =
      handle
        (λ recovery_error.
          raise (rollback_recovery_failed apply_error rollback_error recovery_error))
        (λ _. raise apply_error) (recover_now backend_for watchdog w)

  -- The end of `begin` when `apply` has failed.
  unfoldable pub roll_back :
      Backends S
      → ProxyBackend S
      → ProxySnapshot
      → WatchdogHandle
      → RecoveryError
      → Action S (ProxySession S)
  roll_back backend_for backend original watchdog apply_error w =
      handle (λ rollback_error. recover_rollback backend_for watchdog apply_error rollback_error)
        (λ _. do
          ignoring mark_restored
          ignoring (disarm backend_for watchdog)
          ignoring remove_if_exists
          raise apply_error)
        (on_system (backend.restore original) w)

  unfoldable pub apply_desired :
      Backends S
      → ProxyBackend S
      → ProxySettings
      → ProxySnapshot
      → WatchdogHandle
      → Action S (ProxySession S)
  apply_desired backend_for backend desired original watchdog w =
      handle (λ apply_error. roll_back backend_for backend original watchdog apply_error)
        (λ _. pure (record {
          backend = backend;
          original = original;
          watchdog = some watchdog;
          restored = false;
        }))
        (on_system (backend.apply desired) w)

  unfoldable pub begin_with :
      Backends S → ProxyBackend S → ProxySettings → RecoveryJournal → Action S (ProxySession S)
  begin_with backend_for backend desired journal = do
    write_journal journal
    λ w.
        handle (λ e. do ignoring remove_if_exists; raise e)
          (λ watchdog. apply_desired backend_for backend desired journal.original watchdog)
          (spawn w)

  unfoldable pub begin :
      Backends S → Owner → ProxyBackend S → ProxySettings → Action S (ProxySession S)
  begin backend_for owner backend desired = do
    original ← λ w. (backend.snapshot w.system, w)
    begin_with backend_for backend desired (opening_journal owner backend desired original)

  -- The last step of `restore_inner`.
  unfoldable pub remove_session_journal :
      ProxySession S → Action S (Result RecoveryError (Unit {0}) × ProxySession S)
  remove_session_journal session w =
      handle
        (λ e.
          pure (err (operation_failed (text "removing the restored recovery journal") e), session))
        (λ _. pure (ok tt, record session { restored = true })) (remove_if_exists w)

  abbrev pub settle_disarmed :
      ProxySession S
      → Result RecoveryError (Unit {0}) × WatchdogHandle
      → Action S (Result RecoveryError (Unit {0}) × ProxySession S)
  settle_disarmed session (err e, watchdog) = pure (
    err (operation_failed (text "disarming the proxy watchdog") e),
    record session { watchdog = some watchdog },
  )
  settle_disarmed session (ok _, watchdog) =
      remove_session_journal (record session { watchdog = none })

  unfoldable pub disarm_session :
      Backends S
      → ProxySession S
      → Option WatchdogHandle
      → Action S (Result RecoveryError (Unit {0}) × ProxySession S)
  disarm_session backend_for session none = remove_session_journal session
  disarm_session backend_for session (some watchdog) = do
    disarmed ← disarm backend_for watchdog
    settle_disarmed session disarmed

  unfoldable pub restore_original : ProxySession S → Action S (Unit {0})
  restore_original session = do
    failing_as (operation_failed (text "restoring the original proxy snapshot"))
        (on_system (session.backend.restore session.original))
    failing_as (operation_failed (text "marking the recovery journal restored")) mark_restored

  -- The session stays after an error, so it is part of the value that is returned.
  unfoldable pub restore_inner :
      Backends S → ProxySession S → Action S (Result RecoveryError (Unit {0}) × ProxySession S)
  restore_inner backend_for session = if session.restored then pure (ok tt, session) else λ w.
      handle (λ e. pure (err e, session)) (λ _. disarm_session backend_for session session.watchdog)
        (restore_original session w)

  abbrev pub drop_watchdog : Backends S → Option WatchdogHandle → Action S (Unit {0})
  drop_watchdog backend_for none = pure tt
  drop_watchdog backend_for (some watchdog) = do
    watchdog' ← drop_stdin backend_for watchdog
    pure tt

  -- `drop`, and the drop of the fields after it.
  unfoldable pub drop_session : Backends S → ProxySession S → Action S (Unit {0})
  drop_session backend_for session = do
    dropped ← restore_inner backend_for session
    drop_watchdog backend_for dropped.1.watchdog

  abbrev pub retry_restore :
      Backends S
      → Result RecoveryError (Unit {0}) × ProxySession S
      → Action S (Result RecoveryError (Unit {0}) × ProxySession S)
  retry_restore backend_for (ok _, session) w = pure (ok tt, session) w
  retry_restore backend_for (err first, session) w =
      handle raise (λ second. pure (change_error (restore_retry_failed first) second.0, second.1))
        (restore_inner backend_for session w)

  -- `restore`, which takes the session and so drops it at its end.
  unfoldable pub restore : Backends S → ProxySession S → Action S (Unit {0})
  restore backend_for session = do
    first ← restore_inner backend_for session
    last ← retry_restore backend_for first
    drop_session backend_for last.1
    λ w. (last.0, w)
