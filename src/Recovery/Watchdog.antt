-- ===== src/Recovery/Watchdog.antt =====
-- crates/proxy-recovery/src/lib.rs: `WatchdogHandle` and `run_watchdog`. The child reads its standard
-- input to the end before it acts, so its last part runs when the parent closes the pipe or dies.
use code_is_cheap.Common.{
  Bool, true, false, if◌then◌else◌, ◌&&◌, Option, none, some, Result, ok, err,
}
use code_is_cheap.Text.{Text, text, text_eq}
use code_is_cheap.Recovery.{
  RecoveryJournal, RecoveryError, watchdog_did_not_become_ready, watchdog_exited_early,
}
use code_is_cheap.Recovery.World.{Action, pure, raise, handle, ◌>>=◌, ◌>>◌, attempt}
use code_is_cheap.Recovery.Files.{
  Backends, is_restored, load_journal, validate_journal, remove_if_exists, restore_snapshot,
}

-- `armed_journal` is what the child holds; `status` is its exit status once it has ended.
pub record WatchdogHandle : Type 0 where
  pub armed_journal : RecoveryJournal
  pub stdin : Bool
  pub status : Option Bool

abbrev pub check_status : Option Bool → Result RecoveryError (Unit {0})
check_status (some true) = ok tt
check_status _ = err watchdog_exited_early

abbrev ended : Bool → WatchdogHandle → WatchdogHandle
ended success watchdog = record watchdog { stdin = false; status = some success }

module _ {S : Type 0} where
  -- `run_watchdog` up to the line `ready`.
  unfoldable pub start_watchdog : Action S RecoveryJournal
  start_watchdog = do
    armed_journal ← load_journal
    validate_journal armed_journal
    attempt
    pure armed_journal

  -- `run_watchdog` from the end of its input on.
  unfoldable pub finish_watchdog : Backends S → Text → RecoveryJournal → Action S (Unit {0})
  finish_watchdog backend_for command armed_journal = do
    attempt
    latest ← load_journal
    if text_eq command (text "disarm") && is_restored latest.status
        then remove_if_exists
        else restore_snapshot backend_for armed_journal

  unfoldable pub spawn : Action S WatchdogHandle
  spawn = do
    attempt
    attempt
    λ w.
        handle (λ _. raise watchdog_did_not_become_ready)
          (λ armed_journal.
            pure (record { armed_journal = armed_journal; stdin = true; status = none }))
          (start_watchdog w)

  -- The end of the child's input: it runs to its end, and its result is its exit status.
  unfoldable pub close_stdin : Backends S → Text → WatchdogHandle → Action S WatchdogHandle
  close_stdin backend_for command watchdog w =
      handle (λ _. pure (ended false watchdog)) (λ _. pure (ended true watchdog))
        (finish_watchdog backend_for command watchdog.armed_journal w)

  -- `let status = self.child.wait()?` and the test of it; a child that has ended keeps its status.
  unfoldable pub wait : WatchdogHandle → Action S (Unit {0})
  wait watchdog = do attempt; λ w. (check_status watchdog.status, w)

  -- `stdin.write_all(b"disarm\n")?` and the end of the input. A write that fails leaves the child with
  -- no command.
  unfoldable pub send_disarm :
      Backends S → WatchdogHandle → Action S (Result RecoveryError (Unit {0}) × WatchdogHandle)
  send_disarm backend_for watchdog w =
      handle
        (λ e. do watchdog' ← close_stdin backend_for (text "") watchdog; pure (err e, watchdog'))
        (λ _. do
          watchdog' ← close_stdin backend_for (text "disarm") watchdog
          pure (ok tt, watchdog'))
        (attempt w)

  abbrev pub wait_after :
      Result RecoveryError (Unit {0}) × WatchdogHandle
      → Action S (Result RecoveryError (Unit {0}) × WatchdogHandle)
  wait_after (err e, watchdog) w = pure (err e, watchdog) w
  wait_after (ok _, watchdog) w = let (r, w') = wait watchdog w in pure (r, watchdog) w'

  -- The handle stays after an error, so it is part of the value that is returned.
  unfoldable pub disarm :
      Backends S → WatchdogHandle → Action S (Result RecoveryError (Unit {0}) × WatchdogHandle)
  disarm backend_for watchdog = do
    sent ← if watchdog.stdin then send_disarm backend_for watchdog else pure (ok tt, watchdog)
    wait_after sent

  -- `drop(self.stdin.take())`, also at the end of the handle's life.
  unfoldable pub drop_stdin : Backends S → WatchdogHandle → Action S WatchdogHandle
  drop_stdin backend_for watchdog =
      if watchdog.stdin then close_stdin backend_for (text "") watchdog else pure watchdog

  unfoldable pub recover_now : Backends S → WatchdogHandle → Action S (Unit {0})
  recover_now backend_for watchdog = do watchdog' ← drop_stdin backend_for watchdog; wait watchdog'
