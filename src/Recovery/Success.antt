-- ===== src/Recovery/Success.antt =====
-- Without faults, a transaction on a backend whose calls succeed runs to its end.
use code_is_cheap.Common.{[], ok, ◌≡◌}
use code_is_cheap.Text.{text_eq}
use code_is_cheap.Recovery.{ProxyBackend, ProxySettings, ProxySnapshot}
use code_is_cheap.Recovery.World.{JournalFile, ◌>>=◌}
use code_is_cheap.Recovery.Files.{
  Backends, load_journal, validate_journal, write_journal, mark_restored, remove_if_exists,
}
use code_is_cheap.Recovery.Watchdog.{
  start_watchdog, finish_watchdog, spawn, close_stdin, send_disarm, wait, disarm, drop_stdin,
}
use code_is_cheap.Recovery.Session.{
  Owner, begin, begin_with, apply_desired, restore, restore_inner, restore_original, disarm_session,
  remove_session_journal, drop_session,
}

module _ {S : Type 0} (backend_for : Backends S) (backend : ProxyBackend S) (owner : Owner)
    (desired : ProxySettings) (apply_ok : (s : S) → (backend.apply desired s).0 ≡ ok tt)
    (restore_ok : (o : ProxySnapshot) (s : S) → (backend.restore o s).0 ≡ ok tt) where
  -- Without faults and on a backend whose `apply` and `restore` succeed, `begin` and then `restore`
  -- succeed, whatever stood at the path of the journal.
  pub begin_then_restore-ok :
      (original : ProxySnapshot) (s : S) (file : JournalFile)
      → backend.snapshot s ≡ ok original
      → ((begin backend_for owner backend desired >>= restore backend_for)
          (record { system = s; journal = file; faults = [] })).0
        ≡ ok tt
  unfolding text_eq load_journal validate_journal write_journal mark_restored remove_if_exists
      start_watchdog finish_watchdog spawn close_stdin send_disarm wait disarm drop_stdin begin
      begin_with apply_desired restore restore_inner restore_original disarm_session
      remove_session_journal drop_session
  begin_then_restore-ok original s file h = simp (h, apply_ok, restore_ok)
