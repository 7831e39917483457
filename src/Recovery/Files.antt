-- ===== src/Recovery/Files.antt =====
-- crates/proxy-recovery/src/lib.rs: reading, writing and removing the journal, the file backend, and
-- the recovery of a journal that a finished process left.
use code_is_cheap.Common.{
  Bool, true, false, if◌then◌else◌, not, Option, none, some, Result, ok, err,
}
use code_is_cheap.Text.{text_eq}
use code_is_cheap.Recovery.{
  recovery_journal_version, RecoveryJournal, RecoveryError, ProxySnapshot, BackendDescriptor,
  JournalStatus, armed, restored, ProxyBackend, io, json, invalid_journal_version,
  owner_still_running, unsupported_backend,
}
use code_is_cheap.Recovery.World.{
  JournalFile, missing, corrupt, present, Action, pure, raise, ◌>>=◌, ◌>>◌, attempt, on_system,
  put_journal, journal_file,
}

-- `match backend_for descriptor`: the arms of `restore_with_backend` that the build has.
abbrev pub Backends : Type 0 → Type 0
Backends S = BackendDescriptor → Option (ProxyBackend S)

abbrev pub is_restored : JournalStatus → Bool
is_restored armed = false
is_restored restored = true

module _ {S : Type 0} where
  abbrev pub decode : JournalFile → Action S RecoveryJournal
  decode missing = raise io
  decode corrupt = raise json
  decode (present journal) = pure journal

  unfoldable pub load_journal : Action S RecoveryJournal
  load_journal = do attempt; file ← journal_file; decode file

  unfoldable pub validate_journal : RecoveryJournal → Action S (Unit {0})
  validate_journal journal =
      if not (text_eq journal.version recovery_journal_version)
      then raise (invalid_journal_version journal.version)
      else pure tt

  -- `write_json_atomic` at the path of the journal: the file is replaced as a whole or not at all.
  unfoldable pub write_journal : RecoveryJournal → Action S (Unit {0})
  write_journal journal = do attempt; put_journal (present journal)

  unfoldable pub mark_restored : Action S (Unit {0})
  mark_restored = do journal ← load_journal; write_journal (record journal { status = restored })

  -- `remove_if_exists`: a missing file is no error.
  unfoldable pub remove_if_exists : Action S (Unit {0})
  remove_if_exists = do attempt; put_journal missing

  abbrev restore_by : Option (ProxyBackend S) → ProxySnapshot → Action S (Unit {0})
  restore_by none snapshot = raise unsupported_backend
  restore_by (some backend) snapshot = on_system (backend.restore snapshot)

  unfoldable pub restore_with_backend :
      Backends S → BackendDescriptor → ProxySnapshot → Action S (Unit {0})
  restore_with_backend backend_for descriptor snapshot =
      restore_by (backend_for descriptor) snapshot

  unfoldable pub restore_snapshot : Backends S → RecoveryJournal → Action S (Unit {0})
  restore_snapshot backend_for journal = do
    restore_with_backend backend_for journal.backend journal.original
    write_journal (record journal { status = restored })
    remove_if_exists

  abbrev pub recover_armed :
      Backends S → RecoveryJournal → Result RecoveryError Bool → Action S Bool
  recover_armed backend_for journal (err e) = raise e
  recover_armed backend_for journal (ok true) = raise (owner_still_running journal.owner_pid)
  recover_armed backend_for journal (ok false) = do restore_snapshot backend_for journal; pure true

  abbrev pub recover_present :
      Backends S → (RecoveryJournal → Result RecoveryError Bool) → JournalFile → Action S Bool
  recover_present backend_for owner_process_is_running missing = pure false
  recover_present backend_for owner_process_is_running file = do
    journal ← load_journal
    validate_journal journal
    if is_restored journal.status
        then (do remove_if_exists; pure false)
        else recover_armed backend_for journal (owner_process_is_running journal)

  -- `recover_from_journal`; the operating system says whether the owner of the journal runs.
  unfoldable pub recover_from_journal :
      Backends S → (RecoveryJournal → Result RecoveryError Bool) → Action S Bool
  recover_from_journal backend_for owner_process_is_running = do
    file ← journal_file
    recover_present backend_for owner_process_is_running file
