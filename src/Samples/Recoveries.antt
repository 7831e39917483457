-- ===== src/Samples/Recoveries.antt =====
-- A proxy transaction on the file backend, and one on a backend in memory.
use code_is_cheap.Common.{some, true, false, [], ◌∷◌, ok, ◌≡◌, refl}
use code_is_cheap.Text.{Text, text}
use code_is_cheap.Recovery.{
  ProxyBackend, ProxySettings, disabled, manual, ProxySnapshot, file_snapshot, file_backend,
}
use code_is_cheap.Recovery.World.{World, missing, present, ◌>>=◌}
use code_is_cheap.Recovery.Watchdog.{finish_watchdog}
use code_is_cheap.Recovery.Session.{Owner, opening_journal, begin, restore, drop_session}
use code_is_cheap.Recovery.Outcomes.{After}
use code_is_cheap.Recovery.Contract.{Restorable, Safe, IsOriginal}
use code_is_cheap.Recovery.Invariant.{Done, Holds}
use code_is_cheap.Recovery.Begin.{Failed}
use code_is_cheap.Recovery.FileBackend.{
  FileSystem, state, file_proxy_backend, file_backends, file_proxy_backend-Restorable,
}
use code_is_cheap.Recovery.Transactions.{
  opened, Recovers, begin-Holds, begin-restore, begin-crash, begin-drop,
}
use code_is_cheap.Recovery.Success.{begin_then_restore-ok}
use code_is_cheap.Text.{text_eq}
use code_is_cheap.Common.{err}
use code_is_cheap.Recovery.{restore_retry_failed, operation_failed, io}
use code_is_cheap.Recovery.Files.{
  load_journal, validate_journal, write_journal, mark_restored, remove_if_exists, restore_snapshot,
  restore_with_backend,
}
use code_is_cheap.Recovery.Watchdog.{
  start_watchdog, spawn, close_stdin, send_disarm, wait, disarm, drop_stdin,
}
use code_is_cheap.Recovery.Session.{
  begin_with, apply_desired, restore_inner, restore_original, disarm_session,
  remove_session_journal,
}

abbrev state_path : Text
state_path = text "/tmp/proxy.json"

abbrev owner : Owner
owner = record { transaction_id = text "7-1"; owner_pid = 7 }

abbrev desired : ProxySettings
desired = manual (text "127.0.0.1:8080") (text "127.0.0.1:8080") []

abbrev original : ProxySnapshot
original = file_snapshot disabled

-- The third operation on the journal and the first write of the state fail.
abbrev faulty : World FileSystem
faulty = record {
  system = record { files = λ _. state disabled; faults = true ∷ [] };
  journal = missing;
  faults = false ∷ false ∷ true ∷ [];
}

abbrev promise : Restorable file_backends (file_proxy_backend state_path)
promise = file_proxy_backend-Restorable state_path

begin-Holds_example :
    After
      (λ session w'.
        Holds (opened promise owner desired original) Unit session w'
        × (w'.journal
            ≡ present (opening_journal owner (file_proxy_backend state_path) desired original)))
      (Failed (opened promise owner desired original))
      (begin file_backends owner (file_proxy_backend state_path) desired faulty)
begin-Holds_example = begin-Holds promise owner desired original faulty refl

begin-restore_example :
    After
      (λ session w1.
        After
          (λ _ w2. Done (opened promise owner desired original) w2)
          (λ _ w2. Safe (opened promise owner desired original) Unit w2)
          (restore file_backends session w1))
      (Failed (opened promise owner desired original))
      (begin file_backends owner (file_proxy_backend state_path) desired faulty)
begin-restore_example = begin-restore promise owner desired original faulty refl

begin-crash_example :
    After
      (λ _ w1.
        After
          (λ _ w2. IsOriginal (opened promise owner desired original) w2)
          (λ _ w2. Recovers promise owner desired original (λ _. ok false) w2)
          (finish_watchdog file_backends
            (text "disarm")
            (opening_journal owner (file_proxy_backend state_path) desired original)
            w1))
      (Failed (opened promise owner desired original))
      (begin file_backends owner (file_proxy_backend state_path) desired faulty)
begin-crash_example =
    begin-crash promise owner desired original (text "disarm") (λ _. ok false) faulty refl

begin-drop_example :
    After
      (λ session w1.
        After
          (λ _ w2. Safe (opened promise owner desired original) Unit w2)
          (λ _ w2. Safe (opened promise owner desired original) Unit w2)
          (drop_session file_backends session w1))
      (Failed (opened promise owner desired original))
      (begin file_backends owner (file_proxy_backend state_path) desired faulty)
begin-drop_example = begin-drop promise owner desired original faulty refl

abbrev settings_of : ProxySnapshot → ProxySettings
settings_of (file_snapshot settings) = settings
settings_of _ = disabled

abbrev memory_backend : ProxyBackend ProxySettings
memory_backend = record {
  descriptor = file_backend state_path;
  snapshot = λ s. ok (file_snapshot s);
  apply = λ settings _. (ok tt, settings);
  restore = λ snapshot _. (ok tt, settings_of snapshot);
}

begin_then_restore-ok_example :
    ((begin (λ _. some memory_backend) owner memory_backend desired
        >>= restore (λ _. some memory_backend))
      (record { system = disabled; journal = missing; faults = [] })).0
    ≡ ok tt
begin_then_restore-ok_example =
    begin_then_restore-ok (λ _. some memory_backend) memory_backend owner desired (λ _. refl)
      (λ _ _. refl) original disabled missing refl

-- The write of the command to the watchdog fails. The watchdog then restores by itself and removes
-- the journal, so the retry of `restore` finds no journal to mark, and reports a failure.
abbrev broken_pipe : World ProxySettings
broken_pipe = record {
  system = disabled;
  journal = missing;
  faults = false ∷ false ∷ false ∷ false ∷ false ∷ false ∷ false ∷ true ∷ [];
}

retry_without_journal :
    (begin (λ _. some memory_backend) owner memory_backend desired
        >>= restore (λ _. some memory_backend))
      broken_pipe
    ≡ (
      err (
          restore_retry_failed
            (operation_failed (text "disarming the proxy watchdog") io)
            (operation_failed (text "marking the recovery journal restored") io)),
      record { system = disabled; journal = missing; faults = [] },
    )
unfolding text_eq load_journal validate_journal write_journal mark_restored remove_if_exists
    start_watchdog finish_watchdog spawn close_stdin send_disarm wait disarm drop_stdin begin
    begin_with apply_desired restore restore_inner restore_original disarm_session
    remove_session_journal drop_session restore_snapshot restore_with_backend
retry_without_journal = refl
