-- ===== src/Recovery/Contract.antt =====
-- What the recovery code relies on in a backend, the invariant of a transaction, and the watchdog
-- under it.
use code_is_cheap.Common.{
  true, false, if◌then◌else◌, some, ok, ◌≡◌, refl, ◌⊎◌, inl, inr, ◌&&◌, Bool-cases, ap, sym, ◌∙◌,
}
use code_is_cheap.Text.{Text, text, text_eq}
use code_is_cheap.Recovery.{
  RecoveryJournal, RecoveryError, ProxySnapshot, ProxyBackend, armed, restored,
}
use code_is_cheap.Recovery.World.{World, JournalFile, present, attempt, on_system}
use code_is_cheap.Recovery.Files.{
  Backends, is_restored, load_journal, write_journal, remove_if_exists, restore_with_backend,
  restore_snapshot,
}
use code_is_cheap.Recovery.Watchdog.{WatchdogHandle, finish_watchdog, close_stdin}
use code_is_cheap.Recovery.Outcomes.{
  After, After-weaken, After-continue, After-handle, attempt-After, write_journal-After,
  remove_if_exists-After, load_journal-After, on_system-After,
}

-- What a backend promises. `Original o s` says that the system has the settings of the snapshot `o`,
-- as it has when the snapshot is taken. A restore that succeeds brings them about, and one that
-- fails does not destroy them.
pub record Restorable {S : Type 0} (backend_for : Backends S) (backend : ProxyBackend S)
    : Type 1 where
  pub Original : ProxySnapshot → S → Type 0
  pub snapshot_lem : (s : S) (o : ProxySnapshot) → backend.snapshot s ≡ ok o → Original o s
  pub restore_lem :
      (o : ProxySnapshot) (s : S)
      → (backend.restore o s).0 ≡ ok tt
      → Original o (backend.restore o s).1
  pub keeps_lem : (o : ProxySnapshot) (s : S) → Original o s → Original o (backend.restore o s).1
  pub found_lem : backend_for backend.descriptor ≡ some backend

-- A transaction: its armed journal, the backend of that journal, and `Original`, which says that
-- the system has the settings of the snapshot in the journal. A restore that succeeds brings them
-- about, and one that fails does not destroy them.
pub record Transaction (S : Type 0) : Type 1 where
  pub backend_for : Backends S
  pub backend : ProxyBackend S
  pub journal : RecoveryJournal
  pub Original : S → Type 0
  pub restore_lem :
      (s : S)
      → (backend.restore journal.original s).0 ≡ ok tt
      → Original (backend.restore journal.original s).1
  pub keeps_lem : (s : S) → Original s → Original (backend.restore journal.original s).1
  pub found_lem : backend_for journal.backend ≡ some backend
  pub armed_lem : journal.status ≡ armed

pub present_injective : {j k : RecoveryJournal} → present j ≡ present k → j ≡ k
present_injective h = cc

module _ {S : Type 0} (t : Transaction S) where
  -- The system has its original settings, or `F` and the armed journal is there to restore them.
  abbrev pub Safe : Type 0 → World S → Type 0
  Safe F w = t.Original w.system ⊎ (F × (w.journal ≡ present t.journal))

  abbrev pub IsOriginal : World S → Type 0
  IsOriginal w = t.Original w.system

  pub restore_by-After :
      (F : Type 0) (w : World S)
      → Safe F w
      → After
          (λ _ w'. IsOriginal w')
          (λ _ w'. Safe F w')
          (on_system (t.backend.restore t.journal.original) w)
  restore_by-After F w (inl h) =
      on_system-After (t.backend.restore t.journal.original) w (λ _. t.keeps_lem w.system h)
        (λ _ _. inl (t.keeps_lem w.system h))
  restore_by-After F w (inr h) =
      on_system-After (t.backend.restore t.journal.original) w (λ e. t.restore_lem w.system e)
        (λ _ _. inr h)

  pub restore_snapshot-After :
      (F : Type 0) (w : World S)
      → Safe F w
      → After
          (λ _ w'. IsOriginal w')
          (λ _ w'. Safe F w')
          (restore_snapshot t.backend_for t.journal w)
  unfolding restore_snapshot restore_with_backend
  restore_snapshot-After F w h = rw t.found_lem (
      After-continue _ (on_system (t.backend.restore t.journal.original) w) (
        After-weaken _
          (λ _ w1 o. After-continue _ (write_journal (record t.journal { status = restored }) w1) (
            write_journal-After _ w1 (λ _. remove_if_exists-After _ (λ _. o) (λ _. inl o))
              (λ _. inl o)))
          (λ _ _ k. k) (restore_by-After F w h)))

  unrestored :
      (F : Type 0) (file : JournalFile) (latest : RecoveryJournal) (s : S)
      → t.Original s ⊎ (F × (file ≡ present t.journal))
      → file ≡ present latest
      → t.Original s ⊎ (F × (file ≡ present t.journal) × (is_restored latest.status ≡ false))
  unrestored F file latest s (inl o) e = inl o
  unrestored F file latest s (inr (f, h)) e =
      inr (f, h, ap is_restored (ap (λ j. j.status) (present_injective (sym e ∙ h)) ∙ t.armed_lem))

  command_After :
      (F : Type 0) (command : Text) (latest : RecoveryJournal) (w : World S)
      → t.Original w.system
        ⊎ (F × (w.journal ≡ present t.journal) × (is_restored latest.status ≡ false))
      → After
          (λ _ w'. IsOriginal w')
          (λ _ w'. Safe F w')
          ((if text_eq command (text "disarm") && is_restored latest.status
              then remove_if_exists
              else restore_snapshot t.backend_for t.journal)
            w)
  command_After F command latest w (inl o) =
      elim (Bool-cases (text_eq command (text "disarm") && is_restored latest.status)) [
        | inl e ↦ rw e (remove_if_exists-After w (λ _. o) (λ _. inl o))
        | inr e ↦ rw e (restore_snapshot-After F w (inl o))
      ]
  command_After F command latest w (inr (f, h, e)) =
      elim (Bool-cases (text_eq command (text "disarm"))) [
        | inl q ↦ rw (q, e) (restore_snapshot-After F w (inr (f, h)))
        | inr q ↦ rw q (restore_snapshot-After F w (inr (f, h)))
      ]

  pub finish_watchdog-After :
      (F : Type 0) (command : Text) (w : World S)
      → Safe F w
      → After
          (λ _ w'. IsOriginal w')
          (λ _ w'. Safe F w')
          (finish_watchdog t.backend_for command t.journal w)
  unfolding finish_watchdog
  finish_watchdog-After F command w h = After-continue _ (attempt w) (
      attempt-After w
        (λ fs. After-continue _ (load_journal (record w { faults = fs })) (
          load_journal-After (record w { faults = fs })
            (λ j fs' e.
              command_After F command j (record w { faults = fs' })
                (unrestored F w.journal j w.system h e))
            (λ _ _. h)))
        (λ _. h))

  -- The child that ended with success restored the settings; one that failed did no harm.
  abbrev pub Ended : Type 0 → WatchdogHandle → World S → Type 0
  Ended F watchdog w =
      Safe F w
      × ((watchdog.status ≡ some true) → IsOriginal w)
      × (watchdog.armed_journal ≡ t.journal)

  pub close_stdin-After :
      (F : Type 0) (command : Text) (watchdog : WatchdogHandle) (w : World S)
      → watchdog.armed_journal ≡ t.journal
      → Safe F w
      → (E : RecoveryError → World S → Type 0)
      → After
          (λ watchdog' w'. Ended F watchdog' w' × (watchdog'.stdin ≡ false))
          E
          (close_stdin t.backend_for command watchdog w)
  unfolding close_stdin
  close_stdin-After F command watchdog w e h E = rw e (
      After-handle _ _ (finish_watchdog t.backend_for command t.journal w) (
        After-weaken _ (λ _ _ o. record { outcome = ((inl o, λ _. o, refl), refl) })
          (λ _ _ k. record { outcome = ((k, λ q. absurd (cc), refl), refl) })
          (finish_watchdog-After F command w h)))
