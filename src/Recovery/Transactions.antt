-- ===== src/Recovery/Transactions.antt =====
-- A transaction from `begin` to its end: by `restore`, by a drop, by the watchdog after the owner
-- died, or by `recover_from_journal` after both died.
use code_is_cheap.Common.{Bool, true, Result, ok, ◌≡◌, refl, ◌⊎◌, inl, inr}
use code_is_cheap.Text.{Text}
use code_is_cheap.Recovery.{
  RecoveryJournal, RecoveryError, ProxyBackend, ProxySettings, ProxySnapshot,
}
use code_is_cheap.Recovery.World.{World, present}
use code_is_cheap.Recovery.Files.{Backends, recover_from_journal}
use code_is_cheap.Recovery.Watchdog.{finish_watchdog}
use code_is_cheap.Recovery.Session.{Owner, opening_journal, begin, drop_session, restore}
use code_is_cheap.Recovery.Outcomes.{After, After-weaken}
use code_is_cheap.Recovery.Contract.{
  Restorable, Transaction, Safe, IsOriginal, finish_watchdog-After,
}
use code_is_cheap.Recovery.Invariant.{Done, Holds}
use code_is_cheap.Recovery.Restores.{restore-After, drop_session-After}
use code_is_cheap.Recovery.Begin.{Failed, begin_with-After}
use code_is_cheap.Recovery.Journals.{recover_from_journal-After}

module _ {S : Type 0} {backend_for : Backends S} {backend : ProxyBackend S}
    (promise : Restorable backend_for backend) (owner : Owner) (desired : ProxySettings) where
  -- The transaction that `begin` opens on a snapshot.
  abbrev pub opened : ProxySnapshot → Transaction S
  opened original = record {
    backend_for = backend_for;
    backend = backend;
    journal = opening_journal owner backend desired original;
    Original = promise.Original original;
    restore_lem = promise.restore_lem original;
    keeps_lem = promise.keeps_lem original;
    found_lem = promise.found_lem;
    armed_lem = refl;
  }

  -- `begin` on a system whose snapshot is `original`, whatever operations fail: if it succeeds, the
  -- session is one of the transaction and the armed journal is in its place; if it fails, the system
  -- has its original settings, or the error is `rollback_recovery_failed` and the armed journal is in
  -- its place.
  pub begin-Holds :
      (original : ProxySnapshot) (w : World S)
      → backend.snapshot w.system ≡ ok original
      → After
          (λ session w'.
            Holds (opened original) Unit session w'
            × (w'.journal ≡ present (opening_journal owner backend desired original)))
          (Failed (opened original))
          (begin backend_for owner backend desired w)
  unfolding begin
  begin-Holds original w h =
      rw h (begin_with-After (opened original) desired w (promise.snapshot_lem w.system original h))

  -- After a successful `begin`, whatever operations fail: a successful `restore` leaves the original
  -- settings and no journal, and one that fails leaves the original settings or the armed journal.
  pub begin-restore :
      (original : ProxySnapshot) (w : World S)
      → backend.snapshot w.system ≡ ok original
      → After
          (λ session w1.
            After
              (λ _ w2. Done (opened original) w2)
              (λ _ w2. Safe (opened original) Unit w2)
              (restore backend_for session w1))
          (Failed (opened original))
          (begin backend_for owner backend desired w)
  begin-restore original w h =
      After-weaken _ (λ session w1 k. restore-After (opened original) Unit session w1 k.0)
        (λ _ _ k. k) (begin-Holds original w h)

  -- The original settings stand, or the journal is there and `recover_from_journal` brings them back.
  abbrev pub Recovers :
      ProxySnapshot → (RecoveryJournal → Result RecoveryError Bool) → World S → Type 0
  Recovers original running w =
      IsOriginal (opened original) w
      ⊎ After (λ recovered w'. (recovered ≡ true) × IsOriginal (opened original) w')
          (λ _ w'. Safe (opened original) Unit w') (recover_from_journal backend_for running w)

  recovers :
      (original : ProxySnapshot) (running : RecoveryJournal → Result RecoveryError Bool)
      (w : World S)
      → Safe (opened original) Unit w
      → Recovers original running w
  recovers original running w (inl o) = inl o
  recovers original running w (inr (_, h)) =
      inr (recover_from_journal-After (opened original) running w h)

  -- The owner dies after a successful `begin`: whatever the watchdog had been sent, if it ends with
  -- success the system has its original settings, and if not the system has them or the armed journal
  -- is in its place, and then a successful `recover_from_journal` brings them back.
  pub begin-crash :
      (original : ProxySnapshot) (command : Text)
      (owner_process_is_running : RecoveryJournal → Result RecoveryError Bool) (w : World S)
      → backend.snapshot w.system ≡ ok original
      → After
          (λ _ w1.
            After
              (λ _ w2. IsOriginal (opened original) w2)
              (λ _ w2. Recovers original owner_process_is_running w2)
              (finish_watchdog backend_for command
                (opening_journal owner backend desired original)
                w1))
          (Failed (opened original))
          (begin backend_for owner backend desired w)
  begin-crash original command running w h =
      After-weaken _
        (λ session w1 k.
          After-weaken _ (λ _ _ k2. k2) (λ _ w2 k2. recovers original running w2 k2)
            (finish_watchdog-After (opened original) Unit command w1 (inr (tt, k.1))))
        (λ _ _ k. k) (begin-Holds original w h)

  -- A session that is dropped, whatever operations fail, leaves the original settings or the armed
  -- journal.
  pub begin-drop :
      (original : ProxySnapshot) (w : World S)
      → backend.snapshot w.system ≡ ok original
      → After
          (λ session w1.
            After
              (λ _ w2. Safe (opened original) Unit w2)
              (λ _ w2. Safe (opened original) Unit w2)
              (drop_session backend_for session w1))
          (Failed (opened original))
          (begin backend_for owner backend desired w)
  begin-drop original w h =
      After-weaken _ (λ session w1 k. drop_session-After (opened original) Unit session w1 k.0 _)
        (λ _ _ k. k) (begin-Holds original w h)
