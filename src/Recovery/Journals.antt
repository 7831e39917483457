-- ===== src/Recovery/Journals.antt =====
-- `recover_from_journal`: what it makes of the journal that a finished process left.
use code_is_cheap.Common.{
  Bool, true, false, if◌then◌else◌, Result, ok, err, ◌≡◌, refl, inr, ap, sym, subst, ◌∙◌,
}
use code_is_cheap.Recovery.{RecoveryJournal, RecoveryError}
use code_is_cheap.Recovery.World.{World, JournalFile, missing, corrupt, present, pure, ◌>>=◌, ◌>>◌}
use code_is_cheap.Recovery.Files.{
  is_restored, load_journal, validate_journal, remove_if_exists, restore_snapshot, recover_armed,
  recover_present, recover_from_journal,
}
use code_is_cheap.Recovery.Outcomes.{
  After, After-weaken, After-continue, After-if, load_journal-After, validate_journal-After,
}
use code_is_cheap.Recovery.Contract.{
  Transaction, Safe, IsOriginal, present_injective, restore_snapshot-After,
}

module _ {S : Type 0} (t : Transaction S) where
  recover_armed-After :
      (running : Result RecoveryError Bool) (w : World S)
      → w.journal ≡ present t.journal
      → After
          (λ recovered w'. (recovered ≡ true) × IsOriginal t w')
          (λ _ w'. Safe t Unit w')
          (recover_armed t.backend_for t.journal running w)
  recover_armed-After (err e) w h = record { outcome = inr (tt, h) }
  recover_armed-After (ok true) w h = record { outcome = inr (tt, h) }
  recover_armed-After (ok false) w h =
      After-continue _ (restore_snapshot t.backend_for t.journal w) (
        After-weaken _ (λ _ _ k. record { outcome = (refl, k) }) (λ _ _ k. k)
          (restore_snapshot-After t Unit w (inr (tt, h))))

  loaded-After :
      (running : RecoveryJournal → Result RecoveryError Bool) (w : World S)
      → w.journal ≡ present t.journal
      → After
          (λ recovered w'. (recovered ≡ true) × IsOriginal t w')
          (λ _ w'. Safe t Unit w')
          ((do
            journal ← load_journal
            validate_journal journal
            if is_restored journal.status
                then (do remove_if_exists; pure false)
                else recover_armed t.backend_for journal (running journal))
            w)
  loaded-After running w h = After-continue _ (load_journal w) (
      load_journal-After w
        (λ j fs e. checked j (present_injective (sym e ∙ h)) (record w { faults = fs }) h)
        (λ _ _. inr (tt, h)))
    where
      checked :
          (j : RecoveryJournal)
          → j ≡ t.journal
          → (w1 : World S) → w1.journal ≡ present t.journal
          → After
              (λ recovered w'. (recovered ≡ true) × IsOriginal t w')
              (λ _ w'. Safe t Unit w')
              ((do
                validate_journal j
                if is_restored j.status
                    then (do remove_if_exists; pure false)
                    else recover_armed t.backend_for j (running j))
                w1)
      checked j e w1 k = After-continue _ (validate_journal j w1) (
          validate_journal-After j w1
            (After-if (is_restored j.status) _ _ w1
              (λ q. absurd (cc (ap (λ i. is_restored i.status) e, ap is_restored t.armed_lem, q)))
              (λ _.
                subst
                  (λ i.
                    After (λ recovered w'. (recovered ≡ true) × IsOriginal t w')
                      (λ _ w'. Safe t Unit w') (recover_armed t.backend_for i (running i) w1))
                  (sym e) (recover_armed-After (running t.journal) w1 k)))
            (λ _. inr (tt, k)))

  present-After :
      (running : RecoveryJournal → Result RecoveryError Bool) (file : JournalFile) (w : World S)
      → file ≡ present t.journal
      → w.journal ≡ present t.journal
      → After
          (λ recovered w'. (recovered ≡ true) × IsOriginal t w')
          (λ _ w'. Safe t Unit w')
          (recover_present t.backend_for running file w)
  present-After running missing w e h = absurd (cc)
  present-After running corrupt w e h = absurd (cc)
  present-After running (present j) w e h = loaded-After running w h

  -- With the armed journal of a transaction at the path, `recover_from_journal` that succeeds
  -- says that it recovered, and the system has its original settings. If it fails, the system has
  -- them or the armed journal is still there, whether the owner runs or a fault occurs.
  pub recover_from_journal-After :
      (owner_process_is_running : RecoveryJournal → Result RecoveryError Bool) (w : World S)
      → w.journal ≡ present t.journal
      → After
          (λ recovered w'. (recovered ≡ true) × IsOriginal t w')
          (λ _ w'. Safe t Unit w')
          (recover_from_journal t.backend_for owner_process_is_running w)
  unfolding recover_from_journal
  recover_from_journal-After running w h = present-After running w.journal w h h
