-- ===== src/Recovery/Begin.antt =====
-- `begin` of a session: what stands when it succeeds and when it fails.
use code_is_cheap.Common.{none, ◌≡◌, refl, inl, inr, ◌⊎◌, sym, subst, ◌∙◌}
use code_is_cheap.Recovery.{RecoveryJournal, RecoveryError, ProxySettings, rollback_recovery_failed}
use code_is_cheap.Recovery.World.{World, present, raise, ignoring, attempt, on_system, ◌>>◌}
use code_is_cheap.Recovery.Files.{
  load_journal, validate_journal, write_journal, mark_restored, remove_if_exists,
}
use code_is_cheap.Recovery.Watchdog.{WatchdogHandle, start_watchdog, spawn, disarm, recover_now}
use code_is_cheap.Recovery.Session.{
  ProxySession, recover_rollback, roll_back, apply_desired, begin_with,
}
use code_is_cheap.Recovery.Outcomes.{
  After, After-weaken, After-continue, After-handle, After-ignoring, attempt-After,
  write_journal-After, remove_if_exists-After, load_journal-After, validate_journal-After,
  on_system-After,
}
use code_is_cheap.Recovery.Contract.{
  Transaction, Safe, IsOriginal, Ended, present_injective, restore_by-After,
}
use code_is_cheap.Recovery.Handles.{disarm-After, recover_now-After}
use code_is_cheap.Recovery.Invariant.{Holds, IsOriginal-of_Safe, mark_restored-After}

module _ {S : Type 0} where
  -- A child that is ready holds the journal at the path, and nothing has changed.
  spawn-After :
      (s : S) (journal : RecoveryJournal) (w : World S)
      → w.system ≡ s
      → w.journal ≡ present journal
      → After
          (λ watchdog w'.
            (w'.system ≡ s)
            × (w'.journal ≡ present journal)
            × (watchdog.armed_journal ≡ journal)
            × (watchdog.status ≡ none))
          (λ _ w'. w'.system ≡ s)
          (spawn w)
  unfolding spawn start_watchdog
  spawn-After s journal w e h = After-continue _ (attempt w) (
      attempt-After w
        (λ fs. After-continue _ (attempt (record w { faults = fs })) (
          attempt-After (record w { faults = fs })
            (λ fs1. After-handle _ _ (start_watchdog (record w { faults = fs1 })) (
              After-continue _ (load_journal (record w { faults = fs1 })) (
                load_journal-After (record w { faults = fs1 })
                  (λ j fs2 k. After-continue _ (validate_journal j (record w { faults = fs2 })) (
                    validate_journal-After j (record w { faults = fs2 })
                      (After-continue _ (attempt (record w { faults = fs2 })) (
                        attempt-After (record w { faults = fs2 })
                          (λ fs3. record {
                            outcome = record {
                              outcome = (e, h, present_injective (sym k ∙ h), refl);
                            };
                          })
                          (λ fs3. record { outcome = e })))
                      (λ x. record { outcome = e })))
                  (λ x fs2. record { outcome = e }))))
            (λ fs1. e)))
        (λ fs. e))

module _ {S : Type 0} (t : Transaction S) where
  -- The error of `begin`, when both the rollback and the watchdog have failed.
  abbrev pub IsRollbackRecoveryFailed : RecoveryError → Type 0
  IsRollbackRecoveryFailed (rollback_recovery_failed apply rollback recovery) = Unit
  IsRollbackRecoveryFailed _ = ⊥

  abbrev pub Failed : RecoveryError → World S → Type 0
  Failed e w = IsOriginal t w ⊎ (IsRollbackRecoveryFailed e × (w.journal ≡ present t.journal))

  Failed-of_Safe :
      (a b c : RecoveryError) (w : World S)
      → Safe t Unit w
      → Failed (rollback_recovery_failed a b c) w
  Failed-of_Safe a b c w (inl o) = inl o
  Failed-of_Safe a b c w (inr (_, h)) = inr (tt, h)

  recover_rollback-After :
      (watchdog : WatchdogHandle) (apply_error rollback_error : RecoveryError) (w : World S)
      → Ended t Unit watchdog w
      → (Q : ProxySession S → World S → Type 0)
      → After Q Failed (recover_rollback t.backend_for watchdog apply_error rollback_error w)
  unfolding recover_rollback
  recover_rollback-After watchdog a b w h Q =
      After-handle _ _ (recover_now t.backend_for watchdog w) (
        After-weaken _ (λ _ _ k. record { outcome = inl k })
          (λ c w' k. record { outcome = Failed-of_Safe a b c w' k })
          (recover_now-After t Unit watchdog w h))

  removed :
      {Q : ProxySession S → World S → Type 0} (e : RecoveryError) (w : World S)
      → IsOriginal t w
      → After Q Failed ((ignoring remove_if_exists >> raise e) w)
  removed {Q} e w o = After-continue _ (ignoring remove_if_exists w) (
      After-ignoring {P = λ w'. After Q Failed (raise e w')} remove_if_exists w (
        remove_if_exists-After w (λ _. record { outcome = inl o })
          (λ _. record { outcome = inl o })))

  -- The clean-up after a rollback does no harm to the restored system.
  clean_up-After :
      (watchdog : WatchdogHandle) (apply_error : RecoveryError) (w : World S)
      → watchdog.armed_journal ≡ t.journal
      → IsOriginal t w
      → (Q : ProxySession S → World S → Type 0)
      → After Q Failed (
          (do
            ignoring mark_restored
            ignoring (disarm t.backend_for watchdog)
            ignoring remove_if_exists
            raise apply_error)
            w)
  clean_up-After watchdog e w a o Q = After-continue _ (ignoring mark_restored w) (
      After-ignoring mark_restored w (
        After-weaken _ (λ _ w1 k. disarmed w1 k) (λ _ w1 k. disarmed w1 k)
          (mark_restored-After t w o)))
    where
      disarmed :
          (w1 : World S)
          → IsOriginal t w1
          → After Q Failed (
              (ignoring (disarm t.backend_for watchdog) >> (ignoring remove_if_exists >> raise e))
                w1)
      disarmed w1 k = After-continue _ (ignoring (disarm t.backend_for watchdog) w1) (
          After-ignoring (disarm t.backend_for watchdog) w1 (
            After-weaken _ (λ _ w2 k2. removed e w2 (IsOriginal-of_Safe t w2 k2.0)) (λ _ _ k2. k2)
              (disarm-After t ⊥ watchdog w1 (inl k, λ _. k, a)
                (λ _ w2. After Q Failed ((ignoring remove_if_exists >> raise e) w2)))))

  roll_back-After :
      (watchdog : WatchdogHandle) (apply_error : RecoveryError) (w : World S)
      → watchdog.armed_journal ≡ t.journal
      → watchdog.status ≡ none
      → w.journal ≡ present t.journal
      → (Q : ProxySession S → World S → Type 0)
      → After Q Failed (roll_back t.backend_for t.backend t.journal.original watchdog apply_error w)
  unfolding roll_back
  roll_back-After watchdog e w a n h Q =
      After-handle _ _ (on_system (t.backend.restore t.journal.original) w) (
        After-weaken _ (λ _ w' k. clean_up-After watchdog e w' a k Q)
          (λ r w' k. recover_rollback-After watchdog e r w' (k, λ q. absurd (cc (q, n)), a) Q)
          (restore_by-After t Unit w (inr (tt, h))))

  apply_desired-After :
      (desired : ProxySettings) (watchdog : WatchdogHandle) (w : World S)
      → watchdog.armed_journal ≡ t.journal
      → watchdog.status ≡ none
      → w.journal ≡ present t.journal
      → After
          (λ session w'. Holds t Unit session w' × (w'.journal ≡ present t.journal))
          Failed
          (apply_desired t.backend_for t.backend desired t.journal.original watchdog w)
  unfolding apply_desired
  apply_desired-After desired watchdog w a n h =
      After-handle _ _ (on_system (t.backend.apply desired) w) (
        on_system-After (t.backend.apply desired) w
          (λ _. record {
            outcome = (
              record {
                backend_lem = refl;
                original_lem = refl;
                watched_lem = (inr (tt, h), λ q. absurd (cc (q, n)), a);
                restored_lem = λ q. absurd (cc);
              },
              h,
            );
          })
          (λ e _. roll_back-After watchdog e _ a n h _))

  -- `begin` from a system with its original settings, whatever faults occur: if it succeeds, the
  -- session holds and the armed journal is there; if it fails, the system has its original
  -- settings, or the error says that the rollback and the watchdog failed and the armed journal is
  -- there.
  pub begin_with-After :
      (desired : ProxySettings) (w : World S)
      → IsOriginal t w
      → After
          (λ session w'. Holds t Unit session w' × (w'.journal ≡ present t.journal))
          Failed
          (begin_with t.backend_for t.backend desired t.journal w)
  unfolding begin_with
  begin_with-After desired w o = After-continue _ (write_journal t.journal w) (
      write_journal-After t.journal w
        (λ fs. After-handle _ _ (spawn (record w { journal = present t.journal; faults = fs })) (
          After-weaken _ (λ watchdog w' k. apply_desired-After desired watchdog w' k.2 k.3 k.1)
            (λ e w' k. removed e w' (subst t.Original (sym k) o))
            (spawn-After w.system t.journal _ refl refl)))
        (λ _. inl o))
