-- ===== src/Recovery/Restores.antt =====
-- `restore_inner`, the drop and `restore` of a session under the invariant of a transaction.
use code_is_cheap.Common.{
  true, Option, none, some, Result, ok, err, ◌≡◌, refl, inl, inr, ◌∙◌, err_ne_ok,
}
use code_is_cheap.Recovery.{RecoveryError, restore_retry_failed}
use code_is_cheap.Recovery.World.{World, ◌>>◌, change_error}
use code_is_cheap.Recovery.Watchdog.{WatchdogHandle, drop_stdin}
use code_is_cheap.Recovery.Session.{
  ProxySession, restore_original, restore_inner, drop_watchdog, drop_session, retry_restore,
  restore,
}
use code_is_cheap.Recovery.Outcomes.{
  After, After-weaken, After-continue, After-handle, After-if, on_system-After,
}
use code_is_cheap.Recovery.Contract.{Transaction, Safe, IsOriginal}
use code_is_cheap.Recovery.Handles.{drop_stdin-After}
use code_is_cheap.Recovery.Invariant.{
  failing_as-After, Watched, Watched-of_original, Watched-original, Done, Holds, Settled,
  mark_restored-After, disarm_session-After,
}

module _ {S : Type 0} (t : Transaction S) where
  restore-Watched :
      (F : Type 0) (o : Option WatchdogHandle) (w : World S) (faulted : World S)
      → faulted.journal ≡ w.journal
      → (t.Original w.system → t.Original faulted.system)
      → Watched t F o w
      → Watched t F o faulted
  restore-Watched F none w w' e k (inl h) = inl (k h)
  restore-Watched F none w w' e k (inr h) = inr (h.0, e ∙ h.1)
  restore-Watched F (some watchdog) w w' e k (inl h, o, a) = (inl (k h), λ q. k (o q), a)
  restore-Watched F (some watchdog) w w' e k (inr h, o, a) = (inr (h.0, e ∙ h.1), λ q. k (o q), a)

  restore_original-After :
      (F : Type 0) (session : ProxySession S) (w : World S)
      → session.backend ≡ t.backend
      → session.original ≡ t.journal.original
      → Watched t F session.watchdog w
      → After
          (λ _ w'. IsOriginal t w' × Watched t F session.watchdog w')
          (λ _ w'. Watched t F session.watchdog w')
          (restore_original session w)
  unfolding restore_original
  restore_original-After F session w b o h =
      rw (b, o)
        (After-continue _ _ (
          failing_as-After _ _ (
            on_system-After (t.backend.restore t.journal.original) w
              (λ e. failing_as-After _ _ (
                After-weaken _ (λ _ w' k. (k, Watched-of_original t F session.watchdog w w' h k))
                  (λ _ w' k. Watched-of_original t F session.watchdog w w' h k)
                  (mark_restored-After t _ (t.restore_lem w.system e))))
              (λ _ _. restore-Watched F session.watchdog w _ refl (t.keeps_lem w.system) h))))

  pub restore_inner-After :
      (F : Type 0) (session : ProxySession S) (w : World S)
      → Holds t F session w
      → (E : RecoveryError → World S → Type 0)
      → After (λ r w'. Settled t F r w') E (restore_inner t.backend_for session w)
  unfolding restore_inner
  restore_inner-After F session w h E =
      After-if session.restored _ _ w (λ e. record { outcome = (λ _. e, h) })
        (λ f. After-handle _ _ (restore_original session w) (
          After-weaken _
            (λ _ w' k.
              disarm_session-After t F session session.watchdog w' refl f h.backend_lem
                h.original_lem (Watched-original t F session.watchdog w' k.1 k.0) E)
            (λ _ w' k. record {
              outcome = (
                λ e. absurd (err_ne_ok e),
                record {
                  backend_lem = h.backend_lem;
                  original_lem = h.original_lem;
                  watched_lem = k;
                  restored_lem = λ e. absurd (cc (e, f));
                },
              );
            })
            (restore_original-After F session w h.backend_lem h.original_lem h.watched_lem)))

  drop_watchdog-After :
      (F : Type 0) (o : Option WatchdogHandle) (w : World S)
      → Watched t F o w
      → (E : RecoveryError → World S → Type 0)
      → After (λ _ w'. Safe t F w') E (drop_watchdog t.backend_for o w)
  drop_watchdog-After F none w h E = record { outcome = h }
  drop_watchdog-After F (some watchdog) w h E =
      After-continue _ (drop_stdin t.backend_for watchdog w) (
        After-weaken _ (λ _ _ k. record { outcome = k.0 }) (λ _ _ k. k)
          (drop_stdin-After t F watchdog w h E))

  drop_watchdog-none :
      (o : Option WatchdogHandle) (w : World S)
      → o ≡ none
      → drop_watchdog t.backend_for o w ≡ (ok tt, w)
  drop_watchdog-none none w e = refl
  drop_watchdog-none (some watchdog) w e = absurd (cc)

  pub drop_session-After :
      (F : Type 0) (session : ProxySession S) (w : World S)
      → Holds t F session w
      → (E : RecoveryError → World S → Type 0)
      → After (λ _ w'. Safe t F w') E (drop_session t.backend_for session w)
  unfolding drop_session
  drop_session-After F session w h E = After-continue _ (restore_inner t.backend_for session w) (
      After-weaken _ (λ r w' k. drop_watchdog-After F r.1.watchdog w' k.1.watched_lem E)
        (λ _ _ k. k) (restore_inner-After F session w h E))

  drop_session_again :
      (F : Type 0) (session : ProxySession S) (w : World S)
      → Holds t F session w
      → session.restored ≡ true
      → drop_session t.backend_for session w ≡ (ok tt, w)
  unfolding drop_session restore_inner
  drop_session_again F session w h e =
      simp (e) (drop_watchdog-none session.watchdog w (h.restored_lem e).1)

  change_error-ok :
      (f : RecoveryError → RecoveryError) (r : Result RecoveryError (Unit {0}))
      → change_error f r ≡ ok tt
      → r ≡ ok tt
  change_error-ok f (ok _) e = refl
  change_error-ok f (err x) e = absurd (err_ne_ok e)

  retry_restore-After :
      (F : Type 0) (first : Result RecoveryError (Unit {0}) × ProxySession S) (w : World S)
      → Settled t F first w
      → (E : RecoveryError → World S → Type 0)
      → After (λ r w'. Settled t F r w') E (retry_restore t.backend_for first w)
  retry_restore-After F (ok _, session) w h E = record { outcome = h }
  retry_restore-After F (err e, session) w h E =
      After-handle _ _ (restore_inner t.backend_for session w) (
        After-weaken _
          (λ r w' k. record {
            outcome = (λ q. k.0 (change_error-ok (restore_retry_failed e) r.0 q), k.1);
          })
          (λ _ _ k. record { outcome = k }) (restore_inner-After F session w h.1 E))

  drop_last-After :
      (F : Type 0) (last : Result RecoveryError (Unit {0}) × ProxySession S) (w : World S)
      → Settled t F last w
      → After
          (λ _ w'. Done t w')
          (λ _ w'. Safe t F w')
          ((drop_session t.backend_for last.1 >> λ w'. (last.0, w')) w)
  drop_last-After F (ok _, session) w h =
      rw (drop_session_again F session w h.1 (h.0 refl))
        (record { outcome = (h.1.restored_lem (h.0 refl)).0 })
  drop_last-After F (err e, session) w h = After-continue _ (drop_session t.backend_for session w) (
      After-weaken _ (λ _ _ k. record { outcome = k }) (λ _ _ k. k)
        (drop_session-After F session w h.1 (λ _ w'. Safe t F w')))

  -- Whatever faults occur, `restore` of a session that holds leaves the system with its original
  -- settings and no journal if it succeeds; if it fails, the system has its original settings, or
  -- `F` and the armed journal is still there.
  pub restore-After :
      (F : Type 0) (session : ProxySession S) (w : World S)
      → Holds t F session w
      → After (λ _ w'. Done t w') (λ _ w'. Safe t F w') (restore t.backend_for session w)
  unfolding restore
  restore-After F session w h = After-continue _ (restore_inner t.backend_for session w) (
      After-weaken _
        (λ first w1 k. After-continue _ (retry_restore t.backend_for first w1) (
          After-weaken _ (λ last w2 k'. drop_last-After F last w2 k') (λ _ _ k'. k')
            (retry_restore-After F first w1 k (λ _ w'. Safe t F w'))))
        (λ _ _ k. k) (restore_inner-After F session w h (λ _ w'. Safe t F w')))
