-- ===== src/Recovery/Handles.antt =====
-- The operations of the watchdog's handle under the invariant of a transaction.
use code_is_cheap.Common.{Bool, true, false, Option, none, some, Result, ok, err, ◌≡◌, refl, List}
use code_is_cheap.Text.{text}
use code_is_cheap.Recovery.{RecoveryError}
use code_is_cheap.Recovery.World.{World, attempt}
use code_is_cheap.Recovery.Watchdog.{
  WatchdogHandle, check_status, close_stdin, send_disarm, wait, wait_after, disarm, drop_stdin,
  recover_now,
}
use code_is_cheap.Recovery.Outcomes.{
  After, After-weaken, After-always, After-if, After-continue, After-handle, attempt-After,
}
use code_is_cheap.Recovery.Contract.{Transaction, Safe, IsOriginal, Ended, close_stdin-After}

module _ {S : Type 0} {Q : Unit {0} → World S → Type 0} {E : RecoveryError → World S → Type 0} where
  check_status-After :
      (status : Option Bool) (w : World S)
      → ((status ≡ some true) → Q tt w)
      → ((e : RecoveryError) → E e w)
      → After Q E (check_status status, w)
  check_status-After none w q e = record { outcome = e _ }
  check_status-After (some true) w q e = record { outcome = q refl }
  check_status-After (some false) w q e = record { outcome = e _ }

  wait-After :
      (watchdog : WatchdogHandle) (w : World S)
      → ((faults : List Bool) → (watchdog.status ≡ some true) → Q tt (record w { faults = faults }))
      → ((e : RecoveryError) (faults : List Bool) → E e (record w { faults = faults }))
      → After Q E (wait watchdog w)
  unfolding wait
  wait-After watchdog w q e =
      After-continue _ (attempt w)
        (attempt-After w (λ fs. check_status-After watchdog.status _ (q fs) (λ x. e x fs)) (e _))

module _ {S : Type 0} (t : Transaction S) where
  pub drop_stdin-After :
      (F : Type 0) (watchdog : WatchdogHandle) (w : World S)
      → Ended t F watchdog w
      → (E : RecoveryError → World S → Type 0)
      → After (λ watchdog' w'. Ended t F watchdog' w') E (drop_stdin t.backend_for watchdog w)
  unfolding drop_stdin
  drop_stdin-After F watchdog w (h, s, e) E =
      After-if watchdog.stdin _ _ w
        (λ _.
          After-weaken _ (λ _ _ k. k.0) (λ _ _ k. k)
            (close_stdin-After t F (text "") watchdog w e h E))
        (λ _. record { outcome = (h, s, e) })

  pub recover_now-After :
      (F : Type 0) (watchdog : WatchdogHandle) (w : World S)
      → Ended t F watchdog w
      → After (λ _ w'. IsOriginal t w') (λ _ w'. Safe t F w') (recover_now t.backend_for watchdog w)
  unfolding recover_now
  recover_now-After F watchdog w h = After-continue _ (drop_stdin t.backend_for watchdog w) (
      After-weaken _ (λ watchdog' w' k. wait-After watchdog' w' (λ _ e. k.1 e) (λ _ _. k.0))
        (λ _ _ k. k) (drop_stdin-After F watchdog w h (λ _ w'. Safe t F w')))

  send_disarm-After :
      (F : Type 0) (watchdog : WatchdogHandle) (w : World S)
      → Ended t F watchdog w
      → (E : RecoveryError → World S → Type 0)
      → After (λ sent w'. Ended t F sent.1 w') E (send_disarm t.backend_for watchdog w)
  unfolding send_disarm
  send_disarm-After F watchdog w (h, s, e) E = After-handle _ _ (attempt w) (
      attempt-After w
        (λ fs.
          After-continue _
            (close_stdin t.backend_for (text "disarm") watchdog (record w { faults = fs }))
            (After-weaken _ (λ _ _ k. record { outcome = k.0 }) (λ _ _ k. k)
              (close_stdin-After t F (text "disarm") watchdog (record w { faults = fs }) e h E)))
        (λ fs.
          After-continue _ (close_stdin t.backend_for (text "") watchdog (record w { faults = fs }))
            (After-weaken _ (λ _ _ k. record { outcome = k.0 }) (λ _ _ k. k)
              (close_stdin-After t F (text "") watchdog (record w { faults = fs }) e h E))))

  wait_after-After :
      (F : Type 0) (sent : Result RecoveryError (Unit {0}) × WatchdogHandle) (w : World S)
      → Ended t F sent.1 w
      → (E : RecoveryError → World S → Type 0)
      → After (λ disarmed w'. Ended t F disarmed.1 w') E (wait_after sent w)
  wait_after-After F (err e, watchdog) w h E = record { outcome = h }
  wait_after-After F (ok _, watchdog) w h E = record {
    outcome =
        After-always {P = Ended t F watchdog} (wait watchdog w)
          (wait-After watchdog w (λ _ _. h) (λ _ _. h));
  }

  pub disarm-After :
      (F : Type 0) (watchdog : WatchdogHandle) (w : World S)
      → Ended t F watchdog w
      → (E : RecoveryError → World S → Type 0)
      → After (λ disarmed w'. Ended t F disarmed.1 w') E (disarm t.backend_for watchdog w)
  unfolding disarm
  disarm-After F watchdog w h E = After-continue wait_after _ (
      After-weaken _ (λ sent w' k. wait_after-After F sent w' k E) (λ _ _ k. k)
        (After-if watchdog.stdin _ _ w (λ _. send_disarm-After F watchdog w h E)
          (λ _. record { outcome = h })))
