-- ===== src/Recovery/Invariant.antt =====
-- The invariant of a session of a transaction, and the last steps of `restore_inner` under it.
use code_is_cheap.Common.{
  true, false, Option, none, some, Result, ok, err, ◌≡◌, refl, inl, inr, err_ne_ok,
}
use code_is_cheap.Recovery.{RecoveryError}
use code_is_cheap.Recovery.World.{World, missing, change_error}
use code_is_cheap.Recovery.Files.{load_journal, mark_restored, remove_if_exists}
use code_is_cheap.Recovery.Watchdog.{WatchdogHandle, disarm}
use code_is_cheap.Recovery.Session.{
  ProxySession, remove_session_journal, settle_disarmed, disarm_session,
}
use code_is_cheap.Recovery.Outcomes.{
  After, After-weaken, After-continue, After-handle, write_journal-After, remove_if_exists-After,
  load_journal-After,
}
use code_is_cheap.Recovery.Contract.{Transaction, Safe, IsOriginal, Ended}
use code_is_cheap.Recovery.Handles.{disarm-After}

module _ {S A : Type 0} where
  pub failing_as-After :
      {Q : A → World S → Type 0} {P : World S → Type 0} (f : RecoveryError → RecoveryError)
      (r : Result RecoveryError A × World S)
      → After Q (λ _ w. P w) r
      → After Q (λ _ w. P w) (change_error f r.0, r.1)
  failing_as-After f (ok a, w) h = record { outcome = h.outcome }
  failing_as-After f (err e, w) h = record { outcome = h.outcome }

module _ {S : Type 0} (t : Transaction S) where
  abbrev pub Watched : Type 0 → Option WatchdogHandle → World S → Type 0
  Watched F none w = Safe t F w
  Watched F (some watchdog) w = Ended t F watchdog w

  pub Watched-of_original :
      (F : Type 0) (o : Option WatchdogHandle) (w w' : World S)
      → Watched F o w
      → IsOriginal t w'
      → Watched F o w'
  Watched-of_original F none w w' h k = inl k
  Watched-of_original F (some watchdog) w w' h k = (inl k, λ _. k, h.2)

  -- Once the original settings stand, the journal is not needed any more.
  pub Watched-original :
      (F : Type 0) (o : Option WatchdogHandle) (w : World S)
      → Watched F o w
      → IsOriginal t w
      → Watched ⊥ o w
  Watched-original F none w h k = inl k
  Watched-original F (some watchdog) w h k = (inl k, λ _. k, h.2)

  Watched-of_none :
      (F : Type 0) (o : Option WatchdogHandle) (w : World S)
      → o ≡ none
      → IsOriginal t w
      → Watched F o w
  Watched-of_none F none w e k = inl k
  Watched-of_none F (some watchdog) w e k = absurd (cc)

  pub Safe-of_Watched :
      (F : Type 0) (o : Option WatchdogHandle) (w : World S) → Watched F o w → Safe t F w
  Safe-of_Watched F none w h = h
  Safe-of_Watched F (some watchdog) w h = h.0

  -- The original settings stand and the journal is gone.
  abbrev pub Done : World S → Type 0
  Done w = IsOriginal t w × (w.journal ≡ missing)

  -- A session of this transaction.
  pub record Holds (F : Type 0) (session : ProxySession S) (w : World S) : Type 0 where
    pub backend_lem : session.backend ≡ t.backend
    pub original_lem : session.original ≡ t.journal.original
    pub watched_lem : Watched F session.watchdog w
    pub restored_lem : session.restored ≡ true → Done w × (session.watchdog ≡ none)

  -- What a run of `restore_inner` leaves.
  abbrev pub Settled : Type 0 → Result RecoveryError (Unit {0}) × ProxySession S → World S → Type 0
  Settled F r w = ((r.0 ≡ ok tt) → (r.1.restored ≡ true)) × Holds F r.1 w

  pub IsOriginal-of_Safe : (w : World S) → Safe t ⊥ w → IsOriginal t w
  IsOriginal-of_Safe w (inl o) = o
  IsOriginal-of_Safe w (inr h) = absurd h.0

  pub mark_restored-After :
      (w : World S)
      → IsOriginal t w
      → After (λ _ w'. IsOriginal t w') (λ _ w'. IsOriginal t w') (mark_restored w)
  unfolding mark_restored
  mark_restored-After w o = After-continue _ (load_journal w) (
      load_journal-After w
        (λ j fs _. write_journal-After _ (record w { faults = fs }) (λ _. o) (λ _. o)) (λ _ _. o))

  remove_session_journal-After :
      (F : Type 0) (session : ProxySession S) (w : World S)
      → session.restored ≡ false
      → session.backend ≡ t.backend
      → session.original ≡ t.journal.original
      → session.watchdog ≡ none
      → IsOriginal t w
      → (E : RecoveryError → World S → Type 0)
      → After (λ r w'. Settled F r w') E (remove_session_journal session w)
  unfolding remove_session_journal
  remove_session_journal-After F session w f b o q orig E = After-handle _ _ (remove_if_exists w) (
      remove_if_exists-After w
        (λ fs. record {
          outcome = (
            λ _. refl,
            record {
              backend_lem = b;
              original_lem = o;
              watched_lem = Watched-of_none F session.watchdog _ q orig;
              restored_lem = λ _. ((orig, refl), q);
            },
          );
        })
        (λ fs. record {
          outcome = (
            λ e. absurd (err_ne_ok e),
            record {
              backend_lem = b;
              original_lem = o;
              watched_lem = Watched-of_none F session.watchdog _ q orig;
              restored_lem = λ e. absurd (cc (e, f));
            },
          );
        }))

  settle_disarmed-After :
      (F : Type 0) (session : ProxySession S) (w : World S)
      (disarmed : Result RecoveryError (Unit {0}) × WatchdogHandle)
      → session.restored ≡ false
      → session.backend ≡ t.backend
      → session.original ≡ t.journal.original
      → Ended t ⊥ disarmed.1 w
      → (E : RecoveryError → World S → Type 0)
      → After (λ r w'. Settled F r w') E (settle_disarmed session disarmed w)
  settle_disarmed-After F session w (err e, watchdog) f b o h E = record {
    outcome = (
      λ e. absurd (err_ne_ok e),
      record {
        backend_lem = b;
        original_lem = o;
        watched_lem = (inl (IsOriginal-of_Safe w h.0), λ _. IsOriginal-of_Safe w h.0, h.2);
        restored_lem = λ e. absurd (cc (e, f));
      },
    );
  }
  settle_disarmed-After F session w (ok _, watchdog) f b o h E =
      remove_session_journal-After F (record session { watchdog = none }) w f b o refl
        (IsOriginal-of_Safe w h.0) E

  pub disarm_session-After :
      (F : Type 0) (session : ProxySession S) (watchdog : Option WatchdogHandle) (w : World S)
      → session.watchdog ≡ watchdog
      → session.restored ≡ false
      → session.backend ≡ t.backend
      → session.original ≡ t.journal.original
      → Watched ⊥ watchdog w
      → (E : RecoveryError → World S → Type 0)
      → After (λ r w'. Settled F r w') E (disarm_session t.backend_for session watchdog w)
  unfolding disarm_session
  disarm_session-After F session none w q f b o h E =
      remove_session_journal-After F session w f b o q (IsOriginal-of_Safe w h) E
  disarm_session-After F session (some watchdog) w q f b o h E =
      After-continue _ (disarm t.backend_for watchdog w) (
        After-weaken _ (λ disarmed w' k. settle_disarmed-After F session w' disarmed f b o k E)
          (λ _ _ k. k) (disarm-After t ⊥ watchdog w h E))
