-- ===== src/Recovery/Outcomes.antt =====
-- What a proxy backend promises, and reasoning about actions: what holds after each of them, with
-- `Q` for a result and `E` for an error.
use code_is_cheap.Common.{
  Bool, true, false, if◌then◌else◌, List, Result, ok, err, ◌≡◌, refl, inl, inr, Bool-cases,
  Result-cases,
}
use code_is_cheap.Recovery.{RecoveryJournal, RecoveryError, io, json, recovery_journal_version}
use code_is_cheap.Text.{text_eq}
use code_is_cheap.Recovery.World.{
  World, JournalFile, missing, corrupt, present, Action, continue, handle, ignoring, attempt,
  fault_result, next_fault, on_system, put_journal,
}
use code_is_cheap.Recovery.Files.{
  decode, load_journal, validate_journal, write_journal, remove_if_exists,
}

module _ {S A : Type 0} where
  abbrev pub Outcome :
      (A → World S → Type 0)
      → (RecoveryError → World S → Type 0)
      → Result RecoveryError A × World S
      → Type 0
  Outcome Q E (ok a, w) = Q a w
  Outcome Q E (err e, w) = E e w

pub record After {S A : Type 0} (Q : A → World S → Type 0) (E : RecoveryError → World S → Type 0)
    (r : Result RecoveryError A × World S) : Type 0 where
  pub outcome : Outcome Q E r

module _ {S A : Type 0} where
  pub After-weaken :
      {Q Q' : A → World S → Type 0} {E E' : RecoveryError → World S → Type 0}
      (r : Result RecoveryError A × World S)
      → ((a : A) (w : World S) → Q a w → Q' a w)
      → ((e : RecoveryError) (w : World S) → E e w → E' e w)
      → After Q E r
      → After Q' E' r
  After-weaken (ok a, w) f g h = record { outcome = f a w h.outcome }
  After-weaken (err e, w) f g h = record { outcome = g e w h.outcome }

module _ {S A : Type 0} where
  pub After-always :
      {P : World S → Type 0} (r : Result RecoveryError A × World S)
      → After (λ _ w. P w) (λ _ w. P w) r
      → P r.1
  After-always (ok a, w) h = h.outcome
  After-always (err e, w) h = h.outcome

  pub After-ignoring :
      {P : World S → Type 0} {E : RecoveryError → World S → Type 0} (m : Action S A) (w : World S)
      → After (λ _ w. P w) (λ _ w. P w) (m w)
      → After (λ _ w. P w) E (ignoring m w)
  After-ignoring m w h = record { outcome = After-always (m w) h }

  pub After-if :
      {Q : A → World S → Type 0} {E : RecoveryError → World S → Type 0} (b : Bool)
      (m n : Action S A) (w : World S)
      → (b ≡ true → After Q E (m w))
      → (b ≡ false → After Q E (n w))
      → After Q E ((if b then m else n) w)
  After-if true m n w h k = h refl
  After-if false m n w h k = k refl

module _ {S A B : Type 0} {Q : B → World S → Type 0} {E : RecoveryError → World S → Type 0} where
  pub After-continue :
      (f : A → Action S B) (r : Result RecoveryError A × World S)
      → After (λ a w. After Q E (f a w)) E r
      → After Q E (continue f r)
  After-continue f (ok a, w) h = h.outcome
  After-continue f (err e, w) h = record { outcome = h.outcome }

  pub After-handle :
      (g : RecoveryError → Action S B) (f : A → Action S B) (r : Result RecoveryError A × World S)
      → After (λ a w. After Q E (f a w)) (λ e w. After Q E (g e w)) r
      → After Q E (handle g f r)
  After-handle g f (ok a, w) h = h.outcome
  After-handle g f (err e, w) h = h.outcome

module _ {S : Type 0} {Q : Unit {0} → World S → Type 0} {E : RecoveryError → World S → Type 0} where
  fault-After : (b : Bool) (w : World S) → Q tt w → E io w → After Q E (fault_result b, w)
  fault-After true w q e = record { outcome = e }
  fault-After false w q e = record { outcome = q }

  pub attempt-After :
      (w : World S)
      → ((faults : List Bool) → Q tt (record w { faults = faults }))
      → ((faults : List Bool) → E io (record w { faults = faults }))
      → After Q E (attempt w)
  attempt-After w q e = fault-After (next_fault w.faults) _ (q _) (e _)

module _ {S : Type 0} {Q : Unit {0} → World S → Type 0} {E : RecoveryError → World S → Type 0} where
  pub write_journal-After :
      (journal : RecoveryJournal) (w : World S)
      → ((faults : List Bool) → Q tt (record w { journal = present journal; faults = faults }))
      → ((faults : List Bool) → E io (record w { faults = faults }))
      → After Q E (write_journal journal w)
  unfolding write_journal
  write_journal-After journal w q e =
      After-continue (λ _. put_journal (present journal)) (attempt w)
        (attempt-After w (λ fs. record { outcome = q fs }) e)

  pub remove_if_exists-After :
      (w : World S)
      → ((faults : List Bool) → Q tt (record w { journal = missing; faults = faults }))
      → ((faults : List Bool) → E io (record w { faults = faults }))
      → After Q E (remove_if_exists w)
  unfolding remove_if_exists
  remove_if_exists-After w q e =
      After-continue (λ _. put_journal missing) (attempt w)
        (attempt-After w (λ fs. record { outcome = q fs }) e)

module _ {S : Type 0} {Q : RecoveryJournal → World S → Type 0}
    {E : RecoveryError → World S → Type 0} where
  decode-After :
      (file : JournalFile) (w : World S)
      → ((journal : RecoveryJournal) → file ≡ present journal → Q journal w)
      → ((e : RecoveryError) → E e w)
      → After Q E (decode file w)
  decode-After missing w q e = record { outcome = e io }
  decode-After corrupt w q e = record { outcome = e json }
  decode-After (present journal) w q e = record { outcome = q journal refl }

  pub load_journal-After :
      (w : World S)
      → ((journal : RecoveryJournal) (faults : List Bool)
          → w.journal ≡ present journal
          → Q journal (record w { faults = faults }))
      → ((e : RecoveryError) (faults : List Bool) → E e (record w { faults = faults }))
      → After Q E (load_journal w)
  unfolding load_journal
  load_journal-After w q e =
      After-continue (λ _ w'. decode w'.journal w') (attempt w)
        (attempt-After w
          (λ fs. decode-After w.journal (record w { faults = fs }) (λ j. q j fs) (λ x. e x fs))
          (e io))

module _ {S : Type 0} {Q : Unit {0} → World S → Type 0} {E : RecoveryError → World S → Type 0} where
  pub validate_journal-After :
      (journal : RecoveryJournal) (w : World S)
      → Q tt w
      → ((e : RecoveryError) → E e w)
      → After Q E (validate_journal journal w)
  unfolding validate_journal
  validate_journal-After journal w q e =
      elim (Bool-cases (text_eq journal.version recovery_journal_version)) [
        | inl h ↦ rw h (record { outcome = q })
        | inr h ↦ rw h (record { outcome = e _ })
      ]

  pub on_system-After :
      (f : S → Result RecoveryError (Unit {0}) × S) (w : World S)
      → ((f w.system).0 ≡ ok tt → Q tt (record w { system = (f w.system).1 }))
      → ((e : RecoveryError) → (f w.system).0 ≡ err e → E e (record w { system = (f w.system).1 }))
      → After Q E (on_system f w)
  on_system-After f w q e = elim (Result-cases (f w.system).0) [
    | inl (_, h) ↦ rw h (record { outcome = q h })
    | inr (x, h) ↦ rw h (record { outcome = e x h })
  ]
