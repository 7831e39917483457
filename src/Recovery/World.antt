-- ===== src/Recovery/World.antt =====
-- The state that the recovery code works on, and the actions that read and write it. Every file
-- operation first asks `faults` whether it fails; a list that has run out means that it does not.
use code_is_cheap.Common.{Bool, true, false, List, [], ◌∷◌, Result, ok, err}
use code_is_cheap.Recovery.{RecoveryJournal, RecoveryError, io}

-- What stands at the path of the journal.
pub data JournalFile : Type 0 where
  missing : JournalFile
  corrupt : JournalFile
  present : RecoveryJournal → JournalFile

pub record World (S : Type 0) : Type 0 where
  pub system : S
  pub journal : JournalFile
  pub faults : List Bool

-- An action that may fail; what it changed before it failed stays changed.
abbrev pub Action : Type 0 → Type 0 → Type 0
Action S A = World S → Result RecoveryError A × World S

-- `map_err`
abbrev pub change_error :
    {A : Type 0} → (RecoveryError → RecoveryError) → Result RecoveryError A → Result RecoveryError A
change_error f (ok a) = ok a
change_error f (err e) = err (f e)

abbrev pub next_fault : List Bool → Bool
next_fault [] = false
next_fault (b ∷ bs) = b

abbrev pub rest_faults : List Bool → List Bool
rest_faults [] = []
rest_faults (b ∷ bs) = bs

abbrev pub fault_result : Bool → Result RecoveryError (Unit {0})
fault_result true = err io
fault_result false = ok tt

module _ {S A : Type 0} where
  abbrev pub pure : A → Action S A
  pure a w = (ok a, w)

  abbrev pub raise : RecoveryError → Action S A
  raise e w = (err e, w)

  abbrev pub failing_as : (RecoveryError → RecoveryError) → Action S A → Action S A
  failing_as f m w = let (r, w') = m w in (change_error f r, w')

  -- `let _ = action;`
  abbrev pub ignoring : Action S A → Action S (Unit {0})
  ignoring m w = let (r, w') = m w in (ok tt, w')

module _ {S A B : Type 0} where
  abbrev pub continue :
      (A → Action S B) → Result RecoveryError A × World S → Result RecoveryError B × World S
  continue f (ok a, w) = f a w
  continue f (err e, w) = (err e, w)

  infixl 5 ◌>>=◌
  abbrev pub ◌>>=◌ : Action S A → (A → Action S B) → Action S B
  ◌>>=◌ m f w = continue f (m w)

  -- `match action { Ok(a) => .., Err(e) => .. }`
  abbrev pub handle :
      (RecoveryError → Action S B)
      → (A → Action S B)
      → Result RecoveryError A × World S
      → Result RecoveryError B × World S
  handle g f (ok a, w) = f a w
  handle g f (err e, w) = g e w

module _ {S B : Type 0} where
  infixl 5 ◌>>◌
  abbrev pub ◌>>◌ : Action S (Unit {0}) → Action S B → Action S B
  m >> n = m >>= λ _. n

module _ {S : Type 0} where
  -- The operating system's answer to the next operation.
  abbrev pub attempt : Action S (Unit {0})
  attempt w = (fault_result (next_fault w.faults), record w { faults = rest_faults w.faults })

  abbrev pub on_system : (S → Result RecoveryError (Unit {0}) × S) → Action S (Unit {0})
  on_system f w = let (r, s) = f w.system in (r, record w { system = s })

  abbrev pub put_journal : JournalFile → Action S (Unit {0})
  put_journal file w = (ok tt, record w { journal = file })

  abbrev pub journal_file : Action S JournalFile
  journal_file w = (ok w.journal, w)
