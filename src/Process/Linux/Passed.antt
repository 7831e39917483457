-- ===== src/Process/Linux/Passed.antt =====
-- crates/process-attribution/src/linux.rs: what find_unique_owner passes over before it names a
-- process.
use code_is_cheap.Common.{
  ℕ, ◌≡◌, refl, ◌⊎◌, inl, inr, Bool, true, false, Option, none, some, List, [], ◌∷◌, ltb, length,
  All, Result, ok, err, >>=-eq-ok, err_ne_ok, ok_injective,
}
use code_is_cheap.Text.{Text}
use code_is_cheap.Process.{
  IoError, not_found, permission_denied, other_error, ProcessAttributionError, io,
}
use code_is_cheap.Process.Linux.{
  transient_proc_error, Descriptor, ProcEntry, Processes, process_id_of, scan_descriptors,
  insert_owner, visit_process, scan_processes, socket_link, find_unique_owner,
}

abbrev pub IsTransient : IoError → Type 0
IsTransient error = (error ≡ not_found) ⊎ (error ≡ permission_denied)

-- What is read, and what cannot be read, since it is not there any more or permission is denied.
-- Entries that are no process are not read.
abbrev pub IsReadOrPassed : Result IoError ProcEntry → Type 0
IsReadOrPassed (err error) = IsTransient error
IsReadOrPassed (ok process) = elim process.descriptors [
  | ok descriptors ↦ Unit
  | err error ↦ (process_id_of process.file_name ≡ none) ⊎ IsTransient error
]

abbrev pub AreReadOrPassed : Processes → Type 0
AreReadOrPassed (ok processes) = All IsReadOrPassed processes
AreReadOrPassed (err error) = ⊥

IsTransient-of : (error : IoError) → transient_proc_error error ≡ true → IsTransient error
unfolding transient_proc_error
IsTransient-of not_found h = inl refl
IsTransient-of permission_denied h = inr refl
IsTransient-of (other_error kind) h = absurd (cc h)

passed :
    (error : IoError) (b : Bool) (next : Result ProcessAttributionError (Option ℕ)) (id : ℕ)
    → elim b [ true ↦ next | false ↦ err (io error) ] ≡ ok (some id)
    → (b ≡ true) × (next ≡ ok (some id))
passed error true next id e = (refl, e)
passed error false next id e = absurd (err_ne_ok e)

-- With a second owner the loop ends without an answer, otherwise it goes on.
gone_on :
    (found full : Bool) (held more : List ℕ)
    → (rest : List ℕ → Result ProcessAttributionError (Option ℕ)) (id : ℕ)
    → elim found [ false ↦ rest held | true ↦ elim full [ true ↦ ok none | false ↦ rest more ] ]
      ≡ ok (some id)
    → (owners : List ℕ) × (rest owners ≡ ok (some id))
gone_on false full held more rest id e = (held, e)
gone_on true true held more rest id e = absurd (cc (ok_injective e))
gone_on true false held more rest id e = (more, e)

module _ (expected : Text) (id : ℕ) where
  visit_process-passed :
      (file_name : Option Text) (process_id : Option ℕ) (d : Result IoError (List Descriptor))
      (owners : List ℕ) (rest : List ℕ → Result ProcessAttributionError (Option ℕ))
      → process_id_of file_name ≡ process_id
      → visit_process expected process_id d owners rest ≡ ok (some id)
      → IsReadOrPassed (ok (record { file_name = file_name; descriptors = d }))
        × ((owners' : List ℕ) × (rest owners' ≡ ok (some id)))
  visit_process-passed file_name none (ok ds) owners rest p e = (tt, (owners, e))
  visit_process-passed file_name none (err error) owners rest p e = (inl p, (owners, e))
  visit_process-passed file_name (some n) (err error) owners rest p e =
      let (t, e1) = passed error (transient_proc_error error) (rest owners) id e in
      (inr (IsTransient-of error t), (owners, e1))
  visit_process-passed file_name (some n) (ok ds) owners rest p e =
      let (found, s, e1) = >>=-eq-ok (scan_descriptors expected ds) _ e in
      (
        tt,
        gone_on found (ltb 1 (length (insert_owner n owners))) owners (insert_owner n owners) rest
            id e1,
      )

  scan_processes-passed :
      (ps : List (Result IoError ProcEntry)) (owners : List ℕ)
      → scan_processes expected ps owners ≡ ok (some id)
      → All IsReadOrPassed ps
  unfolding scan_processes
  scan_processes-passed [] owners e = tt
  scan_processes-passed (err error ∷ ps) owners e =
      let (t, e1) = passed error (transient_proc_error error) _ id e in
      (IsTransient-of error t, scan_processes-passed ps owners e1)
  scan_processes-passed (ok p ∷ ps) owners e =
      let (a, (owners', e1)) =
        visit_process-passed p.file_name _ p.descriptors owners (scan_processes expected ps) refl
          e in
      (a, scan_processes-passed ps owners' e1)

-- If a process is named, all of /proc was gone through.
pub find_unique_owner-AreReadOrPassed :
    (processes : Processes) (inode id : ℕ)
    → find_unique_owner processes inode ≡ ok (some id)
    → AreReadOrPassed processes
unfolding find_unique_owner
find_unique_owner-AreReadOrPassed (err error) inode id e = absurd (err_ne_ok e)
find_unique_owner-AreReadOrPassed (ok ps) inode id e =
    scan_processes-passed (socket_link inode) id ps [] e
