-- ===== src/Process/Linux/Owners.antt =====
-- crates/process-attribution/src/linux.rs: which process find_unique_owner gives for a socket.
use code_is_cheap.Common.{
  ℕ, ◌≡◌, refl, sym, ap, subst, ◌∙◌, ◌≢◌, ◌⊎◌, inl, inr, Bool, true, false, Option, none, some,
  List, [], ◌∷◌, length, ltb, ◌==◌, Result, ok, err, ◌>>=◌, arith, Bool-cases, some_injective,
}
use code_is_cheap.Text.{Text, text_eq}
use code_is_cheap.Process.{IoError, ProcessAttributionError, io}
use code_is_cheap.Process.Linux.{
  transient_proc_error, Descriptor, ProcEntry, scan_descriptors, insert_owner, process_id_of,
  visit_process, scan_processes, Processes, socket_link, find_unique_owner,
}
use code_is_cheap.Process.Linux.Verdicts.{Has, Verdict, Verdict-map}

-- An error that the scan does not pass over.
abbrev pub IsFatal : IoError → ProcessAttributionError → Type 0
IsFatal error e = (transient_proc_error error ≡ false) × (e ≡ io error)

insert_owner-cases :
    (id k : ℕ)
    → ((id ≡ k) × (insert_owner id (k ∷ []) ≡ k ∷ []))
      ⊎ ((k ≢ id) × (ltb 1 (length (insert_owner id (k ∷ []))) ≡ true))
unfolding insert_owner
insert_owner-cases id k = elim (Bool-cases (id == k)) [
  | inl q ↦ inl (ground (arith, q), ground (arith, q))
  | inr q ↦ inr (λ e. ground (arith, q, e), ground (arith, q))
]

module _ (expected : Text) where
  -- The descriptor is a link to the socket.
  abbrev pub IsLink : Descriptor → Type 0
  IsLink (ok (ok target)) = text_eq target expected ≡ true
  IsLink _ = ⊥

  abbrev pub IsBadLink : ProcessAttributionError → Descriptor → Type 0
  IsBadLink e (ok (ok target)) = ⊥
  IsBadLink e (ok (err error)) = IsFatal error e
  IsBadLink e (err error) = IsFatal error e

  -- The process has a descriptor of the socket that can be read.
  abbrev pub IsOpen : Result IoError (List Descriptor) → Type 0
  IsOpen (ok descriptors) = Has IsLink descriptors
  IsOpen (err error) = ⊥

  abbrev pub IsOwner : ℕ → Result IoError ProcEntry → Type 0
  IsOwner id (ok process) = (process_id_of process.file_name ≡ some id) × IsOpen process.descriptors
  IsOwner id (err error) = ⊥

  -- The process, its descriptors or one of them cannot be read, for another reason than that it
  -- ended or belongs to another user.
  abbrev pub IsUnreadable : ProcessAttributionError → Result IoError ProcEntry → Type 0
  IsUnreadable e (ok process) = elim process.descriptors [
    | ok descriptors ↦ Has (IsBadLink e) descriptors
    | err error ↦ IsFatal error e
  ]
  IsUnreadable e (err error) = IsFatal error e

  -- What a scan of descriptors says of them.
  abbrev Scanned : List Descriptor → Result ProcessAttributionError Bool → Type 0
  Scanned ds (ok true) = Has IsLink ds
  Scanned ds (ok false) = ¬ Has IsLink ds
  Scanned ds (err e) = Has (IsBadLink e) ds

  Scanned-later :
      (d : Descriptor) (ds : List Descriptor) (r : Result ProcessAttributionError Bool)
      → ¬ IsLink d
      → Scanned ds r
      → Scanned (d ∷ ds) r
  Scanned-later d ds (ok true) n h = inr h
  Scanned-later d ds (ok false) n h = λ k. elim k [ inl a ↦ n a | inr b ↦ h b ]
  Scanned-later d ds (err e) n h = inr h

  skip_descriptor :
      (d : Descriptor) (ds : List Descriptor) (error : IoError)
      → ¬ IsLink d
      → ((e : ProcessAttributionError) → IsFatal error e → IsBadLink e d)
      → (r : Result ProcessAttributionError Bool) → Scanned ds r
      → (b : Bool) → transient_proc_error error ≡ b
      → Scanned (d ∷ ds) (elim b [ true ↦ r | false ↦ err (io error) ])
  skip_descriptor d ds error n f r h true q = Scanned-later d ds r n h
  skip_descriptor d ds error n f r h false q = inl (f _ (q, refl))

  take_descriptor :
      (target : Text) (ds : List Descriptor) (r : Result ProcessAttributionError Bool)
      → Scanned ds r
      → (b : Bool) → text_eq target expected ≡ b
      → Scanned (ok (ok target) ∷ ds) (elim b [ true ↦ ok true | false ↦ r ])
  take_descriptor target ds r h true q = inl q
  take_descriptor target ds r h false q = Scanned-later (ok (ok target)) ds r (λ k. cc (k, q)) h

  scan_descriptors-Scanned : (ds : List Descriptor) → Scanned ds (scan_descriptors expected ds)
  unfolding scan_descriptors
  scan_descriptors-Scanned [] = λ h. h
  scan_descriptors-Scanned (err error ∷ ds) =
      skip_descriptor (err error) ds error (λ h. h) (λ e h. h) _ (scan_descriptors-Scanned ds) _
        refl
  scan_descriptors-Scanned (ok (err error) ∷ ds) =
      skip_descriptor (ok (err error)) ds error (λ h. h) (λ e h. h) _ (scan_descriptors-Scanned ds)
        _ refl
  scan_descriptors-Scanned (ok (ok target) ∷ ds) =
      take_descriptor target ds _ (scan_descriptors-Scanned ds) _ refl

  -- At most one owner is held while the scan goes on.
  abbrev IsNoOwner : ℕ → Type 0
  IsNoOwner n = ⊥

  abbrev held : Option ℕ → List ℕ
  held none = []
  held (some o) = o ∷ []

  abbrev Owners : Option ℕ → List (Result IoError ProcEntry) → ℕ → Type 0
  Owners o ps id = (o ≡ some id) ⊎ Has (IsOwner id) ps

  abbrev Unreadable : List (Result IoError ProcEntry) → ProcessAttributionError → Type 0
  Unreadable ps e = Has (IsUnreadable e) ps

  abbrev Found :
      Option ℕ
      → List (Result IoError ProcEntry)
      → Result ProcessAttributionError (Option ℕ)
      → Type 0
  Found o ps = Verdict (Owners o ps) IsNoOwner (Unreadable ps)

  -- A process that is no owner leaves the candidates as they are.
  skip_process :
      (p : Result IoError ProcEntry) (ps : List (Result IoError ProcEntry)) (o : Option ℕ)
      (r : Result ProcessAttributionError (Option ℕ))
      → ((id : ℕ) → ¬ IsOwner id p)
      → Found o ps r
      → Found o (p ∷ ps) r
  skip_process p ps o r n =
      Verdict-map (Owners o ps) (Owners o (p ∷ ps)) IsNoOwner (Unreadable ps) (Unreadable (p ∷ ps))
        (λ k h. elim h [ inl e ↦ inl e | inr t ↦ inr (inr t) ])
        (λ k h. elim h [
          | inl e ↦ inl e
          | inr t ↦ elim t [ inl s ↦ absurd (n k s) | inr u ↦ inr u ]
        ])
        (λ e t. inr t) r

  -- An owner, where the one held before is the same or there is none.
  keep_process :
      (p : Result IoError ProcEntry) (ps : List (Result IoError ProcEntry)) (o : Option ℕ) (id : ℕ)
      (r : Result ProcessAttributionError (Option ℕ))
      → IsOwner id p
      → ((k : ℕ) → IsOwner k p → k ≡ id)
      → ((k : ℕ) → o ≡ some k → k ≡ id)
      → Found (some id) ps r
      → Found o (p ∷ ps) r
  keep_process p ps o id r s u d =
      Verdict-map (Owners (some id) ps) (Owners o (p ∷ ps)) IsNoOwner (Unreadable ps)
        (Unreadable (p ∷ ps))
        (λ k h. elim h [
          | inl e ↦ inr (inl (subst (λ j. IsOwner j p) (some_injective e) s))
          | inr t ↦ inr (inr t)
        ])
        (λ k h. elim h [
          | inl e ↦ inl (ap some (sym (d k e)))
          | inr t ↦ elim t [ inl v ↦ inl (ap some (sym (u k v))) | inr v ↦ inr v ]
        ])
        (λ e t. inr t) r

  abbrev Rest : Type 0
  Rest = List ℕ → Result ProcessAttributionError (Option ℕ)

  -- The scan goes on from every owner held with the right result.
  abbrev GoesOn : List (Result IoError ProcEntry) → Rest → Type 0
  GoesOn ps rest = (o : Option ℕ) → Found o ps (rest (held o))

  abbrev entry : Option Text → Result IoError (List Descriptor) → ProcEntry
  entry name ds = record { file_name = name; descriptors = ds }

  skip_unreadable :
      (p : Result IoError ProcEntry) (ps : List (Result IoError ProcEntry)) (o : Option ℕ)
      (error : IoError) (r : Result ProcessAttributionError (Option ℕ))
      → ((id : ℕ) → ¬ IsOwner id p)
      → ((e : ProcessAttributionError) → IsFatal error e → IsUnreadable e p)
      → Found o ps r
      → (b : Bool) → transient_proc_error error ≡ b
      → Found o (p ∷ ps) (elim b [ true ↦ r | false ↦ err (io error) ])
  skip_unreadable p ps o error r n f h true q = skip_process p ps o r n h
  skip_unreadable p ps o error r n f h false q = inl (f _ (q, refl))

  -- What follows on the owners `os`, after an insertion.
  abbrev go_on : List ℕ → Rest → Result ProcessAttributionError (Option ℕ)
  go_on os rest = elim (ltb 1 (length os)) [ true ↦ ok none | false ↦ rest os ]

  -- The owner is added to the one held, if any.
  add_owner :
      (name : Option Text) (ds : List Descriptor) (ps : List (Result IoError ProcEntry))
      (o : Option ℕ) (id : ℕ) (rest : Rest)
      → process_id_of name ≡ some id
      → Has IsLink ds
      → GoesOn ps rest
      → Found o (ok (entry name (ok ds)) ∷ ps) (go_on (insert_owner id (held o)) rest)
  unfolding insert_owner
  add_owner name ds ps none id rest e h g =
      keep_process (ok (entry name (ok ds))) ps none id (rest (id ∷ [])) (e, h)
        (λ k v. some_injective (sym v.0 ∙ e)) (λ k v. absurd (cc)) (g (some id))
  add_owner name ds ps (some k) id rest e h g = elim (insert_owner-cases id k) [
    | inl (q, i) ↦
        subst (λ os. Found (some k) (ok (entry name (ok ds)) ∷ ps) (go_on os rest)) (sym i)
          (keep_process (ok (entry name (ok ds))) ps (some k) id (rest (k ∷ [])) (e, h)
            (λ j v. some_injective (sym v.0 ∙ e)) (λ j v. some_injective (sym v) ∙ sym q)
            (subst (λ j. Found (some j) ps (rest (k ∷ []))) (sym q) (g (some k))))
    | inr (n, i) ↦
        subst
          (λ b.
            Found (some k) (ok (entry name (ok ds)) ∷ ps)
              (elim b [ true ↦ ok none | false ↦ rest (insert_owner id (k ∷ [])) ]))
          (sym i) (inr (inr (k, id, inl refl, inr (inl (e, h)), n)))
  ]

  with_scan :
      (name : Option Text) (ds : List Descriptor) (ps : List (Result IoError ProcEntry))
      (o : Option ℕ) (id : ℕ) (rest : Rest)
      → process_id_of name ≡ some id
      → GoesOn ps rest
      → (r : Result ProcessAttributionError Bool) → Scanned ds r
      → Found o (ok (entry name (ok ds)) ∷ ps) (
          r >>= λ found. elim found [
            | false ↦ rest (held o)
            | true ↦ elim (ltb 1 (length (insert_owner id (held o)))) [
              | true ↦ ok none
              | false ↦ rest (insert_owner id (held o))
            ]
          ])
  with_scan name ds ps o id rest e g (err x) h = inl h
  with_scan name ds ps o id rest e g (ok false) h =
      skip_process (ok (entry name (ok ds))) ps o (rest (held o)) (λ k v. h v.1) (g o)
  with_scan name ds ps o id rest e g (ok true) h = add_owner name ds ps o id rest e h g

  visit_process-Found :
      (name : Option Text) (ds : Result IoError (List Descriptor))
      (ps : List (Result IoError ProcEntry)) (o : Option ℕ) (rest : Rest) (id : Option ℕ)
      → process_id_of name ≡ id
      → GoesOn ps rest
      → Found o (ok (entry name ds) ∷ ps) (visit_process expected id ds (held o) rest)
  visit_process-Found name ds ps o rest none e g =
      skip_process (ok (entry name ds)) ps o (rest (held o)) (λ k v. cc (v.0, e)) (g o)
  visit_process-Found name (err error) ps o rest (some id) e g =
      skip_unreadable (ok (entry name (err error))) ps o error (rest (held o)) (λ k v. v.1)
        (λ x v. v) (g o) _ refl
  visit_process-Found name (ok ds) ps o rest (some id) e g =
      with_scan name ds ps o id rest e g _ (scan_descriptors-Scanned ds)

  scan_processes-Found :
      (ps : List (Result IoError ProcEntry)) (o : Option ℕ)
      → Found o ps (scan_processes expected ps (held o))
  unfolding scan_processes
  scan_processes-Found [] none = inl (λ n h. elim h [ inl e ↦ cc | inr t ↦ t ])
  scan_processes-Found [] (some k) =
      (inl refl, λ n h. elim h [ inl e ↦ cc | inr t ↦ absurd t ], λ h. h)
  scan_processes-Found (err error ∷ ps) o =
      skip_unreadable (err error) ps o error _ (λ k v. v) (λ x v. v) (scan_processes-Found ps o) _
        refl
  scan_processes-Found (ok p ∷ ps) o =
      visit_process-Found p.file_name p.descriptors ps o _ _ refl (λ o'. scan_processes-Found ps o')

-- The processes with a readable descriptor of the socket; one that cannot be read is not among them.
abbrev pub SocketOwner : Processes → ℕ → ℕ → Type 0
SocketOwner (ok ps) inode id = Has (IsOwner (socket_link inode) id) ps
SocketOwner (err error) inode id = ⊥

abbrev pub ProcError : Processes → ℕ → ProcessAttributionError → Type 0
ProcError (ok ps) inode e = Has (IsUnreadable (socket_link inode) e) ps
ProcError (err error) inode e = e ≡ io error

-- find_unique_owner gives the only process with a readable descriptor of the socket, none if there is no
-- such process or more than one, and an error only for what cannot be read.
pub find_unique_owner-Verdict :
    (processes : Processes) (inode : ℕ)
    → Verdict
        (SocketOwner processes inode)
        (λ n. ⊥)
        (ProcError processes inode)
        (find_unique_owner processes inode)
unfolding find_unique_owner
find_unique_owner-Verdict (err error) inode = refl
find_unique_owner-Verdict (ok ps) inode =
    Verdict-map (Owners (socket_link inode) none ps) _ (λ n. ⊥) (Unreadable (socket_link inode) ps)
      _ (λ n h. elim h [ inl e ↦ absurd (cc) | inr t ↦ t ]) (λ n t. inr t) (λ e h. h)
      (scan_processes (socket_link inode) ps []) (scan_processes-Found (socket_link inode) ps none)
