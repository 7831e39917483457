-- ===== src/Process/Linux/Sockets.antt =====
-- crates/process-attribution/src/linux.rs: which inode find_socket_inode gives for a table.
use code_is_cheap.Common.{
  ℕ, ◌≡◌, refl, sym, ap, subst, ◌∙◌, ◌≢◌, ◌⊎◌, inl, inr, true, false, Option, none, some, List, [],
  ◌∷◌, length, drop, ltb, ◌==◌, Result, ok, err, arith, Bool-cases, some_injective,
}
use code_is_cheap.Text.{Text}
use code_is_cheap.Text.Numbers.{parse_unsigned, u64_max}
use code_is_cheap.Text.Lines.{lines, split_whitespace}
use code_is_cheap.Process.{ProcessAttributionError, invalid_system_table}
use code_is_cheap.Process.Linux.{
  column, is_connection, differs_from, with_inode, scan_lines, find_socket_inode,
}
use code_is_cheap.Process.Linux.Verdicts.{Has, Verdict, Verdict-map}

same_inode : (i k : ℕ) (m : Option ℕ) → m ≡ some k → differs_from i m ≡ false → i ≡ k
same_inode i k none e d = absurd (cc)
same_inode i k (some j) e d = ground (arith, d, some_injective e)

other_inode : (i : ℕ) (m : Option ℕ) → differs_from i m ≡ true → (k : ℕ) × (m ≡ some k) × (k ≢ i)
other_inode i none d = absurd (cc)
other_inode i (some j) d = (j, refl, λ e. ground (arith, d, e))

abbrev pub IsZero : ℕ → Type 0
IsZero n = n ≡ 0

module _ (client server : Text) where
  -- The line has ten columns and is the established connection.
  abbrev pub IsMatch : Text → Type 0
  IsMatch line =
      (ltb (length (split_whitespace line)) 10 ≡ false)
      × (is_connection client server (split_whitespace line) ≡ true)

  -- The line is the established connection, over the socket of this inode.
  abbrev pub IsSocket : ℕ → Text → Type 0
  IsSocket inode line =
      IsMatch line × (parse_unsigned u64_max (column (split_whitespace line) 9) ≡ some inode)

  -- The line makes the table malformed.
  abbrev pub IsMalformed : Text → Type 0
  IsMalformed line =
      (ltb (length (split_whitespace line)) 10 ≡ true)
      ⊎ (IsMatch line × (parse_unsigned u64_max (column (split_whitespace line) 9) ≡ none))

  abbrev pub TableError : List Text → ProcessAttributionError → Type 0
  TableError ls e = (e ≡ invalid_system_table) × Has IsMalformed ls

  -- The inodes found before and those in the lines.
  abbrev Found : Option ℕ → List Text → ℕ → Type 0
  Found m ls n = (m ≡ some n) ⊎ Has (IsSocket n) ls

  abbrev NonZero : Option ℕ → Type 0
  NonZero m = (n : ℕ) → m ≡ some n → n ≢ 0

  -- A line that is no match leaves the candidates as they are.
  skip_line :
      (line : Text) (ls : List Text) (m : Option ℕ) (r : Result ProcessAttributionError (Option ℕ))
      → ¬ IsMatch line
      → Verdict (Found m ls) IsZero (TableError ls) r
      → Verdict (Found m (line ∷ ls)) IsZero (TableError (line ∷ ls)) r
  skip_line line ls m r n =
      Verdict-map (Found m ls) (Found m (line ∷ ls)) IsZero (TableError ls) (TableError (line ∷ ls))
        (λ k h. elim h [ inl e ↦ inl e | inr t ↦ inr (inr t) ])
        (λ k h. elim h [
          | inl e ↦ inl e
          | inr t ↦ elim t [ inl s ↦ absurd (n s.0) | inr u ↦ inr u ]
        ])
        (λ e (q, t). (q, inr t)) r

  -- A match with the inode that is now the one found.
  keep_line :
      (line : Text) (ls : List Text) (m : Option ℕ) (i : ℕ)
      (r : Result ProcessAttributionError (Option ℕ))
      → IsSocket i line
      → differs_from i m ≡ false
      → Verdict (Found (some i) ls) IsZero (TableError ls) r
      → Verdict (Found m (line ∷ ls)) IsZero (TableError (line ∷ ls)) r
  keep_line line ls m i r s d =
      Verdict-map (Found (some i) ls) (Found m (line ∷ ls)) IsZero (TableError ls)
        (TableError (line ∷ ls))
        (λ k h. elim h [
          | inl e ↦ inr (inl (subst (λ j. IsSocket j line) (some_injective e) s))
          | inr t ↦ inr (inr t)
        ])
        (λ k h. elim h [
          | inl e ↦ inl (ap some (same_inode i k m e d))
          | inr t ↦ elim t [ inl u ↦ inl (sym s.1 ∙ u.1) | inr u ↦ inr u ]
        ])
        (λ e (q, t). (q, inr t)) r

  with_inode-Verdict :
      (line : Text) (ls : List Text) (o m : Option ℕ)
      (rest : Option ℕ → Result ProcessAttributionError (Option ℕ))
      → IsMatch line
      → parse_unsigned u64_max (column (split_whitespace line) 9) ≡ o
      → NonZero m
      → ((i : ℕ) → i ≢ 0 → Verdict (Found (some i) ls) IsZero (TableError ls) (rest (some i)))
      → Verdict (Found m (line ∷ ls)) IsZero (TableError (line ∷ ls)) (with_inode o m rest)
  with_inode-Verdict line ls none m rest h e z ih = (refl, inl (inr (h, e)))
  with_inode-Verdict line ls (some i) m rest h e z ih =
      let V : Result ProcessAttributionError (Option ℕ) → Type 0 =
        Verdict (Found m (line ∷ ls)) IsZero (TableError (line ∷ ls)) in
      let r : Result ProcessAttributionError (Option ℕ) = with_inode (some i) m rest in
      elim (Bool-cases (i == 0)) [
        | inl q ↦
            subst V (sym (let e1 : r ≡ ok none = rw (q, with_inode) refl in e1))
              (inr (inl (i, inr (inl (h, e)), ground (arith, q))))
        | inr q ↦ elim (Bool-cases (differs_from i m)) [
          | inl d ↦
              (let (k, f, g) = other_inode i m d in
                subst V (sym (let e2 : r ≡ ok none = rw (q, d, with_inode) refl in e2))
                  (inr (inr (k, i, inl f, inr (inl (h, e)), g))))
          | inr d ↦
              subst V (sym (let e3 : r ≡ rest (some i) = rw (q, d, with_inode) refl in e3))
                (keep_line line ls m i (rest (some i)) (h, e) d (ih i (ground (arith, q))))
        ]
      ]

  scan_lines-Verdict :
      (ls : List Text) (m : Option ℕ)
      → NonZero m
      → Verdict (Found m ls) IsZero (TableError ls) (scan_lines client server ls m)
  unfolding scan_lines
  scan_lines-Verdict [] none z = inl (λ n h. elim h [ inl e ↦ cc | inr t ↦ t ])
  scan_lines-Verdict [] (some k) z =
      (inl refl, λ n h. elim h [ inl e ↦ cc | inr t ↦ absurd t ], z k refl)
  scan_lines-Verdict (line ∷ ls) m z =
      let V : Result ProcessAttributionError (Option ℕ) → Type 0 =
        Verdict (Found m (line ∷ ls)) IsZero (TableError (line ∷ ls)) in
      let r : Result ProcessAttributionError (Option ℕ) = scan_lines client server (line ∷ ls) m in
      elim (Bool-cases (ltb (length (split_whitespace line)) 10)) [
        | inl e ↦
            subst V (sym (let e1 : r ≡ err invalid_system_table = rw (e, scan_lines) refl in e1))
              (refl, inl (inl e))
        | inr e ↦ elim (Bool-cases (is_connection client server (split_whitespace line))) [
          | inl c ↦
              subst V
                (sym (
                  let e2 : r
                      ≡ with_inode (parse_unsigned u64_max (column (split_whitespace line) 9)) m
                          (λ m'. scan_lines client server ls m') =
                    rw (e, c, scan_lines) refl in
                  e2))
                (with_inode-Verdict line ls _ m (λ m'. scan_lines client server ls m') (e, c) refl z
                  (λ i n. scan_lines-Verdict ls (some i) (λ k q r. n (some_injective q ∙ r))))
          | inr c ↦
              subst V
                (sym
                  (let e3 : r ≡ scan_lines client server ls m = rw (e, c, scan_lines) refl in e3))
                (skip_line line ls m _ (λ (a, b). cc (b, c)) (scan_lines-Verdict ls m z))
        ]
      ]

  -- find_socket_inode gives the only inode over which the table has the established connection,
  -- none if there is no such line, an inode is 0 or two of them differ, and an error only for a
  -- malformed line.
  pub find_socket_inode-Verdict :
      (table : Text)
      → Verdict
          (λ n. Has (IsSocket n) (drop 1 (lines table)))
          IsZero
          (TableError (drop 1 (lines table)))
          (find_socket_inode table client server)
  unfolding find_socket_inode
  find_socket_inode-Verdict table =
      Verdict-map (Found none _) _ IsZero (TableError _) (TableError _)
        (λ n h. elim h [ inl e ↦ absurd (cc) | inr t ↦ t ]) (λ n t. inr t) (λ e h. h)
        (scan_lines client server (drop 1 (lines table)) none)
        (scan_lines-Verdict (drop 1 (lines table)) none (λ n e. absurd (cc)))
