-- ===== src/PromptIr/Adds.antt =====
-- Checks that run after each other: which ids they register and when they find no error.
use code_is_cheap.Common.{
  ◌≡◌, refl, ap, sym, subst, ◌∙◌, ◌↔◌, inl, inr, Bool, true, false, List, [], ◌∷◌, ◌++◌, All,
  Bool-cases,
}
use mathlib.Core.List.{append-nil}
use code_is_cheap.Text.{Text, contains}
use code_is_cheap.Text.Distinct.{AreNew, AreNew-cons, Fresh-iff}
use code_is_cheap.PromptIr.Checks.{ValidationError, Checks, Check, report_if, is_blank, register_id}

-- The ids are not blank, not among those seen, and all different.
abbrev pub New : List Text → List Text → Type 0
New [] seen = Unit
New (id ∷ ids) seen = (is_blank id ≡ false) × (contains id seen ≡ false) × New ids (id ∷ seen)

abbrev pub push_ids : List Text → List Text → List Text
push_ids [] seen = seen
push_ids (id ∷ ids) seen = push_ids ids (id ∷ seen)

-- The check registers `ids`, and finds no error exactly if `P` holds and the ids are new.
pub record Adds (check : Check) (ids : List Text) (P : Type 0) : Type 0 where
  pub clean_iff : (s : Checks) → ((check s).errors ≡ []) ↔ ((s.errors ≡ []) × P × New ids s.ids)
  pub ids_lem : (s : Checks) → (check s).errors ≡ [] → (check s).ids ≡ push_ids ids s.ids

New-append :
    (ids ids' seen : List Text)
    → New (ids ++ ids') seen ↔ (New ids seen × New ids' (push_ids ids seen))
New-append [] ids' seen = (λ h. (tt, h), λ h. h.1)
New-append (id ∷ ids) ids' seen = (
  λ (b, c, h). let (h1, h2) = (New-append ids ids' (id ∷ seen)).0 h in ((b, c, h1), h2),
  λ ((b, c, h1), h2). (b, c, (New-append ids ids' (id ∷ seen)).1 (h1, h2)),
)

push_ids-append :
    (ids ids' seen : List Text) → push_ids (ids ++ ids') seen ≡ push_ids ids' (push_ids ids seen)
push_ids-append [] ids' seen = refl
push_ids-append (id ∷ ids) ids' seen = push_ids-append ids ids' (id ∷ seen)

snoc_ne_nil : {A : Type 0} (xs : List A) (x : A) → ¬ ((xs ++ x ∷ []) ≡ [])
snoc_ne_nil [] x h = cc
snoc_ne_nil (y ∷ xs) x h = cc

pub report_if-Adds : (b : Bool) (e : ValidationError) → Adds (report_if b e) [] (b ≡ false)
report_if-Adds true e = record {
  clean_iff = λ s. (λ h. absurd (snoc_ne_nil s.errors e h), λ h. absurd (cc));
  ids_lem = λ s h. refl;
}
report_if-Adds false e = record {
  clean_iff = λ s. (λ h. (h, refl, tt), λ h. h.0);
  ids_lem = λ s h. refl;
}

pub register_id-Adds : (id path : Text) → Adds (register_id id path) (id ∷ []) Unit
unfolding register_id
register_id-Adds id path = record {
  clean_iff = λ s. elim (Bool-cases (is_blank id)) [
    | inl b ↦ rw b (λ h. absurd (snoc_ne_nil s.errors _ h), λ h. absurd (cc))
    | inr b ↦ elim (Bool-cases (contains id s.ids)) [
      | inl c ↦ rw (b, c) (λ h. absurd (snoc_ne_nil s.errors _ h), λ h. absurd (cc))
      | inr c ↦ rw (b, c) (λ h. (h, tt, (refl, refl, tt)), λ h. h.0)
    ]
  ];
  ids_lem = λ s. elim (Bool-cases (is_blank id)) [
    | inl b ↦ rw b (λ h. absurd (snoc_ne_nil s.errors _ h))
    | inr b ↦ elim (Bool-cases (contains id s.ids)) [
      | inl c ↦ rw (b, c) (λ h. absurd (snoc_ne_nil s.errors _ h))
      | inr c ↦ rw (b, c) (λ h. refl)
    ]
  ];
}

pub Adds-then :
    {f g : Check} {ids ids' : List Text} {P Q : Type 0}
    → Adds f ids P
    → Adds g ids' Q
    → Adds (λ s. g (f s)) (ids ++ ids') (P × Q)
Adds-then {f} {g} {ids} {ids'} a b = record {
  clean_iff = λ s. (
    λ h.
        let (c, q, n') = (b.clean_iff (f s)).0 h in
        let (c0, p, n) = (a.clean_iff s).0 c in
        (c0, (p, q), (New-append ids ids' s.ids).1 (n, subst (New ids') (a.ids_lem s c) n')),
    λ (c0, (p, q), n).
        let (n0, n1) = (New-append ids ids' s.ids).0 n in
        let c = (a.clean_iff s).1 (c0, p, n0) in
        (b.clean_iff (f s)).1 (c, q, subst (New ids') (sym (a.ids_lem s c)) n1),
  );
  ids_lem = λ s h.
      let c = ((b.clean_iff (f s)).0 h).0 in
      b.ids_lem (f s) h ∙ ap (push_ids ids') (a.ids_lem s c) ∙ sym (push_ids-append ids ids' s.ids);
}

-- A last check that registers nothing.
pub Adds-last :
    {f g : Check} {ids : List Text} {P Q : Type 0}
    → Adds f ids P
    → Adds g [] Q
    → Adds (λ s. g (f s)) ids (P × Q)
Adds-last {f} {g} {ids} {P} {Q} a b =
    subst (λ i. Adds (λ s. g (f s)) i (P × Q)) (append-nil ids) (Adds-then a b)

pub Adds-skip : Adds (λ s. s) [] Unit
Adds-skip = record { clean_iff = λ s. (λ h. (h, tt, tt), λ h. h.0); ids_lem = λ s h. refl }

pub Adds-iff : {f : Check} {ids : List Text} {P Q : Type 0} → P ↔ Q → Adds f ids P → Adds f ids Q
Adds-iff e a = record {
  clean_iff = λ s. (
    λ h. let (c, p, n) = (a.clean_iff s).0 h in (c, e.0 p, n),
    λ (c, q, n). (a.clean_iff s).1 (c, e.1 q, n),
  );
  ids_lem = a.ids_lem;
}

-- New ids, in other words.
pub New-iff :
    (ids seen : List Text) → New ids seen ↔ (All (λ id. is_blank id ≡ false) ids × AreNew ids seen)
New-iff [] seen = (λ h. (tt, record { distinct = tt; unseen = tt }), λ h. tt)
New-iff (id ∷ ids) seen = (
  λ (b, c, h).
      let (k, n) = (New-iff ids (id ∷ seen)).0 h in
      ((b, k), (AreNew-cons id ids seen).1 ((Fresh-iff id seen).0 c, n)),
  λ ((b, k), n).
      let (c, m) = (AreNew-cons id ids seen).0 n in
      (b, (Fresh-iff id seen).1 c, (New-iff ids (id ∷ seen)).1 (k, m)),
)
