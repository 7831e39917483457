-- ===== src/Common/Results.antt =====
-- Rust's `Result`, and `?` as the bind of a `do` block.
use mathlib.Core.Path.{◌≡◌, refl}
use mathlib.Core.Bool.{Bool, true, false}
use mathlib.Core.Logic.{◌⊎◌, ◌↔◌, inl, inr}
use mathlib.Core.Option.{Option, none, some}

pub data Result {ℓ κ} (E : Type ℓ) (A : Type κ) : Type (ℓ ⊔ κ) where
  ok : A → Result E A
  err : E → Result E A

module _ {ℓ κ μ} {E : Type ℓ} {A : Type κ} {B : Type μ} where
  infixl 5 ◌>>=◌
  -- `result?`, followed by the rest of the block.
  abbrev pub ◌>>=◌ : Result E A → (A → Result E B) → Result E B
  err e >>= rest = err e
  ok a >>= rest = rest a

  pub >>=-eq-ok :
      (r : Result E A) (rest : A → Result E B) {b : B}
      → (r >>= rest) ≡ ok b
      → (a : A) × (r ≡ ok a) × (rest a ≡ ok b)
  >>=-eq-ok (err e) rest h = absurd (cc)
  >>=-eq-ok (ok a) rest h = (a, refl, h)

module _ {ℓ μ} {E : Type ℓ} {B : Type μ} where
  infixl 5 ◌>>◌
  abbrev pub ◌>>◌ : Result E (Unit {0}) → Result E B → Result E B
  first >> rest = first >>= λ _. rest

-- `if test { return Err(e) }`
abbrev pub fail_if {ℓ} : {E : Type ℓ} → Bool → E → Result E (Unit {0})
fail_if true e = err e
fail_if false e = ok tt

-- `Option::ok_or`
abbrev pub ok_or {ℓ κ} : {E : Type ℓ} {A : Type κ} → Option A → E → Result E A
ok_or none e = err e
ok_or (some a) e = ok a

-- `Result::is_ok`
abbrev pub is_ok {ℓ κ} : {E : Type ℓ} {A : Type κ} → Result E A → Bool
is_ok (ok a) = true
is_ok (err e) = false

-- `Result::map_err`
abbrev pub map_err {ℓ κ μ} :
    {E : Type ℓ} {F : Type κ} {A : Type μ} → (E → F) → Result E A → Result F A
map_err f (ok a) = ok a
map_err f (err e) = err (f e)

pub Result-cases {ℓ κ} :
    {E : Type ℓ} {A : Type κ} (r : Result E A) → ((a : A) × (r ≡ ok a)) ⊎ ((e : E) × (r ≡ err e))
Result-cases (ok a) = inl (a, refl)
Result-cases (err e) = inr (e, refl)

pub err_ne_ok {ℓ κ} :
    {E : Type ℓ} {A : Type κ} {e : E} {a : A} → ¬ (◌≡◌ {A = Result E A} (err e) (ok a))
err_ne_ok h = cc

-- A guard in a block that returns nothing.
pub fail_if-ok {ℓ} :
    {E : Type ℓ} (b : Bool) (e : E) (k : Result E (Unit {0}))
    → ((fail_if b e >> k) ≡ ok tt) ↔ ((b ≡ false) × (k ≡ ok tt))
fail_if-ok true e k = (λ h. absurd (err_ne_ok h), λ h. cc)
fail_if-ok false e k = (λ h. (refl, h), λ h. h.1)

-- Inversion of a guard in front of any block.
pub fail_if-inv {ℓ κ} :
    {E : Type ℓ} {A : Type κ} (b : Bool) (e : E) (k : Result E A) (a : A)
    → (fail_if b e >> k) ≡ ok a
    → (b ≡ false) × (k ≡ ok a)
fail_if-inv true e k a h = absurd (err_ne_ok h)
fail_if-inv false e k a h = (refl, h)

pub ok_injective {ℓ κ} :
    {E : Type ℓ} {A : Type κ} {a b : A} → ◌≡◌ {A = Result E A} (ok a) (ok b) → a ≡ b
ok_injective h = cc

pub some_injective {ℓ} : {A : Type ℓ} {a b : A} → some a ≡ some b → a ≡ b
some_injective h = cc
