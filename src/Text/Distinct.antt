-- ===== src/Text/Distinct.antt =====
-- Lists of different texts: what a loop checks that keeps a `HashSet` of the texts it has seen.
use code_is_cheap.Common.{◌≡◌, ◌≢◌, refl, sym, ◌↔◌, false, List, [], ◌∷◌, arith, All}
use code_is_cheap.Text.{Text, contains}
use code_is_cheap.Text.Laws.{text_eq_iff}

-- The text is none of these.
abbrev pub Fresh : Text → List Text → Type 0
Fresh x ys = All (λ y. x ≢ y) ys

abbrev pub AreDistinct : List Text → Type 0
AreDistinct [] = Unit
AreDistinct (x ∷ xs) = Fresh x xs × AreDistinct xs

pub Fresh-iff : (x : Text) (ys : List Text) → (contains x ys ≡ false) ↔ Fresh x ys
unfolding contains
Fresh-iff x [] = (λ _. tt, λ _. refl)
Fresh-iff x (y ∷ ys) = ground (arith, text_eq_iff x y, Fresh-iff x ys)

-- No text occurs twice, or in `seen`.
pub record AreNew (xs seen : List Text) : Type 0 where
  pub distinct : AreDistinct xs
  pub unseen : All (λ x. Fresh x seen) xs

Fresh-zip :
    (k : Text) (seen xs : List Text)
    → Fresh k xs
    → All (λ x. Fresh x seen) xs
    → All (λ x. Fresh x (k ∷ seen)) xs
Fresh-zip k seen [] h u = tt
Fresh-zip k seen (x ∷ xs) (n, h) (v, u) = ((λ e. n (sym e), v), Fresh-zip k seen xs h u)

Fresh-unzip :
    (k : Text) (seen xs : List Text)
    → All (λ x. Fresh x (k ∷ seen)) xs
    → Fresh k xs × All (λ x. Fresh x seen) xs
Fresh-unzip k seen [] h = (tt, tt)
Fresh-unzip k seen (x ∷ xs) ((n, v), h) =
    let (a, b) = Fresh-unzip k seen xs h in ((λ e. n (sym e), a), (v, b))

pub AreNew-cons :
    (k : Text) (xs seen : List Text) → AreNew (k ∷ xs) seen ↔ (Fresh k seen × AreNew xs (k ∷ seen))
AreNew-cons k xs seen = (
  λ h. (
    h.unseen.0,
    record { distinct = h.distinct.1; unseen = Fresh-zip k seen xs h.distinct.0 h.unseen.1 },
  ),
  λ (f, h).
      let (a, b) = Fresh-unzip k seen xs h.unseen in
      record { distinct = (a, h.distinct); unseen = (f, b) },
)

none_seen : (xs : List Text) → All (λ x. Fresh x []) xs
none_seen [] = tt
none_seen (x ∷ xs) = (tt, none_seen xs)

pub AreNew-nil : (xs : List Text) → AreNew xs [] ↔ AreDistinct xs
AreNew-nil xs = (λ h. h.distinct, λ h. record { distinct = h; unseen = none_seen xs })
