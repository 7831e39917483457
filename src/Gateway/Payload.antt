-- ===== src/Gateway/Payload.antt =====
-- What an accumulator holds after a body came in as chunks.
use code_is_cheap.Common.{
  concat, ℕ, suc, zero, ◌-◌, ◌≤◌, min, ◌≡◌, refl, ap, sym, ◌∙◌, inl, inr, Bool, ltb, leb, List, [],
  ◌∷◌, ◌++◌, length, length-append, take, arith, Bool-cases,
}
use mathlib.Core.List.{append-nil, append_assoc}
use code_is_cheap.Gateway.{PayloadAccumulator, new_payload, push, saturating_add, u64_max}

abbrev pub push_all : List (List ℕ) → PayloadAccumulator → PayloadAccumulator
push_all [] payload = payload
push_all (chunk ∷ chunks) payload = push_all chunks (push chunk payload)

-- The accumulator after a body: its first `limit` bytes, whether there were more, and how many there
-- were, at most the largest u64.
abbrev pub accumulated : ℕ → List ℕ → PayloadAccumulator
accumulated limit body = record {
  bytes = take limit body;
  limit = limit;
  truncated = ltb limit (length body);
  observed_bytes = min (length body) u64_max;
}

pub length-take : {A : Type 0} (n : ℕ) (xs : List A) → length (take n xs) ≡ min n (length xs)
length-take zero xs = omega arith
length-take (suc n) [] = omega arith
length-take (suc n) (x ∷ xs) = omega (arith, length-take n xs)

minus_suc : (n m : ℕ) → suc n - suc m ≡ n - m
minus_suc n m = omega arith

minus_zero : (n : ℕ) → n ≡ n - 0
minus_zero n = omega arith

take-append :
    {A : Type 0} (n : ℕ) (xs ys : List A)
    → take n (xs ++ ys) ≡ take n xs ++ take (n - length (take n xs)) ys
take-append zero xs ys = refl
take-append (suc n) [] ys = ap (λ m. take m ys) (minus_zero (suc n))
take-append (suc n) (x ∷ xs) ys = rw (take-append n xs ys, minus_suc n (length (take n xs))) refl

take_all : {A : Type 0} (n : ℕ) (xs : List A) → length xs ≤ n → take n xs ≡ xs
take_all zero [] h = refl
take_all zero (x ∷ xs) h = absurd (omega arith)
take_all (suc n) [] h = refl
take_all (suc n) (x ∷ xs) h = rw (take_all n xs (omega arith)) refl

payload-eq :
    {limit : ℕ} {bytes bytes' : List ℕ} {truncated truncated' : Bool} {observed observed' : ℕ}
    → bytes ≡ bytes'
    → truncated ≡ truncated'
    → observed ≡ observed'
    → ◌≡◌ {A = PayloadAccumulator}
        (record { bytes = bytes; limit = limit; truncated = truncated; observed_bytes = observed })
        (record {
          bytes = bytes';
          limit = limit;
          truncated = truncated';
          observed_bytes = observed';
        })
payload-eq e f g = cc (e, f, g)

observed-append :
    (body chunk : List ℕ)
    → saturating_add (min (length body) u64_max) (length chunk)
      ≡ min (length (body ++ chunk)) u64_max
observed-append body chunk = omega (arith, length-append body chunk)

pub push-accumulated :
    (limit : ℕ) (body chunk : List ℕ)
    → push chunk (accumulated limit body) ≡ accumulated limit (body ++ chunk)
unfolding push
push-accumulated limit body chunk =
    elim (Bool-cases (leb (length chunk) (limit - length (take limit body)))) [
      | inl e ↦ rw e (
          payload-eq
            (rw
              (
                take-append limit body chunk,
                take_all (limit - length (take limit body)) chunk (ground arith),
              )
              refl)
            (ground (arith, length-append body chunk, length-take limit body))
            (observed-append body chunk))
      | inr e ↦ rw e (
          payload-eq (sym (take-append limit body chunk))
            (ground (arith, length-append body chunk, length-take limit body))
            (observed-append body chunk))
    ]

push_all-accumulated :
    (chunks : List (List ℕ)) (limit : ℕ) (body : List ℕ)
    → push_all chunks (accumulated limit body) ≡ accumulated limit (body ++ concat chunks)
push_all-accumulated [] limit body = ap (accumulated limit) (sym (append-nil body))
push_all-accumulated (chunk ∷ chunks) limit body =
    ap (push_all chunks) (push-accumulated limit body chunk)
    ∙ push_all-accumulated chunks limit (body ++ chunk)
    ∙ ap (accumulated limit) (append_assoc body chunk (concat chunks))

pub new_payload-eq : (limit : ℕ) → new_payload limit ≡ accumulated limit []
new_payload-eq zero = refl
new_payload-eq (suc limit) = payload-eq refl (ground arith) refl

-- However a body is cut into chunks, the accumulator holds its first `limit` bytes, says that it is
-- truncated exactly if the body has more, and has counted its bytes, up to the largest u64.
pub push_all-eq :
    (limit : ℕ) (chunks : List (List ℕ))
    → push_all chunks (new_payload limit) ≡ accumulated limit (concat chunks)
push_all-eq limit chunks =
    ap (push_all chunks) (new_payload-eq limit) ∙ push_all-accumulated chunks limit []
