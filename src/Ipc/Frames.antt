-- ===== src/Ipc/Frames.antt =====
-- What `read_frame` reads, however the bytes of the stream come in.
use code_is_cheap.Common.{
  some_injective, concat, ℕ, ◌+◌, ◌≤◌, ◌<◌, ◌≡◌, refl, sym, ap, ◌∙◌, inl, inr, false, if◌then◌else◌,
  ltb, ◌==◌, is_empty, length, length-append, Option, none, some, Option-cases, Bool-cases, List,
  [], ◌∷◌, ◌++◌, map, All, arith, Result, err,
}
use mathlib.Core.List.{append_assoc, append-nil}
use code_is_cheap.Ipc.{
  onto, add_buffer, IpcError, empty_frame, frame_too_large, Fill, buffer, split_line, strip_return,
  end_frame, read_frame,
}

-- The frame at the start of a stream: the line without its end, if it is not too long; a stream
-- that ends before a newline has none.
abbrev line_result : ℕ → List ℕ → Option (List ℕ × List ℕ) → Result IpcError (List ℕ)
line_result max_bytes bytes none =
    if ltb max_bytes (length bytes) then err frame_too_large else err empty_frame
line_result max_bytes bytes (some line) =
    if ltb max_bytes (length line.0) then err frame_too_large else end_frame (strip_return line.0)

abbrev pub frame_of : ℕ → List ℕ → Result IpcError (List ℕ)
frame_of max_bytes bytes = line_result max_bytes bytes (split_line bytes)

abbrev behind : List ℕ → Option (List ℕ × List ℕ) → Option (List ℕ × List ℕ)
behind xs none = none
behind xs (some line) = some (xs ++ line.0, line.1)

onto-behind :
    (x : ℕ) (xs : List ℕ) (o : Option (List ℕ × List ℕ)) → onto x (behind xs o) ≡ behind (x ∷ xs) o
onto-behind x xs none = refl
onto-behind x xs (some line) = refl

split_line-none :
    (xs ys : List ℕ) → split_line xs ≡ none → split_line (xs ++ ys) ≡ behind xs (split_line ys)
unfolding split_line
split_line-none [] ys h = behind_nil (split_line ys)
  where
    behind_nil : (o : Option (List ℕ × List ℕ)) → o ≡ behind [] o
    behind_nil none = refl
    behind_nil (some line) = refl
split_line-none (x ∷ xs) ys h = elim (Bool-cases (x == 10)) [
  | inl q ↦ absurd (cc (h, ap (λ b. if b then some ([], xs) else onto x (split_line xs)) q))
  | inr q ↦ elim (Option-cases (split_line xs)) [
    | inl e ↦ rw q (ap (onto x) (split_line-none xs ys e) ∙ onto-behind x xs (split_line ys))
    | inr (l, e) ↦
        absurd
          (cc (h, ap (λ b. if b then some ([], xs) else onto x (split_line xs)) q, ap (onto x) e))
  ]
]

split_line-some :
    (xs ys : List ℕ) (line : List ℕ × List ℕ)
    → split_line xs ≡ some line
    → split_line (xs ++ ys) ≡ some (line.0, line.1 ++ ys)
unfolding split_line
split_line-some [] ys line h = absurd (cc)
split_line-some (x ∷ xs) ys line h = elim (Bool-cases (x == 10)) [
  | inl q ↦
      (let e =
          some_injective
            (sym (ap (λ b. if b then some ([], xs) else onto x (split_line xs)) q) ∙ h) in
        rw q (ap (λ l. some (l.0, l.1 ++ ys)) e))
  | inr q ↦ elim (Option-cases (split_line xs)) [
    | inl e ↦
        absurd
          (cc (h, ap (λ b. if b then some ([], xs) else onto x (split_line xs)) q, ap (onto x) e))
    | inr (l, e) ↦
        (let k = some_injective (
            sym (ap (onto x) e)
            ∙ sym (ap (λ b. if b then some ([], xs) else onto x (split_line xs)) q)
            ∙ h) in
          rw q (ap (onto x) (split_line-some xs ys l e) ∙ ap (λ m. some (m.0, m.1 ++ ys)) k))
  ]
]

-- A frame that is already too long stays too long, whatever follows.
too_long :
    (max_bytes : ℕ) (xs ys : List ℕ)
    → split_line xs ≡ none
    → max_bytes < length xs
    → frame_of max_bytes (xs ++ ys) ≡ err frame_too_large
too_long max_bytes xs ys h l = rw (split_line-none xs ys h) (too_long_behind (split_line ys))
  where
    too_long_behind :
        (o : Option (List ℕ × List ℕ))
        → line_result max_bytes (xs ++ ys) (behind xs o) ≡ err frame_too_large
    too_long_behind none = ground (arith, length-append xs ys)
    too_long_behind (some line) = ground (arith, length-append xs line.0)

at_newline :
    (max_bytes : ℕ) (frame chunk rest : List ℕ) (line : List ℕ × List ℕ)
    → split_line frame ≡ none
    → split_line chunk ≡ some line
    → frame_of max_bytes (frame ++ (chunk ++ rest)) ≡ (
        if ltb max_bytes (length frame + length line.0)
        then err frame_too_large
        else end_frame (strip_return (frame ++ line.0)))
at_newline max_bytes frame chunk rest line h k =
    rw
      (
        split_line-none frame (chunk ++ rest) h,
        split_line-some chunk rest line k,
        length-append frame line.0,
      )
      refl

add_buffer-eq :
    (max_bytes : ℕ) (frame chunk rest : List ℕ) (reader : List Fill)
    (onward : Result IpcError (List ℕ) × List Fill) (o : Option (List ℕ × List ℕ))
    → split_line frame ≡ none
    → split_line chunk ≡ o
    → (split_line (frame ++ chunk) ≡ none
        → length (frame ++ chunk) ≤ max_bytes
        → onward.0 ≡ frame_of max_bytes ((frame ++ chunk) ++ rest))
    → (add_buffer max_bytes frame chunk reader onward o).0
      ≡ frame_of max_bytes (frame ++ (chunk ++ rest))
add_buffer-eq max_bytes frame chunk rest reader onward (some line) h k f =
    elim (Bool-cases (ltb max_bytes (length frame + length line.0))) [
      | inl q ↦ rw q (
          sym (
            at_newline max_bytes frame chunk rest line h k
            ∙ ap
                (λ b. if b then err frame_too_large else end_frame (strip_return (frame ++ line.0)))
                q))
      | inr q ↦ rw q (
          sym (
            at_newline max_bytes frame chunk rest line h k
            ∙ ap
                (λ b. if b then err frame_too_large else end_frame (strip_return (frame ++ line.0)))
                q))
    ]
add_buffer-eq max_bytes frame chunk rest reader onward none h k f =
    let split : split_line (frame ++ chunk) ≡ none =
      split_line-none frame chunk h ∙ ap (behind frame) k in
    elim (Bool-cases (ltb max_bytes (length frame + length chunk))) [
      | inl q ↦ rw q (
          sym (
            too_long max_bytes (frame ++ chunk) rest split
              (ground (arith, length-append frame chunk)))
          ∙ ap (frame_of max_bytes) (append_assoc frame chunk rest))
      | inr q ↦ rw q (
          f split (ground (arith, length-append frame chunk))
          ∙ ap (frame_of max_bytes) (append_assoc frame chunk rest))
    ]

-- However a stream of bytes is cut into buffers, `read_frame` gives the frame at its start: the
-- bytes before the first newline, without a carriage return at their end; it refuses an empty frame,
-- one of more than `max_bytes` bytes, and a stream that ends before the newline.
pub read_frame-eq :
    (max_bytes : ℕ) (chunks : List (List ℕ)) (frame : List ℕ)
    → All (λ chunk. is_empty chunk ≡ false) chunks
    → split_line frame ≡ none
    → length frame ≤ max_bytes
    → (read_frame max_bytes (map buffer chunks) frame).0
      ≡ frame_of max_bytes (frame ++ concat chunks)
unfolding read_frame
read_frame-eq max_bytes [] frame a h l = rw (append-nil frame, h) (ground arith)
read_frame-eq max_bytes ([] ∷ chunks) frame (e, a) h l = absurd (cc)
read_frame-eq max_bytes ((b ∷ bytes) ∷ chunks) frame (e, a) h l =
    add_buffer-eq max_bytes frame (b ∷ bytes) (concat chunks) (map buffer chunks) _
      (split_line (b ∷ bytes)) h refl
      (λ k m. read_frame-eq max_bytes chunks (frame ++ b ∷ bytes) a k m)
