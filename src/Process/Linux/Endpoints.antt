-- ===== src/Process/Linux/Endpoints.antt =====
-- crates/process-attribution/src/linux.rs: the endpoints as /proc/net/tcp writes them, read back.
use code_is_cheap.Common.{
  ℕ, zero, suc, ◌+◌, ◌*◌, ◌/◌, ◌%◌, ◌^◌, ◌<◌, ◌≡◌, refl, sym, ap, ◌∙◌, Option, none, some, List, [],
  ◌∷◌, ◌++◌, length, length-append, take, drop, take-length, drop-length, subst, All, arith,
}
use mathlib.Core.List.{append_assoc, append-nil}
use code_is_cheap.Text.{Text, text}
use code_is_cheap.Text.Numbers.{padded_hex}
use code_is_cheap.Text.Hex.{read_hex, read_hex-padded_hex, length-padded_hex}
use code_is_cheap.Process.{from_le_bytes, to_le_bytes, SocketAddr, v4, v6}
use code_is_cheap.Process.Linux.{format_ipv4, encode_chunks, format_ipv6}

abbrev IsByte : ℕ → Type 0
IsByte b = b < 256

to_le_bytes-from : (bs : List ℕ) → All IsByte bs → to_le_bytes (length bs) (from_le_bytes bs) ≡ bs
to_le_bytes-from [] h = refl
to_le_bytes-from (b ∷ bs) (p, h) = cc (
  (let q : (b + 256 * from_le_bytes bs) % 256 ≡ b = omega arith in q),
  (let q : (b + 256 * from_le_bytes bs) / 256 ≡ from_le_bytes bs = omega arith in q),
  to_le_bytes-from bs h,
)

abbrev word_octets : Option ℕ → Option (List ℕ) → Option (List ℕ)
word_octets (some word) (some octets) = some (to_le_bytes 4 word ++ octets)
word_octets _ _ = none

-- A reader of the first `count` words of eight digits.
unfoldable pub read_words : ℕ → Text → Option (List ℕ)
unfolding read_hex
read_words zero s = some []
read_words (suc count) s = word_octets (read_hex 0 (take 8 s)) (read_words count (drop 8 s))

abbrev with_port : Option (List ℕ) → Option ℕ → Option (List ℕ × ℕ)
with_port (some octets) (some port) = some (octets, port)
with_port _ _ = none

-- An endpoint of so many words: the octets and the port.
unfoldable pub read_endpoint : ℕ → Text → Option (List ℕ × ℕ)
unfolding read_words read_hex
read_endpoint count s = with_port (read_words count s) (read_hex 0 (drop (suc (8 * count)) s))

abbrev pub octets_of : SocketAddr → List ℕ
octets_of (v4 a) = a.octets
octets_of (v6 a) = a.octets

abbrev pub port_of : SocketAddr → ℕ
port_of (v4 a) = a.port
port_of (v6 a) = a.port

abbrev pub word_count : SocketAddr → ℕ
word_count (v4 a) = 1
word_count (v6 a) = 4

-- The octets are as many as the kind of address has, and they and the port fit in their types.
abbrev pub IsAddr : SocketAddr → Type 0
IsAddr a =
    (length (octets_of a) ≡ 4 * word_count a) × All IsByte (octets_of a) × (port_of a < 2 ^ 16)

abbrev pub format_endpoint : SocketAddr → Text
format_endpoint (v4 a) = format_ipv4 a
format_endpoint (v6 a) = format_ipv6 a

word-lt :
    (a b c d : ℕ)
    → a < 256
    → b < 256
    → c < 256
    → d < 256
    → from_le_bytes (a ∷ b ∷ c ∷ d ∷ []) < 16 ^ 8
word-lt a b c d p q r s = omega arith

read_words-chunk :
    (count w : ℕ) (s : Text)
    → w < 16 ^ 8
    → read_words (suc count) (padded_hex 8 w ++ s) ≡ word_octets (some w) (read_words count s)
unfolding read_words
read_words-chunk count w s h =
    let e : length (padded_hex 8 w) ≡ 8 = length-padded_hex 7 w h in
    cc (
      read_hex-padded_hex 8 w,
      subst (λ n. take n (padded_hex 8 w ++ s) ≡ padded_hex 8 w) e (take-length (padded_hex 8 w) s),
      subst (λ n. drop n (padded_hex 8 w ++ s) ≡ s) e (drop-length (padded_hex 8 w) s),
    )

read_words-encode :
    (count : ℕ) (octets : List ℕ) (s : Text)
    → length octets ≡ 4 * count
    → All IsByte octets
    → read_words count (encode_chunks octets ++ s) ≡ some octets
unfolding encode_chunks read_words
read_words-encode zero [] s e h = refl
read_words-encode zero (a ∷ octets) s e h = absurd (omega arith)
read_words-encode (suc count) [] s e h = absurd (omega arith)
read_words-encode (suc count) (a ∷ []) s e h = absurd (omega arith)
read_words-encode (suc count) (a ∷ b ∷ []) s e h = absurd (omega arith)
read_words-encode (suc count) (a ∷ b ∷ c ∷ []) s e h = absurd (omega arith)
read_words-encode (suc count) (a ∷ b ∷ c ∷ d ∷ octets) s e (p, (q, (r, (t, h)))) =
    let w : ℕ = from_le_bytes (a ∷ b ∷ c ∷ d ∷ []) in
    ap (λ x. read_words (suc count) x) (append_assoc (padded_hex 8 w) (encode_chunks octets) s)
    ∙ read_words-chunk count w (encode_chunks octets ++ s) (word-lt a b c d p q r t)
    ∙ ap (λ o. word_octets (some w) o) (read_words-encode count octets s (omega arith) h)
    ∙ ap (λ bs. some (bs ++ octets)) (to_le_bytes-from (a ∷ b ∷ c ∷ d ∷ []) (p, (q, (r, (t, tt)))))

length-encode :
    (count : ℕ) (octets : List ℕ)
    → length octets ≡ 4 * count
    → All IsByte octets
    → length (encode_chunks octets) ≡ 8 * count
unfolding encode_chunks
length-encode zero [] e h = refl
length-encode zero (a ∷ octets) e h = absurd (omega arith)
length-encode (suc count) [] e h = absurd (omega arith)
length-encode (suc count) (a ∷ []) e h = absurd (omega arith)
length-encode (suc count) (a ∷ b ∷ []) e h = absurd (omega arith)
length-encode (suc count) (a ∷ b ∷ c ∷ []) e h = absurd (omega arith)
length-encode (suc count) (a ∷ b ∷ c ∷ d ∷ octets) e (p, (q, (r, (t, h)))) = omega (
  arith,
  length-append (padded_hex 8 (from_le_bytes (a ∷ b ∷ c ∷ d ∷ []))) (encode_chunks octets),
  length-padded_hex 7 (from_le_bytes (a ∷ b ∷ c ∷ d ∷ [])) (word-lt a b c d p q r t),
  length-encode count octets (omega arith) h,
)

drop-encode :
    (count : ℕ) (octets : List ℕ) (s : Text)
    → length octets ≡ 4 * count
    → All IsByte octets
    → drop (suc (8 * count)) (encode_chunks octets ++ text ":" ++ s) ≡ s
drop-encode count octets s e h =
    let n : length (encode_chunks octets ++ text ":") ≡ suc (8 * count) =
      omega
        (arith, length-append (encode_chunks octets) (text ":"), length-encode count octets e h) in
    subst (λ k. drop k ((encode_chunks octets ++ text ":") ++ s) ≡ s) n
      (drop-length (encode_chunks octets ++ text ":") s)

read_endpoint-encode :
    (count port : ℕ) (octets : List ℕ)
    → length octets ≡ 4 * count
    → All IsByte octets
    → read_endpoint count (encode_chunks octets ++ text ":" ++ padded_hex 4 port)
      ≡ some (octets, port)
unfolding read_endpoint
read_endpoint-encode count port octets e h =
    let s : Text = encode_chunks octets ++ text ":" ++ padded_hex 4 port in
    cc (
      ap (λ t. read_words count t)
          (append_assoc (encode_chunks octets) (text ":") (padded_hex 4 port)),
      read_words-encode count octets (text ":" ++ padded_hex 4 port) e h,
      ap (λ t. read_hex 0 t) (drop-encode count octets (padded_hex 4 port) e h),
      read_hex-padded_hex 4 port,
    )

format_ipv4-encode :
    (octets : List ℕ) (port : ℕ)
    → length octets ≡ 4
    → format_ipv4 (record { octets = octets; port = port })
      ≡ encode_chunks octets ++ text ":" ++ padded_hex 4 port
unfolding format_ipv4 encode_chunks
format_ipv4-encode [] port e = absurd (omega arith)
format_ipv4-encode (a ∷ []) port e = absurd (omega arith)
format_ipv4-encode (a ∷ b ∷ []) port e = absurd (omega arith)
format_ipv4-encode (a ∷ b ∷ c ∷ []) port e = absurd (omega arith)
format_ipv4-encode (a ∷ b ∷ c ∷ d ∷ []) port e =
    ap (λ s. s ++ text ":" ++ padded_hex 4 port)
      (sym (append-nil (padded_hex 8 (from_le_bytes (a ∷ b ∷ c ∷ d ∷ [])))))
format_ipv4-encode (a ∷ b ∷ c ∷ d ∷ f ∷ octets) port e = absurd (omega arith)

format_endpoint-encode :
    (a : SocketAddr)
    → IsAddr a
    → format_endpoint a ≡ encode_chunks (octets_of a) ++ text ":" ++ padded_hex 4 (port_of a)
unfolding format_ipv4 format_ipv6 encode_chunks
format_endpoint-encode (v4 a) h = format_ipv4-encode a.octets a.port h.0
format_endpoint-encode (v6 a) h = refl

-- Reading an endpoint that /proc/net/tcp writes gives the octets and the port back.
pub read_endpoint-format :
    (a : SocketAddr)
    → IsAddr a
    → read_endpoint (word_count a) (format_endpoint a) ≡ some (octets_of a, port_of a)
read_endpoint-format a h =
    ap (λ s. read_endpoint (word_count a) s) (format_endpoint-encode a h)
    ∙ read_endpoint-encode (word_count a) (port_of a) (octets_of a) h.0 h.1
