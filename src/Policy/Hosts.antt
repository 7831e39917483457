-- ===== src/Policy/Hosts.antt =====
-- Hosts of crates/capture-policy/src/lib.rs: `normalize_host`, `valid_host`,
-- `valid_additional_host` and `normalize_additional_hosts`.
pub mod Sorting
pub mod Laws
use code_is_cheap.Common.{
  ℕ, ◌≡◌, Bool, true, false, not, ◌&&◌, ◌||◌, Option, none, some, List, [], ◌∷◌, map, ltb, leb,
  ◌==◌, if◌then◌else◌, length, is_empty, any, all, Result, ok, err, ◌>>=◌, ◌>>◌, fail_if,
}
use code_is_cheap.Text.{
  Text, text_eq, utf8, byte_len, trim, trim_end_matches, to_ascii_lowercase, contains_any, contains,
  is_whitespace, is_ascii_alphanumeric, split,
}
use code_is_cheap.Net.{is_ip_addr}
use code_is_cheap.Policy.{
  PolicyError, too_many_additional_hosts, invalid_additional_host, duplicate_additional_host,
  max_additional_target_hosts,
}

abbrev pub is_dot : ℕ → Bool
is_dot c = c == b'.'

unfoldable pub normalize_host : Text → Text
unfolding trim trim_end_matches to_ascii_lowercase
normalize_host host = to_ascii_lowercase (trim_end_matches is_dot (trim host))

-- `/`, `*`, space, tab, carriage return and line feed.
abbrev pub host_breakers : Text
host_breakers = b'/' ∷ b'*' ∷ 32 ∷ 9 ∷ 13 ∷ 10 ∷ []

unfoldable pub valid_host : Text → Bool
unfolding text_eq normalize_host contains_any
valid_host host =
    not (is_empty host)
    && text_eq host (normalize_host host)
    && not (contains_any host_breakers host)

abbrev first_is : (ℕ → Bool) → List ℕ → Bool
first_is p [] = false
first_is p (c ∷ s) = p c

abbrev last_is : (ℕ → Bool) → List ℕ → Bool
last_is p [] = false
last_is p (c ∷ []) = p c
last_is p (c ∷ d ∷ s) = last_is p (d ∷ s)

abbrev pub is_label_byte : ℕ → Bool
is_label_byte b = is_ascii_alphanumeric b || b == b'-'

unfoldable pub valid_label : Text → Bool
unfolding byte_len utf8 is_ascii_alphanumeric
valid_label label =
    not (is_empty label)
    && leb (byte_len label) 63
    && all is_label_byte (utf8 label)
    && first_is is_ascii_alphanumeric (utf8 label)
    && last_is is_ascii_alphanumeric (utf8 label)

unfoldable pub valid_additional_host : Text → Bool
unfolding byte_len contains_any is_whitespace is_ip_addr split valid_label
valid_additional_host host =
    if is_empty host
      || ltb 253 (byte_len host)
      || contains_any (b',' ∷ []) host
      || any is_whitespace host
    then false
    else if is_ip_addr host
    then true
    else all valid_label (split b'.' host)

-- The order of strings in Rust: that of their bytes.
unfoldable pub bytes_le : List ℕ → List ℕ → Bool
bytes_le [] t = true
bytes_le (c ∷ s) [] = false
bytes_le (c ∷ s) (d ∷ t) = ltb c d || (c == d && bytes_le s t)

unfoldable pub text_le : Text → Text → Bool
unfolding bytes_le utf8
text_le a b = bytes_le (utf8 a) (utf8 b)

-- `slice::sort`, on texts.
unfoldable pub insert_sorted : Text → List Text → List Text
unfolding text_le
insert_sorted x [] = x ∷ []
insert_sorted x (y ∷ ys) = if text_le x y then x ∷ y ∷ ys else y ∷ insert_sorted x ys

unfoldable pub sort : List Text → List Text
unfolding insert_sorted
sort [] = []
sort (x ∷ xs) = insert_sorted x (sort xs)

-- The loop of `normalize_additional_hosts`, with the set of the hosts seen.
unfoldable pub collect_hosts : List Text → List Text → Result PolicyError (List Text)
unfolding normalize_host valid_additional_host contains
collect_hosts [] seen = ok []
collect_hosts (host ∷ hosts) seen = do
  let normalized = normalize_host host
  fail_if (not (valid_additional_host normalized)) (invalid_additional_host host)
  fail_if (contains normalized seen) (duplicate_additional_host normalized)
  rest ← collect_hosts hosts (normalized ∷ seen)
  ok (normalized ∷ rest)

unfoldable pub normalize_additional_hosts : List Text → Result PolicyError (List Text)
unfolding collect_hosts sort
normalize_additional_hosts hosts = do
  fail_if (ltb max_additional_target_hosts (length hosts)) too_many_additional_hosts
  normalized_hosts ← collect_hosts hosts []
  ok (sort normalized_hosts)
