-- ===== src/Process/Macos.antt =====
-- crates/process-attribution/src/macos.rs: the owner of a connection in the output of lsof, and the
-- way Rust's standard library displays the two addresses.
use code_is_cheap.Common.{
  ℕ, zero, suc, ◌+◌, ◌-◌, ◌*◌, Bool, true, false, not, ◌&&◌, Option, none, some, List, [], ◌∷◌,
  ◌++◌, length, take, drop, ltb, ◌==◌, if◌then◌else◌, is_empty, Result, ok, err,
}
use mathlib.Core.List.{reverse}
use code_is_cheap.Text.{Text, text, text_eq}
use code_is_cheap.Text.Numbers.{decimal, digits_on, parse_unsigned, u32_max}
use code_is_cheap.Text.Lines.{lines, strip_prefix}
use code_is_cheap.Process.{SocketAddr, v4, v6, IoError, ProcessAttributionError, command_failed, io}

abbrev lower_hex_digit : ℕ → ℕ
lower_hex_digit d = if ltb d 10 then b'0' + d else b'a' + (d - 10)

-- `{:x}`
unfoldable pub lower_hex : ℕ → Text
unfolding digits_on
lower_hex n = digits_on 16 lower_hex_digit (suc n) n []

abbrev joined : ℕ → List Text → Text
joined sep [] = []
joined sep (w ∷ []) = w
joined sep (w ∷ v ∷ ws) = w ++ sep ∷ joined sep (v ∷ ws)

abbrev mapped : (ℕ → Text) → List ℕ → List Text
mapped f [] = []
mapped f (n ∷ ns) = f n ∷ mapped f ns

unfoldable pub show_ipv4 : List ℕ → Text
unfolding decimal
show_ipv4 octets = joined b'.' (mapped decimal octets)

abbrev segments : List ℕ → List ℕ
segments (a ∷ b ∷ octets) = (a * 256 + b) ∷ segments octets
segments _ = []

-- A run of zeros: where it starts, and how long it is.
pub record Span : Type 0 where
  pub start : ℕ
  pub len : ℕ

-- The first of the longest runs of zeros, from the segment `i` on.
unfoldable pub longest_zeros : List ℕ → ℕ → Span → Span → Span
longest_zeros [] i current longest = longest
longest_zeros (s ∷ ss) i current longest =
    let longer : Span = record {
      start = if current.len == 0 then i else current.start;
      len = current.len + 1;
    } in
    let zero_rest =
      longest_zeros ss (i + 1) longer (if ltb longest.len longer.len then longer else longest) in
    let other_rest = longest_zeros ss (i + 1) (record { start = 0; len = 0 }) longest in
    if s == 0 then zero_rest else other_rest

unfoldable pub show_groups : List ℕ → Text
unfolding lower_hex
show_groups ss = joined b':' (mapped lower_hex ss)

unfoldable pub show_segments : List ℕ → Text
unfolding longest_zeros show_groups
show_segments ss =
    let none_yet : Span = record { start = 0; len = 0 } in
    let longest = longest_zeros ss 0 none_yet none_yet in
    if ltb 1 longest.len
    then show_groups (take longest.start ss)
      ++ text "::"
      ++ show_groups (drop (longest.start + longest.len) ss)
    else show_groups ss

-- `Ipv6Addr::to_ipv4_mapped`
abbrev is_mapped : List ℕ → Bool
is_mapped octets = text_eq (take 12 octets) (0 ∷ 0 ∷ 0 ∷ 0 ∷ 0 ∷ 0 ∷ 0 ∷ 0 ∷ 0 ∷ 0 ∷ 255 ∷ 255 ∷ [])

unfoldable pub show_ipv6 : List ℕ → Text
unfolding show_ipv4 show_segments text_eq
show_ipv6 octets =
    if is_mapped octets
    then text "::ffff:" ++ show_ipv4 (drop 12 octets)
    else show_segments (segments octets)

unfoldable pub show_addr : SocketAddr → Text
unfolding show_ipv4 show_ipv6 decimal
show_addr (v4 a) = show_ipv4 a.octets ++ text ":" ++ decimal a.port
show_addr (v6 a) =
    if a.scope_id == 0
    then text "[" ++ show_ipv6 a.octets ++ text "]:" ++ decimal a.port
    else text "["
      ++ show_ipv6 a.octets
      ++ text "%"
      ++ decimal a.scope_id
      ++ text "]:"
      ++ decimal a.port

-- `trim_end_matches` with a text, on the reversed texts; `fuel` is the length.
unfoldable pub trim_prefixes : ℕ → Text → Text → Text
unfolding strip_prefix
trim_prefixes zero p s = s
trim_prefixes (suc fuel) p s = elim (strip_prefix p s) [
  | none ↦ s
  | some rest ↦ trim_prefixes fuel p rest
]

unfoldable pub trim_end_text : Text → Text → Text
unfolding trim_prefixes
trim_end_text p s = reverse (trim_prefixes (length s) (reverse p) (reverse s))

abbrev non_zero : Option ℕ → Option ℕ
non_zero none = none
non_zero (some n) = if n == 0 then none else some n

-- The lines that are left, behind the last process id.
unfoldable pub scan_lsof : Text → List Text → Option ℕ → Option ℕ
unfolding strip_prefix parse_unsigned trim_end_text text_eq
scan_lsof expected [] process_id = none
scan_lsof expected (line ∷ more) process_id = elim (strip_prefix (text "p") line) [
  | some value ↦ scan_lsof expected more (parse_unsigned u32_max value)
  | none ↦ elim (strip_prefix (text "n") line) [
    | none ↦ scan_lsof expected more process_id
    | some name ↦ elim (text_eq (trim_end_text (text " (ESTABLISHED)") name) expected) [
      | true ↦ non_zero process_id
      | false ↦ scan_lsof expected more process_id
    ]
  ]
]

unfoldable pub parse_lsof_pid : Text → SocketAddr → SocketAddr → Option ℕ
unfolding scan_lsof lines show_addr
parse_lsof_pid output client server =
    scan_lsof (show_addr client ++ text "->" ++ show_addr server) (lines output) none

-- The output of a command. Its standard output is what `from_utf8_lossy` makes of it.
pub record Output : Type 0 where
  pub success : Bool
  pub code : Option ℕ
  pub stdout : Text

abbrev is_one : Option ℕ → Bool
is_one none = false
is_one (some code) = code == 1

-- `lsof` is the run of the command.
unfoldable pub resolve_macos :
    Result IoError Output → SocketAddr → SocketAddr → Result ProcessAttributionError (Option ℕ)
unfolding parse_lsof_pid
resolve_macos (err error) client server = err (io error)
resolve_macos (ok output) client server =
    if not output.success
    then if is_one output.code && is_empty output.stdout
      then ok none
      else err (command_failed output.code)
    else ok (parse_lsof_pid output.stdout client server)
