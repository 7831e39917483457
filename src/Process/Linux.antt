-- ===== src/Process/Linux.antt =====
-- crates/process-attribution/src/linux.rs: the socket of a connection in /proc/net/tcp, and the
-- process that holds it open.
pub mod Verdicts
pub mod Sockets
pub mod Owners
pub mod Passed
pub mod Endpoints
pub mod Resolved
use code_is_cheap.Common.{
  ℕ, zero, suc, ◌+◌, ◌*◌, Bool, true, false, not, ◌&&◌, ◌||◌, Option, none, some, List, [], ◌∷◌,
  ◌++◌, length, get_elem?, drop, ltb, ◌==◌, if◌then◌else◌, Result, ok, err, ◌>>=◌, ok_or,
}
use code_is_cheap.Text.{Text, text, text_eq}
use code_is_cheap.Text.Numbers.{padded_hex, decimal, parse_unsigned, u32_max, u64_max}
use code_is_cheap.Text.Lines.{lines, split_whitespace}
use code_is_cheap.Process.{
  from_le_bytes, SocketAddrV4, SocketAddrV6, SocketAddr, v4, v6, IoError, not_found,
  permission_denied, other_error, ProcessAttributionError, invalid_system_table,
  address_family_mismatch, io,
}

abbrev pub tcp_established : Text
tcp_established = text "01"

unfoldable pub format_ipv4 : SocketAddrV4 → Text
unfolding padded_hex
format_ipv4 address =
    padded_hex 8 (from_le_bytes address.octets) ++ text ":" ++ padded_hex 4 address.port

-- The loop over `chunks_exact(4)`.
unfoldable pub encode_chunks : List ℕ → Text
unfolding padded_hex
encode_chunks (a ∷ b ∷ c ∷ d ∷ octets) =
    padded_hex 8 (from_le_bytes (a ∷ b ∷ c ∷ d ∷ [])) ++ encode_chunks octets
encode_chunks _ = []

unfoldable pub format_ipv6 : SocketAddrV6 → Text
unfolding encode_chunks padded_hex
format_ipv6 address = encode_chunks address.octets ++ text ":" ++ padded_hex 4 address.port

-- `columns[index]`, behind the test that there are ten.
abbrev pub column : List Text → ℕ → Text
column columns index = elim (get_elem? columns index) [ some value ↦ value | none ↦ [] ]

unfoldable pub is_connection : Text → Text → List Text → Bool
unfolding text_eq
is_connection client server columns =
    text_eq (column columns 1) client
    && text_eq (column columns 2) server
    && text_eq (column columns 3) tcp_established

abbrev pub differs_from : ℕ → Option ℕ → Bool
differs_from inode none = false
differs_from inode (some existing) = not (existing == inode)

-- What the loop does with the inode of a line that matches; `rest` goes on.
abbrev pub with_inode :
    Option ℕ
    → Option ℕ
    → (Option ℕ → Result ProcessAttributionError (Option ℕ))
    → Result ProcessAttributionError (Option ℕ)
with_inode none matching_inode rest = err invalid_system_table
with_inode (some inode) matching_inode rest = elim (inode == 0) [
  | true ↦ ok none
  | false ↦ elim (differs_from inode matching_inode) [ true ↦ ok none | false ↦ rest (some inode) ]
]

-- The lines behind the header.
unfoldable pub scan_lines :
    Text → Text → List Text → Option ℕ → Result ProcessAttributionError (Option ℕ)
unfolding split_whitespace is_connection parse_unsigned
scan_lines client server [] matching_inode = ok matching_inode
scan_lines client server (line ∷ more) matching_inode =
    elim (ltb (length (split_whitespace line)) 10) [
      | true ↦ err invalid_system_table
      | false ↦ elim (is_connection client server (split_whitespace line)) [
        | false ↦ scan_lines client server more matching_inode
        | true ↦
            with_inode (parse_unsigned u64_max (column (split_whitespace line) 9)) matching_inode
              (λ m. scan_lines client server more m)
      ]
    ]

unfoldable pub find_socket_inode : Text → Text → Text → Result ProcessAttributionError (Option ℕ)
unfolding lines scan_lines
find_socket_inode table client server = scan_lines client server (drop 1 (lines table)) none

unfoldable pub transient_proc_error : IoError → Bool
transient_proc_error not_found = true
transient_proc_error permission_denied = true
transient_proc_error (other_error kind) = false

-- An entry of a `fd` directory: its target by `read_link`. A path is compared as its text.
abbrev pub Descriptor : Type 0
Descriptor = Result IoError (Result IoError Text)

-- An entry of /proc: its name, if it is UTF-8, and what `read_dir` of its `fd` gives.
pub record ProcEntry : Type 0 where
  pub file_name : Option Text
  pub descriptors : Result IoError (List Descriptor)

-- Whether a descriptor of the process is the socket. The loop ends with the first that is.
unfoldable pub scan_descriptors : Text → List Descriptor → Result ProcessAttributionError Bool
unfolding transient_proc_error text_eq
scan_descriptors expected [] = ok false
scan_descriptors expected (err error ∷ more) = elim (transient_proc_error error) [
  | true ↦ scan_descriptors expected more
  | false ↦ err (io error)
]
scan_descriptors expected (ok (err error) ∷ more) = elim (transient_proc_error error) [
  | true ↦ scan_descriptors expected more
  | false ↦ err (io error)
]
scan_descriptors expected (ok (ok target) ∷ more) = elim (text_eq target expected) [
  | true ↦ ok true
  | false ↦ scan_descriptors expected more
]

-- `BTreeSet::insert`: the set lists its elements in ascending order.
unfoldable pub insert_owner : ℕ → List ℕ → List ℕ
insert_owner id [] = id ∷ []
insert_owner id (o ∷ os) =
    let rest = insert_owner id os in
    if id == o then o ∷ os else if ltb id o then id ∷ o ∷ os else o ∷ rest

abbrev pub first_owner : List ℕ → Option ℕ
first_owner [] = none
first_owner (o ∷ os) = some o

-- `process.file_name().to_str().and_then(|name| name.parse::<u32>().ok())`
unfoldable pub process_id_of : Option Text → Option ℕ
unfolding parse_unsigned
process_id_of none = none
process_id_of (some name) = parse_unsigned u32_max name

-- One turn of the loop over the processes, with the owners so far; `rest` goes on.
abbrev pub visit_process :
    Text
    → Option ℕ
    → Result IoError (List Descriptor)
    → List ℕ
    → (List ℕ → Result ProcessAttributionError (Option ℕ))
    → Result ProcessAttributionError (Option ℕ)
visit_process expected none descriptors owners rest = rest owners
visit_process expected (some process_id) (err error) owners rest =
    elim (transient_proc_error error) [ true ↦ rest owners | false ↦ err (io error) ]
visit_process expected (some process_id) (ok descriptors) owners rest =
    scan_descriptors expected descriptors >>= λ found. elim found [
      | false ↦ rest owners
      | true ↦ elim (ltb 1 (length (insert_owner process_id owners))) [
        | true ↦ ok none
        | false ↦ rest (insert_owner process_id owners)
      ]
    ]

unfoldable pub scan_processes :
    Text → List (Result IoError ProcEntry) → List ℕ → Result ProcessAttributionError (Option ℕ)
unfolding transient_proc_error process_id_of scan_descriptors insert_owner
scan_processes expected [] owners = ok (first_owner owners)
scan_processes expected (err error ∷ more) owners = elim (transient_proc_error error) [
  | true ↦ scan_processes expected more owners
  | false ↦ err (io error)
]
scan_processes expected (ok process ∷ more) owners =
    visit_process expected (process_id_of process.file_name) process.descriptors owners
      (λ owners'. scan_processes expected more owners')

abbrev pub Processes : Type 0
Processes = Result IoError (List (Result IoError ProcEntry))

-- `format!("socket:[{inode}]")`
unfoldable pub socket_link : ℕ → Text
unfolding decimal
socket_link inode = text "socket:[" ++ decimal inode ++ text "]"

unfoldable pub find_unique_owner : Processes → ℕ → Result ProcessAttributionError (Option ℕ)
unfolding scan_processes socket_link
find_unique_owner (err error) inode = err (io error)
find_unique_owner (ok processes) inode = scan_processes (socket_link inode) processes []

-- The files that `resolve` reads: `fs::read_to_string` and the entries of /proc.
pub record ProcFiles : Type 0 where
  pub read_to_string : Text → Result IoError Text
  pub processes : Processes

abbrev from_io : Result IoError Text → Result ProcessAttributionError Text
from_io (ok contents) = ok contents
from_io (err error) = err (io error)

-- The path of the table and the two endpoints as it writes them.
unfoldable pub table_of :
    SocketAddr → SocketAddr → Result ProcessAttributionError (Text × Text × Text)
unfolding format_ipv4 format_ipv6
table_of (v4 client) (v4 server) = ok (text "/proc/net/tcp", format_ipv4 client, format_ipv4 server)
table_of (v6 client) (v6 server) =
    ok (text "/proc/net/tcp6", format_ipv6 client, format_ipv6 server)
table_of _ _ = err address_family_mismatch

abbrev pub owner_of_inode : Processes → Option ℕ → Result ProcessAttributionError (Option ℕ)
owner_of_inode processes none = ok none
owner_of_inode processes (some inode) = find_unique_owner processes inode

unfoldable pub resolve_linux :
    ProcFiles → SocketAddr → SocketAddr → Result ProcessAttributionError (Option ℕ)
unfolding table_of find_socket_inode find_unique_owner
resolve_linux files client server = table_of client server >>= λ (path, local, remote).
    from_io (files.read_to_string path) >>= λ table.
    find_socket_inode table local remote >>= λ inode. owner_of_inode files.processes inode
