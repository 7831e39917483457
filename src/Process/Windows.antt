-- ===== src/Process/Windows.antt =====
-- crates/process-attribution/src/windows.rs: the table of connections that GetExtendedTcpTable
-- gives, its rows and the owner of a connection. Windows runs on little-endian machines, and usize
-- has 64 bits.
pub mod Rows
use code_is_cheap.Common.{
  ℕ, zero, suc, ◌+◌, ◌*◌, ◌/◌, ◌%◌, Bool, true, false, not, ◌&&◌, Option, none, some, List, [], ◌∷◌,
  length, take, drop, ltb, leb, ◌==◌, if◌then◌else◌, Result, ok, err, ◌>>=◌, ◌>>◌, fail_if, ok_or,
}
use code_is_cheap.Text.{text_eq}
use code_is_cheap.Text.Numbers.{u64_max}
use code_is_cheap.Process.{
  SocketAddrV4, SocketAddrV6, SocketAddr, v4, v6, ProcessAttributionError, invalid_system_table,
  address_family_mismatch, system_status, from_le_bytes, to_le_bytes,
}

-- `usize::checked_mul` and `checked_add`.
abbrev pub checked : ℕ → Option ℕ
checked n = if leb n u64_max then some n else none

abbrev checked_add_to : Option ℕ → ℕ → Option ℕ
checked_add_to none n = none
checked_add_to (some m) n = checked (m + n)

-- `size_of::<u32>()`
abbrev pub header_size : ℕ
header_size = 4

-- The loop over `index..index + left`: each row is read at its offset, without a check.
unfoldable pub read_rows {ℓ} : {T : Type ℓ} → ℕ → (List ℕ → T) → List ℕ → ℕ → ℕ → List T
read_rows size read table index zero = []
read_rows size read table index (suc left) =
    read (take size (drop (header_size + index * size) table))
    ∷ read_rows size read table (index + 1) left

-- `size` is the size of a row, and `read` makes a row of so many bytes.
unfoldable pub table_rows {ℓ} :
    {T : Type ℓ} → ℕ → (List ℕ → T) → List ℕ → Result ProcessAttributionError (List T)
unfolding read_rows
table_rows size read table =
    fail_if (ltb (length table) header_size) invalid_system_table
    >> (let count = from_le_bytes (take header_size table) in
        ok_or (checked_add_to (checked (count * size)) header_size) invalid_system_table
        >>= λ rows_size.
            fail_if (ltb (length table) rows_size) invalid_system_table
            >> ok (read_rows size read table 0 count))

-- `u16::from_be(value as u16)`
unfoldable pub network_port : ℕ → ℕ
network_port value = value % 256 * 256 + value / 256 % 256

-- What the code reads of MIB_TCPROW_OWNER_PID and of MIB_TCP6ROW_OWNER_PID.
pub record TcpRow : Type 0 where
  pub local_addr : ℕ
  pub local_port : ℕ
  pub remote_addr : ℕ
  pub remote_port : ℕ
  pub owning_pid : ℕ

pub record Tcp6Row : Type 0 where
  pub local_addr : List ℕ
  pub local_scope_id : ℕ
  pub local_port : ℕ
  pub remote_addr : List ℕ
  pub remote_scope_id : ℕ
  pub remote_port : ℕ
  pub owning_pid : ℕ

-- `==` of addresses.
abbrev pub same_v4 : SocketAddrV4 → SocketAddrV4 → Bool
same_v4 a b = text_eq a.octets b.octets && a.port == b.port

abbrev pub same_v6 : SocketAddrV6 → SocketAddrV6 → Bool
same_v6 a b =
    text_eq a.octets b.octets
    && a.port == b.port
    && a.flowinfo == b.flowinfo
    && a.scope_id == b.scope_id

abbrev then_some : Bool → ℕ → Option ℕ
then_some true n = some n
then_some false n = none

unfoldable pub find_row : SocketAddrV4 → SocketAddrV4 → List TcpRow → Option ℕ
unfolding network_port text_eq
find_row client server [] = none
find_row client server (row ∷ rows) =
    let local : SocketAddrV4 = record {
      octets = to_le_bytes 4 row.local_addr;
      port = network_port row.local_port;
    } in
    let remote : SocketAddrV4 = record {
      octets = to_le_bytes 4 row.remote_addr;
      port = network_port row.remote_port;
    } in
    let rest = find_row client server rows in
    if same_v4 local client && same_v4 remote server
    then then_some (not (row.owning_pid == 0)) row.owning_pid
    else rest

unfoldable pub find_row6 : SocketAddrV6 → SocketAddrV6 → List Tcp6Row → Option ℕ
unfolding network_port text_eq
find_row6 client server [] = none
find_row6 client server (row ∷ rows) =
    let local : SocketAddrV6 = record {
      octets = row.local_addr;
      port = network_port row.local_port;
      flowinfo = 0;
      scope_id = row.local_scope_id;
    } in
    let remote : SocketAddrV6 = record {
      octets = row.remote_addr;
      port = network_port row.remote_port;
      flowinfo = 0;
      scope_id = row.remote_scope_id;
    } in
    let rest = find_row6 client server rows in
    if same_v6 local client && same_v6 remote server
    then then_some (not (row.owning_pid == 0)) row.owning_pid
    else rest

-- GetExtendedTcpTable for a family of addresses: with no buffer, or one of so many bytes, and the
-- size in, it gives its status, the size out and what the buffer holds then.
pub record TcpApi : Type 0 where
  pub get_extended_tcp_table : ℕ → Option ℕ → ℕ → ℕ × ℕ × List ℕ
  pub row_size : ℕ
  pub read_row : List ℕ → TcpRow
  pub row6_size : ℕ
  pub read_row6 : List ℕ → Tcp6Row

abbrev pub no_error : ℕ
no_error = 0

abbrev pub error_insufficient_buffer : ℕ
error_insufficient_buffer = 122

unfoldable pub tcp_table : TcpApi → ℕ → Result ProcessAttributionError (List ℕ)
tcp_table api address_family =
    let (first, size, nothing) = api.get_extended_tcp_table address_family none 0 in
    fail_if (not (first == error_insufficient_buffer) && not (first == no_error))
      (system_status first)
    >> (fail_if (ltb size header_size) invalid_system_table
        >> (let (status, size_out, table) =
              api.get_extended_tcp_table address_family (some size) size in
            fail_if (not (status == no_error)) (system_status status) >> ok (take size_out table)))

abbrev pub af_inet : ℕ
af_inet = 2

abbrev pub af_inet6 : ℕ
af_inet6 = 23

unfoldable pub resolve_ipv4 :
    TcpApi → SocketAddrV4 → SocketAddrV4 → Result ProcessAttributionError (Option ℕ)
unfolding tcp_table table_rows find_row
resolve_ipv4 api client server = tcp_table api af_inet >>= λ table.
    table_rows api.row_size api.read_row table >>= λ rows. ok (find_row client server rows)

unfoldable pub resolve_ipv6 :
    TcpApi → SocketAddrV6 → SocketAddrV6 → Result ProcessAttributionError (Option ℕ)
unfolding tcp_table table_rows find_row6
resolve_ipv6 api client server = tcp_table api af_inet6 >>= λ table.
    table_rows api.row6_size api.read_row6 table >>= λ rows. ok (find_row6 client server rows)

unfoldable pub resolve_windows :
    TcpApi → SocketAddr → SocketAddr → Result ProcessAttributionError (Option ℕ)
unfolding resolve_ipv4 resolve_ipv6
resolve_windows api (v4 client) (v4 server) = resolve_ipv4 api client server
resolve_windows api (v6 client) (v6 server) = resolve_ipv6 api client server
resolve_windows api _ _ = err address_family_mismatch
