-- ===== src/Samples/Processes.antt =====
-- Tests and concrete runs of the process attribution.
use code_is_cheap.Common.{
  ℕ, String, ◌≡◌, refl, true, none, some, List, [], ◌∷◌, ◌++◌, Result, ok, err, arith,
}
use code_is_cheap.Text.{Text, text}
use code_is_cheap.Process.{
  SocketAddr, v4, v6, IoError, not_found, permission_denied, address_family_mismatch, is_loopback,
  is_ipv4, resolve_loopback_client_pid, from_le_bytes,
}
use code_is_cheap.Process.Linux.{
  ProcFiles, ProcEntry, format_ipv4, format_ipv6, find_socket_inode, resolve_linux,
}
use code_is_cheap.Process.Linux.Endpoints.{
  IsAddr, read_endpoint, format_endpoint, read_endpoint-format,
}
use code_is_cheap.Process.Linux.Resolved.{IsClient, resolve_loopback-IsClient}
use code_is_cheap.Process.Windows.{table_rows, network_port}
use code_is_cheap.Process.Windows.Rows.{InBounds, table_rows-InBounds}
use code_is_cheap.Process.Macos.{parse_lsof_pid, show_addr}

abbrev client : SocketAddr
client = v4 (record { octets = 127 ∷ 0 ∷ 0 ∷ 1 ∷ []; port = 50000 })

abbrev server : SocketAddr
server = v4 (record { octets = 127 ∷ 0 ∷ 0 ∷ 1 ∷ []; port = 8787 })

abbrev loopback6 : SocketAddr
loopback6 = v6 (record {
  octets = 0 ∷ 0 ∷ 0 ∷ 0 ∷ 0 ∷ 0 ∷ 0 ∷ 0 ∷ 0 ∷ 0 ∷ 0 ∷ 0 ∷ 0 ∷ 0 ∷ 0 ∷ 1 ∷ [];
  port = 8787;
  flowinfo = 0;
  scope_id = 0;
})

formats_ipv4 : format_endpoint client ≡ text "0100007F:C350"
unfolding format_ipv4
formats_ipv4 = refl

formats_ipv6 : format_endpoint loopback6 ≡ text "00000000000000000000000001000000:2253"
unfolding format_ipv6
formats_ipv6 = refl

shows_ipv6 : show_addr loopback6 ≡ text "[::1]:8787"
unfolding show_addr
shows_ipv6 = refl

abbrev row : String → Text
row s = text s ++ 10 ∷ []

abbrev table : Text
table =
    row "  sl  local_address rem_address   st tx_queue rx_queue tr tm->when retrnsmt   uid  timeout"
    ++ row "   0: 0100007F:C350 0100007F:2253 01 0:0 0:0 0 1000 0 111 1"
    ++ row "   1: 0100007F:2253 0100007F:C350 01 0:0 0:0 0 1000 0 222 1"

abbrev process : String → String → Result IoError ProcEntry
process name target = ok (record {
  file_name = some (text name);
  descriptors = ok (err not_found ∷ ok (ok (text "/dev/null")) ∷ ok (ok (text target)) ∷ []);
})

abbrev files : ProcFiles
files = record {
  read_to_string = λ path. ok table;
  processes = ok (
      process "7" "socket:[222]"
      ∷ process "cpuinfo" "socket:[111]"
      ∷ ok (record { file_name = some (text "9"); descriptors = err permission_denied })
      ∷ process "42" "socket:[111]"
      ∷ []);
}

resolves : resolve_loopback_client_pid (resolve_linux files) client server ≡ ok (some 42)
unfolding resolve_loopback_client_pid resolve_linux
resolves = refl

mixed_families :
    resolve_loopback_client_pid (resolve_linux files) client loopback6 ≡ err address_family_mismatch
unfolding resolve_loopback_client_pid
mixed_families = refl

ambiguous :
    find_socket_inode
      (row "header" ++ row "0: A B 01 x x x x x 11" ++ row "1: A B 01 x x x x x 12")
      (text "A")
      (text "B")
    ≡ ok none
unfolding find_socket_inode
ambiguous = refl

resolve_loopback-IsClient_example :
    (is_loopback client ≡ true)
    × (is_loopback server ≡ true)
    × (is_ipv4 client ≡ is_ipv4 server)
    × IsClient files client server 42
resolve_loopback-IsClient_example = resolve_loopback-IsClient files client server 42 resolves

client-IsAddr : IsAddr client
client-IsAddr = (refl, (omega arith, (omega arith, (omega arith, (omega arith, tt)))), omega arith)

read_endpoint-format_example :
    read_endpoint 1 (format_endpoint client) ≡ some (127 ∷ 0 ∷ 0 ∷ 1 ∷ [], 50000)
read_endpoint-format_example = read_endpoint-format client client-IsAddr

-- Two rows of two bytes.
abbrev two_rows : List ℕ
two_rows = 2 ∷ 0 ∷ 0 ∷ 0 ∷ 10 ∷ 11 ∷ 12 ∷ 13 ∷ 99 ∷ []

reads_rows : table_rows 2 from_le_bytes two_rows ≡ ok (2826 ∷ 3340 ∷ [])
unfolding table_rows
reads_rows = refl

table_rows-InBounds_example : InBounds 2 from_le_bytes two_rows (2826 ∷ 3340 ∷ [])
table_rows-InBounds_example =
    table_rows-InBounds 2 from_le_bytes two_rows (2826 ∷ 3340 ∷ []) reads_rows

swaps_port : network_port 0x5322 ≡ 8787
unfolding network_port
swaps_port = refl

abbrev lsof_output : Text
lsof_output =
    row "p11"
    ++ row "f8"
    ++ row "n127.0.0.1:8787->127.0.0.1:50000"
    ++ row "p42"
    ++ row "f9"
    ++ row "n127.0.0.1:50000->127.0.0.1:8787 (ESTABLISHED)"

parses_lsof : parse_lsof_pid lsof_output client server ≡ some 42
unfolding parse_lsof_pid
parses_lsof = refl
