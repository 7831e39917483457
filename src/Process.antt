-- ===== src/Process.antt =====
-- crates/process-attribution/src/lib.rs: which process is the client of a connection on loopback.
pub mod Linux
pub mod Windows
pub mod Macos
use code_is_cheap.Common.{
  ℕ, zero, suc, ◌+◌, ◌*◌, ◌/◌, ◌%◌, Bool, true, false, not, ◌&&◌, ◌||◌, Option, none, some, List,
  [], ◌∷◌, ◌==◌, Result, ok, err, fail_if, ◌>>◌,
}
use code_is_cheap.Text.{text_eq}

-- An address is the list of its octets: four of them, or sixteen.
pub record SocketAddrV4 : Type 0 where
  pub octets : List ℕ
  pub port : ℕ

pub record SocketAddrV6 : Type 0 where
  pub octets : List ℕ
  pub port : ℕ
  pub flowinfo : ℕ
  pub scope_id : ℕ

pub data SocketAddr : Type 0 where
  v4 : SocketAddrV4 → SocketAddr
  v6 : SocketAddrV6 → SocketAddr

-- `io::Error`, by its kind.
pub data IoError : Type 0 where
  not_found permission_denied : IoError
  other_error : ℕ → IoError

-- An exit code is the bit pattern of an i32.
pub data ProcessAttributionError : Type 0 where
  non_loopback_connection address_family_mismatch invalid_system_table : ProcessAttributionError
  system_status : ℕ → ProcessAttributionError
  command_failed : Option ℕ → ProcessAttributionError
  io : IoError → ProcessAttributionError

-- `u32::from_le_bytes`.
abbrev pub from_le_bytes : List ℕ → ℕ
from_le_bytes [] = 0
from_le_bytes (b ∷ bs) = b + 256 * from_le_bytes bs

-- `u32::to_le_bytes`, for any number of bytes.
abbrev pub to_le_bytes : ℕ → ℕ → List ℕ
to_le_bytes zero n = []
to_le_bytes (suc k) n = n % 256 ∷ to_le_bytes k (n / 256)

abbrev starts_with_127 : List ℕ → Bool
starts_with_127 [] = false
starts_with_127 (o ∷ os) = o == 127

-- `IpAddr::is_loopback`.
unfoldable pub is_loopback : SocketAddr → Bool
unfolding text_eq
is_loopback (v4 a) = starts_with_127 a.octets
is_loopback (v6 a) =
    text_eq a.octets (0 ∷ 0 ∷ 0 ∷ 0 ∷ 0 ∷ 0 ∷ 0 ∷ 0 ∷ 0 ∷ 0 ∷ 0 ∷ 0 ∷ 0 ∷ 0 ∷ 0 ∷ 1 ∷ [])

abbrev pub is_ipv4 : SocketAddr → Bool
is_ipv4 (v4 a) = true
is_ipv4 (v6 a) = false

abbrev pub same : Bool → Bool → Bool
same true b = b
same false b = not b

-- `platform` is the `resolve` of the operating system that the code is compiled for.
unfoldable pub resolve_loopback_client_pid :
    (SocketAddr → SocketAddr → Result ProcessAttributionError (Option ℕ))
    → SocketAddr
    → SocketAddr
    → Result ProcessAttributionError (Option ℕ)
unfolding is_loopback
resolve_loopback_client_pid platform client server =
    fail_if (not (is_loopback client) || not (is_loopback server)) non_loopback_connection
    >> (fail_if (not (same (is_ipv4 client) (is_ipv4 server))) address_family_mismatch
        >> platform client server)
