-- ===== src/Process/Linux/Resolved.antt =====
-- crates/process-attribution/src/lib.rs and linux.rs together: what the resolved client is.
use code_is_cheap.Common.{
  ℕ, ◌≡◌, refl, ap, subst, ◌∙◌, ◌≢◌, Bool, true, false, not, ◌||◌, Option, none, some, drop, Result,
  ok, err, >>=-eq-ok, fail_if-inv, err_ne_ok, ok_injective, arith,
}
use code_is_cheap.Text.{Text}
use code_is_cheap.Text.Lines.{lines}
use code_is_cheap.Process.{
  SocketAddr, IoError, is_loopback, is_ipv4, same, resolve_loopback_client_pid,
}
use code_is_cheap.Process.Linux.{
  ProcFiles, Processes, table_of, find_socket_inode, find_unique_owner, from_io, owner_of_inode,
  resolve_linux,
}
use code_is_cheap.Process.Linux.Verdicts.{Has, Verdict}
use code_is_cheap.Process.Linux.Sockets.{IsSocket, IsZero, TableError, find_socket_inode-Verdict}
use code_is_cheap.Process.Linux.Owners.{SocketOwner, ProcError, find_unique_owner-Verdict}
use code_is_cheap.Process.Linux.Passed.{AreReadOrPassed, find_unique_owner-AreReadOrPassed}

-- The established connection from `local` to `remote` stands in the table with this inode only.
abbrev pub IsSocketOf : Text → Text → Text → ℕ → Type 0
IsSocketOf local remote table inode =
    Has (IsSocket local remote inode) (drop 1 (lines table))
    × ((n : ℕ) → Has (IsSocket local remote n) (drop 1 (lines table)) → n ≡ inode)
    × (inode ≢ 0)

-- The process is the only one with a readable descriptor of the socket, and all entries of /proc
-- were passed over only where they may be.
abbrev pub IsOnlyOwner : Processes → ℕ → ℕ → Type 0
IsOnlyOwner processes inode id =
    SocketOwner processes inode id
    × ((k : ℕ) → SocketOwner processes inode k → k ≡ id)
    × AreReadOrPassed processes

pub record IsClient (files : ProcFiles) (client server : SocketAddr) (id : ℕ) : Type 0 where
  pub path : Text
  pub local : Text
  pub remote : Text
  pub table : Text
  pub inode : ℕ
  pub table_of_lem : table_of client server ≡ ok (path, local, remote)
  pub read_lem : files.read_to_string path ≡ ok table
  pub socket_lem : IsSocketOf local remote table inode
  pub owner_lem : IsOnlyOwner files.processes inode id

socket_of :
    (local remote table : Text) (inode : ℕ)
    → find_socket_inode table local remote ≡ ok (some inode)
    → IsSocketOf local remote table inode
socket_of local remote table inode e =
    subst
      (λ r.
        Verdict (λ n. Has (IsSocket local remote n) (drop 1 (lines table))) IsZero
          (TableError local remote (drop 1 (lines table))) r)
      e (find_socket_inode-Verdict local remote table)

only_owner :
    (processes : Processes) (inode id : ℕ)
    → find_unique_owner processes inode ≡ ok (some id)
    → IsOnlyOwner processes inode id
only_owner processes inode id e =
    let (a, b, c) =
      subst (λ r. Verdict (SocketOwner processes inode) (λ n. ⊥) (ProcError processes inode) r) e
        (find_unique_owner-Verdict processes inode) in
    (a, b, find_unique_owner-AreReadOrPassed processes inode id e)

read_of : (r : Result IoError Text) (table : Text) → from_io r ≡ ok table → r ≡ ok table
read_of (ok contents) table e = ap ok (ok_injective e)
read_of (err error) table e = absurd (err_ne_ok e)

inode_of :
    (processes : Processes) (inode : Option ℕ) (id : ℕ)
    → owner_of_inode processes inode ≡ ok (some id)
    → (n : ℕ) × (inode ≡ some n) × IsOnlyOwner processes n id
inode_of processes none id e = absurd (cc (ok_injective e))
inode_of processes (some n) id e = (n, refl, only_owner processes n id e)

pub resolve_linux-IsClient :
    (files : ProcFiles) (client server : SocketAddr) (id : ℕ)
    → resolve_linux files client server ≡ ok (some id)
    → IsClient files client server id
unfolding resolve_linux
resolve_linux-IsClient files client server id e =
    let ((path, local, remote), t, e1) = >>=-eq-ok (table_of client server) _ e in
    let (table, r, e2) = >>=-eq-ok (from_io (files.read_to_string path)) _ e1 in
    let (inode, s, e3) = >>=-eq-ok (find_socket_inode table local remote) _ e2 in
    let (n, q, o) = inode_of files.processes inode id e3 in
    record {
      path = path;
      local = local;
      remote = remote;
      table = table;
      inode = n;
      table_of_lem = t;
      read_lem = read_of (files.read_to_string path) table r;
      socket_lem = socket_of local remote table n (s ∙ ap ok q);
      owner_lem = o;
    }

same-eq : (a b : Bool) → not (same a b) ≡ false → a ≡ b
same-eq true true h = refl
same-eq true false h = cc
same-eq false true h = cc
same-eq false false h = refl

-- A process is named only for a connection between loopback addresses of one family: the table then
-- has one inode for it, not 0, and the process has a descriptor of that socket and is the only one
-- among those whose descriptors can be read. What could not be read is an entry, or the descriptors
-- of a process, that was gone or for which permission was denied; such a process may have the socket
-- as well. Single descriptors that cannot be read count as other ones.
pub resolve_loopback-IsClient :
    (files : ProcFiles) (client server : SocketAddr) (id : ℕ)
    → resolve_loopback_client_pid (resolve_linux files) client server ≡ ok (some id)
    → (is_loopback client ≡ true)
      × (is_loopback server ≡ true)
      × (is_ipv4 client ≡ is_ipv4 server)
      × IsClient files client server id
unfolding resolve_loopback_client_pid
resolve_loopback-IsClient files client server id e =
    let (l, e1) = fail_if-inv (not (is_loopback client) || not (is_loopback server)) _ _ _ e in
    let (f, e2) = fail_if-inv _ _ _ _ e1 in
    (
      ground (arith, l),
      ground (arith, l),
      same-eq (is_ipv4 client) (is_ipv4 server) f,
      resolve_linux-IsClient files client server id e2,
    )
