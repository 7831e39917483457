-- ===== src/Recovery/FileBackend.antt =====
-- crates/proxy-recovery/src/lib.rs: `FileProxyBackend`, and that it keeps the promise of a backend.
use code_is_cheap.Common.{
  Bool, true, false, if◌then◌else◌, none, some, List, Result, ok, err, ◌≡◌, refl, err_ne_ok,
}
use code_is_cheap.Text.{Text, text_eq}
use code_is_cheap.Text.Laws.{text_eq_iff}
use code_is_cheap.Recovery.{
  RecoveryError, ProxySettings, ProxySnapshot, file_snapshot, windows_snapshot, mac_os_snapshot,
  file_backend, ProxyBackend, io, json, snapshot_backend_mismatch,
}
use code_is_cheap.Recovery.World.{next_fault, rest_faults}
use code_is_cheap.Recovery.Files.{Backends}
use code_is_cheap.Recovery.Contract.{Restorable}

pub data StateFile : Type 0 where
  no_state : StateFile
  corrupt_state : StateFile
  state : ProxySettings → StateFile

-- The files that hold proxy settings, by path; `faults` says which of the next writes fail.
pub record FileSystem : Type 0 where
  pub files : Text → StateFile
  pub faults : List Bool

abbrev read_state : StateFile → Result RecoveryError ProxySnapshot
read_state no_state = err io
read_state corrupt_state = err json
read_state (state settings) = ok (file_snapshot settings)

abbrev put_file : Text → StateFile → (Text → StateFile) → Text → StateFile
put_file path file files other = if text_eq other path then file else files other

-- `write_json_atomic` at the path of the state.
abbrev write_state :
    Bool → Text → ProxySettings → FileSystem → Result RecoveryError (Unit {0}) × FileSystem
write_state true path settings s = (err io, record s { faults = rest_faults s.faults })
write_state false path settings s = (
  ok tt,
  record { files = put_file path (state settings) s.files; faults = rest_faults s.faults },
)

unfoldable pub apply_file :
    Text → ProxySettings → FileSystem → Result RecoveryError (Unit {0}) × FileSystem
apply_file path settings s = write_state (next_fault s.faults) path settings s

unfoldable pub restore_file :
    Text → ProxySnapshot → FileSystem → Result RecoveryError (Unit {0}) × FileSystem
restore_file path (file_snapshot settings) s = apply_file path settings s
restore_file path _ s = (err snapshot_backend_mismatch, s)

abbrev pub file_proxy_backend : Text → ProxyBackend FileSystem
file_proxy_backend path = record {
  descriptor = file_backend path;
  snapshot = λ s. read_state (s.files path);
  apply = apply_file path;
  restore = restore_file path;
}

-- The arms of `restore_with_backend` in a build for neither Windows nor macOS.
abbrev pub file_backends : Backends FileSystem
file_backends (file_backend path) = some (file_proxy_backend path)
file_backends _ = none

-- The file at `path` has the settings of the snapshot.
abbrev pub HasSettings : Text → ProxySnapshot → FileSystem → Type 0
HasSettings path snapshot s =
    (settings : ProxySettings) × (snapshot ≡ file_snapshot settings)
    × (s.files path ≡ state settings)

read_state-ok :
    (path : Text) (file : StateFile) (o : ProxySnapshot)
    → read_state file ≡ ok o
    → (settings : ProxySettings) × (o ≡ file_snapshot settings) × (file ≡ state settings)
read_state-ok path no_state o h = absurd (cc)
read_state-ok path corrupt_state o h = absurd (cc)
read_state-ok path (state settings) o h = (settings, cc, refl)

put_file-same :
    (path : Text) (file : StateFile) (files : Text → StateFile)
    → put_file path file files path ≡ file
put_file-same path file files = rw ((text_eq_iff path path).1 refl) refl

write_state-lem :
    (failing : Bool) (path : Text) (settings : ProxySettings) (s : FileSystem)
    → (write_state failing path settings s).0 ≡ ok tt
    → (write_state failing path settings s).1.files path ≡ state settings
write_state-lem true path settings s h = absurd (err_ne_ok h)
write_state-lem false path settings s h = put_file-same path (state settings) s.files

write_state-keeps :
    (failing : Bool) (path : Text) (settings : ProxySettings) (s : FileSystem)
    → s.files path ≡ state settings
    → (write_state failing path settings s).1.files path ≡ state settings
write_state-keeps true path settings s h = h
write_state-keeps false path settings s h = put_file-same path (state settings) s.files

restore_file-lem :
    (path : Text) (o : ProxySnapshot) (s : FileSystem)
    → (restore_file path o s).0 ≡ ok tt
    → HasSettings path o (restore_file path o s).1
unfolding restore_file apply_file
restore_file-lem path (file_snapshot settings) s h =
    (settings, refl, write_state-lem (next_fault s.faults) path settings s h)
restore_file-lem path (windows_snapshot a b) s h = absurd (err_ne_ok h)
restore_file-lem path (mac_os_snapshot a) s h = absurd (err_ne_ok h)

restore_file-keeps :
    (path : Text) (o : ProxySnapshot) (s : FileSystem)
    → HasSettings path o s
    → HasSettings path o (restore_file path o s).1
unfolding restore_file apply_file
restore_file-keeps path (file_snapshot settings) s (settings', e, h) =
    (settings, refl, write_state-keeps (next_fault s.faults) path settings s (cc))
restore_file-keeps path (windows_snapshot a b) s h = h
restore_file-keeps path (mac_os_snapshot a) s h = h

pub file_proxy_backend-Restorable :
    (path : Text) → Restorable file_backends (file_proxy_backend path)
file_proxy_backend-Restorable path = record {
  Original = HasSettings path;
  snapshot_lem = λ s o h. read_state-ok path (s.files path) o h;
  restore_lem = restore_file-lem path;
  keeps_lem = restore_file-keeps path;
  found_lem = refl;
}
