-- ===== src/Ipc.antt =====
-- crates/capture-ipc/src/lib.rs: the frames of the capture socket, and the receipt of one capture
-- behind its authentication.
pub mod Frames
pub mod Receive
use code_is_cheap.Common.{
  ℕ, ◌+◌, ◌*◌, Bool, true, false, not, ◌&&◌, ◌||◌, if◌then◌else◌, ltb, ◌==◌, is_empty, length, take,
  drop, Option, none, some, List, [], ◌∷◌, ◌++◌, Result, ok, err, fail_if, ok_or, map_err, ◌>>=◌,
  ◌>>◌,
}
use code_is_cheap.Text.{Text, text, text_eq, utf8}
use code_is_cheap.Capture.{CaptureEnvelope, capture_envelope_version}

abbrev pub ipc_protocol : Text
ipc_protocol = text "codeischeap.capture-ipc"

abbrev pub ipc_protocol_version : Text
ipc_protocol_version = text "0.6"

abbrev pub ipc_origin_mitmproxy : Text
ipc_origin_mitmproxy = text "mitmproxy"

abbrev pub max_auth_frame_bytes : ℕ
max_auth_frame_bytes = 1024

abbrev pub max_frame_bytes : ℕ
max_frame_bytes = 4 * 1024 * 1024

pub data IpAddr : Type 0 where
  v4 : ℕ → ℕ → ℕ → ℕ → IpAddr
  v6 : List ℕ → IpAddr

abbrev all_but_last_zero : List ℕ → Bool
all_but_last_zero [] = false
all_but_last_zero (a ∷ segments) =
    if is_empty segments then a == 1 else a == 0 && all_but_last_zero segments

-- `IpAddr::is_loopback` and `SocketAddr::is_ipv4`; a v6 address is its eight segments.
abbrev pub is_loopback : IpAddr → Bool
is_loopback (v4 a b c d) = a == 127
is_loopback (v6 segments) = all_but_last_zero segments

abbrev pub is_ipv4 : IpAddr → Bool
is_ipv4 (v4 a b c d) = true
is_ipv4 (v6 segments) = false

pub record SocketAddr : Type 0 where
  pub ip : IpAddr
  pub port : ℕ

pub record CaptureTransport : Type 0 where
  pub client_addr : SocketAddr
  pub server_addr : SocketAddr

pub record AuthFrame : Type 0 where
  pub protocol : Text
  pub version : Text
  pub origin : Text
  pub token : Text
  pub transport : Option CaptureTransport

pub record ReceivedCapture : Type 0 where
  pub envelope : CaptureEnvelope
  pub transport : Option CaptureTransport

-- The details of an I/O or JSON error are left out.
pub data IpcError : Type 0 where
  io non_loopback_listener non_loopback_peer empty_frame auth_frame_too_large frame_too_large
        connection_deadline_exceeded invalid_auth_frame invalid_envelope unsupported_protocol
        unsupported_origin unauthorized unauthorized_peer invalid_transport :
      IpcError
  unsupported_envelope_version : Text → IpcError

-- What the next `fill_buf` gives: bytes, none of them at the end, or an error.
pub data Fill : Type 0 where
  buffer : List ℕ → Fill
  broken : Fill

abbrev pub onto : ℕ → Option (List ℕ × List ℕ) → Option (List ℕ × List ℕ)
onto b none = none
onto b (some line) = some (b ∷ line.0, line.1)

-- `position(|byte| byte == b'\n')`, as the bytes before the newline and those after it.
unfoldable pub split_line : List ℕ → Option (List ℕ × List ℕ)
split_line [] = none
split_line (b ∷ bytes) =
    let rest = split_line bytes in if b == 10 then some ([], bytes) else onto b rest

-- `if frame.last() == Some(&b'\r') { frame.pop(); }`
abbrev pub strip_return : List ℕ → List ℕ
strip_return [] = []
strip_return (b ∷ bytes) =
    let rest = strip_return bytes in
    if is_empty bytes then (if b == 13 then [] else b ∷ []) else b ∷ rest

abbrev pub end_frame : List ℕ → Result IpcError (List ℕ)
end_frame frame = if is_empty frame then err empty_frame else ok frame

-- `consume`: a buffer that is used up is gone.
abbrev pub consume : List ℕ → List Fill → List Fill
consume bytes reader = if is_empty bytes then reader else buffer bytes ∷ reader

-- One turn of the loop on the available bytes; `onward` is what the next turns give.
abbrev pub add_buffer :
    ℕ
    → List ℕ
    → List ℕ
    → List Fill
    → Result IpcError (List ℕ) × List Fill
    → Option (List ℕ × List ℕ)
    → Result IpcError (List ℕ) × List Fill
add_buffer max_bytes frame available reader onward none =
    if ltb max_bytes (length frame + length available)
    then (err frame_too_large, buffer available ∷ reader)
    else onward
add_buffer max_bytes frame available reader onward (some line) =
    if ltb max_bytes (length frame + length line.0)
    then (err frame_too_large, buffer available ∷ reader)
    else (end_frame (strip_return (frame ++ line.0)), consume line.1 reader)

-- The result, and what is left to read; `frame` is what was read before.
unfoldable pub read_frame : ℕ → List Fill → List ℕ → Result IpcError (List ℕ) × List Fill
read_frame max_bytes [] frame = (err empty_frame, [])
read_frame max_bytes (broken ∷ reader) frame = (err io, reader)
read_frame max_bytes (buffer [] ∷ reader) frame = (err empty_frame, buffer [] ∷ reader)
read_frame max_bytes (buffer (b ∷ bytes) ∷ reader) frame =
    add_buffer max_bytes frame (b ∷ bytes) reader (read_frame max_bytes reader (frame ++ b ∷ bytes))
      (split_line (b ∷ bytes))

abbrev pub auth_error : IpcError → IpcError
auth_error frame_too_large = auth_frame_too_large
auth_error e = e

abbrev pub same_family : IpAddr → IpAddr → Bool
same_family client server = if is_ipv4 client then is_ipv4 server else not (is_ipv4 server)

abbrev pub refuses_transport : Option CaptureTransport → Bool
refuses_transport none = false
refuses_transport (some transport) =
    not (is_loopback transport.client_addr.ip)
    || not (is_loopback transport.server_addr.ip)
    || not (same_family transport.client_addr.ip transport.server_addr.ip)

-- The tests of the authentication frame; `ct_eq` compares the bytes of the tokens.
unfoldable pub authenticate : Text → AuthFrame → Result IpcError AuthFrame
authenticate expected_token auth = do
  fail_if
      (not (text_eq auth.protocol ipc_protocol) || not (text_eq auth.version ipc_protocol_version))
      unsupported_protocol
  fail_if (not (text_eq auth.origin ipc_origin_mitmproxy)) unsupported_origin
  fail_if (is_empty expected_token || not (text_eq (utf8 auth.token) (utf8 expected_token)))
      unauthorized
  fail_if (refuses_transport auth.transport) invalid_transport
  ok auth

unfoldable pub receive_auth :
    (List ℕ → Option AuthFrame) → Text → Result IpcError (List ℕ) → Result IpcError AuthFrame
receive_auth parse_auth expected_token frame = do
  bytes ← map_err auth_error frame
  auth ← ok_or (parse_auth bytes) invalid_auth_frame
  authenticate expected_token auth

unfoldable pub receive_envelope :
    (List ℕ → Option CaptureEnvelope)
    → Option CaptureTransport
    → Result IpcError (List ℕ)
    → Result IpcError ReceivedCapture
receive_envelope parse_envelope transport frame = do
  bytes ← frame
  envelope ← ok_or (parse_envelope bytes) invalid_envelope
  fail_if (not (text_eq envelope.version capture_envelope_version))
      (unsupported_envelope_version envelope.version)
  ok (record { envelope = envelope; transport = transport })

-- The second frame is read only behind an authenticated first one.
abbrev pub receive_after :
    (List ℕ → Option CaptureEnvelope)
    → Result IpcError AuthFrame
    → List Fill
    → Result IpcError ReceivedCapture × List Fill
receive_after parse_envelope (err e) reader = (err e, reader)
receive_after parse_envelope (ok auth) reader =
    let (frame, reader') = read_frame max_frame_bytes reader [] in
    (receive_envelope parse_envelope auth.transport frame, reader')

-- `receive_from_reader_with_transport`; `serde_json` parses the two frames.
unfoldable pub receive_from_reader :
    (List ℕ → Option AuthFrame)
    → (List ℕ → Option CaptureEnvelope)
    → Text
    → List Fill
    → Result IpcError ReceivedCapture × List Fill
receive_from_reader parse_auth parse_envelope expected_token reader =
    let (frame, reader') = read_frame max_auth_frame_bytes reader [] in
    receive_after parse_envelope (receive_auth parse_auth expected_token frame) reader'
