-- ===== src/Ipc/Receive.antt =====
-- A capture is received only behind an authentication frame with the right token.
use code_is_cheap.Common.{
  ℕ, ◌≡◌, refl, sym, ap, subst, ◌∙◌, Bool, true, false, not, ◌||◌, if◌then◌else◌, is_empty, Option,
  none, some, List, [], Result, ok, err, ok_or, map_err, >>=-eq-ok, fail_if-inv, ok_injective,
  err_ne_ok, arith,
}
use code_is_cheap.Text.{Text, text_eq, utf8}
use code_is_cheap.Text.Laws.{text_eq_iff}
use code_is_cheap.Capture.{CaptureEnvelope, capture_envelope_version}
use code_is_cheap.Ipc.{
  ipc_protocol, ipc_protocol_version, ipc_origin_mitmproxy, max_auth_frame_bytes, max_frame_bytes,
  is_loopback, is_ipv4, CaptureTransport, AuthFrame, ReceivedCapture, IpcError, Fill, read_frame,
  auth_error, refuses_transport, authenticate, unsupported_protocol, unsupported_origin,
  unauthorized, invalid_transport, invalid_auth_frame, invalid_envelope,
  unsupported_envelope_version, receive_auth, receive_envelope, receive_after, receive_from_reader,
}

-- The ends that the frame states are loopback addresses of one family; a frame may state none.
abbrev pub IsLocalIfStated : Option CaptureTransport → Type 0
IsLocalIfStated none = Unit
IsLocalIfStated (some t) =
    (is_loopback t.client_addr.ip ≡ true)
    × (is_loopback t.server_addr.ip ≡ true)
    × (is_ipv4 t.client_addr.ip ≡ is_ipv4 t.server_addr.ip)

pub record IsAuthentic (expected_token : Text) (auth : AuthFrame) : Type 0 where
  pub protocol_lem : auth.protocol ≡ ipc_protocol
  pub version_lem : auth.version ≡ ipc_protocol_version
  pub origin_lem : auth.origin ≡ ipc_origin_mitmproxy
  pub required_lem : is_empty expected_token ≡ false
  pub token_lem : utf8 auth.token ≡ utf8 expected_token
  pub local_lem : IsLocalIfStated auth.transport

local_bools :
    (a b c d : Bool)
    → (not a || not b || not (if c then d else not d)) ≡ false
    → (a ≡ true) × (b ≡ true) × (c ≡ d)
local_bools a b c d h = ground arith

IsLocalIfStated-of : (t : Option CaptureTransport) → refuses_transport t ≡ false → IsLocalIfStated t
IsLocalIfStated-of none h = tt
IsLocalIfStated-of (some t) h = local_bools _ _ _ _ h

same_of : (s t : Text) → not (text_eq s t) ≡ false → s ≡ t
same_of s t h = ground (arith, text_eq_iff s t)

or_false : (a b : Bool) → (a || b) ≡ false → (a ≡ false) × (b ≡ false)
or_false a b h = ground arith

authenticate-IsAuthentic :
    (expected_token : Text) (auth result : AuthFrame)
    → authenticate expected_token auth ≡ ok result
    → (auth ≡ result) × IsAuthentic expected_token auth
unfolding authenticate
authenticate-IsAuthentic expected_token auth result h =
    let (a, h1) = fail_if-inv _ unsupported_protocol _ result h in
    let (b, h2) = fail_if-inv _ unsupported_origin _ result h1 in
    let (c, h3) = fail_if-inv _ unauthorized _ result h2 in
    let (d, h4) = fail_if-inv _ invalid_transport _ result h3 in
    let (a1, a2) = or_false _ _ a in
    let (c1, c2) = or_false _ _ c in
    (
      ok_injective h4,
      record {
        protocol_lem = same_of _ _ a1;
        version_lem = same_of _ _ a2;
        origin_lem = same_of _ _ b;
        required_lem = c1;
        token_lem = same_of _ _ c2;
        local_lem = IsLocalIfStated-of auth.transport d;
      },
    )

ok_or-ok : {A : Type 0} (o : Option A) (e : IpcError) (a : A) → ok_or o e ≡ ok a → o ≡ some a
ok_or-ok none e a h = absurd (err_ne_ok h)
ok_or-ok (some b) e a h = ap some (ok_injective h)

map_err-ok : {A : Type 0} (r : Result IpcError A) (a : A) → map_err auth_error r ≡ ok a → r ≡ ok a
map_err-ok (ok b) a h = ap ok (ok_injective h)
map_err-ok (err e) a h = absurd (err_ne_ok h)

-- What stands behind a received capture.
pub record IsReceived (parse_auth : List ℕ → Option AuthFrame)
    (parse_envelope : List ℕ → Option CaptureEnvelope) (expected_token : Text) (reader : List Fill)
    (capture : ReceivedCapture) : Type 0 where
  pub auth_bytes : List ℕ
  pub auth : AuthFrame
  pub envelope_bytes : List ℕ
  pub first_lem : (read_frame max_auth_frame_bytes reader []).0 ≡ ok auth_bytes
  pub auth_lem : parse_auth auth_bytes ≡ some auth
  pub authentic_lem : IsAuthentic expected_token auth
  pub second_lem :
      (read_frame max_frame_bytes (read_frame max_auth_frame_bytes reader []).1 []).0
      ≡ ok envelope_bytes
  pub envelope_lem : parse_envelope envelope_bytes ≡ some capture.envelope
  pub version_lem : capture.envelope.version ≡ capture_envelope_version
  pub transport_lem : capture.transport ≡ auth.transport

receive_auth-ok :
    (parse_auth : List ℕ → Option AuthFrame) (expected_token : Text)
    (frame : Result IpcError (List ℕ)) (auth : AuthFrame)
    → receive_auth parse_auth expected_token frame ≡ ok auth
    → (bytes : List ℕ) × (frame ≡ ok bytes)
      × (parse_auth bytes ≡ some auth)
      × IsAuthentic expected_token auth
unfolding receive_auth
receive_auth-ok parse_auth expected_token frame auth h =
    let (bytes, e, h1) = >>=-eq-ok (map_err auth_error frame) _ h in
    let (read, e1, h2) = >>=-eq-ok (ok_or (parse_auth bytes) invalid_auth_frame) _ h1 in
    let (q, a) = authenticate-IsAuthentic expected_token read auth h2 in
    (
      bytes,
      map_err-ok frame bytes e,
      ok_or-ok (parse_auth bytes) invalid_auth_frame read e1 ∙ ap some q,
      subst (IsAuthentic expected_token) q a,
    )

receive_envelope-ok :
    (parse_envelope : List ℕ → Option CaptureEnvelope) (transport : Option CaptureTransport)
    (frame : Result IpcError (List ℕ)) (capture : ReceivedCapture)
    → receive_envelope parse_envelope transport frame ≡ ok capture
    → (bytes : List ℕ) × (frame ≡ ok bytes)
      × (parse_envelope bytes ≡ some capture.envelope)
      × (capture.envelope.version ≡ capture_envelope_version)
      × (capture.transport ≡ transport)
unfolding receive_envelope
receive_envelope-ok parse_envelope transport frame capture h =
    let (bytes, e, h1) = >>=-eq-ok frame _ h in
    let (envelope, e1, h2) = >>=-eq-ok (ok_or (parse_envelope bytes) invalid_envelope) _ h1 in
    let (v, h3) = fail_if-inv _ (unsupported_envelope_version envelope.version) _ capture h2 in
    let q = ok_injective h3 in
    (
      bytes,
      e,
      ok_or-ok (parse_envelope bytes) invalid_envelope envelope e1 ∙ ap (λ c. some c.envelope) q,
      ap (λ c. c.envelope.version) (sym q) ∙ same_of _ _ v,
      ap (λ c. c.transport) (sym q),
    )

-- A received capture comes behind an authentication frame of the right protocol, version and origin
-- with the expected token, which is not empty; if that frame states a transport, its two ends are
-- loopback addresses of one family, but it may state none. The second frame has the envelope, of the
-- supported version, and the capture has the transport of the first, if any.
pub receive_from_reader-IsReceived :
    (parse_auth : List ℕ → Option AuthFrame) (parse_envelope : List ℕ → Option CaptureEnvelope)
    (expected_token : Text) (reader : List Fill) (capture : ReceivedCapture)
    → (receive_from_reader parse_auth parse_envelope expected_token reader).0 ≡ ok capture
    → IsReceived parse_auth parse_envelope expected_token reader capture
unfolding receive_from_reader
receive_from_reader-IsReceived parse_auth parse_envelope expected_token reader capture h =
    received (receive_auth parse_auth expected_token (read_frame max_auth_frame_bytes reader []).0)
      refl h
  where
    received :
        (r : Result IpcError AuthFrame)
        → receive_auth parse_auth expected_token (read_frame max_auth_frame_bytes reader []).0 ≡ r
        → (receive_after parse_envelope r (read_frame max_auth_frame_bytes reader []).1).0
          ≡ ok capture
        → IsReceived parse_auth parse_envelope expected_token reader capture
    received (err e) p k = absurd (err_ne_ok k)
    received (ok auth) p k =
        let (bytes, first, parsed, a) = receive_auth-ok parse_auth expected_token _ auth p in
        let (bytes', second, parsed', v, q) =
          receive_envelope-ok parse_envelope auth.transport _ capture k in
        record {
          auth_bytes = bytes;
          auth = auth;
          envelope_bytes = bytes';
          first_lem = first;
          auth_lem = parsed;
          authentic_lem = a;
          second_lem = second;
          envelope_lem = parsed';
          version_lem = v;
          transport_lem = q;
        }
