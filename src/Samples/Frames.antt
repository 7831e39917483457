-- ===== src/Samples/Frames.antt =====
-- One capture over the socket, in buffers of different sizes.
use code_is_cheap.Common.{ℕ, ◌≡◌, refl, some, List, [], ◌∷◌, map, ok, err, arith}
use code_is_cheap.Text.{text, text_eq, utf8}
use code_is_cheap.Ipc.{
  AuthFrame, ReceivedCapture, v4, ipc_protocol, ipc_protocol_version, ipc_origin_mitmproxy,
  unauthorized, Fill, buffer, split_line, read_frame, authenticate, receive_auth, receive_envelope,
  receive_from_reader,
}
use code_is_cheap.Ipc.Frames.{frame_of, read_frame-eq}
use code_is_cheap.Ipc.Receive.{IsReceived, receive_from_reader-IsReceived}
use code_is_cheap.Samples.Policies.{envelope}

abbrev chunks : List (List ℕ)
chunks = (104 ∷ []) ∷ (105 ∷ 13 ∷ []) ∷ (10 ∷ 120 ∷ []) ∷ []

reads_line : read_frame 3 (map buffer chunks) [] ≡ (ok (104 ∷ 105 ∷ []), buffer (120 ∷ []) ∷ [])
unfolding read_frame split_line
reads_line = refl

read_frame-eq_example :
    (read_frame 3 (map buffer chunks) []).0 ≡ frame_of 3 (104 ∷ 105 ∷ 13 ∷ 10 ∷ 120 ∷ [])
unfolding split_line
read_frame-eq_example = read_frame-eq 3 chunks [] (refl, (refl, (refl, tt))) refl (omega arith)

abbrev auth : AuthFrame
auth = record {
  protocol = ipc_protocol;
  version = ipc_protocol_version;
  origin = ipc_origin_mitmproxy;
  token = text "t";
  transport = some (record {
    client_addr = record { ip = v4 127 0 0 1; port = 9 };
    server_addr = record { ip = v4 127 0 0 2; port = 8 };
  });
}

abbrev frames : List Fill
frames = buffer (97 ∷ 10 ∷ 101 ∷ []) ∷ buffer (10 ∷ []) ∷ []

abbrev received : ReceivedCapture
received = record { envelope = envelope; transport = auth.transport }

receives :
    (receive_from_reader (λ _. some auth) (λ _. some envelope) (text "t") frames).0 ≡ ok received
unfolding receive_from_reader receive_auth receive_envelope authenticate read_frame split_line
    text_eq utf8
receives = refl

refuses_token :
    receive_from_reader (λ _. some auth) (λ _. some envelope) (text "s") frames
    ≡ (err unauthorized, buffer (101 ∷ []) ∷ buffer (10 ∷ []) ∷ [])
unfolding receive_from_reader receive_auth receive_envelope authenticate read_frame split_line
    text_eq utf8
refuses_token = refl

receive_from_reader-IsReceived_example :
    IsReceived (λ _. some auth) (λ _. some envelope) (text "t") frames received
receive_from_reader-IsReceived_example =
    receive_from_reader-IsReceived (λ _. some auth) (λ _. some envelope) (text "t") frames received
      receives
