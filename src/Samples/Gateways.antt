-- ===== src/Samples/Gateways.antt =====
-- The capture of one gateway on a small queue.
use code_is_cheap.Common.{ℕ, ◌≡◌, refl, true, false, some, List, [], ◌∷◌, arith}
use code_is_cheap.Text.{text}
use code_is_cheap.Gateway.{
  GatewayCapture, GatewayCaptureEvent, upstream_failure, new_payload, push, emit, mark_payload,
}
use code_is_cheap.Gateway.Guard.{ResponseMetadata, response_event, new_guard}
use code_is_cheap.Gateway.Payload.{push_all, accumulated, push_all-eq}
use code_is_cheap.Gateway.Guards.{
  GuardStep, push_chunk, complete_body, drop_after, payload_of, drop_after-eq,
}
use code_is_cheap.Gateway.Queue.{
  QueueStep, emit_event, receive, close, Run, run_steps, emitted, Delivery, run_steps-Delivery,
}

abbrev chunks : List (List ℕ)
chunks = (1 ∷ 2 ∷ []) ∷ [] ∷ (3 ∷ 4 ∷ []) ∷ []

cuts_body :
    push_all chunks (new_payload 3)
    ≡ record { bytes = 1 ∷ 2 ∷ 3 ∷ []; limit = 3; truncated = true; observed_bytes = 4 }
unfolding push
cuts_body = refl

push_all-eq_example : push_all chunks (new_payload 3) ≡ accumulated 3 (1 ∷ 2 ∷ 3 ∷ 4 ∷ [])
push_all-eq_example = push_all-eq 3 chunks

abbrev capture : GatewayCapture
capture = record {
  sender = record { queue = []; capacity = 1; closed = false };
  max_body_bytes = 3;
  metrics = record {
    emitted_events = 0;
    dropped_queue_full = 0;
    dropped_receiver_closed = 0;
    truncated_bodies = 0;
    incomplete_streams = 0;
  };
  enabled = true;
}

abbrev metadata : ResponseMetadata
metadata = record { capture_id = text "c1"; status = 200; headers = []; started = 5 }

abbrev guard_steps : List GuardStep
guard_steps = push_chunk (1 ∷ 2 ∷ []) ∷ complete_body ∷ push_chunk (3 ∷ []) ∷ complete_body ∷ []

drop_after-eq_example :
    drop_after (response_event 9000000) guard_steps (new_guard capture metadata (some 2)) capture
    ≡ emit
        (response_event 9000000 metadata (payload_of 3 (some 2) true (1 ∷ 2 ∷ [])))
        (mark_payload (payload_of 3 (some 2) true (1 ∷ 2 ∷ [])) capture)
drop_after-eq_example = drop_after-eq (response_event 9000000) guard_steps metadata (some 2) capture

abbrev event : GatewayCaptureEvent
event = upstream_failure (record { capture_id = text "c1"; duration_ms = 4 })

abbrev queue_steps : List QueueStep
queue_steps =
    emit_event event ∷ emit_event event ∷ receive ∷ emit_event event ∷ close ∷ emit_event event ∷ []

abbrev start_run : Run
start_run = record { capture = capture; received = [] }

counts_each : (run_steps queue_steps start_run).capture.metrics ≡ record {
  emitted_events = 2;
  dropped_queue_full = 1;
  dropped_receiver_closed = 1;
  truncated_bodies = 0;
  incomplete_streams = 0;
}
unfolding emit
counts_each = refl

run_steps-Delivery_example :
    Delivery (emitted queue_steps) start_run (run_steps queue_steps start_run)
run_steps-Delivery_example = run_steps-Delivery queue_steps start_run (omega arith)
