-- ===== src/Gateway/Guards.antt =====
-- The life of a guard: chunks, `complete`, and the drop at its end.
use code_is_cheap.Common.{
  ℕ, min, ◌≡◌, refl, ap, sym, ◌∙◌, Bool, true, false, ◌||◌, ltb, Option, none, some, List, [], ◌∷◌,
  ◌++◌, length, take,
}
use mathlib.Core.List.{append-nil, append_assoc}
use code_is_cheap.Gateway.{
  CapturedPayload, GatewayCaptureEvent, GatewayCapture, PayloadAccumulator, push, u64_max, emit,
  mark_payload,
}
use code_is_cheap.Gateway.Guard.{
  CaptureGuard, new_guard, push_guard, has_expected, finish_guard, complete_guard, drop_guard,
}
use code_is_cheap.Gateway.Payload.{accumulated, push-accumulated, new_payload-eq}

pub data GuardStep : Type 0 where
  push_chunk : List ℕ → GuardStep
  complete_body : GuardStep

-- The bytes that came in before the body was completed.
abbrev pub body_of : List GuardStep → List ℕ
body_of [] = []
body_of (push_chunk chunk ∷ steps) = chunk ++ body_of steps
body_of (complete_body ∷ steps) = []

abbrev pub is_completed : List GuardStep → Bool
is_completed [] = false
is_completed (push_chunk chunk ∷ steps) = is_completed steps
is_completed (complete_body ∷ steps) = true

-- The payload of a body under a limit, when `expected` bytes were announced.
abbrev pub payload_of : ℕ → Option ℕ → Bool → List ℕ → CapturedPayload
payload_of limit expected completed body = record {
  bytes = take limit body;
  truncated = ltb limit (length body);
  complete = completed || has_expected expected (min (length body) u64_max);
}

module _ {M : Type 0} (event_of : M → CapturedPayload → GatewayCaptureEvent) where
  abbrev pub run_guard :
      List GuardStep → CaptureGuard M → GatewayCapture → CaptureGuard M × GatewayCapture
  run_guard [] guard capture = (guard, capture)
  run_guard (push_chunk chunk ∷ steps) guard capture =
      run_guard steps (push_guard chunk guard) capture
  run_guard (complete_body ∷ steps) guard capture =
      let (guard', capture') = complete_guard event_of guard capture in
      run_guard steps guard' capture'

  abbrev pub drop_after : List GuardStep → CaptureGuard M → GatewayCapture → GatewayCapture
  drop_after steps guard capture =
      let (guard', capture') = run_guard steps guard capture in drop_guard event_of guard' capture'

  -- A guard whose event is out does nothing any more.
  spent :
      (steps : List GuardStep) (payload : PayloadAccumulator) (expected : Option ℕ)
      (capture : GatewayCapture)
      → drop_after steps
          (record { metadata = none; payload = payload; expected_body_bytes = expected })
          capture
        ≡ capture
  unfolding finish_guard
  spent [] payload expected capture = refl
  spent (push_chunk chunk ∷ steps) payload expected capture =
      spent steps (push chunk payload) expected capture
  spent (complete_body ∷ steps) payload expected capture = spent steps payload expected capture

  abbrev holding : M → Option ℕ → ℕ → List ℕ → CaptureGuard M
  holding metadata expected limit body = record {
    metadata = some metadata;
    payload = accumulated limit body;
    expected_body_bytes = expected;
  }

  abbrev one_event : M → Option ℕ → ℕ → Bool → List ℕ → GatewayCapture → GatewayCapture
  one_event metadata expected limit completed body capture =
      let payload = payload_of limit expected completed body in
      emit (event_of metadata payload) (mark_payload payload capture)

  drop_after-holding :
      (steps : List GuardStep) (metadata : M) (expected : Option ℕ) (limit : ℕ) (body : List ℕ)
      (capture : GatewayCapture)
      → drop_after steps (holding metadata expected limit body) capture
        ≡ one_event metadata expected limit (is_completed steps) (body ++ body_of steps) capture
  unfolding finish_guard
  drop_after-holding [] metadata expected limit body capture =
      ap (λ b. one_event metadata expected limit false b capture) (sym (append-nil body))
  drop_after-holding (push_chunk chunk ∷ steps) metadata expected limit body capture =
      ap
        (λ p.
          drop_after steps
            (record { metadata = some metadata; payload = p; expected_body_bytes = expected })
            capture)
        (push-accumulated limit body chunk)
      ∙ drop_after-holding steps metadata expected limit (body ++ chunk) capture
      ∙ ap (λ b. one_event metadata expected limit (is_completed steps) b capture)
          (append_assoc body chunk (body_of steps))
  drop_after-holding (complete_body ∷ steps) metadata expected limit body capture =
      spent steps _ expected _
      ∙ ap (λ b. one_event metadata expected limit true b capture) (sym (append-nil body))

  -- Whatever chunks come and however often the body is completed, a new guard that is dropped at the
  -- end has sent exactly one event and counted its payload once. The event has the first `limit`
  -- bytes of what came before the first completion, says whether there were more, and is complete
  -- exactly if the body was completed or has at least the announced number of bytes.
  pub drop_after-eq :
      (steps : List GuardStep) (metadata : M) (expected : Option ℕ) (capture : GatewayCapture)
      → let payload =
          payload_of capture.max_body_bytes expected (is_completed steps) (body_of steps) in
        drop_after steps (new_guard capture metadata expected) capture
        ≡ emit (event_of metadata payload) (mark_payload payload capture)
  drop_after-eq steps metadata expected capture =
      ap
        (λ p.
          drop_after steps
            (record { metadata = some metadata; payload = p; expected_body_bytes = expected })
            capture)
        (new_payload-eq capture.max_body_bytes)
      ∙ drop_after-holding steps metadata expected capture.max_body_bytes [] capture
