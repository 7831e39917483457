-- ===== src/Gateway/Queue.antt =====
-- The bounded queue of the capture under sends, receives and the end of the receiver.
use code_is_cheap.Common.{
  ℕ, suc, ◌+◌, ◌%◌, ◌^◌, ◌≤◌, ◌<◌, ◌≡◌, refl, ap, sym, ◌∙◌, inl, inr, Bool, true, false,
  if◌then◌else◌, ltb, List, [], ◌∷◌, ◌++◌, length, length-append, arith, Bool-cases,
}
use mathlib.Core.List.{append-nil, append_assoc}
use code_is_cheap.Gateway.{GatewayCaptureEvent, GatewayCapture, CaptureMetrics, fetch_add, emit}

-- What happens to the queue: the gateway emits, the receiver takes the oldest event, or it ends.
pub data QueueStep : Type 0 where
  emit_event : GatewayCaptureEvent → QueueStep
  receive : QueueStep
  close : QueueStep

-- The capture and the events that the receiver has taken, oldest first.
pub record Run : Type 0 where
  pub capture : GatewayCapture
  pub received : List GatewayCaptureEvent

abbrev take_oldest : List GatewayCaptureEvent → Run → Run
take_oldest [] run = run
take_oldest (event ∷ events) run = record {
  capture = record run.capture { sender = record run.capture.sender { queue = events } };
  received = run.received ++ event ∷ [];
}

abbrev pub step : QueueStep → Run → Run
step (emit_event event) run = record run { capture = emit event run.capture }
step receive run = take_oldest run.capture.sender.queue run
step close run = record run {
  capture = record run.capture { sender = record run.capture.sender { closed = true } };
}

abbrev pub run_steps : List QueueStep → Run → Run
run_steps [] run = run
run_steps (s ∷ steps) run = run_steps steps (step s run)

-- What left the gateway: the events that are received or still in the queue.
abbrev pub delivered : Run → List GatewayCaptureEvent
delivered run = run.received ++ run.capture.sender.queue

abbrev pub emitted : List QueueStep → List GatewayCaptureEvent
emitted [] = []
emitted (emit_event event ∷ steps) = event ∷ emitted steps
emitted (_ ∷ steps) = emitted steps

-- `xs` keeps some of `ys`, in their order.
pub data Sublist {A : Type 0} : List A → List A → Type 0 where
  done : Sublist [] []
  skip : {x : A} {xs ys : List A} → Sublist xs ys → Sublist xs (x ∷ ys)
  keep : {x : A} {xs ys : List A} → Sublist xs ys → Sublist (x ∷ xs) (x ∷ ys)

-- The counters of `emit`, together.
abbrev pub counted : CaptureMetrics → ℕ
counted m = m.emitted_events + m.dropped_queue_full + m.dropped_receiver_closed

abbrev pub Bounded : Run → Type 0
Bounded run = length run.capture.sender.queue ≤ run.capture.sender.capacity

-- What `emit` does: it puts the event in the queue, which has room, and counts it, or it leaves the
-- queue alone and counts a dropped event.
pub record Emission (event : GatewayCaptureEvent) (before after : GatewayCapture) : Type 0 where
  pub accepted : Bool
  pub queue_lem :
      after.sender.queue
      ≡ (if accepted then before.sender.queue ++ event ∷ [] else before.sender.queue)
  pub room_lem : accepted ≡ true → length before.sender.queue < before.sender.capacity
  pub capacity_lem : after.sender.capacity ≡ before.sender.capacity
  pub emitted_lem : after.metrics.emitted_events ≡ (
      if accepted then fetch_add before.metrics.emitted_events else before.metrics.emitted_events)
  pub counted_lem : counted after.metrics % 2 ^ 64 ≡ suc (counted before.metrics) % 2 ^ 64

pub emit-Emission :
    (event : GatewayCaptureEvent) (capture : GatewayCapture)
    → Emission event capture (emit event capture)
unfolding emit
emit-Emission event capture = elim (Bool-cases capture.sender.closed) [
  | inl c ↦ record {
    accepted = false;
    queue_lem = rw c refl;
    room_lem = λ e. absurd (cc);
    capacity_lem = rw c refl;
    emitted_lem = rw c refl;
    counted_lem = rw c (omega arith);
  }
  | inr c ↦ elim (Bool-cases (ltb (length capture.sender.queue) capture.sender.capacity)) [
    | inl r ↦ record {
      accepted = true;
      queue_lem = rw (c, r) refl;
      room_lem = λ _. ground arith;
      capacity_lem = rw (c, r) refl;
      emitted_lem = rw (c, r) refl;
      counted_lem = rw (c, r) (omega arith);
    }
    | inr r ↦ record {
      accepted = false;
      queue_lem = rw (c, r) refl;
      room_lem = λ e. absurd (cc);
      capacity_lem = rw (c, r) refl;
      emitted_lem = rw (c, r) refl;
      counted_lem = rw (c, r) (omega arith);
    }
  ]
]

-- How a run goes on from `before` to `after` under some emitted events.
pub record Delivery (events : List GatewayCaptureEvent) (before after : Run) : Type 0 where
  pub accepted : List GatewayCaptureEvent
  pub sublist_lem : Sublist accepted events
  pub delivered_lem : delivered after ≡ delivered before ++ accepted
  pub emitted_lem :
      after.capture.metrics.emitted_events % 2 ^ 64
      ≡ (before.capture.metrics.emitted_events + length accepted) % 2 ^ 64
  pub counted_lem :
      counted after.capture.metrics % 2 ^ 64
      ≡ (counted before.capture.metrics + length events) % 2 ^ 64
  pub bounded_lem : Bounded after

stay : (run : Run) → Bounded run → Delivery [] run run
stay run h = record {
  accepted = [];
  sublist_lem = done;
  delivered_lem = sym (append-nil (delivered run));
  emitted_lem = omega arith;
  counted_lem = omega arith;
  bounded_lem = h;
}

sublist-append :
    {A : Type 0} {xs xs' ys ys' : List A}
    → Sublist xs xs'
    → Sublist ys ys'
    → Sublist (xs ++ ys) (xs' ++ ys')
sublist-append done k = k
sublist-append (skip h) k = skip (sublist-append h k)
sublist-append (keep h) k = keep (sublist-append h k)

follow :
    {events events' : List GatewayCaptureEvent} {a b c : Run}
    → Delivery events a b
    → Delivery events' b c
    → Delivery (events ++ events') a c
follow {events} {events'} {a} d e = record {
  accepted = d.accepted ++ e.accepted;
  sublist_lem = sublist-append d.sublist_lem e.sublist_lem;
  delivered_lem =
      e.delivered_lem
      ∙ ap (λ q. q ++ e.accepted) d.delivered_lem
      ∙ append_assoc (delivered a) d.accepted e.accepted;
  emitted_lem = omega (arith, d.emitted_lem, e.emitted_lem, length-append d.accepted e.accepted);
  counted_lem = omega (arith, d.counted_lem, e.counted_lem, length-append events events');
  bounded_lem = e.bounded_lem;
}

emitted_one :
    (event : GatewayCaptureEvent) (run : Run)
    → Bounded run
    → Delivery (event ∷ []) run (step (emit_event event) run)
emitted_one event run h =
    let e = emit-Emission event run.capture in
    elim (Bool-cases e.accepted) [
      | inl k ↦ record {
        accepted = event ∷ [];
        sublist_lem = keep done;
        delivered_lem = rw (e.queue_lem, k) (sym (append_assoc run.received _ (event ∷ [])));
        emitted_lem = rw (e.emitted_lem, k) (omega arith);
        counted_lem = omega (arith, e.counted_lem);
        bounded_lem =
            rw (e.queue_lem, k, e.capacity_lem)
              (omega (arith, e.room_lem k, length-append run.capture.sender.queue (event ∷ [])));
      }
      | inr k ↦ record {
        accepted = [];
        sublist_lem = skip done;
        delivered_lem = rw (e.queue_lem, k) (sym (append-nil (delivered run)));
        emitted_lem = rw (e.emitted_lem, k) (omega arith);
        counted_lem = omega (arith, e.counted_lem);
        bounded_lem = rw (e.queue_lem, k, e.capacity_lem) h;
      }
    ]

received_one :
    (queue : List GatewayCaptureEvent) (run : Run)
    → run.capture.sender.queue ≡ queue
    → Bounded run
    → Delivery [] run (take_oldest queue run)
received_one [] run e h = stay run h
received_one (event ∷ events) run e h = record {
  accepted = [];
  sublist_lem = done;
  delivered_lem =
      append_assoc run.received (event ∷ []) events
      ∙ ap (λ q. run.received ++ q) (sym e)
      ∙ sym (append-nil (delivered run));
  emitted_lem = omega arith;
  counted_lem = omega arith;
  bounded_lem = omega (arith, ap length e, h);
}

closed_one : (run : Run) → Bounded run → Delivery [] run (step close run)
closed_one run h = record {
  accepted = [];
  sublist_lem = done;
  delivered_lem = sym (append-nil (delivered run));
  emitted_lem = omega arith;
  counted_lem = omega arith;
  bounded_lem = h;
}

-- Under any sends, receives and the end of the receiver, from a queue within its capacity: the queue
-- stays within it; what the receiver took and what is still in the queue are, in order, what was
-- there before and some of the emitted events in their order; `emitted_events` counts exactly those,
-- and the counters together count every emitted event, modulo 2 ^ 64.
pub run_steps-Delivery :
    (steps : List QueueStep) (run : Run)
    → Bounded run
    → Delivery (emitted steps) run (run_steps steps run)
run_steps-Delivery [] run h = stay run h
run_steps-Delivery (emit_event event ∷ steps) run h =
    let d = emitted_one event run h in follow d (run_steps-Delivery steps _ d.bounded_lem)
run_steps-Delivery (receive ∷ steps) run h =
    let d = received_one run.capture.sender.queue run refl h in
    follow d (run_steps-Delivery steps _ d.bounded_lem)
run_steps-Delivery (close ∷ steps) run h =
    follow (closed_one run h) (run_steps-Delivery steps (step close run) h)
