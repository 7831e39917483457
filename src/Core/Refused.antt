-- ===== src/Core/Refused.antt =====
-- crates/core/src/lib.rs: the gateway's events on a store that takes no captures.
use code_is_cheap.Common.{
  ℕ, ◌<◌, ◌≡◌, sym, ap, subst, ◌∙◌, ◌⊎◌, inl, inr, Bool, true, false, Option, none, some, ltb,
  Result, ok, >>=-eq-ok, fail_if-inv, map_err, ok_injective, arith, [], ◌∷◌,
}
use code_is_cheap.Text.{Text}
use code_is_cheap.Capture.{CaptureOutcome, CaptureEnvelope}
use code_is_cheap.Policy.{SanitizedCapture}
use code_is_cheap.PromptIr.{PromptIr}
use code_is_cheap.Gateway.{GatewayCaptureEvent}
use code_is_cheap.Storage.{StorageError, StoredCapture, CaptureWrite}
use code_is_cheap.Storage.Prepare.{Codec}
use code_is_cheap.Storage.Store.{
  EncryptedStore, ensure_writable, ensure_disk_headroom, prepare_all, upsert_captures,
  upsert_capture, get_capture,
}
use code_is_cheap.Policy.Sanitize.{sanitize_envelope}
use code_is_cheap.Core.{
  or_else, request_envelope, storage_error, policy_error, GatewayCaptureOutcome, persisted_capture,
  response_observed, upstream_failed, Context, persist_capture, persist_stored, persist_outcome,
  response_outcome, failure_outcome, process_gateway_event,
}
use code_is_cheap.Core.Clean.{map_err-ok}

-- The store is read-only, or the disk has less free space than it keeps.
abbrev pub IsRefused : Result StorageError ℕ → EncryptedStore → Type 0
IsRefused available_space store =
    (store.read_only_mode ≡ true)
    ⊎ ((n : ℕ) × (available_space ≡ ok n) × (n < store.options.minimum_free_space_bytes))

-- The outcome reports that nothing was stored.
abbrev pub IsUnpersisted : GatewayCaptureOutcome → Type 0
IsUnpersisted (persisted_capture c) = ⊥
IsUnpersisted (response_observed r) = r.persisted ≡ false
IsUnpersisted (upstream_failed f) = f.persisted ≡ false

ensure_disk_headroom-ok :
    (store : EncryptedStore) (n k : ℕ)
    → ensure_disk_headroom store (ok n) ≡ ok k
    → ltb n store.options.minimum_free_space_bytes ≡ false
unfolding ensure_disk_headroom
ensure_disk_headroom-ok store n k h = (fail_if-inv _ _ _ _ h).0

upsert_captures_refused :
    (codec : Codec) (available_space : Result StorageError ℕ) (store : EncryptedStore)
    (write : CaptureWrite) (r : ℕ × EncryptedStore)
    → IsRefused available_space store
    → ¬ (upsert_captures codec available_space store (write ∷ []) ≡ ok r)
unfolding upsert_captures ensure_writable
upsert_captures_refused codec available_space store write r (inl h) e =
    absurd (cc (h, (fail_if-inv store.read_only_mode _ _ _ e).0))
upsert_captures_refused codec available_space store write r (inr (n, a, h)) e =
    let e0 = (fail_if-inv store.read_only_mode _ _ _ e).1 in
    let (prepared, p, e1) = >>=-eq-ok (prepare_all codec (write ∷ [])) _ e0 in
    let (available, q, e2) = >>=-eq-ok (ensure_disk_headroom store available_space) _ e1 in
    let b =
      ensure_disk_headroom-ok store n available
        (subst (λ s. ensure_disk_headroom store s ≡ ok available) a q) in
    ground arith

observed-IsUnpersisted :
    {O : Type 0} (flag : O → Bool) (wrap : O → GatewayCaptureOutcome)
    → ((o : O) → flag o ≡ false → IsUnpersisted (wrap o))
    → {made o : O} {t s store store' : EncryptedStore} {outcome : GatewayCaptureOutcome}
    → ◌≡◌ {A = O × EncryptedStore} (made, t) (o, s)
    → ◌≡◌ {A = GatewayCaptureOutcome × EncryptedStore} (wrap o, s) (outcome, store')
    → flag made ≡ false
    → t ≡ store
    → IsUnpersisted outcome × (store' ≡ store)
observed-IsUnpersisted flag wrap lem made_eq outcome_eq unset kept = (
  subst IsUnpersisted (ap (λ x. x.0) outcome_eq) (lem _ (ap (λ x. flag x.0) (sym made_eq) ∙ unset)),
  ap (λ x. x.1) (sym outcome_eq) ∙ ap (λ x. x.1) (sym made_eq) ∙ kept,
)

module _ (context : Context) (store : EncryptedStore)
    (refused : IsRefused context.available_space store) where
  persist_capture_refused :
      (sanitized : SanitizedCapture) (prompt : Option PromptIr) (store' : EncryptedStore)
      → ¬ (persist_capture context store sanitized prompt ≡ ok store')
  unfolding persist_capture upsert_capture
  persist_capture_refused sanitized prompt store' e =
      let write : CaptureWrite = record { capture = sanitized; prompt_ir = prompt } in
      let (r, p, e1) =
        >>=-eq-ok (upsert_captures context.codec context.available_space store (write ∷ [])) _
          (map_err-ok _ _ _ e) in
      upsert_captures_refused context.codec context.available_space store write r refused p

  persist_stored_refused :
      (stored : Option StoredCapture) (outcome : CaptureOutcome) (r : Bool × EncryptedStore)
      → persist_stored context store stored outcome ≡ ok r
      → r ≡ (false, store)
  unfolding persist_stored
  persist_stored_refused none outcome r e = sym (ok_injective e)
  persist_stored_refused (some stored) outcome r e =
      let envelope : CaptureEnvelope = record (stored.envelope) { outcome = some outcome } in
      let (sanitized, s, e1) =
        >>=-eq-ok (map_err policy_error (sanitize_envelope context.policy envelope)) _ e in
      let (store', p, e2) =
        >>=-eq-ok
          (persist_capture context store sanitized
            (or_else (context.adapters sanitized).prompt_ir stored.prompt_ir))
          _ e1 in
      absurd (persist_capture_refused sanitized _ store' p)

  persist_outcome_refused :
      (capture_id : Text) (outcome : CaptureOutcome) (r : Bool × EncryptedStore)
      → persist_outcome context store capture_id outcome ≡ ok r
      → r ≡ (false, store)
  unfolding persist_outcome
  persist_outcome_refused capture_id outcome r e =
      let (stored, g, e1) =
        >>=-eq-ok (map_err storage_error (get_capture context.codec store capture_id)) _ e in
      persist_stored_refused stored outcome r e1

  -- On a read-only store, or with too little free space on the disk, no event of a request is
  -- processed without an error, and one of a response or a failure only if it reports that nothing
  -- was stored; the store stays as it was.
  pub process_gateway_event-IsUnpersisted :
      (event : GatewayCaptureEvent) (outcome : GatewayCaptureOutcome) (store' : EncryptedStore)
      → process_gateway_event context store event ≡ ok (outcome, store')
      → IsUnpersisted outcome × (store' ≡ store)
  unfolding process_gateway_event response_outcome failure_outcome
  process_gateway_event-IsUnpersisted (GatewayCaptureEvent.request request) outcome store' e =
      let envelope : CaptureEnvelope = request_envelope context.from_slice request context.policy in
      let (sanitized, s, e1) =
        >>=-eq-ok (map_err policy_error (sanitize_envelope context.policy envelope)) _ e in
      let (t, p, e2) =
        >>=-eq-ok (persist_capture context store sanitized (context.adapters sanitized).prompt_ir) _
          e1 in
      absurd (persist_capture_refused sanitized _ t p)
  process_gateway_event-IsUnpersisted (GatewayCaptureEvent.response q) outcome store' e =
      let ((o, s), p, e1) = >>=-eq-ok (response_outcome context store q) _ e in
      let ((b, t), u, e2) = >>=-eq-ok (persist_outcome context store q.capture_id _) _ p in
      let f = persist_outcome_refused q.capture_id _ (b, t) u in
      observed-IsUnpersisted (λ o. o.persisted) response_observed (λ o h. h) (ok_injective e2)
        (ok_injective e1) (ap (λ x. x.0) f) (ap (λ x. x.1) f)
  process_gateway_event-IsUnpersisted (GatewayCaptureEvent.upstream_failure q) outcome store' e =
      let ((o, s), p, e1) = >>=-eq-ok (failure_outcome context store q) _ e in
      let ((b, t), u, e2) = >>=-eq-ok (persist_outcome context store q.capture_id _) _ p in
      let f = persist_outcome_refused q.capture_id _ (b, t) u in
      observed-IsUnpersisted (λ o. o.persisted) upstream_failed (λ o h. h) (ok_injective e2)
        (ok_injective e1) (ap (λ x. x.0) f) (ap (λ x. x.1) f)
