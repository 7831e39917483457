-- ===== src/Core/Clean.antt =====
-- crates/core/src/lib.rs: what the processing of the gateway's events leaves in the store.
use code_is_cheap.Common.{
  ◌≡◌, ap, List, [], ◌∷◌, All, Result, ok, err, map_err, ok_injective, err_ne_ok,
}
use code_is_cheap.Text.{Text}
use code_is_cheap.Capture.{CaptureEnvelope}
use code_is_cheap.Policy.{CapturePolicy}
use code_is_cheap.Policy.Names.{normalized_names}
use code_is_cheap.Policy.Sanitize.Clean.{IsCleanRequest, IsCleanOutcome}
use code_is_cheap.PromptIr.{PromptIr}
use code_is_cheap.Gateway.{GatewayCaptureEvent}
use code_is_cheap.Storage.Prepare.{Codec}
use code_is_cheap.Storage.Store.{CaptureRow, EncryptedStore}
use code_is_cheap.Core.{GatewayCaptureError, GatewayCaptureOutcome, Context, process_gateway_event}

-- serde_json reads every envelope back that it wrote.
abbrev pub IsFaithful : Codec → Type 0
IsFaithful codec =
    (e : CaptureEnvelope) (t : Text)
    → codec.encode_envelope e ≡ ok t
    → codec.decode_envelope t ≡ ok e

-- Nothing that the policy calls sensitive is left in the envelope.
abbrev pub IsCleanEnvelope : CapturePolicy → CaptureEnvelope → Type 0
IsCleanEnvelope policy e =
    IsCleanRequest policy e.request × IsCleanOutcome (normalized_names policy) e.outcome

-- What the row's JSON decodes to is clean.
abbrev pub IsCleanRow : Codec → CapturePolicy → CaptureRow → Type 0
IsCleanRow codec policy row =
    (e : CaptureEnvelope)
    → codec.decode_envelope row.columns.request_json ≡ ok e
    → IsCleanEnvelope policy e

abbrev pub AllClean : Context → EncryptedStore → Type 0
AllClean context store = All (IsCleanRow context.codec context.policy) store.captures

pub map_err-ok :
    {E F A : Type 0} (f : E → F) (r : Result E A) (a : A) → map_err f r ≡ ok a → r ≡ ok a
map_err-ok f (ok b) a h = ap ok (ok_injective h)
map_err-ok f (err e) a h = absurd (err_ne_ok h)

-- The events one after the other; one that fails leaves the store as it was.
abbrev store_after :
    Result GatewayCaptureError (GatewayCaptureOutcome × EncryptedStore)
    → EncryptedStore
    → EncryptedStore
store_after (ok (outcome, store')) store = store'
store_after (err e) store = store

unfoldable pub process_events : Context → EncryptedStore → List GatewayCaptureEvent → EncryptedStore
unfolding process_gateway_event
process_events context store [] = store
process_events context store (event ∷ events) =
    process_events context (store_after (process_gateway_event context store event) store) events
