-- ===== src/Storage/Store/Reads.antt =====
-- crates/storage/src/store.rs: get_capture reads what upsert_capture wrote, and nothing else changes.
use code_is_cheap.Common.{
  ℕ, ◌≡◌, ◌≢◌, refl, sym, ap, subst, ◌∙◌, Option, none, some, find, Result, ok, err, ◌>>=◌, map_err,
  ok_injective, err_ne_ok, true, false,
}
use code_is_cheap.Text.{Text, text_eq}
use code_is_cheap.Text.Laws.{text_eq_refl}
use code_is_cheap.Capture.{CaptureEnvelope}
use code_is_cheap.Policy.{SanitizedCapture}
use code_is_cheap.PromptIr.{PromptIr}
use code_is_cheap.Storage.{StorageError, json, StoredCapture}
use code_is_cheap.Storage.Prepare.{Codec, PreparedCapture, encode_prompt_ir}
use code_is_cheap.Storage.Store.{
  CaptureRow, EncryptedStore, row_id, insert_row, delete_row, upsert_capture, decode_prompt_ir,
  stored_capture, get_capture,
}
use code_is_cheap.Storage.Store.Rows.{IsTable, upsert_row-IsTable}
use code_is_cheap.Storage.Store.RoundTrips.{
  has_id, row_of, upsert_capture-Written, IsPrepared, prepare_capture-IsPrepared, find-insert_row,
  find-delete_row, find-insert_other, find-delete_other, other_id,
}

-- serde_json reads the envelope and the prompt back that it wrote.
pub record IsReadable (codec : Codec) (envelope : CaptureEnvelope) (prompt : Option PromptIr)
    : Type 0 where
  pub envelope_lem :
      (t : Text) → codec.encode_envelope envelope ≡ ok t → codec.decode_envelope t ≡ ok envelope
  pub prompt_lem :
      (p : PromptIr)
      → prompt ≡ some p
      → (t : Text) → codec.encode_prompt p ≡ ok t
      → codec.decode_prompt t ≡ ok p

pub map_err-inv : (r : Result Text Text) (t : Text) → map_err json r ≡ ok t → r ≡ ok t
map_err-inv (ok a) t h = ap ok (ok_injective h)
map_err-inv (err e) t h = absurd (err_ne_ok h)

decode-encode :
    (codec : Codec) (prompt : Option PromptIr) (t : Option Text)
    → ((p : PromptIr)
        → prompt ≡ some p
        → (s : Text) → codec.encode_prompt p ≡ ok s
        → codec.decode_prompt s ≡ ok p)
    → encode_prompt_ir codec prompt ≡ ok t
    → decode_prompt_ir codec t ≡ ok prompt
unfolding encode_prompt_ir decode_prompt_ir
decode-encode codec none t k h =
    subst (λ x. decode_prompt_ir codec x ≡ ok none) (ok_injective h) refl
decode-encode codec (some p) t k h = go (codec.encode_prompt p) refl h
  where
    go :
        (r : Result Text Text)
        → codec.encode_prompt p ≡ r
        → (map_err json r >>= λ encoded. ok (some encoded)) ≡ ok t
        → decode_prompt_ir codec t ≡ ok (some p)
    go (err e) q g = absurd (err_ne_ok g)
    go (ok s) q g =
        subst (λ x. decode_prompt_ir codec x ≡ ok (some p)) (ok_injective g)
          (ap (λ d. map_err json d >>= λ x. ok (some x)) (k p refl s q))

abbrev pub stored : SanitizedCapture → Option PromptIr → StoredCapture
stored capture prompt = record {
  target_id = capture.target_id;
  envelope = capture.envelope;
  prompt_ir = prompt;
}

stored_capture-eq :
    (codec : Codec) (capture : SanitizedCapture) (prompt : Option PromptIr) (c : PreparedCapture)
    → IsReadable codec capture.envelope prompt
    → IsPrepared codec (record { capture = capture; prompt_ir = prompt }) c
    → stored_capture codec (some (row_of c)) ≡ ok (some (stored capture prompt))
unfolding stored_capture
stored_capture-eq codec capture prompt c r p =
    let e : codec.decode_envelope c.request_json ≡ ok capture.envelope =
      r.envelope_lem c.request_json (map_err-inv _ _ p.request_lem) in
    let d : decode_prompt_ir codec c.prompt_ir_json ≡ ok prompt =
      decode-encode codec prompt c.prompt_ir_json r.prompt_lem p.prompt_lem in
    cc (e, d, p.target_lem)

has_id-other :
    (row : CaptureRow) (id other : Text) → row_id row ≡ id → id ≢ other → has_id other row ≡ false
has_id-other row id other e n =
    other_id (row_id row) id other n (subst (λ x. text_eq x id ≡ true) (sym e) (text_eq_refl id))

-- If upsert_capture succeeds, get_capture reads the capture and its prompt back under its id, and
-- every other id as before, and the table stays in order with different ids; serde_json must read
-- back what it wrote of them.
pub get_capture-upsert :
    (codec : Codec) (space : Result StorageError ℕ) (store store' : EncryptedStore)
    (capture : SanitizedCapture) (prompt : Option PromptIr) (other : Text)
    → IsReadable codec capture.envelope prompt
    → IsTable store.captures
    → capture.envelope.capture_id ≢ other
    → upsert_capture codec space store capture prompt ≡ ok store'
    → (get_capture codec store' capture.envelope.capture_id ≡ ok (some (stored capture prompt)))
      × (get_capture codec store' other ≡ get_capture codec store other)
      × IsTable store'.captures
unfolding get_capture
get_capture-upsert codec space store store' capture prompt other r t n h =
    let w = upsert_capture-Written codec space store store' capture prompt h in
    let c = w.prepared in
    let p = prepare_capture-IsPrepared codec _ c w.prepared_lem in
    let rows = delete_row c.capture_id store.captures in
    let id = capture.envelope.capture_id in
    (
      ap (λ rs. stored_capture codec (find (has_id id) rs)) w.captures_lem
          ∙ ap (λ i. stored_capture codec (find (has_id i) (insert_row (row_of c) rows)))
              (sym p.id_lem)
          ∙ ap (stored_capture codec)
              (find-insert_row (row_of c) rows (find-delete_row c.capture_id store.captures))
          ∙ stored_capture-eq codec capture prompt c r p,
      ap (λ rs. stored_capture codec (find (has_id other) rs)) w.captures_lem
          ∙ ap (stored_capture codec) (
              find-insert_other (row_of c) other rows (has_id-other (row_of c) id other p.id_lem n)
              ∙ find-delete_other c.capture_id other store.captures (λ q. n (sym p.id_lem ∙ q))),
      subst IsTable (sym w.captures_lem) (upsert_row-IsTable (row_of c) store.captures t),
    )
