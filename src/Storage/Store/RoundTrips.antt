-- ===== src/Storage/Store/RoundTrips.antt =====
-- crates/storage/src/store.rs: what get_capture gives after upsert_capture.
use code_is_cheap.Common.{
  ℕ, ◌≡◌, ◌≢◌, refl, sym, ap, subst, ◌∙◌, inl, inr, Bool, true, false, Option, none, some, List, [],
  ◌∷◌, length, find, arith, Bool-cases, Result, ok, >>=-eq-ok, fail_if-inv, ok_injective, map_err,
}
use code_is_cheap.Text.{Text, text_eq}
use code_is_cheap.Text.Laws.{text_eq_iff, text_eq_refl}
use code_is_cheap.Policy.{SanitizedCapture, capture_policy_version}
use code_is_cheap.PromptIr.{PromptIr}
use code_is_cheap.Storage.{StorageError, json, to_i64, CaptureWrite}
use code_is_cheap.Storage.Prepare.{
  Codec, PreparedCapture, check_prompt, encode_prompt_ir, outcome_columns, searchable_text,
  prepare_capture,
}
use code_is_cheap.Storage.Store.{
  CaptureRow, EncryptedStore, row_id, insert_row, delete_row, upsert_prepared, prepare_all,
  upsert_all, upsert_captures, upsert_capture, ensure_writable, ensure_disk_headroom,
}

abbrev pub has_id : Text → CaptureRow → Bool
has_id id row = text_eq (row_id row) id

pub find-insert_row :
    (row : CaptureRow) (rows : List CaptureRow)
    → find (has_id (row_id row)) rows ≡ none
    → find (has_id (row_id row)) (insert_row row rows) ≡ some row
unfolding insert_row
find-insert_row row [] h = rw (text_eq_refl (row_id row)) refl
find-insert_row row (r ∷ rows) h =
    ground (arith, text_eq_refl (row_id row), find-insert_row row rows, h)

pub find-delete_row :
    (id : Text) (rows : List CaptureRow) → find (has_id id) (delete_row id rows) ≡ none
unfolding delete_row
find-delete_row id [] = refl
find-delete_row id (r ∷ rows) = ground (arith, find-delete_row id rows)

pub find-insert_other :
    (row : CaptureRow) (id : Text) (rows : List CaptureRow)
    → has_id id row ≡ false
    → find (has_id id) (insert_row row rows) ≡ find (has_id id) rows
unfolding insert_row
find-insert_other row id [] h = rw h refl
find-insert_other row id (r ∷ rows) h = ground (arith, h, find-insert_other row id rows h)

pub other_id : (x id id' : Text) → id ≢ id' → text_eq x id ≡ true → text_eq x id' ≡ false
other_id x id id' n e = elim (Bool-cases (text_eq x id')) [
  | inl f ↦ absurd (n (sym ((text_eq_iff x id).0 e) ∙ (text_eq_iff x id').0 f))
  | inr f ↦ f
]

pub find-delete_other :
    (id id' : Text) (rows : List CaptureRow)
    → id ≢ id'
    → find (has_id id') (delete_row id rows) ≡ find (has_id id') rows
unfolding delete_row
find-delete_other id id' [] n = refl
find-delete_other id id' (r ∷ rows) n =
    ground (arith, other_id (row_id r) id id' n, find-delete_other id id' rows n)

-- The row that an upsert writes.
abbrev pub row_of : PreparedCapture → CaptureRow
row_of c = record { columns = c; policy_version = capture_policy_version }

-- A successful upsert wrote one prepared row.
pub record Written (codec : Codec) (store store' : EncryptedStore) (capture : SanitizedCapture)
    (prompt : Option PromptIr) : Type 0 where
  pub prepared : PreparedCapture
  pub prepared_lem :
      prepare_capture codec (record { capture = capture; prompt_ir = prompt }) ≡ ok prepared
  pub captures_lem :
      store'.captures ≡ insert_row (row_of prepared) (delete_row prepared.capture_id store.captures)

single_prepared :
    (codec : Codec) (write : CaptureWrite) (cs : List PreparedCapture)
    → prepare_all codec (write ∷ []) ≡ ok cs
    → (c : PreparedCapture) × (prepare_capture codec write ≡ ok c) × (c ∷ [] ≡ cs)
unfolding prepare_all
single_prepared codec write cs h =
    let (c, p, h1) = >>=-eq-ok (prepare_capture codec write) _ h in (c, p, ok_injective h1)

single_upserted :
    (store store' : EncryptedStore) (c : PreparedCapture)
    → upsert_all store (c ∷ []) ≡ ok store'
    → store'.captures ≡ insert_row (row_of c) (delete_row c.capture_id store.captures)
unfolding upsert_all upsert_prepared
single_upserted store store' c h =
    let (s, p, h1) = >>=-eq-ok (upsert_prepared store c) _ h in
    let (b, p1) = fail_if-inv _ _ _ _ p in
    ap (λ x. x.captures) (sym (ok_injective h1)) ∙ ap (λ x. x.captures) (sym (ok_injective p1))

pub upsert_capture-Written :
    (codec : Codec) (space : Result StorageError ℕ) (store store' : EncryptedStore)
    (capture : SanitizedCapture) (prompt : Option PromptIr)
    → upsert_capture codec space store capture prompt ≡ ok store'
    → Written codec store store' capture prompt
unfolding upsert_capture upsert_captures
upsert_capture-Written codec space store store' capture prompt h =
    let write : CaptureWrite = record { capture = capture; prompt_ir = prompt } in
    let ((n, s), e, h1) = >>=-eq-ok (upsert_captures codec space store (write ∷ [])) _ h in
    let (u, w, h2) = >>=-eq-ok (ensure_writable store) _ e in
    let (cs, p, h3) = >>=-eq-ok (prepare_all codec (write ∷ [])) _ h2 in
    let (a, d, h4) = >>=-eq-ok (ensure_disk_headroom store space) _ h3 in
    let (s', q, h5) = >>=-eq-ok (upsert_all store cs) _ h4 in
    let (c, r, k) = single_prepared codec write cs p in
    let z : s' ≡ store' = ap (λ x. x.1) (ok_injective h5) ∙ ok_injective h1 in
    record {
      prepared = c;
      prepared_lem = r;
      captures_lem =
          single_upserted store store' c
            (subst (λ x. upsert_all store x ≡ ok store') (sym k) (q ∙ ap ok z));
    }

-- What the columns of a prepared row hold.
pub record IsPrepared (codec : Codec) (write : CaptureWrite) (c : PreparedCapture) : Type 0 where
  pub id_lem : c.capture_id ≡ write.capture.envelope.capture_id
  pub target_lem : c.target_id ≡ write.capture.target_id
  pub request_lem : map_err json (codec.encode_envelope write.capture.envelope) ≡ ok c.request_json
  pub prompt_lem : encode_prompt_ir codec write.prompt_ir ≡ ok c.prompt_ir_json

pub prepare_capture-IsPrepared :
    (codec : Codec) (write : CaptureWrite) (c : PreparedCapture)
    → prepare_capture codec write ≡ ok c
    → IsPrepared codec write c
unfolding prepare_capture
prepare_capture-IsPrepared codec write c h =
    let e = write.capture.envelope in
    let (u, a, h1) = >>=-eq-ok (check_prompt e write.prompt_ir) _ h in
    let (at, b, h2) = >>=-eq-ok (to_i64 e.observed_at_unix_ms) _ h1 in
    let (request, r, h3) = >>=-eq-ok (map_err json (codec.encode_envelope e)) _ h2 in
    let (prompt, p, h4) = >>=-eq-ok (encode_prompt_ir codec write.prompt_ir) _ h3 in
    let (n, d, h5) = >>=-eq-ok (to_i64 (length e.redactions)) _ h4 in
    let (o, f, h6) = >>=-eq-ok (outcome_columns e.outcome) _ h5 in
    let (t, g, h7) = >>=-eq-ok (searchable_text codec e write.prompt_ir) _ h6 in
    let z = ok_injective h7 in
    record {
      id_lem = ap (λ x. x.capture_id) (sym z);
      target_lem = ap (λ x. x.target_id) (sym z);
      request_lem = r ∙ ap (λ x. ok x.request_json) z;
      prompt_lem = p ∙ ap (λ x. ok x.prompt_ir_json) z;
    }
