-- ===== src/Core/Bodies.antt =====
-- crates/core/src/lib.rs: how the body of a request or a response is captured.
pub mod Content
use code_is_cheap.Common.{
  ℕ, Bool, true, false, not, ◌&&◌, ◌||◌, Option, none, some, List, [], ◌∷◌, find, if◌then◌else◌,
  is_empty,
}
use mathlib.Core.List.{reverse}
use code_is_cheap.Text.{
  Text, text, text_eq, split, trim, starts_with, contains, to_ascii_lowercase, eq_ignore_ascii_case,
}
use code_is_cheap.Text.Utf8.{from_utf8}
use code_is_cheap.Json.{Value, string}
use code_is_cheap.Capture.{
  CapturedField, CapturedBody, CapturedBodyState, empty, json, plain_text, invalid_json,
  invalid_utf8, truncated, omitted_unsupported_content_type,
}
use code_is_cheap.Gateway.{CapturedPayload}

unfoldable pub captured_fields : List (Text × Text) → List CapturedField
captured_fields [] = []
captured_fields ((name, value) ∷ fields) =
    record { name = name; value = value } ∷ captured_fields fields

abbrev first_piece : List Text → Text
first_piece [] = []
first_piece (piece ∷ pieces) = piece

unfoldable pub media_type : Text → Text
unfolding split trim to_ascii_lowercase
media_type content_type = to_ascii_lowercase (trim (first_piece (split b';' content_type)))

-- `str::ends_with`
unfoldable pub ends_with : Text → Text → Bool
unfolding starts_with
ends_with suffix s = starts_with (reverse suffix) (reverse s)

unfoldable pub is_text_content_type : Text → Bool
unfolding media_type starts_with contains
is_text_content_type content_type =
    starts_with (text "text/") (media_type content_type)
    || contains (media_type content_type)
        (text "application/x-ndjson" ∷ text "application/json-seq" ∷ text "application/ndjson" ∷ [])

unfoldable pub is_json_content_type : Text → Bool
unfolding media_type text_eq ends_with
is_json_content_type content_type =
    text_eq (media_type content_type) (text "application/json")
    || ends_with (text "+json") (media_type content_type)

abbrev header_text : Option (Text × Text) → Option Text
header_text none = none
header_text (some (name, value)) = some value

unfoldable pub content_type : List (Text × Text) → Option Text
unfolding eq_ignore_ascii_case
content_type headers =
    header_text (find (λ h. eq_ignore_ascii_case h.0 (text "content-type")) headers)

abbrev pub without_content : CapturedBodyState → CapturedBody
without_content state = record { state = state; content = none }

abbrev parsed_body : Option Value → CapturedBody
parsed_body none = without_content invalid_json
parsed_body (some content) = record { state = json; content = some content }

-- Behind the tests on the payload, with the content type; `from_slice` is serde_json's parser, and
-- `decoded` what `from_utf8` gives for the bytes.
unfoldable pub typed_body :
    (List ℕ → Option Value) → List ℕ → Text → Option Text → Bool → CapturedBody
unfolding is_text_content_type is_json_content_type
typed_body from_slice bytes content_type none allow_text = without_content invalid_utf8
typed_body from_slice bytes content_type (some decoded) allow_text =
    if allow_text && is_text_content_type content_type
    then record { state = plain_text; content = some (string decoded) }
    else if not (is_json_content_type content_type)
    then without_content omitted_unsupported_content_type
    else parsed_body (from_slice bytes)

abbrev pub body_by_type : (List ℕ → Option Value) → List ℕ → Option Text → Bool → CapturedBody
body_by_type from_slice bytes none allow_text = without_content omitted_unsupported_content_type
body_by_type from_slice bytes (some content_type) allow_text =
    typed_body from_slice bytes content_type (from_utf8 bytes) allow_text

unfoldable pub captured_body :
    (List ℕ → Option Value) → CapturedPayload → Option Text → Bool → CapturedBody
unfolding typed_body from_utf8
captured_body from_slice payload content_type allow_text =
    if is_empty payload.bytes
    then without_content empty
    else if payload.truncated || not payload.complete
    then without_content truncated
    else body_by_type from_slice payload.bytes content_type allow_text
