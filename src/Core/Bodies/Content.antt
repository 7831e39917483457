-- ===== src/Core/Bodies/Content.antt =====
-- crates/core/src/lib.rs: which bodies are captured with their content.
use code_is_cheap.Common.{
  ℕ, ◌≡◌, ◌⊎◌, refl, sym, ◌∙◌, inl, inr, Bool, true, false, not, ◌&&◌, ◌||◌, Option, none, some,
  List, is_empty, arith, some_injective, if-cases,
}
use code_is_cheap.Text.{Text, utf8}
use code_is_cheap.Text.Utf8.{from_utf8, utf8-from_utf8}
use code_is_cheap.Json.{Value, string}
use code_is_cheap.Capture.{CapturedBody, CapturedBodyState, json, plain_text}
use code_is_cheap.Gateway.{CapturedPayload}
use code_is_cheap.Core.Bodies.{
  is_text_content_type, is_json_content_type, parsed_body, typed_body, body_by_type, captured_body,
}

-- The content is a JSON value that the bytes parse to, under a JSON type, or the text that they
-- encode, under a text type where text is allowed.
abbrev pub IsContentOf :
    (List ℕ → Option Value) → List ℕ → Text → Bool → CapturedBodyState → Value → Type 0
IsContentOf from_slice bytes content_type allow_text state v =
    ((state ≡ json) × (from_slice bytes ≡ some v) × (is_json_content_type content_type ≡ true))
    ⊎ ((s : Text) × (state ≡ plain_text)
        × (v ≡ string s)
        × (utf8 s ≡ bytes)
        × (allow_text ≡ true)
        × (is_text_content_type content_type ≡ true))

-- A captured content of a payload.
pub record IsCaptured (from_slice : List ℕ → Option Value) (payload : CapturedPayload)
    (content_type : Option Text) (allow_text : Bool) (state : CapturedBodyState) (v : Value)
    : Type 0 where
  pub not_empty : is_empty payload.bytes ≡ false
  pub not_truncated : payload.truncated ≡ false
  pub is_complete : payload.complete ≡ true
  pub type : Text
  pub type_lem : content_type ≡ some type
  pub content_lem : IsContentOf from_slice payload.bytes type allow_text state v

module _ (from_slice : List ℕ → Option Value) (bytes : List ℕ) (type : Text)
    (allow_text : Bool) where
  parsed_body-content :
      (o : Option Value) (v : Value)
      → from_slice bytes ≡ o
      → is_json_content_type type ≡ true
      → (parsed_body o).content ≡ some v
      → IsContentOf from_slice bytes type allow_text (parsed_body o).state v
  parsed_body-content none v e j h = absurd (cc (h))
  parsed_body-content (some x) v e j h = inl (refl, e ∙ h, j)

  -- If the body has content, it is that of the bytes.
  abbrev IsSound : CapturedBody → Type 0
  IsSound b =
      (v : Value) → b.content ≡ some v → IsContentOf from_slice bytes type allow_text b.state v

  typed_body-IsSound :
      (decoded : Option Text)
      → from_utf8 bytes ≡ decoded
      → IsSound (typed_body from_slice bytes type decoded allow_text)
  unfolding typed_body
  typed_body-IsSound none e = λ v h. absurd (cc (h))
  typed_body-IsSound (some s) e =
      if-cases IsSound (allow_text && is_text_content_type type) _ _
        (λ t v h. inr (
          s,
          refl,
          sym (some_injective h),
          utf8-from_utf8 bytes s e,
          ground (arith, t),
          ground (arith, t),
        ))
        (λ t.
          if-cases IsSound (not (is_json_content_type type)) _ _ (λ j v h. absurd (cc (h)))
            (λ j v h. parsed_body-content (from_slice bytes) v refl (ground (arith, j)) h))

-- Content is captured only of a body that is complete, not cut short and not empty: the JSON value
-- that a JSON body parses to, or, where text is allowed, the text whose UTF-8 encoding the bytes of
-- a text body are.
pub captured_body-IsCaptured :
    (from_slice : List ℕ → Option Value) (payload : CapturedPayload) (content_type : Option Text)
    (allow_text : Bool) (v : Value)
    → (captured_body from_slice payload content_type allow_text).content ≡ some v
    → IsCaptured from_slice payload content_type allow_text
        (captured_body from_slice payload content_type allow_text).state
        v
unfolding captured_body
captured_body-IsCaptured from_slice payload content_type allow_text v =
    let P : CapturedBody → Type 0 =
      λ b. b.content ≡ some v → IsCaptured from_slice payload content_type allow_text b.state v in
    if-cases P (is_empty payload.bytes) _ _ (λ e h. absurd (cc (h)))
      (λ e.
        if-cases P (payload.truncated || not payload.complete) _ _ (λ t h. absurd (cc (h)))
          (λ t. by_type content_type e (ground (arith, t)) (ground (arith, t))))
  where
    by_type :
        (o : Option Text)
        → is_empty payload.bytes ≡ false
        → payload.truncated ≡ false
        → payload.complete ≡ true
        → (body_by_type from_slice payload.bytes o allow_text).content ≡ some v
        → IsCaptured from_slice payload o allow_text
            (body_by_type from_slice payload.bytes o allow_text).state
            v
    by_type none e t c h = absurd (cc (h))
    by_type (some type) e t c h = record {
      not_empty = e;
      not_truncated = t;
      is_complete = c;
      type = type;
      type_lem = refl;
      content_lem =
          typed_body-IsSound from_slice payload.bytes type allow_text (from_utf8 payload.bytes) refl
            v h;
    }
