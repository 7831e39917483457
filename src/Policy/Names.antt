-- ===== src/Policy/Names.antt =====
-- `normalize_name` of crates/capture-policy/src/lib.rs and the set of sensitive names.
use code_is_cheap.Common.{Bool, List, map, any, retain}
use code_is_cheap.Text.{Text, text_eq, contains, is_ascii_alphanumeric, to_ascii_lowercase}
use code_is_cheap.Policy.{CapturePolicy}

-- The ASCII letters and digits, in lower case: on those, `char::to_lowercase` is the ASCII one.
unfoldable pub normalize_name : Text → Text
unfolding is_ascii_alphanumeric to_ascii_lowercase
normalize_name name = to_ascii_lowercase (retain is_ascii_alphanumeric name)

-- The `HashSet` of normalized names that `sanitize_envelope` collects.
unfoldable pub normalized_names : CapturePolicy → List Text
normalized_names policy = map normalize_name policy.sensitive_names

-- `sensitive_names.contains(&normalize_name(name))`.
unfoldable pub is_sensitive : List Text → Text → Bool
unfolding contains normalize_name
is_sensitive names name = contains (normalize_name name) names

unfoldable pub is_sensitive_name : CapturePolicy → Text → Bool
unfolding normalize_name text_eq
is_sensitive_name policy name =
    let normalized = normalize_name name in
    any (λ candidate. text_eq (normalize_name candidate) normalized) policy.sensitive_names
