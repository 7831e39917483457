-- ===== src/Policy/Rules.antt =====
-- `CapturePolicy::validate`, `from_json`, `with_additional_hosts` and `matching_target` of
-- crates/capture-policy/src/lib.rs, with the predicates on labels, methods and paths.
pub mod Valid
pub mod Widen
use code_is_cheap.Common.{
  ℕ, ◌≡◌, Bool, true, false, not, ◌&&◌, ◌||◌, Option, none, some, List, [], ◌∷◌, ◌++◌, ltb, leb,
  ◌==◌, if◌then◌else◌, is_empty, any, all, find, map, Result, ok, err, ◌>>=◌, ◌>>◌, fail_if,
  map_err,
}
use code_is_cheap.Text.{
  Text, text, text_eq, utf8, byte_len, to_ascii_lowercase, eq_ignore_ascii_case, contains_any,
  contains, starts_with, is_ascii_uppercase,
}
use code_is_cheap.Wildcard.{wildcard_match}
use code_is_cheap.Capture.{client_label_header, CapturedRequest}
use code_is_cheap.Policy.{
  CapturePolicy, CaptureTarget, AttributionPolicy, UserAgentRule, PolicyError, invalid_json,
  unsupported_version, empty_targets, invalid_target, duplicate_target, invalid_sensitive_name,
  duplicate_sensitive_name, invalid_attribution, capture_policy_version,
}
use code_is_cheap.Policy.Names.{normalize_name}
use code_is_cheap.Policy.Hosts.{normalize_host, valid_host, normalize_additional_hosts}

unfoldable pub valid_application_label : Text → ℕ → Bool
unfolding byte_len utf8
valid_application_label value max_bytes =
    not (is_empty value)
    && leb (byte_len value) max_bytes
    && all (λ b. ltb b 128) (utf8 value)
    && all (λ b. leb 0x20 b && leb b 0x7e) (utf8 value)

unfoldable pub valid_method : Text → Bool
unfolding utf8 contains_any
valid_method method =
    not (is_empty method)
    && all is_ascii_uppercase (utf8 method)
    && not (contains_any (32 ∷ []) method)

unfoldable pub valid_path_pattern : Text → Bool
unfolding starts_with contains_any
valid_path_pattern path =
    starts_with (b'/' ∷ []) path && not (contains_any (b'?' ∷ b'#' ∷ 13 ∷ 10 ∷ []) path)

-- The test under which `validate` returns `InvalidTarget`.
unfoldable pub is_invalid_target : CaptureTarget → Bool
unfolding valid_host valid_method valid_path_pattern
is_invalid_target target =
    is_empty target.id
    || is_empty target.hosts
    || is_empty target.methods
    || is_empty target.paths
    || any (λ host. not (valid_host host)) target.hosts
    || any (λ method. not (valid_method method)) target.methods
    || any (λ path. not (valid_path_pattern path)) target.paths

-- The loop over the targets, with the set of the ids seen.
unfoldable pub validate_targets : List CaptureTarget → List Text → Result PolicyError (Unit {0})
unfolding contains is_invalid_target
validate_targets [] target_ids = ok tt
validate_targets (target ∷ targets) target_ids = do
  fail_if (contains target.id target_ids) (duplicate_target target.id)
  fail_if (is_invalid_target target) (invalid_target target.id)
  validate_targets targets (target.id ∷ target_ids)

-- The loop over the sensitive names, with the set of the normalized names seen.
unfoldable pub validate_names : List Text → List Text → Result PolicyError (Unit {0})
unfolding contains normalize_name
validate_names [] seen = ok tt
validate_names (name ∷ names) seen = do
  let normalized = normalize_name name
  fail_if (is_empty normalized) (invalid_sensitive_name name)
  fail_if (contains normalized seen) (duplicate_sensitive_name name)
  validate_names names (normalized ∷ seen)

unfoldable pub is_invalid_pattern : Text → Bool
unfolding byte_len text_eq to_ascii_lowercase
is_invalid_pattern pattern =
    is_empty pattern
    || ltb 128 (byte_len pattern)
    || not (text_eq pattern (to_ascii_lowercase pattern))

unfoldable pub is_invalid_rule : ℕ → UserAgentRule → Bool
unfolding valid_application_label is_invalid_pattern
is_invalid_rule max_bytes rule =
    not (valid_application_label rule.application max_bytes)
    || is_empty rule.patterns
    || any is_invalid_pattern rule.patterns

unfoldable pub validate_rules : ℕ → List UserAgentRule → Result PolicyError (Unit {0})
unfolding is_invalid_rule
validate_rules max_bytes [] = ok tt
validate_rules max_bytes (rule ∷ rules) = do
  fail_if (is_invalid_rule max_bytes rule) (invalid_attribution (text "user-agent rule is invalid"))
  validate_rules max_bytes rules

unfoldable pub validate_attribution_policy : AttributionPolicy → Result PolicyError (Unit {0})
unfolding text_eq valid_application_label validate_rules
validate_attribution_policy a = do
  fail_if (not (text_eq a.client_label_header client_label_header))
      (invalid_attribution (text "client label header is unsupported"))
  fail_if (a.max_label_bytes == 0 || ltb 128 a.max_label_bytes)
      (invalid_attribution (text "client label size is out of range"))
  fail_if
      (not (valid_application_label a.gateway_fallback a.max_label_bytes)
        || not (valid_application_label a.proxy_fallback a.max_label_bytes))
      (invalid_attribution (text "fallback application label is invalid"))
  validate_rules a.max_label_bytes a.user_agents

unfoldable pub validate : CapturePolicy → Result PolicyError (Unit {0})
unfolding text_eq validate_targets validate_names validate_attribution_policy
validate policy = do
  fail_if (not (text_eq policy.version capture_policy_version)) (unsupported_version policy.version)
  fail_if (is_empty policy.targets) empty_targets
  validate_targets policy.targets []
  validate_names policy.sensitive_names []
  validate_attribution_policy policy.attribution

-- `from_json`; `serde_json` parses the text, or says what is wrong with it.
unfoldable pub from_json :
    (Text → Result Text CapturePolicy) → Text → Result PolicyError CapturePolicy
unfolding validate
from_json serde_json text = do
  policy ← map_err invalid_json (serde_json text)
  validate policy
  ok policy

-- The inner loop of `with_additional_hosts`: the hosts that the target does not have yet.
unfoldable pub push_hosts : List Text → List Text → List Text
unfolding contains
push_hosts present [] = present
push_hosts present (host ∷ hosts) =
    push_hosts (if contains host present then present else present ++ host ∷ []) hosts

abbrev pub widen_target : List Text → CaptureTarget → CaptureTarget
widen_target hosts target = record target { hosts = push_hosts target.hosts hosts }

unfoldable pub with_additional_hosts : CapturePolicy → List Text → Result PolicyError CapturePolicy
with_additional_hosts policy hosts = do
  normalized ← normalize_additional_hosts hosts
  let widened = record policy { targets = map (widen_target normalized) policy.targets }
  validate widened
  ok widened

-- The test of `matching_target` on one target.
unfoldable pub covers : CapturedRequest → CaptureTarget → Bool
unfolding text_eq normalize_host eq_ignore_ascii_case wildcard_match
covers request target =
    any (λ allowed. text_eq allowed (normalize_host request.host)) target.hosts
    && any (λ allowed. eq_ignore_ascii_case allowed request.method) target.methods
    && any (λ pattern. wildcard_match pattern request.path) target.paths

unfoldable pub matching_target : CapturePolicy → CapturedRequest → Option CaptureTarget
matching_target policy request = find (covers request) policy.targets
