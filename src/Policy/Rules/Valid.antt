-- ===== src/Policy/Rules/Valid.antt =====
-- `CapturePolicy::validate` against an independent description of a well-formed policy.
use code_is_cheap.Common.{
  ℕ, ◌≤◌, ◌<◌, ◌≡◌, refl, sym, ◌↔◌, Bool, true, false, not, ◌||◌, List, [], ◌∷◌, map, arith,
  is_empty, any, All, ◌==◌, ltb, ok, fail_if-ok,
}
use code_is_cheap.Text.{Text, text_eq, byte_len, to_ascii_lowercase}
use code_is_cheap.Text.Laws.{text_eq_iff}
use code_is_cheap.Text.Distinct.{AreDistinct, Fresh-iff, AreNew, AreNew-cons, AreNew-nil}
use code_is_cheap.Capture.{client_label_header}
use code_is_cheap.Policy.{
  CapturePolicy, CaptureTarget, AttributionPolicy, UserAgentRule, capture_policy_version,
}
use code_is_cheap.Policy.Names.{normalize_name}
use code_is_cheap.Policy.Hosts.{valid_host}
use code_is_cheap.Policy.Rules.{
  valid_method, valid_path_pattern, valid_application_label, is_invalid_target, is_invalid_rule,
  is_invalid_pattern, validate_targets, validate_names, validate_rules, validate_attribution_policy,
  validate,
}

pub any-not_iff {ℓ} :
    {A : Type ℓ} (p : A → Bool) (xs : List A)
    → (any (λ x. not (p x)) xs ≡ false) ↔ All (λ x. p x ≡ true) xs
any-not_iff p [] = (λ _. tt, λ _. refl)
any-not_iff p (x ∷ xs) = ground (arith, any-not_iff p xs)

pub record IsGoodTarget (t : CaptureTarget) : Type 0 where
  pub id : is_empty t.id ≡ false
  pub some_host : is_empty t.hosts ≡ false
  pub some_method : is_empty t.methods ≡ false
  pub some_path : is_empty t.paths ≡ false
  pub hosts : All (λ host. valid_host host ≡ true) t.hosts
  pub methods : All (λ method. valid_method method ≡ true) t.methods
  pub paths : All (λ path. valid_path_pattern path ≡ true) t.paths

pub IsGoodTarget-iff : (t : CaptureTarget) → (is_invalid_target t ≡ false) ↔ IsGoodTarget t
unfolding is_invalid_target
IsGoodTarget-iff t = ground (
  arith,
  any-not_iff valid_host t.hosts,
  any-not_iff valid_method t.methods,
  any-not_iff valid_path_pattern t.paths,
)

abbrev pub target_id : CaptureTarget → Text
target_id t = t.id

-- The loop over the targets accepts good targets with new ids.
validate_targets_iff :
    (ts : List CaptureTarget) (seen : List Text)
    → (validate_targets ts seen ≡ ok tt) ↔ (All IsGoodTarget ts × AreNew (map target_id ts) seen)
unfolding validate_targets
validate_targets_iff [] seen = (λ _. (tt, record { distinct = tt; unseen = tt }), λ _. refl)
validate_targets_iff (t ∷ ts) seen = ground (
  arith,
  Fresh-iff t.id seen,
  IsGoodTarget-iff t,
  AreNew-cons t.id (map target_id ts) seen,
  validate_targets_iff ts (t.id ∷ seen),
)

abbrev pub IsNamed : Text → Type 0
IsNamed name = is_empty (normalize_name name) ≡ false

validate_names_iff :
    (ns : List Text) (seen : List Text)
    → (validate_names ns seen ≡ ok tt) ↔ (All IsNamed ns × AreNew (map normalize_name ns) seen)
unfolding validate_names
validate_names_iff [] seen = (λ _. (tt, record { distinct = tt; unseen = tt }), λ _. refl)
validate_names_iff (n ∷ ns) seen = ground (
  arith,
  Fresh-iff (normalize_name n) seen,
  AreNew-cons (normalize_name n) (map normalize_name ns) seen,
  validate_names_iff ns (normalize_name n ∷ seen),
)

pub record IsGoodPattern (pattern : Text) : Type 0 where
  pub given : is_empty pattern ≡ false
  pub short : byte_len pattern ≤ 128
  pub lower : to_ascii_lowercase pattern ≡ pattern

pub record IsGoodRule (max_bytes : ℕ) (rule : UserAgentRule) : Type 0 where
  pub label : valid_application_label rule.application max_bytes ≡ true
  pub some_pattern : is_empty rule.patterns ≡ false
  pub patterns : All IsGoodPattern rule.patterns

IsGoodPattern-iff : (p : Text) → (is_invalid_pattern p ≡ false) ↔ IsGoodPattern p
unfolding is_invalid_pattern
IsGoodPattern-iff p = (
  λ h. record {
    given = ground arith;
    short = ground arith;
    lower = sym ((text_eq_iff p (to_ascii_lowercase p)).0 (ground arith));
  },
  λ h. let e = (text_eq_iff p (to_ascii_lowercase p)).1 (sym h.lower) in ground (arith, e),
)

patterns_iff : (ps : List Text) → (any is_invalid_pattern ps ≡ false) ↔ All IsGoodPattern ps
patterns_iff [] = (λ _. tt, λ _. refl)
patterns_iff (p ∷ ps) = ground (arith, IsGoodPattern-iff p, patterns_iff ps)

IsGoodRule-iff :
    (max_bytes : ℕ) (r : UserAgentRule)
    → (is_invalid_rule max_bytes r ≡ false) ↔ IsGoodRule max_bytes r
unfolding is_invalid_rule
IsGoodRule-iff max_bytes r = ground (arith, patterns_iff r.patterns)

validate_rules_iff :
    (max_bytes : ℕ) (rs : List UserAgentRule)
    → (validate_rules max_bytes rs ≡ ok tt) ↔ All (IsGoodRule max_bytes) rs
unfolding validate_rules
validate_rules_iff max_bytes [] = (λ _. tt, λ _. refl)
validate_rules_iff max_bytes (r ∷ rs) =
    ground (arith, IsGoodRule-iff max_bytes r, validate_rules_iff max_bytes rs)

pub record IsGoodAttribution (a : AttributionPolicy) : Type 0 where
  pub header : a.client_label_header ≡ client_label_header
  pub size_positive : 0 < a.max_label_bytes
  pub size_bound : a.max_label_bytes ≤ 128
  pub gateway : valid_application_label a.gateway_fallback a.max_label_bytes ≡ true
  pub proxy : valid_application_label a.proxy_fallback a.max_label_bytes ≡ true
  pub rules : All (IsGoodRule a.max_label_bytes) a.user_agents

size_iff : (n : ℕ) → ((n == 0 || ltb 128 n) ≡ false) ↔ ((0 < n) × (n ≤ 128))
size_iff n = ground arith

fallbacks_iff : (p q : Bool) → ((not p || not q) ≡ false) ↔ ((p ≡ true) × (q ≡ true))
fallbacks_iff p q = ground arith

not_iff : (p : Bool) → (not p ≡ false) ↔ (p ≡ true)
not_iff p = ground arith

validate_attribution_policy_iff :
    (a : AttributionPolicy) → (validate_attribution_policy a ≡ ok tt) ↔ IsGoodAttribution a
unfolding validate_attribution_policy
validate_attribution_policy_iff a =
    let n = a.max_label_bytes in
    let header = text_eq_iff a.client_label_header client_label_header in
    let named = not_iff (text_eq a.client_label_header client_label_header) in
    let sized = size_iff n in
    let labels =
      fallbacks_iff (valid_application_label a.gateway_fallback n)
        (valid_application_label a.proxy_fallback n) in
    let rules = validate_rules_iff n a.user_agents in
    (
      λ h.
          let (h1, k1) = (fail_if-ok _ _ _).0 h in
          let (h2, k2) = (fail_if-ok _ _ _).0 k1 in
          let (h3, k3) = (fail_if-ok _ _ _).0 k2 in
          record {
            header = header.0 (named.0 h1);
            size_positive = (sized.0 h2).0;
            size_bound = (sized.0 h2).1;
            gateway = (labels.0 h3).0;
            proxy = (labels.0 h3).1;
            rules = rules.0 k3;
          },
      λ g. (fail_if-ok _ _ _).1 (
        named.1 (header.1 g.header),
        (fail_if-ok _ _ _).1 (
          sized.1 (g.size_positive, g.size_bound),
          (fail_if-ok _ _ _).1 (labels.1 (g.gateway, g.proxy), rules.1 g.rules),
        ),
      ),
    )

-- A policy that `validate` should accept.
pub record IsWellFormed (policy : CapturePolicy) : Type 0 where
  pub version : policy.version ≡ capture_policy_version
  pub some_target : is_empty policy.targets ≡ false
  pub targets : All IsGoodTarget policy.targets
  pub target_ids : AreDistinct (map target_id policy.targets)
  pub names : All IsNamed policy.sensitive_names
  pub distinct_names : AreDistinct (map normalize_name policy.sensitive_names)
  pub attribution : IsGoodAttribution policy.attribution

-- `validate` accepts exactly the well-formed policies: the supported version, at least one target,
-- targets with hosts, methods and paths of the right form and different ids, sensitive names that
-- differ after normalization and are not empty then, and an attribution policy within its bounds.
pub validate_iff : (policy : CapturePolicy) → (validate policy ≡ ok tt) ↔ IsWellFormed policy
unfolding validate
validate_iff policy = ground (
  arith,
  text_eq_iff policy.version capture_policy_version,
  validate_targets_iff policy.targets [],
  validate_names_iff policy.sensitive_names [],
  AreNew-nil (map target_id policy.targets),
  AreNew-nil (map normalize_name policy.sensitive_names),
  validate_attribution_policy_iff policy.attribution,
)
