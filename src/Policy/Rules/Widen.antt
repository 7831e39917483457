-- ===== src/Policy/Rules/Widen.antt =====
-- The scope of a policy, and how `with_additional_hosts` widens it.
use code_is_cheap.Common.{
  ◌≡◌, refl, sym, subst, ◌∙◌, inl, inr, Bool, true, false, ◌&&◌, ◌||◌, some, List, [], ◌∷◌, ◌++◌,
  map, arith, any, find, Bool-cases, ok, >>=-eq-ok, ok_injective,
}
use code_is_cheap.Text.{Text, text_eq, contains, eq_ignore_ascii_case}
use code_is_cheap.Text.Laws.{text_eq_iff, contains-append}
use code_is_cheap.Wildcard.{wildcard_match}
use code_is_cheap.Capture.{CapturedRequest}
use code_is_cheap.Policy.{CapturePolicy, CaptureTarget}
use code_is_cheap.Policy.Hosts.{normalize_host, normalize_additional_hosts}
use code_is_cheap.Policy.Rules.{
  validate, push_hosts, widen_target, with_additional_hosts, covers, matching_target,
}

text_eq_comm : (s t : Text) → text_eq s t ≡ text_eq t s
unfolding text_eq
text_eq_comm [] [] = refl
text_eq_comm [] (d ∷ t) = refl
text_eq_comm (c ∷ s) [] = refl
text_eq_comm (c ∷ s) (d ∷ t) = ground (arith, text_eq_comm s t)

any-contains : (x : Text) (ys : List Text) → any (λ y. text_eq y x) ys ≡ contains x ys
unfolding contains
any-contains x [] = refl
any-contains x (y ∷ ys) = rw (text_eq_comm y x, any-contains x ys)

contains-push_hosts :
    (x : Text) (present hosts : List Text)
    → contains x (push_hosts present hosts) ≡ (contains x present || contains x hosts)
unfolding push_hosts contains
contains-push_hosts x present [] = ground arith
contains-push_hosts x present (h ∷ hosts) = elim (Bool-cases (contains h present)) [
  | inl e ↦ rw e (ground (arith, contains-push_hosts x present hosts, text_eq_iff x h))
  | inr e ↦ rw e (
      ground (
        arith,
        contains-push_hosts x (present ++ h ∷ []) hosts,
        contains-append x present (h ∷ []),
      ))
]

covers-eq :
    (request : CapturedRequest) (target : CaptureTarget)
    → covers request target ≡ (
        contains (normalize_host request.host) target.hosts
        && any (λ allowed. eq_ignore_ascii_case allowed request.method) target.methods
        && any (λ pattern. wildcard_match pattern request.path) target.paths)
unfolding covers
covers-eq request target = rw (any-contains (normalize_host request.host) target.hosts)

-- After widening by some hosts, a target covers a request exactly if it has the method and the path
-- of the request as before, and the normalized host of the request is one of the old or new hosts.
pub covers-widen_target :
    (request : CapturedRequest) (hosts : List Text) (target : CaptureTarget)
    → covers request (widen_target hosts target) ≡ (
        (contains (normalize_host request.host) target.hosts
          || contains (normalize_host request.host) hosts)
        && any (λ allowed. eq_ignore_ascii_case allowed request.method) target.methods
        && any (λ pattern. wildcard_match pattern request.path) target.paths)
covers-widen_target request hosts target =
    covers-eq request (widen_target hosts target)
    ∙ rw (contains-push_hosts (normalize_host request.host) target.hosts hosts)

or_widens : (a b c d : Bool) → (a && c && d) ≡ true → ((a || b) && c && d) ≡ true
or_widens a b c d h = ground arith

covers-widen_mono :
    (request : CapturedRequest) (hosts : List Text) (target : CaptureTarget)
    → covers request target ≡ true
    → covers request (widen_target hosts target) ≡ true
covers-widen_mono request hosts target h =
    covers-widen_target request hosts target
    ∙ or_widens (contains (normalize_host request.host) target.hosts) _
        (any (λ allowed. eq_ignore_ascii_case allowed request.method) target.methods)
        (any (λ pattern. wildcard_match pattern request.path) target.paths)
        (sym (covers-eq request target) ∙ h)

true≢false : ¬ (true ≡ false)
true≢false e = cc

find-widen :
    (request : CapturedRequest) (hosts : List Text) (ts : List CaptureTarget) (t : CaptureTarget)
    → find (covers request) ts ≡ some t
    → (t' : CaptureTarget) × (find (covers request) (map (widen_target hosts) ts) ≡ some t')
find-widen request hosts [] t h = absurd (ground arith)
find-widen request hosts (u ∷ ts) t h = elim (Bool-cases (covers request (widen_target hosts u))) [
  | inl e ↦ (widen_target hosts u, rw e)
  | inr e ↦ elim (Bool-cases (covers request u)) [
    | inl old ↦ absurd (true≢false (sym (covers-widen_mono request hosts u old) ∙ e))
    | inr new ↦ rw e (find-widen request hosts ts t (rw new at h))
  ]
]

abbrev widen_policy : List Text → CapturePolicy → CapturePolicy
widen_policy hosts policy = record policy { targets = map (widen_target hosts) policy.targets }

-- If `with_additional_hosts` succeeds, the widened policy passes `validate`, and every request in
-- the scope of the old policy is in the scope of the widened one.
pub with_additional_hosts_mono :
    (policy widened : CapturePolicy) (hosts : List Text) (request : CapturedRequest)
    (t : CaptureTarget)
    → with_additional_hosts policy hosts ≡ ok widened
    → matching_target policy request ≡ some t
    → (validate widened ≡ ok tt)
      × ((t' : CaptureTarget) × (matching_target widened request ≡ some t'))
unfolding with_additional_hosts matching_target
with_additional_hosts_mono policy widened hosts request t h m =
    let (ns, got, k) = >>=-eq-ok (normalize_additional_hosts hosts) _ h in
    let (u, valid, last) = >>=-eq-ok (validate (widen_policy ns policy)) _ k in
    let same : widen_policy ns policy ≡ widened = ok_injective last in
    subst
      (λ (p : CapturePolicy).
        (validate p ≡ ok tt) × ((t' : CaptureTarget) × (find (covers request) p.targets ≡ some t')))
      same (valid, find-widen request ns policy.targets t m)
