-- ===== src/Policy/Hosts/Laws.antt =====
-- What `normalize_additional_hosts` returns.
use mathlib.Core.List.{Perm}
use code_is_cheap.Common.{
  ◌≤◌, ◌≡◌, refl, ap, sym, subst, Bool, true, false, not, List, [], ◌∷◌, map, arith, ltb, length,
  All, ok, >>=-eq-ok, fail_if-inv, ok_injective,
}
use code_is_cheap.Text.{Text}
use code_is_cheap.Text.Distinct.{AreDistinct, Fresh-iff, AreNew, AreNew-cons}
use code_is_cheap.Policy.{too_many_additional_hosts, max_additional_target_hosts}
use code_is_cheap.Policy.Hosts.{
  normalize_host, valid_additional_host, sort, collect_hosts, normalize_additional_hosts,
}
use code_is_cheap.Policy.Hosts.Sorting.{
  IsSorted, sort-IsSorted, sort-All, sort-AreDistinct, sort-perm,
}

abbrev pub AreValid : List Text → Type 0
AreValid hosts = All (λ h. valid_additional_host h ≡ true) hosts

unfailing : (b : Bool) → not b ≡ false → b ≡ true
unfailing b h = ground arith

-- What a successful `collect_hosts` has collected: the normalized hosts, all valid and none seen
-- before.
abbrev Collected : List Text → List Text → List Text → Type 0
Collected hosts seen ns = (map normalize_host hosts ≡ ns) × AreValid ns × AreNew ns seen

collect_hosts-ok :
    (hosts seen ns : List Text) → collect_hosts hosts seen ≡ ok ns → Collected hosts seen ns
unfolding collect_hosts
collect_hosts-ok [] seen ns h =
    subst (Collected [] seen) (ok_injective h) (refl, tt, record { distinct = tt; unseen = tt })
collect_hosts-ok (host ∷ hosts) seen ns h =
    let n = normalize_host host in
    let (valid, k) = fail_if-inv _ _ _ ns h in
    let (unseen, k') = fail_if-inv _ _ _ ns k in
    let (rest, got, last) = >>=-eq-ok (collect_hosts hosts (n ∷ seen)) _ k' in
    let (same, all_valid, new) = collect_hosts-ok hosts (n ∷ seen) rest got in
    subst (Collected (host ∷ hosts) seen) (ok_injective last) (
      ap (λ l. n ∷ l) same,
      (unfailing (valid_additional_host n) valid, all_valid),
      (AreNew-cons n rest seen).1 ((Fresh-iff n seen).0 unseen, new),
    )

-- If `normalize_additional_hosts` succeeds, there were at most 16 hosts, and it returns their
-- normalized forms: rearranged in the order of their bytes, all different, and each a valid host.
pub normalize_additional_hosts-ok :
    (hosts ns : List Text)
    → normalize_additional_hosts hosts ≡ ok ns
    → (length hosts ≤ max_additional_target_hosts)
      × Perm ns (map normalize_host hosts)
      × IsSorted ns
      × AreDistinct ns
      × AreValid ns
unfolding normalize_additional_hosts
normalize_additional_hosts-ok hosts ns h =
    let (few, k) =
      fail_if-inv (ltb max_additional_target_hosts (length hosts)) too_many_additional_hosts _ ns
        h in
    let (found, got, last) = >>=-eq-ok (collect_hosts hosts []) (λ l. ok (sort l)) k in
    let (same, valid, new) = collect_hosts-ok hosts [] found got in
    subst
      (λ l.
        (length hosts ≤ max_additional_target_hosts)
        × Perm l (map normalize_host hosts)
        × IsSorted l
        × AreDistinct l
        × AreValid l)
      (ok_injective last)
      (
        ground arith,
        subst (λ l. Perm (sort found) l) (sym same) (sort-perm found),
        sort-IsSorted found,
        sort-AreDistinct found new.distinct,
        sort-All _ found valid,
      )
