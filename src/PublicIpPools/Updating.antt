-- ===== src/PublicIpPools/Updating.antt =====
-- internal/servers/private_public_ip_pools_server.go: what an update may change, and when a pool may go.
use mathlib.Core.List.{Perm}
use mathlib.Core.List.Perm
use osac_fulfillment_service.Prelude.{
  true, false, not, ◌&&◌, ◌≡◌, ◌↔◌, ◌⊎◌, sym, subst, refl, inl, inr, List, [], ◌∷◌, String, some,
  arith, eq_iff, Bool-cases,
}
use osac_fulfillment_service.Prelude.Compare.{◌==◌, string_comparable}
use osac_fulfillment_service.Prelude.Sort.{sort_strings, sort_strings-perm}
use osac_fulfillment_service.Prelude.Sorting.{sort-Perm, length-Perm}
use osac_fulfillment_service.Errors.{ok, Result-cases}
use osac_fulfillment_service.Dao.{Object, Store}
use osac_fulfillment_service.Servers.Generic.{Server}
use osac_fulfillment_service.Servers.Generic as Generic
use osac_fulfillment_service.PublicIps.{
  family_unspecified, Pool, PoolSpec, is_positive, pool_status_of,
}
use osac_fulfillment_service.PublicIps.Requests.{same_family}
use osac_fulfillment_service.PublicIps.Equality.{same_family_iff}
use osac_fulfillment_service.PublicIpPools.Requests.{
  pool_spec_of, is_empty, family_changes, cidrs_change, strategy_changes, validate_update, delete,
}
use osac_fulfillment_service.PublicIpPools.{cidr_slices_equal, same_texts}

same_texts_iff : (xs ys : List String) → (same_texts xs ys ≡ true) ↔ (xs ≡ ys)
same_texts_iff xs ys = (same xs ys, λ e. subst (λ zs. same_texts xs zs ≡ true) e (self xs))
  where
    same : (us vs : List String) → same_texts us vs ≡ true → us ≡ vs
    same [] [] h = refl
    same [] (v ∷ vs) h = absurd (ground arith)
    same (u ∷ us) [] h = absurd (ground arith)
    same (u ∷ us) (v ∷ vs) h = ground (arith, eq_iff u v, same us vs)

    self : (us : List String) → same_texts us us ≡ true
    self [] = refl
    self (u ∷ us) = ground (arith, eq_iff u u, self us)

-- Two lists of networks count as equal exactly when they have the same items, each as often.
pub cidr_slices_equal_iff : (a b : List String) → (cidr_slices_equal a b ≡ true) ↔ Perm a b
unfolding cidr_slices_equal
cidr_slices_equal_iff a b = (to, from)
  where
    to : cidr_slices_equal a b ≡ true → Perm a b
    to h =
        let same = (same_texts_iff (sort_strings a) (sort_strings b)).0 (ground arith) in
        Perm.trans (Perm.symm (sort_strings-perm a))
          (subst (λ s. Perm s b) (sym same) (sort_strings-perm b))

    from : Perm a b → cidr_slices_equal a b ≡ true
    from p =
        let same = (same_texts_iff (sort_strings a) (sort_strings b)).1 (sort-Perm p) in
        let long = length-Perm p in ground arith

-- What the specification of an update may be, against that of the pool: a field that is set has the
-- value that it had, but for the order of the networks.
pub record Unchanged (new old : PoolSpec) : Type 0 where
  pub family : (new.ip_family ≡ family_unspecified) ⊎ (new.ip_family ≡ old.ip_family)
  pub cidrs : (new.cidrs ≡ []) ⊎ Perm new.cidrs old.cidrs
  pub strategy :
      (new.implementation_strategy ≡ "")
      ⊎ (new.implementation_strategy ≡ old.implementation_strategy)

family_kept :
    (new old : PoolSpec)
    → (family_changes new old ≡ false)
      ↔ ((new.ip_family ≡ family_unspecified) ⊎ (new.ip_family ≡ old.ip_family))
family_kept new old =
    let zero = same_family_iff new.ip_family family_unspecified in
    let kept = same_family_iff new.ip_family old.ip_family in
    (
      λ h. elim (Bool-cases (same_family new.ip_family family_unspecified)) [
        | inl e ↦ inl (zero.0 e)
        | inr e ↦ inr (kept.0 (ground arith))
      ],
      λ h. elim h [ inl e ↦ rw (zero.1 e) refl | inr e ↦ rw (kept.1 e) (ground arith) ],
    )

cidrs_kept :
    (new old : PoolSpec)
    → (cidrs_change new old ≡ false) ↔ ((new.cidrs ≡ []) ⊎ Perm new.cidrs old.cidrs)
cidrs_kept new old = go new.cidrs
  where
    go :
        (cidrs : List String)
        → (not (is_empty cidrs) && not (cidr_slices_equal cidrs old.cidrs) ≡ false)
          ↔ ((cidrs ≡ []) ⊎ Perm cidrs old.cidrs)
    go [] = (λ h. inl refl, λ h. refl)
    go (c ∷ cs) =
        let same = cidr_slices_equal_iff (c ∷ cs) old.cidrs in
        (
          λ h. inr (same.0 (ground arith)),
          λ h. elim h [ inl e ↦ absurd (ground arith) | inr p ↦ rw (same.1 p) refl ],
        )

strategy_kept :
    (new old : PoolSpec)
    → (strategy_changes new old ≡ false) ↔ (
        (new.implementation_strategy ≡ "")
        ⊎ (new.implementation_strategy ≡ old.implementation_strategy))
strategy_kept new old =
    let zero = eq_iff new.implementation_strategy "" in
    let kept = eq_iff new.implementation_strategy old.implementation_strategy in
    (
      λ h. elim (Bool-cases (new.implementation_strategy == "")) [
        | inl e ↦ inl (zero.0 e)
        | inr e ↦ inr (kept.0 (ground arith))
      ],
      λ h. elim h [ inl e ↦ rw (zero.1 e) refl | inr e ↦ rw (kept.1 e) (ground arith) ],
    )

-- An update of a pool whose request has a specification is valid exactly when the family, the
-- networks and the strategy that it gives are unset or those of the pool, the networks in any
-- order.
pub validate_update_iff :
    (new existing : Object Pool) (spec : PoolSpec)
    → new.payload.spec ≡ some spec
    → (validate_update (some new) existing ≡ ok tt) ↔ Unchanged spec (pool_spec_of existing.payload)
unfolding validate_update
validate_update_iff new existing spec e =
    let old = pool_spec_of existing.payload in
    let family = family_kept spec old in
    let cidrs = cidrs_kept spec old in
    let strategy = strategy_kept spec old in
    (
      λ h. record {
        family = family.0 (ground arith);
        cidrs = cidrs.0 (ground arith);
        strategy = strategy.0 (ground arith);
      },
      λ u. rw (validate_update, e, family.1 u.family, cidrs.1 u.cidrs, strategy.1 u.strategy) refl,
    )

-- A pool is deleted only if nothing is allocated from it, and then by the generic server.
pub delete_unused :
    (server : Server Pool) (id : String) (s t : Store Pool)
    → delete server id s ≡ ok t
    → (existing : Object Pool) × (Generic.get server id s ≡ ok existing)
      × (is_positive (pool_status_of existing.payload).allocated ≡ false)
      × (Generic.delete server id s ≡ ok t)
unfolding delete
delete_unused server id s t h = elim (Result-cases (Generic.get server id s)) [
  | inr (e, q) ↦ absurd (ground arith)
  | inl (existing, q) ↦ (existing, q, ground arith, ground arith)
]
