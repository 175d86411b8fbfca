-- ===== src/Resource/Bounds.antt =====
-- How far an operation may raise the number of leases (src/supervisor/resources.ts).
use mathlib.Core.List.{Sublist}
use mathlib.Core.List.Sublist
use project_baracks.Prelude.{
  ℕ, ◌≤◌, ◌<◌, max, ◌≡◌, refl, Bool, String, List, [], ◌∷◌, map, arith, length, keep, length-append,
  Option, Bool-cases, inl, inr,
}
use project_baracks.Resource.Types.{
  ResourceKind, ResourceLimits, ResourceLease, ResourceStore, Host,
}
use project_baracks.Resource.Limits.{
  available_memory_percent, soft_memory_floor, current_resource_limits,
}
use project_baracks.Resource.Store.{count_kind, kind_limit, lease_from}
use project_baracks.Resource.Leases.{renewed, update_first}
use project_baracks.Resource.Capacity.{count_kind-grant, capacity_reason-eq-none}
use project_baracks.Resource.Runs.{ResourceOp, apply, LeaseRule, apply_leases_ind}

-- No count passes the larger of what it was and its cap.
pub record WithinCaps (limits : ResourceLimits) (before after : List ResourceLease) : Type 0 where
  pub kinds :
      (k : ResourceKind) → count_kind after k ≤ max (count_kind before k) (kind_limit k limits)
  pub total : length after ≤ max (length before) limits.total

count_kind-keep :
    (k : ResourceKind) (p : ResourceLease → Bool) (leases : List ResourceLease)
    → count_kind (keep p leases) k ≤ count_kind leases k
count_kind-keep k p [] = omega arith
count_kind-keep k p (l ∷ ls) = ground (arith, count_kind-keep k p ls)

length-keep-le :
    (p : ResourceLease → Bool) (leases : List ResourceLease)
    → length (keep p leases) ≤ length leases
length-keep-le p [] = omega arith
length-keep-le p (l ∷ ls) = ground (arith, length-keep-le p ls)

count_kind-update_first :
    (h : Host) (k : ResourceKind) (p : ResourceLease → Bool) (ttl : Option ℕ)
    (leases : List ResourceLease)
    → count_kind (update_first p (renewed h ttl) leases) k ≡ count_kind leases k
unfolding update_first renewed
count_kind-update_first h k p ttl [] = refl
count_kind-update_first h k p ttl (l ∷ ls) = ground (arith, count_kind-update_first h k p ttl ls)

length-update_first :
    (h : Host) (p : ResourceLease → Bool) (ttl : Option ℕ) (leases : List ResourceLease)
    → length (update_first p (renewed h ttl) leases) ≡ length leases
unfolding update_first
length-update_first h p ttl [] = refl
length-update_first h p ttl (l ∷ ls) = ground (arith, length-update_first h p ttl ls)

module _ (h : Host) (before : List ResourceLease) where
  kinds_rule :
      (k : ResourceKind)
      → LeaseRule h (λ l.
        count_kind l k ≤ max (count_kind before k) (kind_limit k (current_resource_limits h)))
  kinds_rule k = record {
    drop = λ l p b. omega (arith, count_kind-keep k p l);
    renew = λ l p ttl b. omega (arith, count_kind-update_first h k p ttl l);
    grant = λ l d r free b. omega (
      arith,
      count_kind-grant h (available_memory_percent h) (current_resource_limits h) k l d r free,
    );
  }

  total_rule : LeaseRule h (λ l. length l ≤ max (length before) (current_resource_limits h).total)
  total_rule = record {
    drop = λ l p b. omega (arith, length-keep-le p l);
    renew = λ l p ttl b. omega (arith, length-update_first h p ttl l);
    grant = λ l d r free b. omega (
      arith,
      length-append l (lease_from h d r ∷ []),
      capacity_reason-eq-none l r.kind (available_memory_percent h) (current_resource_limits h)
          free,
    );
  }

-- No operation, whether it returns or throws, takes the number of leases of a kind, or of all
-- leases, above the larger of what it was before and the host's live cap.
pub apply-WithinCaps :
    (h : Host) (op : ResourceOp) (s : ResourceStore)
    → WithinCaps (current_resource_limits h) s.leases (apply h op s).leases
apply-WithinCaps h op s = record {
  kinds = λ k. apply_leases_ind h (kinds_rule h s.leases k) op s (omega arith);
  total = apply_leases_ind h (total_rule h s.leases) op s (omega arith);
}

-- The identifiers of the leases, in the order of their grants.
abbrev pub ids : List ResourceLease → List String
ids leases = map (λ l. l.id) leases

ids-keep :
    (p : ResourceLease → Bool) (leases : List ResourceLease)
    → Sublist (ids (keep p leases)) (ids leases)
ids-keep p [] = Sublist.refl []
ids-keep p (l ∷ ls) = elim (Bool-cases (p l)) [
  | inl kept ↦ rw kept (Sublist.cons-cons l.id (ids-keep p ls))
  | inr gone ↦ rw gone (Sublist.cons l.id (ids-keep p ls))
]

ids-update_first :
    (h : Host) (p : ResourceLease → Bool) (ttl : Option ℕ) (leases : List ResourceLease)
    → ids (update_first p (renewed h ttl) leases) ≡ ids leases
unfolding update_first renewed
ids-update_first h p ttl [] = refl
ids-update_first h p ttl (l ∷ ls) = ground (arith, ids-update_first h p ttl ls)

module _ (h : Host) (before : List ResourceLease)
    (low : available_memory_percent h < soft_memory_floor) where
  floor_rule : LeaseRule h (λ l. Sublist (ids l) (ids before))
  unfolding current_resource_limits
  floor_rule = record {
    drop = λ l p b. Sublist.trans (ids-keep p l) b;
    renew = λ l p ttl b. rw (ids-update_first h p ttl l) b;
    grant = λ l d r free b.
        let (above, _, _) =
          capacity_reason-eq-none l r.kind (available_memory_percent h) (current_resource_limits h)
            free in
        absurd (omega arith);
  }

-- Below the soft memory floor no operation grants a lease: the identifiers of the leases that it
-- leaves are among those it found, in the same order.
apply-grants_nothing :
    (h : Host) (op : ResourceOp) (s : ResourceStore)
    → available_memory_percent h < soft_memory_floor
    → Sublist (ids (apply h op s).leases) (ids s.leases)
apply-grants_nothing h op s low =
    apply_leases_ind h (floor_rule h s.leases low) op s (Sublist.refl _)
