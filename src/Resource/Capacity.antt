-- ===== src/Resource/Capacity.antt =====
-- How many leases the store's loop grants (src/supervisor/resources.ts).
use project_baracks.Prelude.{
  ℕ, suc, ◌+◌, ◌≤◌, ◌<◌, max, ◌≡◌, true, false, List, [], ◌∷◌, ◌++◌, arith, length, is_some,
}
use project_baracks.Resource.Types.{
  ResourceKind, kind_eq, kind_eq_iff, ResourceLimits, ResourceLease, QueuedResourceRequest, Host,
}
use project_baracks.Resource.Turn.{turn, promote_from-nil, drops, passes, stops, grants}
use project_baracks.Resource.Store.{
  count_kind, kind_limit, kind_cap_reached, capacity_reason, lease_from, promote_from,
}

count_kind-append :
    (k : ResourceKind) (xs ys : List ResourceLease)
    → count_kind (xs ++ ys) k ≡ count_kind xs k + count_kind ys k
count_kind-append k [] ys = omega arith
count_kind-append k (x ∷ xs) ys = ground (arith, count_kind-append k xs ys)

-- A grant is made only below every cap and above the memory floor.
pub capacity_reason-eq-none :
    (leases : List ResourceLease) (k : ResourceKind) (memory : ℕ) (limits : ResourceLimits)
    → is_some (capacity_reason leases k memory limits) ≡ false
    → (limits.soft_memory_available_percent ≤ memory)
      × (length leases < limits.total)
      × (count_kind leases k < kind_limit k limits)
unfolding capacity_reason kind_cap_reached
capacity_reason-eq-none leases k memory limits h = ground arith

-- What is granted is not of a kind at its cap.
pub other_kind_of_free :
    (leases : List ResourceLease) (j k : ResourceKind) (memory : ℕ) (limits : ResourceLimits)
    → is_some (capacity_reason leases j memory limits) ≡ false
    → kind_cap_reached leases k limits ≡ true
    → kind_eq j k ≡ false
unfolding kind_cap_reached
other_kind_of_free leases j k memory limits free capped =
    ground (arith, capacity_reason-eq-none leases j memory limits free, kind_eq_iff j k)

module _ (h : Host) (memory : ℕ) (limits : ResourceLimits) where
  -- One more lease of a kind below its cap stays within the cap, and no other count changes.
  pub count_kind-grant :
      (k : ResourceKind) (leases : List ResourceLease) (drawn : ℕ) (request : QueuedResourceRequest)
      → is_some (capacity_reason leases request.kind memory limits) ≡ false
      → count_kind (leases ++ lease_from h drawn request ∷ []) k
        ≤ max (count_kind leases k) (kind_limit k limits)
  unfolding lease_from
  count_kind-grant k leases drawn request free = ground (
    arith,
    capacity_reason-eq-none leases request.kind memory limits free,
    count_kind-append k leases (lease_from h drawn request ∷ []),
    kind_eq_iff request.kind k,
  )

  -- What every grant keeps holds of the leases when the loop ends.
  pub promote_from_ind {ℓ} :
      (P : List ResourceLease → Type ℓ)
      → ((leases : List ResourceLease) (drawn : ℕ) (request : QueuedResourceRequest)
          → is_some (capacity_reason leases request.kind memory limits) ≡ false
          → P leases
          → P (leases ++ lease_from h drawn request ∷ []))
      → (queue : List QueuedResourceRequest) (leases : List ResourceLease) (drawn : ℕ) → P leases
      → P (promote_from h memory limits leases drawn queue).0
  promote_from_ind P grant [] leases drawn p = rw (promote_from-nil h memory limits leases drawn) p
  promote_from_ind P grant (request ∷ rest) leases drawn p =
      elim (turn h memory limits leases drawn request rest) [
        | drops orphan e ↦ rw e (promote_from_ind P grant rest leases drawn p)
        | passes capped e ↦ rw e (promote_from_ind P grant rest leases drawn p)
        | stops full e ↦ rw e p
        | grants own free e ↦
            rw e (promote_from_ind P grant rest _ (suc drawn) (grant leases drawn request free p))
      ]

  pub kind_cap_reached-grant :
      (k : ResourceKind) (leases : List ResourceLease) (drawn : ℕ) (request : QueuedResourceRequest)
      → kind_cap_reached leases k limits ≡ true
      → kind_cap_reached (leases ++ lease_from h drawn request ∷ []) k limits ≡ true
  unfolding kind_cap_reached
  kind_cap_reached-grant k leases drawn request capped =
      ground (arith, count_kind-append k leases (lease_from h drawn request ∷ []))

  pub promote_from-count_kind :
      (k : ResourceKind) (queue : List QueuedResourceRequest) (leases : List ResourceLease)
      (drawn : ℕ)
      → count_kind (promote_from h memory limits leases drawn queue).0 k
        ≤ max (count_kind leases k) (kind_limit k limits)
  promote_from-count_kind k queue leases drawn =
      promote_from_ind (λ l. count_kind l k ≤ max (count_kind leases k) (kind_limit k limits))
        (λ l d r free p. omega (arith, count_kind-grant k l d r free)) queue leases drawn
        (omega arith)
