-- ===== src/Resource/Runs.antt =====
-- Every operation of src/supervisor/resources.ts as a step of the store, and a rule for what the
-- leases keep in a step.
use project_baracks.Prelude.{
  ℕ, ◌+◌, ◌≡◌, refl, inl, inr, Bool, true, false, not, Option, none, some, String, List, [], ◌∷◌,
  ◌++◌, keep, ◌==◌, Eq-String, Eq-ℕ, find, any, is_some, option_eq, Bool-cases, Option-cases,
}
use project_baracks.Resource.Types.{ResourceLease, QueuedResourceRequest, ResourceStore, Host}
use project_baracks.Resource.Limits.{available_memory_percent, current_resource_limits}
use project_baracks.Resource.Store.{
  prune, capacity_reason, lease_from, promote_queued, lease_is_active,
}
use project_baracks.Resource.Operations.{
  with_store_lock, RequestInput, request_anew, request_on, refresh, request_resource,
  resource_snapshot, reclaim_stale_resources, admit_request, request_depth, or_env, by_id, of_owner,
  new_request, queued_of_owner,
}
use project_baracks.Resource.Leases.{
  FenceInput, assert_active_resource_lease, renewed, update_first, heartbeat_resource,
  release_resource, cancel_resource_request, fence_holds, is_child_of,
}
use project_baracks.Resource.Capacity.{promote_from_ind}

pub data ResourceOp : Type 0 where
  request : RequestInput → ResourceOp
  snapshot reclaim : ResourceOp
  assert_lease : FenceInput → ResourceOp
  heartbeat : (lease_id fencing_token : String) (ttl_ms : Option ℕ) → ResourceOp
  release : (lease_id fencing_token : String) → ResourceOp
  cancel : (request_id : String) → ResourceOp

-- The store on disk after one operation, whether it returned or threw.
unfoldable pub apply : Host → ResourceOp → ResourceStore → ResourceStore
unfolding request_resource resource_snapshot reclaim_stale_resources assert_active_resource_lease
    heartbeat_resource release_resource cancel_resource_request
apply h (request input) s = (request_resource h input s).0
apply h snapshot s = (resource_snapshot h s).0
apply h reclaim s = (reclaim_stale_resources h s).0
apply h (assert_lease input) s = (assert_active_resource_lease h input s).0
apply h (heartbeat id token ttl) s = (heartbeat_resource h id token ttl s).0
apply h (release id token) s = (release_resource h id token s).0
apply h (cancel id) s = (cancel_resource_request h id s).0

-- The stores that any operations reach, each on a host of its own.
pub data Reach (s : ResourceStore) : ResourceStore → Type 0 where
  here : Reach s s
  next : {t : ResourceStore} → Reach s t → (h : Host) (op : ResourceOp) → Reach s (apply h op t)

-- What the operations are made of: a property that each part keeps is kept by every operation.
pub record StoreRule {ℓ} (h : Host) (op : ResourceOp) (P : ResourceStore → Type ℓ) : Type ℓ where
  pub pruned : (s : ResourceStore) → P s → P (prune h s)
  pub granted :
      (s : ResourceStore)
      → P s
      → P (promote_queued h (available_memory_percent h) (current_resource_limits h) s)
  pub renew :
      (s : ResourceStore) (p : ResourceLease → Bool) (ttl : Option ℕ)
      → P s
      → P (record s { leases = update_first p (renewed h ttl) s.leases })
  -- Leases leave by the release of their identifier with the token that it was granted.
  pub released :
      (s : ResourceStore) (id token : String) (lease : ResourceLease)
      → op ≡ release id token
      → find (by_id id) s.leases ≡ some lease
      → (lease.fencing_token == token) ≡ true
      → P s
      → P (record s { leases = keep (λ l. not (by_id id l)) s.leases })
  pub drop_requests :
      (s : ResourceStore) (p : QueuedResourceRequest → Bool)
      → P s
      → P (record s { queue = keep p s.queue })
  -- A request is admitted only if its owner has neither a lease nor a request of its kind.
  pub admit :
      (s : ResourceStore) (r : QueuedResourceRequest) (drawn : ℕ)
      → find (of_owner r.kind r.owner) s.leases ≡ none
      → find (queued_of_owner r.kind r.owner) s.queue ≡ none
      → P s
      → P (admit_request h r (record s { drawn = drawn })).0

module _ {ℓ} (h : Host) (op : ResourceOp) {P : ResourceStore → Type ℓ}
    (rule : StoreRule h op P) where
  pub refresh_ind : (s : ResourceStore) → P s → P (refresh h s)
  unfolding refresh
  refresh_ind s p = rule.granted (prune h s) (rule.pruned s p)

  anew_ind :
      (input : RequestInput) (s : ResourceStore)
      → find (of_owner input.kind input.owner) s.leases ≡ none
      → find (queued_of_owner input.kind input.owner) s.queue ≡ none
      → P s
      → P (request_anew h input s).0
  unfolding request_anew new_request
  anew_ind input s unheld unqueued p =
      elim (Option-cases
        (request_depth s.leases input.kind (or_env input.parent_lease_id h.env_resource_lease_id)
          (current_resource_limits h)).1) [
            | inl free ↦ rw (free, request_anew) (rule.admit s _ (s.drawn + 2) unheld unqueued p)
            | inr (why, e) ↦ rw (e, request_anew) p
          ]

  request_ind : (input : RequestInput) (s : ResourceStore) → P s → P (request_on h input s).0
  unfolding request_on
  request_ind input s p = elim (Option-cases (find (of_owner input.kind input.owner) s.leases)) [
    | inr (lease, e) ↦ rw (e, request_on) p
    | inl unheld ↦
        rw (unheld, request_on)
          (elim (Option-cases (find (queued_of_owner input.kind input.owner) s.queue)) [
            | inr (r, e) ↦ rw e p
            | inl unqueued ↦ rw unqueued (anew_ind input s unheld unqueued p)
          ])
  ]

  resource_ind : (input : RequestInput) (s : ResourceStore) → P s → P (request_resource h input s).0
  unfolding request_resource with_store_lock
  resource_ind input s p = elim (Bool-cases (option_eq input.ttl_ms (some 0))) [
    | inl bad ↦ rw bad p
    | inr good ↦ rw good (request_ind input (refresh h s) (refresh_ind s p))
  ]

  assert_ind :
      (input : FenceInput) (s : ResourceStore) → P s → P (assert_active_resource_lease h input s).0
  unfolding assert_active_resource_lease with_store_lock
  assert_ind input s p = elim (Option-cases (find (by_id input.lease_id) (prune h s).leases)) [
    | inl gone ↦ rw (gone, assert_active_resource_lease, with_store_lock) p
    | inr (lease, e) ↦
        rw (e, assert_active_resource_lease, with_store_lock)
          (elim (Bool-cases (fence_holds h input lease)) [
            | inl held ↦ rw held (rule.pruned s p)
            | inr lost ↦ rw lost p
          ])
  ]

  heartbeat_ind :
      (id token : String) (ttl : Option ℕ) (s : ResourceStore)
      → P s
      → P (heartbeat_resource h id token ttl s).0
  unfolding heartbeat_resource with_store_lock
  heartbeat_ind id token ttl s p = elim (Option-cases (find (by_id id) (prune h s).leases)) [
    | inl gone ↦ rw (gone, heartbeat_resource, with_store_lock) p
    | inr (lease, e) ↦
        rw (e, heartbeat_resource, with_store_lock)
          (elim (Bool-cases (lease.fencing_token == token)) [
            | inl held ↦ rw held (rule.renew (prune h s) (by_id id) ttl (rule.pruned s p))
            | inr lost ↦ rw lost p
          ])
  ]

  release_ind :
      (id token : String) (s : ResourceStore)
      → op ≡ release id token
      → P s
      → P (release_resource h id token s).0
  unfolding release_resource with_store_lock
  release_ind id token s now p = elim (Option-cases (find (by_id id) (prune h s).leases)) [
    | inl gone ↦ rw (gone, release_resource, with_store_lock) p
    | inr (lease, e) ↦
        rw (e, release_resource, with_store_lock)
          (elim (Bool-cases (lease.fencing_token == token)) [
            | inr lost ↦ rw lost p
            | inl held ↦ rw held (elim (Bool-cases (any (is_child_of id) (prune h s).leases)) [
              | inl child ↦ rw child p
              | inr childless ↦
                  rw childless
                    (rule.granted _ (rule.released _ id token lease now e held (rule.pruned s p)))
            ])
          ])
  ]

-- What every part keeps, every operation keeps.
pub apply_ind {ℓ} :
    (h : Host) (op : ResourceOp) {P : ResourceStore → Type ℓ}
    → StoreRule h op P
    → (s : ResourceStore) → P s
    → P (apply h op s)
unfolding apply resource_snapshot reclaim_stale_resources cancel_resource_request with_store_lock
apply_ind h (request input) rule s p = resource_ind h (request input) rule input s p
apply_ind h snapshot rule s p = refresh_ind h snapshot rule s p
apply_ind h reclaim rule s p = refresh_ind h reclaim rule s p
apply_ind h (assert_lease input) rule s p = assert_ind h (assert_lease input) rule input s p
apply_ind h (heartbeat id token ttl) rule s p =
    heartbeat_ind h (heartbeat id token ttl) rule id token ttl s p
apply_ind h (release id token) rule s p = release_ind h (release id token) rule id token s refl p
apply_ind h (cancel id) rule s p =
    rule.granted _ (rule.drop_requests _ (λ r. not (r.id == id)) (rule.pruned s p))

-- What an operation does to the list of leases: it drops some, renews one, or grants one more.
pub record LeaseRule {ℓ} (h : Host) (P : List ResourceLease → Type ℓ) : Type ℓ where
  pub drop : (leases : List ResourceLease) (p : ResourceLease → Bool) → P leases → P (keep p leases)
  pub renew :
      (leases : List ResourceLease) (p : ResourceLease → Bool) (ttl : Option ℕ)
      → P leases
      → P (update_first p (renewed h ttl) leases)
  pub grant :
      (leases : List ResourceLease) (drawn : ℕ) (r : QueuedResourceRequest)
      → is_some
          (capacity_reason leases r.kind (available_memory_percent h) (current_resource_limits h))
        ≡ false
      → P leases
      → P (leases ++ lease_from h drawn r ∷ [])

-- A property of the leases that a grant keeps holds after an admission.
pub admit_ind {ℓ} :
    (h : Host) (P : List ResourceLease → Type ℓ) (r : QueuedResourceRequest) (s : ResourceStore)
    → (is_some (
            capacity_reason s.leases r.kind
              (available_memory_percent h)
              (current_resource_limits h))
          ≡ false
        → P s.leases
        → P (s.leases ++ lease_from h s.drawn r ∷ []))
    → P s.leases
    → P (admit_request h r s).0.leases
unfolding admit_request
admit_ind h P r s grant p =
    elim (Bool-cases (
      is_some (
        capacity_reason s.leases r.kind (available_memory_percent h)
          (current_resource_limits h)))) [
            | inl full ↦ rw full p
            | inr free ↦ rw free (grant free p)
          ]

module _ {ℓ} (h : Host) {P : List ResourceLease → Type ℓ} (rule : LeaseRule h P) where
  LeaseRule-store : (op : ResourceOp) → StoreRule h op (λ s. P s.leases)
  unfolding prune promote_queued
  LeaseRule-store op = record {
    pruned = λ s. rule.drop s.leases (lease_is_active h);
    granted = λ s.
        promote_from_ind h (available_memory_percent h) (current_resource_limits h) P rule.grant
          s.queue s.leases s.drawn;
    renew = λ s. rule.renew s.leases;
    released = λ s id token lease now e held. rule.drop s.leases (λ l. not (by_id id l));
    drop_requests = λ s q p. p;
    admit = λ s r drawn unheld unqueued.
        admit_ind h P r (record s { drawn = drawn }) (rule.grant s.leases drawn r);
  }

  -- What every drop, renewal and grant keeps, every operation keeps.
  pub apply_leases_ind :
      (op : ResourceOp) (s : ResourceStore) → P s.leases → P (apply h op s).leases
  apply_leases_ind op = apply_ind h op (LeaseRule-store op)
