-- ===== src/Resource/Leases.antt =====
-- The operations of src/supervisor/resources.ts on a lease that was granted or is waited for: the
-- fence, the heartbeat, the release, the cancellation and one turn of the wait.
use project_baracks.Prelude.{
  ℕ, ◌+◌, ◌==◌, Eq-String, Eq-ℕ, String, Bool, true, not, ◌&&◌, Option, none, some, get_or, List,
  [], ◌∷◌, option_eq, keep, find, any, leb, if◌then◌else◌,
}
use project_baracks.Resource.Types.{
  ResourceKind, Eq-ResourceKind, ResourceLease, QueuedResourceRequest, ResourceStore,
  ResourceTelemetry, ResourceError, not_active, not_current, owns_child, request_gone,
  wait_timed_out, not_fence, Result, ok, err, Host,
}
use project_baracks.Resource.Limits.{available_memory_percent, current_resource_limits}
use project_baracks.Resource.Store.{lease_is_active, prune, telemetry, promote_queued}
use project_baracks.Resource.Operations.{with_store_lock, by_id, refresh}

pub record FenceInput : Type 0 where
  pub lease_id : String
  pub fencing_token : String
  pub kind : ResourceKind
  pub owner : Option String  -- `none` where the owner is not asked for
  pub pid : ℕ

abbrev owner_matches : Option String → String → Bool
owner_matches none owner = true
owner_matches (some o) owner = owner == o

unfoldable pub fence_holds : Host → FenceInput → ResourceLease → Bool
fence_holds h input lease =
    lease_is_active h lease
    && lease.fencing_token == input.fencing_token
    && lease.kind == input.kind
    && owner_matches input.owner lease.owner
    && option_eq lease.pid (some input.pid)

-- `assertActiveResourceLease`, and `assertActiveResourceLeaseForProcess` where no owner is given.
unfoldable pub assert_active_resource_lease :
    Host → FenceInput → ResourceStore → ResourceStore × Result ResourceLease
assert_active_resource_lease h input = with_store_lock λ s.
    let s' = prune h s in
    let refused = err (not_fence input.kind input.lease_id) in
    elim (find (by_id input.lease_id) s'.leases) [
      | none ↦ refused
      | some lease ↦ if fence_holds h input lease then ok (s', lease) else refused
    ]

unfoldable pub renewed : Host → Option ℕ → ResourceLease → ResourceLease
renewed h ttl_ms lease =
    let next = get_or ttl_ms lease.ttl_ms in
    record lease {
      heartbeat_at = h.now;
      ttl_ms = next;
      expires_at = h.now + next;
      reclaim_after = h.now + next + lease.grace_ms;
    }

-- An assignment to the fields of the object that `find` has found.
unfoldable pub update_first :
    (ResourceLease → Bool)
    → (ResourceLease → ResourceLease)
    → List ResourceLease
    → List ResourceLease
update_first p f [] = []
update_first p f (x ∷ xs) = let rest = update_first p f xs in if p x then f x ∷ xs else x ∷ rest

unfoldable pub heartbeat_resource :
    Host → String → String → Option ℕ → ResourceStore → ResourceStore × Result ResourceLease
heartbeat_resource h lease_id fencing_token ttl_ms = with_store_lock λ s.
    let s' = prune h s in
    elim (find (by_id lease_id) s'.leases) [
      | none ↦ err (not_active lease_id)
      | some lease ↦
          if lease.fencing_token == fencing_token
          then ok (
            record s' { leases = update_first (by_id lease_id) (renewed h ttl_ms) s'.leases },
            renewed h ttl_ms lease,
          )
          else err (not_active lease_id)
    ]

abbrev pub is_child_of : String → ResourceLease → Bool
is_child_of id lease = option_eq lease.parent_lease_id (some id)

abbrev promoted : Host → ResourceStore → ResourceStore
promoted h s = promote_queued h (available_memory_percent h) (current_resource_limits h) s

abbrev with_telemetry : Host → ResourceStore → ResourceStore × ResourceTelemetry
with_telemetry h s = (s, telemetry s (available_memory_percent h) (current_resource_limits h))

unfoldable pub release_resource :
    Host → String → String → ResourceStore → ResourceStore × Result ResourceTelemetry
release_resource h lease_id fencing_token = with_store_lock λ s.
    let s' = prune h s in
    let without = record s' { leases = keep (λ lease. not (by_id lease_id lease)) s'.leases } in
    elim (find (by_id lease_id) s'.leases) [
      | none ↦ err (not_current lease_id)
      | some lease ↦
          if lease.fencing_token == fencing_token
          then (if any (is_child_of lease_id) s'.leases
              then err (owns_child lease_id)
              else ok (with_telemetry h (promoted h without)))
          else err (not_current lease_id)
    ]

unfoldable pub cancel_resource_request :
    Host → String → ResourceStore → ResourceStore × Result ResourceTelemetry
cancel_resource_request h request_id = with_store_lock λ s.
    let s' = prune h s in
    let without = record s' { queue = keep (λ request. not (request.id == request_id)) s'.queue } in
    ok (with_telemetry h (promoted h without))

pub data WaitStep : Type 0 where
  found : ResourceLease → WaitStep
  failed : ResourceError → WaitStep
  sleep : WaitStep

abbrev pub granted_to : QueuedResourceRequest → ResourceLease → Bool
granted_to request lease =
    lease.fencing_token == request.fencing_token
    && lease.owner == request.owner
    && lease.kind == request.kind

-- One turn of the loop of `waitForResource`.
unfoldable pub wait_turn :
    Host → QueuedResourceRequest → (deadline : ℕ) → ResourceStore → ResourceStore × WaitStep
wait_turn h request deadline s =
    let s' = refresh h s in
    elim (find (granted_to request) s'.leases) [
      | some lease ↦ (s', found lease)
      | none ↦
          if not (any (λ candidate. candidate.id == request.id) s'.queue)
          then (s', failed (request_gone request.id))
          else if leb deadline h.now
          then ((cancel_resource_request h request.id s').0, failed (wait_timed_out request.id))
          else (s', sleep)
    ]
