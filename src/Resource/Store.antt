-- ===== src/Resource/Store.antt =====
-- The store's own steps (src/supervisor/resources.ts): reclaiming stale leases, counting, and
-- granting queued requests.
use Prim.Native.String
use project_baracks.Prelude.{
  ℕ, suc, ◌+◌, ◌==◌, String, Eq-String, Bool, false, not, ◌&&◌, ◌||◌, Option, none, some, get_or,
  List, [], ◌∷◌, ◌++◌, map, length, keep, any, ltb, leb, is_some, if◌then◌else◌,
}
use project_baracks.Resource.Types.{
  ResourceKind, Eq-ResourceKind, worker, browser, build, ResourceLimits, ResourceLease,
  CapacityReason, below_soft_floor, total_cap, kind_cap, QueuedResourceRequest, ReclaimTelemetry,
  ResourceStore, ResourceTelemetry, Host, reclaim_grace_ms, truthy,
}

abbrev pub empty_reclaim_telemetry : ReclaimTelemetry
empty_reclaim_telemetry = record {
  total = 0;
  expired = 0;
  dead_process = 0;
  last_reclaimed_at = none;
  last_reclaimed_lease_ids = [];
}

abbrev pub empty_store : ResourceStore
empty_store = record {
  leases = [];
  queue = [];
  reclaim_telemetry = some empty_reclaim_telemetry;
  drawn = 0;
}

abbrev pub pid_alive : Host → Option ℕ → Bool
pid_alive h none = false
pid_alive h (some pid) = h.alive pid

-- The stored time is always a number here, so the fallback of `leaseReclaimAfter` is not needed.
unfoldable pub lease_is_active : Host → ResourceLease → Bool
lease_is_active h lease = ltb h.now lease.reclaim_after || pid_alive h lease.pid

abbrev has_no_pid : ResourceLease → Bool
has_no_pid lease = not (is_some lease.pid)

-- A lease with no process is counted as expired, one with a process as dead.
unfoldable pub count_reclaimed : ℕ → List ResourceLease → ReclaimTelemetry → ReclaimTelemetry
count_reclaimed now reclaimed prior = record {
  total = prior.total + length reclaimed;
  expired = prior.expired + length (keep has_no_pid reclaimed);
  dead_process = prior.dead_process + length (keep (λ lease. is_some lease.pid) reclaimed);
  last_reclaimed_at = some now;
  last_reclaimed_lease_ids = map (λ lease. lease.id) reclaimed;
}

abbrev pub reclaim_into : ℕ → List ResourceLease → Option ReclaimTelemetry → Option ReclaimTelemetry
reclaim_into now [] prior = prior
reclaim_into now (x ∷ xs) prior =
    some (count_reclaimed now (x ∷ xs) (get_or prior empty_reclaim_telemetry))

unfoldable pub prune : Host → ResourceStore → ResourceStore
prune h s = record s {
  leases = keep (lease_is_active h) s.leases;
  reclaim_telemetry =
      reclaim_into h.now (keep (λ lease. not (lease_is_active h lease)) s.leases)
        s.reclaim_telemetry;
}

abbrev of_kind : ResourceKind → ResourceLease → Bool
of_kind kind lease = lease.kind == kind

abbrev pub count_kind : List ResourceLease → ResourceKind → ℕ
count_kind leases kind = length (keep (of_kind kind) leases)

unfoldable pub kind_limit : ResourceKind → ResourceLimits → ℕ
kind_limit worker limits = limits.workers
kind_limit browser limits = limits.browsers
kind_limit build limits = limits.builds

unfoldable pub kind_cap_reached : List ResourceLease → ResourceKind → ResourceLimits → Bool
kind_cap_reached leases kind limits = leb (kind_limit kind limits) (count_kind leases kind)

unfoldable pub telemetry : ResourceStore → ℕ → ResourceLimits → ResourceTelemetry
telemetry s memory limits = record {
  workers = record { active = count_kind s.leases worker; limit = limits.workers };
  browsers = record { active = count_kind s.leases browser; limit = limits.browsers };
  builds = record { active = count_kind s.leases build; limit = limits.builds };
  total = record { active = length s.leases; limit = limits.total };
  queued = length s.queue;
  memory_available_percent = memory;
  memory_soft_floor_percent = limits.soft_memory_available_percent;
  reclaims = get_or s.reclaim_telemetry empty_reclaim_telemetry;
}

unfoldable pub capacity_reason :
    List ResourceLease → ResourceKind → ℕ → ResourceLimits → Option CapacityReason
capacity_reason leases kind memory limits =
    if ltb memory limits.soft_memory_available_percent
    then some (below_soft_floor memory limits.soft_memory_available_percent)
    else if leb limits.total (length leases)
    then some (total_cap limits.total)
    else if kind_cap_reached leases kind limits
    then some (kind_cap kind (kind_limit kind limits))
    else none

unfoldable pub lease_from : Host → ℕ → QueuedResourceRequest → ResourceLease
lease_from h drawn request = record {
  id = String.◌++◌ "lease_" (h.uuid drawn);
  task_id = request.task_id;
  resource_id = request.resource_id;
  fencing_token = request.fencing_token;
  kind = request.kind;
  owner = request.owner;
  project = truthy request.project;
  parent_lease_id = truthy request.parent_lease_id;
  depth = request.depth;
  pid = request.pid;
  created_at = h.now;
  heartbeat_at = h.now;
  ttl_ms = request.ttl_ms;
  expires_at = h.now + request.ttl_ms;
  grace_ms = reclaim_grace_ms;
  reclaim_after = h.now + request.ttl_ms + reclaim_grace_ms;
}

abbrev holds_id : List ResourceLease → Option String → Bool
holds_id leases none = false
holds_id leases (some id) = any (λ lease. lease.id == id) leases

-- `request.parentLeaseId && !store.leases.some(...)`
unfoldable pub is_orphan : List ResourceLease → QueuedResourceRequest → Bool
is_orphan leases request =
    is_some (truthy request.parent_lease_id) && not (holds_id leases request.parent_lease_id)

-- The loop of `promoteQueued`. What stands before the index is kept, in order, so the loop is a
-- recursion on what stands from the index on: a step takes out, passes over, stops or grants.
module _ (h : Host) (memory : ℕ) (limits : ResourceLimits) where
  unfoldable pub promote_from :
      List ResourceLease
      → ℕ
      → List QueuedResourceRequest
      → List ResourceLease × List QueuedResourceRequest × ℕ
  promote_from leases drawn [] = (leases, [], drawn)
  promote_from leases drawn (request ∷ rest) =
      let dropped = promote_from leases drawn rest in
      let granted = promote_from (leases ++ lease_from h drawn request ∷ []) (suc drawn) rest in
      if is_orphan leases request
      then dropped
      else if is_some (capacity_reason leases request.kind memory limits)
      then (if kind_cap_reached leases request.kind limits
          then (dropped.0, request ∷ dropped.1, dropped.2)
          else (leases, request ∷ rest, drawn))
      else granted

  unfoldable pub promote_queued : ResourceStore → ResourceStore
  promote_queued s =
      let (leases, queue, drawn) = promote_from s.leases s.drawn s.queue in
      record s { leases = leases; queue = queue; drawn = drawn }
