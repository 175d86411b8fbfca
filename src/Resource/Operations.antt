-- ===== src/Resource/Operations.antt =====
-- The operations of src/supervisor/resources.ts. Each runs under the store's lock, which is taken
-- to exclude the others: the file is read, the operation runs, and the result is written back. An
-- exception leaves before the write, so it leaves the file as it was.
use Prim.Native.String
use project_baracks.Prelude.{
  ℕ, suc, ◌+◌, ◌==◌, Eq-String, Eq-ℕ, String, Bool, false, not, ◌&&◌, Option, none, some, get_or,
  List, [], ◌∷◌, ◌++◌, option_eq, find, ltb, is_some, if◌then◌else◌,
}
use project_baracks.Resource.Types.{
  ResourceKind, Eq-ResourceKind, worker, ResourceLimits, ResourceLease, QueuedResourceRequest,
  ReclaimTelemetry, ResourceStore, ResourceTelemetry, Rejection, parent_of_non_worker,
  parent_not_active, too_deep, ResourceRequestResult, active, queued, rejected, bad_ttl, Result, ok,
  err, Host, default_ttl_ms, truthy,
}
use project_baracks.Resource.Limits.{available_memory_percent, current_resource_limits}
use project_baracks.Resource.Store.{
  empty_reclaim_telemetry, prune, telemetry, capacity_reason, lease_from, promote_queued,
}

-- The store on disk after an operation, and what the caller gets.
unfoldable pub with_store_lock {ℓ} :
    {A : Type ℓ}
    → (ResourceStore → Result (ResourceStore × A))
    → ResourceStore
    → ResourceStore × Result A
with_store_lock operation s = elim (operation s) [ ok (s', a) ↦ (s', ok a) | err e ↦ (s, err e) ]

abbrev pub by_id : String → ResourceLease → Bool
by_id id lease = lease.id == id

abbrev pub of_owner : ResourceKind → String → ResourceLease → Bool
of_owner kind owner lease = lease.kind == kind && lease.owner == owner

abbrev pub queued_of_owner : ResourceKind → String → QueuedResourceRequest → Bool
queued_of_owner kind owner request = request.kind == kind && request.owner == owner

abbrev is_worker : ResourceLease → Bool
is_worker lease = lease.kind == worker

abbrev exceeds : ℕ → Option ℕ → Bool
exceeds depth none = false
exceeds depth (some cap) = ltb cap depth

-- The depth of a request, or why it is rejected.
abbrev depth_below : ResourceLimits → ResourceLease → ℕ × Option Rejection
depth_below limits parent =
    let depth = parent.depth + 1 in
    if exceeds depth limits.max_subagent_depth
    then (depth, some (too_deep depth (get_or limits.max_subagent_depth 0)))
    else (depth, none)

unfoldable pub request_depth :
    List ResourceLease → ResourceKind → Option String → ResourceLimits → ℕ × Option Rejection
request_depth leases kind parent_lease_id limits = elim (truthy parent_lease_id) [
  | none ↦ (0, none)
  | some id ↦
      if not (kind == worker)
      then (0, some parent_of_non_worker)
      else elim (find (by_id id) leases) [
        | none ↦ (0, some (parent_not_active id))
        | some parent ↦
            if is_worker parent then depth_below limits parent else (0, some (parent_not_active id))
      ]
]

pub record RequestInput : Type 0 where
  pub kind : ResourceKind
  pub owner : String
  pub task_id : Option String
  pub resource_id : Option String
  pub project : Option String
  pub parent_lease_id : Option String
  pub pid : Option ℕ
  pub ttl_ms : Option ℕ

abbrev pub or_env : Option String → Option String → Option String
or_env none env = env
or_env (some id) env = some id

abbrev kind_text : ResourceKind → String
kind_text worker = "worker"
kind_text ResourceKind.browser = "browser"
kind_text ResourceKind.build = "build"

unfoldable pub fallback_task_id : String → String
fallback_task_id owner = String.◌++◌ "legacy:task:" owner

unfoldable pub fallback_resource_id : ResourceKind → Option String → String
fallback_resource_id kind project =
    String.◌++◌ "legacy:resource:"
      (String.◌++◌ (kind_text kind) (String.◌++◌ ":" (get_or project "global")))

-- The request's own identifier and fencing token are two draws.
unfoldable pub new_request : Host → RequestInput → ℕ → Option String → ℕ → QueuedResourceRequest
new_request h input drawn parent_lease_id depth = record {
  id = String.◌++◌ "request_" (h.uuid drawn);
  task_id = get_or input.task_id (fallback_task_id input.owner);
  resource_id = get_or input.resource_id (fallback_resource_id input.kind input.project);
  fencing_token = String.◌++◌ "fence_" (h.uuid (drawn + 1));
  kind = input.kind;
  owner = input.owner;
  project = truthy input.project;
  parent_lease_id = truthy parent_lease_id;
  depth = depth;
  pid = input.pid;
  ttl_ms = get_or input.ttl_ms (default_ttl_ms input.kind);
  requested_at = h.now;
  reason = none;
}

-- Queue or grant a request that has passed the checks.
unfoldable pub admit_request :
    Host → QueuedResourceRequest → ResourceStore → ResourceStore × ResourceRequestResult
admit_request h request s =
    let memory = available_memory_percent h in
    let limits = current_resource_limits h in
    let reason = capacity_reason s.leases request.kind memory limits in
    let waiting = record request { reason = reason } in
    let lease = lease_from h s.drawn request in
    let queued_store = record s { queue = s.queue ++ waiting ∷ [] } in
    let active_store = record s { leases = s.leases ++ lease ∷ []; drawn = suc s.drawn } in
    if is_some reason
    then (queued_store, queued waiting (telemetry queued_store memory limits))
    else (active_store, active lease (telemetry active_store memory limits))

-- What follows the searches for a lease or a request of the same owner.
unfoldable pub request_anew :
    Host → RequestInput → ResourceStore → ResourceStore × ResourceRequestResult
request_anew h input s =
    let memory = available_memory_percent h in
    let limits = current_resource_limits h in
    let parent = or_env input.parent_lease_id h.env_resource_lease_id in
    let (depth, rejection) = request_depth s.leases input.kind parent limits in
    elim rejection [
      | some why ↦ (s, rejected why (telemetry s memory limits))
      | none ↦
          admit_request h (new_request h input s.drawn parent depth)
            (record s { drawn = s.drawn + 2 })
    ]

-- The store that every operation starts from: stale leases gone, queued requests granted.
unfoldable pub refresh : Host → ResourceStore → ResourceStore
refresh h s = promote_queued h (available_memory_percent h) (current_resource_limits h) (prune h s)

unfoldable pub request_on :
    Host → RequestInput → ResourceStore → ResourceStore × ResourceRequestResult
request_on h input s =
    let memory = available_memory_percent h in
    let limits = current_resource_limits h in
    elim (find (of_owner input.kind input.owner) s.leases) [
      | some lease ↦ (s, active lease (telemetry s memory limits))
      | none ↦ elim (find (queued_of_owner input.kind input.owner) s.queue) [
        | some request ↦ (s, queued request (telemetry s memory limits))
        | none ↦ request_anew h input s
      ]
    ]

unfoldable pub request_resource :
    Host → RequestInput → ResourceStore → ResourceStore × Result ResourceRequestResult
request_resource h input s =
    if option_eq input.ttl_ms (some 0)
    then (s, err bad_ttl)
    else with_store_lock (λ s. ok (request_on h input (refresh h s))) s

pub record Snapshot : Type 0 where
  pub leases : List ResourceLease
  pub queue : List QueuedResourceRequest
  pub telemetry : ResourceTelemetry

unfoldable pub resource_snapshot : Host → ResourceStore → ResourceStore × Result Snapshot
resource_snapshot h = with_store_lock λ s.
    let s' = refresh h s in
    let usage = telemetry s' (available_memory_percent h) (current_resource_limits h) in
    ok (s', record { leases = s'.leases; queue = s'.queue; telemetry = usage })

abbrev reclaim_total : ResourceStore → ReclaimTelemetry
reclaim_total s = get_or s.reclaim_telemetry empty_reclaim_telemetry

unfoldable pub reclaim_stale_resources : Host → ResourceStore → ResourceStore × Result (List String)
reclaim_stale_resources h = with_store_lock λ s.
    let reclaims = reclaim_total (prune h s) in
    let ids =
      if ltb (reclaim_total s).total reclaims.total
      then reclaims.last_reclaimed_lease_ids
      else [] in
    ok (refresh h s, ids)
