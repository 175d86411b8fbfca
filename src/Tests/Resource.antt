-- ===== src/Tests/Resource.antt =====
-- The resource governor (src/supervisor/resources.ts) at concrete inputs.
use mathlib.Core.List.{Sublist, Nodup-nil}
use project_baracks.Prelude.{
  ℕ, zero, suc, ◌+◌, ◌<◌, ◌≡◌, refl, arith, String, none, some, [], ◌∷◌, ◌++◌, ◌==◌, Eq-ℕ, inl,
  keep, not,
}
use project_baracks.Resource.Types.{
  worker, ResourceLimits, ResourceLease, QueuedResourceRequest, ResourceStore, Host, Result, ok,
}
use project_baracks.Resource.Limits.{
  available_memory_percent, soft_memory_floor, current_resource_limits,
}
use project_baracks.Resource.Store.{
  lease_is_active, empty_store, lease_from, promote_from, prune, is_orphan,
}
use project_baracks.Resource.Operations.{with_store_lock, RequestInput}
use project_baracks.Resource.Leases.{renewed, heartbeat_resource}
use project_baracks.Resource.Runs.{request, snapshot, apply, here, next}
use project_baracks.Resource.Bounds.{WithinCaps, apply-WithinCaps}
use project_baracks.Resource.Fifo.{held, waiting, promote_from-Sublist}
use project_baracks.Resource.Owners.{HasOneEach, Reach-HasOneEach}
use project_baracks.Resource.Reclaim.{Survives, apply-Survives}
use project_baracks.Resource.Waiting.{wait_for_resource, Settled, wait_for_resource-Settled}

abbrev token_text : ℕ → String
token_text zero = "a"
token_text (suc zero) = "b"
token_text (suc (suc zero)) = "c"
token_text _ = "d"

-- A host with room for four gigabytes and with process 42 alive.
abbrev host : Host
host = record {
  now = 1000000;
  alive = λ pid. pid == 42;
  uuid = token_text;
  env_memory_available_percent = none;
  system_memory_available_percent = some 60;
  freemem = 4294967296;
  totalmem = 8589934592;
  available_parallelism = 8;
  env_worker_limit = some 1;
  env_worker_memory_mb = none;
  env_max_subagent_depth = some 2;
  env_resource_lease_id = none;
}

abbrev short_of_memory : Host
short_of_memory = record host { system_memory_available_percent = some 10 }

abbrev ask : RequestInput
ask = record {
  kind = worker;
  owner = "coordinator";
  task_id = some "task-1";
  resource_id = none;
  project = none;
  parent_lease_id = none;
  pid = some 42;
  ttl_ms = some 60000;
}

abbrev held_lease : ResourceLease
held_lease = record {
  id = "lease_x";
  task_id = "task-1";
  resource_id = "tree";
  fencing_token = "fence_x";
  kind = worker;
  owner = "coordinator";
  project = none;
  parent_lease_id = none;
  depth = 0;
  pid = some 42;
  created_at = 0;
  heartbeat_at = 0;
  ttl_ms = 60000;
  expires_at = 60000;
  grace_ms = 60000;
  reclaim_after = 120000;
}

abbrev stale_lease : ResourceLease
stale_lease = record held_lease { id = "lease_y"; owner = "gone"; pid = some 7 }

abbrev waiting_request : QueuedResourceRequest
waiting_request = record {
  id = "request_z";
  task_id = "task-2";
  resource_id = "tree";
  fencing_token = "fence_z";
  kind = worker;
  owner = "reviewer";
  project = none;
  parent_lease_id = none;
  depth = 0;
  pid = some 42;
  ttl_ms = 60000;
  requested_at = 900000;
  reason = none;
}

abbrev store : ResourceStore
store = record empty_store { leases = held_lease ∷ stale_lease ∷ []; queue = waiting_request ∷ [] }

abbrev limits_now : ResourceLimits
limits_now = record {
  total = 3;
  workers = 1;
  browsers = 1;
  builds = 1;
  max_subagent_depth = none;
  soft_memory_available_percent = 25;
}

apply-WithinCaps_example :
    WithinCaps (current_resource_limits host) store.leases (apply host (request ask) store).leases
apply-WithinCaps_example = apply-WithinCaps host (request ask) store

memory_is_short : available_memory_percent short_of_memory < soft_memory_floor
unfolding available_memory_percent
memory_is_short = omega arith

tokens_copied :
    (drawn : ℕ) (r : QueuedResourceRequest)
    → (lease_from host drawn r).fencing_token ≡ r.fencing_token
unfolding lease_from
tokens_copied drawn r = refl

promote_from-Sublist_example :
    let out = promote_from host 60 limits_now [] 0 (waiting_request ∷ []) in
    let tokens =
      held (λ l. l.fencing_token) (λ r. r.fencing_token) worker out.0
      ++ waiting (λ l. l.fencing_token) (λ r. r.fencing_token) worker out.1 in
    Sublist tokens (
      held (λ l. l.fencing_token) (λ r. r.fencing_token) worker []
      ++ waiting (λ l. l.fencing_token) (λ r. r.fencing_token) worker (waiting_request ∷ []))
    × Sublist
        (held (λ l. l.fencing_token) (λ r. r.fencing_token) worker []
          ++ waiting
              (λ l. l.fencing_token)
              (λ r. r.fencing_token)
              worker
              (keep (λ r. not (is_orphan [] r)) (waiting_request ∷ [])))
        tokens
promote_from-Sublist_example =
    promote_from-Sublist (λ l. l.fencing_token) (λ r. r.fencing_token) worker host 60 limits_now
      tokens_copied (waiting_request ∷ []) [] 0

none_twice : HasOneEach empty_store
none_twice k = Nodup-nil

Reach-HasOneEach_example : HasOneEach (apply host (request ask) empty_store)
Reach-HasOneEach_example =
    Reach-HasOneEach {s = empty_store} {t = apply host (request ask) empty_store} none_twice
      (next here host (request ask))

held_stays : Survives held_lease store.leases
held_stays = inl (record { id = refl; fencing_token = refl; kind = refl; owner = refl; pid = refl })

apply-Survives_example : Survives held_lease (apply host snapshot store).leases
apply-Survives_example =
    apply-Survives host snapshot store held_lease refl (λ token e. cc) held_stays

abbrev renewed_lease : ResourceLease
renewed_lease = record held_lease {
  heartbeat_at = 1000000;
  expires_at = 1060000;
  reclaim_after = 1120000;
}

heartbeat_renews : (heartbeat_resource host "lease_x" "fence_x" none store).1 ≡ ok renewed_lease
unfolding heartbeat_resource with_store_lock prune lease_is_active renewed
heartbeat_renews = refl

-- The stale lease of the dead process 7 is reclaimed, that of the live process 42 is not.
prune_keeps : (prune host store).leases ≡ held_lease ∷ []
unfolding prune lease_is_active
prune_keeps = refl

abbrev later : ℕ → Host
later n = record host { now = 1000000 + n }

ticks : (n : ℕ) → (later n).now < (later (suc n)).now
ticks n = ground arith

wait_for_resource-Settled_example :
    (out : ResourceStore × Result ResourceLease) × (wait_for_resource later
        (λ n s. s)
        waiting_request
        2
        store
      ≡ some out)
    × Settled waiting_request out
wait_for_resource-Settled_example =
    wait_for_resource-Settled later (λ n s. s) waiting_request 2 store ticks
