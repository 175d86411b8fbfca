-- ===== src/Queue/Claims.antt =====
-- Claims of workers on tasks (src/domain/claim-service.ts). An operation that fails is rolled back.
use project_baracks.Prelude.{
  ℕ, ◌+◌, max, ◌==◌, ◌!=◌, Eq-ℕ, leb, ltb, Text, text, Bool, true, false, ◌&&◌, any, Option, none,
  some, get_or, List, [], ◌∷◌, ◌++◌, keep, if◌then◌else◌,
}
use project_baracks.Lifecycle.Machine.{queued, running, cancelled, Eq-TaskStatus}
use project_baracks.Queue.Types.{
  ClaimStatus, active, claim_completed, released, expired, is_active, TaskRow, given,
  lease_expired_at, ClaimRow, Db, claim_not_found, stale_claim, modified_concurrently, Result, ok,
  err, ◌>>=◌, update_where, changes,
}
use project_baracks.Queue.Tasks.{Env, find_claim, find_task, apply_transition}

abbrev pub default_lease_ms : ℕ
default_lease_ms = 300000

pub record ClaimOptions : Type 0 where
  pub worker_id : ℕ
  pub lease_ms : Option ℕ
  pub project_id : Option ℕ
  pub task_id : Option ℕ

unfoldable pub get_claim : Db → ℕ → Result ClaimRow
get_claim db claim_id = elim (find_claim db claim_id) [
  | none ↦ err (claim_not_found claim_id)
  | some claim ↦ ok claim
]

abbrev pub matches : Option ℕ → ℕ → Bool
matches none id = true
matches (some wanted) id = id == wanted

unfoldable pub is_candidate : ClaimOptions → TaskRow → Bool
is_candidate options task =
    task.status == queued
    && matches options.project_id task.project_id
    && matches options.task_id task.id

-- `orderBy(asc(tasks.createdAt))`
unfoldable pub insert_by_age : TaskRow → List TaskRow → List TaskRow
insert_by_age task [] = task ∷ []
insert_by_age task (t ∷ ts) =
    let rest = insert_by_age task ts in
    if leb task.created_at t.created_at then task ∷ t ∷ ts else t ∷ rest

unfoldable pub order_by_age : List TaskRow → List TaskRow
order_by_age [] = []
order_by_age (t ∷ ts) = insert_by_age t (order_by_age ts)

unfoldable pub holds_active : ℕ → ClaimRow → Bool
holds_active task_id c = c.task_id == task_id && is_active c.status

-- `max(attempt)`, 0 when the task has no claim.
unfoldable pub last_attempt : ℕ → List ClaimRow → ℕ
last_attempt task_id [] = 0
last_attempt task_id (c ∷ cs) =
    let rest = last_attempt task_id cs in if c.task_id == task_id then max c.attempt rest else rest

unfoldable pub new_claim : Env → ClaimOptions → (new_id : ℕ) → ℕ → List ClaimRow → ClaimRow
new_claim env options new_id task_id claims = record {
  id = new_id;
  task_id = task_id;
  worker_id = options.worker_id;
  attempt = last_attempt task_id claims + 1;
  status = active;
  lease_expires_at = env.now + get_or options.lease_ms default_lease_ms;
  heartbeat_at = env.now;
  outcome_reason = none;
}

pub record Claimed : Type 0 where
  pub claim : ClaimRow
  pub task : TaskRow

-- One candidate without an active claim: the claim is inserted and the task runs under it.
unfoldable pub claim_task :
    Env → ClaimOptions → (new_id : ℕ) → TaskRow → Db → Result (Option Claimed × Db)
claim_task env options new_id task db =
    let claim = new_claim env options new_id task.id db.claims in
    let inserted = record db { claims = db.claims ++ claim ∷ [] } in
    do
      moved ←
          apply_transition env task.id running
            (some (record { claim_id = new_id; worker_id = options.worker_id })) inserted
      row ← get_claim moved.1 new_id
      ok (some (record { claim = row; task = moved.0 }), moved.1)

unfoldable pub claim_first :
    Env → ClaimOptions → (new_id : ℕ) → List TaskRow → Db → Result (Option Claimed × Db)
claim_first env options new_id [] db = ok (none, db)
claim_first env options new_id (task ∷ candidates) db =
    elim (any (holds_active task.id) db.claims) [
      | true ↦ claim_first env options new_id candidates db
      | false ↦ claim_task env options new_id task db
    ]

unfoldable pub claim_next_task :
    Env → ClaimOptions → (new_id : ℕ) → Db → Result (Option Claimed × Db)
claim_next_task env options new_id db =
    claim_first env options new_id (order_by_age (keep (is_candidate options) db.tasks)) db

unfoldable pub owner_fence : (now claim_id worker_id : ℕ) → ClaimRow → Bool
owner_fence now claim_id worker_id c =
    c.id == claim_id && c.worker_id == worker_id && is_active c.status && ltb now c.lease_expires_at

-- An update of the claim that the fence selects, and the row that is read back.
unfoldable pub update_owned :
    (now claim_id worker_id : ℕ) → (ClaimRow → ClaimRow) → Db → Result (ClaimRow × Db)
update_owned now claim_id worker_id f db =
    let owned = owner_fence now claim_id worker_id in
    let next = record db { claims = update_where owned f db.claims } in
    if changes owned db.claims != 1
    then err (stale_claim claim_id worker_id)
    else elim (get_claim next claim_id) [ err e ↦ err e | ok claim ↦ ok (claim, next) ]

unfoldable pub renewed_claim : (now lease_ms : ℕ) → ClaimRow → ClaimRow
renewed_claim now lease_ms c = record c { heartbeat_at = now; lease_expires_at = now + lease_ms }

unfoldable pub heartbeat_claim :
    Env → (claim_id worker_id : ℕ) → Option ℕ → Db → Result (ClaimRow × Db)
heartbeat_claim env claim_id worker_id lease_ms db =
    update_owned env.now claim_id worker_id
      (renewed_claim env.now (get_or lease_ms default_lease_ms)) db

unfoldable pub closed : ClaimStatus → Text → ClaimRow → ClaimRow
closed status reason c = record c { status = status; outcome_reason = some (given reason) }

unfoldable pub complete_claim :
    Env → (claim_id worker_id : ℕ) → Option Text → Db → Result (ClaimRow × Db)
complete_claim env claim_id worker_id reason db =
    update_owned env.now claim_id worker_id
      (closed claim_completed (get_or reason (text "completed"))) db

unfoldable pub release_claim :
    Env → (claim_id worker_id : ℕ) → (requeue : Bool) → Text → Db → Result (Claimed × Db)
release_claim env claim_id worker_id requeue reason db = do
  given_up ← update_owned env.now claim_id worker_id (closed released reason) db
  moved ←
      apply_transition env given_up.0.task_id (if requeue then queued else cancelled) none
        given_up.1
  ok (record { claim = given_up.0; task = moved.0 }, moved.1)

unfoldable pub is_lapsed : ℕ → ClaimRow → Bool
is_lapsed now c = is_active c.status && ltb c.lease_expires_at now

unfoldable pub expired_claim : ClaimRow → ClaimRow → ClaimRow
expired_claim read c = record c {
  status = expired;
  outcome_reason = some (lease_expired_at read.lease_expires_at);
}

abbrev pub is_this_active : ClaimRow → ClaimRow → Bool
is_this_active read c = c.id == read.id && is_active c.status

-- The task of an expired claim goes back to the queue if it runs.
unfoldable pub requeue_task : Env → ℕ → Db → Result Db
requeue_task env task_id db = elim (find_task db task_id) [
  | none ↦ ok db
  | some task ↦
      if task.status == running
      then elim (apply_transition env task_id queued none db) [
        | err e ↦ err e
        | ok (_, next) ↦ ok next
      ]
      else ok db
]

unfoldable pub expire_all : Env → List ClaimRow → Db → Result Db
expire_all env [] db = ok db
expire_all env (claim ∷ claims) db =
    if changes (is_this_active claim) db.claims != 1
    then err (modified_concurrently claim.id)
    else (do
      requeued ←
          requeue_task env claim.task_id record db {
            claims = update_where (is_this_active claim) (expired_claim claim) db.claims;
          }
      expire_all env claims requeued)

-- The recovered claims are those that were selected.
unfoldable pub recover_expired_claims : Env → Db → Result (List ClaimRow × Db)
recover_expired_claims env db =
    let lapsed = keep (is_lapsed env.now) db.claims in
    do next ← expire_all env lapsed db; ok (lapsed, next)
