-- ===== src/Tests/Queue.antt =====
-- The task queue (src/domain/claim-service.ts, src/domain/task-service.ts) at concrete inputs.
use project_baracks.Prelude.{
  arith, inl, ℕ, ◌<◌, ◌≤◌, ◌≡◌, refl, text, true, none, some, [], ◌∷◌, keep, Mem, Eq-ℕ,
}
use project_baracks.Lifecycle.Machine.{
  queued, running, ready_to_merge, completed, CompletionProof, validate_transition,
}
use project_baracks.Queue.Types.{TaskRow, ClaimRow, Db, active, ok}
use project_baracks.Queue.Tasks.{
  Env, find_task, find_claim, get_task, assert_live_claim, is_live, completion_guard,
  assert_transition, guards_of, patched, is_unchanged, commit_transition, apply_transition,
}
use project_baracks.Queue.Claims.{
  Claimed, ClaimOptions, get_claim, is_candidate, order_by_age, insert_by_age, holds_active,
  last_attempt, new_claim, claim_task, claim_first, claim_next_task, is_lapsed, expired_claim,
  requeue_task, expire_all, recover_expired_claims,
}
use project_baracks.Queue.Leases.{InTurn}
use project_baracks.Queue.Runs.{claim_next, recover, run, run-InTurn}
use project_baracks.Queue.Permitted.{IsPermitted, apply_transition-IsPermitted}
use project_baracks.Queue.Acquire.{is_free, claim_next_task-oldest}
use project_baracks.Queue.Keys.{UniqueClaims, UniqueTasks}
use project_baracks.Queue.Commits.{recover_expired_claims-commits}
use project_baracks.Queue.Grants.{claim_next_task-grants}

abbrev holds : CompletionProof
holds = record { ok = true; failures = [] }

abbrev at : ℕ → Env
at now = record { now = now; evaluate_completion_proof = λ db task_id criteria. some holds }

abbrev old_task : TaskRow
old_task = record {
  id = 1;
  project_id = 9;
  status = queued;
  version = 0;
  created_at = 10;
  paths = none;
  completion_criteria_json = none;
  completion_criteria_snapshot_json = some (text "{}");
  completion_criteria_locked_at = some 10;
  mutation_claim_id = none;
  mutation_worker_id = none;
}

abbrev new_task : TaskRow
new_task = record old_task { id = 2; created_at = 20 }

abbrev merged_task : TaskRow
merged_task = record old_task { id = 3; status = ready_to_merge }

abbrev db : Db
db = record { tasks = new_task ∷ old_task ∷ merged_task ∷ []; claims = []; dependencies = [] }

abbrev options : ClaimOptions
options = record { worker_id = 7; lease_ms = some 500; project_id = none; task_id = none }

abbrev first_claim : ClaimRow
first_claim = record {
  id = 100;
  task_id = 1;
  worker_id = 7;
  attempt = 1;
  status = active;
  lease_expires_at = 1500;
  heartbeat_at = 1000;
  outcome_reason = none;
}

abbrev running_task : TaskRow
running_task = record old_task {
  status = running;
  version = 1;
  mutation_claim_id = some 100;
  mutation_worker_id = some 7;
}

abbrev claimed_db : Db
claimed_db = record {
  tasks = new_task ∷ running_task ∷ merged_task ∷ [];
  claims = first_claim ∷ [];
  dependencies = [];
}

abbrev swept_db : Db
swept_db = (record {
  tasks =
      new_task
      ∷ record running_task {
        status = queued;
        version = 2;
        mutation_claim_id = none;
        mutation_worker_id = none;
      }
      ∷ merged_task
      ∷ [];
  claims = expired_claim first_claim first_claim ∷ [];
  dependencies = [];
})

claims_oldest :
    claim_next_task (at 1000) options 100 db
    ≡ ok (some (record { claim = first_claim; task = running_task }), claimed_db)
unfolding claim_next_task is_candidate order_by_age insert_by_age claim_first holds_active
    claim_task new_claim last_attempt apply_transition assert_live_claim find_claim is_live get_task
    find_task completion_guard assert_transition validate_transition guards_of commit_transition
    is_unchanged patched get_claim
claims_oldest = refl

claim_next_task-oldest_example :
    (task : TaskRow) × Mem task db.tasks
    × (is_candidate options task ≡ true)
    × (is_free db task ≡ true)
    × (first_claim ≡ new_claim (at 1000) options 100 task.id db.claims)
    × ((u : TaskRow)
        → Mem u db.tasks
        → is_candidate options u ≡ true
        → is_free db u ≡ true
        → task.created_at ≤ u.created_at)
claim_next_task-oldest_example =
    claim_next_task-oldest (at 1000) options 100 db
      (record { claim = first_claim; task = running_task }) claimed_db refl claims_oldest

abbrev only_task_1 : ClaimOptions
only_task_1 = record options { task_id = some 1 }

claims_none : claim_next_task (at 1000) only_task_1 101 claimed_db ≡ ok (none, claimed_db)
unfolding claim_next_task is_candidate order_by_age insert_by_age claim_first
claims_none = refl

no_claims : InTurn db.claims
unfolding InTurn
no_claims = tt

run-InTurn_example :
    InTurn
      (run
        (claim_next (at 1000) options 100
          ∷ recover (at 2000)
          ∷ claim_next (at 2000) options 101
          ∷ [])
        db).claims
run-InTurn_example =
    run-InTurn
      (claim_next (at 1000) options 100 ∷ recover (at 2000) ∷ claim_next (at 2000) options 101 ∷ [])
      db no_claims

sweeps : recover_expired_claims (at 2000) claimed_db ≡ ok (first_claim ∷ [], swept_db)
unfolding recover_expired_claims is_lapsed expire_all requeue_task apply_transition
    assert_live_claim get_task find_task completion_guard assert_transition validate_transition
    guards_of commit_transition is_unchanged patched
sweeps = refl

abbrev completed_task : TaskRow
completed_task = record merged_task { status = completed; version = 1 }

abbrev completed_db : Db
completed_db = record db { tasks = new_task ∷ old_task ∷ completed_task ∷ [] }

completes : apply_transition (at 1000) 3 completed none db ≡ ok (completed_task, completed_db)
unfolding apply_transition assert_live_claim get_task find_task completion_guard assert_transition
    validate_transition guards_of commit_transition is_unchanged patched
completes = refl

apply_transition-IsPermitted_example :
    IsPermitted (at 1000) 3 completed none db completed_db completed_task
apply_transition-IsPermitted_example =
    apply_transition-IsPermitted (at 1000) 3 completed none db (completed_task, completed_db)
      completes

keyed_claims : UniqueClaims claimed_db.claims
unfolding UniqueClaims
keyed_claims = (refl, tt)

keyed_running : UniqueTasks claimed_db.tasks
unfolding UniqueTasks
keyed_running = (refl, (refl, (refl, tt)))

recover_expired_claims-commits_example :
    (next : Db) × (recover_expired_claims (at 2000) claimed_db
      ≡ ok (keep (is_lapsed 2000) claimed_db.claims, next))
recover_expired_claims-commits_example =
    recover_expired_claims-commits (at 2000) claimed_db keyed_claims keyed_running

keyed_tasks : UniqueTasks db.tasks
unfolding UniqueTasks
keyed_tasks = (refl, (refl, (refl, tt)))

lasts : 0 < 500
lasts = ground arith

fits : is_candidate options new_task ≡ true
unfolding is_candidate
fits = refl

unheld : is_free db new_task ≡ true
unfolding is_free
unheld = refl

claim_next_task-grants_example :
    (claimed : Claimed) × (next : Db) × (claim_next_task (at 1000) options 100 db
      ≡ ok (some claimed, next))
claim_next_task-grants_example =
    claim_next_task-grants (at 1000) options 100 db new_task refl lasts keyed_tasks (inl refl) fits
      unheld
