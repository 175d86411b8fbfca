-- ===== src/Queue/Tasks.antt =====
-- Guarded transitions of tasks (src/domain/task-service.ts).
use project_baracks.Prelude.{
  ℕ, ◌+◌, ◌==◌, ◌!=◌, Eq-ℕ, leb, Text, text, Bool, not, ◌&&◌, any, Option, none, some, get_or,
  is_none, keep, find, length, if◌then◌else◌,
}
use project_baracks.Lifecycle.Machine.{
  TaskStatus, queued, completed, Eq-TaskStatus, CompletionProof, TransitionGuards, TransitionResult,
  Refusal, validate_transition,
}
use project_baracks.Lifecycle.Machine as Machine
use project_baracks.Queue.Types.{
  is_active, TaskRow, ClaimRow, Db, stale_claim, task_not_found, refused_transition,
  modified_concurrently, invalid_criteria, Result, ok, err, ◌>>=◌, update_where, changes,
}

-- The clock, and the evaluation of a task's completion proof against its frozen criteria, which
-- fails when the criteria do not parse.
pub record Env : Type 0 where
  pub now : ℕ
  pub evaluate_completion_proof : Db → ℕ → Option Text → Option CompletionProof

pub record ClaimFence : Type 0 where
  pub claim_id : ℕ
  pub worker_id : ℕ

unfoldable pub find_claim : Db → ℕ → Option ClaimRow
find_claim db claim_id = find (λ c. c.id == claim_id) db.claims

unfoldable pub find_task : Db → ℕ → Option TaskRow
find_task db task_id = find (λ t. t.id == task_id) db.tasks

unfoldable pub get_task : Db → ℕ → Result TaskRow
get_task db task_id = elim (find_task db task_id) [
  | none ↦ err (task_not_found task_id)
  | some task ↦ ok task
]

unfoldable pub is_live : Env → ClaimFence → ℕ → ClaimRow → Bool
is_live env fence task_id claim =
    claim.worker_id == fence.worker_id
    && claim.task_id == task_id
    && is_active claim.status
    && not (leb claim.lease_expires_at env.now)

unfoldable pub assert_live_claim : Env → Db → Option ClaimFence → ℕ → Result Unit
assert_live_claim env db none task_id = ok tt
assert_live_claim env db (some fence) task_id = elim (find_claim db fence.claim_id) [
  | none ↦ err (stale_claim fence.claim_id fence.worker_id)
  | some claim ↦
      if is_live env fence task_id claim
      then ok tt
      else err (stale_claim fence.claim_id fence.worker_id)
]

unfoldable pub incomplete_dependency_count : Db → ℕ → ℕ
incomplete_dependency_count db task_id =
    let deps = keep (λ d. d.task_id == task_id) db.dependencies in
    length
      (keep (λ t. any (λ d. d.depends_on_task_id == t.id) deps && t.status != completed) db.tasks)

unfoldable pub completion_guard : Env → Db → TaskRow → TaskStatus → Result (Option CompletionProof)
completion_guard env db task to =
    if to == completed
    then elim (env.evaluate_completion_proof db task.id task.completion_criteria_snapshot_json) [
      | none ↦ err invalid_criteria
      | some proof ↦ ok (some proof)
    ]
    else ok none

unfoldable pub assert_transition : TaskStatus → TaskStatus → TransitionGuards → Result Unit
assert_transition from to guards = elim (validate_transition from to guards) [
  | Machine.ok ↦ ok tt
  | Machine.refused refusal ↦ err (refused_transition from to refusal)
]

-- The patch that the update writes.
unfoldable pub patched : Env → Option ClaimFence → TaskStatus → TaskRow → TaskRow
patched env fence to task =
    let moved = record task {
      status = to;
      version = task.version + 1;
      mutation_claim_id = elim fence [ none ↦ none | some f ↦ some f.claim_id ];
      mutation_worker_id = elim fence [ none ↦ none | some f ↦ some f.worker_id ];
    } in
    if to == queued && is_none task.completion_criteria_snapshot_json
    then record moved {
      completion_criteria_snapshot_json = some (get_or task.completion_criteria_json (text "{}"));
      completion_criteria_locked_at = some env.now;
    }
    else moved

-- The compare-and-swap on the status and the version that were read.
unfoldable pub is_unchanged : TaskRow → TaskRow → Bool
is_unchanged read row =
    row.id == read.id && row.status == read.status && row.version == read.version

-- The update, its check that one row changed, and the row that is read back.
unfoldable pub commit_transition :
    Env → TaskRow → TaskStatus → Option ClaimFence → Db → Result (TaskRow × Db)
commit_transition env task to fence db =
    let next = record db {
      tasks = update_where (is_unchanged task) (patched env fence to) db.tasks;
    } in
    if changes (is_unchanged task) db.tasks != 1
    then err (modified_concurrently task.id)
    else elim (get_task next task.id) [ err e ↦ err e | ok updated ↦ ok (updated, next) ]

unfoldable pub guards_of : Db → ℕ → Option CompletionProof → TransitionGuards
guards_of db task_id proof = record {
  incomplete_dependency_count = some (incomplete_dependency_count db task_id);
  completion_proof = proof;
}

unfoldable pub apply_transition :
    Env → ℕ → TaskStatus → Option ClaimFence → Db → Result (TaskRow × Db)
apply_transition env task_id to fence db = do
  _ ← assert_live_claim env db fence task_id
  task ← get_task db task_id
  proof ← completion_guard env db task to
  _ ← assert_transition task.status to (guards_of db task_id proof)
  commit_transition env task to fence db
