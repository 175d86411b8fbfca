-- ===== src/Dispatch/Gate.antt =====
-- The gate behind the merge queue (src/supervisor/parallel-dispatch.ts, promoteNextLandedTask), in
-- one transaction.
use project_baracks.Prelude.{
  ℕ, ◌==◌, Eq-ℕ, Bool, true, false, ◌&&◌, ◌||◌, Option, none, some, List, [], ◌∷◌, any, keep,
  if◌then◌else◌, ◌!=◌, not, leb, option_eq, is_some,
}
use project_baracks.Lifecycle.Machine.{
  verifying, reviewing, ready_to_merge, needs_decision, Eq-TaskStatus, CompletionProof, TaskStatus,
}
use project_baracks.Queue.Types.{
  TaskRow, Db, Result, ok, err, invalid_criteria, fence_required, is_active, ◌>>=◌,
}
use project_baracks.Queue.Tasks.{Env, find_task, apply_transition}
use project_baracks.Queue.Claims.{order_by_age}

-- The trigger tasks_status_requires_current_fence (src/drizzle/0011_complete_worker_fencing.sql): an
-- update of a status is aborted where a claim on the task is active, or the row names one, and the
-- row does not carry the fence of an active claim that has not lapsed.
unfoldable pub has_active_claim : Db → ℕ → Bool
has_active_claim db task_id = any (λ c. c.task_id == task_id && is_active c.status) db.claims

unfoldable pub needs_fence : Db → TaskRow → Bool
needs_fence db row =
    has_active_claim db row.id || is_some row.mutation_claim_id || is_some row.mutation_worker_id

unfoldable pub carries_fence : Env → Db → TaskRow → Bool
carries_fence env db row =
    any
      (λ c.
        option_eq row.mutation_claim_id (some c.id)
        && c.task_id == row.id
        && option_eq row.mutation_worker_id (some c.worker_id)
        && is_active c.status
        && not (leb c.lease_expires_at env.now))
      db.claims

unfoldable pub changes_status : Db → TaskRow → Bool
changes_status db row = elim (find_task db row.id) [
  | none ↦ false
  | some old ↦ row.status != old.status
]

unfoldable pub triggered : Env → Db → TaskRow × Db → Result (TaskRow × Db)
triggered env db moved =
    if changes_status db moved.0 && needs_fence db moved.0 && not (carries_fence env db moved.0)
    then err (fence_required moved.0.id)
    else ok moved

-- `applyTransition` without a fence, on a database with the trigger.
unfoldable pub unfenced_transition : Env → ℕ → TaskStatus → Db → Result (TaskRow × Db)
unfenced_transition env task_id to db = do
  moved ← apply_transition env task_id to none db
  triggered env db moved

unfoldable pub in_gate : ℕ → TaskRow → Bool
in_gate project_id t =
    t.project_id == project_id && (t.status == reviewing || t.status == ready_to_merge)

unfoldable pub is_landed : ℕ → TaskRow → Bool
is_landed project_id t = t.project_id == project_id && t.status == verifying

abbrev pub first : List TaskRow → Option TaskRow
first [] = none
first (t ∷ ts) = some t

-- The oldest task that landed.
unfoldable pub next_landed : ℕ → Db → Option TaskRow
next_landed project_id db = first (order_by_age (keep (is_landed project_id) db.tasks))

-- A task whose proof cannot pass is parked, so that it does not hold the gate.
unfoldable pub promote_task : Env → TaskRow → CompletionProof → Db → Result (Option ℕ × Db)
promote_task env task proof db = elim proof.ok [
  | false ↦ do parked ← unfenced_transition env task.id needs_decision db; ok (none, parked.1)
  | true ↦ do
    reviewed ← unfenced_transition env task.id reviewing db
    ready ← unfenced_transition env task.id ready_to_merge reviewed.1
    ok (some task.id, ready.1)
]

unfoldable pub promote_next_landed_task : Env → ℕ → Db → Result (Option ℕ × Db)
promote_next_landed_task env project_id db =
    if any (in_gate project_id) db.tasks then ok (none, db) else elim (next_landed project_id db) [
      | none ↦ ok (none, db)
      | some task ↦
          elim (env.evaluate_completion_proof db task.id task.completion_criteria_snapshot_json) [
            | none ↦ err invalid_criteria
            | some proof ↦ promote_task env task proof db
          ]
    ]
