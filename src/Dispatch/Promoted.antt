-- ===== src/Dispatch/Promoted.antt =====
-- The two transitions of a task through the gate (src/supervisor/parallel-dispatch.ts,
-- promoteNextLandedTask).
use project_baracks.Prelude.{
  ℕ, ◌≡◌, inl, inr, refl, sym, subst, arith, ◌==◌, Eq-ℕ, true, false, Text, Eq-Text, none, some,
  find, Bool-cases,
}
use project_baracks.Lifecycle.Machine.{
  TaskStatus, verifying, reviewing, ready_to_merge, Eq-TaskStatus, CompletionProof,
  validate_transition, transitions,
}
use project_baracks.Queue.Types.{TaskRow, Db, ok}
use project_baracks.Queue.Tasks.{
  Env, find_task, assert_live_claim, assert_transition, patched, guards_of, apply_transition,
}
use project_baracks.Queue.Guards.{find_task-patched, patched-id}
use project_baracks.Queue.Keys.{UniqueTasks}
use project_baracks.Queue.Steps.{transitioned, transition-commits, transition-UniqueTasks}
use project_baracks.Dispatch.Gate.{
  promote_task, has_active_claim, needs_fence, changes_status, triggered, unfenced_transition,
}

verifying_reviewing :
    (task : TaskRow) (db : Db)
    → task.status ≡ verifying
    → assert_transition task.status reviewing (guards_of db task.id none) ≡ ok tt
unfolding assert_transition validate_transition transitions guards_of
verifying_reviewing task db e = rw e refl

reviewing_ready :
    (db : Db) (id : ℕ) → assert_transition reviewing ready_to_merge (guards_of db id none) ≡ ok tt
unfolding assert_transition validate_transition transitions guards_of
reviewing_ready db id = refl

pub patched-kept :
    (env : Env) (to : TaskStatus) (task : TaskRow) (json : Text)
    → task.completion_criteria_snapshot_json ≡ some json
    → ((patched env none to task).completion_criteria_snapshot_json ≡ some json)
      × ((patched env none to task).project_id ≡ task.project_id)
      × ((patched env none to task).status ≡ to)
unfolding patched
patched-kept env to task json e = (ground (arith, e), ground (arith, e), ground (arith, e))

-- The tables after the two transitions through the gate.
abbrev pub reviewed_row : Env → TaskRow → TaskRow
reviewed_row env task = patched env none reviewing task

abbrev pub promoted : Env → TaskRow → Db → Db
promoted env task db =
    transitioned env none ready_to_merge (reviewed_row env task)
      (transitioned env none reviewing task db)

patched-unfenced :
    (env : Env) (to : TaskStatus) (task : TaskRow)
    → ((patched env none to task).mutation_claim_id ≡ none)
      × ((patched env none to task).mutation_worker_id ≡ none)
unfolding patched
patched-unfenced env to task = (ground arith, ground arith)

-- On a task that no active claim holds the trigger aborts nothing: the row carries no fence.
needs_fence-none :
    (env : Env) (task : TaskRow) (to : TaskStatus) (db : Db)
    → has_active_claim db task.id ≡ false
    → needs_fence db (patched env none to task) ≡ false
unfolding needs_fence
needs_fence-none env task to db free =
    let (claim, worker) = patched-unfenced env to task in
    rw (patched-id env none to task, free, claim, worker) refl

unfenced-commits :
    (env : Env) (task : TaskRow) (to : TaskStatus) (db next : Db)
    → apply_transition env task.id to none db ≡ ok (patched env none to task, next)
    → has_active_claim db task.id ≡ false
    → unfenced_transition env task.id to db ≡ ok (patched env none to task, next)
unfolding unfenced_transition triggered
unfenced-commits env task to db next h free =
    let calm : needs_fence db (patched env none to task) ≡ false =
      needs_fence-none env task to db free in
    elim (Bool-cases (changes_status db (patched env none to task))) [
      | inl e ↦ rw (h, e, calm) refl
      | inr e ↦ rw (h, e) refl
    ]

pub promote_task-commits :
    (env : Env) (task : TaskRow) (proof : CompletionProof) (db : Db) (json : Text)
    → UniqueTasks db.tasks
    → find (λ t. t.id == task.id) db.tasks ≡ some task
    → task.status ≡ verifying
    → task.completion_criteria_snapshot_json ≡ some json
    → proof.ok ≡ true
    → has_active_claim db task.id ≡ false
    → promote_task env task proof db ≡ ok (some task.id, promoted env task db)
unfolding promote_task find_task assert_live_claim has_active_claim
promote_task-commits env task proof db json unique there landed frozen sure free =
    let middle : Db = transitioned env none reviewing task db in
    let row : TaskRow = reviewed_row env task in
    let status : row.status ≡ reviewing = (patched-kept env reviewing task json frozen).2 in
    let found : find (λ t. t.id == task.id) middle.tasks ≡ some row =
      find_task-patched task (patched env none reviewing) task.id db.tasks there
        (patched-id env none reviewing) in
    let one : apply_transition env task.id reviewing none db ≡ ok (row, middle) =
      transition-commits env task.id none reviewing task db there refl refl
        (verifying_reviewing task db landed) unique in
    let may : assert_transition row.status ready_to_merge (guards_of middle task.id none) ≡ ok tt =
      subst (λ s. assert_transition s ready_to_merge (guards_of middle task.id none) ≡ ok tt)
        (sym status) (reviewing_ready middle task.id) in
    let two : apply_transition env task.id ready_to_merge none middle
        ≡ ok (patched env none ready_to_merge row, promoted env task db) =
      transition-commits env task.id none ready_to_merge row middle found refl refl may
        (transition-UniqueTasks env none reviewing task db unique) in
    let enters : unfenced_transition env task.id reviewing db ≡ ok (row, middle) =
      unfenced-commits env task reviewing db middle one free in
    let leaves : unfenced_transition env task.id ready_to_merge middle
        ≡ ok (patched env none ready_to_merge row, promoted env task db) =
      subst
        (λ i.
          unfenced_transition env i ready_to_merge middle
          ≡ ok (patched env none ready_to_merge row, promoted env task db))
        (patched-id env none reviewing task)
        (unfenced-commits env row ready_to_merge middle (promoted env task db)
          (subst
            (λ i.
              apply_transition env i ready_to_merge none middle
              ≡ ok (patched env none ready_to_merge row, promoted env task db))
            (sym (patched-id env none reviewing task)) two)
          (subst (λ i. has_active_claim middle i ≡ false) (sym (patched-id env none reviewing task))
            free)) in
    rw (sure, enters, leaves) refl
