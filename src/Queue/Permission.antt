-- ===== src/Queue/Permission.antt =====
-- What the checks and the patch of a transition come to, field by field (src/domain/task-service.ts,
-- applyTransition).
use mathlib.Core.Option.{some-injective}
use project_baracks.Prelude.{
  ◌≡◌, ◌≢◌, ◌<◌, ◌+◌, ℕ, sym, subst, inl, inr, arith, ◌==◌, ◌!=◌, Eq-ℕ, nat_eq_iff, Text, text,
  Bool, true, false, ◌&&◌, Option, none, some, get_or, List, find-Mem, Mem, Mem-in_keep, Mem-any,
  keep, keep-empty, any, Bool-cases, Option-cases,
}
use project_baracks.Lifecycle.Machine.{
  TaskStatus, queued, completed, Eq-TaskStatus, status_eq_iff, CompletionProof,
}
use project_baracks.Lifecycle.Diagram.{Proven}
use project_baracks.Queue.Types.{
  ClaimStatus, active, is_active, TaskRow, ClaimRow, Dependency, Db, ok,
}
use project_baracks.Queue.Tasks.{
  Env, ClaimFence, find_claim, is_live, assert_live_claim, incomplete_dependency_count,
  completion_guard, patched, guards_of,
}

-- A claim of the fence's worker on the task that is active and has not lapsed.
unfoldable pub IsHeld : Env → Db → ClaimFence → ℕ → Type 0
IsHeld env db f task_id =
    (c : ClaimRow) × Mem c db.claims
    × (c.id ≡ f.claim_id)
    × (c.worker_id ≡ f.worker_id)
    × (c.task_id ≡ task_id)
    × (c.status ≡ active)
    × (env.now < c.lease_expires_at)

-- Every task that this one depends on is completed.
unfoldable pub HasDoneDependencies : Db → ℕ → Type 0
HasDoneDependencies db task_id =
    (d : Dependency) (t : TaskRow)
    → Mem d db.dependencies
    → d.task_id ≡ task_id
    → Mem t db.tasks
    → t.id ≡ d.depends_on_task_id
    → t.status ≡ completed

-- What the transition writes: the status, the next version and the fence, and the frozen criteria
-- where a task is queued for the first time.
unfoldable pub IsMoved : Env → TaskStatus → Option ClaimFence → TaskRow → TaskRow → Type 0
IsMoved env to fence read moved =
    (moved.id ≡ read.id)
    × (moved.project_id ≡ read.project_id)
    × (moved.created_at ≡ read.created_at)
    × (moved.paths ≡ read.paths)
    × (moved.completion_criteria_json ≡ read.completion_criteria_json)
    × (moved.status ≡ to)
    × (moved.version ≡ read.version + 1)
    × ((f : ClaimFence)
        → fence ≡ some f
        → (moved.mutation_claim_id ≡ some f.claim_id)
          × (moved.mutation_worker_id ≡ some f.worker_id))
    × (fence ≡ none → (moved.mutation_claim_id ≡ none) × (moved.mutation_worker_id ≡ none))
    × (to ≡ queued
        → read.completion_criteria_snapshot_json ≡ none
        → (moved.completion_criteria_snapshot_json
            ≡ some (get_or read.completion_criteria_json (text "{}")))
          × (moved.completion_criteria_locked_at ≡ some env.now))
    × (to ≢ queued
        → (moved.completion_criteria_snapshot_json ≡ read.completion_criteria_snapshot_json)
          × (moved.completion_criteria_locked_at ≡ read.completion_criteria_locked_at))
    × ((json : Text)
        → read.completion_criteria_snapshot_json ≡ some json
        → (moved.completion_criteria_snapshot_json ≡ some json)
          × (moved.completion_criteria_locked_at ≡ read.completion_criteria_locked_at))

is_active-active : (s : ClaimStatus) → is_active s ≡ true → s ≡ active
is_active-active s h = ground arith

pub live-IsHeld :
    (env : Env) (db : Db) (f : ClaimFence) (task_id : ℕ)
    → assert_live_claim env db (some f) task_id ≡ ok tt
    → IsHeld env db f task_id
unfolding assert_live_claim find_claim is_live IsHeld
live-IsHeld env db f task_id h = elim (Option-cases (find_claim db f.claim_id)) [
  | inl e ↦ absurd (ground (arith, e))
  | inr (c, e) ↦
      let (inside, id) = find-Mem (λ (x : ClaimRow). x.id == f.claim_id) c db.claims e in
      let live : is_live env f task_id c ≡ true = ground (arith, e) in
      (
        c,
        inside,
        (nat_eq_iff c.id f.claim_id).0 id,
        (nat_eq_iff c.worker_id f.worker_id).0 (ground (arith, live)),
        (nat_eq_iff c.task_id task_id).0 (ground (arith, live)),
        is_active-active c.status (ground (arith, live)),
        ground (arith, live),
      )
]

pub count-HasDoneDependencies :
    (db : Db) (task_id : ℕ)
    → incomplete_dependency_count db task_id ≡ 0
    → HasDoneDependencies db task_id
unfolding incomplete_dependency_count HasDoneDependencies
count-HasDoneDependencies db task_id h d t d_in own t_in same =
    let deps : List Dependency = keep (λ x. x.task_id == task_id) db.dependencies in
    let waits : TaskRow → Bool =
      λ x. any (λ y. y.depends_on_task_id == x.id) deps && x.status != completed in
    let fails : waits t ≡ false = keep-empty waits t db.tasks (ground (arith, h)) t_in in
    let among : Mem d deps =
      Mem-in_keep (λ x. x.task_id == task_id) d db.dependencies
        ((nat_eq_iff d.task_id task_id).1 own) d_in in
    let depended : any (λ y. y.depends_on_task_id == t.id) deps ≡ true =
      Mem-any (λ y. y.depends_on_task_id == t.id) d deps among
        ((nat_eq_iff d.depends_on_task_id t.id).1 (sym same)) in
    (status_eq_iff t.status completed).0 (ground (arith, fails, depended))

pub guards_of-count :
    (db : Db) (task_id : ℕ) (proof : Option CompletionProof)
    → (guards_of db task_id proof).incomplete_dependency_count ≡ some 0
    → incomplete_dependency_count db task_id ≡ 0
unfolding guards_of
guards_of-count db task_id proof h = some-injective _ _ h

pub completion_guard-proof :
    (env : Env) (db : Db) (read : TaskRow) (to : TaskStatus) (given : Option CompletionProof)
    → to ≡ completed
    → completion_guard env db read to ≡ ok given
    → Proven given
    → (proof : CompletionProof) × (env.evaluate_completion_proof db read.id
          read.completion_criteria_snapshot_json
        ≡ some proof)
      × (proof.ok ≡ true)
unfolding completion_guard
completion_guard-proof env db read to none done h proven = absurd proven
completion_guard-proof env db read to (some given) done h proven =
    let is_done : (to == completed) ≡ true = (status_eq_iff to completed).1 done in
    elim (Option-cases
      (env.evaluate_completion_proof db read.id read.completion_criteria_snapshot_json)) [
        | inl g ↦ absurd (ground (arith, is_done, g))
        | inr (proof, g) ↦
            let same : given ≡ proof = ground (arith, is_done, g) in
            (proof, g, subst (λ (p : CompletionProof). p.ok ≡ true) same proven)
      ]

pub patched-IsMoved :
    (env : Env) (to : TaskStatus) (fence : Option ClaimFence) (read : TaskRow)
    → IsMoved env to fence read (patched env fence to read)
unfolding patched IsMoved
patched-IsMoved env to fence read = (
  ground arith,
  ground arith,
  ground arith,
  ground arith,
  ground arith,
  ground arith,
  ground arith,
  λ f e. (ground (arith, e), ground (arith, e)),
  λ e. (ground (arith, e), ground (arith, e)),
  λ first unfrozen.
      let now_queued : (to == queued) ≡ true = (status_eq_iff to queued).1 first in
      (ground (arith, now_queued, unfrozen), ground (arith, now_queued, unfrozen)),
  λ other. elim (Bool-cases (to == queued)) [
    | inl e ↦ absurd (other ((status_eq_iff to queued).0 e))
    | inr e ↦ (ground (arith, e), ground (arith, e))
  ],
  λ json frozen. (ground (arith, frozen), ground (arith, frozen)),
)
