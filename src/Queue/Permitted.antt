-- ===== src/Queue/Permitted.antt =====
-- What a transition of a task that commits shows, field by field (src/domain/task-service.ts,
-- applyTransition).

use project_baracks.Prelude.{
  ◌≡◌, ◌≢◌, ℕ, refl, sym, ap, subst, ◌∙◌, inl, inr, arith, ◌==◌, ◌!=◌, Eq-ℕ, nat_eq_iff, true,
  false, Option, some, List, [], ◌∷◌, find, Bool-cases, Option-cases,
}
use project_baracks.Lifecycle.Machine.{
  TaskStatus, ready, queued, completed, Eq-TaskStatus, CompletionProof,
}
use project_baracks.Lifecycle.Diagram.{◌⟶◌, validate_iff}
use project_baracks.Queue.Types.{TaskRow, Db, ok, update_where, changes}
use project_baracks.Queue.Tasks.{
  Env, ClaimFence, find_task, assert_live_claim, patched, is_unchanged, commit_transition,
  guards_of, get_task, apply_transition,
}
use project_baracks.Queue.Guards.{Guarded, find_task-id, patched-id, apply_transition-Guarded}
use project_baracks.Queue.Permission.{
  IsHeld, HasDoneDependencies, IsMoved, live-IsHeld, count-HasDoneDependencies, guards_of-count,
  completion_guard-proof, patched-IsMoved,
}

-- The transition of the row that was read was allowed, and only that row has changed.
unfoldable pub IsPermitted :
    Env → ℕ → TaskStatus → Option ClaimFence → Db → (next : Db) → (moved : TaskRow) → Type 0
IsPermitted env task_id to fence db next moved =
    (read : TaskRow) × (find_task db task_id ≡ some read)
    × (read.status ⟶ to)
    × (read.status ≡ ready → to ≡ queued → HasDoneDependencies db task_id)
    × (to ≡ completed
        → (proof : CompletionProof) × (env.evaluate_completion_proof db read.id
              read.completion_criteria_snapshot_json
            ≡ some proof)
          × (proof.ok ≡ true))
    × ((f : ClaimFence) → fence ≡ some f → IsHeld env db f task_id)
    × IsMoved env to fence read moved
    × (find_task next task_id ≡ some moved)
    × ((id : ℕ) → id ≢ task_id → find_task next id ≡ find_task db id)
    × (next.claims ≡ db.claims)
    × (next.dependencies ≡ db.dependencies)

commit_transition-frame :
    (env : Env) (read : TaskRow) (to : TaskStatus) (fence : Option ClaimFence) (db : Db)
    (moved : TaskRow × Db)
    → commit_transition env read to fence db ≡ ok moved
    → (moved.1
        ≡ record db { tasks = update_where (is_unchanged read) (patched env fence to) db.tasks })
      × (find_task moved.1 read.id ≡ some moved.0)
unfolding commit_transition get_task
commit_transition-frame env read to fence db moved h =
    let next : Db = record db {
      tasks = update_where (is_unchanged read) (patched env fence to) db.tasks;
    } in
    elim (Bool-cases (changes (is_unchanged read) db.tasks != 1)) [
      | inl g ↦ absurd (ground (arith, g))
      | inr g ↦ elim (Option-cases (find_task next read.id)) [
        | inl e ↦ absurd (ground (arith, g, e))
        | inr (row, e) ↦
            let built : (row, next) ≡ moved = ground (arith, g, e) in
            subst (λ (m : TaskRow × Db). (m.1 ≡ next) × (find_task m.1 read.id ≡ some m.0)) built
              (refl, e)
      ]
    ]

-- A row with another id is found as before.
find_task-other :
    (env : Env) (read : TaskRow) (to : TaskStatus) (fence : Option ClaimFence) (id : ℕ)
    (tasks : List TaskRow)
    → id ≢ read.id
    → find (λ t. t.id == id) (update_where (is_unchanged read) (patched env fence to) tasks)
      ≡ find (λ t. t.id == id) tasks
unfolding is_unchanged
find_task-other env read to fence id [] apart = refl
find_task-other env read to fence id (t ∷ tasks) apart = elim (Bool-cases (is_unchanged read t)) [
  | inr e ↦ rw e (ground (arith, find_task-other env read to fence id tasks apart))
  | inl e ↦
      let same : t.id ≡ read.id = (nat_eq_iff t.id read.id).0 (ground (arith, e)) in
      let kept : ((patched env fence to t).id == id) ≡ (t.id == id) =
        ap (λ i. i == id) (patched-id env fence to t) in
      let other : (t.id == id) ≡ false = elim (Bool-cases (t.id == id)) [
        | inl here ↦ absurd (apart (sym ((nat_eq_iff t.id id).0 here) ∙ same))
        | inr there ↦ there
      ] in
      rw (e, kept, other) (find_task-other env read to fence id tasks apart)
]

-- A transition that commits found the task, and the diagram has the edge from its status. A ready
-- task that is queued has only completed dependencies; a task that is completed has a proof
-- that holds; a fence is that of an active claim of its worker on the task that has not
-- lapsed. The row that is then there has the new status, the next version and the fence, and the
-- criteria are frozen when it is first queued and kept after that; all else of the row, the
-- other rows, the claims and the dependencies are as they were.
pub apply_transition-IsPermitted :
    (env : Env) (task_id : ℕ) (to : TaskStatus) (fence : Option ClaimFence) (db : Db)
    (moved : TaskRow × Db)
    → apply_transition env task_id to fence db ≡ ok moved
    → IsPermitted env task_id to fence db moved.1 moved.0
unfolding IsPermitted Guarded find_task guards_of
apply_transition-IsPermitted env task_id to fence db moved e =
    let (read, (there, live, (proof, guard, may), commits, written)) =
      apply_transition-Guarded env task_id to fence db moved e in
    let own : read.id ≡ task_id = find_task-id db task_id read there in
    let (edge, shown) = (validate_iff read.status to (guards_of db task_id proof)).0 may in
    let (next, found) = commit_transition-frame env read to fence db moved commits in
    (
      read,
      there,
      edge,
      λ from into.
          count-HasDoneDependencies db task_id
            (guards_of-count db task_id proof (shown.dependencies from into)),
      λ done. completion_guard-proof env db read to proof done guard (shown.proof done),
      λ f fenced.
          live-IsHeld env db f task_id
            (subst (λ o. assert_live_claim env db o task_id ≡ ok tt) fenced live),
      subst (IsMoved env to fence read) (sym written) (patched-IsMoved env to fence read),
      subst (λ i. find_task moved.1 i ≡ some moved.0) own found,
      λ id apart.
          ap (λ d. find_task d id) next
          ∙ find_task-other env read to fence id db.tasks (λ same. apart (same ∙ own)),
      ap (λ d. d.claims) next,
      ap (λ d. d.dependencies) next,
    )
