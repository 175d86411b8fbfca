-- ===== src/Dispatch/Canonical.antt =====
-- A task that the gate lets in is the canonical task of its repository
-- (src/supervisor/parallel-dispatch.ts, promoteNextLandedTask, with src/domain/completion.ts,
-- resolveCanonicalTaskBinding).
use project_baracks.Prelude.{
  Mem, Mem-keep, ℕ, ◌≡◌, inl, inr, refl, sym, subst, ◌∙◌, arith, ◌==◌, Eq-ℕ, nat_eq_iff, Bool, true,
  false, any, Text, Eq-Text, none, some, List, [], ◌∷◌, keep, find, Bool-cases,
}
use mathlib.Core.Option.{some-injective}
use project_baracks.Lifecycle.Machine.{
  verifying, reviewing, ready_to_merge, Eq-TaskStatus, status_eq_iff, CompletionProof,
}
use project_baracks.Records.Types.{Project}
use project_baracks.Queue.Types.{TaskRow, Db, ok, update_where}
use project_baracks.Queue.Tasks.{Env, patched, is_unchanged}
use project_baracks.Queue.Claims.{order_by_age}
use project_baracks.Queue.Age.{Mem-in_order}
use project_baracks.Queue.Guards.{find_task-patched, patched-id, unchanged_self}
use project_baracks.Queue.Keys.{UniqueTasks}
use project_baracks.Queue.Steps.{find_unique, transitioned, transition-UniqueTasks}
use project_baracks.Completion.Binding.{
  bound, is_at, is_candidate, bind, resolve_canonical_task_binding,
}
use project_baracks.Dispatch.Gate.{
  in_gate, is_landed, first, next_landed, promote_next_landed_task, has_active_claim,
}
use project_baracks.Dispatch.Promoted.{patched-kept, reviewed_row, promoted, promote_task-commits}

keep-update_none :
    (q p : TaskRow → Bool) (f : TaskRow → TaskRow) (ts : List TaskRow)
    → ((t : TaskRow) → q (f t) ≡ false)
    → keep q ts ≡ []
    → keep q (update_where p f ts) ≡ []
keep-update_none q p f [] never h = h
keep-update_none q p f (t ∷ ts) never h = ground (arith, never t, keep-update_none q p f ts never)

update_away :
    (task : TaskRow) (f : TaskRow → TaskRow) (ts : List TaskRow)
    → any (λ u. u.id == task.id) ts ≡ false
    → update_where (is_unchanged task) f ts ≡ ts
unfolding is_unchanged
update_away task f [] h = refl
update_away task f (t ∷ ts) h = ground (arith, update_away task f ts)

-- Where no row passes the test, an update of one row to one that passes leaves that row alone.
keep-update_single :
    (q : TaskRow → Bool) (f : TaskRow → TaskRow) (task : TaskRow) (ts : List TaskRow)
    → UniqueTasks ts
    → find (λ t. t.id == task.id) ts ≡ some task
    → keep q ts ≡ []
    → q (f task) ≡ true
    → keep q (update_where (is_unchanged task) f ts) ≡ f task ∷ []
unfolding UniqueTasks
keep-update_single q f task [] unique h free passes = absurd (ground arith)
keep-update_single q f task (t ∷ ts) unique h free passes = elim (Bool-cases (t.id == task.id)) [
  | inl e ↦
      let here : t ≡ task = some-injective t task (ground (arith, e)) in
      let away : any (λ u. u.id == task.id) ts ≡ false =
        subst (λ r. any (λ u. u.id == r.id) ts ≡ false) here unique.0 in
      let rest : keep q ts ≡ [] = ground arith in
      rw (here, unchanged_self task, update_away task f ts away, passes, rest) refl
  | inr e ↦
      let apart : is_unchanged task t ≡ false = unfold is_unchanged in ground (arith, e) in
      let fails : q t ≡ false = ground arith in
      let rest : keep q ts ≡ [] = ground arith in
      rw (apart, fails) (keep-update_single q f task ts unique.1 (ground (arith, e)) rest passes)
]

gate-no_candidates :
    (project_id : ℕ) (p : Project) (ts : List TaskRow)
    → p.id ≡ project_id
    → any (in_gate project_id) ts ≡ false
    → keep (is_candidate p) ts ≡ []
unfolding in_gate is_candidate
gate-no_candidates project_id p [] same h = refl
gate-no_candidates project_id p (t ∷ ts) same h =
    ground (arith, same, gate-no_candidates project_id p ts same)

first-Mem : (task : TaskRow) (ts : List TaskRow) → first ts ≡ some task → Mem task ts
first-Mem task [] h = absurd (ground arith)
first-Mem task (t ∷ ts) h = inl (some-injective task t (sym h))

next_landed-facts :
    (project_id : ℕ) (db : Db) (task : TaskRow)
    → next_landed project_id db ≡ some task
    → Mem task db.tasks × (task.project_id ≡ project_id) × (task.status ≡ verifying)
unfolding next_landed is_landed
next_landed-facts project_id db task h =
    let landed : List TaskRow = keep (is_landed project_id) db.tasks in
    let (inside, passes) =
      Mem-keep (is_landed project_id) task db.tasks
        (Mem-in_order task landed (first-Mem task (order_by_age landed) h)) in
    (
      inside,
      (nat_eq_iff task.project_id project_id).0 (ground arith),
      (status_eq_iff task.status verifying).0 (ground arith),
    )

reviewing_never :
    (env : Env) (p : Project) (t : TaskRow) → is_candidate p (patched env none reviewing t) ≡ false
unfolding is_candidate patched
reviewing_never env p t = ground arith

candidate_of :
    (p : Project) (t : TaskRow)
    → t.project_id ≡ p.id
    → t.status ≡ ready_to_merge
    → is_candidate p t ≡ true
unfolding is_candidate
candidate_of p t same ready = rw (ready, (nat_eq_iff t.project_id p.id).1 same) refl

promoted-candidates :
    (env : Env) (task : TaskRow) (db : Db) (p : Project) (json : Text)
    → UniqueTasks db.tasks
    → find (λ t. t.id == task.id) db.tasks ≡ some task
    → task.completion_criteria_snapshot_json ≡ some json
    → p.id ≡ task.project_id
    → keep (is_candidate p) db.tasks ≡ []
    → keep (is_candidate p) (promoted env task db).tasks
      ≡ patched env none ready_to_merge (reviewed_row env task) ∷ []
promoted-candidates env task db p json unique there frozen same free =
    let middle : Db = transitioned env none reviewing task db in
    let row : TaskRow = reviewed_row env task in
    let (kept, project, _) = patched-kept env reviewing task json frozen in
    let found : find (λ t. t.id == task.id) middle.tasks ≡ some row =
      find_task-patched task (patched env none reviewing) task.id db.tasks there
        (patched-id env none reviewing) in
    let (_, of_row, ready) = patched-kept env ready_to_merge row json kept in
    let passes : is_candidate p (patched env none ready_to_merge row) ≡ true =
      candidate_of p (patched env none ready_to_merge row) (of_row ∙ project ∙ sym same) ready in
    keep-update_single (is_candidate p) (patched env none ready_to_merge) row middle.tasks
      (transition-UniqueTasks env none reviewing task db unique)
      (subst (λ i. find (λ t. t.id == i) middle.tasks ≡ some row)
        (sym (patched-id env none reviewing task)) found)
      (keep-update_none (is_candidate p) (is_unchanged task) (patched env none reviewing) db.tasks
        (reviewing_never env p) free)
      passes

-- Where nothing is in the gate, and the oldest landed task of the project has frozen criteria, a proof
-- that holds and no active claim on it, the promotion commits, the trigger on unfenced updates
-- included, and that task is then the canonical task of the project's repository. Task ids are
-- unique.
pub promote_next_landed_task-canonical :
    (env : Env) (project_id : ℕ) (db : Db) (task : TaskRow) (proof : CompletionProof) (c : ℕ)
    (cs : Text) (resolve : Text → Text) (projects : List Project) (p : Project) (repo_path : Text)
    → UniqueTasks db.tasks
    → any (in_gate project_id) db.tasks ≡ false
    → next_landed project_id db ≡ some task
    → has_active_claim db task.id ≡ false
    → env.evaluate_completion_proof db task.id task.completion_criteria_snapshot_json ≡ some proof
    → proof.ok ≡ true
    → task.completion_criteria_snapshot_json ≡ some (c ∷ cs)
    → find (is_at resolve repo_path) projects ≡ some p
    → p.id ≡ project_id
    → (next : Db) × (promote_next_landed_task env project_id db ≡ ok (some task.id, next))
      × (resolve_canonical_task_binding resolve projects next.tasks repo_path
          ≡ bound (record {
            task_id = task.id;
            project_id = p.id;
            repo_path = p.repo_path;
            frozen_criteria_json = c ∷ cs;
          }))
unfolding promote_next_landed_task resolve_canonical_task_binding bind
promote_next_landed_task-canonical env project_id db task proof c cs resolve projects p repo_path
      unique free oldest unclaimed judged sure frozen at own =
    let (inside, of_project, landed) = next_landed-facts project_id db task oldest in
    let there : find (λ t. t.id == task.id) db.tasks ≡ some task =
      find_unique task db.tasks unique inside in
    let row : TaskRow = patched env none ready_to_merge (reviewed_row env task) in
    let (kept, _, _) = patched-kept env reviewing task (c ∷ cs) frozen in
    let (json, _, _) = patched-kept env ready_to_merge (reviewed_row env task) (c ∷ cs) kept in
    let id : row.id ≡ task.id =
      patched-id env none ready_to_merge (reviewed_row env task)
      ∙ patched-id env none reviewing task in
    let one : keep (is_candidate p) (promoted env task db).tasks ≡ row ∷ [] =
      promoted-candidates env task db p (c ∷ cs) unique there frozen (own ∙ sym of_project)
        (gate-no_candidates project_id p db.tasks own free) in
    (
      promoted env task db,
      rw
          (
            free,
            oldest,
            judged,
            promote_task-commits env task proof db (c ∷ cs) unique there landed frozen sure
                unclaimed,
          )
          refl,
      rw (resolve_canonical_task_binding, at, one, bind, json, id) refl,
    )
