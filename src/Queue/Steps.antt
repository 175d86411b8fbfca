-- ===== src/Queue/Steps.antt =====
-- A guarded transition that nothing refuses, on a table whose ids are unique
-- (src/domain/task-service.ts, applyTransition).
use project_baracks.Prelude.{
  Mem, ℕ, ◌≡◌, inl, inr, refl, sym, ap, subst, ◌∙◌, arith, ◌==◌, Eq-ℕ, nat_eq_iff, true, false, any,
  Option, none, some, List, [], ◌∷◌, find, find-Mem, Bool-cases, true_ne_false,
}
use project_baracks.Lifecycle.Machine.{TaskStatus, completed, Eq-TaskStatus}
use project_baracks.Queue.Types.{TaskRow, Db, ok, update_where, changes}
use project_baracks.Queue.Tasks.{
  Env, ClaimFence, find_task, get_task, assert_live_claim, completion_guard, assert_transition,
  patched, is_unchanged, commit_transition, guards_of, apply_transition,
}
use project_baracks.Queue.Guards.{find_task-patched, patched-id}
use project_baracks.Queue.Keys.{UniqueTasks, task-once, update-UniqueTasks}

any_task : (task : TaskRow) (ts : List TaskRow) → Mem task ts → any (λ u. u.id == task.id) ts ≡ true
any_task task [] h = absurd h
any_task task (t ∷ ts) (inl same) = ground (arith, ap (λ r. r.id) same, nat_eq_iff t.id task.id)
any_task task (t ∷ ts) (inr h) = ground (arith, any_task task ts h)

-- A row of the table is the one that its id finds.
pub find_unique :
    (task : TaskRow) (ts : List TaskRow)
    → UniqueTasks ts
    → Mem task ts
    → find (λ t. t.id == task.id) ts ≡ some task
unfolding UniqueTasks
find_unique task [] unique h = absurd h
find_unique task (t ∷ ts) unique (inl same) =
    let here : (t.id == task.id) ≡ true = (nat_eq_iff t.id task.id).1 (ap (λ r. r.id) (sym same)) in
    rw here (rw same refl)
find_unique task (t ∷ ts) unique (inr h) =
    let apart : (t.id == task.id) ≡ false = elim (Bool-cases (t.id == task.id)) [
      | inl e ↦ absurd (
          true_ne_false (
            sym (any_task task ts h)
            ∙ subst (λ i. any (λ u. u.id == i) ts ≡ false) ((nat_eq_iff t.id task.id).0 e)
                unique.0))
      | inr e ↦ e
    ] in
    rw apart (find_unique task ts unique.1 h)

-- The tables after the transition.
abbrev pub transitioned : Env → Option ClaimFence → TaskStatus → TaskRow → Db → Db
transitioned env fence to task db = record db {
  tasks = update_where (is_unchanged task) (patched env fence to) db.tasks;
}

pub transition-commits :
    (env : Env) (task_id : ℕ) (fence : Option ClaimFence) (to : TaskStatus) (task : TaskRow)
    (db : Db)
    → find_task db task_id ≡ some task
    → assert_live_claim env db fence task_id ≡ ok tt
    → (to == completed) ≡ false
    → assert_transition task.status to (guards_of db task_id none) ≡ ok tt
    → UniqueTasks db.tasks
    → apply_transition env task_id to fence db
      ≡ ok (patched env fence to task, transitioned env fence to task db)
unfolding apply_transition get_task completion_guard commit_transition find_task
transition-commits env task_id fence to task db e live open_end may unique =
    let own : task.id ≡ task_id =
      (nat_eq_iff task.id task_id).0 (find-Mem (λ t. t.id == task_id) task db.tasks e).1 in
    let there : find (λ t. t.id == task.id) db.tasks ≡ some task =
      subst (λ i. find (λ t. t.id == i) db.tasks ≡ some task) (sym own) e in
    let after : find (λ t. t.id == task.id) (transitioned env fence to task db).tasks
        ≡ some (patched env fence to task) =
      find_task-patched task (patched env fence to) task.id db.tasks there
        (patched-id env fence to) in
    let got : get_task db task_id ≡ ok task = rw (get_task, e) refl in
    let once : changes (is_unchanged task) db.tasks ≡ 1 = task-once task db.tasks unique there in
    let guard : completion_guard env db task to ≡ ok none = rw (completion_guard, open_end) refl in
    let committed : commit_transition env task to fence db
        ≡ ok (patched env fence to task, transitioned env fence to task db) =
      rw (commit_transition, once, get_task, find_task, after) refl in
    rw (live, got, guard, may, committed) refl

pub transition-UniqueTasks :
    (env : Env) (fence : Option ClaimFence) (to : TaskStatus) (task : TaskRow) (db : Db)
    → UniqueTasks db.tasks
    → UniqueTasks (transitioned env fence to task db).tasks
transition-UniqueTasks env fence to task db unique =
    update-UniqueTasks (is_unchanged task) (patched env fence to) db.tasks (patched-id env fence to)
      unique
