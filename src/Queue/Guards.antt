-- ===== src/Queue/Guards.antt =====
-- What a transition that commits has passed (src/domain/task-service.ts, applyTransition).
use mathlib.Core.Option.{some-injective}
use project_baracks.Prelude.{
  find-Mem, ℕ, ◌≡◌, inl, inr, sym, subst, arith, ◌==◌, ◌!=◌, Eq-ℕ, nat_eq_iff, Bool, true, false,
  Option, none, some, List, [], ◌∷◌, find, Bool-cases,
}
use project_baracks.Lifecycle.Machine.{
  status_eq_iff, TaskStatus, queued, running, cancelled, Eq-TaskStatus,
}
use project_baracks.Queue.Types.{TaskRow, Db, ok, bind-ok, update_where, changes}
use project_baracks.Queue.Tasks.{
  Env, ClaimFence, find_task, get_task, assert_live_claim, completion_guard, assert_transition,
  patched, is_unchanged, commit_transition, guards_of, apply_transition,
}
use project_baracks.Lifecycle.Machine as Machine
use project_baracks.Lifecycle.Machine.{CompletionProof, TransitionGuards, validate_transition}

-- What the guards let through, and what is then committed.
unfoldable pub Guarded :
    Env → ℕ → TaskStatus → Option ClaimFence → Db → TaskRow → TaskRow × Db → Type 0
Guarded env task_id to fence db read moved =
    (find_task db task_id ≡ some read)
    × (assert_live_claim env db fence task_id ≡ ok tt)
    × ((proof : Option CompletionProof) × (completion_guard env db read to ≡ ok proof)
        × (validate_transition read.status to (guards_of db task_id proof) ≡ Machine.ok))
    × (commit_transition env read to fence db ≡ ok moved)
    × (moved.0 ≡ patched env fence to read)

pub unchanged_self : (t : TaskRow) → is_unchanged t t ≡ true
unfolding is_unchanged
unchanged_self t =
    ground
      (arith, nat_eq_iff t.id t.id, nat_eq_iff t.version t.version, status_eq_iff t.status t.status)

pub find_task-patched :
    (read : TaskRow) (f : TaskRow → TaskRow) (id : ℕ) (tasks : List TaskRow)
    → find (λ t. t.id == id) tasks ≡ some read
    → ((t : TaskRow) → (f t).id ≡ t.id)
    → find (λ t. t.id == id) (update_where (is_unchanged read) f tasks) ≡ some (f read)
unfolding is_unchanged
find_task-patched read f id [] found keeps = ground (arith, found)
find_task-patched read f id (t ∷ tasks) found keeps = elim (Bool-cases (t.id == id)) [
  | inl e ↦
      let here : t ≡ read = some-injective t read (ground (arith, e)) in
      let is_id : (read.id == id) ≡ true = subst (λ r. (r.id == id) ≡ true) here e in
      rw (here, unchanged_self read) (ground (arith, is_id, keeps read))
  | inr e ↦
      let later : find (λ x. x.id == id) tasks ≡ some read = ground (arith, e) in
      let is_id : (read.id == id) ≡ true = (find-Mem (λ x. x.id == id) read tasks later).1 in
      let apart : is_unchanged read t ≡ false = ground (arith, e, is_id) in
      rw (apart, e) (find_task-patched read f id tasks later keeps)
]

pub patched-id :
    (env : Env) (fence : Option ClaimFence) (to : TaskStatus) (task : TaskRow)
    → (patched env fence to task).id ≡ task.id
unfolding patched
patched-id env fence to task = ground arith

get_task-found :
    (db : Db) (id : ℕ) (task : TaskRow) → get_task db id ≡ ok task → find_task db id ≡ some task
unfolding get_task
get_task-found db id task e = ground arith

pub find_task-id : (db : Db) (id : ℕ) (task : TaskRow) → find_task db id ≡ some task → task.id ≡ id
unfolding find_task
find_task-id db id task e = (nat_eq_iff task.id id).0 (find-Mem (λ t. t.id == id) task db.tasks e).1

assert_transition-ok :
    (from to : TaskStatus) (guards : TransitionGuards)
    → assert_transition from to guards ≡ ok tt
    → validate_transition from to guards ≡ Machine.ok
unfolding assert_transition
assert_transition-ok from to guards e = ground arith

commit_transition-patched :
    (env : Env) (read : TaskRow) (to : TaskStatus) (fence : Option ClaimFence) (db : Db)
    (moved : TaskRow × Db)
    → find_task db read.id ≡ some read
    → commit_transition env read to fence db ≡ ok moved
    → moved.0 ≡ patched env fence to read
unfolding commit_transition get_task find_task
commit_transition-patched env read to fence db moved there e =
    let after : find (λ t. t.id == read.id)
          (update_where (is_unchanged read) (patched env fence to) db.tasks)
        ≡ some (patched env fence to read) =
      find_task-patched read (patched env fence to) read.id db.tasks there
        (patched-id env fence to) in
    elim (Bool-cases (changes (is_unchanged read) db.tasks != 1)) [
      | inl g ↦ ground (arith, g)
      | inr g ↦ ground (arith, g, after)
    ]

-- A transition that commits has passed the guards.
pub apply_transition-Guarded :
    (env : Env) (task_id : ℕ) (to : TaskStatus) (fence : Option ClaimFence) (db : Db)
    (moved : TaskRow × Db)
    → apply_transition env task_id to fence db ≡ ok moved
    → (read : TaskRow) × Guarded env task_id to fence db read moved
unfolding apply_transition Guarded
apply_transition-Guarded env task_id to fence db moved e =
    let (_, live, e1) = bind-ok (assert_live_claim env db fence task_id) e in
    let (task, got, e2) = bind-ok (get_task db task_id) e1 in
    let (proof, guard, e3) = bind-ok (completion_guard env db task to) e2 in
    let (_, may, e4) = bind-ok (assert_transition task.status to (guards_of db task_id proof)) e3 in
    let there : find_task db task_id ≡ some task = get_task-found db task_id task got in
    let own : task.id ≡ task_id = find_task-id db task_id task there in
    (
      task,
      (
        there,
        live,
        (proof, guard, assert_transition-ok task.status to (guards_of db task_id proof) may),
        e4,
        commit_transition-patched env task to fence db moved
            (subst (λ i. find_task db i ≡ some task) (sym own) there) e4,
      ),
    )

-- The proof is there and holds.
unfoldable is_proven : Option CompletionProof → Bool
is_proven none = false
is_proven (some proof) = proof.ok
