-- ===== src/Queue/Grants.antt =====
-- A request for work, from the search to the claim (src/domain/claim-service.ts, claimNextTask).

use project_baracks.Prelude.{
  ◌<◌, ◌++◌, get_or, Mem, Mem-keep, ℕ, ◌≡◌, inl, inr, refl, sym, ◌∙◌, arith, ◌==◌, Eq-ℕ, nat_eq_iff,
  true, false, any, Option, none, some, List, [], ◌∷◌, keep, find, find-Mem, Option-cases,
  true_ne_false,
}
use project_baracks.Lifecycle.Machine.{
  queued, running, Eq-TaskStatus, status_eq_iff, validate_transition, transitions,
}
use project_baracks.Queue.Types.{TaskRow, ClaimRow, Db, ok}
use project_baracks.Queue.Tasks.{
  Env, ClaimFence, find_claim, find_task, is_live, assert_live_claim, assert_transition, patched,
  guards_of, apply_transition,
}
use project_baracks.Queue.Claims.{
  default_lease_ms, ClaimOptions, get_claim, is_candidate, order_by_age, last_attempt, new_claim,
  Claimed, claim_task, claim_next_task,
}
use project_baracks.Queue.Steps.{find_unique, transitioned, transition-commits}
use project_baracks.Queue.Keys.{UniqueTasks}
use project_baracks.Queue.Leases.{apply_transition-claims}
use project_baracks.Queue.Age.{Mem-in_order}
use project_baracks.Queue.Acquire.{is_free, claim_first-find, claim_next_task-none, find_claim-new}

queued_running :
    (task : TaskRow) (db : Db) (task_id : ℕ)
    → (task.status == queued) ≡ true
    → assert_transition task.status running (guards_of db task_id none) ≡ ok tt
unfolding assert_transition validate_transition transitions guards_of
queued_running task db task_id e = rw ((status_eq_iff task.status queued).0 e) refl

start_commits :
    (env : Env) (fence : Option ClaimFence) (task : TaskRow) (db : Db)
    → find (λ t. t.id == task.id) db.tasks ≡ some task
    → assert_live_claim env db fence task.id ≡ ok tt
    → (task.status == queued) ≡ true
    → UniqueTasks db.tasks
    → (moved : TaskRow × Db) × (apply_transition env task.id running fence db ≡ ok moved)
unfolding find_task
start_commits env fence task db there live e unique = (
  (patched env fence running task, transitioned env fence running task db),
  transition-commits env task.id fence running task db there live refl
      (queued_running task db task.id e) unique,
)

new_found :
    (env : Env) (options : ClaimOptions) (new_id task_id : ℕ) (claims : List ClaimRow)
    → any (λ c. c.id == new_id) claims ≡ false
    → find (λ c. c.id == new_id) (claims ++ new_claim env options new_id task_id claims ∷ [])
      ≡ some (new_claim env options new_id task_id claims)
unfolding new_claim
new_found env options new_id task_id claims fresh =
    find_claim-new (new_claim env options new_id task_id claims) claims fresh

-- The claim that was just inserted is live for its worker.
new_live :
    (env : Env) (options : ClaimOptions) (new_id task_id : ℕ) (claims : List ClaimRow) (db : Db)
    → find (λ c. c.id == new_id) db.claims ≡ some (new_claim env options new_id task_id claims)
    → 0 < get_or options.lease_ms default_lease_ms
    → assert_live_claim env db
        (some (record { claim_id = new_id; worker_id = options.worker_id }))
        task_id
      ≡ ok tt
unfolding assert_live_claim find_claim is_live new_claim
new_live env options new_id task_id claims db found lasting =
    let here : is_live env (record { claim_id = new_id; worker_id = options.worker_id }) task_id
          (new_claim env options new_id task_id claims)
        ≡ true =
      ground (arith, nat_eq_iff options.worker_id options.worker_id, nat_eq_iff task_id task_id) in
    rw (assert_live_claim, find_claim, found, here) refl

claim_task-commits :
    (env : Env) (options : ClaimOptions) (new_id : ℕ) (task : TaskRow) (db : Db)
    → any (λ c. c.id == new_id) db.claims ≡ false
    → 0 < get_or options.lease_ms default_lease_ms
    → UniqueTasks db.tasks
    → Mem task db.tasks
    → (task.status == queued) ≡ true
    → (out : Option Claimed × Db) × (claim_task env options new_id task db ≡ ok out)
unfolding claim_task get_claim new_claim find_claim last_attempt
claim_task-commits env options new_id task db fresh lasting unique inside e =
    let claim : ClaimRow = new_claim env options new_id task.id db.claims in
    let inserted : Db = record db { claims = db.claims ++ claim ∷ [] } in
    let fence : Option ClaimFence =
      some (record { claim_id = new_id; worker_id = options.worker_id }) in
    let found : find (λ c. c.id == new_id) inserted.claims ≡ some claim =
      new_found env options new_id task.id db.claims fresh in
    let live : assert_live_claim env inserted fence task.id ≡ ok tt =
      new_live env options new_id task.id db.claims inserted found lasting in
    let (moved, k) =
      start_commits env fence task inserted (find_unique task db.tasks unique inside) live e
        unique in
    let got : get_claim moved.1 new_id ≡ ok claim =
      rw
        (
          get_claim,
          find_claim,
          apply_transition-claims env task.id running fence inserted moved k,
          found,
        )
        refl in
    ((some (record { claim = claim; task = moved.0 }), moved.1), rw (k, got) refl)

-- Where the ids of tasks are unique a request for work always commits, for a new claim id and a
-- lease that is not empty: no claim and no task makes it fail.
claim_next_task-commits :
    (env : Env) (options : ClaimOptions) (new_id : ℕ) (db : Db)
    → any (λ c. c.id == new_id) db.claims ≡ false
    → 0 < get_or options.lease_ms default_lease_ms
    → UniqueTasks db.tasks
    → (out : Option Claimed × Db) × (claim_next_task env options new_id db ≡ ok out)
unfolding claim_next_task is_candidate
claim_next_task-commits env options new_id db fresh lasting unique =
    let candidates : List TaskRow = keep (is_candidate options) db.tasks in
    let ordered : List TaskRow = order_by_age candidates in
    elim (Option-cases (find (is_free db) ordered)) [
      | inl f ↦ ((none, db), rw (claim_first-find env options new_id ordered db, f) refl)
      | inr (task, f) ↦
          let found : Mem task ordered × (is_free db task ≡ true) =
            find-Mem (is_free db) task ordered f in
          let listed : Mem task db.tasks × (is_candidate options task ≡ true) =
            Mem-keep (is_candidate options) task db.tasks (Mem-in_order task candidates found.0) in
          let (out, e) =
            claim_task-commits env options new_id task db fresh lasting unique listed.0
              (ground (arith, listed.1)) in
          (out, rw (claim_first-find env options new_id ordered db, f) e)
    ]

granted :
    (env : Env) (options : ClaimOptions) (new_id : ℕ) (db next : Db) (u : TaskRow)
    → (got : Option Claimed) → claim_next_task env options new_id db ≡ ok (got, next)
    → Mem u db.tasks
    → is_candidate options u ≡ true
    → is_free db u ≡ true
    → (claimed : Claimed) × (claim_next_task env options new_id db ≡ ok (some claimed, next))
granted env options new_id db next u none e inside fits free =
    absurd (
      true_ne_false
        (sym free ∙ (claim_next_task-none env options new_id db next e).1 u inside fits))
granted env options new_id db next u (some claimed) e inside fits free = (claimed, e)

-- When some candidate is held by no active claim, a worker who asks for work gets a claim: the ids
-- of tasks are unique, the claim's id is new and its lease is not empty.
pub claim_next_task-grants :
    (env : Env) (options : ClaimOptions) (new_id : ℕ) (db : Db) (u : TaskRow)
    → any (λ c. c.id == new_id) db.claims ≡ false
    → 0 < get_or options.lease_ms default_lease_ms
    → UniqueTasks db.tasks
    → Mem u db.tasks
    → is_candidate options u ≡ true
    → is_free db u ≡ true
    → (claimed : Claimed) × (next : Db) × (claim_next_task env options new_id db
        ≡ ok (some claimed, next))
claim_next_task-grants env options new_id db u fresh lasting unique inside fits free =
    let (out, e) = claim_next_task-commits env options new_id db fresh lasting unique in
    let (claimed, f) = granted env options new_id db out.1 u out.0 e inside fits free in
    (claimed, out.1, f)
