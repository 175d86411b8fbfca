-- ===== src/Queue/Acquire.antt =====
-- Which task a worker is given (src/domain/claim-service.ts, claimNextTask).

use project_baracks.Prelude.{
  Mem, Mem-keep, Mem-in_keep, find-Mem, ℕ, ◌≤◌, ◌≡◌, inl, inr, refl, sym, ap, ◌∙◌, arith, ◌==◌,
  Eq-ℕ, nat_eq_iff, Bool, true, false, not, any, Option, none, some, is_none, List, [], ◌∷◌, ◌++◌,
  keep, find, Bool-cases, Option-cases,
}
use project_baracks.Lifecycle.Machine.{running, Eq-TaskStatus}
use project_baracks.Queue.Types.{TaskRow, ClaimRow, Db, ok, bind-ok}
use project_baracks.Queue.Tasks.{Env, ClaimFence, find_claim, apply_transition}
use project_baracks.Queue.Claims.{
  ClaimOptions, get_claim, is_candidate, order_by_age, holds_active, new_claim, Claimed, claim_task,
  claim_first, claim_next_task,
}
use project_baracks.Queue.Leases.{apply_transition-claims}
use project_baracks.Queue.Age.{order-ByAge, Mem-order, Mem-in_order, find-oldest, find-none}

unfoldable pub is_free : Db → TaskRow → Bool
is_free db task = not (any (holds_active task.id) db.claims)

-- The loop takes the first candidate that nobody holds.
pub claim_first-find :
    (env : Env) (options : ClaimOptions) (new_id : ℕ) (candidates : List TaskRow) (db : Db)
    → claim_first env options new_id candidates db ≡ elim (find (is_free db) candidates) [
      | none ↦ ok (none, db)
      | some task ↦ claim_task env options new_id task db
    ]
unfolding claim_first is_free
claim_first-find env options new_id [] db = refl
claim_first-find env options new_id (task ∷ candidates) db =
    elim (Bool-cases (any (holds_active task.id) db.claims)) [
      | inl e ↦ rw (e, claim_first) (claim_first-find env options new_id candidates db)
      | inr e ↦ rw (e, claim_first) refl
    ]

pub find_claim-new :
    (new : ClaimRow) (claims : List ClaimRow)
    → any (λ c. c.id == new.id) claims ≡ false
    → find (λ c. c.id == new.id) (claims ++ new ∷ []) ≡ some new
find_claim-new new [] fresh = ground (arith, nat_eq_iff new.id new.id)
find_claim-new new (c ∷ claims) fresh = ground (arith, find_claim-new new claims)

get_claim-found :
    (db : Db) (id : ℕ) (row found : ClaimRow)
    → get_claim db id ≡ ok row
    → find (λ c. c.id == id) db.claims ≡ some found
    → row ≡ found
unfolding get_claim find_claim
get_claim-found db id row found e f = ground (arith, f)

claim_task-claim :
    (env : Env) (options : ClaimOptions) (new_id : ℕ) (task : TaskRow) (db : Db) (claimed : Claimed)
    (next : Db)
    → any (λ c. c.id == new_id) db.claims ≡ false
    → claim_task env options new_id task db ≡ ok (some claimed, next)
    → claimed.claim ≡ new_claim env options new_id task.id db.claims
unfolding claim_task new_claim
claim_task-claim env options new_id task db claimed next fresh e =
    let claim : ClaimRow = new_claim env options new_id task.id db.claims in
    let inserted : Db = record db { claims = db.claims ++ claim ∷ [] } in
    let fence : Option ClaimFence =
      some (record { claim_id = new_id; worker_id = options.worker_id }) in
    let (moved, transition_ok, e1) =
      bind-ok (apply_transition env task.id running fence inserted) e in
    let (row, got, e2) = bind-ok (get_claim moved.1 new_id) e1 in
    let same : row ≡ claimed.claim = ground (arith, e2) in
    sym same
    ∙ get_claim-found moved.1 new_id row claim got (
        ap (λ cs. find (λ c. c.id == new_id) cs)
          (apply_transition-claims env task.id running fence inserted moved transition_ok)
        ∙ find_claim-new claim db.claims fresh)

-- A worker that asks for work is given a claim, with the next attempt number, on a queued task
-- that its options admit and that nobody holds; it is at least as old as every other such task.
-- The drawn id must be new.
pub claim_next_task-oldest :
    (env : Env) (options : ClaimOptions) (new_id : ℕ) (db : Db) (claimed : Claimed) (next : Db)
    → any (λ c. c.id == new_id) db.claims ≡ false
    → claim_next_task env options new_id db ≡ ok (some claimed, next)
    → (task : TaskRow) × Mem task db.tasks
      × (is_candidate options task ≡ true)
      × (is_free db task ≡ true)
      × (claimed.claim ≡ new_claim env options new_id task.id db.claims)
      × ((u : TaskRow)
          → Mem u db.tasks
          → is_candidate options u ≡ true
          → is_free db u ≡ true
          → task.created_at ≤ u.created_at)
unfolding claim_next_task
claim_next_task-oldest env options new_id db claimed next fresh e =
    let candidates : List TaskRow = keep (is_candidate options) db.tasks in
    let ordered : List TaskRow = order_by_age candidates in
    elim (Option-cases (find (is_free db) ordered)) [
      | inl f ↦ absurd (ground (arith, claim_first-find env options new_id ordered db, f))
      | inr (task, f) ↦
          let taken : claim_task env options new_id task db ≡ ok (some claimed, next) =
            ground (arith, claim_first-find env options new_id ordered db, f) in
          let found : Mem task ordered × (is_free db task ≡ true) =
            find-Mem (is_free db) task ordered f in
          let listed : Mem task db.tasks × (is_candidate options task ≡ true) =
            Mem-keep (is_candidate options) task db.tasks (Mem-in_order task candidates found.0) in
          (
            task,
            listed.0,
            listed.1,
            found.1,
            claim_task-claim env options new_id task db claimed next fresh taken,
            λ u inside fits free.
                find-oldest (is_free db) task u ordered (order-ByAge candidates) f
                  (Mem-order u candidates
                    (Mem-in_keep (is_candidate options) u db.tasks fits inside))
                  free,
          )
    ]

claim_task-some :
    (env : Env) (options : ClaimOptions) (new_id : ℕ) (task : TaskRow) (db : Db)
    (moved : Option Claimed × Db)
    → claim_task env options new_id task db ≡ ok moved
    → is_none moved.0 ≡ false
unfolding claim_task
claim_task-some env options new_id task db moved e =
    let inserted : Db = record db {
      claims = db.claims ++ new_claim env options new_id task.id db.claims ∷ [];
    } in
    let fence : Option ClaimFence =
      some (record { claim_id = new_id; worker_id = options.worker_id }) in
    let (next, _, e1) = bind-ok (apply_transition env task.id running fence inserted) e in
    let (row, _, e2) = bind-ok (get_claim next.1 new_id) e1 in ground (arith, e2)

-- A worker is sent away without a task only when each queued task that its options admit is held
-- by an active claim, and then nothing changes.
pub claim_next_task-none :
    (env : Env) (options : ClaimOptions) (new_id : ℕ) (db next : Db)
    → claim_next_task env options new_id db ≡ ok (none, next)
    → (next ≡ db)
      × ((u : TaskRow) → Mem u db.tasks → is_candidate options u ≡ true → is_free db u ≡ false)
unfolding claim_next_task
claim_next_task-none env options new_id db next e =
    let candidates : List TaskRow = keep (is_candidate options) db.tasks in
    let ordered : List TaskRow = order_by_age candidates in
    elim (Option-cases (find (is_free db) ordered)) [
      | inl f ↦ (
        ground (arith, claim_first-find env options new_id ordered db, f),
        λ u inside fits.
            find-none (is_free db) u ordered f
              (Mem-order u candidates (Mem-in_keep (is_candidate options) u db.tasks fits inside)),
      )
      | inr (task, f) ↦ absurd (
          ground (
            arith,
            claim_task-some env options new_id task db (none, next)
                (ground (arith, claim_first-find env options new_id ordered db, f)),
          ))
    ]
