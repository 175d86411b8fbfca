-- ===== src/Queue/Runs.antt =====
-- Sequences of operations on the queue (src/domain/claim-service.ts, src/domain/task-service.ts).
use project_baracks.Prelude.{
  ℕ, ◌≡◌, inl, inr, refl, sym, subst, ◌∙◌, arith, ◌==◌, ◌!=◌, Eq-ℕ, Text, text, Bool, false, any,
  Option, none, some, get_or, List, [], ◌∷◌, ◌++◌, keep, if◌then◌else◌, Bool-cases, Option-cases,
}
use project_baracks.Lifecycle.Machine.{TaskStatus, queued, running, cancelled, Eq-TaskStatus}
use project_baracks.Queue.Types.{
  ClaimStatus, claim_completed, released, is_active, TaskRow, ClaimRow, Db, Result, ok, err, ◌>>=◌,
  Result-cases, bind-ok, update_where, changes,
}
use project_baracks.Queue.Tasks.{Env, ClaimFence, find_task, apply_transition}
use project_baracks.Queue.Claims.{
  default_lease_ms, ClaimOptions, get_claim, is_candidate, order_by_age, holds_active, new_claim,
  Claimed, claim_task, claim_first, claim_next_task, update_owned, renewed_claim, heartbeat_claim,
  closed, complete_claim, release_claim, is_lapsed, expired_claim, is_this_active, requeue_task,
  expire_all, recover_expired_claims,
}
use project_baracks.Queue.Leases.{
  InTurn, Keeps, update-InTurn, apply_transition-claims, update_owned-InTurn, new_claim-InTurn,
}

-- An operation of a worker or of the coordinator, with the clock and the drawn id it runs with.
pub data QueueOp : Type 0 where
  claim_next : Env → ClaimOptions → (new_id : ℕ) → QueueOp
  heartbeat : Env → (claim_id worker_id : ℕ) → Option ℕ → QueueOp
  complete : Env → (claim_id worker_id : ℕ) → Option Text → QueueOp
  release : Env → (claim_id worker_id : ℕ) → Bool → Text → QueueOp
  recover : Env → QueueOp
  transition : Env → (task_id : ℕ) → TaskStatus → Option ClaimFence → QueueOp

-- What a transaction leaves: its result's database, or the old one when it is rolled back.
abbrev pub committed : {A : Type 0} → Db → Result (A × Db) → Db
committed db (ok (_, next)) = next
committed db (err _) = db

unfoldable pub apply : QueueOp → Db → Db
apply (claim_next env options new_id) db = committed db (claim_next_task env options new_id db)
apply (heartbeat env claim_id worker_id lease_ms) db =
    committed db (heartbeat_claim env claim_id worker_id lease_ms db)
apply (complete env claim_id worker_id reason) db =
    committed db (complete_claim env claim_id worker_id reason db)
apply (release env claim_id worker_id requeue reason) db =
    committed db (release_claim env claim_id worker_id requeue reason db)
apply (recover env) db = committed db (recover_expired_claims env db)
apply (transition env task_id to fence) db = committed db (apply_transition env task_id to fence db)

unfoldable pub run : List QueueOp → Db → Db
run [] db = db
run (op ∷ ops) db = run ops (apply op db)

committed-InTurn :
    {A : Type 0} (db : Db) (r : Result (A × Db))
    → InTurn db.claims
    → ((moved : A × Db) → r ≡ ok moved → InTurn moved.1.claims)
    → InTurn (committed db r).claims
committed-InTurn db (ok moved) h each = each moved refl
committed-InTurn db (err e) h each = h

renewed-Keeps : (now lease_ms : ℕ) → Keeps (renewed_claim now lease_ms)
unfolding Keeps renewed_claim
renewed-Keeps now lease_ms c = (refl, refl, λ h. h)

closed-Keeps :
    (status : ClaimStatus) (reason : Text) → is_active status ≡ false → Keeps (closed status reason)
unfolding Keeps closed
closed-Keeps status reason h c = (refl, refl, ground arith)

expired-Keeps : (read : ClaimRow) → Keeps (expired_claim read)
unfolding Keeps expired_claim
expired-Keeps read c = (refl, refl, ground arith)

claim_task-InTurn :
    (env : Env) (options : ClaimOptions) (new_id : ℕ) (task : TaskRow) (db : Db)
    (moved : Option Claimed × Db)
    → claim_task env options new_id task db ≡ ok moved
    → any (holds_active task.id) db.claims ≡ false
    → InTurn db.claims
    → InTurn moved.1.claims
unfolding claim_task
claim_task-InTurn env options new_id task db moved e free h =
    let claim : ClaimRow = new_claim env options new_id task.id db.claims in
    let inserted : Db = record db { claims = db.claims ++ claim ∷ [] } in
    let fence : Option ClaimFence =
      some (record { claim_id = new_id; worker_id = options.worker_id }) in
    let (next, transition_ok, e1) =
      bind-ok (apply_transition env task.id running fence inserted) e in
    let (row, _, e2) = bind-ok (get_claim next.1 new_id) e1 in
    let same : moved.1.claims ≡ next.1.claims = ground (arith, e2) in
    subst InTurn
      (sym (same ∙ apply_transition-claims env task.id running fence inserted next transition_ok))
      (new_claim-InTurn env options new_id task.id db.claims free h)

claim_first-InTurn :
    (env : Env) (options : ClaimOptions) (new_id : ℕ) (candidates : List TaskRow) (db : Db)
    (moved : Option Claimed × Db)
    → claim_first env options new_id candidates db ≡ ok moved
    → InTurn db.claims
    → InTurn moved.1.claims
unfolding claim_first
claim_first-InTurn env options new_id [] db moved e h = ground (arith, e)
claim_first-InTurn env options new_id (task ∷ candidates) db moved e h =
    elim (Bool-cases (any (holds_active task.id) db.claims)) [
      | inl f ↦ claim_first-InTurn env options new_id candidates db moved (ground (arith, f)) h
      | inr f ↦ claim_task-InTurn env options new_id task db moved (ground (arith, f)) f h
    ]

pub requeue_task-claims :
    (env : Env) (task_id : ℕ) (db next : Db)
    → requeue_task env task_id db ≡ ok next
    → next.claims ≡ db.claims
unfolding requeue_task
requeue_task-claims env task_id db next e = elim (Option-cases (find_task db task_id)) [
  | inl f ↦ ground (arith, f)
  | inr (task, f) ↦ elim (Bool-cases (task.status == running)) [
    | inr g ↦ ground (arith, f, g)
    | inl g ↦ elim (Result-cases (apply_transition env task_id queued none db)) [
      | inr (_, k) ↦ ground (arith, f, g, k)
      | inl (moved, k) ↦
          ground (arith, f, g, k, apply_transition-claims env task_id queued none db moved k)
    ]
  ]
]

expire_all-InTurn :
    (env : Env) (lapsed : List ClaimRow) (db next : Db)
    → expire_all env lapsed db ≡ ok next
    → InTurn db.claims
    → InTurn next.claims
unfolding expire_all
expire_all-InTurn env [] db next e h = ground (arith, e)
expire_all-InTurn env (claim ∷ lapsed) db next e h =
    elim (Bool-cases (changes (is_this_active claim) db.claims != 1)) [
      | inl f ↦ absurd (ground (arith, f))
      | inr f ↦
          let marked : Db = record db {
            claims = update_where (is_this_active claim) (expired_claim claim) db.claims;
          } in
          let e0 : (requeue_task env claim.task_id marked
                >>= (λ requeued. expire_all env lapsed requeued))
              ≡ ok next =
            ground (arith, f) in
          let (requeued, k, e1) = bind-ok (requeue_task env claim.task_id marked) e0 in
          expire_all-InTurn env lapsed requeued next e1 (
            subst InTurn (sym (requeue_task-claims env claim.task_id marked requeued k)) (
              update-InTurn (is_this_active claim) (expired_claim claim) db.claims
                (expired-Keeps claim) h))
    ]

apply-InTurn : (op : QueueOp) (db : Db) → InTurn db.claims → InTurn (apply op db).claims
unfolding apply claim_next_task heartbeat_claim complete_claim release_claim recover_expired_claims
apply-InTurn (claim_next env options new_id) db h =
    committed-InTurn db (claim_next_task env options new_id db) h (λ moved e.
      claim_first-InTurn env options new_id (order_by_age (keep (is_candidate options) db.tasks)) db
        moved e h)
apply-InTurn (heartbeat env claim_id worker_id lease_ms) db h =
    committed-InTurn db (heartbeat_claim env claim_id worker_id lease_ms db) h (λ moved e.
      update_owned-InTurn env.now claim_id worker_id
        (renewed_claim env.now (get_or lease_ms default_lease_ms)) db moved
        (renewed-Keeps env.now (get_or lease_ms default_lease_ms)) e h)
apply-InTurn (complete env claim_id worker_id reason) db h =
    committed-InTurn db (complete_claim env claim_id worker_id reason db) h (λ moved e.
      update_owned-InTurn env.now claim_id worker_id
        (closed claim_completed (get_or reason (text "completed"))) db moved
        (closed-Keeps claim_completed (get_or reason (text "completed")) refl) e h)
apply-InTurn (release env claim_id worker_id requeue reason) db h =
    committed-InTurn db (release_claim env claim_id worker_id requeue reason db) h (λ moved e.
      let (given_up, owned, e1) =
        bind-ok (update_owned env.now claim_id worker_id (closed released reason) db) e in
      let (next, transition_ok, e2) =
        bind-ok
          (apply_transition env given_up.0.task_id (if requeue then queued else cancelled) none
            given_up.1)
          e1 in
      let same : moved.1.claims ≡ next.1.claims = ground (arith, e2) in
      subst InTurn
        (sym (
          same
          ∙ apply_transition-claims env given_up.0.task_id (if requeue then queued else cancelled)
              none given_up.1 next transition_ok))
        (update_owned-InTurn env.now claim_id worker_id (closed released reason) db given_up
          (closed-Keeps released reason refl) owned h))
apply-InTurn (recover env) db h = committed-InTurn db (recover_expired_claims env db) h (λ moved e.
    let (next, expired_ok, e1) =
      bind-ok (expire_all env (keep (is_lapsed env.now) db.claims) db) e in
    let same : moved.1.claims ≡ next.claims = ground (arith, e1) in
    subst InTurn (sym same)
      (expire_all-InTurn env (keep (is_lapsed env.now) db.claims) db next expired_ok h))
apply-InTurn (transition env task_id to fence) db h =
    committed-InTurn db (apply_transition env task_id to fence db) h
      (λ moved e. subst InTurn (sym (apply_transition-claims env task_id to fence db moved e)) h)

-- The queue's operations, in any order, keep the claims of a database in turn: of two claims on one
-- task the one that was inserted later has the higher attempt number, and they are not both active.
-- A database without claims has its claims in turn.
pub run-InTurn : (ops : List QueueOp) (db : Db) → InTurn db.claims → InTurn (run ops db).claims
unfolding run
run-InTurn [] db h = h
run-InTurn (op ∷ ops) db h = run-InTurn ops (apply op db) (apply-InTurn op db h)
