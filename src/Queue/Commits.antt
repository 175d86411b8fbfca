-- ===== src/Queue/Commits.antt =====
-- The commits of a sweep of lapsed claims (src/domain/claim-service.ts, recoverExpiredClaims).

use project_baracks.Prelude.{
  Mem, Mem-keep, All, ℕ, ◌≡◌, inl, inr, refl, sym, subst, ◌∙◌, arith, ◌==◌, Eq-ℕ, nat_eq_iff, true,
  false, any, none, some, List, [], ◌∷◌, keep, Bool-cases, Option-cases,
}
use project_baracks.Lifecycle.Machine.{
  queued, running, Eq-TaskStatus, status_eq_iff, validate_transition, transitions,
}
use project_baracks.Queue.Types.{TaskRow, ClaimRow, Db, ok, update_where, changes}
use project_baracks.Queue.Tasks.{
  Env, find_task, assert_live_claim, assert_transition, patched, guards_of, apply_transition,
}
use project_baracks.Queue.Claims.{
  is_lapsed, expired_claim, is_this_active, requeue_task, expire_all, recover_expired_claims,
}
use project_baracks.Queue.Runs.{requeue_task-claims}
use project_baracks.Queue.Steps.{transitioned, transition-commits, transition-UniqueTasks}
use project_baracks.Queue.Keys.{
  UniqueClaims, UniqueTasks, keep-UniqueClaims, changes-once, changes-other,
}

running_queued :
    (task : TaskRow) (db : Db) (task_id : ℕ)
    → (task.status == running) ≡ true
    → assert_transition task.status queued (guards_of db task_id none) ≡ ok tt
unfolding assert_transition validate_transition transitions guards_of
running_queued task db task_id e = rw ((status_eq_iff task.status running).0 e) refl

requeue_transition :
    (env : Env) (task_id : ℕ) (task : TaskRow) (db : Db)
    → find_task db task_id ≡ some task
    → (task.status == running) ≡ true
    → UniqueTasks db.tasks
    → (moved : TaskRow × Db) × (apply_transition env task_id queued none db ≡ ok moved)
      × UniqueTasks moved.1.tasks
unfolding assert_live_claim
requeue_transition env task_id task db e f unique = (
  (patched env none queued task, transitioned env none queued task db),
  transition-commits env task_id none queued task db e refl refl (running_queued task db task_id f)
      unique,
  transition-UniqueTasks env none queued task db unique,
)

-- A running task goes back to the queue: nothing refuses it.
requeue_commits :
    (env : Env) (task_id : ℕ) (db : Db)
    → UniqueTasks db.tasks
    → (next : Db) × (requeue_task env task_id db ≡ ok next) × UniqueTasks next.tasks
unfolding requeue_task
requeue_commits env task_id db unique = elim (Option-cases (find_task db task_id)) [
  | inl e ↦ (db, rw (e, requeue_task) refl, unique)
  | inr (task, e) ↦ elim (Bool-cases (task.status == running)) [
    | inr f ↦ (db, rw (e, f, requeue_task) refl, unique)
    | inl f ↦
        let (moved, g, still) = requeue_transition env task_id task db e f unique in
        (moved.1, rw (e, f, g, requeue_task) refl, still)
  ]
]

expirable_step :
    (claim : ClaimRow) (lapsed claims : List ClaimRow)
    → any (λ d. d.id == claim.id) lapsed ≡ false
    → All (λ c. changes (is_this_active c) claims ≡ 1) lapsed
    → All
        (λ c.
          changes
            (is_this_active c)
            (update_where (is_this_active claim) (expired_claim claim) claims)
          ≡ 1)
        lapsed
expirable_step claim [] claims apart h = tt
expirable_step claim (c ∷ lapsed) claims apart h = (
  changes-other claim c claims (ground (arith, nat_eq_iff claim.id c.id, nat_eq_iff c.id claim.id))
      ∙ h.0,
  expirable_step claim lapsed claims (ground arith) h.1,
)

expire_all-commits :
    (env : Env) (lapsed : List ClaimRow) (db : Db)
    → UniqueTasks db.tasks
    → UniqueClaims lapsed
    → All (λ c. changes (is_this_active c) db.claims ≡ 1) lapsed
    → (next : Db) × (expire_all env lapsed db ≡ ok next)
unfolding expire_all UniqueClaims
expire_all-commits env [] db tasks unique once = (db, refl)
expire_all-commits env (claim ∷ lapsed) db tasks unique once =
    let marked : Db = record db {
      claims = update_where (is_this_active claim) (expired_claim claim) db.claims;
    } in
    let (requeued, e, still) = requeue_commits env claim.task_id marked tasks in
    let same : requeued.claims ≡ marked.claims =
      requeue_task-claims env claim.task_id marked requeued e in
    let (next, f) = expire_all-commits env lapsed requeued still unique.1 (
      subst (λ cs. All (λ c. changes (is_this_active c) cs ≡ 1) lapsed) (sym same)
        (expirable_step claim lapsed db.claims unique.0 once.1)) in
    (next, rw (expire_all, once.0, e) f)

lapsed_once :
    (now : ℕ) (lapsed claims : List ClaimRow)
    → ((c : ClaimRow) → Mem c lapsed → Mem c claims × (is_lapsed now c ≡ true))
    → UniqueClaims claims
    → All (λ c. changes (is_this_active c) claims ≡ 1) lapsed
unfolding is_lapsed
lapsed_once now [] claims each unique = tt
lapsed_once now (c ∷ lapsed) claims each unique = (
  changes-once c claims unique (each c (inl refl)).0 (ground (arith, (each c (inl refl)).1)),
  lapsed_once now lapsed claims (λ d h. each d (inr h)) unique,
)

-- On tables whose ids are unique a sweep of lapsed claims always commits, and returns the claims
-- that had lapsed: no claim and no task makes it fail.
pub recover_expired_claims-commits :
    (env : Env) (db : Db)
    → UniqueClaims db.claims
    → UniqueTasks db.tasks
    → (next : Db) × (recover_expired_claims env db ≡ ok (keep (is_lapsed env.now) db.claims, next))
unfolding recover_expired_claims
recover_expired_claims-commits env db claims tasks =
    let lapsed : List ClaimRow = keep (is_lapsed env.now) db.claims in
    let (next, e) =
      expire_all-commits env lapsed db tasks
        (keep-UniqueClaims (is_lapsed env.now) db.claims claims)
        (lapsed_once env.now lapsed db.claims (λ c h. Mem-keep (is_lapsed env.now) c db.claims h)
          claims) in
    (next, rw e refl)
