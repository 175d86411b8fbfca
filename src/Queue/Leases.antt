-- ===== src/Queue/Leases.antt =====
-- One live claim per task, and numbered attempts (src/domain/claim-service.ts).
use project_baracks.Prelude.{
  ℕ, ◌<◌, ◌≡◌, inl, inr, sym, subst, arith, ◌==◌, ◌!=◌, Eq-ℕ, nat_eq_iff, ltb, Bool, true, false,
  not, ◌&&◌, ◌||◌, any, Option, List, [], ◌∷◌, ◌++◌, if◌then◌else◌, All, All-snoc, Bool-cases,
}
use project_baracks.Lifecycle.Machine.{TaskStatus, Eq-TaskStatus}
use project_baracks.Queue.Types.{
  is_active, TaskRow, ClaimRow, Db, ok, Result-cases, bind-ok, update_where, changes,
}
use project_baracks.Queue.Tasks.{
  Env, ClaimFence, get_task, assert_live_claim, completion_guard, assert_transition, patched,
  is_unchanged, commit_transition, guards_of, apply_transition,
}
use project_baracks.Queue.Claims.{
  ClaimOptions, get_claim, holds_active, last_attempt, new_claim, owner_fence, update_owned,
}

-- Two claims in the order of their insertion: on one task the later has the higher attempt,
-- and not both are active.
unfoldable pub in_turn : ClaimRow → ClaimRow → Bool
in_turn c d =
    not (c.task_id == d.task_id)
    || (ltb c.attempt d.attempt && not (is_active c.status && is_active d.status))

unfoldable pub InTurn : List ClaimRow → Type 0
InTurn [] = Unit
InTurn (c ∷ cs) = All (λ d. in_turn c d ≡ true) cs × InTurn cs

-- An update that keeps a claim's task and attempt, and makes none active.
unfoldable pub Keeps : (ClaimRow → ClaimRow) → Type 0
Keeps f =
    (c : ClaimRow)
    → ((f c).task_id ≡ c.task_id)
      × ((f c).attempt ≡ c.attempt)
      × (is_active (f c).status ≡ true → is_active c.status ≡ true)

update-All :
    (p : ClaimRow → Bool) (f : ClaimRow → ClaimRow) (c x : ClaimRow) (cs : List ClaimRow)
    → Keeps f
    → (x.task_id ≡ c.task_id)
      × (x.attempt ≡ c.attempt)
      × (is_active x.status ≡ true → is_active c.status ≡ true)
    → All (λ d. in_turn c d ≡ true) cs
    → All (λ d. in_turn x d ≡ true) (update_where p f cs)
unfolding in_turn Keeps
update-All p f c x [] keeps same h = tt
update-All p f c x (d ∷ cs) keeps same h = elim (Bool-cases (p d)) [
  | inl e ↦ ground (arith, e, keeps d, update-All p f c x cs keeps same)
  | inr e ↦ ground (arith, e, update-All p f c x cs keeps same)
]

pub update-InTurn :
    (p : ClaimRow → Bool) (f : ClaimRow → ClaimRow) (cs : List ClaimRow)
    → Keeps f
    → InTurn cs
    → InTurn (update_where p f cs)
unfolding InTurn Keeps
update-InTurn p f [] keeps h = tt
update-InTurn p f (c ∷ cs) keeps h = (
  update-All p f c (if p c then f c else c) cs keeps
      (elim (Bool-cases (p c)) [ inl e ↦ ground (arith, e, keeps c) | inr e ↦ ground (arith, e) ])
      h.0,
  update-InTurn p f cs keeps h.1,
)

insert-InTurn :
    (new : ClaimRow) (cs : List ClaimRow)
    → last_attempt new.task_id cs < new.attempt
    → any (holds_active new.task_id) cs ≡ false
    → InTurn cs
    → InTurn (cs ++ new ∷ [])
unfolding InTurn in_turn last_attempt holds_active
insert-InTurn new [] later none_active h = (tt, tt)
insert-InTurn new (c ∷ cs) later none_active h = (
  All-snoc (λ d. in_turn c d ≡ true) cs new h.0 (ground (arith, nat_eq_iff c.task_id new.task_id)),
  insert-InTurn new cs (ground arith) (ground arith) h.1,
)

commit_transition-claims :
    (env : Env) (task : TaskRow) (to : TaskStatus) (fence : Option ClaimFence) (db : Db)
    (moved : TaskRow × Db)
    → commit_transition env task to fence db ≡ ok moved
    → moved.1.claims ≡ db.claims
unfolding commit_transition
commit_transition-claims env task to fence db moved e =
    elim (Bool-cases (changes (is_unchanged task) db.tasks != 1)) [
      | inl f ↦ ground (arith, f)
      | inr f ↦
          elim (Result-cases (
            get_task
              (record db {
                tasks = update_where (is_unchanged task) (patched env fence to) db.tasks;
              })
              task.id)) [ inl (_, g) ↦ ground (arith, f, g) | inr (_, g) ↦ ground (arith, f, g) ]
    ]

-- A transition of a task leaves the claims as they are.
pub apply_transition-claims :
    (env : Env) (task_id : ℕ) (to : TaskStatus) (fence : Option ClaimFence) (db : Db)
    (moved : TaskRow × Db)
    → apply_transition env task_id to fence db ≡ ok moved
    → moved.1.claims ≡ db.claims
unfolding apply_transition
apply_transition-claims env task_id to fence db moved e =
    let (_, _, e1) = bind-ok (assert_live_claim env db fence task_id) e in
    let (task, _, e2) = bind-ok (get_task db task_id) e1 in
    let (proof, _, e3) = bind-ok (completion_guard env db task to) e2 in
    let (_, _, e4) = bind-ok (assert_transition task.status to (guards_of db task_id proof)) e3 in
    commit_transition-claims env task to fence db moved e4

pub update_owned-InTurn :
    (now claim_id worker_id : ℕ) (f : ClaimRow → ClaimRow) (db : Db) (owned : ClaimRow × Db)
    → Keeps f
    → update_owned now claim_id worker_id f db ≡ ok owned
    → InTurn db.claims
    → InTurn owned.1.claims
unfolding update_owned
update_owned-InTurn now claim_id worker_id f db owned keeps e h =
    let fits : ClaimRow → Bool = owner_fence now claim_id worker_id in
    let same : owned.1.claims ≡ update_where fits f db.claims =
      elim (Bool-cases (changes fits db.claims != 1)) [
        | inl g ↦ ground (arith, g)
        | inr g ↦
            elim (Result-cases
              (get_claim (record db { claims = update_where fits f db.claims }) claim_id)) [
                | inl (_, k) ↦ ground (arith, g, k)
                | inr (_, k) ↦ ground (arith, g, k)
              ]
      ] in
    subst InTurn (sym same) (update-InTurn fits f db.claims keeps h)

-- The claim that an acquisition inserts takes its turn after the claims that are there.
pub new_claim-InTurn :
    (env : Env) (options : ClaimOptions) (new_id task_id : ℕ) (claims : List ClaimRow)
    → any (holds_active task_id) claims ≡ false
    → InTurn claims
    → InTurn (claims ++ new_claim env options new_id task_id claims ∷ [])
unfolding new_claim
new_claim-InTurn env options new_id task_id claims free h =
    insert-InTurn (new_claim env options new_id task_id claims) claims (omega arith) free h
