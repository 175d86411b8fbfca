-- ===== src/Queue/Types.antt =====
-- The rows of tasks, task_claims and task_dependencies (src/db/schema.ts) that the queue works on.
-- An id is a token that is only compared; a time is in milliseconds.
use project_baracks.Prelude.{
  arith, ℕ, refl, ◌⊎◌, inl, inr, ◌≡◌, Eq-ℕ, Text, Bool, true, false, Option, List, [], ◌∷◌, keep,
  length, if◌then◌else◌,
}
use project_baracks.Lifecycle.Machine.{TaskStatus, Refusal}

pub data ClaimStatus : Type 0 where
  active claim_completed released expired : ClaimStatus

abbrev pub is_active : ClaimStatus → Bool
is_active active = true
is_active _ = false

pub record TaskRow : Type 0 where
  pub id : ℕ
  pub project_id : ℕ
  pub status : TaskStatus
  pub version : ℕ
  pub created_at : ℕ
  pub paths : Option Text
  pub completion_criteria_json : Option Text
  pub completion_criteria_snapshot_json : Option Text
  pub completion_criteria_locked_at : Option ℕ
  pub mutation_claim_id : Option ℕ
  pub mutation_worker_id : Option ℕ

pub data OutcomeReason : Type 0 where
  given : Text → OutcomeReason
  lease_expired_at : ℕ → OutcomeReason

pub record ClaimRow : Type 0 where
  pub id : ℕ
  pub task_id : ℕ
  pub worker_id : ℕ
  pub attempt : ℕ
  pub status : ClaimStatus
  pub lease_expires_at : ℕ
  pub heartbeat_at : ℕ
  pub outcome_reason : Option OutcomeReason

pub record Dependency : Type 0 where
  pub task_id : ℕ
  pub depends_on_task_id : ℕ

pub record Db : Type 0 where
  pub tasks : List TaskRow
  pub claims : List ClaimRow
  pub dependencies : List Dependency

pub data QueueError : Type 0 where
  claim_not_found : ℕ → QueueError
  task_not_found : ℕ → QueueError
  stale_claim : (claim_id worker_id : ℕ) → QueueError
  refused_transition : TaskStatus → TaskStatus → Refusal → QueueError
  modified_concurrently : ℕ → QueueError
  invalid_criteria : QueueError
  fence_required : ℕ → QueueError

pub data Result (A : Type 0) : Type 0 where
  ok : A → Result A
  err : QueueError → Result A

infixl 5 ◌>>=◌
abbrev pub ◌>>=◌ : {A : Type 0} {B : Type 0} → Result A → (A → Result B) → Result B
ok a >>= f = f a
err e >>= f = err e

pub Result-cases :
    {A : Type 0} (r : Result A) → ((a : A) × (r ≡ ok a)) ⊎ ((e : QueueError) × (r ≡ err e))
Result-cases (ok a) = inl (a, refl)
Result-cases (err e) = inr (e, refl)

-- A chain that succeeds has succeeded at its first step.
pub bind-ok :
    {A : Type 0} {B : Type 0} (r : Result A) {f : A → Result B} {b : B}
    → r >>= f ≡ ok b
    → (a : A) × (r ≡ ok a) × (f a ≡ ok b)
bind-ok (ok a) h = (a, refl, h)
bind-ok (err e) h = absurd (ground arith)

-- `update(...).set(f).where(p)`: the rows, and how many `changes` there were.
abbrev pub update_where : {A : Type 0} → (A → Bool) → (A → A) → List A → List A
update_where p f [] = []
update_where p f (x ∷ xs) = (if p x then f x else x) ∷ update_where p f xs

abbrev pub changes : {A : Type 0} → (A → Bool) → List A → ℕ
changes p xs = length (keep p xs)
