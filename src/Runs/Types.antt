-- ===== src/Runs/Types.antt =====
-- The state of the run service (src/domain/run-service.ts) and what its operations answer.
use project_baracks.Prelude.{ℕ, ◌⊎◌, inl, inr, ◌≡◌, refl, arith, Text, Option, List}
use project_baracks.Routing.Types.{BillingMode}
use project_baracks.Records.Types.{Tables, DecisionScope}
use project_baracks.Queue.Types.{Db, QueueError}
use project_baracks.Completion.Criteria.{CompletionCriteria}

pub record AgentModel : Type 0 where
  pub id : ℕ
  pub provider_id : ℕ
  pub model_ref : Text
  pub billing_mode : BillingMode

pub record AgentProvider : Type 0 where
  pub id : ℕ
  pub name : Text
  pub account_label : Text

pub record Store : Type 0 where
  pub queue : Db
  pub tables : Tables
  pub models : List AgentModel
  pub providers : List AgentProvider

-- How the texts of the store are read: the criteria of a task, the scope of a decision.
pub record Reading : Type 0 where
  pub criteria : Text → Option CompletionCriteria
  pub scope : Text → Option DecisionScope

pub data RunError : Type 0 where
  bad_source_head : RunError
  task_not_found : ℕ → RunError
  criteria_invalid : RunError
  head_required : Option Text → RunError
  billing_unproven : RunError
  unroutable : Text → RunError
  billing_differs : BillingMode → BillingMode → RunError
  model_differs : ℕ → RunError
  claim_is_stale : ℕ → RunError
  approval_required : RunError
  not_authorised : ℕ → RunError
  free_with_approval : RunError
  not_consumed : ℕ → RunError
  run_not_found : ℕ → RunError
  bad_exit_code : Option ℕ → RunError
  queue_error : QueueError → RunError

pub data Result (A : Type 0) : Type 0 where
  ok : A → Result A
  err : RunError → Result A

infixl 5 ◌>>=◌
abbrev pub ◌>>=◌ : {A : Type 0} {B : Type 0} → Result A → (A → Result B) → Result B
ok a >>= f = f a
err e >>= f = err e

pub Result-cases :
    {A : Type 0} (r : Result A) → ((a : A) × (r ≡ ok a)) ⊎ ((e : RunError) × (r ≡ err e))
Result-cases (ok a) = inl (a, refl)
Result-cases (err e) = inr (e, refl)

-- A chain that succeeds has succeeded at its first step.
pub bind-ok :
    {A : Type 0} {B : Type 0} (r : Result A) {f : A → Result B} {b : B}
    → r >>= f ≡ ok b
    → (a : A) × (r ≡ ok a) × (f a ≡ ok b)
bind-ok (ok a) h = (a, refl, h)
bind-ok (err e) h = absurd (ground arith)
