-- ===== src/Policy/Types.antt =====
-- The data of src/supervisor/policy.ts, and the rows of agent_runs (joined with their provider)
-- and independent_review_receipts (src/db/schema.ts) that a grade is checked against.
use project_baracks.Prelude.{
  refl, ◌⊎◌, inl, inr, ℕ, ◌≡◌, ◌↔◌, ◌==◌, Eq-ℕ, Text, Bool, true, false, Option, List, arith,
}
use project_baracks.Routing.Types.{RunPurpose}

pub data ProjectClass : Type 0 where
  unknown_project workshop client knowledge : ProjectClass

pub data TrustLevel : Type 0 where
  observe assist build unattended : TrustLevel

abbrev trust_rank : TrustLevel → ℕ
trust_rank observe = 0
trust_rank assist = 1
trust_rank build = 2
trust_rank unattended = 3

abbrev pub trust_eq : TrustLevel → TrustLevel → Bool
trust_eq a b = trust_rank a == trust_rank b

pub trust_eq_iff : (a b : TrustLevel) → (trust_eq a b ≡ true) ↔ (a ≡ b)
trust_eq_iff a b = ground arith

abbrev pub is_client : ProjectClass → Bool
is_client client = true
is_client _ = false

pub data WorkerHost : Type 0 where
  claude codex_host cursor antigravity : WorkerHost

pub data GradeResult : Type 0 where
  pass fail : GradeResult

abbrev pub is_pass : GradeResult → Bool
is_pass pass = true
is_pass fail = false

pub data GradeKind : Type 0 where
  shadow execution : GradeKind

abbrev pub is_execution : GradeKind → Bool
is_execution execution = true
is_execution shadow = false

pub record IndependentGrade : Type 0 where
  pub provider : WorkerHost
  pub provider_account_label : Text
  pub review_execution_id : Text
  pub reviewed_execution_id : Text
  pub reviewed_provider : Option WorkerHost
  pub result : GradeResult
  pub evidence : Text
  pub at : ℕ
  pub goal_id : Option Text
  pub kind : GradeKind
  pub trust_at_grade : TrustLevel

-- What a trust level allows: `Pick<ProjectPolicy, ...>`.
pub record TrustLimits : Type 0 where
  pub max_workers : ℕ
  pub max_run_minutes : ℕ
  pub allow_background : Bool

pub record ProjectPolicy : Type 0 where
  pub project : Text
  pub repo_path : Text
  pub project_class : ProjectClass
  pub trust : TrustLevel
  pub limits : TrustLimits
  pub allow_external_writes : Bool
  pub allow_cross_project_memory : Bool
  pub allow_paid_spend : Bool
  pub owner_approved_build : Bool
  pub parallel_workers : Option Bool
  pub shadow_runs : ℕ
  pub shadow_passes : ℕ
  pub updated_at : ℕ
  pub last_grade : Option IndependentGrade

pub data RunStatus : Type 0 where
  pending running succeeded failed cancelled_run timed_out checkpointed : RunStatus

abbrev pub is_succeeded : RunStatus → Bool
is_succeeded succeeded = true
is_succeeded _ = false

pub record AgentRun : Type 0 where
  pub id : Text
  pub provider_name : Text
  pub account_label : Text
  pub purpose : RunPurpose
  pub independence_loss : Option Text
  pub status : RunStatus
  pub source_head : Option Text
  pub task_id : Text
  pub session_ref : Option Text

pub record ReviewReceipt : Type 0 where
  pub id : Text
  pub project : Text
  pub goal_id : Text
  pub run_id : Text
  pub reviewed_run_id : Option Text
  pub review_session_ref : Option Text
  pub reviewed_session_ref : Option Text
  pub source_tree_digest : Option Text
  pub execution_status : RunStatus

pub record Database : Type 0 where
  pub agent_runs : List AgentRun
  pub review_receipts : List ReviewReceipt

-- What the module asks of its host: node:path's `resolve`, git's common directory of a path,
-- the redaction of a text, the workers that fit now, and the time in milliseconds.
pub record World : Type 0 where
  pub resolve : Text → Text
  pub git_common_dir : Text → Option Text
  pub redact_text : Text → Text
  pub workers : ℕ
  pub now : ℕ

pub data PolicyError : Type 0 where
  cannot_promote : TrustLevel → PolicyError
  execution_ids_missing account_missing own_execution : PolicyError
  independence_compromised : Text → PolicyError
  runs_not_canonical receipt_not_bound : PolicyError
  stop_active : PolicyError
  execution_disabled : ProjectClass → TrustLevel → PolicyError

pub data Result (A : Type 0) : Type 0 where
  ok : A → Result A
  err : PolicyError → Result A

pub Result-cases :
    {A : Type 0} (r : Result A) → ((a : A) × (r ≡ ok a)) ⊎ ((e : PolicyError) × (r ≡ err e))
Result-cases (ok a) = inl (a, refl)
Result-cases (err e) = inr (e, refl)
