-- ===== src/Records/Types.antt =====
-- The rows of projects, agent_runs, verification_runs, evidence, review_findings,
-- independent_review_receipts and decision_requests (src/db/schema.ts). An id is a token that is
-- only compared; the id of a verification run is a text, since evidence refers to it by a text.
use project_baracks.Prelude.{ℕ, ◌==◌, ◌≡◌, ◌↔◌, arith, Eq-ℕ, Text, Bool, true, false, Option, List}
use project_baracks.Policy.Types.{WorkerHost}
use project_baracks.Routing.Types.{
  RunPurpose, BillingMode, implementation, verification, review, repair, analysis,
}

pub data RunStatus : Type 0 where
  pending running succeeded failed cancelled timed_out checkpointed : RunStatus

abbrev pub is_succeeded : RunStatus → Bool
is_succeeded succeeded = true
is_succeeded _ = false

abbrev purpose_rank : RunPurpose → ℕ
purpose_rank implementation = 0
purpose_rank verification = 1
purpose_rank review = 2
purpose_rank repair = 3
purpose_rank analysis = 4

abbrev pub purpose_eq : RunPurpose → RunPurpose → Bool
purpose_eq a b = purpose_rank a == purpose_rank b

pub purpose_eq_iff : (a b : RunPurpose) → (purpose_eq a b ≡ true) ↔ (a ≡ b)
purpose_eq_iff a b = ground arith

pub record Project : Type 0 where
  pub id : ℕ
  pub repo_path : Text

pub record AgentRun : Type 0 where
  pub id : ℕ
  pub task_id : ℕ
  pub claim_id : Option ℕ
  pub claim_worker_id : Option ℕ
  pub provider_id : ℕ
  pub model_id : Option ℕ
  pub model_ref : Text
  pub purpose : RunPurpose
  pub billing_mode : BillingMode
  pub paid_usage_decision_id : Option ℕ
  pub independence_loss : Option Text
  pub source_head : Option Text
  pub status : RunStatus
  pub session_ref : Option Text
  pub started_at : Option ℕ
  pub ended_at : Option ℕ

pub data VerificationStatus : Type 0 where
  verification_pending verification_running passed verification_failed : VerificationStatus

abbrev pub is_passed : VerificationStatus → Bool
is_passed passed = true
is_passed _ = false

pub record VerificationRun : Type 0 where
  pub id : Text
  pub task_id : ℕ
  pub agent_run_id : Option ℕ
  pub status : VerificationStatus
  pub exit_code : Option ℕ
  pub validation_subject : Option Text
  pub started_at : Option ℕ
  pub ended_at : Option ℕ

pub data EvidenceKind : Type 0 where
  test_result verification_run review_evidence artifact log other : EvidenceKind

abbrev pub is_verification_run : EvidenceKind → Bool
is_verification_run verification_run = true
is_verification_run _ = false

abbrev pub is_artifact : EvidenceKind → Bool
is_artifact artifact = true
is_artifact _ = false

pub record Evidence : Type 0 where
  pub id : ℕ
  pub task_id : ℕ
  pub agent_run_id : Option ℕ
  pub kind : EvidenceKind
  pub ref : Option Text

pub data FindingSeverity : Type 0 where
  info minor major critical : FindingSeverity

pub data FindingStatus : Type 0 where
  finding_open accepted finding_rejected fixed : FindingStatus

abbrev pub is_open : FindingStatus → Bool
is_open finding_open = true
is_open _ = false

pub record ReviewFinding : Type 0 where
  pub id : ℕ
  pub task_id : ℕ
  pub severity : FindingSeverity
  pub status : FindingStatus

pub data Verdict : Type 0 where
  pass fail : Verdict

abbrev pub is_pass : Verdict → Bool
is_pass pass = true
is_pass fail = false

-- A receipt has one execution status only, `succeeded`.
-- The purpose and the execution status of a receipt have one value each, and are left out.
pub record Receipt : Type 0 where
  pub id : ℕ
  pub project : Text
  pub goal_id : ℕ
  pub run_id : ℕ
  pub reviewed_run_id : Option ℕ
  pub review_session_ref : Option Text
  pub reviewed_session_ref : Option Text
  pub task_id : Option ℕ
  pub provider_id : Option ℕ
  pub provider_account_label : Option Text
  pub dispatch_id : ℕ
  pub provider : WorkerHost
  pub source_head : Text
  pub source_tree_digest : Option Text
  pub verdict : Verdict
  pub evidence : Text
  pub pending_claimed_at : ℕ
  pub review_started_at : ℕ

pub data DecisionStatus : Type 0 where
  open_decision approved rejected expired : DecisionStatus

abbrev pub is_approved : DecisionStatus → Bool
is_approved approved = true
is_approved _ = false

abbrev pub is_open_decision : DecisionStatus → Bool
is_open_decision open_decision = true
is_open_decision _ = false

-- What the context of a decision declares that it authorises.
pub record DecisionScope : Type 0 where
  pub provider : Option Text
  pub model_ref : Option Text
  pub purpose : Option RunPurpose
  pub action_digest : Option Text

pub record Decision : Type 0 where
  pub id : ℕ
  pub project_id : Option ℕ
  pub task_id : Option ℕ
  pub category : Text
  pub context_json : Option Text
  pub status : DecisionStatus
  pub resolution : Option Text
  pub resolved_at : Option ℕ
  pub expires_at : Option ℕ
  pub consumed_by_run_id : Option ℕ
  pub created_at : ℕ

-- The tables that a completion proof reads, next to the tasks.
pub record Tables : Type 0 where
  pub projects : List Project
  pub runs : List AgentRun
  pub verifications : List VerificationRun
  pub evidence : List Evidence
  pub findings : List ReviewFinding
  pub receipts : List Receipt
  pub decisions : List Decision
