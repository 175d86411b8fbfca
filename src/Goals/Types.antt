-- ===== src/Goals/Types.antt =====
-- The state of the supervisor (src/supervisor/state.ts, SupervisorState). The promotion contract that
-- is derived from an assessment, the last routing decision, and what a pending completion keeps for
-- its writing gates and its failed reviews are left out. A time is in milliseconds.
use project_baracks.Prelude.{ℕ, Text, Bool, true, false, Option, List, ◌≡◌, ◌⊎◌, inl, inr, refl}
use project_baracks.Policy.Types.{WorkerHost}

pub data GoalStatus : Type 0 where
  active running blocked done failed paused : GoalStatus

pub record LiveWorkerClaim : Type 0 where
  pub host : Text
  pub session_id : Text
  pub claimed_at : ℕ
  pub heartbeat_at : ℕ

pub record OwnershipReconciliation : Type 0 where
  pub reconciled_at : ℕ
  pub previous_repo_path : Text
  pub repo_path : Text

pub record CandidateTask : Type 0 where
  pub task_id : ℕ
  pub project_id : ℕ
  pub frozen_criteria_json : Text

-- What the candidate was resolved to: a task, no task, or neither.
pub data Resolution : Type 0 where
  to_task : CandidateTask → Resolution
  no_task unresolved : Resolution

pub Resolution-cases :
    (r : Resolution) → ((t : CandidateTask) × (r ≡ to_task t)) ⊎ (r ≡ no_task) ⊎ (r ≡ unresolved)
Resolution-cases (to_task t) = inl (t, refl)
Resolution-cases no_task = inr (inl refl)
Resolution-cases unresolved = inr (inr refl)

pub record Candidate : Type 0 where
  pub source_head : Text
  pub source_tree_digest : Text
  pub resolution : Resolution

pub record ReviewDispatch : Type 0 where
  pub id : ℕ
  pub provider : WorkerHost
  pub provider_id : Option ℕ
  pub provider_account_label : Option Text
  pub task_id : Option ℕ
  pub run_id : Option ℕ
  pub started_at : ℕ

pub record ReviewedRun : Type 0 where
  pub task_id : ℕ
  pub run_id : ℕ
  pub provider_id : ℕ

pub record PendingCompletion : Type 0 where
  pub summary : Text
  pub claimed_at : ℕ
  pub source_head : Option Text
  pub source_tree_digest : Option Text
  pub candidate : Option Candidate
  pub reviewed_run : Option ReviewedRun
  pub review_dispatch : Option ReviewDispatch

-- The texts that the supervisor itself writes as the summary of a goal, and a worker's.
pub data GoalSummary : Type 0 where
  reported : Text → GoalSummary
  validation_passed : (summary evidence : Text) → GoalSummary
  validation_rejected : (evidence : Text) → GoalSummary
  reopened_by_identity reopened_by_proof reopened_at_commit : GoalSummary

pub record SupervisorGoal : Type 0 where
  pub id : ℕ
  pub project : Text
  pub repo_path : Text
  pub goal : Text
  pub autonomous : Bool
  pub status : GoalStatus
  pub preferred_coordinator : WorkerHost
  pub pinned_coordinator : Option WorkerHost
  pub cycle : ℕ
  pub consecutive_failures : ℕ
  pub created_at : ℕ
  pub updated_at : ℕ
  pub last_finished_at : Option ℕ
  pub last_summary : Option GoalSummary
  pub owner_gate : Option Text
  pub active_pid : Option ℕ
  pub next_run_at : Option ℕ
  pub last_session_ref : Option Text
  pub required_operations : Option (List Text)
  pub admission_risk_assessment : Option Text
  pub candidate : Option Candidate
  pub retry_immediately : Bool
  pub live_worker : Option LiveWorkerClaim
  pub last_ownership_reconciliation : Option OwnershipReconciliation
  pub pending_completion : Option PendingCompletion

pub record WorkshopAuthorization : Type 0 where
  pub is_active : Bool
  pub authorized_at : ℕ
  pub expires_at : ℕ
  pub revoked_at : Option ℕ

pub record SessionAttachment : Type 0 where
  pub id : ℕ
  pub host : Text
  pub cwd : Text
  pub project : Option Text
  pub repo_path : Option Text
  pub session_id : Option Text
  pub workshop_authorization : Option WorkshopAuthorization
  pub attached_at : ℕ

pub record SupervisorState : Type 0 where
  pub goals : List SupervisorGoal
  pub sessions : List SessionAttachment

-- What the operations ask of the files: the absolute path, the common directory of a repository,
-- whether a path exists, and whether a process lives.
pub record Host : Type 0 where
  pub resolve : Text → Text
  pub git_common_dir : Text → Option Text
  pub path_exists : Text → Bool
  pub pid_alive : ℕ → Bool

abbrev pub is_open : GoalStatus → Bool
is_open active = true
is_open running = true
is_open blocked = true
is_open _ = false

abbrev pub is_done : GoalStatus → Bool
is_done done = true
is_done _ = false
