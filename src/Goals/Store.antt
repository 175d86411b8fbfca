-- ===== src/Goals/Store.antt =====
-- The goals of the supervisor (src/supervisor/state.ts): their start, admission, repair and binding.
use project_baracks.Prelude.{
  ℕ, ◌==◌, Eq-ℕ, Text, Eq-Text, Bool, true, false, not, ◌&&◌, ◌||◌, Option, none, some, option_eq,
  is_none, get_or, List, [], ◌∷◌, ◌++◌, find, any, keep, if◌then◌else◌,
}
use project_baracks.Policy.Types.{WorkerHost, claude}
use project_baracks.Goals.Types.{
  Host, SupervisorGoal, GoalStatus, active, running, is_open, LiveWorkerClaim,
}
use project_baracks.Goals.Live.{by_id, update_first, is_live_worker_fresh, SessionRef, is_session}

-- The goal is of the project, or of a repository with the same common directory.
unfoldable pub is_same_place : Host → (project : Text) → Option Text → SupervisorGoal → Bool
is_same_place h project common g = g.project == project || elim common [
  | none ↦ false
  | some dir ↦ option_eq (h.git_common_dir (h.resolve g.repo_path)) (some dir)
]

unfoldable pub is_resumed : Host → (project repo_path : Text) → SupervisorGoal → Bool
is_resumed h project repo_path g =
    is_same_place h project (h.git_common_dir (h.resolve repo_path)) g && is_open g.status

-- Another outcome is another task: nothing of the old session is resumed.
unfoldable pub clear_session_continuity_on_outcome_change :
    (outcome : Text) → SupervisorGoal → SupervisorGoal
clear_session_continuity_on_outcome_change outcome g =
    if g.goal == outcome then g else record g { last_session_ref = none; last_summary = none }

pub record StartInput : Type 0 where
  pub project : Text
  pub repo_path : Text
  pub goal : Text
  pub autonomous : Bool
  pub preferred_coordinator : Option WorkerHost
  pub pinned_coordinator : Option WorkerHost
  pub required_operations : Option (List Text)
  pub admission_risk_assessment : Option Text

unfoldable restarted : Host → (now : ℕ) → StartInput → SupervisorGoal → SupervisorGoal
restarted h now input g = record (clear_session_continuity_on_outcome_change input.goal g) {
  project = input.project;
  goal = input.goal;
  repo_path = h.resolve input.repo_path;
  autonomous = input.autonomous;
  pinned_coordinator = input.pinned_coordinator;
  preferred_coordinator = get_or input.pinned_coordinator g.preferred_coordinator;
  required_operations = input.required_operations;
  admission_risk_assessment = input.admission_risk_assessment;
  status = active;
  updated_at = now;
  owner_gate = none;
  pending_completion = none;
  next_run_at = some now;
  retry_immediately = false;
}

abbrev non_empty : Option (List Text) → Option (List Text)
non_empty none = none
non_empty (some []) = none
non_empty (some (x ∷ xs)) = some (x ∷ xs)

unfoldable pub new_goal : Host → (id now : ℕ) → StartInput → SupervisorGoal
new_goal h id now input = record {
  id = id;
  project = input.project;
  repo_path = h.resolve input.repo_path;
  goal = input.goal;
  autonomous = input.autonomous;
  status = active;
  preferred_coordinator = elim input.pinned_coordinator [
    | some host ↦ host
    | none ↦ get_or input.preferred_coordinator claude
  ];
  pinned_coordinator = input.pinned_coordinator;
  cycle = 0;
  consecutive_failures = 0;
  created_at = now;
  updated_at = now;
  last_finished_at = none;
  last_summary = none;
  owner_gate = none;
  active_pid = none;
  next_run_at = some now;
  last_session_ref = none;
  required_operations = non_empty input.required_operations;
  admission_risk_assessment = input.admission_risk_assessment;
  candidate = none;
  retry_immediately = false;
  live_worker = none;
  last_ownership_reconciliation = none;
  pending_completion = none;
}

unfoldable start_goal :
    Host → (id now : ℕ) → StartInput → List SupervisorGoal → List SupervisorGoal × SupervisorGoal
start_goal h id now input goals = elim (find (is_resumed h input.project input.repo_path) goals) [
  | some g ↦ (
    update_first (is_resumed h input.project input.repo_path) (restarted h now input) goals,
    restarted h now input g,
  )
  | none ↦ (goals ++ new_goal h id now input ∷ [], new_goal h id now input)
]

pub record AdmitInput : Type 0 where
  pub project : Text
  pub repo_path : Text
  pub outcome : Text
  pub preferred_coordinator : Option WorkerHost
  pub admission_risk_assessment : Option Text
  pub assess_preserved_outcome : Option (Text → Text)
  pub refine : Bool

-- A refinement revokes what the old objective owned before it replaces it.
unfoldable pub refined : (now : ℕ) → AdmitInput → SupervisorGoal → SupervisorGoal
refined now input g = record (clear_session_continuity_on_outcome_change input.outcome g) {
  pending_completion = none;
  candidate = none;
  active_pid = none;
  status = active;
  owner_gate = none;
  retry_immediately = false;
  next_run_at = some now;
  goal = input.outcome;
  admission_risk_assessment = input.admission_risk_assessment;
  updated_at = now;
}

unfoldable pub assessed : (now : ℕ) → AdmitInput → SupervisorGoal → SupervisorGoal
assessed now input g = elim g.admission_risk_assessment [
  | some a ↦ g
  | none ↦ elim input.assess_preserved_outcome [
    | none ↦ g
    | some assess ↦ record g { admission_risk_assessment = some (assess g.goal); updated_at = now }
  ]
]

abbrev pub admitted : (now : ℕ) → AdmitInput → SupervisorGoal → SupervisorGoal
admitted now input g = if input.refine then refined now input g else assessed now input g

abbrev pub start_of : AdmitInput → StartInput
start_of input = record {
  project = input.project;
  repo_path = input.repo_path;
  goal = input.outcome;
  autonomous = false;
  preferred_coordinator = input.preferred_coordinator;
  pinned_coordinator = none;
  required_operations = none;
  admission_risk_assessment = input.admission_risk_assessment;
}

-- The goal, and whether it is new.
unfoldable pub admit_goal :
    Host
    → (id now : ℕ) → AdmitInput
    → List SupervisorGoal
    → List SupervisorGoal × (SupervisorGoal × Bool)
admit_goal h id now input goals = elim (find (is_resumed h input.project input.repo_path) goals) [
  | some g ↦ (
    update_first (is_resumed h input.project input.repo_path) (admitted now input) goals,
    (admitted now input g, false),
  )
  | none ↦
      (goals ++ new_goal h id now (start_of input) ∷ [], (new_goal h id now (start_of input), true))
]

pub record ReconcileInput : Type 0 where
  pub goal_id : ℕ
  pub project : Text
  pub repo_path : Text
  pub session : SessionRef
  pub has_active_worker_lease : Bool

-- Another session holds the goal, and its heartbeat is recent.
abbrev is_held_by_other : (now : ℕ) → SessionRef → Option LiveWorkerClaim → Bool
is_held_by_other now session none = false
is_held_by_other now session (some c) = not (is_session session c) && is_live_worker_fresh now c

abbrev has_live_cycle : Host → Option ℕ → Bool
has_live_cycle h none = false
has_live_cycle h (some pid) = h.pid_alive pid

-- The goal's worktree is gone, and nothing that could write to it is left.
unfoldable is_abandoned : Host → (now : ℕ) → ReconcileInput → SupervisorGoal → Bool
is_abandoned h now input g =
    g.project == input.project
    && not (h.resolve g.repo_path == h.resolve input.repo_path)
    && not (h.path_exists (h.resolve g.repo_path))
    && not (has_live_cycle h g.active_pid)
    && not input.has_active_worker_lease
    && not (is_held_by_other now input.session g.live_worker)

abbrev is_running : GoalStatus → Bool
is_running running = true
is_running _ = false

abbrev own_claim : SessionRef → Option LiveWorkerClaim → Option LiveWorkerClaim
own_claim session none = none
own_claim session (some c) = if is_session session c then some c else none

unfoldable rebound : Host → (now : ℕ) → ReconcileInput → SupervisorGoal → SupervisorGoal
rebound h now input g =
    let restarts = is_running g.status && is_none g.pending_completion in
    record g {
      repo_path = h.resolve input.repo_path;
      active_pid = none;
      status = if restarts then active else g.status;
      next_run_at = if restarts then some now else g.next_run_at;
      live_worker = own_claim input.session g.live_worker;
      last_ownership_reconciliation = some (record {
        reconciled_at = now;
        previous_repo_path = h.resolve g.repo_path;
        repo_path = h.resolve input.repo_path;
      });
      updated_at = now;
    }

-- `none` where the goal is missing, which throws.
unfoldable reconcile_stale_goal_ownership :
    Host → (now : ℕ) → ReconcileInput → List SupervisorGoal → List SupervisorGoal × Option Bool
reconcile_stale_goal_ownership h now input goals = elim (find (by_id input.goal_id) goals) [
  | none ↦ (goals, none)
  | some g ↦
      if is_abandoned h now input g
      then (update_first (by_id input.goal_id) (rebound h now input) goals, some true)
      else (goals, some false)
]

abbrev pub moved : Host → (now : ℕ) → (project repo_path : Text) → SupervisorGoal → SupervisorGoal
moved h now project repo_path g = record g {
  project = project;
  repo_path = h.resolve repo_path;
  updated_at = now;
}

unfoldable bind_goal_to_project :
    Host
    → (id now : ℕ) → (project repo_path : Text) → List SupervisorGoal
    → List SupervisorGoal × Option SupervisorGoal
bind_goal_to_project h id now project repo_path goals = elim (find (by_id id) goals) [
  | none ↦ (goals, none)
  | some g ↦
      if is_same_place h project (h.git_common_dir (h.resolve repo_path)) g
      then (
        update_first (by_id id) (moved h now project repo_path) goals,
        some (moved h now project repo_path g),
      )
      else (goals, none)
]

-- The goals that are removed, and the ones that stay.
unfoldable remove_goals : List ℕ → List SupervisorGoal → List SupervisorGoal × List SupervisorGoal
remove_goals ids goals = (
  keep (λ g. any (λ id. id == g.id) ids) goals,
  keep (λ g. not (any (λ id. id == g.id) ids)) goals,
)
