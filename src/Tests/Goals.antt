-- ===== src/Tests/Goals.antt =====
-- Live claims and sessions (src/supervisor/state.ts) at concrete inputs.
use project_baracks.Prelude.{
  ◌≤◌, Eq-ℕ, refl, arith, Eq-Text, text, false, none, some, List, [], ◌∷◌, length, keep,
}
use project_baracks.Policy.Types.{claude}
use project_baracks.Goals.Types.{Host, LiveWorkerClaim, SupervisorGoal, active}
use project_baracks.Goals.Live.{SessionRef, is_session}
use project_baracks.Goals.Held.{LiveOp, claim, heartbeat, run, IsHeld, run-IsHeld}
use project_baracks.Goals.Sessions.{NewSession, Authorization}
use project_baracks.Goals.Admitted.{Admission, admit_all, is_open_of, admit_all-one_open}
use project_baracks.Goals.Workshops as Workshops
use project_baracks.Goals.Workshops.{SessionOp, attach, authorize, IsTidy, run-IsTidy}

abbrev live : LiveWorkerClaim
live = record { host = text "h"; session_id = text "a"; claimed_at = 5; heartbeat_at = 10 }

abbrev goal : SupervisorGoal
goal = record {
  id = 1;
  project = text "p";
  repo_path = text "/r";
  goal = text "g";
  autonomous = false;
  status = active;
  preferred_coordinator = claude;
  pinned_coordinator = none;
  cycle = 0;
  consecutive_failures = 0;
  created_at = 1;
  updated_at = 1;
  last_finished_at = none;
  last_summary = none;
  owner_gate = none;
  active_pid = none;
  next_run_at = none;
  last_session_ref = none;
  required_operations = none;
  admission_risk_assessment = none;
  candidate = none;
  retry_immediately = false;
  live_worker = some live;
  last_ownership_reconciliation = none;
  pending_completion = none;
}

abbrev holder : SessionRef
holder = record { host = text "h"; session_id = text "a" }

abbrev other : SessionRef
other = record { host = text "h"; session_id = text "b" }

abbrev ops : List LiveOp
ops = claim 1 20 other ∷ heartbeat 1 30 other ∷ claim 1 40 other ∷ []

held : IsHeld 1 10 holder (goal ∷ [])
unfolding IsHeld is_session
held = (goal, live, refl, refl, refl, omega arith)

run-IsHeld_example : IsHeld 1 10 holder (run ops (goal ∷ []))
run-IsHeld_example =
    run-IsHeld 1 10 holder ops (goal ∷ [])
      ((omega arith, omega arith), ((omega arith, omega arith), ((omega arith, omega arith), tt)))
      held

abbrev host : Host
host = record {
  resolve = λ t. t;
  git_common_dir = λ t. none;
  path_exists = λ t. false;
  pid_alive = λ pid. false;
}

abbrev session : NewSession
session = record {
  host = text "h";
  cwd = text "/r";
  project = some (text "p");
  repo_path = none;
  session_id = some (text "a");
}

abbrev workshop : Authorization
workshop = record {
  host = text "h";
  cwd = text "/r";
  project = text "p";
  repo_path = text "/r";
  session_id = text "a";
  expires_at = 900;
}

abbrev steps : List SessionOp
steps = authorize 1 10 workshop ∷ attach 2 20 session ∷ authorize 3 30 workshop ∷ []

tidy : IsTidy []
unfolding IsTidy
tidy = (omega arith, λ project. omega arith)

run-IsTidy_example : IsTidy (Workshops.run host steps [])
run-IsTidy_example = run-IsTidy host steps [] tidy

abbrev admission : Admission
admission = record {
  id = 1;
  now = 10;
  input = record {
    project = text "p";
    repo_path = text "/r";
    outcome = text "g";
    preferred_coordinator = none;
    admission_risk_assessment = none;
    assess_preserved_outcome = none;
    refine = false;
  };
}

abbrev admissions : List Admission
admissions = admission ∷ record admission { id = 2 } ∷ []

admit_all-one_open_example :
    length (keep (is_open_of (text "p")) (admit_all host admissions [])) ≤ 1
admit_all-one_open_example = admit_all-one_open host admissions (text "p")
