-- ===== src/Tests/Grades.antt =====
-- Grades of pending completions (src/supervisor/state.ts) at concrete inputs.
use project_baracks.Prelude.{
  trim, drop_end, ℕ, ◌≡◌, refl, Text, text, true, false, Option, none, some, [], ◌∷◌,
}
use project_baracks.Routing.Types.{implementation, review, subscription_included, RunPurpose}
use project_baracks.Policy.Types.{claude}
use project_baracks.Records.Types.{AgentRun, succeeded, Receipt, pass}
use project_baracks.Completion.Criteria.{default_criteria}
use project_baracks.Completion.Binding.{resolve_canonical_task_binding}
use project_baracks.Goals.Types.{no_task, PendingCompletion, SupervisorGoal, running, is_done}
use project_baracks.Goals.Receipt.{
  ok, err, provider_of, is_dispatched, binds_execution, find_run, is_review_run, is_reviewed_run,
  check_pending, check_review_run, check_reviewed_run, check_runs, check_receipt, contended,
}
use project_baracks.Goals.Authority.{is_frozen, binding_failure, candidate_failure}
use project_baracks.Goals.Grade.{
  Identity, World, GradeState, judged, settle, graded, claim_for_grade, source_identity_matches,
  apply_independent_completion_grade,
}
use project_baracks.Goals.Earned.{IsEarned, apply_independent_completion_grade-IsEarned}
use project_baracks.Goals.Recovery.{recovered, recover_supervisor_completion}
use project_baracks.Goals.Replayed.{recover_supervisor_completion-replays}
use project_baracks.Goals.Refused.{IsUndone, apply_independent_completion_grade-IsUndone}

abbrev run_of : (id : ℕ) → RunPurpose → Text → AgentRun
run_of id purpose session = record {
  id = id;
  task_id = 1;
  claim_id = none;
  claim_worker_id = none;
  provider_id = 5;
  model_id = none;
  model_ref = text "m";
  purpose = purpose;
  billing_mode = subscription_included;
  paid_usage_decision_id = none;
  independence_loss = none;
  source_head = some (text "abc");
  status = succeeded;
  session_ref = some session;
  started_at = some 1;
  ended_at = some 2;
}

abbrev receipt : Receipt
receipt = record {
  id = 60;
  project = text "p";
  goal_id = 7;
  run_id = 21;
  reviewed_run_id = some 20;
  review_session_ref = some (text "r");
  reviewed_session_ref = some (text "w");
  task_id = some 1;
  provider_id = some 5;
  provider_account_label = some (text "d");
  dispatch_id = 40;
  provider = claude;
  source_head = text "abc";
  source_tree_digest = some (text "tree");
  verdict = pass;
  evidence = text "read it";
  pending_claimed_at = 100;
  review_started_at = 110;
}

abbrev pending : PendingCompletion
pending = record {
  summary = text "done";
  claimed_at = 100;
  source_head = some (text "abc");
  source_tree_digest = some (text "tree");
  candidate =
      some (record {
        source_head = text "abc";
        source_tree_digest = text "tree";
        resolution = no_task;
      });
  reviewed_run = some (record { task_id = 1; run_id = 20; provider_id = 5 });
  review_dispatch = some (record {
    id = 40;
    provider = claude;
    provider_id = some 5;
    provider_account_label = some (text "d");
    task_id = some 1;
    run_id = some 21;
    started_at = 110;
  });
}

abbrev goal : SupervisorGoal
goal = record {
  id = 7;
  project = text "p";
  repo_path = text "/r";
  goal = text "g";
  autonomous = false;
  status = running;
  preferred_coordinator = claude;
  pinned_coordinator = none;
  cycle = 1;
  consecutive_failures = 0;
  created_at = 1;
  updated_at = 1;
  last_finished_at = none;
  last_summary = none;
  owner_gate = none;
  active_pid = none;
  next_run_at = none;
  last_session_ref = none;
  required_operations = none;
  admission_risk_assessment = none;
  candidate = none;
  retry_immediately = false;
  live_worker = none;
  last_ownership_reconciliation = none;
  pending_completion = some pending;
}

abbrev state : GradeState
state = record {
  goals = goal ∷ [];
  tables = record {
    projects = [];
    runs = run_of 20 implementation (text "w") ∷ run_of 21 review (text "r") ∷ [];
    verifications = [];
    evidence = [];
    findings = [];
    receipts = receipt ∷ [];
    decisions = [];
  };
  tasks = [];
  providers = record { id = 5; name = text "claude-code"; account_label = text "d" } ∷ [];
  commits = [];
}

abbrev identity : Option Identity
identity = some (record { source_head = text "abc"; source_tree_digest = text "tree" })

abbrev world : World
world = record {
  now = 200;
  fence = some (text "/r");
  identity = identity;
  identity_at_commit = identity;
  is_uncontended = true;
  is_uncontended_at_commit = true;
  resolve = λ t. t;
  read_criteria = λ t. some default_criteria;
}

-- Another writer comes in before the commit.
abbrev contended_world : World
contended_world = record world { is_uncontended_at_commit = false }

unfoldable after : World → GradeState
after w = (apply_independent_completion_grade w 7 60 state).0

abbrev finished : SupervisorGoal
finished = graded 200 pending receipt goal

accepts : apply_independent_completion_grade world 7 60 state ≡ (after world, ok finished)
unfolding after apply_independent_completion_grade claim_for_grade check_receipt check_pending
    check_runs check_review_run check_reviewed_run is_dispatched binds_execution find_run
    is_review_run is_reviewed_run provider_of judged settle source_identity_matches binding_failure
    is_frozen candidate_failure resolve_canonical_task_binding trim drop_end
accepts = refl

is_finished : is_done finished.status ≡ true
unfolding graded
is_finished = refl

apply_independent_completion_grade-IsEarned_example : IsEarned world state 7 60
apply_independent_completion_grade-IsEarned_example =
    apply_independent_completion_grade-IsEarned world 7 60 state (after world) finished accepts
      is_finished

refuses :
    apply_independent_completion_grade contended_world 7 60 state
    ≡ (after contended_world, err contended)
unfolding after apply_independent_completion_grade claim_for_grade check_receipt check_pending
    check_runs check_review_run check_reviewed_run is_dispatched binds_execution find_run
    is_review_run is_reviewed_run provider_of judged settle source_identity_matches binding_failure
    is_frozen candidate_failure resolve_canonical_task_binding trim drop_end
refuses = refl

apply_independent_completion_grade-IsUndone_example : IsUndone state 7 (after contended_world)
apply_independent_completion_grade-IsUndone_example =
    apply_independent_completion_grade-IsUndone contended_world 7 60 state (after contended_world)
      contended refuses

recover_supervisor_completion-replays_example :
    recover_supervisor_completion 7 (after world).commits state.goals
    ≡ ((after world).goals, recovered finished)
recover_supervisor_completion-replays_example =
    recover_supervisor_completion-replays world 7 60 state (after world) finished goal accepts refl
      refl tt
