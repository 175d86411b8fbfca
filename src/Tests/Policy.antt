-- ===== src/Tests/Policy.antt =====
-- The trust policies (src/supervisor/policy.ts) at concrete inputs.
use project_baracks.Prelude.{
  ◌≡◌, ◌⊎◌, inl, refl, text, trim, drop_end, true, false, none, some, List, [], ◌∷◌, any, Mem,
}
use project_baracks.Routing.Types.{implementation, review}
use project_baracks.Policy.Types.{
  assist, build, workshop, codex_host, pass, shadow, ProjectPolicy, AgentRun, succeeded, Database,
  World, ok,
}
use project_baracks.Policy.Store.{
  ConfigureInput, assert_execution_allowed, configure_project_policy, configured, may_promote,
  read_store, normalize_policy, limits_for, is_same_project, put_first, shadow_passed,
}
use project_baracks.Policy.Grades.{GradeInput, check_input, check_runs, find_run, runs_canonical}
use project_baracks.Policy.Runs.{PolicyOp, configure, grade, apply, run}
use project_baracks.Policy.Ladder.{Once, ShadowPassed, is_owner_approval, Earned, run-Earned}
use project_baracks.Policy.Execution.{allowed-trusted}
use project_baracks.Policy.Shadow.{
  shadow_passes_of, trailing_passes, shadow_results, is_accepted, run-shadow_passes,
}

abbrev world : World
world = record {
  resolve = λ path. path;
  git_common_dir = λ path. none;
  redact_text = λ t. t;
  workers = 3;
  now = 1000;
}

abbrev plan_run : AgentRun
plan_run = record {
  id = text "run-1";
  provider_name = text "claude-code";
  account_label = text "default";
  purpose = implementation;
  independence_loss = none;
  status = succeeded;
  source_head = none;
  task_id = text "task-1";
  session_ref = some (text "s1");
}

abbrev review_run : AgentRun
review_run = record plan_run {
  id = text "run-2";
  provider_name = text "codex";
  purpose = review;
  session_ref = some (text "s2");
}

abbrev db : Database
db = record { agent_runs = plan_run ∷ review_run ∷ []; review_receipts = [] }

abbrev passing : GradeInput
passing = record {
  project = text "major";
  repo_path = text "/major";
  provider = codex_host;
  result = pass;
  evidence = text "plan holds";
  provider_account_label = text "default";
  review_execution_id = text "run-2";
  reviewed_execution_id = text "run-1";
  reviewed_provider = none;
  independence_loss = none;
  kind = shadow;
  goal_id = none;
  review_receipt_id = none;
}

-- A review of its own execution, which is refused.
abbrev of_itself : GradeInput
of_itself = record passing { reviewed_execution_id = text "run-2" }

abbrev to_assist : ConfigureInput
to_assist = record {
  project = text "major";
  repo_path = text "/major";
  project_class = workshop;
  trust = assist;
  allow_external_writes = none;
  allow_paid_spend = none;
  owner_approved_build = none;
  parallel_workers = none;
}

abbrev by_owner : ConfigureInput
by_owner = record to_assist { trust = build; owner_approved_build = some true }

abbrev grades : List PolicyOp
grades =
    grade world db of_itself
    ∷ grade world db passing
    ∷ grade world db passing
    ∷ grade world db passing
    ∷ []

abbrev approval : List PolicyOp
approval = configure world by_owner ∷ configure world to_assist ∷ []

abbrev approved_policy : ProjectPolicy
approved_policy = record {
  project = text "major";
  repo_path = text "/major";
  project_class = workshop;
  trust = build;
  limits = record { max_workers = 3; max_run_minutes = 120; allow_background = false };
  allow_external_writes = false;
  allow_cross_project_memory = true;
  allow_paid_spend = false;
  owner_approved_build = true;
  parallel_workers = some false;
  shadow_runs = 0;
  shadow_passes = 0;
  updated_at = 1000;
  last_grade = none;
}

-- The promotion to `assist` is refused, the approval by the owner is not.
approval-run : run approval ≡ approved_policy ∷ []
unfolding run apply configure_project_policy configured may_promote read_store normalize_policy
    limits_for is_same_project put_first shadow_passed
approval-run = refl

in_file : Mem approved_policy (run approval)
in_file = rw approval-run (inl refl)

may_execute : assert_execution_allowed false approved_policy ≡ ok tt
unfolding assert_execution_allowed
may_execute = refl

allowed-trusted_example :
    (false ≡ false) × ((any is_owner_approval approval ≡ true) ⊎ Once ShadowPassed approval)
allowed-trusted_example = allowed-trusted approval approved_policy false in_file may_execute

run-Earned_example : Earned build approval
run-Earned_example = run-Earned approval approved_policy in_file

run-shadow_passes_example :
    shadow_passes_of (text "major") (run grades)
    ≡ trailing_passes (shadow_results (text "major") grades)
run-shadow_passes_example = run-shadow_passes (text "major") grades refl

-- Three of the four grades count.
three_passes : trailing_passes (shadow_results (text "major") grades) ≡ 3
unfolding trailing_passes shadow_results is_accepted check_input check_runs find_run runs_canonical
    trim drop_end
three_passes = refl
