-- ===== src/Tests/Completion.antt =====
-- The completion proof (src/domain/completion.ts) at concrete inputs.
use project_baracks.Prelude.{◌≡◌, refl, Text, text, String, true, Option, none, some, [], ◌∷◌}
use project_baracks.Routing.Types.{implementation, subscription_included}
use project_baracks.Lifecycle.Machine.{ready_to_merge, completed}
use project_baracks.Records.Types.{
  succeeded, Project, AgentRun, passed, VerificationRun, verification_run, Evidence, Tables,
}
use project_baracks.Queue.Types.{TaskRow, Db}
use project_baracks.Completion.Criteria.{
  CompletionCriteria, default_criteria, parse_completion_criteria, criteria_hold, progressive_holds,
  trimmed,
}
use project_baracks.Completion.Verified.{
  cites, distinct, effective_verifications, join_all, joined, produced_by, qualifying_verifications,
  verification_holds,
}
use project_baracks.Completion.Proof.{
  Failure, contract_failures, decision_failures, evidence_failures, is_clear,
  open_blocking_findings, proof_failures,
}
use project_baracks.Completion.Binding.{
  CanonicalTaskBinding, bound, is_at, is_candidate, bind, resolve_canonical_task_binding,
  is_promotable, task_with_project, promotion_failures,
}
use project_baracks.Completion.Promotable.{IsCanonical, resolve_canonical_task_binding-IsCanonical}
use project_baracks.Completion.Provenance.{promotion_failures-of_clear}

abbrev task : TaskRow
task = record {
  id = 1;
  project_id = 9;
  status = ready_to_merge;
  version = 4;
  created_at = 10;
  paths = none;
  completion_criteria_json = none;
  completion_criteria_snapshot_json = some (text "x");
  completion_criteria_locked_at = some 11;
  mutation_claim_id = none;
  mutation_worker_id = none;
}

abbrev db : Db
db = record { tasks = task ∷ []; claims = []; dependencies = [] }

abbrev made : AgentRun
made = record {
  id = 20;
  task_id = 1;
  claim_id = none;
  claim_worker_id = none;
  provider_id = 5;
  model_id = none;
  model_ref = text "m";
  purpose = implementation;
  billing_mode = subscription_included;
  paid_usage_decision_id = none;
  independence_loss = none;
  source_head = none;
  status = succeeded;
  session_ref = none;
  started_at = none;
  ended_at = none;
}

abbrev shown : VerificationRun
shown = record {
  id = text "v1";
  task_id = 1;
  agent_run_id = some 20;
  status = passed;
  exit_code = some 0;
  validation_subject = none;
  started_at = some 30;
  ended_at = some 31;
}

abbrev cited : Evidence
cited = record {
  id = 40;
  task_id = 1;
  agent_run_id = some 20;
  kind = verification_run;
  ref = some (text "v1");
}

abbrev project : Project
project = record { id = 9; repo_path = text "/r" }

abbrev tables : Tables
tables = record {
  projects = project ∷ [];
  runs = made ∷ [];
  verifications = shown ∷ [];
  evidence = cited ∷ [];
  findings = [];
  receipts = [];
  decisions = [];
}

abbrev read : Text → Option CompletionCriteria
read json = some default_criteria

abbrev wording : Failure → String
wording f = "failure"

abbrev done : TaskRow
done = record task { status = completed; version = 5 }

abbrev binding : CanonicalTaskBinding
binding = record {
  task_id = 1;
  project_id = 9;
  repo_path = text "/r";
  frozen_criteria_json = text "x";
}

abbrev same_path : Text → Text
same_path t = t

binds :
    resolve_canonical_task_binding same_path tables.projects db.tasks (text "/r") ≡ bound binding
unfolding resolve_canonical_task_binding is_at is_candidate bind
binds = refl

resolve_canonical_task_binding-IsCanonical_example :
    IsCanonical same_path tables.projects db.tasks (text "/r") binding
resolve_canonical_task_binding-IsCanonical_example =
    resolve_canonical_task_binding-IsCanonical same_path tables.projects db.tasks (text "/r")
      binding binds

joins : task_with_project tables.projects db.tasks 1 ≡ some (task, project)
unfolding task_with_project
joins = refl

parses : parse_completion_criteria read (some (text "x")) ≡ some default_criteria
unfolding parse_completion_criteria criteria_hold progressive_holds trimmed
parses = refl

clears : is_clear (proof_failures tables db.tasks 1 default_criteria true) ≡ true
unfolding proof_failures qualifying_verifications verification_holds joined join_all distinct
    produced_by cites effective_verifications contract_failures open_blocking_findings
    evidence_failures decision_failures
clears = refl

promotion_failures-of_clear_example :
    is_promotable (promotion_failures read same_path tables db.tasks 1 (text "/r")) ≡ true
promotion_failures-of_clear_example =
    promotion_failures-of_clear read same_path tables db.tasks task project (text "/r")
      default_criteria (text "x") joins refl refl refl parses clears
