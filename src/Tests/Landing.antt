-- ===== src/Tests/Landing.antt =====
-- A landing of the merge queue (src/supervisor/parallel-dispatch.ts) at concrete inputs.
use project_baracks.Prelude.{String, ◌≡◌, refl, Text, text, true, none, some, [], ◌∷◌}
use project_baracks.Routing.Types.{subscription_included}
use project_baracks.Lifecycle.Machine.{running, transitions, validate_transition}
use project_baracks.Queue.Types.{TaskRow, ClaimRow, active}
use project_baracks.Queue.Tasks.{
  ClaimFence, find_task, find_claim, get_task, apply_transition, assert_live_claim, is_live,
  completion_guard, assert_transition, guards_of, commit_transition, patched, is_unchanged,
}
use project_baracks.Completion.Criteria.{
  default_criteria, parse_completion_criteria, criteria_hold, progressive_holds, trimmed, is_sha,
}
use project_baracks.Completion.Legacy.{IsLinked}
use project_baracks.Completion.Proof.{Failure, is_clear, open_blocking_findings, proof_failures}
use project_baracks.Completion.Transition.{env_of}
use project_baracks.Runs.Types.{Store, Reading, Result, ok, err}
use project_baracks.Runs.Create.{
  check_head, check_candidate, find_model, check_billing, holds_claim, check_claim, check_approval,
  new_run, consume, insert_run, check_consumed, known_task, create_run,
}
use project_baracks.Runs.Records.{
  get_run, with_status, set_run_status, new_verification, record_verification_run, add_evidence,
}
use project_baracks.Dispatch.Landing.{Provenance, Check, landed_run, record_checks, record_landing}
use project_baracks.Dispatch.Landed.{record_landing-proven}

abbrev task : TaskRow
task = record {
  id = 1;
  project_id = 9;
  status = running;
  version = 4;
  created_at = 10;
  paths = none;
  completion_criteria_json = none;
  completion_criteria_snapshot_json = none;
  completion_criteria_locked_at = none;
  mutation_claim_id = none;
  mutation_worker_id = none;
}

abbrev claim : ClaimRow
claim = record {
  id = 3;
  task_id = 1;
  worker_id = 8;
  attempt = 1;
  status = active;
  lease_expires_at = 500;
  heartbeat_at = 20;
  outcome_reason = none;
}

abbrev store : Store
store = record {
  queue = record { tasks = task ∷ []; claims = claim ∷ []; dependencies = [] };
  tables = record {
    projects = [];
    runs = [];
    verifications = [];
    evidence = [];
    findings = [];
    receipts = [];
    decisions = [];
  };
  models =
      record { id = 6; provider_id = 5; model_ref = text "m"; billing_mode = subscription_included }
      ∷ [];
  providers = record { id = 5; name = text "p"; account_label = text "d" } ∷ [];
}

abbrev reading : Reading
reading = record { criteria = λ t. some default_criteria; scope = λ t. none }

abbrev provenance : Provenance
provenance = record {
  provider_id = 5;
  model_id = 6;
  model_ref = text "m";
  billing_mode = subscription_included;
}

abbrev fence : ClaimFence
fence = record { claim_id = 3; worker_id = 8 }

abbrev head : Text
head = text "0123456789abcdef0123456789abcdef01234567"

abbrev check : Check
check = record { verification_id = text "v"; evidence_id = 40 }

abbrev wording : Failure → String
wording f = "f"

abbrev store_or : Store → Result Store → Store
store_or s (ok after) = after
store_or s (err e) = s

unfoldable after : Store
after =
    store_or store
      (record_landing wording reading 50 100 provenance 1 fence head (text "s") (check ∷ []) store)

lands :
    record_landing wording reading 50 100 provenance 1 fence head (text "s") (check ∷ []) store
    ≡ ok after
unfolding after record_landing landed_run create_run check_head is_sha known_task find_task
    check_candidate parse_completion_criteria criteria_hold progressive_holds trimmed check_billing
    find_model check_claim holds_claim find_claim check_approval new_run insert_run consume
    check_consumed set_run_status with_status get_run record_checks record_verification_run
    new_verification add_evidence env_of apply_transition assert_live_claim is_live get_task
    completion_guard assert_transition validate_transition transitions guards_of commit_transition
    patched is_unchanged
lands = refl

record_landing-proven_example :
    is_clear (proof_failures after.tables after.queue.tasks 1 default_criteria true) ≡ true
record_landing-proven_example =
    record_landing-proven wording reading 50 100 provenance 1 fence head (text "s") check [] store
      after lands (unfold open_blocking_findings in refl)
      (unfold IsLinked in λ e h own kind. absurd h)
