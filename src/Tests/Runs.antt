-- ===== src/Tests/Runs.antt =====
-- Runs, approvals and events (src/domain/run-service.ts, src/domain/decision-service.ts) at concrete
-- inputs.
use project_baracks.Prelude.{ℕ, ◌≡◌, ◌≢◌, refl, inl, text, none, some, List, [], ◌∷◌, Mem}
use project_baracks.Routing.Types.{implementation, api_billing}
use project_baracks.Lifecycle.Machine.{running}
use project_baracks.Records.Types.{AgentRun, Decision, approved, pending}
use project_baracks.Queue.Types.{TaskRow}
use project_baracks.Queue.Tasks.{find_task}
use project_baracks.Completion.Criteria.{
  default_criteria, parse_completion_criteria, criteria_hold, progressive_holds, trimmed,
}
use project_baracks.Runs.Decisions.{
  get_decision, is_approved_decision, authorises, scope_matches, is_bounded,
}
use project_baracks.Runs.Types.{AgentModel, Store, Reading, ok}
use project_baracks.Runs.Create.{
  NewRun, check_head, check_candidate, find_model, check_billing, check_claim, provider_name,
  paid_usage, paid_expectation, check_approval, new_run, consume, insert_run, check_consumed,
  known_task, create_run,
}
use project_baracks.Runs.Authority.{IsAuthority, create_run-IsAuthority}
use project_baracks.Runs.Steps.{RunOp, create, apply, run}
use project_baracks.Runs.Stamps.{stamp_of}
use project_baracks.Runs.Paid.{run-paid_once}
use project_baracks.Runs.Events.{Redaction, last_seq, duplicate, conflicting}
use project_baracks.Runs.History.{
  Append, appended, append_all, seqs, count_up, event_of, append_all-seqs,
  append_run_event-redelivered,
}

abbrev task : TaskRow
task = record {
  id = 1;
  project_id = 9;
  status = running;
  version = 4;
  created_at = 10;
  paths = none;
  completion_criteria_json = none;
  completion_criteria_snapshot_json = none;
  completion_criteria_locked_at = none;
  mutation_claim_id = none;
  mutation_worker_id = none;
}

abbrev approval : Decision
approval = record {
  id = 70;
  project_id = some 9;
  task_id = some 1;
  category = paid_usage;
  context_json = some (text "s");
  status = approved;
  resolution = none;
  resolved_at = some 20;
  expires_at = some 500;
  consumed_by_run_id = none;
  created_at = 15;
}

abbrev model : AgentModel
model = record { id = 6; provider_id = 5; model_ref = text "m"; billing_mode = api_billing }

abbrev store : Store
store = record {
  queue = record { tasks = task ∷ []; claims = []; dependencies = [] };
  tables = record {
    projects = [];
    runs = [];
    verifications = [];
    evidence = [];
    findings = [];
    receipts = [];
    decisions = approval ∷ [];
  };
  models = model ∷ [];
  providers = record { id = 5; name = text "p"; account_label = text "d" } ∷ [];
}

abbrev reading : Reading
reading = record {
  criteria = λ t. some default_criteria;
  scope = λ t. some (record {
    provider = some (text "p");
    model_ref = some (text "m");
    purpose = some implementation;
    action_digest = none;
  });
}

abbrev paid : NewRun
paid = record {
  task_id = 1;
  provider_id = 5;
  claim_id = none;
  claim_worker_id = none;
  model_id = none;
  model_ref = text "m";
  purpose = implementation;
  billing_mode = api_billing;
  paid_usage_decision_id = some 70;
  independence_loss = none;
  source_head = none;
}

abbrev created : AgentRun
created = record {
  id = 100;
  task_id = 1;
  claim_id = none;
  claim_worker_id = none;
  provider_id = 5;
  model_id = none;
  model_ref = text "m";
  purpose = implementation;
  billing_mode = api_billing;
  paid_usage_decision_id = some 70;
  independence_loss = none;
  source_head = none;
  status = pending;
  session_ref = none;
  started_at = none;
  ended_at = none;
}

abbrev after : Store
after = record store {
  tables = record store.tables {
    runs = created ∷ [];
    decisions = record approval { consumed_by_run_id = some 100 } ∷ [];
  };
}

creates : create_run reading 50 100 paid store ≡ ok (created, after)
unfolding create_run check_head known_task find_task check_candidate parse_completion_criteria
    criteria_hold progressive_holds trimmed check_billing find_model check_claim check_approval
    is_approved_decision get_decision authorises scope_matches is_bounded paid_expectation
    provider_name new_run insert_run consume check_consumed
creates = refl

create_run-IsAuthority_example :
    (t : TaskRow) × (decision_id : ℕ) × (d : Decision) × (find_task store.queue 1 ≡ some t)
    × (some 70 ≡ some decision_id)
    × (get_decision decision_id store.tables.decisions ≡ some d)
    × IsAuthority reading 50 paid t store d
create_run-IsAuthority_example =
    create_run-IsAuthority reading 50 100 paid store (created, after) creates refl

abbrev twice : List RunOp
twice = create 50 100 paid ∷ create 60 101 paid ∷ []

stays : run reading twice store ≡ after
unfolding run apply create_run check_head known_task find_task check_candidate
    parse_completion_criteria criteria_hold progressive_holds trimmed check_billing find_model
    check_claim check_approval is_approved_decision get_decision authorises scope_matches is_bounded
    paid_expectation provider_name new_run insert_run consume check_consumed
stays = refl

inside : Mem created (run reading twice store).tables.runs
inside = rw stays (inl refl)

run-paid_once_example :
    ◌≡◌ {A = ℕ} 100 100
    × (stamp_of (get_decision 70 (run reading twice store).tables.decisions) ≡ some 100)
run-paid_once_example =
    run-paid_once reading twice store created created 70 refl inside inside refl refl refl refl

abbrev redaction : Redaction
redaction = record { redact = λ t. t; digest = λ kind payload. payload }

abbrev first_event : Append
first_event = record {
  id = 1;
  run_id = 100;
  event_type = text "log";
  payload = text "a";
  event_key = some (text "k");
}

abbrev other_event : Append
other_event = record {
  id = 2;
  run_id = 101;
  event_type = text "log";
  payload = text "b";
  event_key = none;
}

append_all-seqs_example :
    seqs 100 (append_all redaction (first_event ∷ other_event ∷ []) [])
    ≡ count_up (last_seq 100 (append_all redaction (first_event ∷ other_event ∷ []) []))
append_all-seqs_example = append_all-seqs redaction (first_event ∷ other_event ∷ []) 100

abbrev again : Append
again = record first_event { id = 3 }

append_run_event-redelivered_example :
    let later = append_all redaction (other_event ∷ []) (appended redaction first_event []).0 in
    (text "log" ≡ text "log"
      → text "a" ≡ text "a"
      → appended redaction again later ≡ (later, duplicate (event_of redaction first_event [])))
    × (text "a" ≢ text "a" → appended redaction again later ≡ (later, conflicting (text "k")))
append_run_event-redelivered_example =
    append_run_event-redelivered redaction first_event again (other_event ∷ []) [] (text "k") refl
      refl refl refl
