-- ===== src/Runs/Create.antt =====
-- The creation of a run in one immediate transaction (src/domain/run-service.ts, createRun), with
-- the triggers of src/drizzle/0009_paid_authority_boundary.sql that it relies on: the insert of a
-- paid run consumes its approval, and a free one carries none.
use project_baracks.Prelude.{
  ℕ, ◌==◌, ◌!=◌, Eq-ℕ, leb, Text, text, Eq-Text, Bool, true, false, not, ◌&&◌, Option, none, some,
  option_eq, is_some, is_none, List, [], ◌∷◌, ◌++◌, find, if◌then◌else◌,
}
use project_baracks.Routing.Types.{
  BillingMode, usage_credits, api_billing, billing_unknown, billing_eq, RunPurpose, analysis,
}
use project_baracks.Records.Types.{AgentRun, pending, purpose_eq, Decision}
use project_baracks.Queue.Types.{TaskRow, ClaimRow, is_active, update_where, changes}
use project_baracks.Queue.Tasks.{find_task, find_claim}
use project_baracks.Completion.Criteria.{is_sha, parse_completion_criteria}
use project_baracks.Runs.Decisions.{Expectation, get_decision, is_approved_decision}
use project_baracks.Runs.Types.{
  AgentModel, AgentProvider, Store, Reading, RunError, bad_source_head, task_not_found,
  criteria_invalid, head_required, billing_unproven, unroutable, billing_differs, model_differs,
  claim_is_stale, approval_required, not_authorised, free_with_approval, not_consumed, Result, ok,
  err, ◌>>=◌,
}

pub record NewRun : Type 0 where
  pub task_id : ℕ
  pub provider_id : ℕ
  pub claim_id : Option ℕ
  pub claim_worker_id : Option ℕ
  pub model_id : Option ℕ
  pub model_ref : Text
  pub purpose : RunPurpose
  pub billing_mode : BillingMode
  pub paid_usage_decision_id : Option ℕ
  pub independence_loss : Option Text
  pub source_head : Option Text

abbrev pub is_paid : BillingMode → Bool
is_paid usage_credits = true
is_paid api_billing = true
is_paid _ = false

abbrev is_unknown : BillingMode → Bool
is_unknown billing_unknown = true
is_unknown _ = false

abbrev guard : Bool → RunError → Result Unit
guard true e = ok tt
guard false e = err e

unfoldable pub check_head : Option Text → Result Unit
check_head none = ok tt
check_head (some head) = guard (is_sha head) bad_source_head

-- Every purpose but an analysis is bound to the candidate of a progressive contract.
unfoldable pub check_candidate : Reading → TaskRow → RunPurpose → Option Text → Result Unit
check_candidate reading task purpose head =
    if purpose_eq purpose analysis
    then ok tt
    else elim (parse_completion_criteria reading.criteria task.completion_criteria_snapshot_json) [
      | none ↦ err criteria_invalid
      | some c ↦ elim c.progressive_validation [
        | none ↦ ok tt
        | some p ↦ guard (option_eq head p.candidate_head) (head_required p.candidate_head)
      ]
    ]

unfoldable pub find_model : ℕ → Text → List AgentModel → Option AgentModel
find_model provider_id model_ref ms =
    find (λ m. m.provider_id == provider_id && m.model_ref == model_ref) ms

abbrev names_model : Option ℕ → AgentModel → Bool
names_model none m = true
names_model (some id) m = id == m.id

-- The cost basis is the model's, as it was observed.
unfoldable pub check_billing : NewRun → List AgentModel → Result Unit
check_billing input ms =
    if is_unknown input.billing_mode
    then err billing_unproven
    else elim (find_model input.provider_id input.model_ref ms) [
      | none ↦ err (unroutable input.model_ref)
      | some m ↦
          if is_unknown m.billing_mode
          then err (unroutable input.model_ref)
          else if not (billing_eq m.billing_mode input.billing_mode)
          then err (billing_differs input.billing_mode m.billing_mode)
          else guard (names_model input.model_id m) (model_differs m.id)
    ]

unfoldable pub holds_claim : ℕ → NewRun → ClaimRow → Bool
holds_claim now input c =
    c.task_id == input.task_id
    && is_active c.status
    && not (leb c.lease_expires_at now)
    && option_eq (some c.worker_id) input.claim_worker_id

unfoldable pub check_claim : ℕ → NewRun → Store → Result Unit
check_claim now input s = elim input.claim_id [
  | none ↦ ok tt
  | some id ↦ elim (find_claim s.queue id) [
    | none ↦ err (claim_is_stale id)
    | some c ↦ guard (holds_claim now input c) (claim_is_stale id)
  ]
]

unfoldable pub provider_name : ℕ → List AgentProvider → Text
provider_name id ps = elim (find (λ p. p.id == id) ps) [ none ↦ [] | some p ↦ p.name ]

abbrev pub paid_usage : Text
paid_usage = text "paid_usage"

-- What a decision has to be to authorise this run.
unfoldable pub paid_expectation : ℕ → NewRun → TaskRow → Store → Expectation
paid_expectation now input task s = record {
  category = paid_usage;
  task_id = some input.task_id;
  project_id = some task.project_id;
  scope = some (record {
    provider = some (provider_name input.provider_id s.providers);
    model_ref = some input.model_ref;
    purpose = some input.purpose;
    action_digest = none;
  });
  require_expiry = true;
  require_unconsumed = true;
  now = now;
}

unfoldable pub check_approval : Reading → ℕ → NewRun → TaskRow → Store → Result Unit
check_approval reading now input task s =
    if not (is_paid input.billing_mode) then ok tt else elim input.paid_usage_decision_id [
      | none ↦ err approval_required
      | some id ↦
          guard
            (is_approved_decision reading.scope id (paid_expectation now input task s)
              s.tables.decisions)
            (not_authorised id)
    ]

unfoldable pub new_run : ℕ → NewRun → AgentRun
new_run id input = record {
  id = id;
  task_id = input.task_id;
  claim_id = input.claim_id;
  claim_worker_id = input.claim_worker_id;
  provider_id = input.provider_id;
  model_id = input.model_id;
  model_ref = input.model_ref;
  purpose = input.purpose;
  billing_mode = input.billing_mode;
  paid_usage_decision_id = input.paid_usage_decision_id;
  independence_loss = input.independence_loss;
  source_head = input.source_head;
  status = pending;
  session_ref = none;
  started_at = none;
  ended_at = none;
}

abbrev pub is_consumable : ℕ → Decision → Bool
is_consumable id d = d.id == id && is_none d.consumed_by_run_id

abbrev pub stamped : ℕ → Decision → Decision
stamped run_id d = record d { consumed_by_run_id = some run_id }

-- `agent_runs_consume_paid_decision`
unfoldable pub consume : AgentRun → List Decision → Result (List Decision)
consume run ds = if not (is_paid run.billing_mode) then ok ds else elim run.paid_usage_decision_id [
  | none ↦ err approval_required
  | some id ↦
      if changes (is_consumable id) ds != 1
      then err (not_consumed id)
      else ok (update_where (is_consumable id) (stamped run.id) ds)
]

unfoldable pub insert_run : AgentRun → Store → Result Store
insert_run run s =
    if not (is_paid run.billing_mode) && is_some run.paid_usage_decision_id
    then err free_with_approval
    else do
      decisions ← consume run s.tables.decisions
      ok (record s {
        tables = record s.tables { runs = s.tables.runs ++ run ∷ []; decisions = decisions };
      })

-- The service reads the decision back and wants the stamp of this run on it.
unfoldable pub check_consumed : AgentRun → Store → Result Unit
check_consumed run s = elim run.paid_usage_decision_id [
  | none ↦ ok tt
  | some id ↦
      if not (is_paid run.billing_mode) then ok tt else elim (get_decision id s.tables.decisions) [
        | none ↦ err (not_consumed id)
        | some d ↦ guard (option_eq d.consumed_by_run_id (some run.id)) (not_consumed id)
      ]
]

unfoldable pub known_task : ℕ → Store → Result TaskRow
known_task task_id s = elim (find_task s.queue task_id) [
  | none ↦ err (task_not_found task_id)
  | some task ↦ ok task
]

-- `id` is the new run's.
unfoldable pub create_run : Reading → (now id : ℕ) → NewRun → Store → Result (AgentRun × Store)
create_run reading now id input s = do
  _ ← check_head input.source_head
  task ← known_task input.task_id s
  _ ← check_candidate reading task input.purpose input.source_head
  _ ← check_billing input s.models
  _ ← check_claim now input s
  _ ← check_approval reading now input task s
  next ← insert_run (new_run id input) s
  _ ← check_consumed (new_run id input) next
  ok (new_run id input, next)
