-- ===== src/Runs/Decisions.antt =====
-- Decision requests (src/domain/decision-service.ts) and the ledger of consumed approvals.
use project_baracks.Prelude.{
  ℕ, ◌==◌, ◌!=◌, Eq-ℕ, leb, Text, Eq-Text, Bool, true, false, not, ◌&&◌, ◌||◌, Option, none, some,
  option_eq, is_some, is_none, List, [], ◌∷◌, ◌++◌, keep, any, find, if◌then◌else◌,
}
use project_baracks.Routing.Types.{RunPurpose}
use project_baracks.Records.Types.{
  Decision, DecisionStatus, open_decision, approved, rejected, expired, is_approved,
  is_open_decision, DecisionScope, purpose_eq,
}
use project_baracks.Queue.Types.{update_where, changes}

pub record NewDecision : Type 0 where
  pub category : Text
  pub project_id : Option ℕ
  pub task_id : Option ℕ
  pub context_json : Option Text
  pub expires_at : Option ℕ

unfoldable pub create_decision_request : (id now : ℕ) → NewDecision → List Decision → List Decision
create_decision_request id now input ds =
    ds
    ++ record {
      id = id;
      project_id = input.project_id;
      task_id = input.task_id;
      category = input.category;
      context_json = input.context_json;
      status = open_decision;
      resolution = none;
      resolved_at = none;
      expires_at = input.expires_at;
      consumed_by_run_id = none;
      created_at = now;
    }
      ∷ []

unfoldable pub get_decision : ℕ → List Decision → Option Decision
get_decision id ds = find (λ d. d.id == id) ds

abbrev is_past : ℕ → Option ℕ → Bool
is_past now none = false
is_past now (some at) = leb at now

unfoldable pub is_stale : ℕ → Decision → Bool
is_stale now d = is_open_decision d.status && is_past now d.expires_at

abbrev pub expired_decision : ℕ → Decision → Decision
expired_decision now d = record d { status = expired; resolved_at = some now }

-- The table, and how many decisions have expired.
unfoldable pub expire_stale_decisions : ℕ → List Decision → List Decision × ℕ
expire_stale_decisions now ds =
    (update_where (is_stale now) (expired_decision now) ds, changes (is_stale now) ds)

unfoldable insert_newest : Decision → List Decision → List Decision
insert_newest d [] = d ∷ []
insert_newest d (e ∷ es) =
    let rest = insert_newest d es in if leb e.created_at d.created_at then d ∷ e ∷ es else e ∷ rest

unfoldable newest_first : List Decision → List Decision
newest_first [] = []
newest_first (d ∷ ds) = insert_newest d (newest_first ds)

unfoldable list_decisions : (everything : Bool) → ℕ → List Decision → List Decision × List Decision
list_decisions everything now ds =
    let swept = (expire_stale_decisions now ds).0 in
    (
      swept,
      newest_first
          (if everything then swept else keep (λ (d : Decision). is_open_decision d.status) swept),
    )

-- What an owner decides.
pub data Resolution : Type 0 where
  approve reject : Resolution

abbrev status_of : Resolution → DecisionStatus
status_of approve = approved
status_of reject = rejected

abbrev pub is_open_at : ℕ → Decision → Bool
is_open_at id d = d.id == id && is_open_decision d.status

abbrev pub resolved_decision : Resolution → Option Text → ℕ → Decision → Decision
resolved_decision outcome note now d = record d {
  status = status_of outcome;
  resolution = note;
  resolved_at = some now;
}

-- `none` where the decision is not open.
unfoldable pub resolve_decision :
    ℕ → Resolution → Option Text → ℕ → List Decision → Option (List Decision)
resolve_decision id outcome note now ds =
    if changes (is_open_at id) ds != 1
    then none
    else some (update_where (is_open_at id) (resolved_decision outcome note now) ds)

pub record Expectation : Type 0 where
  pub category : Text
  pub task_id : Option ℕ
  pub project_id : Option ℕ
  pub scope : Option DecisionScope
  pub require_expiry : Bool
  pub require_unconsumed : Bool
  pub now : ℕ

abbrev expects : Option ℕ → Option ℕ → Bool
expects none found = true
expects (some wanted) found = option_eq found (some wanted)

abbrev declares : Option Text → Option Text → Bool
declares none found = true
declares (some wanted) found = option_eq found (some wanted)

abbrev pub declares_purpose : Option RunPurpose → Option RunPurpose → Bool
declares_purpose none found = true
declares_purpose (some wanted) none = false
declares_purpose (some wanted) (some found) = purpose_eq found wanted

unfoldable pub is_bounded : DecisionScope → Bool
is_bounded s = is_some s.provider || is_some s.model_ref || is_some s.purpose

unfoldable pub scope_matches : (wanted declared : DecisionScope) → Bool
scope_matches wanted declared =
    declares wanted.provider declared.provider
    && declares wanted.model_ref declared.model_ref
    && declares_purpose wanted.purpose declared.purpose
    && declares wanted.action_digest declared.action_digest

-- The scope that the context declares: `read_scope` is `JSON.parse` and the field `scope`.
abbrev pub declared_scope : (Text → Option DecisionScope) → Option Text → Option DecisionScope
declared_scope read_scope none = none
declared_scope read_scope (some []) = none
declared_scope read_scope (some (c ∷ cs)) = read_scope (c ∷ cs)

abbrev pub scope_holds : (Text → Option DecisionScope) → Option DecisionScope → Option Text → Bool
scope_holds read_scope none context = true
scope_holds read_scope (some wanted) context =
    is_bounded wanted && elim (declared_scope read_scope context) [
      | none ↦ false
      | some declared ↦ scope_matches wanted declared
    ]

unfoldable pub authorises : (Text → Option DecisionScope) → Expectation → Decision → Bool
authorises read_scope expect d =
    is_approved d.status
    && d.category == expect.category
    && expects expect.task_id d.task_id
    && expects expect.project_id d.project_id
    && (not expect.require_unconsumed || is_none d.consumed_by_run_id)
    && (not expect.require_expiry || is_some d.expires_at)
    && not (is_past expect.now d.expires_at)
    && scope_holds read_scope expect.scope d.context_json

unfoldable pub is_approved_decision :
    (Text → Option DecisionScope) → ℕ → Expectation → List Decision → Bool
is_approved_decision read_scope id expect ds = elim (get_decision id ds) [
  | none ↦ false
  | some d ↦ authorises read_scope expect d
]

-- A row of provider_action_consumptions: its decision and its consumer are unique.
pub record Consumption : Type 0 where
  pub decision_id : ℕ
  pub consumer_id : ℕ

unfoldable consume_approved_decision :
    (decision_id consumer_id : ℕ) → List Decision → List Consumption → List Consumption × Bool
consume_approved_decision decision_id consumer_id ds cs =
    if any (λ c. c.decision_id == decision_id || c.consumer_id == consumer_id) cs
      || is_none (get_decision decision_id ds)
    then (cs, false)
    else (cs ++ record { decision_id = decision_id; consumer_id = consumer_id } ∷ [], true)
