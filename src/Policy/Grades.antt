-- ===== src/Policy/Grades.antt =====
-- The grades that src/supervisor/policy.ts records: the checks of the two runs and the receipt,
-- and the counters of the shadow runs.
use project_baracks.Prelude.{
  ℕ, zero, suc, ◌+◌, ◌==◌, Eq-ℕ, Eq-Text, option_eq, Text, text, trim, Bool, true, false, not, ◌&&◌,
  ◌||◌, Option, none, some, get_or, is_none, List, [], ◌∷◌, find, if◌then◌else◌,
}
use project_baracks.Routing.Types.{RunPurpose, implementation, repair, is_review}
use project_baracks.Policy.Types.{
  WorkerHost, claude, codex_host, cursor, antigravity, GradeResult, pass, fail, GradeKind, shadow,
  execution, is_execution, IndependentGrade, ProjectPolicy, is_succeeded, AgentRun, ReviewReceipt,
  Database, World, execution_ids_missing, account_missing, own_execution, independence_compromised,
  runs_not_canonical, receipt_not_bound, Result, ok, err,
}
use project_baracks.Policy.Store.{
  is_blank, is_blank_option, read_store, default_project_policy, put_first,
}

pub record GradeInput : Type 0 where
  pub project : Text
  pub repo_path : Text
  pub provider : WorkerHost
  pub result : GradeResult
  pub evidence : Text
  pub provider_account_label : Text
  pub review_execution_id : Text
  pub reviewed_execution_id : Text
  pub reviewed_provider : Option WorkerHost
  pub independence_loss : Option Text
  pub kind : GradeKind
  pub goal_id : Option Text
  pub review_receipt_id : Option Text

unfoldable pub check_input : GradeInput → Result Unit
check_input input =
    if is_blank input.review_execution_id || is_blank input.reviewed_execution_id
    then err execution_ids_missing
    else if is_blank input.provider_account_label
    then err account_missing
    else if input.review_execution_id == input.reviewed_execution_id
    then err own_execution
    else if not (is_blank_option input.independence_loss)
    then err (independence_compromised (get_or input.independence_loss []))
    else ok tt

-- The name under which a host's provider is registered.
abbrev provider_of_host : WorkerHost → Text
provider_of_host claude = text "claude-code"
provider_of_host codex_host = text "codex"
provider_of_host cursor = text "cursor"
provider_of_host antigravity = text "antigravity"

abbrev is_work : RunPurpose → Bool
is_work implementation = true
is_work repair = true
is_work _ = false

unfoldable pub runs_canonical : GradeInput → AgentRun → AgentRun → Bool
runs_canonical input review_run reviewed_run =
    is_succeeded review_run.status
    && is_succeeded reviewed_run.status
    && is_review review_run.purpose
    && is_work reviewed_run.purpose
    && is_none review_run.independence_loss
    && review_run.task_id == reviewed_run.task_id
    && option_eq review_run.source_head reviewed_run.source_head
    && review_run.provider_name == provider_of_host input.provider
    && review_run.account_label == input.provider_account_label
    && not (is_blank_option review_run.session_ref)
    && not (is_blank_option reviewed_run.session_ref)

-- `!receipt.sourceTreeDigest`, false on null and on an empty text.
abbrev has_digest : Option Text → Bool
has_digest none = false
has_digest (some []) = false
has_digest (some (c ∷ cs)) = true

unfoldable pub receipt_bound : GradeInput → AgentRun → AgentRun → ReviewReceipt → Bool
receipt_bound input review_run reviewed_run receipt =
    receipt.project == input.project
    && option_eq (some receipt.goal_id) input.goal_id
    && receipt.run_id == input.review_execution_id
    && option_eq receipt.reviewed_run_id (some input.reviewed_execution_id)
    && option_eq receipt.review_session_ref review_run.session_ref
    && option_eq receipt.reviewed_session_ref reviewed_run.session_ref
    && has_digest receipt.source_tree_digest
    && is_succeeded receipt.execution_status

-- `reviewReceiptId ? select : undefined`, where an empty id selects nothing.
unfoldable pub find_receipt : Database → Option Text → Option ReviewReceipt
find_receipt db none = none
find_receipt db (some []) = none
find_receipt db (some (c ∷ cs)) = find (λ receipt. receipt.id == c ∷ cs) db.review_receipts

unfoldable pub receipt_holds : Database → GradeInput → AgentRun → AgentRun → Bool
receipt_holds db input review_run reviewed_run = elim (find_receipt db input.review_receipt_id) [
  | none ↦ false
  | some receipt ↦ receipt_bound input review_run reviewed_run receipt
]

unfoldable pub find_run : Database → Text → Option AgentRun
find_run db id = find (λ run. run.id == id) db.agent_runs

unfoldable pub check_runs : Database → GradeInput → Result Unit
check_runs db input = elim (find_run db input.review_execution_id) [
  | none ↦ err runs_not_canonical
  | some review_run ↦ elim (find_run db input.reviewed_execution_id) [
    | none ↦ err runs_not_canonical
    | some reviewed_run ↦
        if not (runs_canonical input review_run reviewed_run)
        then err runs_not_canonical
        else if is_execution input.kind && not (receipt_holds db input review_run reviewed_run)
        then err receipt_not_bound
        else ok tt
  ]
]

-- `goalId ? { goalId } : {}`
abbrev pub non_empty : Option Text → Option Text
non_empty none = none
non_empty (some []) = none
non_empty (some (c ∷ cs)) = some (c ∷ cs)

abbrev take : ℕ → Text → Text
take zero t = []
take (suc n) [] = []
take (suc n) (c ∷ t) = c ∷ take n t

unfoldable pub new_grade : World → GradeInput → ProjectPolicy → IndependentGrade
new_grade w input current = record {
  provider = input.provider;
  provider_account_label = trim input.provider_account_label;
  review_execution_id = trim input.review_execution_id;
  reviewed_execution_id = trim input.reviewed_execution_id;
  reviewed_provider = input.reviewed_provider;
  result = input.result;
  evidence = take 12000 (w.redact_text input.evidence);
  at = w.now;
  goal_id = non_empty input.goal_id;
  kind = input.kind;
  trust_at_grade = current.trust;
}

abbrev pub next_shadow_passes : GradeResult → ℕ → ℕ
next_shadow_passes pass n = n + 1
next_shadow_passes fail n = 0

unfoldable pub graded : World → GradeInput → ProjectPolicy → ProjectPolicy
graded w input current =
    let next = record current {
      repo_path = w.resolve input.repo_path;
      last_grade = some (new_grade w input current);
      updated_at = w.now;
    } in
    elim input.kind [
      | execution ↦ next
      | shadow ↦ record next {
        shadow_runs = current.shadow_runs + 1;
        shadow_passes = next_shadow_passes input.result current.shadow_passes;
      }
    ]

unfoldable pub has_project : Text → ProjectPolicy → Bool
has_project project candidate = candidate.project == project

unfoldable pub current_policy : World → Text → Text → List ProjectPolicy → ProjectPolicy
current_policy w project repo_path store =
    get_or (find (has_project project) store) (default_project_policy w project repo_path)

unfoldable pub store_grade :
    World → Database → GradeInput → List ProjectPolicy → Result (ProjectPolicy × List ProjectPolicy)
store_grade w db input stored = elim (check_input input) [
  | err e ↦ err e
  | ok _ ↦ elim (check_runs db input) [
    | err e ↦ err e
    | ok _ ↦
        let store = read_store w stored in
        let next = graded w input (current_policy w input.project input.repo_path store) in
        ok (next, put_first (has_project input.project) next store)
  ]
]
