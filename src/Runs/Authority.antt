-- ===== src/Runs/Authority.antt =====
-- What a paid run that is created was authorised by (src/domain/run-service.ts, createRun).
use project_baracks.Prelude.{
  ◌<◌, ◌≡◌, ◌≢◌, ap, ◌∙◌, subst, inl, inr, arith, ℕ, Eq-ℕ, Eq-Text, text_eq_iff, true, Option, none,
  some, option_eq_iff, Option-cases,
}
use project_baracks.Routing.Types.{billing_eq_iff, billing_unknown, RunPurpose}
use project_baracks.Records.Types.{AgentRun, Decision, approved, DecisionScope, purpose_eq_iff}
use project_baracks.Queue.Types.{TaskRow}
use project_baracks.Queue.Tasks.{find_task}
use project_baracks.Runs.Decisions.{
  declares_purpose, get_decision, authorises, is_approved_decision, scope_matches, scope_holds,
  declared_scope, is_bounded,
}
use project_baracks.Runs.Types.{AgentModel, Store, Reading, ok, bind-ok}
use project_baracks.Runs.Create.{
  NewRun, is_paid, paid_usage, check_head, check_candidate, check_billing, check_claim,
  check_approval, paid_expectation, provider_name, new_run, insert_run, check_consumed, create_run,
  find_model, known_task,
}

known_task-found :
    (task_id : ℕ) (s : Store) (task : TaskRow)
    → known_task task_id s ≡ ok task
    → find_task s.queue task_id ≡ some task
unfolding known_task
known_task-found task_id s task h = elim (Option-cases (find_task s.queue task_id)) [
  | inl e ↦ absurd (ground (arith, e))
  | inr (found, e) ↦ ground (arith, e)
]

-- The steps of a creation that commits.
pub create_run-steps :
    (reading : Reading) (now id : ℕ) (input : NewRun) (s : Store) (out : AgentRun × Store)
    → create_run reading now id input s ≡ ok out
    → (task : TaskRow) × (find_task s.queue input.task_id ≡ some task)
      × (check_billing input s.models ≡ ok tt)
      × (check_claim now input s ≡ ok tt)
      × (check_approval reading now input task s ≡ ok tt)
      × (insert_run (new_run id input) s ≡ ok out.1)
      × (check_consumed (new_run id input) out.1 ≡ ok tt)
      × (out.0 ≡ new_run id input)
unfolding create_run
create_run-steps reading now id input s out h =
    let (_, _, h1) = bind-ok (check_head input.source_head) h in
    let (task, e, h2) = bind-ok (known_task input.task_id s) h1 in
    let (_, _, h3) = bind-ok (check_candidate reading task input.purpose input.source_head) h2 in
    let (_, billing, h4) = bind-ok (check_billing input s.models) h3 in
    let (_, claim, h5) = bind-ok (check_claim now input s) h4 in
    let (_, approval, h6) = bind-ok (check_approval reading now input task s) h5 in
    let (next, inserted, h7) = bind-ok (insert_run (new_run id input) s) h6 in
    let (_, consumed, h8) = bind-ok (check_consumed (new_run id input) next) h7 in
    let same : next ≡ out.1 = ground (arith, h8) in
    (
      task,
      known_task-found input.task_id s task e,
      billing,
      claim,
      approval,
      inserted ∙ ap ok same,
      subst (λ t. check_consumed (new_run id input) t ≡ ok tt) same consumed,
      ground (arith, h8),
    )

-- The scope of a decision names the provider, the model and the purpose of the run.
unfoldable pub Covers : Reading → Store → NewRun → Decision → Type 0
Covers reading s input d =
    (scope : DecisionScope) × (declared_scope reading.scope d.context_json ≡ some scope)
    × (scope.provider ≡ some (provider_name input.provider_id s.providers))
    × (scope.model_ref ≡ some input.model_ref)
    × (scope.purpose ≡ some input.purpose)

purpose_declared :
    (wanted : RunPurpose) (found : Option RunPurpose)
    → declares_purpose (some wanted) found ≡ true
    → found ≡ some wanted
purpose_declared wanted none h = absurd (ground arith)
purpose_declared wanted (some found) h = ap some ((purpose_eq_iff found wanted).0 h)

scope-Covers :
    (reading : Reading) (now : ℕ) (input : NewRun) (task : TaskRow) (s : Store) (d : Decision)
    → scope_holds reading.scope (paid_expectation now input task s).scope d.context_json ≡ true
    → Covers reading s input d
unfolding paid_expectation scope_matches is_bounded Covers
scope-Covers reading now input task s d h =
    elim (Option-cases (declared_scope reading.scope d.context_json)) [
      | inl e ↦ absurd (ground (arith, e))
      | inr (scope, e) ↦ (
        scope,
        e,
        ground (
          arith,
          e,
          option_eq_iff scope.provider (some (provider_name input.provider_id s.providers)),
        ),
        ground (arith, e, option_eq_iff scope.model_ref (some input.model_ref)),
        purpose_declared input.purpose scope.purpose (ground (arith, e)),
      )
    ]

-- A decision that authorises a run: approved for paid usage of this task in its project, not past
-- its expiry, not consumed, and with a scope that covers the run.
unfoldable pub IsAuthority : Reading → ℕ → NewRun → TaskRow → Store → Decision → Type 0
IsAuthority reading now input task s d =
    (d.status ≡ approved)
    × (d.category ≡ paid_usage)
    × (d.task_id ≡ some input.task_id)
    × (d.project_id ≡ some task.project_id)
    × (d.consumed_by_run_id ≡ none)
    × ((at : ℕ) × (d.expires_at ≡ some at) × (now < at))
    × Covers reading s input d

authorises-IsAuthority :
    (reading : Reading) (now : ℕ) (input : NewRun) (task : TaskRow) (s : Store) (d : Decision)
    → authorises reading.scope (paid_expectation now input task s) d ≡ true
    → IsAuthority reading now input task s d
unfolding authorises paid_expectation IsAuthority
authorises-IsAuthority reading now input task s d h = elim (Option-cases d.expires_at) [
  | inl e ↦ absurd (ground (arith, e))
  | inr (at, e) ↦ (
    ground (arith, e),
    (text_eq_iff d.category paid_usage).0 (ground (arith, e)),
    (option_eq_iff d.task_id (some input.task_id)).0 (ground (arith, e)),
    (option_eq_iff d.project_id (some task.project_id)).0 (ground (arith, e)),
    ground (arith, e),
    (at, e, ground (arith, e)),
    scope-Covers reading now input task s d (ground (arith, e)),
  )
]

-- A paid run that is created was authorised: an approved decision of paid usage for this task and
-- its project, not past its expiry and not consumed, whose scope names the run's provider, model
-- and purpose.
pub create_run-IsAuthority :
    (reading : Reading) (now id : ℕ) (input : NewRun) (s : Store) (out : AgentRun × Store)
    → create_run reading now id input s ≡ ok out
    → is_paid input.billing_mode ≡ true
    → (task : TaskRow) × (decision_id : ℕ) × (d : Decision) × (find_task s.queue input.task_id
        ≡ some task)
      × (input.paid_usage_decision_id ≡ some decision_id)
      × (get_decision decision_id s.tables.decisions ≡ some d)
      × IsAuthority reading now input task s d
unfolding check_approval is_approved_decision
create_run-IsAuthority reading now id input s out h paid =
    let (task, known, _, _, approval, _, _, _) = create_run-steps reading now id input s out h in
    elim (Option-cases input.paid_usage_decision_id) [
      | inl e ↦ absurd (ground (arith, e))
      | inr (decision_id, e) ↦ elim (Option-cases (get_decision decision_id s.tables.decisions)) [
        | inl f ↦ absurd (ground (arith, e, f))
        | inr (d, f) ↦ (
          task,
          decision_id,
          d,
          known,
          e,
          f,
          authorises-IsAuthority reading now input task s d (ground (arith, e, f)),
        )
      ]
    ]

-- A run that is created has the billing that was observed of its model, which is known.
create_run-billing :
    (reading : Reading) (now id : ℕ) (input : NewRun) (s : Store) (out : AgentRun × Store)
    → create_run reading now id input s ≡ ok out
    → (m : AgentModel) × (find_model input.provider_id input.model_ref s.models ≡ some m)
      × (m.billing_mode ≡ input.billing_mode)
      × (m.billing_mode ≢ billing_unknown)
unfolding check_billing
create_run-billing reading now id input s out h =
    let (task, known, billing, _, _, _, _, _) = create_run-steps reading now id input s out h in
    elim (Option-cases (find_model input.provider_id input.model_ref s.models)) [
      | inl e ↦ absurd (ground (arith, e))
      | inr (m, e) ↦ (
        m,
        e,
        (billing_eq_iff m.billing_mode input.billing_mode).0 (ground (arith, e)),
        λ unknown. ground (arith, e),
      )
    ]
