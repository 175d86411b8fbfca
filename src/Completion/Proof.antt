-- ===== src/Completion/Proof.antt =====
-- The evaluation of the completion proof (src/domain/completion.ts, evaluateCompletionProof).
use project_baracks.Prelude.{
  ℕ, ◌==◌, Eq-ℕ, ltb, leb, length, Text, text, Eq-Text, Bool, true, false, not, ◌&&◌, Option, none,
  some, option_eq, get_or, List, [], ◌∷◌, ◌++◌, keep, any, find, map, String,
}
use project_baracks.Lifecycle.Machine.{CompletionProof}
use project_baracks.Sdlc.Decisions.{
  ReviewLevel, no_review, independent, natural, Blocker, Promotion, assess_promotion, has_text,
}
use project_baracks.Sdlc.Decisions as Decisions
use project_baracks.Sdlc.Validation.{
  ValidationCheck, risk_specific_checks, broader_validation, check_name, trigger_eq, ValidationPlan,
  plan_progressive_validation,
}
use project_baracks.Completion.Criteria.{CompletionCriteria, ProgressiveValidation}
use project_baracks.Records.Types.{
  Evidence, is_verification_run, is_artifact, FindingSeverity, major, critical, is_open, Decision,
  is_approved, Tables,
}
use project_baracks.Queue.Types.{TaskRow}
use project_baracks.Completion.Verified.{
  Qualified, effective_verifications, qualifying_verifications,
}
use project_baracks.Completion.Review.{review_passed}

pub data Failure : Type 0 where
  too_few_verifications : (required found : ℕ) → Failure
  missing_risk_checks : List Text → Failure
  missing_checks : List ValidationCheck → Failure
  untriggered_broader_validation : Failure
  not_promotable : Blocker → Failure
  open_blockers : ℕ → Failure
  no_evidence : Failure
  unlinked_evidence : ℕ → Failure
  no_artifact : Failure
  decision_missing : Text → Failure

abbrev pub blocks : FindingSeverity → Bool
blocks critical = true
blocks major = true
blocks _ = false

unfoldable pub open_blocking_findings : Tables → ℕ → ℕ
open_blocking_findings t task_id =
    length (keep (λ f. f.task_id == task_id && is_open f.status && blocks f.severity) t.findings)

abbrev proves : Text → Qualified → Bool
proves subject q = option_eq q.validation_subject (some subject)

unfoldable pub missing_required : List Qualified → ValidationPlan → List ValidationCheck
missing_required effective plan =
    keep
      (λ c.
        not (check_name c == check_name risk_specific_checks)
        && not (any (proves (check_name c)) effective))
      plan.required_checks

unfoldable pub missing_risk : List Qualified → List Text → List Text
missing_risk effective checks =
    keep (λ c. not (any (proves (text "risk_specific_check:" ++ c)) effective)) checks

abbrev pub when : Bool → Failure → List Failure
when true f = f ∷ []
when false f = []

abbrev is_missing {ℓ} : {A : Type ℓ} → List A → Bool
is_missing [] = false
is_missing (x ∷ xs) = true

-- `assessPromotion` does not throw on a count of rows.
abbrev pub blockers_of : Decisions.Result Promotion → List Failure
blockers_of (Decisions.ok promotion) = map not_promotable promotion.blockers
blockers_of (Decisions.err e) = []

unfoldable pub plan_of : ProgressiveValidation → ValidationPlan
plan_of p =
    plan_progressive_validation p.risk_specific_checks
      (λ trigger. any (trigger_eq trigger) p.broader_validation_triggers)
      p.repository_policy_requires_broad_validation

-- The checks of the plan that no verification run is about, and the broad one that none asked for.
unfoldable pub check_failures : ProgressiveValidation → List Qualified → List Failure
check_failures p effective =
    let checks = missing_required effective (plan_of p) in
    let risks = missing_risk effective p.risk_specific_checks in
    when (is_missing risks) (missing_risk_checks risks)
    ++ (when (is_missing checks) (missing_checks checks)
        ++ when
            (not (plan_of p).broader_validation_required
              && any (proves (check_name broader_validation)) effective)
            untriggered_broader_validation)

unfoldable pub evidence_passed : ℕ → ProgressiveValidation → List Qualified → Bool
evidence_passed least p effective =
    leb least (length effective)
    && not (is_missing (missing_required effective (plan_of p)))
    && not (is_missing (missing_risk effective p.risk_specific_checks))

unfoldable pub progressive_failures :
    Tables
    → ℕ
    → (least : ℕ) → ProgressiveValidation
    → (require_provenance : Bool) → List Qualified
    → List Failure
progressive_failures t task_id least p require_provenance effective =
    check_failures p effective
    ++ blockers_of (
        assess_promotion (evidence_passed least p effective) p.review
          (review_passed t task_id p require_provenance)
          (natural (open_blocking_findings t task_id)))

unfoldable pub contract_failures :
    Tables
    → ℕ
    → (least : ℕ) → Option ProgressiveValidation
    → (require_provenance : Bool) → List Qualified
    → List Failure
contract_failures t task_id least (some p) require_provenance effective =
    progressive_failures t task_id least p require_provenance effective
contract_failures t task_id least none require_provenance effective =
    when (ltb 0 (open_blocking_findings t task_id))
      (open_blockers (open_blocking_findings t task_id))

abbrev is_linked : Tables → ℕ → Evidence → Bool
is_linked t task_id e = any (λ v. v.id == get_or e.ref [] && v.task_id == task_id) t.verifications

unfoldable pub evidence_failures : Tables → ℕ → List Evidence → List Failure
evidence_failures t task_id [] = []
evidence_failures t task_id (e ∷ rows) =
    when (is_verification_run e.kind && not (is_linked t task_id e)) (unlinked_evidence e.id)
    ++ evidence_failures t task_id rows

abbrev has_ref : Evidence → Bool
has_ref e = is_artifact e.kind && has_text (get_or e.ref [])

-- The project of the task; no project has the id that stands for a missing one.
unfoldable pub approves : ℕ → Option ℕ → Text → Decision → Bool
approves task_id project_id category d =
    option_eq d.task_id (some task_id)
    && elim project_id [ none ↦ false | some p ↦ option_eq d.project_id (some p) ]
    && d.category == category
    && is_approved d.status

unfoldable pub decision_failures : Tables → ℕ → Option ℕ → List Text → List Failure
decision_failures t task_id project_id [] = []
decision_failures t task_id project_id (category ∷ categories) =
    when (not (any (approves task_id project_id category) t.decisions)) (decision_missing category)
    ++ decision_failures t task_id project_id categories

unfoldable pub project_of : List TaskRow → ℕ → Option ℕ
project_of tasks task_id = elim (find (λ t. t.id == task_id) tasks) [
  | none ↦ none
  | some task ↦ some task.project_id
]

abbrev is_no_evidence : List Evidence → Bool
is_no_evidence [] = true
is_no_evidence (e ∷ es) = false

unfoldable pub proof_failures :
    Tables → List TaskRow → ℕ → CompletionCriteria → (require_provenance : Bool) → List Failure
proof_failures t tasks task_id c require_provenance =
    let effective =
      effective_verifications c.progressive_validation (qualifying_verifications t task_id) in
    let rows = keep (λ (e : Evidence). e.task_id == task_id) t.evidence in
    when (ltb (length effective) c.min_passed_verification_runs)
      (too_few_verifications c.min_passed_verification_runs (length effective))
    ++ (contract_failures t task_id c.min_passed_verification_runs c.progressive_validation
          require_provenance effective
        ++ (when (is_no_evidence rows) no_evidence
            ++ (evidence_failures t task_id rows
                ++ (when (c.require_artifact && not (any has_ref rows)) no_artifact
                    ++ decision_failures t task_id (project_of tasks task_id)
                        c.required_decision_categories))))

abbrev pub is_clear : List Failure → Bool
is_clear [] = true
is_clear (f ∷ fs) = false

-- The proof with its failures as the messages that `wording` makes of them.
unfoldable pub evaluate_completion_proof :
    (wording : Failure → String)
    → Tables
    → List TaskRow
    → ℕ
    → CompletionCriteria
    → (require_provenance : Bool) → CompletionProof
evaluate_completion_proof wording t tasks task_id c require_provenance =
    let failures = proof_failures t tasks task_id c require_provenance in
    record { ok = is_clear failures; failures = map wording failures }
