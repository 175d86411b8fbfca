-- ===== src/Sdlc/Validation.antt =====
-- Progressive validation, delivery evidence and regressions (src/domain/sdlc.ts).
use project_baracks.Prelude.{
  ℕ, ◌==◌, Eq-ℕ, Text, text, trim, Eq-Text, Bool, true, false, not, ◌||◌, Option, none, some,
  get_or, List, [], ◌∷◌, ◌++◌, keep, any, if◌then◌else◌,
}
use project_baracks.Sdlc.Decisions.{ProofState, not_required, unproven, proven, has_text}

pub data ValidationCheck : Type 0 where
  focused_tests cheapest_compile_type_or_build critical_path_behavior : ValidationCheck
  risk_specific_checks broader_validation : ValidationCheck

-- The text that stands for a check, as the subject of a verification run.
unfoldable pub check_name : ValidationCheck → Text
check_name focused_tests = text "focused_tests"
check_name cheapest_compile_type_or_build = text "cheapest_compile_type_or_build"
check_name critical_path_behavior = text "critical_path_behavior"
check_name risk_specific_checks = text "risk_specific_checks"
check_name broader_validation = text "broader_validation"

pub data BroaderTrigger : Type 0 where
  blast_radius shared_dependency insufficient_evidence : BroaderTrigger
  historical_regression promotion_policy : BroaderTrigger

abbrev trigger_rank : BroaderTrigger → ℕ
trigger_rank blast_radius = 0
trigger_rank shared_dependency = 1
trigger_rank insufficient_evidence = 2
trigger_rank historical_regression = 3
trigger_rank promotion_policy = 4

abbrev pub trigger_eq : BroaderTrigger → BroaderTrigger → Bool
trigger_eq a b = trigger_rank a == trigger_rank b

abbrev broader_triggers : List BroaderTrigger
broader_triggers =
    blast_radius ∷ shared_dependency ∷ insufficient_evidence ∷ historical_regression
    ∷ promotion_policy ∷ []

pub record ValidationPlan : Type 0 where
  pub required_checks : List ValidationCheck
  pub broader_validation_required : Bool
  pub active_triggers : List BroaderTrigger

abbrev is_nonempty : List BroaderTrigger → Bool
is_nonempty [] = false
is_nonempty (t ∷ ts) = true

unfoldable pub plan_progressive_validation :
    (risk_specific : List Text)
    → (triggers : BroaderTrigger → Bool) → (policy_requires : Bool) → ValidationPlan
plan_progressive_validation risk_specific triggers policy_requires =
    let active = keep triggers broader_triggers in
    let broad = is_nonempty active || policy_requires in
    record {
      required_checks =
          focused_tests
          ∷ cheapest_compile_type_or_build
          ∷ critical_path_behavior
          ∷ ((if any has_text risk_specific then risk_specific_checks ∷ [] else [])
              ++ (if broad then broader_validation ∷ [] else []));
      broader_validation_required = broad;
      active_triggers = active;
    }

pub data EvidenceKind : Type 0 where
  implemented tested staged resolved : EvidenceKind
  loaded followed installed behaviorally_proven : EvidenceKind

abbrev kind_rank : EvidenceKind → ℕ
kind_rank implemented = 0
kind_rank tested = 1
kind_rank staged = 2
kind_rank resolved = 3
kind_rank loaded = 4
kind_rank followed = 5
kind_rank installed = 6
kind_rank behaviorally_proven = 7

-- A kind as it is accepted: one of the eight, or the old spelling of the last.
pub data AcceptedKind : Type 0 where
  kind : EvidenceKind → AcceptedKind
  behaviourally_proven : AcceptedKind

unfoldable normalize : AcceptedKind → EvidenceKind
normalize (kind k) = k
normalize behaviourally_proven = behaviorally_proven

-- `input.evidence[kind]`, with the old spelling where the new one is absent.
unfoldable evidence_for : (AcceptedKind → Option (List Text)) → EvidenceKind → List Text
evidence_for given k = elim (given (kind k)) [
  | some items ↦ items
  | none ↦
      if kind_rank k == kind_rank behaviorally_proven
      then get_or (given behaviourally_proven) []
      else []
]

unfoldable assess_task_delivery_evidence :
    List AcceptedKind → (AcceptedKind → Option (List Text)) → EvidenceKind → ProofState
assess_task_delivery_evidence applicable given k =
    if not (any (λ a. kind_rank (normalize a) == kind_rank k) applicable)
    then not_required
    else if any has_text (evidence_for given k)
    then proven
    else unproven

pub record Regression : Type 0 where
  pub failure : Text
  pub reproduction : Text
  pub expected : Text
  pub verification : Text

pub record LearningCandidate : Type 0 where
  pub summary : Text
  pub evidence : Text

pub record FailureRegression : Type 0 where
  pub regression_artifact : Regression
  pub learning_candidate : Option LearningCandidate

unfoldable failure_regression :
    (failure reproduction expected verification : Text)
    → (learning : Option Text) → FailureRegression
failure_regression failure reproduction expected verification learning =
    let learned = trim (get_or learning []) in
    record {
      regression_artifact = record {
        failure = trim failure;
        reproduction = trim reproduction;
        expected = trim expected;
        verification = trim verification;
      };
      learning_candidate =
          if learned == []
          then none
          else some
              (record { summary = learned; evidence = text "Regression: " ++ trim verification });
    }
