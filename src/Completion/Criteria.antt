-- ===== src/Completion/Criteria.antt =====
-- The completion criteria of a task (src/domain/completion.ts, completionCriteriaSchema). Reading
-- the JSON and its shape is an argument; the checks and the trims of the schema are here.
use project_baracks.Prelude.{
  ℕ, ◌==◌, Eq-ℕ, leb, length, Text, trim, is_digit, Bool, true, false, not, ◌&&◌, ◌||◌, Option,
  none, some, is_some, List, [], ◌∷◌, all, map, if◌then◌else◌,
}
use project_baracks.Sdlc.Decisions.{ReviewLevel, has_text}
use project_baracks.Sdlc.Validation.{BroaderTrigger}

pub record BroadJustification : Type 0 where
  pub cost : Text
  pub expected_information_gain : Text

pub record ProgressiveValidation : Type 0 where
  pub risk_specific_checks : List Text
  pub broader_validation_triggers : List BroaderTrigger
  pub repository_policy_requires_broad_validation : Bool
  pub review : ReviewLevel
  pub candidate_head : Option Text
  pub broad_validation_justification : Option BroadJustification

pub record CompletionCriteria : Type 0 where
  pub min_passed_verification_runs : ℕ
  pub require_artifact : Bool
  pub required_decision_categories : List Text
  pub progressive_validation : Option ProgressiveValidation

abbrev pub default_criteria : CompletionCriteria
default_criteria = record {
  min_passed_verification_runs = 1;
  require_artifact = false;
  required_decision_categories = [];
  progressive_validation = none;
}

abbrev is_hex : ℕ → Bool
is_hex c = is_digit c || (leb b'a' c && leb c b'f')

-- `/^[0-9a-f]{40}$/`
unfoldable pub is_sha : Text → Bool
is_sha t = length t == 40 && all is_hex t

abbrev trimmed_justification : BroadJustification → BroadJustification
trimmed_justification j = record {
  cost = trim j.cost;
  expected_information_gain = trim j.expected_information_gain;
}

abbrev trimmed_progressive : ProgressiveValidation → ProgressiveValidation
trimmed_progressive p = record p {
  risk_specific_checks = map trim p.risk_specific_checks;
  broad_validation_justification = elim p.broad_validation_justification [
    | none ↦ none
    | some j ↦ some (trimmed_justification j)
  ];
}

unfoldable pub trimmed : CompletionCriteria → CompletionCriteria
trimmed c = record c {
  required_decision_categories = map trim c.required_decision_categories;
  progressive_validation = elim c.progressive_validation [
    | none ↦ none
    | some p ↦ some (trimmed_progressive p)
  ];
}

abbrev is_nonempty : List BroaderTrigger → Bool
is_nonempty [] = false
is_nonempty (t ∷ ts) = true

abbrev justification_holds : Option BroadJustification → Bool
justification_holds none = true
justification_holds (some j) = has_text j.cost && has_text j.expected_information_gain

-- The constraints of the schema on a progressive contract, with those of its `superRefine`.
unfoldable pub progressive_holds : ProgressiveValidation → Bool
progressive_holds p =
    let broad_required =
      is_nonempty p.broader_validation_triggers || p.repository_policy_requires_broad_validation in
    all has_text p.risk_specific_checks
    && justification_holds p.broad_validation_justification
    && (not broad_required || is_some p.broad_validation_justification)
    && elim p.candidate_head [ none ↦ false | some head ↦ is_sha head ]

unfoldable pub criteria_hold : CompletionCriteria → Bool
criteria_hold c =
    leb 1 c.min_passed_verification_runs
    && all has_text c.required_decision_categories
    && elim c.progressive_validation [ none ↦ true | some p ↦ progressive_holds p ]

-- `read` is `JSON.parse` and the shape of the schema, with its defaults.
unfoldable pub parse_completion_criteria :
    (read : Text → Option CompletionCriteria) → Option Text → Option CompletionCriteria
parse_completion_criteria read none = some default_criteria
parse_completion_criteria read (some []) = some default_criteria
parse_completion_criteria read (some (c ∷ cs)) = elim (read (c ∷ cs)) [
  | none ↦ none
  | some criteria ↦ if criteria_hold (trimmed criteria) then some (trimmed criteria) else none
]
