-- ===== src/Policy/Store.antt =====
-- The operations of src/supervisor/policy.ts on the list of project policies.
use project_baracks.Prelude.{
  ltb, ◌==◌, ◌!=◌, Eq-ℕ, Eq-Text, option_eq, Text, trim, Bool, true, false, not, ◌&&◌, ◌||◌, Option,
  none, some, get_or, is_some, List, [], ◌∷◌, map, keep, find, if◌then◌else◌,
}
use project_baracks.Policy.Types.{
  ProjectClass, unknown_project, TrustLevel, observe, assist, build, unattended, trust_eq,
  is_client, is_pass, is_execution, IndependentGrade, TrustLimits, ProjectPolicy, World,
  cannot_promote, stop_active, execution_disabled, Result, ok, err,
}

abbrev pub is_blank : Text → Bool
is_blank t = trim t == []

abbrev pub is_blank_option : Option Text → Bool
is_blank_option none = true
is_blank_option (some t) = is_blank t

unfoldable pub has_execution_provenance : Option IndependentGrade → Bool
has_execution_provenance none = false
has_execution_provenance (some grade) =
    not (is_blank grade.review_execution_id)
    && not (is_blank grade.reviewed_execution_id)
    && grade.review_execution_id != grade.reviewed_execution_id
    && not (is_blank grade.provider_account_label)

unfoldable pub limits_for : World → TrustLevel → TrustLimits
limits_for w observe = record { max_workers = 0; max_run_minutes = 0; allow_background = false }
limits_for w assist = record { max_workers = 1; max_run_minutes = 30; allow_background = false }
limits_for w build = record {
  max_workers = w.workers;
  max_run_minutes = 120;
  allow_background = false;
}
limits_for w unattended = record {
  max_workers = w.workers;
  max_run_minutes = 480;
  allow_background = true;
}

-- The fields that the type requires are there, so that the other defaults of the source have no
-- effect.
unfoldable pub normalize_policy : World → ProjectPolicy → ProjectPolicy
normalize_policy w policy = record policy {
  limits = record policy.limits { max_workers = (limits_for w policy.trust).max_workers };
  parallel_workers = some (get_or policy.parallel_workers false);
}

unfoldable pub read_store : World → List ProjectPolicy → List ProjectPolicy
read_store w stored = map (normalize_policy w) stored

unfoldable pub default_project_policy : World → Text → Text → ProjectPolicy
default_project_policy w project repo_path = record {
  project = project;
  repo_path = w.resolve repo_path;
  project_class = unknown_project;
  trust = observe;
  limits = limits_for w observe;
  allow_external_writes = false;
  allow_cross_project_memory = false;
  allow_paid_spend = false;
  owner_approved_build = false;
  parallel_workers = some false;
  shadow_runs = 0;
  shadow_passes = 0;
  updated_at = w.now;
  last_grade = none;
}

-- The same project, the same checkout, or a worktree of the same repository.
unfoldable pub is_same_project : World → Text → Text → ProjectPolicy → Bool
is_same_project w project repo_path candidate =
    let common_dir = w.git_common_dir (w.resolve repo_path) in
    candidate.project == project
    || w.resolve candidate.repo_path == w.resolve repo_path
    || (is_some common_dir
        && option_eq (w.git_common_dir (w.resolve candidate.repo_path)) common_dir)

unfoldable get_project_policy : World → Text → Text → List ProjectPolicy → ProjectPolicy
get_project_policy w project repo_path stored =
    elim (find (is_same_project w project repo_path) (read_store w stored)) [
      | some existing ↦ record existing { project = project; repo_path = w.resolve repo_path }
      | none ↦ default_project_policy w project repo_path
    ]

pub record ConfigureInput : Type 0 where
  pub project : Text
  pub repo_path : Text
  pub project_class : ProjectClass
  pub trust : TrustLevel
  pub allow_external_writes : Option Bool
  pub allow_paid_spend : Option Bool
  pub owner_approved_build : Option Bool
  pub parallel_workers : Option Bool

-- An execution that was graded a pass at the given level, by a review of its own.
unfoldable pub passed_at : TrustLevel → Option ProjectPolicy → Bool
passed_at level none = false
passed_at level (some existing) = elim existing.last_grade [
  | none ↦ false
  | some grade ↦
      trust_eq existing.trust level
      && is_execution grade.kind
      && is_pass grade.result
      && trust_eq grade.trust_at_grade level
      && has_execution_provenance existing.last_grade
]

abbrev last_passed : Option IndependentGrade → Bool
last_passed none = false
last_passed (some grade) = is_pass grade.result

unfoldable pub shadow_passed : Option ProjectPolicy → Bool
shadow_passed none = false
shadow_passed (some existing) =
    not (ltb existing.shadow_passes 3)
    && last_passed existing.last_grade
    && has_execution_provenance existing.last_grade

-- The three tests of `configureProjectPolicy` that refuse a promotion.
unfoldable pub may_promote : ConfigureInput → Option ProjectPolicy → Bool
may_promote input existing = elim input.trust [
  | observe ↦ true
  | assist ↦ shadow_passed existing
  | build ↦ get_or input.owner_approved_build false || passed_at assist existing
  | unattended ↦ passed_at build existing
]

-- `input.x ?? existing?.x ?? false`
abbrev keep_flag : Option Bool → (ProjectPolicy → Bool) → Option ProjectPolicy → Bool
keep_flag (some given) field existing = given
keep_flag none field (some policy) = field policy
keep_flag none field none = false

abbrev from_existing {ℓ} : {A : Type ℓ} → (ProjectPolicy → A) → A → Option ProjectPolicy → A
from_existing field d none = d
from_existing field d (some policy) = field policy

unfoldable pub configured : World → ConfigureInput → Option ProjectPolicy → ProjectPolicy
configured w input existing = record {
  project = input.project;
  repo_path = w.resolve input.repo_path;
  project_class = input.project_class;
  trust = input.trust;
  limits = limits_for w input.trust;
  allow_external_writes =
      keep_flag input.allow_external_writes (λ p. p.allow_external_writes) existing;
  allow_cross_project_memory =
      not (is_client input.project_class)
      && (trust_eq input.trust build || trust_eq input.trust unattended);
  allow_paid_spend = keep_flag input.allow_paid_spend (λ p. p.allow_paid_spend) existing;
  owner_approved_build =
      keep_flag input.owner_approved_build (λ p. p.owner_approved_build) existing;
  parallel_workers =
      some (keep_flag input.parallel_workers (λ p. get_or p.parallel_workers false) existing);
  shadow_runs = from_existing (λ p. p.shadow_runs) 0 existing;
  shadow_passes = from_existing (λ p. p.shadow_passes) 0 existing;
  updated_at = w.now;
  last_grade = from_existing (λ p. p.last_grade) none existing;
}

-- `store[findIndex(p)] = next`, or a push when there is none.
unfoldable pub put_first :
    (ProjectPolicy → Bool) → ProjectPolicy → List ProjectPolicy → List ProjectPolicy
put_first p next [] = next ∷ []
put_first p next (x ∷ xs) = let rest = put_first p next xs in if p x then next ∷ xs else x ∷ rest

unfoldable pub configure_project_policy :
    World → ConfigureInput → List ProjectPolicy → Result (ProjectPolicy × List ProjectPolicy)
configure_project_policy w input stored =
    let store = read_store w stored in
    let same = is_same_project w input.project input.repo_path in
    let existing = find same store in
    if may_promote input existing
    then ok (configured w input existing, put_first same (configured w input existing) store)
    else err (cannot_promote input.trust)

unfoldable pub remove_project_policies :
    World → (ProjectPolicy → Bool) → List ProjectPolicy → List ProjectPolicy × List ProjectPolicy
remove_project_policies w remove stored = elim (keep remove (read_store w stored)) [
  | [] ↦ ([], stored)
  | p ∷ removed ↦ (p ∷ removed, keep (λ policy. not (remove policy)) (read_store w stored))
]

-- `stop_requested` says whether the stop file exists.
unfoldable pub assert_execution_allowed : (stop_requested : Bool) → ProjectPolicy → Result Unit
assert_execution_allowed stop_requested policy =
    if stop_requested
    then err stop_active
    else if trust_eq policy.trust observe || ltb policy.limits.max_workers 1
    then err (execution_disabled policy.project_class policy.trust)
    else ok tt
