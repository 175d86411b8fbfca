-- ===== src/Completion/Binding.antt =====
-- The one promotable task of a repository, and the proof that a coordinator's claim of completion
-- is checked against (src/domain/completion.ts). Resolving a path is an argument.
use project_baracks.Prelude.{
  ℕ, ◌==◌, Eq-ℕ, length, Text, Eq-Text, Bool, true, false, ◌&&◌, Option, none, some, List, [], ◌∷◌,
  ◌++◌, keep, find, map, if◌then◌else◌,
}
use project_baracks.Lifecycle.Machine.{TaskStatus, ready_to_merge, Eq-TaskStatus}
use project_baracks.Records.Types.{Project, Tables}
use project_baracks.Queue.Types.{TaskRow}
use project_baracks.Completion.Criteria.{CompletionCriteria, parse_completion_criteria}
use project_baracks.Completion.Proof.{Failure, proof_failures}

pub record CanonicalTaskBinding : Type 0 where
  pub task_id : ℕ
  pub project_id : ℕ
  pub repo_path : Text
  pub frozen_criteria_json : Text

pub data Unbound : Type 0 where
  project_not_found : Text → Unbound
  no_ready_task : Unbound
  ambiguous : ℕ → Unbound
  no_criteria : Unbound

pub data BindingResult : Type 0 where
  bound : CanonicalTaskBinding → BindingResult
  unbound : Unbound → BindingResult

unfoldable pub is_at : (resolve : Text → Text) → Text → Project → Bool
is_at resolve repo_path p = resolve p.repo_path == resolve repo_path

unfoldable pub is_candidate : Project → TaskRow → Bool
is_candidate p t = t.project_id == p.id && t.status == ready_to_merge

unfoldable pub bind : Project → List TaskRow → BindingResult
bind p [] = unbound no_ready_task
bind p (t ∷ u ∷ ts) = unbound (ambiguous (length (t ∷ u ∷ ts)))
bind p (t ∷ []) = elim t.completion_criteria_snapshot_json [
  | none ↦ unbound no_criteria
  | some json ↦
      if json == []
      then unbound no_criteria
      else bound (record {
        task_id = t.id;
        project_id = p.id;
        repo_path = p.repo_path;
        frozen_criteria_json = json;
      })
]

unfoldable pub resolve_canonical_task_binding :
    (resolve : Text → Text) → List Project → List TaskRow → Text → BindingResult
resolve_canonical_task_binding resolve projects tasks repo_path =
    elim (find (is_at resolve repo_path) projects) [
      | none ↦ unbound (project_not_found (resolve repo_path))
      | some p ↦ bind p (keep (is_candidate p) tasks)
    ]

pub data PromotionFailure : Type 0 where
  task_missing : PromotionFailure
  other_repository : PromotionFailure
  not_ready_to_merge : TaskStatus → PromotionFailure
  criteria_missing : PromotionFailure
  criteria_invalid : PromotionFailure
  proof : Failure → PromotionFailure

abbrev pub is_promotable : List PromotionFailure → Bool
is_promotable [] = true
is_promotable (f ∷ fs) = false

-- The row of the task joined with its project.
unfoldable pub task_with_project : List Project → List TaskRow → ℕ → Option (TaskRow × Project)
task_with_project projects tasks task_id = elim (find (λ t. t.id == task_id) tasks) [
  | none ↦ none
  | some t ↦ elim (find (λ p. p.id == t.project_id) projects) [ none ↦ none | some p ↦ some (t, p) ]
]

abbrev unless : Bool → PromotionFailure → List PromotionFailure
unless true f = []
unless false f = f ∷ []

abbrev has_criteria : Option Text → Bool
has_criteria none = false
has_criteria (some json) = true

unfoldable pub binding_failures :
    (resolve : Text → Text) → Text → TaskRow → Project → List PromotionFailure
binding_failures resolve repo_path t p =
    unless (is_at resolve repo_path p) other_repository
    ++ (unless (t.status == ready_to_merge) (not_ready_to_merge t.status)
        ++ unless (has_criteria t.completion_criteria_snapshot_json) criteria_missing)

unfoldable pub criteria_failures :
    (read : Text → Option CompletionCriteria)
    → Tables
    → List TaskRow
    → TaskRow
    → List PromotionFailure
criteria_failures read tables tasks t =
    elim (parse_completion_criteria read t.completion_criteria_snapshot_json) [
      | none ↦ criteria_invalid ∷ []
      | some c ↦ map proof (proof_failures tables tasks t.id c false)
    ]

-- The failures of the promotion proof; there are none exactly when it is `ok`.
unfoldable pub promotion_failures :
    (read : Text → Option CompletionCriteria) (resolve : Text → Text)
    → Tables
    → List TaskRow
    → ℕ
    → Text
    → List PromotionFailure
promotion_failures read resolve tables tasks task_id repo_path =
    elim (task_with_project tables.projects tasks task_id) [
      | none ↦ task_missing ∷ []
      | some (t, p) ↦
          let failures = binding_failures resolve repo_path t p in
          if is_promotable failures then criteria_failures read tables tasks t else failures
    ]
