-- ===== src/Goals/Authority.antt =====
-- Whether a pending completion that an independent review passed may be completed: the candidate is
-- bound to the same task as when it was frozen, and that task is promotable
-- (src/supervisor/state.ts, applyIndependentCompletionGrade).
use project_baracks.Prelude.{
  ◌==◌, Eq-ℕ, Text, Eq-Text, Bool, true, false, not, ◌&&◌, Option, none, some, option_eq, List,
  if◌then◌else◌,
}
use project_baracks.Records.Types.{Tables}
use project_baracks.Queue.Types.{TaskRow}
use project_baracks.Completion.Criteria.{CompletionCriteria, parse_completion_criteria}
use project_baracks.Completion.Binding.{
  project_not_found, no_ready_task, BindingResult, bound, unbound, resolve_canonical_task_binding,
  PromotionFailure, is_promotable, promotion_failures,
}
use project_baracks.Goals.Types.{
  CandidateTask, to_task, no_task, unresolved, Candidate, PendingCompletion,
}

pub data BindingFailure : Type 0 where
  lacks_candidate binding_changed other_candidate_head : BindingFailure
  unproven : List PromotionFailure → BindingFailure
  criteria_invalid resolution_changed not_authoritative : BindingFailure

-- The candidate is the pending completion's own.
unfoldable pub is_frozen : PendingCompletion → Candidate → Bool
is_frozen pending c =
    option_eq pending.source_head (some c.source_head)
    && option_eq pending.source_tree_digest (some c.source_tree_digest)

unfoldable pub is_same_task : CandidateTask → BindingResult → Bool
is_same_task t (unbound u) = false
is_same_task t (bound b) =
    b.task_id == t.task_id
    && b.project_id == t.project_id
    && b.frozen_criteria_json == t.frozen_criteria_json

abbrev pub is_no_task : BindingResult → Bool
is_no_task (unbound (project_not_found path)) = true
is_no_task (unbound no_ready_task) = true
is_no_task _ = false

abbrev pub targets : CompletionCriteria → Text → Bool
targets criteria head = elim criteria.progressive_validation [
  | none ↦ true
  | some p ↦ option_eq p.candidate_head (some head)
]

abbrev proof_failure : List PromotionFailure → Option BindingFailure
proof_failure failures = if is_promotable failures then none else some (unproven failures)

unfoldable pub task_failure :
    (read : Text → Option CompletionCriteria) (resolve : Text → Text)
    → Tables
    → List TaskRow
    → Text
    → (head : Text) → CandidateTask
    → Option BindingFailure
task_failure read resolve t tasks repo_path head task =
    if not (is_same_task task (resolve_canonical_task_binding resolve t.projects tasks repo_path))
    then some binding_changed
    else elim (parse_completion_criteria read (some task.frozen_criteria_json)) [
      | none ↦ some criteria_invalid
      | some criteria ↦
          if not (targets criteria head)
          then some other_candidate_head
          else proof_failure (promotion_failures read resolve t tasks task.task_id repo_path)
    ]

unfoldable pub candidate_failure :
    (read : Text → Option CompletionCriteria) (resolve : Text → Text)
    → Tables
    → List TaskRow
    → Text
    → Candidate
    → Option BindingFailure
candidate_failure read resolve t tasks repo_path c = elim c.resolution [
  | to_task task ↦ task_failure read resolve t tasks repo_path c.source_head task
  | no_task ↦
      if is_no_task (resolve_canonical_task_binding resolve t.projects tasks repo_path)
      then none
      else some resolution_changed
  | unresolved ↦ some not_authoritative
]

unfoldable pub binding_failure :
    (read : Text → Option CompletionCriteria) (resolve : Text → Text)
    → Tables
    → List TaskRow
    → Text
    → PendingCompletion
    → Option BindingFailure
binding_failure read resolve t tasks repo_path pending = elim pending.candidate [
  | none ↦ some lacks_candidate
  | some c ↦
      if not (is_frozen pending c)
      then some lacks_candidate
      else candidate_failure read resolve t tasks repo_path c
]
