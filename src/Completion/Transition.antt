-- ===== src/Completion/Transition.antt =====
-- The completion of a task in the queue with the evaluated proof (src/domain/task-service.ts,
-- applyTransition with src/domain/completion.ts, evaluateCompletionProof).
use project_baracks.Prelude.{
  ◌≡◌, ◌≢◌, true, false, [], Mem, ℕ, String, Text, Eq-ℕ, Option, none, some,
}
use project_baracks.Sdlc.Decisions.{independent}
use project_baracks.Records.Types.{ReviewFinding, finding_open, Tables}
use project_baracks.Queue.Types.{TaskRow}
use project_baracks.Queue.Tasks.{Env}
use project_baracks.Completion.Criteria.{
  CompletionCriteria, ProgressiveValidation, parse_completion_criteria,
}
use project_baracks.Completion.Proof.{Failure, blocks, evaluate_completion_proof}
use project_baracks.Completion.Sound.{IsVerified}
use project_baracks.Completion.Reviewed.{IsIndependentlyReviewed}

module _ (read : Text → Option CompletionCriteria) (wording : Failure → String) where
  -- The queue's environment over the evidence tables.
  unfoldable pub env_of : (now : ℕ) → Tables → Env
  env_of now t = record {
    now = now;
    evaluate_completion_proof = λ db task_id json. elim (parse_completion_criteria read json) [
      | none ↦ none
      | some c ↦ some (evaluate_completion_proof wording t db.tasks task_id c true)
    ];
  }

-- A task that is completed was ready to merge, and its frozen criteria parse. A verification run of
-- the task shows something, no blocking finding of it is open, and where the criteria ask for an
-- independent review of a candidate there is one.
unfoldable pub IsProven : (Text → Option CompletionCriteria) → Tables → TaskRow → ℕ → Type 0
IsProven read t task task_id =
    (c : CompletionCriteria) × (parse_completion_criteria read
        task.completion_criteria_snapshot_json
      ≡ some c)
    × IsVerified t task_id
    × ((f : ReviewFinding)
        → Mem f t.findings
        → f.task_id ≡ task_id
        → f.status ≡ finding_open
        → blocks f.severity ≡ false)
    × ((p : ProgressiveValidation)
        → (head : Text) → c.progressive_validation ≡ some p
        → p.review ≡ independent
        → p.candidate_head ≡ some head
        → head ≢ []
        → IsIndependentlyReviewed t task_id head)
