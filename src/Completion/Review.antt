-- ===== src/Completion/Review.antt =====
-- The review that a completion proof asks for (src/domain/completion.ts, evaluateCompletionProof).
use project_baracks.Prelude.{
  ℕ, ◌==◌, Eq-ℕ, Text, Eq-Text, Bool, true, false, not, ◌&&◌, ◌||◌, Option, none, some, option_eq,
  is_none, List, [], ◌∷◌, keep, any,
}
use project_baracks.Routing.Types.{implementation, repair, review}
use project_baracks.Sdlc.Decisions.{ReviewLevel, no_review, independent}
use project_baracks.Completion.Criteria.{ProgressiveValidation}
use project_baracks.Records.Types.{AgentRun, is_succeeded, purpose_eq, Receipt, is_pass, Tables}

-- A succeeded run that made or repaired the candidate.
unfoldable pub is_implementation : ℕ → Text → AgentRun → Bool
is_implementation task_id head r =
    r.task_id == task_id
    && (purpose_eq r.purpose implementation || purpose_eq r.purpose repair)
    && is_succeeded r.status
    && option_eq r.source_head (some head)

unfoldable pub implementation_runs : Tables → ℕ → Option Text → List AgentRun
implementation_runs t task_id none = []
implementation_runs t task_id (some []) = []
implementation_runs t task_id (some (c ∷ head)) = keep (is_implementation task_id (c ∷ head)) t.runs

unfoldable pub is_succeeded_review : ℕ → AgentRun → Bool
is_succeeded_review task_id r =
    r.task_id == task_id && purpose_eq r.purpose review && is_succeeded r.status

-- A receipt that binds the review to a run that made the candidate.
unfoldable pub is_authority : ℕ → List AgentRun → Option Text → AgentRun → Receipt → Bool
is_authority task_id implementations head r receipt =
    option_eq receipt.task_id (some task_id)
    && receipt.run_id == r.id
    && elim receipt.reviewed_run_id [
      | none ↦ false
      | some reviewed ↦ any (λ i. i.id == reviewed) implementations
    ]
    && option_eq (some receipt.source_head) head
    && is_pass receipt.verdict

abbrev is_independent : ReviewLevel → Bool
is_independent independent = true
is_independent _ = false

abbrev is_no_review : ReviewLevel → Bool
is_no_review no_review = true
is_no_review _ = false

-- An empty head is as no head.
abbrev head_matches : Option Text → AgentRun → Bool
head_matches none r = true
head_matches (some []) r = true
head_matches (some (c ∷ cs)) r = option_eq r.source_head (some (c ∷ cs))

unfoldable pub review_counts :
    Tables
    → ℕ
    → ProgressiveValidation
    → (require_provenance : Bool) → List AgentRun
    → AgentRun
    → Bool
review_counts t task_id p require_provenance implementations r =
    head_matches p.candidate_head r
    && (not (is_independent p.review)
        || not require_provenance
        || (is_none r.independence_loss
            && any (is_authority task_id implementations p.candidate_head r) t.receipts))

abbrev is_nonempty : List AgentRun → Bool
is_nonempty [] = false
is_nonempty (r ∷ rs) = true

unfoldable pub review_passed :
    Tables → ℕ → ProgressiveValidation → (require_provenance : Bool) → Bool
review_passed t task_id p require_provenance =
    let implementations = implementation_runs t task_id p.candidate_head in
    is_no_review p.review
    || (any (review_counts t task_id p require_provenance implementations)
          (keep (is_succeeded_review task_id) t.runs)
        && (not (is_independent p.review) || is_nonempty implementations))
