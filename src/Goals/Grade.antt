-- ===== src/Goals/Grade.antt =====
-- The grade of a pending completion by an independent review (src/supervisor/state.ts,
-- applyIndependentCompletionGrade): one transaction on the database, and the state of the goals that
-- is written after it. What the operation sees of the repository is an argument: the fence of its
-- writers, two readings of its identity, and whether another writer came in between.
use project_baracks.Prelude.{
  ℕ, ◌+◌, ◌==◌, Eq-ℕ, Text, Eq-Text, Bool, false, not, ◌&&◌, Option, none, some, List, [], ◌∷◌,
  ◌++◌, find, if◌then◌else◌,
}
use project_baracks.Lifecycle.Machine.{completed}
use project_baracks.Records.Types.{Receipt, Verdict, is_pass, Tables}
use project_baracks.Queue.Types.{TaskRow, update_where}
use project_baracks.Completion.Criteria.{CompletionCriteria}
use project_baracks.Runs.Types.{AgentProvider}
use project_baracks.Goals.Types.{
  to_task, PendingCompletion, GoalSummary, validation_passed, validation_rejected,
  reopened_by_identity, reopened_by_proof, reopened_at_commit, SupervisorGoal, active, done,
}
use project_baracks.Goals.Live.{by_id, update_first}
use project_baracks.Goals.Receipt.{
  GradeError, writer_busy, foreign_fence, receipt_missing, goal_missing, not_pending,
  identity_changed, binding_failed, changed_during_commit, contended, Result, ok, err, ◌>>=◌, guard,
  require, filled, check_receipt,
}
use project_baracks.Goals.Authority.{binding_failure}

-- The head and the digest of a source tree.
pub record Identity : Type 0 where
  pub source_head : Text
  pub source_tree_digest : Text

pub record World : Type 0 where
  pub now : ℕ
  pub fence : Option Text
  pub identity : Option Identity
  pub identity_at_commit : Option Identity
  pub is_uncontended : Bool
  pub is_uncontended_at_commit : Bool
  pub resolve : Text → Text
  pub read_criteria : Text → Option CompletionCriteria

-- A row of supervisor_completion_commits.
pub record CompletionCommit : Type 0 where
  pub project : Text
  pub goal_id : ℕ
  pub receipt_id : ℕ
  pub pending_claimed_at : ℕ
  pub source_head : Text
  pub source_tree_digest : Option Text
  pub verdict : Verdict
  pub final_goal : SupervisorGoal
  pub created_at : ℕ

pub record GradeState : Type 0 where
  pub goals : List SupervisorGoal
  pub tables : Tables
  pub tasks : List TaskRow
  pub providers : List AgentProvider
  pub commits : List CompletionCommit

unfoldable pub source_identity_matches : Text → Option Text → Option Identity → Bool
source_identity_matches head digest actual = elim (filled digest) [
  | none ↦ false
  | some d ↦ elim actual [
    | none ↦ false
    | some i ↦ i.source_head == head && i.source_tree_digest == d
  ]
]

unfoldable pub reopened : (now : ℕ) → GoalSummary → SupervisorGoal → SupervisorGoal
reopened now summary g = record g {
  status = active;
  pending_completion = none;
  active_pid = none;
  last_finished_at = some now;
  next_run_at = some now;
  last_summary = some summary;
  updated_at = now;
}

unfoldable pub graded : (now : ℕ) → PendingCompletion → Receipt → SupervisorGoal → SupervisorGoal
graded now pending receipt g =
    let cleared = record g {
      pending_completion = none;
      active_pid = none;
      last_finished_at = some now;
      owner_gate = none;
      consecutive_failures = 0;
      updated_at = now;
    } in
    if is_pass receipt.verdict
    then record cleared {
      status = done;
      next_run_at = none;
      last_summary = some (validation_passed pending.summary receipt.evidence);
    }
    else record cleared {
      status = active;
      next_run_at = some now;
      last_summary = some (validation_rejected receipt.evidence);
    }

-- What the transaction comes to, before its commit.
pub data Verdicted : Type 0 where
  refused : GradeError → GoalSummary → Verdicted
  accepted : (head : Text) → Verdicted

unfoldable pub judged :
    World → GradeState → SupervisorGoal → PendingCompletion → Receipt → (head : Text) → Verdicted
judged w s g pending receipt head =
    if not (source_identity_matches head pending.source_tree_digest w.identity)
    then refused identity_changed reopened_by_identity
    else if not (is_pass receipt.verdict)
    then accepted head
    else elim (binding_failure w.read_criteria w.resolve s.tables s.tasks g.repo_path pending) [
      | some failure ↦ refused binding_failed reopened_by_proof
      | none ↦ accepted head
    ]

abbrev candidate_task : PendingCompletion → Option ℕ
candidate_task pending = elim pending.candidate [
  | none ↦ none
  | some c ↦ elim c.resolution [ to_task t ↦ some t.task_id | _ ↦ none ]
]

-- `update(tasks).set({ status: 'completed', version + 1 })`
unfoldable pub complete_task : Option ℕ → List TaskRow → List TaskRow
complete_task none tasks = tasks
complete_task (some id) tasks =
    update_where (λ t. t.id == id) (λ t. record t { status = completed; version = t.version + 1 })
      tasks

abbrev pub with_goal : SupervisorGoal → GradeState → GradeState
with_goal g s = record s { goals = update_first (by_id g.id) (λ x. g) s.goals }

-- The database rolls back where the commit is refused, and the goal is opened again.
unfoldable pub settle :
    World
    → GradeState
    → SupervisorGoal
    → PendingCompletion
    → Receipt
    → Verdicted
    → GradeState × Result SupervisorGoal
settle w s g pending receipt (refused error summary) =
    if w.is_uncontended_at_commit
    then (with_goal (reopened w.now summary g) s, err error)
    else (with_goal (reopened w.now reopened_at_commit (reopened w.now summary g)) s, err contended)
settle w s g pending receipt (accepted head) =
    let after = graded w.now pending receipt g in
    if not (source_identity_matches head pending.source_tree_digest w.identity_at_commit)
    then (with_goal (reopened w.now reopened_at_commit after) s, err changed_during_commit)
    else if not (w.is_uncontended && w.is_uncontended_at_commit)
    then (with_goal (reopened w.now reopened_at_commit after) s, err contended)
    else (
      with_goal after (record s {
        tasks =
            if is_pass receipt.verdict
            then complete_task (candidate_task pending) s.tasks
            else s.tasks;
        commits =
            s.commits
            ++ record {
              project = g.project;
              goal_id = g.id;
              receipt_id = receipt.id;
              pending_claimed_at = pending.claimed_at;
              source_head = head;
              source_tree_digest = pending.source_tree_digest;
              verdict = receipt.verdict;
              final_goal = after;
              created_at = w.now;
            }
              ∷ [];
      }),
      ok after,
    )

-- What the checks find: the goal, its pending completion, the receipt and the exact head.
pub record Claimed : Type 0 where
  pub goal : SupervisorGoal
  pub pending : PendingCompletion
  pub receipt : Receipt
  pub head : Text

unfoldable pub claim_for_grade : World → (goal_id receipt_id : ℕ) → GradeState → Result Claimed
claim_for_grade w goal_id receipt_id s = do
  snapshot ← require (find (by_id goal_id) s.goals) goal_missing
  fence ← require w.fence writer_busy
  _ ← guard (w.resolve fence == w.resolve snapshot.repo_path) foreign_fence
  receipt ← require (find (λ (r : Receipt). r.id == receipt_id) s.tables.receipts) receipt_missing
  pending ← require snapshot.pending_completion not_pending
  head ← check_receipt s.tables s.providers snapshot pending receipt
  ok (record { goal = snapshot; pending = pending; receipt = receipt; head = head })

-- A check that throws leaves everything as it was.
unfoldable pub apply_independent_completion_grade :
    World → (goal_id receipt_id : ℕ) → GradeState → GradeState × Result SupervisorGoal
apply_independent_completion_grade w goal_id receipt_id s =
    elim (claim_for_grade w goal_id receipt_id s) [
      | err e ↦ (s, err e)
      | ok c ↦ settle w s c.goal c.pending c.receipt (judged w s c.goal c.pending c.receipt c.head)
    ]
