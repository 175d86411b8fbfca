-- ===== src/Goals/Receipt.antt =====
-- The checks of an independent review's receipt against the pending completion and the runs
-- (src/supervisor/state.ts, applyIndependentCompletionGrade). An id is a token, so that the test for
-- an empty run id is left out.
use project_baracks.Prelude.{
  ℕ, ◌==◌, Eq-ℕ, leb, Text, text, Eq-Text, Bool, true, false, not, ◌&&◌, ◌||◌, Option, none, some,
  option_eq, is_some, is_none, get_or, List, [], ◌∷◌, find, ◌≡◌, ◌⊎◌, inl, inr, refl, arith,
}
use project_baracks.Routing.Types.{implementation, repair, review}
use project_baracks.Policy.Types.{WorkerHost, claude, codex_host, cursor, antigravity}
use project_baracks.Sdlc.Decisions.{has_text}
use project_baracks.Records.Types.{AgentRun, is_succeeded, purpose_eq, Receipt, Tables}
use project_baracks.Runs.Types.{AgentProvider}
use project_baracks.Goals.Types.{ReviewDispatch, ReviewedRun, PendingCompletion, SupervisorGoal}

pub data GradeError : Type 0 where
  writer_busy foreign_fence receipt_missing goal_missing not_pending : GradeError
  no_exact_head other_goal other_head stale_receipt foreign_dispatch : GradeError
  unbound_execution review_run_invalid reviewed_run_invalid no_evidence : GradeError
  identity_changed binding_failed changed_during_commit contended : GradeError

pub data Result (A : Type 0) : Type 0 where
  ok : A → Result A
  err : GradeError → Result A

infixl 5 ◌>>=◌
abbrev pub ◌>>=◌ : {A : Type 0} {B : Type 0} → Result A → (A → Result B) → Result B
ok a >>= f = f a
err e >>= f = err e

pub Result-cases :
    {A : Type 0} (r : Result A) → ((a : A) × (r ≡ ok a)) ⊎ ((e : GradeError) × (r ≡ err e))
Result-cases (ok a) = inl (a, refl)
Result-cases (err e) = inr (e, refl)

-- A chain that succeeds has succeeded at its first step.
pub bind-ok :
    {A : Type 0} {B : Type 0} (r : Result A) {f : A → Result B} {b : B}
    → r >>= f ≡ ok b
    → (a : A) × (r ≡ ok a) × (f a ≡ ok b)
bind-ok (ok a) h = (a, refl, h)
bind-ok (err e) h = absurd (ground arith)

abbrev pub guard : Bool → GradeError → Result Unit
guard true e = ok tt
guard false e = err e

abbrev pub require : {A : Type 0} → Option A → GradeError → Result A
require none e = err e
require (some a) e = ok a

-- A text that is absent or empty is missing.
abbrev pub filled : Option Text → Option Text
filled none = none
filled (some []) = none
filled (some (c ∷ cs)) = some (c ∷ cs)

abbrev host_rank : WorkerHost → ℕ
host_rank claude = 0
host_rank codex_host = 1
host_rank cursor = 2
host_rank antigravity = 3

abbrev host_eq : WorkerHost → WorkerHost → Bool
host_eq a b = host_rank a == host_rank b

-- The name of the provider behind a host.
unfoldable pub provider_of : WorkerHost → Text
provider_of claude = text "claude-code"
provider_of codex_host = text "codex"
provider_of cursor = text "cursor"
provider_of antigravity = text "antigravity"

-- A column that is null equals no value, an absent one included.
abbrev same_id : Option ℕ → Option ℕ → Bool
same_id a b = is_some a && option_eq a b

abbrev same_text : Option Text → Option Text → Bool
same_text a b = is_some a && option_eq a b

unfoldable pub is_dispatched : ReviewDispatch → Receipt → Bool
is_dispatched d receipt =
    receipt.dispatch_id == d.id
    && host_eq receipt.provider d.provider
    && receipt.review_started_at == d.started_at
    && same_id receipt.task_id d.task_id
    && option_eq d.run_id (some receipt.run_id)
    && same_id receipt.provider_id d.provider_id
    && same_text receipt.provider_account_label d.provider_account_label

unfoldable pub binds_execution : PendingCompletion → ReviewedRun → Receipt → Bool
binds_execution pending reviewed receipt =
    option_eq receipt.reviewed_run_id (some reviewed.run_id)
    && option_eq receipt.task_id (some reviewed.task_id)
    && same_text receipt.source_tree_digest pending.source_tree_digest
    && not (option_eq receipt.reviewed_run_id (some receipt.run_id))

unfoldable pub find_run : ℕ → List AgentRun → Option AgentRun
find_run id runs = find (λ r. r.id == id) runs

-- The session of a run is recorded, and is the receipt's.
abbrev pub same_session : Option Text → Option Text → Bool
same_session session recorded = has_text (get_or session []) && option_eq session recorded

unfoldable pub is_review_run : List AgentProvider → Receipt → AgentRun → Bool
is_review_run providers receipt r = elim (find (λ p. p.id == r.provider_id) providers) [
  | none ↦ false
  | some p ↦
      option_eq receipt.task_id (some r.task_id)
      && option_eq receipt.provider_id (some r.provider_id)
      && p.name == provider_of receipt.provider
      && option_eq receipt.provider_account_label (some p.account_label)
      && purpose_eq r.purpose review
      && is_none r.independence_loss
      && option_eq r.source_head (some receipt.source_head)
      && same_session r.session_ref receipt.review_session_ref
      && is_succeeded r.status
]

unfoldable pub is_reviewed_run : ReviewedRun → Receipt → AgentRun → Bool
is_reviewed_run reviewed receipt r =
    option_eq receipt.task_id (some r.task_id)
    && r.provider_id == reviewed.provider_id
    && (purpose_eq r.purpose implementation || purpose_eq r.purpose repair)
    && option_eq r.source_head (some receipt.source_head)
    && same_session r.session_ref receipt.reviewed_session_ref
    && is_succeeded r.status

unfoldable pub check_pending : SupervisorGoal → PendingCompletion → Receipt → Result Text
check_pending g pending receipt = do
  head ← require (filled pending.source_head) no_exact_head
  _ ← guard (receipt.project == g.project && receipt.goal_id == g.id) other_goal
  _ ← guard (head == receipt.source_head) other_head
  _ ←
      guard
        (receipt.pending_claimed_at == pending.claimed_at
          && leb pending.claimed_at receipt.review_started_at)
        stale_receipt
  dispatch ← require pending.review_dispatch foreign_dispatch
  _ ← guard (is_dispatched dispatch receipt) foreign_dispatch
  ok head

unfoldable pub check_review_run : Tables → List AgentProvider → Receipt → Result AgentRun
check_review_run t providers receipt = do
  run ← require (find_run receipt.run_id t.runs) review_run_invalid
  _ ← guard (is_review_run providers receipt run) review_run_invalid
  ok run

unfoldable pub check_reviewed_run : Tables → ReviewedRun → Receipt → Result AgentRun
check_reviewed_run t reviewed receipt = do
  id ← require receipt.reviewed_run_id reviewed_run_invalid
  run ← require (find_run id t.runs) reviewed_run_invalid
  _ ← guard (is_reviewed_run reviewed receipt run) reviewed_run_invalid
  ok run

unfoldable pub check_runs : Tables → List AgentProvider → PendingCompletion → Receipt → Result Unit
check_runs t providers pending receipt = do
  reviewed ← require pending.reviewed_run unbound_execution
  _ ← guard (binds_execution pending reviewed receipt) unbound_execution
  _ ← check_review_run t providers receipt
  _ ← check_reviewed_run t reviewed receipt
  ok tt

-- The checks in their order; what comes back is the exact head of the pending completion.
unfoldable pub check_receipt :
    Tables → List AgentProvider → SupervisorGoal → PendingCompletion → Receipt → Result Text
check_receipt t providers g pending receipt = do
  head ← check_pending g pending receipt
  _ ← check_runs t providers pending receipt
  _ ← guard (has_text receipt.evidence) no_evidence
  ok head
