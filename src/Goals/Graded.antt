-- ===== src/Goals/Graded.antt =====
-- What it takes for a goal to be done (src/supervisor/state.ts, applyIndependentCompletionGrade).
use project_baracks.Prelude.{
  ◌≡◌, ◌≢◌, refl, sym, ap, ◌∙◌, subst, inl, inr, arith, ℕ, ◌==◌, Eq-ℕ, nat_eq_iff, leb, Text,
  Eq-Text, text_eq_iff, Bool, true, false, ◌&&◌, Option, none, some, option_eq, option_eq_iff, List,
  [], ◌∷◌, find, find-Mem, Mem, Option-cases, ◌⊎◌, ◌≤◌, leb→le,
}
use mathlib.Core.Option.{some-injective}
use project_baracks.Routing.Types.{implementation, repair, review}
use project_baracks.Records.Types.{AgentRun, succeeded, purpose_eq_iff, Receipt, Tables}
use project_baracks.Runs.Types.{AgentProvider}
use project_baracks.Goals.Types.{ReviewDispatch, ReviewedRun, PendingCompletion, SupervisorGoal}
use project_baracks.Goals.Receipt.{
  ok, bind-ok, guard, require, filled, is_dispatched, binds_execution, find_run, is_review_run,
  is_reviewed_run, check_pending, check_review_run, check_reviewed_run, check_runs, GradeError,
}

pub guard-true : (b : Bool) (e : GradeError) → guard b e ≡ ok tt → b ≡ true
guard-true true e h = refl
guard-true false e h = absurd (ground arith)

pub require-some :
    {A : Type 0} (a : Option A) (e : GradeError) (x : A) → require a e ≡ ok x → a ≡ some x
require-some none e x h = absurd (ground arith)
require-some (some y) e x h = ground arith

filled-some : (a : Option Text) (x : Text) → filled a ≡ some x → a ≡ some x
filled-some none x h = absurd (ground arith)
filled-some (some []) x h = absurd (ground arith)
filled-some (some (c ∷ cs)) x h = h

-- The runs that the receipt names, both at its head and succeeded: one of its task that reviewed
-- without a loss of independence, in the receipt's session, and another one, which is the reviewed
-- run of the pending completion and implemented or repaired its task.
unfoldable pub IsReviewed : Tables → PendingCompletion → Receipt → Type 0
IsReviewed t pending receipt =
    (reviewed : ReviewedRun) × (r : AgentRun) × (i : AgentRun) × (pending.reviewed_run
      ≡ some reviewed)
    × Mem r t.runs
    × Mem i t.runs
    × (receipt.run_id ≡ r.id)
    × (receipt.reviewed_run_id ≡ some i.id)
    × (reviewed.run_id ≡ i.id)
    × (r.id ≢ i.id)
    × (receipt.task_id ≡ some reviewed.task_id)
    × (r.task_id ≡ reviewed.task_id)
    × (i.task_id ≡ reviewed.task_id)
    × (r.purpose ≡ review)
    × (r.status ≡ succeeded)
    × (r.independence_loss ≡ none)
    × (r.source_head ≡ some receipt.source_head)
    × (r.session_ref ≡ receipt.review_session_ref)
    × ((i.purpose ≡ implementation) ⊎ (i.purpose ≡ repair))
    × (i.status ≡ succeeded)
    × (i.source_head ≡ some receipt.source_head)
    × (i.session_ref ≡ receipt.reviewed_session_ref)
    × (i.provider_id ≡ reviewed.provider_id)

-- The receipt is one of the goal's own project, of this goal and of this claim of its completion: the
-- review started after the claim, was dispatched by it as this run, and saw its head and its tree.
unfoldable pub IsForClaim : SupervisorGoal → PendingCompletion → Receipt → Type 0
IsForClaim g pending receipt =
    (dispatch : ReviewDispatch) × (pending.review_dispatch ≡ some dispatch)
    × (receipt.dispatch_id ≡ dispatch.id)
    × (dispatch.run_id ≡ some receipt.run_id)
    × (receipt.review_started_at ≡ dispatch.started_at)
    × (receipt.project ≡ g.project)
    × (receipt.goal_id ≡ g.id)
    × (receipt.pending_claimed_at ≡ pending.claimed_at)
    × (pending.claimed_at ≤ receipt.review_started_at)
    × (pending.source_head ≡ some receipt.source_head)

review_run_facts :
    (providers : List AgentProvider) (receipt : Receipt) (r : AgentRun)
    → is_review_run providers receipt r ≡ true
    → (receipt.task_id ≡ some r.task_id)
      × (r.purpose ≡ review)
      × (r.status ≡ succeeded)
      × (r.independence_loss ≡ none)
      × (r.source_head ≡ some receipt.source_head)
      × (r.session_ref ≡ receipt.review_session_ref)
unfolding is_review_run
review_run_facts providers receipt r h =
    elim (Option-cases (find (λ p. p.id == r.provider_id) providers)) [
      | inl e ↦ absurd (ground (arith, e))
      | inr (p, e) ↦ (
        (option_eq_iff receipt.task_id (some r.task_id)).0 (ground (arith, e)),
        (purpose_eq_iff r.purpose review).0 (ground (arith, e)),
        ground (arith, e),
        ground (arith, e),
        (option_eq_iff r.source_head (some receipt.source_head)).0 (ground (arith, e)),
        (option_eq_iff r.session_ref receipt.review_session_ref).0 (ground (arith, e)),
      )
    ]

reviewed_run_facts :
    (reviewed : ReviewedRun) (receipt : Receipt) (i : AgentRun)
    → is_reviewed_run reviewed receipt i ≡ true
    → (receipt.task_id ≡ some i.task_id)
      × ((i.purpose ≡ implementation) ⊎ (i.purpose ≡ repair))
      × (i.status ≡ succeeded)
      × (i.source_head ≡ some receipt.source_head)
      × (i.session_ref ≡ receipt.reviewed_session_ref)
      × (i.provider_id ≡ reviewed.provider_id)
unfolding is_reviewed_run
reviewed_run_facts reviewed receipt i h = (
  (option_eq_iff receipt.task_id (some i.task_id)).0 (ground arith),
  ground (arith, purpose_eq_iff i.purpose implementation, purpose_eq_iff i.purpose repair),
  ground arith,
  (option_eq_iff i.source_head (some receipt.source_head)).0 (ground arith),
  (option_eq_iff i.session_ref receipt.reviewed_session_ref).0 (ground arith),
  (nat_eq_iff i.provider_id reviewed.provider_id).0 (ground arith),
)

find_run-facts :
    (id : ℕ) (runs : List AgentRun) (r : AgentRun)
    → find_run id runs ≡ some r
    → Mem r runs × (r.id ≡ id)
unfolding find_run
find_run-facts id runs r h =
    let (inside, own) = find-Mem (λ x. x.id == id) r runs h in (inside, (nat_eq_iff r.id id).0 own)

pub check_pending-facts :
    (g : SupervisorGoal) (pending : PendingCompletion) (receipt : Receipt) (head : Text)
    → check_pending g pending receipt ≡ ok head
    → (head ≡ receipt.source_head) × IsForClaim g pending receipt
unfolding check_pending is_dispatched IsForClaim
check_pending-facts g pending receipt head h =
    let (at, at_e, h1) = bind-ok (require (filled pending.source_head) _) h in
    let (_, its, h2) =
      bind-ok (guard (receipt.project == g.project && receipt.goal_id == g.id) _) h1 in
    let (_, same, h3) = bind-ok (guard (at == receipt.source_head) _) h2 in
    let (_, timed, h4) =
      bind-ok
        (guard
          (receipt.pending_claimed_at == pending.claimed_at
            && leb pending.claimed_at receipt.review_started_at)
          _)
        h3 in
    let (dispatch, dispatch_e, h5) = bind-ok (require pending.review_dispatch _) h4 in
    let (_, sent, last) = bind-ok (guard (is_dispatched dispatch receipt) _) h5 in
    let own : at ≡ head = ground (arith, last) in
    let its_goal : (receipt.project == g.project && receipt.goal_id == g.id) ≡ true =
      guard-true _ _ its in
    let in_time : (receipt.pending_claimed_at == pending.claimed_at
          && leb pending.claimed_at receipt.review_started_at)
        ≡ true =
      guard-true _ _ timed in
    let sent_out : is_dispatched dispatch receipt ≡ true = guard-true _ _ sent in
    let at_head : at ≡ receipt.source_head =
      (text_eq_iff at receipt.source_head).0 (guard-true _ _ same) in
    (
      sym own ∙ at_head,
      (
        dispatch,
        require-some _ _ dispatch dispatch_e,
        (nat_eq_iff receipt.dispatch_id dispatch.id).0 (ground (arith, sent_out)),
        (option_eq_iff dispatch.run_id (some receipt.run_id)).0 (ground (arith, sent_out)),
        (nat_eq_iff receipt.review_started_at dispatch.started_at).0 (ground (arith, sent_out)),
        (text_eq_iff receipt.project g.project).0 (ground (arith, its_goal)),
        (nat_eq_iff receipt.goal_id g.id).0 (ground (arith, its_goal)),
        (nat_eq_iff receipt.pending_claimed_at pending.claimed_at).0 (ground (arith, in_time)),
        leb→le _ _ (ground (arith, in_time)),
        filled-some pending.source_head at (require-some _ _ at at_e) ∙ ap some at_head,
      ),
    )

check_review_run-facts :
    (t : Tables) (providers : List AgentProvider) (receipt : Receipt) (r : AgentRun)
    → check_review_run t providers receipt ≡ ok r
    → Mem r t.runs × (r.id ≡ receipt.run_id) × (is_review_run providers receipt r ≡ true)
unfolding check_review_run
check_review_run-facts t providers receipt r h =
    let (run, run_e, h1) = bind-ok (require (find_run receipt.run_id t.runs) _) h in
    let (_, sure, last) = bind-ok (guard (is_review_run providers receipt run) _) h1 in
    let own : run ≡ r = ground (arith, last) in
    let (inside, id) = find_run-facts receipt.run_id t.runs run (require-some _ _ run run_e) in
    subst (λ x. Mem x t.runs × (x.id ≡ receipt.run_id) × (is_review_run providers receipt x ≡ true))
      own (inside, id, guard-true _ _ sure)

check_reviewed_run-facts :
    (t : Tables) (reviewed : ReviewedRun) (receipt : Receipt) (i : AgentRun)
    → check_reviewed_run t reviewed receipt ≡ ok i
    → Mem i t.runs
      × (receipt.reviewed_run_id ≡ some i.id)
      × (is_reviewed_run reviewed receipt i ≡ true)
unfolding check_reviewed_run
check_reviewed_run-facts t reviewed receipt i h =
    let (id, id_e, h1) = bind-ok (require receipt.reviewed_run_id _) h in
    let (run, run_e, h2) = bind-ok (require (find_run id t.runs) _) h1 in
    let (_, sure, last) = bind-ok (guard (is_reviewed_run reviewed receipt run) _) h2 in
    let own : run ≡ i = ground (arith, last) in
    let (inside, same) = find_run-facts id t.runs run (require-some _ _ run run_e) in
    subst
      (λ x.
        Mem x t.runs
        × (receipt.reviewed_run_id ≡ some x.id)
        × (is_reviewed_run reviewed receipt x ≡ true))
      own (inside, require-some _ _ id id_e ∙ ap some (sym same), guard-true _ _ sure)

-- The receipt binds two different runs, and it saw the tree of the pending completion.
binds-facts :
    (pending : PendingCompletion) (reviewed : ReviewedRun) (receipt : Receipt)
    → binds_execution pending reviewed receipt ≡ true
    → (receipt.reviewed_run_id ≡ some reviewed.run_id)
      × (receipt.task_id ≡ some reviewed.task_id)
      × (receipt.source_tree_digest ≡ pending.source_tree_digest)
      × (option_eq receipt.reviewed_run_id (some receipt.run_id) ≡ false)
unfolding binds_execution
binds-facts pending reviewed receipt h = (
  (option_eq_iff receipt.reviewed_run_id (some reviewed.run_id)).0 (ground arith),
  (option_eq_iff receipt.task_id (some reviewed.task_id)).0 (ground arith),
  (option_eq_iff receipt.source_tree_digest pending.source_tree_digest).0 (ground arith),
  ground arith,
)

apart_runs :
    (receipt : Receipt) (r i : AgentRun)
    → option_eq receipt.reviewed_run_id (some receipt.run_id) ≡ false
    → r.id ≡ receipt.run_id
    → receipt.reviewed_run_id ≡ some i.id
    → r.id ≢ i.id
apart_runs receipt r i h own its same =
    let again : option_eq receipt.reviewed_run_id (some receipt.run_id) ≡ true =
      (option_eq_iff receipt.reviewed_run_id (some receipt.run_id)).1
        (its ∙ ap some (sym same ∙ own)) in
    absurd (ground (arith, again, h))

pub check_runs-IsReviewed :
    (t : Tables) (providers : List AgentProvider) (pending : PendingCompletion) (receipt : Receipt)
    → check_runs t providers pending receipt ≡ ok tt
    → (receipt.source_tree_digest ≡ pending.source_tree_digest) × IsReviewed t pending receipt
unfolding check_runs IsReviewed
check_runs-IsReviewed t providers pending receipt h =
    let (reviewed, reviewed_e, h1) = bind-ok (require pending.reviewed_run _) h in
    let (_, binds, h2) = bind-ok (guard (binds_execution pending reviewed receipt) _) h1 in
    let (r, r_e, h3) = bind-ok (check_review_run t providers receipt) h2 in
    let (i, i_e, _) = bind-ok (check_reviewed_run t reviewed receipt) h3 in
    let (r_in, r_id, r_ok) = check_review_run-facts t providers receipt r r_e in
    let (i_in, i_id, i_ok) = check_reviewed_run-facts t reviewed receipt i i_e in
    let (names, of_task, tree, other) =
      binds-facts pending reviewed receipt (guard-true _ _ binds) in
    let (r_task, purpose, ended, kept, head, session) = review_run_facts providers receipt r r_ok in
    let (i_task, i_purpose, i_ended, i_head, i_session, i_provider) =
      reviewed_run_facts reviewed receipt i i_ok in
    (
      tree,
      (
        reviewed,
        r,
        i,
        require-some _ _ reviewed reviewed_e,
        r_in,
        i_in,
        sym r_id,
        i_id,
        some-injective reviewed.run_id i.id (sym names ∙ i_id),
        apart_runs receipt r i other r_id i_id,
        of_task,
        some-injective r.task_id reviewed.task_id (sym r_task ∙ of_task),
        some-injective i.task_id reviewed.task_id (sym i_task ∙ of_task),
        purpose,
        ended,
        kept,
        head,
        session,
        i_purpose,
        i_ended,
        i_head,
        i_session,
        i_provider,
      ),
    )
