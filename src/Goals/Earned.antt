-- ===== src/Goals/Earned.antt =====
-- A goal is done only by an independent review of its exact candidate (src/supervisor/state.ts,
-- applyIndependentCompletionGrade).
use project_baracks.Prelude.{
  ◌≡◌, refl, sym, ◌∙◌, subst, inl, inr, arith, ℕ, ◌==◌, Eq-ℕ, nat_eq_iff, Text, Eq-Text, true, ◌&&◌,
  none, some, List, find, find-Mem, Mem, Bool-cases, Option-cases,
}
use project_baracks.Sdlc.Decisions.{has_text}
use project_baracks.Records.Types.{Receipt, Verdict, pass, is_pass, Tables}
use project_baracks.Runs.Types.{AgentProvider}
use project_baracks.Goals.Types.{PendingCompletion, SupervisorGoal, is_done}
use project_baracks.Goals.Live.{by_id}
use project_baracks.Goals.Receipt.{
  Result-cases, ok, bind-ok, guard, require, check_pending, check_runs, check_receipt,
}
use project_baracks.Goals.Authority.{binding_failure}
use project_baracks.Goals.Grade.{
  World, GradeState, Verdicted, refused, accepted, judged, settle, graded, Claimed, claim_for_grade,
  apply_independent_completion_grade, source_identity_matches,
}
use project_baracks.Goals.Bound.{IsTree, identity-IsTree, HasCandidate, binding_failure-none}
use project_baracks.Goals.Graded.{
  IsReviewed, IsForClaim, guard-true, require-some, check_pending-facts, check_runs-IsReviewed,
}

-- The goal had a pending completion whose candidate stands. A receipt of this claim, on the head and
-- the tree of that candidate, passed it; they were the source tree's at the grade and at the
-- commit. The receipt's runs are there: an independent run reviewed another run.
unfoldable pub IsEarned : World → GradeState → (goal_id receipt_id : ℕ) → Type 0
IsEarned w s goal_id receipt_id =
    (g : SupervisorGoal) × (pending : PendingCompletion) × (receipt : Receipt) × (find
        (by_id goal_id) s.goals
      ≡ some g)
    × (g.pending_completion ≡ some pending)
    × Mem receipt s.tables.receipts
    × (receipt.id ≡ receipt_id)
    × (receipt.verdict ≡ pass)
    × (has_text receipt.evidence ≡ true)
    × IsForClaim g pending receipt
    × (receipt.source_tree_digest ≡ pending.source_tree_digest)
    × IsTree receipt.source_head pending.source_tree_digest w.identity
    × IsTree receipt.source_head pending.source_tree_digest w.identity_at_commit
    × IsReviewed s.tables pending receipt
    × HasCandidate w s g pending

pub claim_for_grade-facts :
    (w : World) (goal_id receipt_id : ℕ) (s : GradeState) (c : Claimed)
    → claim_for_grade w goal_id receipt_id s ≡ ok c
    → (find (by_id goal_id) s.goals ≡ some c.goal)
      × (c.goal.pending_completion ≡ some c.pending)
      × (find (λ (r : Receipt). r.id == receipt_id) s.tables.receipts ≡ some c.receipt)
      × (check_receipt s.tables s.providers c.goal c.pending c.receipt ≡ ok c.head)
unfolding claim_for_grade
claim_for_grade-facts w goal_id receipt_id s c h =
    let (g, g_e, h1) = bind-ok (require (find (by_id goal_id) s.goals) _) h in
    let (fence, _, h2) = bind-ok (require w.fence _) h1 in
    let (_, _, h3) = bind-ok (guard (w.resolve fence == w.resolve g.repo_path) _) h2 in
    let (receipt, receipt_e, h4) =
      bind-ok (require (find (λ (r : Receipt). r.id == receipt_id) s.tables.receipts) _) h3 in
    let (pending, pending_e, h5) = bind-ok (require g.pending_completion _) h4 in
    let (head, checked, last) = bind-ok (check_receipt s.tables s.providers g pending receipt) h5 in
    let built : Claimed = record { goal = g; pending = pending; receipt = receipt; head = head } in
    let same : built ≡ c = ground (arith, last) in
    subst
      (λ (x : Claimed).
        (find (by_id goal_id) s.goals ≡ some x.goal)
        × (x.goal.pending_completion ≡ some x.pending)
        × (find (λ (r : Receipt). r.id == receipt_id) s.tables.receipts ≡ some x.receipt)
        × (check_receipt s.tables s.providers x.goal x.pending x.receipt ≡ ok x.head))
      same
      (
        require-some (find (by_id goal_id) s.goals) _ g g_e,
        require-some g.pending_completion _ pending pending_e,
        require-some (find (λ (r : Receipt). r.id == receipt_id) s.tables.receipts) _ receipt
            receipt_e,
        checked,
      )

check_receipt-facts :
    (t : Tables) (providers : List AgentProvider) (g : SupervisorGoal) (pending : PendingCompletion)
    (receipt : Receipt) (head : Text)
    → check_receipt t providers g pending receipt ≡ ok head
    → (head ≡ receipt.source_head)
      × IsForClaim g pending receipt
      × (receipt.source_tree_digest ≡ pending.source_tree_digest)
      × IsReviewed t pending receipt
      × (has_text receipt.evidence ≡ true)
unfolding check_receipt
check_receipt-facts t providers g pending receipt head h =
    let (at, at_e, h1) = bind-ok (check_pending g pending receipt) h in
    let (_, runs_e, h2) = bind-ok (check_runs t providers pending receipt) h1 in
    let (_, told, last) = bind-ok (guard (has_text receipt.evidence) _) h2 in
    let own : at ≡ head = ground (arith, last) in
    let (same, its) = check_pending-facts g pending receipt at at_e in
    let (tree, reviewed) = check_runs-IsReviewed t providers pending receipt runs_e in
    (sym own ∙ same, its, tree, reviewed, guard-true _ _ told)

settle-ok :
    (w : World) (s next : GradeState) (g out : SupervisorGoal) (pending : PendingCompletion)
    (receipt : Receipt) (v : Verdicted)
    → settle w s g pending receipt v ≡ (next, ok out)
    → (head : Text) × (v ≡ accepted head)
      × (source_identity_matches head pending.source_tree_digest w.identity_at_commit ≡ true)
      × (graded w.now pending receipt g ≡ out)
unfolding settle
settle-ok w s next g out pending receipt (refused e summary) h =
    elim (Bool-cases w.is_uncontended_at_commit) [
      | inl f ↦ absurd (ground (arith, f))
      | inr f ↦ absurd (ground (arith, f))
    ]
settle-ok w s next g out pending receipt (accepted head) h =
    elim (Bool-cases
      (source_identity_matches head pending.source_tree_digest w.identity_at_commit)) [
        | inr e ↦ absurd (ground (arith, e))
        | inl e ↦ elim (Bool-cases (w.is_uncontended && w.is_uncontended_at_commit)) [
          | inr f ↦ absurd (ground (arith, e, f))
          | inl f ↦ (head, refl, e, ground (arith, e, f))
        ]
      ]

judged-accepted :
    (w : World) (s : GradeState) (g : SupervisorGoal) (pending : PendingCompletion)
    (receipt : Receipt) (head out : Text)
    → judged w s g pending receipt head ≡ accepted out
    → is_pass receipt.verdict ≡ true
    → (head ≡ out)
      × (source_identity_matches head pending.source_tree_digest w.identity ≡ true)
      × (binding_failure w.read_criteria w.resolve s.tables s.tasks g.repo_path pending ≡ none)
unfolding judged
judged-accepted w s g pending receipt head out h passed =
    elim (Bool-cases (source_identity_matches head pending.source_tree_digest w.identity)) [
      | inr e ↦ absurd (ground (arith, e))
      | inl e ↦
          elim (Option-cases
            (binding_failure w.read_criteria w.resolve s.tables s.tasks g.repo_path pending)) [
              | inr (failure, f) ↦ absurd (ground (arith, e, passed, f))
              | inl f ↦ (ground (arith, e, passed, f), e, f)
            ]
    ]

graded_done :
    (now : ℕ) (pending : PendingCompletion) (receipt : Receipt) (g : SupervisorGoal)
    → is_done (graded now pending receipt g).status ≡ true
    → is_pass receipt.verdict ≡ true
unfolding graded
graded_done now pending receipt g h = ground arith

passed : (v : Verdict) → is_pass v ≡ true → v ≡ pass
passed v h = ground arith

-- A grade that leaves its goal done was earned. The pending completion has a candidate of its own
-- head and tree. A receipt with evidence passed it that is of this project, goal and claim, whose
-- review started after the claim and was dispatched by it, and which names that head and that tree;
-- the source tree had both at the grade and at the commit. The receipt names two different
-- succeeded runs at that head and of one task: a review without a loss of independence, and the
-- run of the pending completion that implemented or repaired. The candidate's task is still the
-- canonical one of the repository, with the frozen criteria, and promotable; where the candidate
-- has no task, the repository is no project's, or its project has no task that is ready to merge.
pub apply_independent_completion_grade-IsEarned :
    (w : World) (goal_id receipt_id : ℕ) (s next : GradeState) (out : SupervisorGoal)
    → apply_independent_completion_grade w goal_id receipt_id s ≡ (next, ok out)
    → is_done out.status ≡ true
    → IsEarned w s goal_id receipt_id
unfolding apply_independent_completion_grade IsEarned
apply_independent_completion_grade-IsEarned w goal_id receipt_id s next out h finished =
    elim (Result-cases (claim_for_grade w goal_id receipt_id s)) [
      | inr (x, e) ↦ absurd (ground (arith, e))
      | inl (c, e) ↦
          let (found, waits, there, checked) = claim_for_grade-facts w goal_id receipt_id s c e in
          let (same, its_claim, tree, reviewed, told) =
            check_receipt-facts s.tables s.providers c.goal c.pending c.receipt c.head checked in
          let verdict : Verdicted = judged w s c.goal c.pending c.receipt c.head in
          let (head, accepts, at_commit, its) =
            settle-ok w s next c.goal out c.pending c.receipt verdict (ground (arith, e)) in
          let sure : is_pass c.receipt.verdict ≡ true =
            graded_done w.now c.pending c.receipt c.goal
              (subst (λ (x : SupervisorGoal). is_done x.status ≡ true) (sym its) finished) in
          let (own, at_grade, bound) =
            judged-accepted w s c.goal c.pending c.receipt c.head head accepts sure in
          let (inside, id) =
            find-Mem (λ (r : Receipt). r.id == receipt_id) c.receipt s.tables.receipts there in
          (
            c.goal,
            c.pending,
            c.receipt,
            found,
            waits,
            inside,
            (nat_eq_iff c.receipt.id receipt_id).0 id,
            passed c.receipt.verdict sure,
            told,
            its_claim,
            tree,
            identity-IsTree c.receipt.source_head c.pending.source_tree_digest w.identity (
                subst
                  (λ t. source_identity_matches t c.pending.source_tree_digest w.identity ≡ true)
                  same at_grade),
            identity-IsTree c.receipt.source_head c.pending.source_tree_digest w.identity_at_commit
                (subst
                  (λ t.
                    source_identity_matches t c.pending.source_tree_digest w.identity_at_commit
                    ≡ true)
                  (sym own ∙ same) at_commit),
            reviewed,
            binding_failure-none w s c.goal c.pending bound,
          )
    ]
