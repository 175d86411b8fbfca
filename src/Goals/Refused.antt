-- ===== src/Goals/Refused.antt =====
-- What a grade that fails leaves behind (src/supervisor/state.ts, applyIndependentCompletionGrade).
use project_baracks.Prelude.{
  ◌≡◌, ◌⊎◌, refl, sym, ◌∙◌, subst, inl, inr, arith, ℕ, ◌==◌, Eq-ℕ, nat_eq_iff, Eq-Text, ◌&&◌, none,
  some, List, [], ◌∷◌, find, find-Mem, Bool-cases,
}
use project_baracks.Records.Types.{Receipt, is_pass}
use project_baracks.Goals.Types.{
  active, PendingCompletion, GoalSummary, reopened_at_commit, SupervisorGoal,
}
use project_baracks.Goals.Live.{by_id, update_first}
use project_baracks.Goals.Receipt.{GradeError, Result-cases, err}
use project_baracks.Goals.Grade.{
  World, GradeState, Verdicted, refused, accepted, judged, settle, graded, reopened, with_goal,
  claim_for_grade, apply_independent_completion_grade, source_identity_matches,
}
use project_baracks.Goals.Earned.{claim_for_grade-facts}

find-replaced :
    (id : ℕ) (g y : SupervisorGoal) (goals : List SupervisorGoal)
    → find (by_id id) goals ≡ some g
    → y.id ≡ id
    → find (by_id id) (update_first (by_id id) (λ x. y) goals) ≡ some y
unfolding update_first
find-replaced id g y [] h own = absurd (ground arith)
find-replaced id g y (x ∷ xs) h own = elim (Bool-cases (x.id == id)) [
  | inl e ↦ rw (e, (nat_eq_iff y.id id).1 own) refl
  | inr e ↦ ground (arith, e, find-replaced id g y xs)
]

-- The database is as it was; the goals are as they were, or the graded one is open again.
unfoldable pub IsUndone : GradeState → (goal_id : ℕ) → GradeState → Type 0
IsUndone s goal_id next =
    (next.tasks ≡ s.tasks)
    × (next.commits ≡ s.commits)
    × (next.tables ≡ s.tables)
    × ((next.goals ≡ s.goals)
        ⊎ ((g : SupervisorGoal) × (find (by_id goal_id) next.goals ≡ some g)
            × (g.status ≡ active)
            × (g.pending_completion ≡ none)))

reopen-IsUndone :
    (s : GradeState) (goal_id now : ℕ) (g h : SupervisorGoal) (summary : GoalSummary)
    → find (by_id goal_id) s.goals ≡ some g
    → h.id ≡ g.id
    → IsUndone s goal_id (with_goal (reopened now summary h) s)
unfolding IsUndone reopened
reopen-IsUndone s goal_id now g h summary found same =
    let own : h.id ≡ goal_id =
      same ∙ (nat_eq_iff g.id goal_id).0 (find-Mem (by_id goal_id) g s.goals found).1 in
    let y : SupervisorGoal = reopened now summary h in
    (
      refl,
      refl,
      refl,
      inr (
        y,
        subst (λ i. find (by_id goal_id) (update_first (by_id i) (λ x. y) s.goals) ≡ some y)
            (sym own) (find-replaced goal_id g y s.goals found own),
        refl,
        refl,
      ),
    )

reopened-id :
    (now : ℕ) (summary : GoalSummary) (g : SupervisorGoal) → (reopened now summary g).id ≡ g.id
unfolding reopened
reopened-id now summary g = refl

pub graded-id :
    (now : ℕ) (pending : PendingCompletion) (receipt : Receipt) (g : SupervisorGoal)
    → (graded now pending receipt g).id ≡ g.id
unfolding graded
graded-id now pending receipt g = elim (Bool-cases (is_pass receipt.verdict)) [
  | inl e ↦ rw e refl
  | inr e ↦ rw e refl
]

settle-IsUndone :
    (w : World) (s next : GradeState) (goal_id : ℕ) (g : SupervisorGoal)
    (pending : PendingCompletion) (receipt : Receipt) (v : Verdicted) (x : GradeError)
    → find (by_id goal_id) s.goals ≡ some g
    → settle w s g pending receipt v ≡ (next, err x)
    → IsUndone s goal_id next
unfolding settle
settle-IsUndone w s next goal_id g pending receipt (refused e summary) x found h =
    elim (Bool-cases w.is_uncontended_at_commit) [
      | inl f ↦
          subst (IsUndone s goal_id) (ground (arith, f))
            (reopen-IsUndone s goal_id w.now g g summary found refl)
      | inr f ↦ subst (IsUndone s goal_id) (ground (arith, f)) (
          reopen-IsUndone s goal_id w.now g (reopened w.now summary g) reopened_at_commit found
            (reopened-id w.now summary g))
    ]
settle-IsUndone w s next goal_id g pending receipt (accepted head) x found h =
    let undone : IsUndone s goal_id
        (with_goal (reopened w.now reopened_at_commit (graded w.now pending receipt g)) s) =
      reopen-IsUndone s goal_id w.now g (graded w.now pending receipt g) reopened_at_commit found
        (graded-id w.now pending receipt g) in
    elim (Bool-cases
      (source_identity_matches head pending.source_tree_digest w.identity_at_commit)) [
        | inr e ↦ subst (IsUndone s goal_id) (ground (arith, e)) undone
        | inl e ↦ elim (Bool-cases (w.is_uncontended && w.is_uncontended_at_commit)) [
          | inr f ↦ subst (IsUndone s goal_id) (ground (arith, e, f)) undone
          | inl f ↦ absurd (ground (arith, e, f))
        ]
      ]

-- A grade that fails completes no task and records no commit: the goals are as they were, or the
-- graded one is active again without its pending completion.
pub apply_independent_completion_grade-IsUndone :
    (w : World) (goal_id receipt_id : ℕ) (s next : GradeState) (x : GradeError)
    → apply_independent_completion_grade w goal_id receipt_id s ≡ (next, err x)
    → IsUndone s goal_id next
unfolding apply_independent_completion_grade IsUndone
apply_independent_completion_grade-IsUndone w goal_id receipt_id s next x h =
    elim (Result-cases (claim_for_grade w goal_id receipt_id s)) [
      | inr (y, e) ↦
          let same : s ≡ next = ground (arith, e) in
          subst (IsUndone s goal_id) same (refl, refl, refl, inl refl)
      | inl (c, e) ↦
          let (found, _, _, _) = claim_for_grade-facts w goal_id receipt_id s c e in
          settle-IsUndone w s next goal_id c.goal c.pending c.receipt
            (judged w s c.goal c.pending c.receipt c.head) x found (ground (arith, e))
    ]
