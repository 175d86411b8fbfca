-- ===== src/Goals/Bound.antt =====
-- What it takes for a candidate to stand at its grade (src/supervisor/state.ts,
-- applyIndependentCompletionGrade).
use project_baracks.Prelude.{
  ◌≡◌, ◌≢◌, refl, inl, inr, arith, Eq-ℕ, nat_eq_iff, Text, Eq-Text, text_eq_iff, true, Bool-cases,
  Option, none, some, option_eq_iff, Option-cases, ◌⊎◌, [], ◌∷◌,
}
use project_baracks.Completion.Binding.{
  CanonicalTaskBinding, BindingResult, bound, unbound, project_not_found, no_ready_task,
  resolve_canonical_task_binding, is_promotable, promotion_failures,
}
use project_baracks.Completion.Criteria.{CompletionCriteria, parse_completion_criteria}
use project_baracks.Goals.Types.{
  CandidateTask, to_task, no_task, Resolution-cases, Candidate, PendingCompletion, SupervisorGoal,
}
use project_baracks.Goals.Authority.{
  is_same_task, is_frozen, is_no_task, targets, binding_failure, candidate_failure, task_failure,
}
use project_baracks.Goals.Grade.{Identity, World, GradeState, source_identity_matches}

-- What was read of the source tree has this head and this digest.
unfoldable pub IsTree : Text → Option Text → Option Identity → Type 0
IsTree head digest actual =
    (i : Identity) × (actual ≡ some i)
    × (i.source_head ≡ head)
    × (digest ≡ some i.source_tree_digest)
    × (i.source_tree_digest ≢ [])

pub identity-IsTree :
    (head : Text) (digest : Option Text) (actual : Option Identity)
    → source_identity_matches head digest actual ≡ true
    → IsTree head digest actual
unfolding source_identity_matches IsTree
identity-IsTree head (some (c ∷ cs)) (some i) h =
    let tree : i.source_tree_digest ≡ c ∷ cs =
      (text_eq_iff i.source_tree_digest (c ∷ cs)).0 (ground arith) in
    (
      i,
      refl,
      (text_eq_iff i.source_head head).0 (ground arith),
      rw tree refl,
      λ gone. ground (arith, tree, gone),
    )
identity-IsTree head _ _ h = absurd (ground arith)

-- The candidate's task is still the one that the repository is bound to, with its frozen criteria,
-- which target the candidate's head where they target one, and it is promotable.
unfoldable pub IsBound :
    World → GradeState → SupervisorGoal → (head : Text) → CandidateTask → Type 0
IsBound w s g head task =
    (b : CanonicalTaskBinding) × (criteria : CompletionCriteria) × (resolve_canonical_task_binding
        w.resolve s.tables.projects s.tasks g.repo_path
      ≡ bound b)
    × (b.task_id ≡ task.task_id)
    × (b.project_id ≡ task.project_id)
    × (b.frozen_criteria_json ≡ task.frozen_criteria_json)
    × (parse_completion_criteria w.read_criteria (some task.frozen_criteria_json) ≡ some criteria)
    × (targets criteria head ≡ true)
    × (is_promotable
          (promotion_failures w.read_criteria w.resolve s.tables s.tasks task.task_id g.repo_path)
        ≡ true)

same_task-facts :
    (task : CandidateTask) (r : BindingResult)
    → is_same_task task r ≡ true
    → (b : CanonicalTaskBinding) × (r ≡ bound b)
      × (b.task_id ≡ task.task_id)
      × (b.project_id ≡ task.project_id)
      × (b.frozen_criteria_json ≡ task.frozen_criteria_json)
unfolding is_same_task
same_task-facts task (unbound u) h = absurd (ground arith)
same_task-facts task (bound b) h = (
  b,
  refl,
  (nat_eq_iff b.task_id task.task_id).0 (ground arith),
  (nat_eq_iff b.project_id task.project_id).0 (ground arith),
  (text_eq_iff b.frozen_criteria_json task.frozen_criteria_json).0 (ground arith),
)

task_failure-none :
    (w : World) (s : GradeState) (g : SupervisorGoal) (head : Text) (task : CandidateTask)
    → task_failure w.read_criteria w.resolve s.tables s.tasks g.repo_path head task ≡ none
    → IsBound w s g head task
unfolding task_failure IsBound
task_failure-none w s g head task h =
    elim (Option-cases
      (parse_completion_criteria w.read_criteria (some task.frozen_criteria_json))) [
        | inl e ↦ absurd (ground (arith, e))
        | inr (criteria, e) ↦
            let same : is_same_task task
                  (resolve_canonical_task_binding w.resolve s.tables.projects s.tasks g.repo_path)
                ≡ true =
              ground (arith, e) in
            let (b, its, id, project, frozen) =
              same_task-facts task
                (resolve_canonical_task_binding w.resolve s.tables.projects s.tasks g.repo_path)
                same in
            (
              b,
              criteria,
              its,
              id,
              project,
              frozen,
              e,
              ground (arith, e, same),
              ground (arith, e, same),
            )
      ]

-- The repository has no project, or its project has no task that is ready to merge.
unfoldable pub HasNoTask : World → GradeState → SupervisorGoal → Type 0
HasNoTask w s g =
    let r = resolve_canonical_task_binding w.resolve s.tables.projects s.tasks g.repo_path in
    ((path : Text) × (r ≡ unbound (project_not_found path))) ⊎ (r ≡ unbound no_ready_task)

no_task-facts :
    (r : BindingResult)
    → is_no_task r ≡ true
    → ((path : Text) × (r ≡ unbound (project_not_found path))) ⊎ (r ≡ unbound no_ready_task)
no_task-facts (unbound (project_not_found path)) h = inl (path, refl)
no_task-facts (unbound no_ready_task) h = inr refl
no_task-facts _ h = absurd (ground arith)

-- The pending completion has a candidate of its own head and tree, and what it was resolved to still
-- stands: its task is bound and promotable, or the repository has no such task.
unfoldable pub HasCandidate : World → GradeState → SupervisorGoal → PendingCompletion → Type 0
HasCandidate w s g pending =
    (c : Candidate) × (pending.candidate ≡ some c)
    × (pending.source_head ≡ some c.source_head)
    × (pending.source_tree_digest ≡ some c.source_tree_digest)
    × (((task : CandidateTask) × (c.resolution ≡ to_task task) × IsBound w s g c.source_head task)
        ⊎ ((c.resolution ≡ no_task) × HasNoTask w s g))

candidate_failure-none :
    (w : World) (s : GradeState) (g : SupervisorGoal) (c : Candidate)
    → candidate_failure w.read_criteria w.resolve s.tables s.tasks g.repo_path c ≡ none
    → ((task : CandidateTask) × (c.resolution ≡ to_task task) × IsBound w s g c.source_head task)
      ⊎ ((c.resolution ≡ no_task) × HasNoTask w s g)
unfolding candidate_failure HasNoTask
candidate_failure-none w s g c h = elim (Resolution-cases c.resolution) [
  | inl (task, to) ↦ inl (task, to, task_failure-none w s g c.source_head task (ground (arith, to)))
  | inr (inl e) ↦ inr (
    e,
    no_task-facts (resolve_canonical_task_binding w.resolve s.tables.projects s.tasks g.repo_path)
        (ground (arith, e)),
  )
  | inr (inr e) ↦ absurd (ground (arith, e))
]

pub binding_failure-none :
    (w : World) (s : GradeState) (g : SupervisorGoal) (pending : PendingCompletion)
    → binding_failure w.read_criteria w.resolve s.tables s.tasks g.repo_path pending ≡ none
    → HasCandidate w s g pending
unfolding binding_failure is_frozen HasCandidate
binding_failure-none w s g pending h = elim (Option-cases pending.candidate) [
  | inl e ↦ absurd (ground (arith, e))
  | inr (c, e) ↦ elim (Bool-cases (is_frozen pending c)) [
    | inr f ↦ absurd (ground (arith, e, f))
    | inl f ↦ (
      c,
      e,
      (option_eq_iff pending.source_head (some c.source_head)).0 (ground (arith, f)),
      (option_eq_iff pending.source_tree_digest (some c.source_tree_digest)).0 (ground (arith, f)),
      candidate_failure-none w s g c (ground (arith, e, f)),
    )
  ]
]
