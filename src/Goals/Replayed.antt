-- ===== src/Goals/Replayed.antt =====
-- A grade survives a crash between the commit of the database and the write of the state
-- (src/supervisor/state.ts, recoverSupervisorCompletion after applyIndependentCompletionGrade).
use mathlib.Core.Option.{some-injective}
use project_baracks.Prelude.{
  ◌≡◌, ◌<◌, refl, sym, ap, ◌∙◌, subst, inl, inr, arith, ℕ, ◌==◌, Eq-ℕ, nat_eq_iff, Text, Eq-Text,
  text_eq_iff, Bool, true, false, ◌&&◌, some, List, [], ◌∷◌, ◌++◌, keep, keep-append, find,
  find-Mem, All, Bool-cases,
}
use project_baracks.Records.Types.{Receipt, is_pass}
use project_baracks.Goals.Types.{PendingCompletion, SupervisorGoal, is_done}
use project_baracks.Goals.Live.{by_id, update_first}
use project_baracks.Goals.Receipt.{Result-cases, ok}
use project_baracks.Goals.Grade.{
  World, GradeState, CompletionCommit, Verdicted, refused, accepted, judged, settle, graded,
  claim_for_grade, apply_independent_completion_grade, source_identity_matches,
}
use project_baracks.Goals.Earned.{claim_for_grade-facts}
use project_baracks.Goals.Refused.{graded-id}
use project_baracks.Goals.Recovery.{
  recovered, latest, is_projection, replay, recover_supervisor_completion,
}

abbrev commit_of :
    World → SupervisorGoal → PendingCompletion → Receipt → (head : Text) → CompletionCommit
commit_of w g pending receipt head = record {
  project = g.project;
  goal_id = g.id;
  receipt_id = receipt.id;
  pending_claimed_at = pending.claimed_at;
  source_head = head;
  source_tree_digest = pending.source_tree_digest;
  verdict = receipt.verdict;
  final_goal = graded w.now pending receipt g;
  created_at = w.now;
}

settle-committed :
    (w : World) (s next : GradeState) (g out : SupervisorGoal) (pending : PendingCompletion)
    (receipt : Receipt) (v : Verdicted)
    → settle w s g pending receipt v ≡ (next, ok out)
    → (head : Text) × (next.commits ≡ s.commits ++ commit_of w g pending receipt head ∷ [])
      × (next.goals
          ≡ update_first
              (by_id (graded w.now pending receipt g).id)
              (λ x. graded w.now pending receipt g)
              s.goals)
      × (graded w.now pending receipt g ≡ out)
unfolding settle
settle-committed w s next g out pending receipt (refused e summary) h =
    elim (Bool-cases w.is_uncontended_at_commit) [
      | inl f ↦ absurd (ground (arith, f))
      | inr f ↦ absurd (ground (arith, f))
    ]
settle-committed w s next g out pending receipt (accepted head) h =
    elim (Bool-cases
      (source_identity_matches head pending.source_tree_digest w.identity_at_commit)) [
        | inr e ↦ absurd (ground (arith, e))
        | inl e ↦ elim (Bool-cases (w.is_uncontended && w.is_uncontended_at_commit)) [
          | inr f ↦ absurd (ground (arith, e, f))
          | inl f ↦ (head, ground (arith, e, f), ground (arith, e, f), ground (arith, e, f))
        ]
      ]

All-keep : {A : Type 0} (P : A → Type 0) (q : A → Bool) (xs : List A) → All P xs → All P (keep q xs)
All-keep P q [] h = tt
All-keep P q (x ∷ xs) h = elim (Bool-cases (q x)) [
  | inl e ↦ rw e (h.0, All-keep P q xs h.1)
  | inr e ↦ rw e (All-keep P q xs h.1)
]

latest-last :
    (c : CompletionCommit) (cs : List CompletionCommit)
    → All (λ d. d.created_at < c.created_at) cs
    → latest (cs ++ c ∷ []) ≡ some c
unfolding latest
latest-last c [] h = refl
latest-last c (d ∷ cs) h = rw (latest, latest-last c cs h.1) (ground (arith, h.0))

graded-projection :
    (w : World) (g : SupervisorGoal) (pending : PendingCompletion) (receipt : Receipt) (head : Text)
    → is_projection g.id (commit_of w g pending receipt head) ≡ true
unfolding is_projection graded
graded-projection w g pending receipt head = elim (Bool-cases (is_pass receipt.verdict)) [
  | inl e ↦ rw e (ground (arith, nat_eq_iff g.id g.id, text_eq_iff g.project g.project))
  | inr e ↦ rw e (ground (arith, nat_eq_iff g.id g.id, text_eq_iff g.project g.project))
]

committed_last :
    (w : World) (s : GradeState) (goal_id : ℕ) (g : SupervisorGoal) (pending : PendingCompletion)
    (receipt : Receipt) (head : Text)
    → All (λ c. c.created_at < w.now) s.commits
    → g.id ≡ goal_id
    → latest
        (keep (λ c. c.goal_id == goal_id) (s.commits ++ commit_of w g pending receipt head ∷ []))
      ≡ some (commit_of w g pending receipt head)
committed_last w s goal_id g pending receipt head earlier own =
    let c : CompletionCommit = commit_of w g pending receipt head in
    let q : CompletionCommit → Bool = λ c. c.goal_id == goal_id in
    subst (λ l. latest l ≡ some c) (sym (keep-append q s.commits (c ∷ [])))
      (rw ((nat_eq_iff g.id goal_id).1 own) (
        latest-last c (keep q s.commits)
          (All-keep (λ d. d.created_at < w.now) q s.commits earlier)))

recover_committed :
    (w : World) (s : GradeState) (goal_id : ℕ) (g : SupervisorGoal) (pending : PendingCompletion)
    (receipt : Receipt) (head : Text)
    → All (λ c. c.created_at < w.now) s.commits
    → find (by_id goal_id) s.goals ≡ some g
    → g.pending_completion ≡ some pending
    → is_done g.status ≡ false
    → recover_supervisor_completion goal_id
        (s.commits ++ commit_of w g pending receipt head ∷ [])
        s.goals
      ≡ (
        update_first (by_id g.id) (λ x. graded w.now pending receipt g) s.goals,
        recovered (graded w.now pending receipt g),
      )
unfolding recover_supervisor_completion replay
recover_committed w s goal_id g pending receipt head earlier found waits open_yet =
    let own : g.id ≡ goal_id =
      (nat_eq_iff g.id goal_id).0 (find-Mem (by_id goal_id) g s.goals found).1 in
    let projection : is_projection goal_id (commit_of w g pending receipt head) ≡ true =
      subst (λ i. is_projection i (commit_of w g pending receipt head) ≡ true) own
        (graded-projection w g pending receipt head) in
    let same : (pending.claimed_at == pending.claimed_at) ≡ true =
      (nat_eq_iff pending.claimed_at pending.claimed_at).1 refl in
    rw
      (
        recover_supervisor_completion,
        committed_last w s goal_id g pending receipt head earlier own,
        projection,
        found,
        replay,
        open_yet,
        waits,
        same,
      )
      refl

-- Where the state was not written after a grade that committed, a recovery brings the goals to what
-- the grade would have left: the goal was not done before, and no earlier commit is as late.
pub recover_supervisor_completion-replays :
    (w : World) (goal_id receipt_id : ℕ) (s next : GradeState) (out g : SupervisorGoal)
    → apply_independent_completion_grade w goal_id receipt_id s ≡ (next, ok out)
    → find (by_id goal_id) s.goals ≡ some g
    → is_done g.status ≡ false
    → All (λ c. c.created_at < w.now) s.commits
    → recover_supervisor_completion goal_id next.commits s.goals ≡ (next.goals, recovered out)
unfolding apply_independent_completion_grade recover_supervisor_completion replay
recover_supervisor_completion-replays w goal_id receipt_id s next out g h found open_yet earlier =
    elim (Result-cases (claim_for_grade w goal_id receipt_id s)) [
      | inr (x, e) ↦ absurd (ground (arith, e))
      | inl (c, e) ↦
          let (there, waits, _, _) = claim_for_grade-facts w goal_id receipt_id s c e in
          let (head, commits, goals, its) =
            settle-committed w s next c.goal out c.pending c.receipt
              (judged w s c.goal c.pending c.receipt c.head) (ground (arith, e)) in
          let same : c.goal ≡ g = some-injective c.goal g (sym there ∙ found) in
          let still : is_done c.goal.status ≡ false =
            subst (λ (x : SupervisorGoal). is_done x.status ≡ false) (sym same) open_yet in
          let final : SupervisorGoal = graded w.now c.pending c.receipt c.goal in
          let after : next.goals ≡ update_first (by_id c.goal.id) (λ x. final) s.goals =
            goals
            ∙ ap (λ i. update_first (by_id i) (λ x. final) s.goals)
                (graded-id w.now c.pending c.receipt c.goal) in
          rw
            (
              commits,
              recover_committed w s goal_id c.goal c.pending c.receipt head earlier there waits
                  still,
              after,
              its,
            )
            refl
    ]
