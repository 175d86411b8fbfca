-- ===== src/Goals/Recovery.antt =====
-- The recovery of a grade that the database committed and the state did not keep
-- (src/supervisor/state.ts, recoverSupervisorCompletion).
use project_baracks.Prelude.{
  ℕ, ◌==◌, Eq-ℕ, ltb, Eq-Text, Bool, true, false, not, ◌&&◌, ◌||◌, Option, none, some, is_none,
  List, [], ◌∷◌, keep, find, if◌then◌else◌,
}
use project_baracks.Records.Types.{is_pass}
use project_baracks.Goals.Types.{PendingCompletion, SupervisorGoal, GoalStatus, active, is_done}
use project_baracks.Goals.Live.{by_id, update_first}
use project_baracks.Goals.Grade.{CompletionCommit}

pub data Recovered : Type 0 where
  nothing_committed invalid_projection goal_missing : Recovered
  recovered : SupervisorGoal → Recovered

-- `orderBy(desc(createdAt)).get()`
unfoldable pub latest : List CompletionCommit → Option CompletionCommit
latest [] = none
latest (c ∷ cs) = elim (latest cs) [
  | none ↦ some c
  | some d ↦ if ltb c.created_at d.created_at then some d else some c
]

abbrev pub is_active : GoalStatus → Bool
is_active active = true
is_active _ = false

-- The projection is one that a grade writes.
unfoldable pub is_projection : (goal_id : ℕ) → CompletionCommit → Bool
is_projection goal_id c =
    c.final_goal.id == goal_id
    && c.final_goal.project == c.project
    && is_none c.final_goal.pending_completion
    && (if is_pass c.verdict then is_done c.final_goal.status else is_active c.final_goal.status)

-- The claim that was graded is still the pending one.
abbrev awaits : CompletionCommit → Option PendingCompletion → Bool
awaits c none = false
awaits c (some pending) = pending.claimed_at == c.pending_claimed_at

unfoldable pub replay :
    CompletionCommit → SupervisorGoal → List SupervisorGoal → List SupervisorGoal × Recovered
replay c current goals =
    if is_done current.status || not (awaits c current.pending_completion)
    then (goals, recovered current)
    else (update_first (by_id current.id) (λ g. c.final_goal) goals, recovered c.final_goal)

unfoldable pub recover_supervisor_completion :
    (goal_id : ℕ) → List CompletionCommit → List SupervisorGoal → List SupervisorGoal × Recovered
recover_supervisor_completion goal_id commits goals =
    elim (latest (keep (λ c. c.goal_id == goal_id) commits)) [
      | none ↦ (goals, nothing_committed)
      | some c ↦
          if not (is_projection goal_id c)
          then (goals, invalid_projection)
          else elim (find (by_id goal_id) goals) [
            | none ↦ (goals, goal_missing)
            | some current ↦ replay c current goals
          ]
    ]
