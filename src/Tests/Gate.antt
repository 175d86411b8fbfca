-- ===== src/Tests/Gate.antt =====
-- The gate behind the merge queue (src/supervisor/parallel-dispatch.ts) at concrete inputs.
use project_baracks.Prelude.{◌≡◌, Eq-ℕ, refl, Eq-Text, text, true, none, some, [], ◌∷◌, find}
use project_baracks.Lifecycle.Machine.{verifying, CompletionProof}
use project_baracks.Records.Types.{Project}
use project_baracks.Queue.Types.{TaskRow, Db, ok}
use project_baracks.Queue.Tasks.{Env}
use project_baracks.Queue.Claims.{order_by_age, insert_by_age}
use project_baracks.Queue.Keys.{UniqueTasks}
use project_baracks.Completion.Binding.{bound, is_at, resolve_canonical_task_binding}
use project_baracks.Dispatch.Gate.{
  in_gate, is_landed, next_landed, promote_next_landed_task, has_active_claim,
}
use project_baracks.Dispatch.Canonical.{promote_next_landed_task-canonical}

abbrev landed : TaskRow
landed = record {
  id = 1;
  project_id = 9;
  status = verifying;
  version = 3;
  created_at = 10;
  paths = none;
  completion_criteria_json = none;
  completion_criteria_snapshot_json = some (text "{}");
  completion_criteria_locked_at = some 12;
  mutation_claim_id = none;
  mutation_worker_id = none;
}

abbrev newer : TaskRow
newer = record landed { id = 2; created_at = 20 }

abbrev db : Db
db = record { tasks = newer ∷ landed ∷ []; claims = []; dependencies = [] }

abbrev holds : CompletionProof
holds = record { ok = true; failures = [] }

abbrev env : Env
env = record { now = 1000; evaluate_completion_proof = λ db task_id criteria. some holds }

abbrev project : Project
project = record { id = 9; repo_path = text "/r" }

unique : UniqueTasks db.tasks
unfolding UniqueTasks
unique = (refl, (refl, tt))

oldest : next_landed 9 db ≡ some landed
unfolding next_landed is_landed order_by_age insert_by_age
oldest = refl

at : find (is_at (λ t. t) (text "/r")) (project ∷ []) ≡ some project
unfolding is_at
at = refl

promote_next_landed_task-canonical_example :
    (next : Db) × (promote_next_landed_task env 9 db ≡ ok (some 1, next))
    × (resolve_canonical_task_binding (λ t. t) (project ∷ []) next.tasks (text "/r")
        ≡ bound (record {
          task_id = 1;
          project_id = 9;
          repo_path = text "/r";
          frozen_criteria_json = text "{}";
        }))
promote_next_landed_task-canonical_example =
    promote_next_landed_task-canonical env 9 db landed holds b'{' (text "}") (λ t. t) (project ∷ [])
      project (text "/r") unique (unfold in_gate in refl) oldest (unfold has_active_claim in refl)
      refl refl refl at refl
