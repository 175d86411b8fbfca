-- ===== src/Dispatch/Batch.antt =====
-- The selection of a batch (src/supervisor/parallel-dispatch.ts, selectParallelBatch).
use project_baracks.Prelude.{
  ℕ, ◌==◌, Eq-ℕ, leb, length, Text, Bool, true, false, ◌&&◌, Option, none, some, List, [], ◌∷◌,
  ◌++◌, any, keep,
}
use project_baracks.Lifecycle.Machine.{queued, Eq-TaskStatus}
use project_baracks.Queue.Types.{TaskRow, Db, Result, ok, err, invalid_criteria}
use project_baracks.Queue.Tasks.{Env}
use project_baracks.Queue.Claims.{order_by_age, recover_expired_claims}
use project_baracks.Completion.Criteria.{CompletionCriteria, parse_completion_criteria}
use project_baracks.Dispatch.Paths.{parse_task_paths, paths_overlap}

-- How the texts of a task are read.
pub record Reading : Type 0 where
  pub criteria : Text → Option CompletionCriteria
  pub paths : Text → Option (List Text)

-- The title and the description of a task are left out.
pub record ParallelTask : Type 0 where
  pub id : ℕ
  pub paths : List Text

abbrev pub meets : List Text → ParallelTask → Bool
meets paths picked = paths_overlap picked.paths paths

-- The loop over the queued tasks, with the batch so far.
unfoldable pub pick :
    Reading → (limit : ℕ) → List TaskRow → List ParallelTask → Result (List ParallelTask)
pick reading limit [] batch = ok batch
pick reading limit (row ∷ rows) batch = elim (leb limit (length batch)) [
  | true ↦ ok batch
  | false ↦ elim (parse_task_paths reading.paths row.paths) [
    | none ↦ pick reading limit rows batch
    | some paths ↦ elim (any (meets paths) batch) [
      | true ↦ pick reading limit rows batch
      | false ↦
          elim (parse_completion_criteria reading.criteria row.completion_criteria_snapshot_json) [
            | none ↦ err invalid_criteria
            | some criteria ↦ elim criteria.progressive_validation [
              | some p ↦ pick reading limit rows batch
              | none ↦ pick reading limit rows (batch ++ record { id = row.id; paths = paths } ∷ [])
            ]
          ]
    ]
  ]
]

abbrev pub is_queued_of : ℕ → TaskRow → Bool
is_queued_of project_id t = t.project_id == project_id && t.status == queued

-- Lapsed claims are recovered first, so that their tasks are in the queue again; a batch that fails
-- leaves what was recovered.
unfoldable pub select_parallel_batch :
    Reading → Env → (project_id limit : ℕ) → Db → Result (List ParallelTask) × Db
select_parallel_batch reading env project_id limit db = elim (recover_expired_claims env db) [
  | err e ↦ (err e, db)
  | ok recovered ↦ (
    pick reading limit (order_by_age (keep (is_queued_of project_id) recovered.1.tasks)) [],
    recovered.1,
  )
]
