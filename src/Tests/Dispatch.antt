-- ===== src/Tests/Dispatch.antt =====
-- Parallel dispatch (src/supervisor/parallel-dispatch.ts) at concrete inputs.
use project_baracks.Prelude.{
  ◌≤◌, ◌≡◌, ◌==◌, refl, Text, text, Eq-Text, text_eq_iff, true, none, some, List, [], ◌∷◌, length,
  Mem, All, subst, sym, arith, nat_eq_iff, trim, drop_end,
}
use project_baracks.Lifecycle.Machine.{queued}
use project_baracks.Queue.Types.{TaskRow, Db, ok}
use project_baracks.Queue.Tasks.{Env}
use project_baracks.Queue.Claims.{
  recover_expired_claims, expire_all, order_by_age, insert_by_age, is_lapsed,
}
use project_baracks.Completion.Criteria.{default_criteria, parse_completion_criteria}
use project_baracks.Dispatch.Paths.{
  parse_task_paths, strip_dot, before_wildcard, static_prefix, starts_with, paths_overlap,
}
use project_baracks.Dispatch.Batch.{Reading, ParallelTask, pick, select_parallel_batch}
use project_baracks.Dispatch.Disjoint.{GlobMatcher, all_plain}
use project_baracks.Dispatch.Selected.{IsDisjoint, select_parallel_batch-IsDisjoint}

abbrev old_task : TaskRow
old_task = record {
  id = 1;
  project_id = 9;
  status = queued;
  version = 0;
  created_at = 10;
  paths = some (text "a");
  completion_criteria_json = none;
  completion_criteria_snapshot_json = none;
  completion_criteria_locked_at = none;
  mutation_claim_id = none;
  mutation_worker_id = none;
}

abbrev new_task : TaskRow
new_task = record old_task { id = 2; created_at = 20; paths = some (text "b") }

abbrev db : Db
db = record { tasks = new_task ∷ old_task ∷ []; claims = []; dependencies = [] }

abbrev env : Env
env = record { now = 1000; evaluate_completion_proof = λ db task_id criteria. none }

abbrev reading : Reading
reading = record { criteria = λ t. some default_criteria; paths = λ t. some (t ∷ []) }

abbrev batch : List ParallelTask
batch = record { id = 1; paths = text "a" ∷ [] } ∷ record { id = 2; paths = text "b" ∷ [] } ∷ []

selects : select_parallel_batch reading env 9 4 db ≡ (ok batch, db)
unfolding select_parallel_batch recover_expired_claims expire_all is_lapsed order_by_age
    insert_by_age pick parse_task_paths paths_overlap static_prefix before_wildcard strip_dot
    starts_with parse_completion_criteria trim drop_end
selects = refl

starts_with_self : (t : Text) → starts_with t t ≡ true
unfolding starts_with
starts_with_self [] = refl
starts_with_self (c ∷ cs) = ground (arith, nat_eq_iff c c, starts_with_self cs)

literal_prefix :
    (file glob : Text)
    → (before_wildcard glob == glob) ≡ true
    → (file == glob) ≡ true
    → starts_with file (before_wildcard glob) ≡ true
literal_prefix file glob plain same =
    subst (λ g. starts_with file g ≡ true) (sym ((text_eq_iff (before_wildcard glob) glob).0 plain))
      (subst (λ f. starts_with f glob ≡ true) (sym ((text_eq_iff file glob).0 same))
        (starts_with_self glob))

-- A matcher of literal globs: those without a wildcard match themselves.
abbrev literal : GlobMatcher
literal = record {
  matches = λ file glob. file == glob;
  is_plain = λ glob. before_wildcard glob == glob;
  prefix_of_match = literal_prefix;
}

plain : All (λ t. all_plain literal t.paths ≡ true) batch
unfolding before_wildcard strip_dot trim drop_end
plain = (refl, (refl, tt))

select_parallel_batch-IsDisjoint_example :
    IsDisjoint literal batch
    × (length batch ≤ 4)
    × ((t : ParallelTask)
        → Mem t batch
        → (row : TaskRow) × Mem row db.tasks
          × (row.project_id ≡ 9)
          × (row.status ≡ queued)
          × (t.id ≡ row.id)
          × (parse_task_paths reading.paths row.paths ≡ some t.paths))
select_parallel_batch-IsDisjoint_example =
    select_parallel_batch-IsDisjoint literal reading env 9 4 db batch db selects plain
