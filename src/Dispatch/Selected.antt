-- ===== src/Dispatch/Selected.antt =====
-- What a batch is made of (src/supervisor/parallel-dispatch.ts, selectParallelBatch).
use project_baracks.Prelude.{
  true_ne_false, ◌∙◌, ℕ, ◌<◌, ◌≤◌, ◌≡◌, ◌⊎◌, refl, sym, ap, subst, inl, inr, arith, Eq-ℕ,
  nat_eq_iff, leb, length, length-append, Text, true, false, some, List, [], ◌∷◌, ◌++◌, any, All,
  Mem, Mem-keep, Mem-append, keep, Bool-cases, Option-cases,
}
use project_baracks.Lifecycle.Machine.{queued, Eq-TaskStatus, status_eq_iff}
use project_baracks.Queue.Types.{TaskRow, ClaimRow, Db, ok, Result-cases}
use project_baracks.Queue.Tasks.{Env}
use project_baracks.Queue.Claims.{order_by_age, recover_expired_claims}
use project_baracks.Queue.Age.{Mem-in_order}
use project_baracks.Completion.Criteria.{parse_completion_criteria}
use project_baracks.Dispatch.Paths.{parse_task_paths, paths_overlap}
use project_baracks.Dispatch.Batch.{
  Reading, ParallelTask, meets, pick, is_queued_of, select_parallel_batch,
}
use project_baracks.Dispatch.Disjoint.{
  GlobMatcher, covers, all_plain, covers-overlap, IsApart, snoc-IsApart,
}

-- The task is that of a row, with the paths that the row declares.
unfoldable IsOf : Reading → List TaskRow → ParallelTask → Type 0
IsOf reading rows t =
    (row : TaskRow) × Mem row rows
    × (t.id ≡ row.id)
    × (parse_task_paths reading.paths row.paths ≡ some t.paths)

IsPicked : Reading → (limit : ℕ) → List TaskRow → List ParallelTask → List ParallelTask → Type 0
IsPicked reading limit rows batch out =
    IsApart out
    × (length out ≤ limit)
    × ((t : ParallelTask) → Mem t out → Mem t batch ⊎ IsOf reading rows t)

later-IsPicked :
    (reading : Reading) (limit : ℕ) (row : TaskRow) (rows : List TaskRow)
    (batch out : List ParallelTask)
    → IsPicked reading limit rows batch out
    → IsPicked reading limit (row ∷ rows) batch out
unfolding IsPicked IsOf
later-IsPicked reading limit row rows batch out h = (
  h.0,
  h.1,
  λ t inside. elim (h.2 t inside) [
    | inl old ↦ inl old
    | inr (of, of_in, same, parsed) ↦ inr (of, inr of_in, same, parsed)
  ],
)

added-IsPicked :
    (reading : Reading) (limit : ℕ) (row : TaskRow) (rows : List TaskRow)
    (batch out : List ParallelTask) (paths : List Text)
    → parse_task_paths reading.paths row.paths ≡ some paths
    → IsPicked reading limit rows (batch ++ record { id = row.id; paths = paths } ∷ []) out
    → IsPicked reading limit (row ∷ rows) batch out
unfolding IsPicked IsOf
added-IsPicked reading limit row rows batch out paths parsed h = (
  h.0,
  h.1,
  λ t inside. elim (h.2 t inside) [
    | inr (of, of_in, same, its) ↦ inr (of, inr of_in, same, its)
    | inl old ↦ elim (Mem-append t batch (record { id = row.id; paths = paths } ∷ []) old) [
      | inl older ↦ inl older
      | inr (inr never) ↦ absurd never
      | inr (inl new) ↦ inr (
        row,
        inl refl,
        ap (λ u. u.id) new,
        subst (λ u. parse_task_paths reading.paths row.paths ≡ some u.paths) (sym new) parsed,
      )
    ]
  ],
)

leb-false : (a b : ℕ) → leb a b ≡ false → b < a
leb-false a b h = ground arith

pick-IsPicked :
    (reading : Reading) (limit : ℕ) (rows : List TaskRow) (batch out : List ParallelTask)
    → IsApart batch
    → length batch ≤ limit
    → pick reading limit rows batch ≡ ok out
    → IsPicked reading limit rows batch out
unfolding pick IsPicked
pick-IsPicked reading limit [] batch out apart few h =
    let same : batch ≡ out = ground arith in
    (
      subst IsApart same apart,
      subst (λ b. length b ≤ limit) same few,
      λ t inside. inl (subst (Mem t) (sym same) inside),
    )
pick-IsPicked reading limit (row ∷ rows) batch out apart few h =
    elim (Bool-cases (leb limit (length batch))) [
      | inl full ↦
          let same : batch ≡ out = ground (arith, full) in
          (
            subst IsApart same apart,
            subst (λ b. length b ≤ limit) same few,
            λ t inside. inl (subst (Mem t) (sym same) inside),
          )
      | inr room ↦ elim (Option-cases (parse_task_paths reading.paths row.paths)) [
        | inl e ↦
            later-IsPicked reading limit row rows batch out
              (pick-IsPicked reading limit rows batch out apart few (ground (arith, room, e)))
        | inr (paths, e) ↦ elim (Bool-cases (any (meets paths) batch)) [
          | inl met ↦
              later-IsPicked reading limit row rows batch out (
                pick-IsPicked reading limit rows batch out apart few (ground (arith, room, e, met)))
          | inr clear ↦
              elim (Option-cases (
                parse_completion_criteria reading.criteria row.completion_criteria_snapshot_json)) [
                  | inl f ↦ absurd (ground (arith, room, e, clear, f))
                  | inr (criteria, f) ↦ elim (Option-cases criteria.progressive_validation) [
                    | inr (p, g) ↦ later-IsPicked reading limit row rows batch out (
                        pick-IsPicked reading limit rows batch out apart few
                          (ground (arith, room, e, clear, f, g)))
                    | inl g ↦
                        let new : ParallelTask = record { id = row.id; paths = paths } in
                        added-IsPicked reading limit row rows batch out paths e (
                          pick-IsPicked reading limit rows (batch ++ new ∷ []) out
                            (snoc-IsApart batch new clear apart)
                            (omega (
                              arith,
                              length-append batch (new ∷ []),
                              leb-false limit (length batch) room,
                            ))
                            (ground (arith, room, e, clear, f, g)))
                  ]
                ]
        ]
      ]
    ]

-- No file belongs to two tasks of the list.
unfoldable pub IsDisjoint : GlobMatcher → List ParallelTask → Type 0
IsDisjoint m [] = Unit
IsDisjoint m (t ∷ ts) =
    All (λ u. (file : Text) → covers m file t.paths ≡ true → covers m file u.paths ≡ false) ts
    × IsDisjoint m ts

apart-All :
    (m : GlobMatcher) (t : ParallelTask) (ts : List ParallelTask)
    → all_plain m t.paths ≡ true
    → All (λ u. all_plain m u.paths ≡ true) ts
    → All (λ u. paths_overlap t.paths u.paths ≡ false) ts
    → All (λ u. (file : Text) → covers m file t.paths ≡ true → covers m file u.paths ≡ false) ts
apart-All m t [] plain every apart = tt
apart-All m t (u ∷ ts) plain every apart = (
  λ file mine. elim (Bool-cases (covers m file u.paths)) [
    | inr e ↦ e
    | inl e ↦
        absurd (
          true_ne_false
            (sym (covers-overlap m file t.paths u.paths plain every.0 mine e) ∙ apart.0))
  ],
  apart-All m t ts plain every.1 apart.1,
)

apart-IsDisjoint :
    (m : GlobMatcher) (ts : List ParallelTask)
    → All (λ u. all_plain m u.paths ≡ true) ts
    → IsApart ts
    → IsDisjoint m ts
unfolding IsApart IsDisjoint
apart-IsDisjoint m [] every apart = tt
apart-IsDisjoint m (t ∷ ts) every apart =
    (apart-All m t ts every.0 every.1 apart.0, apart-IsDisjoint m ts every.1 apart.1)

-- A batch is picked from the tables as they are after the recovery.
batch_steps :
    (reading : Reading) (env : Env) (project_id limit : ℕ) (db : Db) (batch : List ParallelTask)
    (next : Db)
    → select_parallel_batch reading env project_id limit db ≡ (ok batch, next)
    → (recovered : List ClaimRow × Db) × (recover_expired_claims env db ≡ ok recovered)
      × (pick reading limit (order_by_age (keep (is_queued_of project_id) recovered.1.tasks)) []
          ≡ ok batch)
      × (recovered.1 ≡ next)
unfolding select_parallel_batch
batch_steps reading env project_id limit db batch next h =
    elim (Result-cases (recover_expired_claims env db)) [
      | inl (recovered, e) ↦ (recovered, e, ground (arith, e), ground (arith, e))
      | inr (x, e) ↦ absurd (ground (arith, e))
    ]

-- A batch holds at most `limit` tasks, each a task of the project that is queued after the recovery
-- of lapsed claims, with the paths that it declares. Where all these paths are plain globs, no file
-- belongs to two tasks of the batch.
pub select_parallel_batch-IsDisjoint :
    (m : GlobMatcher) (reading : Reading) (env : Env) (project_id limit : ℕ) (db : Db)
    (batch : List ParallelTask) (next : Db)
    → select_parallel_batch reading env project_id limit db ≡ (ok batch, next)
    → All (λ t. all_plain m t.paths ≡ true) batch
    → IsDisjoint m batch
      × (length batch ≤ limit)
      × ((t : ParallelTask)
          → Mem t batch
          → (row : TaskRow) × Mem row next.tasks
            × (row.project_id ≡ project_id)
            × (row.status ≡ queued)
            × (t.id ≡ row.id)
            × (parse_task_paths reading.paths row.paths ≡ some t.paths))
unfolding select_parallel_batch IsPicked IsOf IsApart
select_parallel_batch-IsDisjoint m reading env project_id limit db batch next h plain =
    let (recovered, recovery, picking, after) =
      batch_steps reading env project_id limit db batch next h in
    let rows : List TaskRow = order_by_age (keep (is_queued_of project_id) recovered.1.tasks) in
    let (apart, few, each) = pick-IsPicked reading limit rows [] batch tt (omega arith) picking in
    (
      apart-IsDisjoint m batch plain apart,
      few,
      λ t inside. elim (each t inside) [
        | inl never ↦ absurd never
        | inr (row, row_in, own, parsed) ↦
            let (in_tasks, fits) =
              Mem-keep (is_queued_of project_id) row recovered.1.tasks
                (Mem-in_order row (keep (is_queued_of project_id) recovered.1.tasks) row_in) in
            (
              row,
              subst (λ d. Mem row d.tasks) after in_tasks,
              ground (arith, nat_eq_iff row.project_id project_id),
              ground (arith, status_eq_iff row.status queued),
              own,
              parsed,
            )
      ],
    )
