-- ===== src/Completion/Promotable.antt =====
-- The binding of a repository to its one promotable task, and the promotion proof against the
-- completion proof (src/domain/completion.ts).
use project_baracks.Prelude.{
  ◌≡◌, ◌≢◌, subst, refl, sym, inl, inr, arith, List, [], ◌∷◌, keep, find, Mem, Bool-cases,
  Option-cases, Text, ◌==◌, Eq-ℕ, Eq-Text, text_eq_iff, nat_eq_iff, some, Mem-keep, Mem-in_keep,
  find-Mem,
}
use project_baracks.Lifecycle.Machine.{ready_to_merge, Eq-TaskStatus, status_eq_iff}
use project_baracks.Records.Types.{Project}
use project_baracks.Queue.Types.{TaskRow}
use project_baracks.Completion.Binding.{
  CanonicalTaskBinding, bound, is_at, is_candidate, bind, resolve_canonical_task_binding,
}

-- What a binding says of the tables: the project is the first one of the repository, and the task
-- is the only one of the project that is ready to merge, with its frozen criteria.
unfoldable pub IsCanonical :
    (Text → Text) → List Project → List TaskRow → Text → CanonicalTaskBinding → Type 0
IsCanonical resolve projects tasks repo_path b =
    (p : Project) × (t : TaskRow) × Mem p projects
    × (resolve p.repo_path ≡ resolve repo_path)
    × (b.project_id ≡ p.id)
    × (b.repo_path ≡ p.repo_path)
    × Mem t tasks
    × (b.task_id ≡ t.id)
    × (t.project_id ≡ p.id)
    × (t.status ≡ ready_to_merge)
    × (t.completion_criteria_snapshot_json ≡ some b.frozen_criteria_json)
    × (b.frozen_criteria_json ≢ [])
    × ((u : TaskRow) → Mem u tasks → u.project_id ≡ p.id → u.status ≡ ready_to_merge → u ≡ t)

bind-single :
    (p : Project) (ts : List TaskRow) (b : CanonicalTaskBinding)
    → bind p ts ≡ bound b
    → (t : TaskRow) × (ts ≡ t ∷ [])
      × (t.completion_criteria_snapshot_json ≡ some b.frozen_criteria_json)
      × (b.frozen_criteria_json ≢ [])
      × (b.task_id ≡ t.id)
      × (b.project_id ≡ p.id)
      × (b.repo_path ≡ p.repo_path)
unfolding bind
bind-single p [] b h = absurd (ground arith)
bind-single p (t ∷ u ∷ ts) b h = absurd (ground arith)
bind-single p (t ∷ []) b h = elim (Option-cases t.completion_criteria_snapshot_json) [
  | inl e ↦ absurd (ground (arith, e))
  | inr (json, e) ↦ elim (Bool-cases (json == [])) [
    | inl f ↦ absurd (ground (arith, e, f))
    | inr f ↦ (
      t,
      refl,
      ground (arith, e, f),
      λ empty. ground (arith, e, f, text_eq_iff json []),
      ground (arith, e, f),
      ground (arith, e, f),
      ground (arith, e, f),
    )
  ]
]

Mem-single : {A : Type 0} (x y : A) (ys : List A) → ys ≡ y ∷ [] → Mem x ys → x ≡ y
Mem-single x y ys e h = elim (subst (Mem x) e h) [ inl same ↦ same | inr never ↦ absurd never ]

-- A binding names the one task that is ready to merge, and nothing that the caller claims.
pub resolve_canonical_task_binding-IsCanonical :
    (resolve : Text → Text) (projects : List Project) (tasks : List TaskRow) (repo_path : Text)
    (b : CanonicalTaskBinding)
    → resolve_canonical_task_binding resolve projects tasks repo_path ≡ bound b
    → IsCanonical resolve projects tasks repo_path b
unfolding resolve_canonical_task_binding IsCanonical is_at is_candidate
resolve_canonical_task_binding-IsCanonical resolve projects tasks repo_path b h =
    elim (Option-cases (find (is_at resolve repo_path) projects)) [
      | inl e ↦ absurd (ground (arith, e))
      | inr (p, e) ↦
          let (p_in, there) = find-Mem (is_at resolve repo_path) p projects e in
          let candidates : List TaskRow = keep (is_candidate p) tasks in
          let (t, only, json, full, task, project, path) =
            bind-single p candidates b (ground (arith, e)) in
          let (t_in, fits) =
            Mem-keep (is_candidate p) t tasks (subst (Mem t) (sym only) (inl refl)) in
          (
            p,
            t,
            p_in,
            (text_eq_iff (resolve p.repo_path) (resolve repo_path)).0 there,
            project,
            path,
            t_in,
            task,
            ground (arith, nat_eq_iff t.project_id p.id),
            ground (arith, status_eq_iff t.status ready_to_merge),
            json,
            full,
            λ u inside own ready. Mem-single u t candidates only (
                Mem-in_keep (is_candidate p) u tasks
                  (ground
                    (arith, nat_eq_iff u.project_id p.id, status_eq_iff u.status ready_to_merge))
                  inside),
          )
    ]
