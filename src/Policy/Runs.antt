-- ===== src/Policy/Runs.antt =====
-- Sequences of operations on the policy store (src/supervisor/policy.ts), the newest first.
use project_baracks.Prelude.{
  Text, ◌≡◌, ◌⊎◌, inl, inr, refl, Bool, true, not, Option, List, [], ◌∷◌, keep, find, Mem, Mem-map,
  Mem-keep, find-Mem, arith, Bool-cases, Option-cases, List-cases, subst,
}
use project_baracks.Policy.Types.{observe, ProjectPolicy, Database, World, ok, err, Result-cases}
use project_baracks.Policy.Store.{
  normalize_policy, read_store, default_project_policy, is_same_project, ConfigureInput,
  may_promote, configured, put_first, configure_project_policy, remove_project_policies,
}
use project_baracks.Policy.Grades.{
  GradeInput, check_input, check_runs, graded, has_project, current_policy, store_grade,
}

pub data PolicyOp : Type 0 where
  configure : World → ConfigureInput → PolicyOp
  grade : World → Database → GradeInput → PolicyOp
  remove : World → (ProjectPolicy → Bool) → PolicyOp

-- What is in the file after the operation; a refused one writes nothing.
unfoldable pub apply : PolicyOp → List ProjectPolicy → List ProjectPolicy
apply (configure w input) stored = elim (configure_project_policy w input stored) [
  | ok (_, next) ↦ next
  | err _ ↦ stored
]
apply (grade w db input) stored = elim (store_grade w db input stored) [
  | ok (_, next) ↦ next
  | err _ ↦ stored
]
apply (remove w selected) stored = (remove_project_policies w selected stored).1

unfoldable pub run : List PolicyOp → List ProjectPolicy
run [] = []
run (op ∷ earlier) = apply op (run earlier)

put_first-Mem :
    (f : ProjectPolicy → Bool) (x p : ProjectPolicy) (s : List ProjectPolicy)
    → Mem p (put_first f x s)
    → (p ≡ x) ⊎ Mem p s
unfolding put_first
put_first-Mem f x p [] h = h
put_first-Mem f x p (y ∷ s) h = elim (Bool-cases (f y)) [
  | inl e ↦ ground (arith, e)
  | inr e ↦ ground (arith, e, put_first-Mem f x p s)
]

-- Where a policy in the file comes from: from before, as it was read, or from a configuration that
-- may promote, or from a grade that the checks let through.
unfoldable pub Origin : PolicyOp → List ProjectPolicy → ProjectPolicy → Type 0
Origin op stored p =
    ((q : ProjectPolicy) × Mem q stored × ((p ≡ q) ⊎ ((w : World) × (p ≡ normalize_policy w q))))
    ⊎ (((w : World) × (input : ConfigureInput) × (op ≡ configure w input)
          × (existing : Option ProjectPolicy) × (existing
              ≡ find (is_same_project w input.project input.repo_path) (read_store w stored))
          × (may_promote input existing ≡ true)
          × (p ≡ configured w input existing))
        ⊎ ((w : World) × (db : Database) × (input : GradeInput) × (op ≡ grade w db input)
            × (check_input input ≡ ok tt)
            × (check_runs db input ≡ ok tt)
            × (p
                ≡ graded w input
                    (current_policy w input.project input.repo_path (read_store w stored)))))

read-Origin :
    (op : PolicyOp) (w : World) (stored : List ProjectPolicy) (p : ProjectPolicy)
    → Mem p (read_store w stored)
    → Origin op stored p
unfolding read_store Origin
read-Origin op w stored p h =
    let (q, inside, same) = Mem-map (normalize_policy w) p stored h in
    inl (q, inside, inr (w, same))

configure-applied :
    (w : World) (input : ConfigureInput) (stored : List ProjectPolicy)
    → let existing = find (is_same_project w input.project input.repo_path) (read_store w stored) in
      ((may_promote input existing ≡ true)
        × (apply (configure w input) stored
            ≡ put_first
                (is_same_project w input.project input.repo_path)
                (configured w input existing)
                (read_store w stored)))
      ⊎ (apply (configure w input) stored ≡ stored)
unfolding apply configure_project_policy
configure-applied w input stored =
    let existing : Option ProjectPolicy =
      find (is_same_project w input.project input.repo_path) (read_store w stored) in
    elim (Bool-cases (may_promote input existing)) [
      | inl e ↦ inl (e, rw (e, apply, configure_project_policy) refl)
      | inr e ↦ inr (rw (e, apply, configure_project_policy) refl)
    ]

grade-applied :
    (w : World) (db : Database) (input : GradeInput) (stored : List ProjectPolicy)
    → ((check_input input ≡ ok tt)
        × (check_runs db input ≡ ok tt)
        × (apply (grade w db input) stored
            ≡ put_first
                (has_project input.project)
                (graded w input
                  (current_policy w input.project input.repo_path (read_store w stored)))
                (read_store w stored)))
      ⊎ (apply (grade w db input) stored ≡ stored)
unfolding apply store_grade
grade-applied w db input stored = elim (Result-cases (check_input input)) [
  | inr (_, e) ↦ inr (rw (e, apply, store_grade) refl)
  | inl (_, e) ↦ elim (Result-cases (check_runs db input)) [
    | inr (_, f) ↦ inr (rw (e, f, apply, store_grade) refl)
    | inl (_, f) ↦ inl (e, f, rw (e, f, apply, store_grade) refl)
  ]
]

remove-applied :
    (w : World) (selected : ProjectPolicy → Bool) (stored : List ProjectPolicy) (p : ProjectPolicy)
    → Mem p (apply (remove w selected) stored)
    → Mem p stored ⊎ Mem p (read_store w stored)
unfolding apply remove_project_policies
remove-applied w selected stored p h = elim (List-cases (keep selected (read_store w stored))) [
  | inl e ↦ ground (arith, e)
  | inr (_, _, e) ↦
      ground (arith, e, Mem-keep (λ policy. not (selected policy)) p (read_store w stored))
]

pub apply-Origin :
    (op : PolicyOp) (stored : List ProjectPolicy) (p : ProjectPolicy)
    → Mem p (apply op stored)
    → Origin op stored p
unfolding Origin
apply-Origin (configure w input) stored p h = elim (configure-applied w input stored) [
  | inr same ↦ inl (p, subst (λ s. Mem p s) same h, inl refl)
  | inl (e, same) ↦
      elim (put_first-Mem (is_same_project w input.project input.repo_path)
        (configured w input
          (find (is_same_project w input.project input.repo_path) (read_store w stored)))
        p (read_store w stored) (subst (λ s. Mem p s) same h)) [
          | inl new ↦ inr (
              inl (
                w,
                input,
                refl,
                find (is_same_project w input.project input.repo_path) (read_store w stored),
                refl,
                e,
                new,
              ))
          | inr old ↦ read-Origin (configure w input) w stored p old
        ]
]
apply-Origin (grade w db input) stored p h = elim (grade-applied w db input stored) [
  | inr same ↦ inl (p, subst (λ s. Mem p s) same h, inl refl)
  | inl (e, f, same) ↦
      elim (put_first-Mem (has_project input.project)
        (graded w input (current_policy w input.project input.repo_path (read_store w stored))) p
        (read_store w stored) (subst (λ s. Mem p s) same h)) [
          | inl new ↦ inr (inr (w, db, input, refl, e, f, new))
          | inr old ↦ read-Origin (grade w db input) w stored p old
        ]
]
apply-Origin (remove w selected) stored p h = elim (remove-applied w selected stored p h) [
  | inl old ↦ inl (p, old, inl refl)
  | inr old ↦ read-Origin (remove w selected) w stored p old
]

-- What a grade is added to is in the file, or is new and only observes.
pub current-Origin :
    (w : World) (project repo_path : Text) (store : List ProjectPolicy)
    → ((current_policy w project repo_path store).trust ≡ observe)
      ⊎ Mem (current_policy w project repo_path store) store
unfolding current_policy default_project_policy
current-Origin w project repo_path store = elim (Option-cases (find (has_project project) store)) [
  | inl e ↦ inl (rw (e, current_policy) refl)
  | inr (q, e) ↦ inr (rw (e, current_policy) ((find-Mem (has_project project) q store e).0))
]
