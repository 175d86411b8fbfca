-- ===== src/Policy/Shadow.antt =====
-- The count of consecutive passes (src/supervisor/policy.ts, storeGrade) against the grades
-- recorded.
use project_baracks.Prelude.{
  ◌+◌, all, ◌∙◌, ℕ, ◌≡◌, inl, inr, refl, Bool, true, false, not, ◌&&◌, List, [], ◌∷◌, arith,
  Bool-cases, if◌then◌else◌, Eq-Text, Text, text_eq_iff, ◌==◌,
}
use project_baracks.Policy.Types.{
  GradeResult, pass, fail, is_execution, ProjectPolicy, Database, World, ok, err, Result-cases,
}
use project_baracks.Policy.Store.{normalize_policy, read_store, default_project_policy, put_first}
use project_baracks.Policy.Grades.{
  GradeInput, check_input, check_runs, next_shadow_passes, graded, has_project, current_policy,
  store_grade,
}
use project_baracks.Policy.Runs.{PolicyOp, configure, grade, remove, apply, run}

-- How many results from the newest on are passes.
unfoldable pub trailing_passes : List GradeResult → ℕ
trailing_passes [] = 0
trailing_passes (pass ∷ older) = trailing_passes older + 1
trailing_passes (fail ∷ older) = 0

unfoldable pub is_accepted : Database → GradeInput → Bool
is_accepted db input = elim (check_input input) [
  | err _ ↦ false
  | ok _ ↦ elim (check_runs db input) [ err _ ↦ false | ok _ ↦ true ]
]

-- The shadow grades of a project that the checks let through, the newest first.
unfoldable pub shadow_results : Text → List PolicyOp → List GradeResult
shadow_results project [] = []
shadow_results project (grade w db input ∷ older) =
    let rest = shadow_results project older in
    if is_accepted db input && input.project == project && not (is_execution input.kind)
    then input.result ∷ rest
    else rest
shadow_results project (configure w input ∷ older) = shadow_results project older
shadow_results project (remove w selected ∷ older) = shadow_results project older

abbrev is_grade : PolicyOp → Bool
is_grade (grade w db input) = true
is_grade _ = false

unfoldable pub shadow_passes_of : Text → List ProjectPolicy → ℕ
shadow_passes_of project [] = 0
shadow_passes_of project (p ∷ store) =
    let rest = shadow_passes_of project store in
    if p.project == project then p.shadow_passes else rest

read-shadow_passes :
    (w : World) (project : Text) (stored : List ProjectPolicy)
    → shadow_passes_of project (read_store w stored) ≡ shadow_passes_of project stored
unfolding shadow_passes_of read_store normalize_policy
read-shadow_passes w project [] = refl
read-shadow_passes w project (p ∷ stored) = ground (arith, read-shadow_passes w project stored)

put-shadow_passes :
    (project other : Text) (x : ProjectPolicy) (store : List ProjectPolicy)
    → x.project ≡ project
    → shadow_passes_of other (put_first (has_project project) x store)
      ≡ (if project == other then x.shadow_passes else shadow_passes_of other store)
unfolding shadow_passes_of put_first has_project
put-shadow_passes project other x [] e = ground (arith, e)
put-shadow_passes project other x (y ∷ store) e = ground (
  arith,
  e,
  put-shadow_passes project other x store e,
  text_eq_iff y.project project,
  text_eq_iff project other,
  text_eq_iff y.project other,
)

current-project :
    (w : World) (project repo_path : Text) (store : List ProjectPolicy)
    → ((current_policy w project repo_path store).project ≡ project)
      × ((current_policy w project repo_path store).shadow_passes ≡ shadow_passes_of project store)
unfolding current_policy has_project default_project_policy shadow_passes_of
current-project w project repo_path [] = (refl, refl)
current-project w project repo_path (y ∷ store) = elim (Bool-cases (y.project == project)) [
  | inl e ↦ ground (arith, e, text_eq_iff y.project project)
  | inr e ↦ ground (arith, e, current-project w project repo_path store)
]

graded-shadow :
    (w : World) (input : GradeInput) (current : ProjectPolicy)
    → ((graded w input current).project ≡ current.project)
      × ((graded w input current).shadow_passes ≡ (
          if is_execution input.kind
          then current.shadow_passes
          else next_shadow_passes input.result current.shadow_passes))
unfolding graded
graded-shadow w input current = ground arith

refused-applied :
    (w : World) (db : Database) (input : GradeInput) (stored : List ProjectPolicy)
    → is_accepted db input ≡ false
    → apply (grade w db input) stored ≡ stored
unfolding apply store_grade is_accepted
refused-applied w db input stored h = elim (Result-cases (check_input input)) [
  | inr (_, e) ↦ rw (e, apply, store_grade) refl
  | inl (_, e) ↦ elim (Result-cases (check_runs db input)) [
    | inr (_, f) ↦ rw (e, f, apply, store_grade) refl
    | inl (_, f) ↦ ground (arith, e, f)
  ]
]

accepted-applied :
    (w : World) (db : Database) (input : GradeInput) (stored : List ProjectPolicy)
    → is_accepted db input ≡ true
    → apply (grade w db input) stored
      ≡ put_first
          (has_project input.project)
          (graded w input (current_policy w input.project input.repo_path (read_store w stored)))
          (read_store w stored)
unfolding apply store_grade is_accepted
accepted-applied w db input stored h = elim (Result-cases (check_input input)) [
  | inr (_, e) ↦ ground (arith, e)
  | inl (_, e) ↦ elim (Result-cases (check_runs db input)) [
    | inr (_, f) ↦ ground (arith, e, f)
    | inl (_, f) ↦ rw (e, f, apply, store_grade) refl
  ]
]

-- What an accepted grade does to the count of each project.
accepted-shadow :
    (w : World) (db : Database) (input : GradeInput) (stored : List ProjectPolicy) (project : Text)
    → is_accepted db input ≡ true
    → shadow_passes_of project (apply (grade w db input) stored) ≡ (
        if input.project == project && not (is_execution input.kind)
        then next_shadow_passes input.result (shadow_passes_of project stored)
        else shadow_passes_of project stored)
accepted-shadow w db input stored project h =
    let store : List ProjectPolicy = read_store w stored in
    let current : ProjectPolicy = current_policy w input.project input.repo_path store in
    rw (accepted-applied w db input stored h) (
      ground (
        arith,
        put-shadow_passes input.project project (graded w input current) store (
            (graded-shadow w input current).0
            ∙ (current-project w input.project input.repo_path store).0),
        (graded-shadow w input current).1,
        (current-project w input.project input.repo_path store).1,
        read-shadow_passes w project stored,
        text_eq_iff input.project project,
      ))

-- The count of a project's shadow passes is the number of passes since its last failed shadow
-- run: over any sequence of recorded grades, of this and other projects, from an empty file, the
-- refused ones not counted.
pub run-shadow_passes :
    (project : Text) (ops : List PolicyOp)
    → all is_grade ops ≡ true
    → shadow_passes_of project (run ops) ≡ trailing_passes (shadow_results project ops)
unfolding run shadow_results trailing_passes shadow_passes_of
run-shadow_passes project [] h = refl
run-shadow_passes project (grade w db input ∷ older) h = elim (Bool-cases (is_accepted db input)) [
  | inl e ↦
      ground (
        arith,
        e,
        accepted-shadow w db input (run older) project e,
        run-shadow_passes project older,
      )
  | inr e ↦
      rw (refused-applied w db input (run older) e)
        (ground (arith, e, run-shadow_passes project older))
]
run-shadow_passes project (configure w input ∷ older) h = ground arith
run-shadow_passes project (remove w selected ∷ older) h = ground arith
