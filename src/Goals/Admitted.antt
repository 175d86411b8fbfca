-- ===== src/Goals/Admitted.antt =====
-- One open goal for each project, however many admissions there are (src/supervisor/state.ts,
-- admitGoal).
use project_baracks.Prelude.{
  ◌≡◌, ◌≤◌, ◌+◌, refl, sym, subst, inl, inr, arith, ℕ, ◌==◌, Eq-ℕ, Text, Eq-Text, text_eq_iff, Bool,
  true, false, ◌&&◌, none, List, [], ◌∷◌, ◌++◌, length, length-append, keep, keep-append, find,
  find-none-keep, Bool-cases, Option-cases,
}
use project_baracks.Goals.Types.{Host, SupervisorGoal, is_open}
use project_baracks.Goals.Live.{update_first}
use project_baracks.Goals.Store.{
  is_same_place, is_resumed, clear_session_continuity_on_outcome_change, new_goal, AdmitInput,
  refined, assessed, admitted, start_of, admit_goal,
}

pub record Admission : Type 0 where
  pub id : ℕ
  pub now : ℕ
  pub input : AdmitInput

unfoldable pub admit_all : Host → List Admission → List SupervisorGoal → List SupervisorGoal
admit_all h [] goals = goals
admit_all h (a ∷ rest) goals = admit_all h rest (admit_goal h a.id a.now a.input goals).0

abbrev pub is_open_of : Text → SupervisorGoal → Bool
is_open_of project g = g.project == project && is_open g.status

unfoldable IsOne : List SupervisorGoal → Type 0
IsOne goals = (project : Text) → length (keep (is_open_of project) goals) ≤ 1

update_first-keep_le :
    {A : Type 0} (q p : A → Bool) (f : A → A) (xs : List A)
    → ((x : A) → p x ≡ true → q (f x) ≡ true → q x ≡ true)
    → length (keep q (update_first p f xs)) ≤ length (keep q xs)
unfolding update_first
update_first-keep_le q p f [] from = omega arith
update_first-keep_le q p f (x ∷ xs) from = elim (Bool-cases (p x)) [
  | inl e ↦ ground (arith, e, from x)
  | inr e ↦ ground (arith, e, update_first-keep_le q p f xs from)
]

cleared-project :
    (outcome : Text) (g : SupervisorGoal)
    → (clear_session_continuity_on_outcome_change outcome g).project ≡ g.project
unfolding clear_session_continuity_on_outcome_change
cleared-project outcome g = elim (Bool-cases (g.goal == outcome)) [
  | inl e ↦ rw e refl
  | inr e ↦ rw e refl
]

admitted-project :
    (now : ℕ) (input : AdmitInput) (g : SupervisorGoal) → (admitted now input g).project ≡ g.project
unfolding refined assessed
admitted-project now input g = elim (Bool-cases input.refine) [
  | inl e ↦ rw e (cleared-project input.outcome g)
  | inr e ↦ elim (Option-cases g.admission_risk_assessment) [
    | inr (a, f) ↦ rw (e, f) refl
    | inl f ↦ elim (Option-cases input.assess_preserved_outcome) [
      | inl k ↦ rw (e, f, k) refl
      | inr (assess, k) ↦ rw (e, f, k) refl
    ]
  ]
]

resumed-open :
    (h : Host) (project repo_path : Text) (g : SupervisorGoal)
    → is_resumed h project repo_path g ≡ true
    → is_open g.status ≡ true
unfolding is_resumed
resumed-open h project repo_path g e = ground arith

own_resumed :
    (h : Host) (project repo_path : Text) (g : SupervisorGoal)
    → is_open_of project g ≡ true
    → is_resumed h project repo_path g ≡ true
unfolding is_resumed is_same_place
own_resumed h project repo_path g e = ground arith

keep-zero :
    {A : Type 0} (q p : A → Bool) (xs : List A)
    → ((x : A) → q x ≡ true → p x ≡ true)
    → length (keep p xs) ≡ 0
    → length (keep q xs) ≡ 0
keep-zero q p [] from h = refl
keep-zero q p (x ∷ xs) from h = ground (arith, from x, keep-zero q p xs from)

new_goal-other :
    (h : Host) (id now : ℕ) (input : AdmitInput) (project : Text)
    → (input.project == project) ≡ false
    → length (keep (is_open_of project) (new_goal h id now (start_of input) ∷ [])) ≡ 0
unfolding new_goal
new_goal-other h id now input project other = ground (arith, other)

one_at_most : (q : SupervisorGoal → Bool) (g : SupervisorGoal) → length (keep q (g ∷ [])) ≤ 1
one_at_most q g = ground arith

insert-IsOne :
    (h : Host) (id now : ℕ) (input : AdmitInput) (goals : List SupervisorGoal)
    → IsOne goals
    → find (is_resumed h input.project input.repo_path) goals ≡ none
    → IsOne (goals ++ new_goal h id now (start_of input) ∷ [])
unfolding IsOne
insert-IsOne h id now input goals one free project =
    let new : SupervisorGoal = new_goal h id now (start_of input) in
    let q : SupervisorGoal → Bool = is_open_of project in
    let sizes : length (keep q (goals ++ new ∷ []))
        ≡ length (keep q goals) + length (keep q (new ∷ [])) =
      subst (λ l. length l ≡ length (keep q goals) + length (keep q (new ∷ [])))
        (sym (keep-append q goals (new ∷ []))) (length-append (keep q goals) (keep q (new ∷ []))) in
    elim (Bool-cases (input.project == project)) [
      | inr other ↦ omega (arith, sizes, new_goal-other h id now input project other, one project)
      | inl e ↦
          let same : input.project ≡ project = (text_eq_iff input.project project).0 e in
          let empty : length (keep q goals) ≡ 0 =
            keep-zero q (is_resumed h input.project input.repo_path) goals
              (λ g own.
                own_resumed h input.project input.repo_path g
                  (subst (λ p. is_open_of p g ≡ true) (sym same) own))
              (find-none-keep (is_resumed h input.project input.repo_path) goals free) in
          omega (arith, sizes, empty, one_at_most q new)
    ]

admit-IsOne :
    (h : Host) (id now : ℕ) (input : AdmitInput) (goals : List SupervisorGoal)
    → IsOne goals
    → IsOne (admit_goal h id now input goals).0
unfolding admit_goal
admit-IsOne h id now input goals one =
    elim (Option-cases (find (is_resumed h input.project input.repo_path) goals)) [
      | inl e ↦ rw (e, admit_goal) (insert-IsOne h id now input goals one e)
      | inr (g, e) ↦
          rw (e, admit_goal)
            (unfold IsOne in
              λ project. omega (
                arith,
                update_first-keep_le (is_open_of project)
                    (is_resumed h input.project input.repo_path) (admitted now input) goals
                    (λ x resumed own. ground (
                      arith,
                      own,
                      admitted-project now input x,
                      resumed-open h input.project input.repo_path x resumed,
                    )),
                one project,
              ))
    ]

admit_all-IsOne :
    (h : Host) (admissions : List Admission) (goals : List SupervisorGoal)
    → IsOne goals
    → IsOne (admit_all h admissions goals)
unfolding admit_all
admit_all-IsOne h [] goals one = one
admit_all-IsOne h (a ∷ rest) goals one =
    admit_all-IsOne h rest (admit_goal h a.id a.now a.input goals).0
      (admit-IsOne h a.id a.now a.input goals one)

-- From a state without goals, whatever is admitted: each project has one open goal at most.
pub admit_all-one_open :
    (h : Host) (admissions : List Admission) (project : Text)
    → length (keep (is_open_of project) (admit_all h admissions [])) ≤ 1
unfolding IsOne
admit_all-one_open h admissions project = admit_all-IsOne h admissions [] (λ p. omega arith) project
