-- ===== src/Policy/Limits.antt =====
-- The limits and permissions of the policies in the file (src/supervisor/policy.ts).
use project_baracks.Prelude.{
  sym, ◌∙◌, ℕ, ◌≡◌, ◌≤◌, inl, inr, refl, Bool, true, false, ◌||◌, Option, none, some, List, [], ◌∷◌,
  find, Mem, Mem-map, find-Mem, arith, Option-cases, subst, Eq-Text, Text,
}
use project_baracks.Policy.Types.{
  TrustLevel, observe, assist, build, unattended, trust_eq, is_client, ProjectPolicy, World,
}
use project_baracks.Policy.Store.{
  limits_for, normalize_policy, read_store, default_project_policy, is_same_project, ConfigureInput,
  configured,
}
use project_baracks.Policy.Grades.{GradeInput, graded, has_project, current_policy}
use project_baracks.Policy.Runs.{PolicyOp, run, Origin, apply-Origin}

abbrev minutes : TrustLevel → ℕ
minutes observe = 0
minutes assist = 30
minutes build = 120
minutes unattended = 480

abbrev is_unattended : TrustLevel → Bool
is_unattended t = trust_eq t unattended

-- What holds of each policy that the module has written.
unfoldable pub Sound : ProjectPolicy → Type 0
Sound p =
    (p.limits.max_run_minutes ≡ minutes p.trust)
    × (p.limits.allow_background ≡ is_unattended p.trust)
    × (p.allow_cross_project_memory ≡ true
        → (is_client p.project_class ≡ false)
          × (trust_eq p.trust build || trust_eq p.trust unattended ≡ true))
    × (p.shadow_passes ≤ p.shadow_runs)
    × (trust_eq p.trust observe ≡ true → p.limits.max_workers ≡ 0)

limits_for-Sound :
    (w : World) (level : TrustLevel)
    → ((limits_for w level).max_run_minutes ≡ minutes level)
      × ((limits_for w level).allow_background ≡ is_unattended level)
      × (trust_eq level observe ≡ true → (limits_for w level).max_workers ≡ 0)
unfolding limits_for
limits_for-Sound w level = ground arith

normalize_policy-Sound : (w : World) (p : ProjectPolicy) → Sound p → Sound (normalize_policy w p)
unfolding Sound normalize_policy
normalize_policy-Sound w p h = ground (arith, limits_for-Sound w p.trust)

default-Sound :
    (w : World) (project repo_path : Text) → Sound (default_project_policy w project repo_path)
unfolding Sound default_project_policy
default-Sound w project repo_path = ground (arith, limits_for-Sound w observe)

configured-Sound :
    (w : World) (input : ConfigureInput) (existing : Option ProjectPolicy)
    → ((q : ProjectPolicy) → existing ≡ some q → Sound q)
    → Sound (configured w input existing)
unfolding Sound configured
configured-Sound w input none h = ground (arith, limits_for-Sound w input.trust)
configured-Sound w input (some q) h = ground (arith, limits_for-Sound w input.trust, h q refl)

graded-Sound :
    (w : World) (input : GradeInput) (current : ProjectPolicy)
    → Sound current
    → Sound (graded w input current)
unfolding Sound graded
graded-Sound w input current h = ground arith

read-Sound :
    (earlier : List PolicyOp)
    → ((q : ProjectPolicy) → Mem q (run earlier) → Sound q)
    → (w : World) (p : ProjectPolicy) → Mem p (read_store w (run earlier))
    → Sound p
unfolding read_store
read-Sound earlier h w p inside =
    let (q, in_file, normal) = Mem-map (normalize_policy w) p (run earlier) inside in
    subst Sound (sym normal) (normalize_policy-Sound w q (h q in_file))

current-Sound :
    (w : World) (project repo_path : Text) (store : List ProjectPolicy)
    → ((q : ProjectPolicy) → Mem q store → Sound q)
    → Sound (current_policy w project repo_path store)
unfolding current_policy
current-Sound w project repo_path store h = elim (Option-cases (find (has_project project) store)) [
  | inl e ↦ rw (e, current_policy) (default-Sound w project repo_path)
  | inr (q, e) ↦ rw (e, current_policy) (h q (find-Mem (has_project project) q store e).0)
]

-- In every file that a run of operations leaves, a policy has the run time of its trust level,
-- runs in the background only when it is unattended, shares memory across projects only when it
-- is not a client's and is trusted with builds, has passed at most as many shadow runs as there
-- were, and has no worker while it observes.
run-Sound : (ops : List PolicyOp) (p : ProjectPolicy) → Mem p (run ops) → Sound p
unfolding run Origin
run-Sound [] p h = absurd h
run-Sound (op ∷ earlier) p h =
    let read : (w : World) (q : ProjectPolicy) → Mem q (read_store w (run earlier)) → Sound q =
      read-Sound earlier (run-Sound earlier) in
    elim (apply-Origin op (run earlier) p h) [
      | inl (q, inside, inl same) ↦ subst Sound (sym same) (run-Sound earlier q inside)
      | inl (q, inside, inr (w, same)) ↦
          subst Sound (sym same) (normalize_policy-Sound w q (run-Sound earlier q inside))
      | inr (inl (w, input, is_op, existing, found, may, same)) ↦ subst Sound (sym same) (
          configured-Sound w input existing (λ q e.
            read w q
              (find-Mem (is_same_project w input.project input.repo_path) q
                (read_store w (run earlier)) (sym found ∙ e)).0))
      | inr (inr (w, db, input, is_op, checked, runs, same)) ↦ subst Sound (sym same) (
          graded-Sound w input
            (current_policy w input.project input.repo_path (read_store w (run earlier)))
            (current-Sound w input.project input.repo_path (read_store w (run earlier)) (read w)))
    ]
