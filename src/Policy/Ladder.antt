-- ===== src/Policy/Ladder.antt =====
-- How a trust level is earned (src/supervisor/policy.ts, configureProjectPolicy).
use project_baracks.Prelude.{
  ap, sym, ◌∙◌, true_ne_false, ◌≡◌, ◌⊎◌, inl, inr, refl, Bool, true, false, ◌&&◌, Option, none,
  some, get_or, List, [], ◌∷◌, find, Mem, Mem-map, find-Mem, any, arith, Bool-cases, Option-cases,
  subst, Eq-Text,
}
use project_baracks.Policy.Types.{
  TrustLevel, observe, assist, build, unattended, trust_eq, ProjectPolicy, World,
}
use project_baracks.Policy.Store.{
  normalize_policy, read_store, is_same_project, ConfigureInput, passed_at, shadow_passed,
  may_promote, configured,
}
use project_baracks.Policy.Grades.{GradeInput, graded, current_policy}
use project_baracks.Policy.Runs.{PolicyOp, configure, run, current-Origin, Origin, apply-Origin}

-- At some point of the run so far the file satisfied `P`.
unfoldable pub Once : (List ProjectPolicy → Type 0) → List PolicyOp → Type 0
Once P [] = P []
Once P (op ∷ earlier) = P (run (op ∷ earlier)) ⊎ Once P earlier

abbrev pub is_owner_approval : PolicyOp → Bool
is_owner_approval (configure w input) =
    trust_eq input.trust build && get_or input.owner_approved_build false
is_owner_approval _ = false

-- Some policy of the file passed the graded execution that promotes from the level.
unfoldable pub Passed : TrustLevel → List ProjectPolicy → Type 0
Passed level stored = (q : ProjectPolicy) × Mem q stored × (passed_at level (some q) ≡ true)

unfoldable pub ShadowPassed : List ProjectPolicy → Type 0
ShadowPassed stored = (q : ProjectPolicy) × Mem q stored × (shadow_passed (some q) ≡ true)

-- What must have happened before a policy has the level.
unfoldable pub Earned : TrustLevel → List PolicyOp → Type 0
Earned observe ops = Unit
Earned assist ops = Once ShadowPassed ops
Earned build ops = (any is_owner_approval ops ≡ true) ⊎ Once (Passed assist) ops
Earned unattended ops = Once (Passed build) ops

Once-now : (P : List ProjectPolicy → Type 0) (ops : List PolicyOp) → P (run ops) → Once P ops
unfolding Once run
Once-now P [] h = h
Once-now P (op ∷ earlier) h = inl h

pub Earned-later :
    (level : TrustLevel) (op : PolicyOp) (ops : List PolicyOp)
    → Earned level ops
    → Earned level (op ∷ ops)
unfolding Earned Once
Earned-later observe op ops h = h
Earned-later assist op ops h = inr h
Earned-later build op ops h = ground (arith, h)
Earned-later unattended op ops h = inr h

-- Reading a policy changes nothing that a promotion looks at.
passed_at-normalize :
    (level : TrustLevel) (w : World) (q : ProjectPolicy)
    → passed_at level (some (normalize_policy w q)) ≡ passed_at level (some q)
unfolding passed_at normalize_policy
passed_at-normalize level w q = refl

shadow_passed-normalize :
    (w : World) (q : ProjectPolicy)
    → shadow_passed (some (normalize_policy w q)) ≡ shadow_passed (some q)
unfolding shadow_passed normalize_policy
shadow_passed-normalize w q = refl

-- A policy that the promotion looked at stood in the file.
found_in_file :
    (P : Option ProjectPolicy → Bool) (w : World) (same : ProjectPolicy → Bool)
    (stored : List ProjectPolicy)
    → ((q : ProjectPolicy) → P (some (normalize_policy w q)) ≡ P (some q))
    → P none ≡ false
    → P (find same (read_store w stored)) ≡ true
    → (q : ProjectPolicy) × Mem q stored × (P (some q) ≡ true)
unfolding read_store
found_in_file P w same stored stable absent h =
    elim (Option-cases (find same (read_store w stored))) [
      | inl e ↦ absurd (true_ne_false (sym (subst (λ o. P o ≡ true) e h) ∙ absent))
      | inr (p, e) ↦
          let (q, inside, normal) =
            Mem-map (normalize_policy w) p stored (find-Mem same p (read_store w stored) e).0 in
          (q, inside, sym (stable q) ∙ ap (λ x. P (some x)) (sym normal) ∙ ap P (sym e) ∙ h)
    ]

configured-Earned :
    (level : TrustLevel) (w : World) (input : ConfigureInput) (earlier : List PolicyOp)
    → input.trust ≡ level
    → may_promote input
        (find (is_same_project w input.project input.repo_path) (read_store w (run earlier)))
      ≡ true
    → Earned level (configure w input ∷ earlier)
unfolding Earned Once may_promote shadow_passed ShadowPassed passed_at Passed
configured-Earned observe w input earlier e h = tt
configured-Earned assist w input earlier e h = inr (
    Once-now ShadowPassed earlier (
      found_in_file shadow_passed w (is_same_project w input.project input.repo_path) (run earlier)
        (shadow_passed-normalize w) refl (ground (arith, e))))
configured-Earned build w input earlier e h =
    elim (Bool-cases (get_or input.owner_approved_build false)) [
      | inl approved ↦ inl (ground (arith, e, approved))
      | inr other ↦ inr (
          inr (
            Once-now (Passed assist) earlier (
              found_in_file (passed_at assist) w (is_same_project w input.project input.repo_path)
                (run earlier) (passed_at-normalize assist w) refl (ground (arith, e, other)))))
    ]
configured-Earned unattended w input earlier e h = inr (
    Once-now (Passed build) earlier (
      found_in_file (passed_at build) w (is_same_project w input.project input.repo_path)
        (run earlier) (passed_at-normalize build w) refl (ground (arith, e))))

Earned-observe : (ops : List PolicyOp) → Earned observe ops
unfolding Earned
Earned-observe ops = tt

graded-trust :
    (w : World) (input : GradeInput) (current : ProjectPolicy)
    → (graded w input current).trust ≡ current.trust
unfolding graded
graded-trust w input current = ground arith

-- After any sequence of configurations, grades and removals from an empty file, each policy in
-- the file has earned its level: an unattended one followed a policy at build with a passing
-- graded execution at build, one at build an explicit approval by the owner or such an execution
-- at assist, and one at assist followed a policy whose count of shadow passes was at least three
-- and whose last grade was a pass of a review that had an execution of its own.
pub run-Earned : (ops : List PolicyOp) (p : ProjectPolicy) → Mem p (run ops) → Earned p.trust ops
unfolding run Origin normalize_policy configured read_store
run-Earned [] p h = absurd h
run-Earned (op ∷ earlier) p h = elim (apply-Origin op (run earlier) p h) [
  | inl (q, inside, inl same) ↦
      subst (λ x. Earned x.trust (op ∷ earlier)) (sym same)
        (Earned-later q.trust op earlier (run-Earned earlier q inside))
  | inl (q, inside, inr (w, same)) ↦
      subst (λ x. Earned x.trust (op ∷ earlier)) (sym same)
        (Earned-later q.trust op earlier (run-Earned earlier q inside))
  | inr (inl (w, input, is_op, existing, found, may, same)) ↦
      subst (λ x. Earned x.trust (op ∷ earlier)) (sym same)
        (subst (λ o. Earned input.trust (o ∷ earlier)) (sym is_op)
          (configured-Earned input.trust w input earlier refl
            (subst (λ o. may_promote input o ≡ true) found may)))
  | inr (inr (w, db, input, is_op, checked, runs, same)) ↦
      let kept : p.trust
          ≡ (current_policy w input.project input.repo_path (read_store w (run earlier))).trust =
        ap (λ x. x.trust) same
        ∙ graded-trust w input
            (current_policy w input.project input.repo_path (read_store w (run earlier))) in
      elim (current-Origin w input.project input.repo_path (read_store w (run earlier))) [
        | inl start ↦
            subst (λ l. Earned l (op ∷ earlier)) (sym (kept ∙ start))
              (Earned-observe (op ∷ earlier))
        | inr inside ↦
            let (q, in_file, normal) =
              Mem-map (normalize_policy w)
                (current_policy w input.project input.repo_path (read_store w (run earlier)))
                (run earlier) inside in
            subst (λ l. Earned l (op ∷ earlier)) (sym (kept ∙ ap (λ x. x.trust) normal))
              (Earned-later q.trust op earlier (run-Earned earlier q in_file))
      ]
]
