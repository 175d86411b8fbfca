-- ===== src/Policy/Execution.antt =====
-- When a worker may execute for a project (src/supervisor/policy.ts, assertExecutionAllowed).
use project_baracks.Prelude.{
  ◌≡◌, ◌⊎◌, inl, inr, Bool, true, false, some, List, [], ◌∷◌, Mem, any, arith, Option-cases, subst,
  Eq-Text,
}
use project_baracks.Policy.Types.{
  TrustLevel, observe, assist, build, unattended, trust_eq, trust_eq_iff, ProjectPolicy, ok,
}
use project_baracks.Policy.Store.{passed_at, assert_execution_allowed}
use project_baracks.Policy.Runs.{PolicyOp, run}
use project_baracks.Policy.Ladder.{
  Once, Passed, ShadowPassed, is_owner_approval, Earned, Earned-later, run-Earned,
}

passed_at-trust :
    (level : TrustLevel) (q : ProjectPolicy) → passed_at level (some q) ≡ true → q.trust ≡ level
unfolding passed_at
passed_at-trust level q h = elim (Option-cases q.last_grade) [
  | inl e ↦ ground (arith, e)
  | inr (g, e) ↦ (trust_eq_iff q.trust level).0 (ground (arith, e))
]

Once-Earned :
    (level : TrustLevel) (ops : List PolicyOp) → Once (Passed level) ops → Earned level ops
unfolding Once Passed run
Once-Earned level [] (q, inside, h) = absurd inside
Once-Earned level (op ∷ ops) (inl (q, inside, h)) =
    subst (λ l. Earned l (op ∷ ops)) (passed_at-trust level q h) (run-Earned (op ∷ ops) q inside)
Once-Earned level (op ∷ ops) (inr h) = Earned-later level op ops (Once-Earned level ops h)

-- Every level above `observe` goes back to an approval of the owner's or to the shadow runs.
Trusted : List PolicyOp → Type 0
Trusted ops = (any is_owner_approval ops ≡ true) ⊎ Once ShadowPassed ops

Earned-Trusted :
    (level : TrustLevel) (ops : List PolicyOp)
    → trust_eq level observe ≡ false
    → Earned level ops
    → Trusted ops
unfolding Earned Trusted
Earned-Trusted observe ops h e = ground (arith, h)
Earned-Trusted assist ops h e = inr e
Earned-Trusted build ops h (inl approved) = inl approved
Earned-Trusted build ops h (inr passed) = inr (Once-Earned assist ops passed)
Earned-Trusted unattended ops h e = elim (Once-Earned build ops e) [
  | inl approved ↦ inl approved
  | inr passed ↦ inr (Once-Earned assist ops passed)
]

-- A policy in the file lets a worker execute only while no stop is requested, and only after the
-- owner has approved a build explicitly or the file has held a policy whose count of shadow passes
-- was at least three and whose last grade was a pass of a review that had an execution of its own.
pub allowed-trusted :
    (ops : List PolicyOp) (p : ProjectPolicy) (stop_requested : Bool)
    → Mem p (run ops)
    → assert_execution_allowed stop_requested p ≡ ok tt
    → (stop_requested ≡ false) × ((any is_owner_approval ops ≡ true) ⊎ Once ShadowPassed ops)
unfolding assert_execution_allowed Trusted
allowed-trusted ops p stop_requested inside h =
    (ground arith, Earned-Trusted p.trust ops (ground arith) (run-Earned ops p inside))
