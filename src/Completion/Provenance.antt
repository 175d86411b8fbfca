-- ===== src/Completion/Provenance.antt =====
-- The completion proof against the weaker promotion proof, which asks for no provenance of the
-- review (src/domain/completion.ts, evaluateTaskPromotionProof).
use project_baracks.Prelude.{
  ◌≡◌, refl, sym, ◌∙◌, text_eq_iff, subst, inl, inr, arith, Bool, true, false, List, [], ◌∷◌, any,
  keep, Bool-cases, ℕ, length, ltb, Text, Eq-ℕ, Eq-Text, Option, none, some, map,
}
use project_baracks.Lifecycle.Machine.{ready_to_merge, Eq-TaskStatus, status_eq_iff}
use project_baracks.Sdlc.Decisions.{ReviewLevel, natural, assess_promotion}
use project_baracks.Records.Types.{AgentRun, Project, Tables}
use project_baracks.Queue.Types.{TaskRow}
use project_baracks.Completion.Criteria.{
  CompletionCriteria, ProgressiveValidation, parse_completion_criteria,
}
use project_baracks.Completion.Verified.{
  Qualified, effective_verifications, qualifying_verifications,
}
use project_baracks.Completion.Review.{
  implementation_runs, is_succeeded_review, review_counts, review_passed,
}
use project_baracks.Completion.Proof.{
  Failure, blockers_of, check_failures, contract_failures, evidence_passed, is_clear,
  open_blocking_findings, progressive_failures, proof_failures, too_few_verifications, when,
}
use project_baracks.Completion.Clear.{clear-append, clear-of_parts}
use project_baracks.Completion.Binding.{
  is_at, is_promotable, task_with_project, binding_failures, criteria_failures, promotion_failures,
  proof,
}

any-weaken :
    {A : Type 0} (p q : A → Bool) (xs : List A)
    → ((x : A) → p x ≡ true → q x ≡ true)
    → any p xs ≡ true
    → any q xs ≡ true
any-weaken p q [] weaker h = h
any-weaken p q (x ∷ xs) weaker h = elim (Bool-cases (p x)) [
  | inl e ↦ ground (arith, weaker x e)
  | inr e ↦ ground (arith, e, any-weaken p q xs weaker)
]

counts-weaken :
    (t : Tables) (task_id : ℕ) (p : ProgressiveValidation) (made : List AgentRun) (r : AgentRun)
    → review_counts t task_id p true made r ≡ true
    → review_counts t task_id p false made r ≡ true
unfolding review_counts
counts-weaken t task_id p made r h = ground arith

passed-weaken :
    (t : Tables) (task_id : ℕ) (p : ProgressiveValidation)
    → review_passed t task_id p true ≡ true
    → review_passed t task_id p false ≡ true
unfolding review_passed
passed-weaken t task_id p h =
    let made : List AgentRun = implementation_runs t task_id p.candidate_head in
    ground (
      arith,
      any-weaken (review_counts t task_id p true made) (review_counts t task_id p false made)
          (keep (is_succeeded_review task_id) t.runs) (counts-weaken t task_id p made),
    )

promotion-weaken :
    (evidence_passed : Bool) (level : ReviewLevel) (strong weak : Bool) (n : ℕ)
    → (strong ≡ true → weak ≡ true)
    → is_clear (blockers_of (assess_promotion evidence_passed level strong (natural n))) ≡ true
    → is_clear (blockers_of (assess_promotion evidence_passed level weak (natural n))) ≡ true
unfolding assess_promotion
promotion-weaken evidence_passed level true weak n weaker h = rw (weaker refl) h
promotion-weaken evidence_passed level false true n weaker h = ground arith
promotion-weaken evidence_passed level false false n weaker h = h

contract-weaken :
    (t : Tables) (task_id least : ℕ) (o : Option ProgressiveValidation) (effective : List Qualified)
    → is_clear (contract_failures t task_id least o true effective) ≡ true
    → is_clear (contract_failures t task_id least o false effective) ≡ true
unfolding contract_failures progressive_failures
contract-weaken t task_id least none effective h = h
contract-weaken t task_id least (some p) effective h =
    let (checks, promotion) = clear-append (check_failures p effective) _ h in
    clear-of_parts (check_failures p effective) _ checks (
      promotion-weaken (evidence_passed least p effective) p.review (review_passed t task_id p true)
        (review_passed t task_id p false) (open_blocking_findings t task_id)
        (passed-weaken t task_id p) promotion)

proof-weaken :
    (t : Tables) (tasks : List TaskRow) (task_id : ℕ) (c : CompletionCriteria)
    → is_clear (proof_failures t tasks task_id c true) ≡ true
    → is_clear (proof_failures t tasks task_id c false) ≡ true
unfolding proof_failures
proof-weaken t tasks task_id c h =
    let effective : List Qualified =
      effective_verifications c.progressive_validation (qualifying_verifications t task_id) in
    let few : List Failure =
      when (ltb (length effective) c.min_passed_verification_runs)
        (too_few_verifications c.min_passed_verification_runs (length effective)) in
    let (enough, rest) = clear-append few _ h in
    let (contract, others) =
      clear-append
        (contract_failures t task_id c.min_passed_verification_runs c.progressive_validation true
          effective)
        _ rest in
    clear-of_parts few _ enough (
      clear-of_parts
        (contract_failures t task_id c.min_passed_verification_runs c.progressive_validation false
          effective)
        _
        (contract-weaken t task_id c.min_passed_verification_runs c.progressive_validation effective
          contract)
        others)

promotable-map : (fs : List Failure) → is_promotable (map proof fs) ≡ is_clear fs
promotable-map [] = refl
promotable-map (f ∷ fs) = refl

-- A task of the repository that is ready to merge and whose completion proof holds is promotable.
pub promotion_failures-of_clear :
    (read : Text → Option CompletionCriteria) (resolve : Text → Text) (tables : Tables)
    (tasks : List TaskRow) (t : TaskRow) (p : Project) (repo_path : Text) (c : CompletionCriteria)
    (json : Text)
    → task_with_project tables.projects tasks t.id ≡ some (t, p)
    → resolve p.repo_path ≡ resolve repo_path
    → t.status ≡ ready_to_merge
    → t.completion_criteria_snapshot_json ≡ some json
    → parse_completion_criteria read (some json) ≡ some c
    → is_clear (proof_failures tables tasks t.id c true) ≡ true
    → is_promotable (promotion_failures read resolve tables tasks t.id repo_path) ≡ true
unfolding promotion_failures binding_failures is_at criteria_failures
promotion_failures-of_clear read resolve tables tasks t p repo_path c json joined at ready frozen
      parsed h =
    let own : binding_failures resolve repo_path t p ≡ [] = ground (
      arith,
      status_eq_iff t.status ready_to_merge,
      text_eq_iff (resolve p.repo_path) (resolve repo_path),
    ) in
    let read_back : parse_completion_criteria read t.completion_criteria_snapshot_json ≡ some c =
      subst (λ o. parse_completion_criteria read o ≡ some c) (sym frozen) parsed in
    let rest : criteria_failures read tables tasks t
        ≡ map proof (proof_failures tables tasks t.id c false) =
      rw (read_back, criteria_failures) refl in
    rw (joined, promotion_failures, own, rest)
      (promotable-map (proof_failures tables tasks t.id c false)
        ∙ proof-weaken tables tasks t.id c h)
