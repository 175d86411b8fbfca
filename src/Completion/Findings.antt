-- ===== src/Completion/Findings.antt =====
-- What a completion proof that holds shows of the findings of a review (src/domain/completion.ts).
use project_baracks.Prelude.{
  ◌≡◌, ◌⊎◌, refl, inl, inr, arith, Bool, true, false, ◌&&◌, List, keep, Mem, ℕ, length, ltb, ◌==◌,
  Eq-ℕ, Eq-Text, nat_eq_iff, Option, none, some, keep-empty,
}
use project_baracks.Sdlc.Decisions.{ReviewLevel, no_review, natural, assess_promotion}
use project_baracks.Records.Types.{ReviewFinding, finding_open, is_open, Tables}
use project_baracks.Queue.Types.{TaskRow}
use project_baracks.Completion.Criteria.{CompletionCriteria, ProgressiveValidation}
use project_baracks.Completion.Verified.{
  Qualified, effective_verifications, qualifying_verifications,
}
use project_baracks.Completion.Review.{review_passed}
use project_baracks.Completion.Proof.{
  blockers_of, blocks, check_failures, contract_failures, evidence_passed, is_clear, open_blockers,
  open_blocking_findings, progressive_failures, proof_failures, too_few_verifications, when,
}
use project_baracks.Completion.Clear.{clear-append, clear-when}

-- The contract's part of the failures is empty where all of them are.
pub clear-contract :
    (t : Tables) (tasks : List TaskRow) (task_id : ℕ) (c : CompletionCriteria)
    (require_provenance : Bool)
    → is_clear (proof_failures t tasks task_id c require_provenance) ≡ true
    → is_clear (
        contract_failures t task_id c.min_passed_verification_runs c.progressive_validation
          require_provenance
          (effective_verifications c.progressive_validation (qualifying_verifications t task_id)))
      ≡ true
unfolding proof_failures
clear-contract t tasks task_id c require_provenance h =
    let effective : List Qualified =
      effective_verifications c.progressive_validation (qualifying_verifications t task_id) in
    (clear-append
      (contract_failures t task_id c.min_passed_verification_runs c.progressive_validation
        require_provenance effective)
      _
      (clear-append
        (when (ltb (length effective) c.min_passed_verification_runs)
          (too_few_verifications c.min_passed_verification_runs (length effective)))
        _ h).1).0

-- A promotion without blockers has passed its review, and no finding blocks it.
promotion-clear :
    (evidence_passed : Bool) (level : ReviewLevel) (passed : Bool) (n : ℕ)
    → is_clear (blockers_of (assess_promotion evidence_passed level passed (natural n))) ≡ true
    → ((level ≡ no_review) ⊎ (passed ≡ true)) × (ltb 0 n ≡ false)
unfolding assess_promotion
promotion-clear evidence_passed no_review passed n h = (inl refl, ground arith)
promotion-clear evidence_passed level passed n h = (inr (ground arith), ground arith)

pub progressive-clear :
    (t : Tables) (task_id least : ℕ) (p : ProgressiveValidation) (require_provenance : Bool)
    → (effective : List Qualified)
    → is_clear (progressive_failures t task_id least p require_provenance effective) ≡ true
    → ((p.review ≡ no_review) ⊎ (review_passed t task_id p require_provenance ≡ true))
      × (ltb 0 (open_blocking_findings t task_id) ≡ false)
unfolding progressive_failures
progressive-clear t task_id least p require_provenance effective h =
    promotion-clear (evidence_passed least p effective) p.review
      (review_passed t task_id p require_provenance) (open_blocking_findings t task_id)
      (clear-append (check_failures p effective) _ h).1

contract-none_open :
    (t : Tables) (task_id least : ℕ) (require_provenance : Bool) (effective : List Qualified)
    → (o : Option ProgressiveValidation)
    → is_clear (contract_failures t task_id least o require_provenance effective) ≡ true
    → ltb 0 (open_blocking_findings t task_id) ≡ false
unfolding contract_failures
contract-none_open t task_id least require_provenance effective none h =
    (clear-when _ (open_blockers (open_blocking_findings t task_id))).0 h
contract-none_open t task_id least require_provenance effective (some p) h =
    (progressive-clear t task_id least p require_provenance effective h).1

-- No finding of the task that blocks is open where the proof holds.
pub clear-findings :
    (t : Tables) (tasks : List TaskRow) (task_id : ℕ) (c : CompletionCriteria)
    (require_provenance : Bool) (f : ReviewFinding)
    → is_clear (proof_failures t tasks task_id c require_provenance) ≡ true
    → Mem f t.findings
    → f.task_id ≡ task_id
    → f.status ≡ finding_open
    → blocks f.severity ≡ false
unfolding open_blocking_findings
clear-findings t tasks task_id c require_provenance f h inside own still_open =
    let effective : List Qualified =
      effective_verifications c.progressive_validation (qualifying_verifications t task_id) in
    let blocking : ReviewFinding → Bool =
      λ g. g.task_id == task_id && is_open g.status && blocks g.severity in
    let none_open : ltb 0 (length (keep blocking t.findings)) ≡ false =
      contract-none_open t task_id c.min_passed_verification_runs require_provenance effective
        c.progressive_validation (clear-contract t tasks task_id c require_provenance h) in
    let harmless : blocking f ≡ false = keep-empty blocking f t.findings none_open inside in
    ground (arith, nat_eq_iff f.task_id task_id)
