-- ===== src/Completion/Reviewed.antt =====
-- What a completion proof that holds shows of the review (src/domain/completion.ts).
use project_baracks.Prelude.{
  ◌≡◌, ◌≢◌, ◌⊎◌, subst, refl, sym, ap, ◌∙◌, inl, inr, arith, true, List, [], ◌∷◌, any, keep, Mem,
  Option-cases, ℕ, Text, ◌==◌, Eq-ℕ, Eq-Text, text_eq_iff, nat_eq_iff, Option, none, some,
  option_eq_iff, any-Mem, Mem-keep,
}
use project_baracks.Routing.Types.{implementation, repair, review}
use project_baracks.Sdlc.Decisions.{independent}
use project_baracks.Records.Types.{AgentRun, succeeded, purpose_eq_iff, Receipt, pass, Tables}
use project_baracks.Queue.Types.{TaskRow}
use project_baracks.Completion.Criteria.{CompletionCriteria, ProgressiveValidation}
use project_baracks.Completion.Verified.{
  Qualified, effective_verifications, qualifying_verifications,
}
use project_baracks.Completion.Review.{
  implementation_runs, is_authority, is_implementation, is_succeeded_review, review_counts,
  review_passed,
}
use project_baracks.Completion.Proof.{
  contract_failures, is_clear, progressive_failures, proof_failures,
}
use project_baracks.Completion.Findings.{clear-contract, progressive-clear}

-- An independent review that counts: a review of the candidate that lost no independence, and a
-- receipt of the task with a verdict to pass, which binds it to a run that made the candidate.
unfoldable pub IsIndependentlyReviewed : Tables → ℕ → Text → Type 0
IsIndependentlyReviewed t task_id head =
    (r : AgentRun) × (made : AgentRun) × (receipt : Receipt) × Mem r t.runs
    × Mem made t.runs
    × Mem receipt t.receipts
    × (r.task_id ≡ task_id)
    × (r.purpose ≡ review)
    × (r.status ≡ succeeded)
    × (r.source_head ≡ some head)
    × (r.independence_loss ≡ none)
    × (made.task_id ≡ task_id)
    × ((made.purpose ≡ implementation) ⊎ (made.purpose ≡ repair))
    × (made.status ≡ succeeded)
    × (made.source_head ≡ some head)
    × (receipt.task_id ≡ some task_id)
    × (receipt.run_id ≡ r.id)
    × (receipt.reviewed_run_id ≡ some made.id)
    × (receipt.source_head ≡ head)
    × (receipt.verdict ≡ pass)

review_facts :
    (task_id : ℕ) (r : AgentRun)
    → is_succeeded_review task_id r ≡ true
    → (r.task_id ≡ task_id) × (r.purpose ≡ review) × (r.status ≡ succeeded)
unfolding is_succeeded_review
review_facts task_id r h = ground (arith, nat_eq_iff r.task_id task_id)

made_facts :
    (task_id : ℕ) (head : Text) (r : AgentRun)
    → is_implementation task_id head r ≡ true
    → (r.task_id ≡ task_id)
      × ((r.purpose ≡ implementation) ⊎ (r.purpose ≡ repair))
      × (r.status ≡ succeeded)
      × (r.source_head ≡ some head)
unfolding is_implementation
made_facts task_id head r h = ground (
  arith,
  nat_eq_iff r.task_id task_id,
  purpose_eq_iff r.purpose implementation,
  purpose_eq_iff r.purpose repair,
  option_eq_iff r.source_head (some head),
)

authority_facts :
    (task_id : ℕ) (made : List AgentRun) (head : Text) (r : AgentRun) (receipt : Receipt)
    → is_authority task_id made (some head) r receipt ≡ true
    → (receipt.task_id ≡ some task_id)
      × (receipt.run_id ≡ r.id)
      × (receipt.source_head ≡ head)
      × (receipt.verdict ≡ pass)
      × (reviewed : ℕ) × (receipt.reviewed_run_id ≡ some reviewed)
      × (any (λ i. i.id == reviewed) made ≡ true)
unfolding is_authority
authority_facts task_id made head r receipt h = elim (Option-cases receipt.reviewed_run_id) [
  | inl e ↦ absurd (ground (arith, e))
  | inr (reviewed, e) ↦ (
    ground (arith, option_eq_iff receipt.task_id (some task_id)),
    ground (arith, nat_eq_iff receipt.run_id r.id),
    ground (arith, text_eq_iff receipt.source_head head),
    ground arith,
    reviewed,
    e,
    ground (arith, e),
  )
]

counts_facts :
    (t : Tables) (task_id c : ℕ) (cs : Text) (p : ProgressiveValidation) (made : List AgentRun)
    (r : AgentRun)
    → p.review ≡ independent
    → p.candidate_head ≡ some (c ∷ cs)
    → review_counts t task_id p true made r ≡ true
    → (r.source_head ≡ some (c ∷ cs))
      × (r.independence_loss ≡ none)
      × (any (is_authority task_id made (some (c ∷ cs)) r) t.receipts ≡ true)
unfolding review_counts
counts_facts t task_id c cs p made r level at h = (
  ground (arith, option_eq_iff r.source_head (some (c ∷ cs))),
  ground arith,
  subst (λ head. any (is_authority task_id made head r) t.receipts ≡ true) at (ground arith),
)

made-candidate :
    (t : Tables) (task_id c : ℕ) (cs : Text) (head : Option Text)
    → head ≡ some (c ∷ cs)
    → implementation_runs t task_id head ≡ keep (is_implementation task_id (c ∷ cs)) t.runs
unfolding implementation_runs
made-candidate t task_id c cs head e = rw e refl

reviewed_by :
    (t : Tables) (task_id c : ℕ) (cs : Text) (p : ProgressiveValidation) (r : AgentRun)
    → p.review ≡ independent
    → p.candidate_head ≡ some (c ∷ cs)
    → Mem r t.runs
    → is_succeeded_review task_id r ≡ true
    → review_counts t task_id p true (implementation_runs t task_id p.candidate_head) r ≡ true
    → IsIndependentlyReviewed t task_id (c ∷ cs)
unfolding IsIndependentlyReviewed
reviewed_by t task_id c cs p r level at inside sure counts =
    let made_here : List AgentRun = keep (is_implementation task_id (c ∷ cs)) t.runs in
    let counted : review_counts t task_id p true made_here r ≡ true =
      subst (λ made. review_counts t task_id p true made r ≡ true)
        (made-candidate t task_id c cs p.candidate_head at) counts in
    let (own, purpose, done) = review_facts task_id r sure in
    let (at_head, kept, backed) = counts_facts t task_id c cs p made_here r level at counted in
    let (receipt, receipt_in, authority) =
      any-Mem (is_authority task_id made_here (some (c ∷ cs)) r) t.receipts backed in
    let (of_task, of_run, of_head, verdict, reviewed, binds, known) =
      authority_facts task_id made_here (c ∷ cs) r receipt authority in
    let (made, kept_in, same) = any-Mem (λ i. i.id == reviewed) made_here known in
    let (made_in, is_made) = Mem-keep (is_implementation task_id (c ∷ cs)) made t.runs kept_in in
    let (made_own, made_purpose, made_done, made_head) = made_facts task_id (c ∷ cs) made is_made in
    (
      r,
      made,
      receipt,
      inside,
      made_in,
      receipt_in,
      own,
      purpose,
      done,
      at_head,
      kept,
      made_own,
      made_purpose,
      made_done,
      made_head,
      of_task,
      of_run,
      binds ∙ ap some (sym ((nat_eq_iff made.id reviewed).0 same)),
      of_head,
      verdict,
    )

review_found :
    (t : Tables) (task_id : ℕ) (p : ProgressiveValidation)
    → p.review ≡ independent
    → review_passed t task_id p true ≡ true
    → any
        (review_counts t task_id p true (implementation_runs t task_id p.candidate_head))
        (keep (is_succeeded_review task_id) t.runs)
      ≡ true
unfolding review_passed
review_found t task_id p level h = ground arith

-- Where the contract asks for an independent review of a candidate, a proof that holds rests on one.
pub clear-IsIndependentlyReviewed :
    (t : Tables) (tasks : List TaskRow) (task_id : ℕ) (c : CompletionCriteria)
    (p : ProgressiveValidation) (head : Text)
    → c.progressive_validation ≡ some p
    → p.review ≡ independent
    → p.candidate_head ≡ some head
    → head ≢ []
    → is_clear (proof_failures t tasks task_id c true) ≡ true
    → IsIndependentlyReviewed t task_id head
unfolding contract_failures
clear-IsIndependentlyReviewed t tasks task_id c p [] contract level at full h = absurd (full refl)
clear-IsIndependentlyReviewed t tasks task_id c p (b ∷ bs) contract level at full h =
    let effective : List Qualified =
      effective_verifications c.progressive_validation (qualifying_verifications t task_id) in
    let contract_clear : is_clear
          (progressive_failures t task_id c.min_passed_verification_runs p true effective)
        ≡ true =
      subst
        (λ o.
          is_clear (contract_failures t task_id c.min_passed_verification_runs o true effective)
          ≡ true)
        contract (clear-contract t tasks task_id c true h) in
    let passed : review_passed t task_id p true ≡ true =
      elim (progressive-clear t task_id c.min_passed_verification_runs p true effective
        contract_clear).0 [ inl e ↦ absurd (ground (arith, level, e)) | inr e ↦ e ] in
    let some_review : any
          (review_counts t task_id p true (implementation_runs t task_id p.candidate_head))
          (keep (is_succeeded_review task_id) t.runs)
        ≡ true =
      review_found t task_id p level passed in
    let (r, kept, counts) =
      any-Mem (review_counts t task_id p true (implementation_runs t task_id p.candidate_head))
        (keep (is_succeeded_review task_id) t.runs) some_review in
    let (inside, sure) = Mem-keep (is_succeeded_review task_id) r t.runs kept in
    reviewed_by t task_id b bs p r level at inside sure counts
