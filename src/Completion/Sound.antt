-- ===== src/Completion/Sound.antt =====
-- What a completion proof that holds shows of the tables (src/domain/completion.ts).
use project_baracks.Prelude.{
  ◌<◌, ◌≤◌, ◌≡◌, refl, ap, ◌∙◌, suc, ltb→lt, length-append, length-keep-le, inl, inr, arith, Bool,
  true, false, List, [], ◌∷◌, any, keep, Mem, Bool-cases, ℕ, length, ltb, Eq-ℕ, Eq-Text, nat_eq_iff,
  Option, none, some, option_eq_iff, map, any-Mem, keep-nonempty, Mem-keep,
}
use project_baracks.Records.Types.{
  AgentRun, succeeded, VerificationRun, passed, Evidence, verification_run, is_pass, Tables,
}
use project_baracks.Queue.Types.{TaskRow}
use project_baracks.Completion.Criteria.{CompletionCriteria, ProgressiveValidation}
use project_baracks.Completion.Verified.{
  Qualified, cites, distinct, effective_verifications, is_at_head, join_all, joined, produced_by,
  qualified, qualifying_verifications, verification_holds,
}
use project_baracks.Completion.Proof.{is_clear, proof_failures, too_few_verifications, when}
use project_baracks.Completion.Clear.{clear-append, clear-when}

-- A verification run of the task that shows something: it passed with exit code 0, a run of the
-- same task that succeeded produced it, and a row of evidence cites it.
unfoldable pub IsVerified : Tables → ℕ → Type 0
IsVerified t task_id =
    (v : VerificationRun) × (r : AgentRun) × (e : Evidence) × Mem v t.verifications
    × Mem r t.runs
    × Mem e t.evidence
    × (v.task_id ≡ task_id)
    × (v.status ≡ passed)
    × (v.exit_code ≡ some 0)
    × (v.agent_run_id ≡ some r.id)
    × (r.task_id ≡ task_id)
    × (r.status ≡ succeeded)
    × (e.task_id ≡ task_id)
    × (e.kind ≡ verification_run)
    × (e.ref ≡ some v.id)

distinct-positive : (qs : List Qualified) → 0 < length (distinct qs) → 0 < length qs
unfolding distinct
distinct-positive [] h = h
distinct-positive (q ∷ qs) h = omega arith

verification_facts :
    (task_id : ℕ) (v : VerificationRun)
    → verification_holds task_id v ≡ true
    → (v.task_id ≡ task_id) × (v.status ≡ passed) × (v.exit_code ≡ some 0)
unfolding verification_holds
verification_facts task_id v h =
    ground (arith, nat_eq_iff v.task_id task_id, option_eq_iff v.exit_code (some 0))

produced_facts :
    (v : VerificationRun) (r : AgentRun)
    → produced_by v r ≡ true
    → (v.agent_run_id ≡ some r.id) × (r.task_id ≡ v.task_id) × (r.status ≡ succeeded)
unfolding produced_by
produced_facts v r h =
    ground (arith, nat_eq_iff r.task_id v.task_id, option_eq_iff v.agent_run_id (some r.id))

cited_facts :
    (v : VerificationRun) (e : Evidence)
    → cites v e ≡ true
    → (e.task_id ≡ v.task_id) × (e.kind ≡ verification_run) × (e.ref ≡ some v.id)
unfolding cites
cited_facts v e h = ground (arith, nat_eq_iff e.task_id v.task_id, option_eq_iff e.ref (some v.id))

length-map : {A B : Type 0} (f : A → B) (xs : List A) → length (map f xs) ≡ length xs
length-map f [] = refl
length-map f (x ∷ xs) = ap suc (length-map f xs)

joined-IsVerified :
    (t : Tables) (task_id : ℕ) (v : VerificationRun)
    → Mem v t.verifications
    → verification_holds task_id v ≡ true
    → 0 < length (joined t v)
    → IsVerified t task_id
unfolding joined IsVerified
joined-IsVerified t task_id v inside holds some_rows =
    elim (Bool-cases (any (cites v) t.evidence)) [
      | inr e ↦ absurd (ground (arith, e))
      | inl e ↦
          let (row, row_in, cited) = any-Mem (cites v) t.evidence e in
          let (r, run_in, produced) =
            keep-nonempty (produced_by v) t.runs
              (ground (arith, e, length-map (qualified v) (keep (produced_by v) t.runs))) in
          let (own, is_pass, exit) = verification_facts task_id v holds in
          let (linked, same, done) = produced_facts v r produced in
          let (of_task, kind, ref) = cited_facts v row cited in
          (
            v,
            r,
            row,
            inside,
            run_in,
            row_in,
            own,
            is_pass,
            exit,
            linked,
            same ∙ own,
            done,
            of_task ∙ own,
            kind,
            ref,
          )
    ]

join_all-IsVerified :
    (t : Tables) (task_id : ℕ) (vs : List VerificationRun)
    → ((v : VerificationRun)
        → Mem v vs
        → Mem v t.verifications × (verification_holds task_id v ≡ true))
    → 0 < length (join_all t vs)
    → IsVerified t task_id
unfolding join_all
join_all-IsVerified t task_id [] each h = absurd (omega arith)
join_all-IsVerified t task_id (v ∷ vs) each h = elim (Bool-cases (ltb 0 (length (joined t v)))) [
  | inl e ↦
      joined-IsVerified t task_id v (each v (inl refl)).0 (each v (inl refl)).1
        (ltb→lt 0 (length (joined t v)) e)
  | inr e ↦
      join_all-IsVerified t task_id vs (λ u k. each u (inr k))
        (ground (arith, length-append (joined t v) (join_all t vs)))
]

qualifying-IsVerified :
    (t : Tables) (task_id : ℕ)
    → 0 < length (qualifying_verifications t task_id)
    → IsVerified t task_id
unfolding qualifying_verifications
qualifying-IsVerified t task_id h =
    join_all-IsVerified t task_id (keep (verification_holds task_id) t.verifications)
      (λ v k. Mem-keep (verification_holds task_id) v t.verifications k)
      (distinct-positive (join_all t (keep (verification_holds task_id) t.verifications)) h)

effective-le :
    (p : Option ProgressiveValidation) (qs : List Qualified)
    → length (effective_verifications p qs) ≤ length qs
unfolding effective_verifications
effective-le none qs = omega arith
effective-le (some p) qs = length-keep-le (is_at_head p.candidate_head) qs

-- A proof that holds rests on a verification run of the task that shows something.
pub clear-IsVerified :
    (t : Tables) (tasks : List TaskRow) (task_id : ℕ) (c : CompletionCriteria)
    (require_provenance : Bool)
    → 1 ≤ c.min_passed_verification_runs
    → is_clear (proof_failures t tasks task_id c require_provenance) ≡ true
    → IsVerified t task_id
unfolding proof_failures
clear-IsVerified t tasks task_id c require_provenance least h =
    let effective : List Qualified =
      effective_verifications c.progressive_validation (qualifying_verifications t task_id) in
    let enough : ltb (length effective) c.min_passed_verification_runs ≡ false =
      (clear-when _ _).0
        (clear-append
          (when (ltb (length effective) c.min_passed_verification_runs)
            (too_few_verifications c.min_passed_verification_runs (length effective)))
          _ h).0 in
    let at_least : c.min_passed_verification_runs ≤ length effective = ground arith in
    qualifying-IsVerified t task_id
      (omega (arith, effective-le c.progressive_validation (qualifying_verifications t task_id)))
