-- ===== src/Completion/Legacy.antt =====
-- The completion proof under criteria without a progressive contract (src/domain/completion.ts,
-- evaluateCompletionProof).
use project_baracks.Prelude.{
  ◌<◌, ◌≡◌, refl, ap, subst, suc, length-append, inl, inr, arith, Bool, true, false, ◌&&◌, List, [],
  ◌∷◌, any, keep, Mem, Mem-keep, Mem-in_keep, Mem-any, Bool-cases, ℕ, length, ltb, Eq-ℕ, Eq-Text,
  nat_eq_iff, ◌==◌, text_eq_iff, some, get_or, map,
}
use project_baracks.Records.Types.{AgentRun, VerificationRun, Evidence, is_verification_run, Tables}
use project_baracks.Queue.Types.{TaskRow}
use project_baracks.Completion.Criteria.{default_criteria}
use project_baracks.Completion.Verified.{
  Qualified, cites, distinct, effective_verifications, join_all, joined, produced_by, qualified,
  qualified_eq, qualifying_verifications, verification_holds,
}
use project_baracks.Completion.Proof.{
  contract_failures, decision_failures, evidence_failures, is_clear, open_blocking_findings,
  proof_failures,
}
use project_baracks.Completion.Clear.{clear-of_parts}

Mem-positive : {A : Type 0} (x : A) (xs : List A) → Mem x xs → 0 < length xs
Mem-positive x [] h = absurd h
Mem-positive x (y ∷ ys) h = omega arith

any-positive : {A : Type 0} (p : A → Bool) (xs : List A) → any p xs ≡ true → 0 < length xs
any-positive p [] h = absurd (ground arith)
any-positive p (x ∷ xs) h = omega arith

positive-distinct : (qs : List Qualified) → 0 < length qs → 0 < length (distinct qs)
unfolding distinct
positive-distinct [] h = h
positive-distinct (q ∷ qs) h = elim (Bool-cases (any (qualified_eq q) (distinct qs))) [
  | inl e ↦ rw e (any-positive (qualified_eq q) (distinct qs) e)
  | inr e ↦ rw e (omega arith)
]

length-map : {A B : Type 0} (f : A → B) (xs : List A) → length (map f xs) ≡ length xs
length-map f [] = refl
length-map f (x ∷ xs) = ap suc (length-map f xs)

positive-joined :
    (t : Tables) (v : VerificationRun) (r : AgentRun) (e : Evidence)
    → Mem r t.runs
    → Mem e t.evidence
    → produced_by v r ≡ true
    → cites v e ≡ true
    → 0 < length (joined t v)
unfolding joined
positive-joined t v r e r_in e_in produced cited = rw (Mem-any (cites v) e t.evidence e_in cited) (
    rw (length-map (qualified v) (keep (produced_by v) t.runs)) (
      Mem-positive r (keep (produced_by v) t.runs)
        (Mem-in_keep (produced_by v) r t.runs produced r_in)))

positive-join_all :
    (t : Tables) (v : VerificationRun) (vs : List VerificationRun)
    → Mem v vs
    → 0 < length (joined t v)
    → 0 < length (join_all t vs)
unfolding join_all
positive-join_all t v [] h pos = absurd h
positive-join_all t v (u ∷ vs) (inl same) pos = omega (
  arith,
  length-append (joined t u) (join_all t vs),
  subst (λ w. 0 < length (joined t w)) same pos,
)
positive-join_all t v (u ∷ vs) (inr h) pos =
    omega (arith, length-append (joined t u) (join_all t vs), positive-join_all t v vs h pos)

-- Every row of evidence of the task that stands for a verification run refers to one of the task.
unfoldable pub IsLinked : Tables → ℕ → Type 0
IsLinked t task_id =
    (e : Evidence)
    → Mem e t.evidence
    → e.task_id ≡ task_id
    → is_verification_run e.kind ≡ true
    → (v : VerificationRun) × Mem v t.verifications × (e.ref ≡ some v.id) × (v.task_id ≡ task_id)

linked_row :
    (t : Tables) (e : Evidence) (task_id : ℕ) (v : VerificationRun)
    → Mem v t.verifications
    → e.ref ≡ some v.id
    → v.task_id ≡ task_id
    → any (λ u. u.id == get_or e.ref [] && u.task_id == task_id) t.verifications ≡ true
linked_row t e task_id v inside cited own =
    Mem-any (λ u. u.id == get_or e.ref [] && u.task_id == task_id) v t.verifications inside
      (rw cited (ground (arith, text_eq_iff v.id v.id, nat_eq_iff v.task_id task_id)))

linked-clear :
    (t : Tables) (task_id : ℕ) (rows : List Evidence)
    → ((e : Evidence) → Mem e rows → Mem e t.evidence × (e.task_id ≡ task_id))
    → IsLinked t task_id
    → is_clear (evidence_failures t task_id rows) ≡ true
unfolding evidence_failures IsLinked
linked-clear t task_id [] each linked = refl
linked-clear t task_id (e ∷ rows) each linked =
    clear-of_parts _ (evidence_failures t task_id rows)
      (elim (Bool-cases (is_verification_run e.kind)) [
        | inr other ↦ rw other refl
        | inl kind ↦
            let (inside, own) = each e (inl refl) in
            let (v, v_in, cited, same) = linked e inside own kind in
            rw (kind, linked_row t e task_id v v_in cited same) refl
      ])
      (linked-clear t task_id rows (λ f h. each f (inr h)) linked)

ltb-lt : (n : ℕ) → 0 < n → ltb n 1 ≡ false
ltb-lt n h = ground arith

rows_nonempty :
    (task_id : ℕ) (e : Evidence) (rows : List Evidence)
    → Mem e rows
    → (f : Evidence) × (fs : List Evidence) × (rows ≡ f ∷ fs)
rows_nonempty task_id e [] h = absurd h
rows_nonempty task_id e (f ∷ fs) h = (f, fs, refl)

-- Under the default criteria one verification run that shows something is enough, where no blocking
-- finding is open and every citation of a verification run is sound.
pub default-clear :
    (t : Tables) (tasks : List TaskRow) (task_id : ℕ) (v : VerificationRun) (r : AgentRun)
    (e : Evidence)
    → Mem v t.verifications
    → Mem r t.runs
    → Mem e t.evidence
    → verification_holds task_id v ≡ true
    → produced_by v r ≡ true
    → cites v e ≡ true
    → e.task_id ≡ task_id
    → open_blocking_findings t task_id ≡ 0
    → IsLinked t task_id
    → is_clear (proof_failures t tasks task_id default_criteria true) ≡ true
unfolding proof_failures effective_verifications qualifying_verifications contract_failures
    decision_failures
default-clear t tasks task_id v r e v_in r_in e_in holds produced cited own clean linked =
    let passed : List VerificationRun = keep (verification_holds task_id) t.verifications in
    let rows : List Evidence = keep (λ (x : Evidence). x.task_id == task_id) t.evidence in
    let enough : 0 < length (distinct (join_all t passed)) = positive-distinct (join_all t passed) (
      positive-join_all t v passed
        (Mem-in_keep (verification_holds task_id) v t.verifications holds v_in)
        (positive-joined t v r e r_in e_in produced cited)) in
    let (f, fs, some_rows) = rows_nonempty task_id e rows (
      Mem-in_keep (λ (x : Evidence). x.task_id == task_id) e t.evidence
        ((nat_eq_iff e.task_id task_id).1 own) e_in) in
    let sound : is_clear (evidence_failures t task_id rows) ≡ true =
      linked-clear t task_id rows
        (λ x h.
          let (inside, its) = Mem-keep (λ (y : Evidence). y.task_id == task_id) x t.evidence h in
          (inside, (nat_eq_iff x.task_id task_id).0 its))
        linked in
    rw (ltb-lt (length (distinct (join_all t passed))) enough, clean, some_rows)
      (clear-of_parts (evidence_failures t task_id (f ∷ fs)) []
        (subst (λ xs. is_clear (evidence_failures t task_id xs) ≡ true) some_rows sound) refl)
