-- ===== src/Dispatch/Checked.antt =====
-- The rows that the checks of a landed branch leave (src/supervisor/parallel-dispatch.ts, the loop of
-- the transaction at the end of `land`).
use project_baracks.Prelude.{
  ◌≡◌, refl, ap, ◌∙◌, subst, inl, inr, arith, ℕ, Eq-ℕ, Eq-Text, none, some, List, [], ◌∷◌, ◌++◌,
  Mem, Mem-append, Mem-append_left, Mem-append_right,
}
use project_baracks.Records.Types.{VerificationRun, Evidence, passed, verification_run}
use project_baracks.Completion.Legacy.{IsLinked}
use project_baracks.Runs.Types.{Store, ok}
use project_baracks.Runs.Records.{new_verification, record_verification_run, add_evidence}
use project_baracks.Dispatch.Landing.{Check, record_checks}

-- The two rows of a check.
abbrev pub verified_row : (now run_id task_id : ℕ) → Check → VerificationRun
verified_row now run_id task_id c = record {
  id = c.verification_id;
  task_id = task_id;
  agent_run_id = some run_id;
  status = passed;
  exit_code = some 0;
  validation_subject = none;
  started_at = some now;
  ended_at = some now;
}

abbrev pub citing_row : (run_id task_id : ℕ) → Check → Evidence
citing_row run_id task_id c = record {
  id = c.evidence_id;
  task_id = task_id;
  agent_run_id = some run_id;
  kind = verification_run;
  ref = some c.verification_id;
}

abbrev with_check : (now run_id task_id : ℕ) → Check → Store → Store
with_check now run_id task_id c s = record s {
  tables = record s.tables {
    verifications = s.tables.verifications ++ verified_row now run_id task_id c ∷ [];
    evidence = s.tables.evidence ++ citing_row run_id task_id c ∷ [];
  };
}

-- Rows are only added, to the two tables, and the citations of the task stay sound.
unfoldable pub Extends : ℕ → Store → Store → Type 0
Extends task_id s next =
    (next.queue ≡ s.queue)
    × (next.tables.runs ≡ s.tables.runs)
    × (next.tables.findings ≡ s.tables.findings)
    × ((v : VerificationRun) → Mem v s.tables.verifications → Mem v next.tables.verifications)
    × ((e : Evidence) → Mem e s.tables.evidence → Mem e next.tables.evidence)
    × (IsLinked s.tables task_id → IsLinked next.tables task_id)

with_check-IsLinked :
    (now run_id task_id : ℕ) (c : Check) (s : Store)
    → IsLinked s.tables task_id
    → IsLinked (with_check now run_id task_id c s).tables task_id
unfolding IsLinked
with_check-IsLinked now run_id task_id c s linked e inside own kind =
    let v : VerificationRun = verified_row now run_id task_id c in
    elim (Mem-append e s.tables.evidence (citing_row run_id task_id c ∷ []) inside) [
      | inl old ↦
          let (u, u_in, cited, same) = linked e old own kind in
          (u, Mem-append_left u s.tables.verifications (v ∷ []) u_in, cited, same)
      | inr (inr never) ↦ absurd never
      | inr (inl new) ↦ (
        v,
        Mem-append_right v s.tables.verifications (v ∷ []) (inl refl),
        ap (λ (x : Evidence). x.ref) new,
        refl,
      )
    ]

with_check-Extends :
    (now run_id task_id : ℕ) (c : Check) (s : Store)
    → Extends task_id s (with_check now run_id task_id c s)
unfolding Extends
with_check-Extends now run_id task_id c s = (
  refl,
  refl,
  refl,
  λ v h. Mem-append_left v s.tables.verifications (verified_row now run_id task_id c ∷ []) h,
  λ e h. Mem-append_left e s.tables.evidence (citing_row run_id task_id c ∷ []) h,
  with_check-IsLinked now run_id task_id c s,
)

Extends-trans :
    (task_id : ℕ) (a b c : Store) → Extends task_id a b → Extends task_id b c → Extends task_id a c
unfolding Extends
Extends-trans task_id a b c (q, r, f, v, e, l) (q', r', f', v', e', l') =
    (q' ∙ q, r' ∙ r, f' ∙ f, λ x h. v' x (v x h), λ x h. e' x (e x h), λ h. l' (l h))

Extends-refl : (task_id : ℕ) (s : Store) → Extends task_id s s
unfolding Extends
Extends-refl task_id s = (refl, refl, refl, λ x h. h, λ x h. h, λ h. h)

pub record_checks-Extends :
    (now run_id task_id : ℕ) (cs : List Check) (s next : Store)
    → record_checks now run_id task_id cs s ≡ ok next
    → Extends task_id s next
unfolding record_checks record_verification_run new_verification add_evidence
record_checks-Extends now run_id task_id [] s next h =
    let same : s ≡ next = ground (arith, h) in
    subst (Extends task_id s) same (Extends-refl task_id s)
record_checks-Extends now run_id task_id (c ∷ cs) s next h =
    Extends-trans task_id s (with_check now run_id task_id c s) next
      (with_check-Extends now run_id task_id c s)
      (record_checks-Extends now run_id task_id cs (with_check now run_id task_id c s) next h)

-- The first check leaves its two rows.
pub record_checks-rows :
    (now run_id task_id : ℕ) (c : Check) (cs : List Check) (s next : Store)
    → record_checks now run_id task_id (c ∷ cs) s ≡ ok next
    → Mem (verified_row now run_id task_id c) next.tables.verifications
      × Mem (citing_row run_id task_id c) next.tables.evidence
unfolding record_checks record_verification_run new_verification add_evidence Extends
record_checks-rows now run_id task_id c cs s next h =
    let v : VerificationRun = verified_row now run_id task_id c in
    let e : Evidence = citing_row run_id task_id c in
    let (_, _, _, vs, es, _) =
      record_checks-Extends now run_id task_id cs (with_check now run_id task_id c s) next h in
    (
      vs v (Mem-append_right v s.tables.verifications (v ∷ []) (inl refl)),
      es e (Mem-append_right e s.tables.evidence (e ∷ []) (inl refl)),
    )
