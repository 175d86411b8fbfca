-- ===== src/Runs/Paid.antt =====
-- One paid run for one approval (src/domain/run-service.ts, src/domain/decision-service.ts).
use project_baracks.Prelude.{
  ◌⊎◌, ◌≡◌, refl, sym, ap, ◌∙◌, subst, inl, inr, arith, ℕ, ◌==◌, Eq-ℕ, Text, Bool, true, Option,
  some, Bool-cases, Option-cases, List, [], ◌∷◌, ◌++◌, Mem, Mem-append,
}
use mathlib.Core.Option.{some-injective}
use project_baracks.Records.Types.{AgentRun, VerificationRun, RunStatus, Decision}
use project_baracks.Queue.Types.{update_where}
use project_baracks.Runs.Decisions.{
  create_decision_request, get_decision, expire_stale_decisions, resolve_decision,
}
use project_baracks.Runs.Types.{Store, Reading, Result-cases, ok, bind-ok}
use project_baracks.Runs.Create.{NewRun, is_paid, new_run, create_run}
use project_baracks.Runs.Records.{
  set_run_status, with_status, get_run, NewVerification, record_verification_run, add_evidence,
}
use project_baracks.Runs.Authority.{create_run-steps}
use project_baracks.Runs.Steps.{
  RunOp, create, set_status, verify, cite, request, resolve, expire, apply, run,
}
use project_baracks.Runs.Stamps.{
  IsStamped, append-KeepsStamps, consume-KeepsStamps, consume-cited, consumed_stamp,
  expire-KeepsStamps, insert_run-steps, keep-IsStamped, resolve-KeepsStamps, stamp_of,
}

abbrev Holds : Store → Type 0
Holds s = IsStamped s.tables.runs s.tables.decisions

create_run-IsStamped :
    (reading : Reading) (now id : ℕ) (input : NewRun) (s : Store) (out : AgentRun × Store)
    → create_run reading now id input s ≡ ok out
    → Holds s
    → Holds out.1
unfolding IsStamped new_run
create_run-IsStamped reading now id input s out h holds =
    let (_, _, _, _, _, inserted, checked, _) = create_run-steps reading now id input s out h in
    let r : AgentRun = new_run id input in
    let (ds, consumed, same) = insert_run-steps r s out.1 inserted in
    let runs : out.1.tables.runs ≡ s.tables.runs ++ r ∷ [] = ap (λ t. t.tables.runs) same in
    let decisions : out.1.tables.decisions ≡ ds = ap (λ t. t.tables.decisions) same in
    let older : IsStamped s.tables.runs out.1.tables.decisions =
      subst (IsStamped s.tables.runs) (sym decisions) (
        keep-IsStamped s.tables.runs s.tables.decisions ds
          (consume-KeepsStamps r s.tables.decisions ds consumed) holds) in
    λ u inside paid. elim (Mem-append u s.tables.runs (r ∷ []) (subst (Mem u) runs inside)) [
      | inl old ↦ older u old paid
      | inr (inr never) ↦ absurd never
      | inr (inl new) ↦
          let its : is_paid r.billing_mode ≡ true =
            subst (λ x. is_paid x.billing_mode ≡ true) new paid in
          let (decision_id, cited) = consume-cited r s.tables.decisions ds consumed its in
          subst
            (λ x.
              (i : ℕ) × (x.paid_usage_decision_id ≡ some i)
              × (stamp_of (get_decision i out.1.tables.decisions) ≡ some x.id))
            (sym new) (decision_id, cited, consumed_stamp r out.1 decision_id checked its cited)
    ]

Mem-update :
    {A : Type 0} (p : A → Bool) (f : A → A) (x : A) (xs : List A)
    → Mem x (update_where p f xs)
    → (y : A) × Mem y xs × ((x ≡ y) ⊎ (x ≡ f y))
Mem-update p f x [] h = absurd h
Mem-update p f x (y ∷ ys) (inl same) = elim (Bool-cases (p y)) [
  | inl e ↦ (y, inl refl, inr (ground (arith, e)))
  | inr e ↦ (y, inl refl, inl (ground (arith, e)))
]
Mem-update p f x (y ∷ ys) (inr h) =
    let (z, inside, same) = Mem-update p f x ys h in (z, inr inside, same)

-- The status of a run, its session and its times are no part of the stamp.
status-IsStamped :
    (now id : ℕ) (status : RunStatus) (session : Option Text) (rs : List AgentRun)
    (ds : List Decision)
    → IsStamped rs ds
    → IsStamped (update_where (λ r. r.id == id) (with_status now status session) rs) ds
unfolding IsStamped with_status
status-IsStamped now id status session rs ds holds r inside paid =
    let (x, x_in, same) =
      Mem-update (λ u. u.id == id) (with_status now status session) r rs inside in
    elim same [
      | inl e ↦
          subst
            (λ u.
              (i : ℕ) × (u.paid_usage_decision_id ≡ some i)
              × (stamp_of (get_decision i ds) ≡ some u.id))
            (sym e) (holds x x_in (subst (λ u. is_paid u.billing_mode ≡ true) e paid))
      | inr e ↦
          subst
            (λ u.
              (i : ℕ) × (u.paid_usage_decision_id ≡ some i)
              × (stamp_of (get_decision i ds) ≡ some u.id))
            (sym e) (holds x x_in (subst (λ u. is_paid u.billing_mode ≡ true) e paid))
    ]

set_run_status-tables :
    (now id : ℕ) (status : RunStatus) (session : Option Text) (s : Store) (out : AgentRun × Store)
    → set_run_status now id status session s ≡ ok out
    → (out.1.tables.runs
        ≡ update_where (λ r. r.id == id) (with_status now status session) s.tables.runs)
      × (out.1.tables.decisions ≡ s.tables.decisions)
unfolding set_run_status
set_run_status-tables now id status session s out h =
    let next : Store = record s {
      tables = record s.tables {
        runs = update_where (λ r. r.id == id) (with_status now status session) s.tables.runs;
      };
    } in
    let (updated, got, rest) = bind-ok (get_run id next) h in
    (ground (arith, rest), ground (arith, rest))

verification-tables :
    (now : ℕ) (id : Text) (input : NewVerification) (s : Store) (out : VerificationRun × Store)
    → record_verification_run now id input s ≡ ok out
    → (out.1.tables.runs ≡ s.tables.runs) × (out.1.tables.decisions ≡ s.tables.decisions)
unfolding record_verification_run
verification-tables now id input s out h = ground arith

apply-Holds : (reading : Reading) (op : RunOp) (s : Store) → Holds s → Holds (apply reading op s)
unfolding apply add_evidence
apply-Holds reading (create now id input) s h =
    elim (Result-cases (create_run reading now id input s)) [
      | inl (out, e) ↦ rw (e, apply) (create_run-IsStamped reading now id input s out e h)
      | inr (x, e) ↦ rw (e, apply) h
    ]
apply-Holds reading (set_status now id status session) s h =
    elim (Result-cases (set_run_status now id status session s)) [
      | inl (out, e) ↦
          let (runs, decisions) = set_run_status-tables now id status session s out e in
          rw (e, apply, runs, decisions)
            (status-IsStamped now id status session s.tables.runs s.tables.decisions h)
      | inr (x, e) ↦ rw (e, apply) h
    ]
apply-Holds reading (verify now id input) s h =
    elim (Result-cases (record_verification_run now id input s)) [
      | inl (out, e) ↦
          let (runs, decisions) = verification-tables now id input s out e in
          rw (e, apply, runs, decisions) h
      | inr (x, e) ↦ rw (e, apply) h
    ]
apply-Holds reading (cite id input) s h = h
apply-Holds reading (request id now input) s h =
    keep-IsStamped s.tables.runs s.tables.decisions
      (create_decision_request id now input s.tables.decisions)
      (unfold create_decision_request in append-KeepsStamps s.tables.decisions _) h
apply-Holds reading (resolve id outcome note now) s h =
    elim (Option-cases (resolve_decision id outcome note now s.tables.decisions)) [
      | inl e ↦ rw (e, apply) h
      | inr (after, e) ↦
          rw (e, apply)
            (keep-IsStamped s.tables.runs s.tables.decisions after
              (resolve-KeepsStamps id outcome note now s.tables.decisions after e) h)
    ]
apply-Holds reading (expire now) s h =
    keep-IsStamped s.tables.runs s.tables.decisions
      (expire_stale_decisions now s.tables.decisions).0 (expire-KeepsStamps now s.tables.decisions)
      h

run-Holds : (reading : Reading) (ops : List RunOp) (s : Store) → Holds s → Holds (run reading ops s)
unfolding run
run-Holds reading [] s h = h
run-Holds reading (op ∷ ops) s h =
    run-Holds reading ops (apply reading op s) (apply-Holds reading op s h)

-- From a store without runs, whatever the operations: two paid runs under the same approval are the
-- same run, and the approval is stamped with it.
pub run-paid_once :
    (reading : Reading) (ops : List RunOp) (s : Store) (a b : AgentRun) (decision_id : ℕ)
    → s.tables.runs ≡ []
    → Mem a (run reading ops s).tables.runs
    → Mem b (run reading ops s).tables.runs
    → is_paid a.billing_mode ≡ true
    → is_paid b.billing_mode ≡ true
    → a.paid_usage_decision_id ≡ some decision_id
    → b.paid_usage_decision_id ≡ some decision_id
    → (a.id ≡ b.id)
      × (stamp_of (get_decision decision_id (run reading ops s).tables.decisions) ≡ some a.id)
unfolding IsStamped
run-paid_once reading ops s a b decision_id none_yet a_in b_in a_paid b_paid a_cites b_cites =
    let start : Holds s = λ r inside paid. absurd (subst (Mem r) none_yet inside) in
    let holds : Holds (run reading ops s) = run-Holds reading ops s start in
    let (i, i_cited, i_stamp) = holds a a_in a_paid in
    let (j, j_cited, j_stamp) = holds b b_in b_paid in
    let i_same : i ≡ decision_id = some-injective i decision_id (sym i_cited ∙ a_cites) in
    let j_same : j ≡ decision_id = some-injective j decision_id (sym j_cited ∙ b_cites) in
    let of_a : stamp_of (get_decision decision_id (run reading ops s).tables.decisions)
        ≡ some a.id =
      subst (λ k. stamp_of (get_decision k (run reading ops s).tables.decisions) ≡ some a.id) i_same
        i_stamp in
    let of_b : stamp_of (get_decision decision_id (run reading ops s).tables.decisions)
        ≡ some b.id =
      subst (λ k. stamp_of (get_decision k (run reading ops s).tables.decisions) ≡ some b.id) j_same
        j_stamp in
    (some-injective a.id b.id (sym of_a ∙ of_b), of_a)
