-- ===== src/Dispatch/Landed.antt =====
-- A branch that landed leaves a task that its completion proof accepts
-- (src/supervisor/parallel-dispatch.ts, the transaction at the end of `land`, with
-- src/domain/completion.ts, evaluateCompletionProof).
use project_baracks.Prelude.{
  ◌≡◌, refl, sym, ap, ◌∙◌, subst, inl, inr, arith, ℕ, ◌==◌, Eq-ℕ, nat_eq_iff, Text, Eq-Text,
  text_eq_iff, String, Bool, true, Option, none, some, List, [], ◌∷◌, ◌++◌, Mem, Mem-append_right,
}
use project_baracks.Lifecycle.Machine.{verifying}
use project_baracks.Records.Types.{
  AgentRun, RunStatus, running, succeeded, VerificationRun, Decision,
}
use project_baracks.Queue.Types as Queue
use project_baracks.Queue.Types.{TaskRow, Db, update_where}
use project_baracks.Queue.Tasks.{ClaimFence, apply_transition}
use project_baracks.Completion.Criteria.{default_criteria}
use project_baracks.Completion.Verified.{cites, produced_by, verification_holds}
use project_baracks.Completion.Proof.{Failure, is_clear, open_blocking_findings, proof_failures}
use project_baracks.Completion.Legacy.{IsLinked, default-clear}
use project_baracks.Completion.Transition.{env_of}
use project_baracks.Runs.Types.{Store, Reading, ok, bind-ok}
use project_baracks.Runs.Create.{NewRun, new_run, create_run}
use project_baracks.Runs.Records.{get_run, with_status, set_run_status}
use project_baracks.Runs.Authority.{create_run-steps}
use project_baracks.Runs.Stamps.{insert_run-steps}
use project_baracks.Dispatch.Landing.{
  Provenance, Check, landed_run, record_checks, on_queue, record_landing,
}
use project_baracks.Dispatch.Checked.{
  verified_row, citing_row, Extends, record_checks-Extends, record_checks-rows,
}

abbrev with_runs : Store → List AgentRun → List Decision → Store
with_runs s rs ds = record s { tables = record s.tables { runs = rs; decisions = ds } }

abbrev set_runs : (now id : ℕ) → RunStatus → Option Text → List AgentRun → List AgentRun
set_runs now id status session rs =
    update_where (λ r. r.id == id) (with_status now status session) rs

set_run_status-store :
    (now id : ℕ) (status : RunStatus) (session : Option Text) (s : Store) (out : AgentRun × Store)
    → set_run_status now id status session s ≡ ok out
    → out.1 ≡ with_runs s (set_runs now id status session s.tables.runs) s.tables.decisions
unfolding set_run_status
set_run_status-store now id status session s out h =
    let next : Store =
      with_runs s (set_runs now id status session s.tables.runs) s.tables.decisions in
    let (updated, got, rest) = bind-ok (get_run id next) h in ground (arith, rest)

create_run-store :
    (reading : Reading) (now id : ℕ) (input : NewRun) (s : Store) (out : AgentRun × Store)
    → create_run reading now id input s ≡ ok out
    → (ds : List Decision) × (out.1 ≡ with_runs s (s.tables.runs ++ new_run id input ∷ []) ds)
create_run-store reading now id input s out h =
    let (_, _, _, _, _, inserted, _, _) = create_run-steps reading now id input s out h in
    let (ds, _, same) = insert_run-steps (new_run id input) s out.1 inserted in (ds, same)

Mem-updated :
    {A : Type 0} (p : A → Bool) (f : A → A) (x : A) (xs : List A)
    → p x ≡ true
    → Mem x xs
    → Mem (f x) (update_where p f xs)
Mem-updated p f x [] sure h = h
Mem-updated p f x (y ∷ ys) sure (inl same) = inl (rw (sym same, sure) refl)
Mem-updated p f x (y ∷ ys) sure (inr h) = inr (Mem-updated p f x ys sure h)

-- The run of a landed branch as it stands in the end.
abbrev landed_row : (now run_id : ℕ) → NewRun → Text → AgentRun
landed_row now run_id input session =
    with_status now succeeded (some session) (with_status now running none (new_run run_id input))

status-id :
    (now : ℕ) (status : RunStatus) (session : Option Text) (r : AgentRun)
    → (with_status now status session r).id ≡ r.id
unfolding with_status
status-id now status session r = refl

landed_row-Mem :
    (now run_id : ℕ) (input : NewRun) (session : Text) (rs : List AgentRun)
    → Mem (landed_row now run_id input session) (
        set_runs now run_id succeeded
          (some session)
          (set_runs now run_id running none (rs ++ new_run run_id input ∷ [])))
unfolding new_run
landed_row-Mem now run_id input session rs =
    let row : AgentRun = new_run run_id input in
    let first : AgentRun = with_status now running none row in
    let its : (first.id == run_id) ≡ true =
      (nat_eq_iff first.id run_id).1 (status-id now running none row) in
    Mem-updated (λ r. r.id == run_id) (with_status now succeeded (some session)) first
      (set_runs now run_id running none (rs ++ row ∷ [])) its
      (Mem-updated (λ r. r.id == run_id) (with_status now running none) row (rs ++ row ∷ [])
        ((nat_eq_iff run_id run_id).1 refl) (Mem-append_right row rs (row ∷ []) (inl refl)))

row_produced :
    (now run_id : ℕ) (p : Provenance) (task_id : ℕ) (fence : ClaimFence) (head session : Text)
    (c : Check)
    → produced_by
        (verified_row now run_id task_id c)
        (landed_row now run_id (landed_run p task_id fence head) session)
      ≡ true
unfolding produced_by with_status new_run landed_run
row_produced now run_id p task_id fence head session c =
    ground (arith, nat_eq_iff run_id run_id, nat_eq_iff task_id task_id)

row_holds :
    (now run_id task_id : ℕ) (c : Check)
    → verification_holds task_id (verified_row now run_id task_id c) ≡ true
unfolding verification_holds
row_holds now run_id task_id c = ground (arith, nat_eq_iff task_id task_id)

row_cited :
    (now run_id task_id : ℕ) (c : Check)
    → cites (verified_row now run_id task_id c) (citing_row run_id task_id c) ≡ true
unfolding cites
row_cited now run_id task_id c =
    ground (arith, nat_eq_iff task_id task_id, text_eq_iff c.verification_id c.verification_id)

on_queue-tables :
    (s after : Store) (r : Queue.Result (TaskRow × Db))
    → on_queue s r ≡ ok after
    → after.tables ≡ s.tables
on_queue-tables s after (Queue.ok (task, db)) h = ground arith
on_queue-tables s after (Queue.err e) h = absurd (ground arith)

abbrev moved_on : (now id : ℕ) → RunStatus → Option Text → Store → Store
moved_on now id status session s =
    with_runs s (set_runs now id status session s.tables.runs) s.tables.decisions

-- The steps of a landing that commits.
landing_steps :
    (wording : Failure → String) (reading : Reading) (now run_id : ℕ) (p : Provenance) (task_id : ℕ)
    (fence : ClaimFence) (head session : Text) (checks : List Check) (s after : Store)
    → record_landing wording reading now run_id p task_id fence head session checks s ≡ ok after
    → (ds : List Decision) × (verified : Store) × (record_checks now run_id task_id checks (
          with_runs s
            (set_runs now run_id succeeded (some session) (
              set_runs now run_id running none
                (s.tables.runs ++ new_run run_id (landed_run p task_id fence head) ∷ [])))
            ds)
        ≡ ok verified)
      × (after.tables ≡ verified.tables)
unfolding record_landing
landing_steps wording reading now run_id p task_id fence head session checks s after h =
    let input : NewRun = landed_run p task_id fence head in
    let (created, made, h1) = bind-ok (create_run reading now run_id input s) h in
    let (started, begun, h2) = bind-ok (set_run_status now run_id running none created.1) h1 in
    let (done, ended, h3) =
      bind-ok (set_run_status now run_id succeeded (some session) started.1) h2 in
    let (verified, checked, h4) = bind-ok (record_checks now run_id task_id checks done.1) h3 in
    let (ds, one) = create_run-store reading now run_id input s created made in
    let two : started.1 ≡ moved_on now run_id running none created.1 =
      set_run_status-store now run_id running none created.1 started begun in
    let three : done.1 ≡ moved_on now run_id succeeded (some session) started.1 =
      set_run_status-store now run_id succeeded (some session) started.1 done ended in
    let all_three : done.1
        ≡ moved_on now run_id succeeded (some session) (
            moved_on now run_id running none
              (with_runs s (s.tables.runs ++ new_run run_id input ∷ []) ds)) =
      three
      ∙ ap (moved_on now run_id succeeded (some session))
          (two ∙ ap (moved_on now run_id running none) one) in
    (
      ds,
      verified,
      subst (λ x. record_checks now run_id task_id checks x ≡ ok verified) all_three checked,
      on_queue-tables verified after
          (apply_transition (env_of reading.criteria wording now verified.tables) task_id verifying
            (some fence) verified.queue)
          h4,
    )

-- A landing that commits with one check at least leaves a task that its completion proof accepts
-- under the default criteria, where no blocking finding of the task is open and the citations of
-- the task were sound before.
pub record_landing-proven :
    (wording : Failure → String) (reading : Reading) (now run_id : ℕ) (p : Provenance) (task_id : ℕ)
    (fence : ClaimFence) (head session : Text) (c : Check) (cs : List Check) (s after : Store)
    → record_landing wording reading now run_id p task_id fence head session (c ∷ cs) s ≡ ok after
    → open_blocking_findings s.tables task_id ≡ 0
    → IsLinked s.tables task_id
    → is_clear (proof_failures after.tables after.queue.tasks task_id default_criteria true) ≡ true
unfolding Extends open_blocking_findings IsLinked
record_landing-proven wording reading now run_id p task_id fence head session c cs s after h clean
      linked =
    let input : NewRun = landed_run p task_id fence head in
    let (ds, verified, checked, same) =
      landing_steps wording reading now run_id p task_id fence head session (c ∷ cs) s after h in
    let rs : List AgentRun =
      set_runs now run_id succeeded (some session)
        (set_runs now run_id running none (s.tables.runs ++ new_run run_id input ∷ [])) in
    let row : AgentRun = landed_row now run_id input session in
    let v : VerificationRun = verified_row now run_id task_id c in
    let (_, runs, findings, _, _, sound) =
      record_checks-Extends now run_id task_id (c ∷ cs) (with_runs s rs ds) verified checked in
    let (v_in, e_in) =
      record_checks-rows now run_id task_id c cs (with_runs s rs ds) verified checked in
    subst (λ t. is_clear (proof_failures t after.queue.tasks task_id default_criteria true) ≡ true)
      (sym same)
      (default-clear verified.tables after.queue.tasks task_id v row (citing_row run_id task_id c)
        v_in (subst (Mem row) (sym runs) (landed_row-Mem now run_id input session s.tables.runs))
        e_in (row_holds now run_id task_id c)
        (row_produced now run_id p task_id fence head session c) (row_cited now run_id task_id c)
        refl (rw findings clean) (sound linked))
