-- ===== src/Dispatch/Landing.antt =====
-- What the merge queue records of a branch that landed (src/supervisor/parallel-dispatch.ts, the
-- transaction at the end of `land`): the run, one verification run and its citation for each check,
-- and the transition to `verifying`, all or none of them.
use project_baracks.Prelude.{ℕ, Text, String, none, some, List, [], ◌∷◌}
use project_baracks.Routing.Types.{BillingMode, implementation}
use project_baracks.Lifecycle.Machine.{verifying}
use project_baracks.Records.Types.{running, succeeded, passed, verification_run}
use project_baracks.Queue.Types as Queue
use project_baracks.Queue.Types.{TaskRow, Db}
use project_baracks.Queue.Tasks.{ClaimFence, apply_transition}
use project_baracks.Completion.Proof.{Failure}
use project_baracks.Completion.Transition.{env_of}
use project_baracks.Runs.Types.{Store, Reading, queue_error, Result, ok, err, ◌>>=◌}
use project_baracks.Runs.Create.{NewRun, create_run}
use project_baracks.Runs.Records.{set_run_status, record_verification_run, add_evidence}

-- The worker's provider and model, kept with the run of each landed task.
pub record Provenance : Type 0 where
  pub provider_id : ℕ
  pub model_id : ℕ
  pub model_ref : Text
  pub billing_mode : BillingMode

-- A check that passed, with the ids of its two new rows.
pub record Check : Type 0 where
  pub verification_id : Text
  pub evidence_id : ℕ

unfoldable pub landed_run : Provenance → (task_id : ℕ) → ClaimFence → Text → NewRun
landed_run p task_id fence head = record {
  task_id = task_id;
  provider_id = p.provider_id;
  claim_id = some fence.claim_id;
  claim_worker_id = some fence.worker_id;
  model_id = some p.model_id;
  model_ref = p.model_ref;
  purpose = implementation;
  billing_mode = p.billing_mode;
  paid_usage_decision_id = none;
  independence_loss = none;
  source_head = some head;
}

unfoldable pub record_checks : (now run_id task_id : ℕ) → List Check → Store → Result Store
record_checks now run_id task_id [] s = ok s
record_checks now run_id task_id (c ∷ cs) s = do
  verified ←
      record_verification_run now c.verification_id
        (record {
          task_id = task_id;
          status = passed;
          exit_code = some 0;
          validation_subject = none;
          agent_run_id = some run_id;
          started_at = none;
          ended_at = none;
        })
        s
  record_checks now run_id task_id cs
      (add_evidence c.evidence_id
        (record {
          task_id = task_id;
          kind = verification_run;
          ref = some verified.0.id;
          agent_run_id = some run_id;
        })
        verified.1).1

abbrev pub on_queue : Store → Queue.Result (TaskRow × Db) → Result Store
on_queue s (Queue.ok (task, db)) = ok (record s { queue = db })
on_queue s (Queue.err e) = err (queue_error e)

unfoldable pub record_landing :
    (wording : Failure → String)
    → Reading
    → (now run_id : ℕ) → Provenance
    → (task_id : ℕ) → ClaimFence
    → (head session : Text) → List Check
    → Store
    → Result Store
record_landing wording reading now run_id p task_id fence head session checks s = do
  created ← create_run reading now run_id (landed_run p task_id fence head) s
  started ← set_run_status now run_id running none created.1
  done ← set_run_status now run_id succeeded (some session) started.1
  verified ← record_checks now run_id task_id checks done.1
  on_queue verified (
      apply_transition (env_of reading.criteria wording now verified.tables) task_id verifying
        (some fence) verified.queue)
