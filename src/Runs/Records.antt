-- ===== src/Runs/Records.antt =====
-- The status of a run and its verification runs (src/domain/run-service.ts), and the evidence that
-- cites them (src/domain/task-service.ts, addEvidence).
use project_baracks.Prelude.{
  ℕ, ◌==◌, Eq-ℕ, Text, Bool, true, false, not, ◌&&◌, Option, none, some, option_eq, [], ◌∷◌, ◌++◌,
  find, if◌then◌else◌,
}
use project_baracks.Records.Types.{
  RunStatus, pending, running, AgentRun, VerificationStatus, passed, verification_failed, is_passed,
  VerificationRun, EvidenceKind, Evidence,
}
use project_baracks.Queue.Types.{update_where}
use project_baracks.Runs.Types.{Store, run_not_found, bad_exit_code, Result, ok, err, ◌>>=◌}

unfoldable pub get_run : ℕ → Store → Result AgentRun
get_run id s = elim (find (λ r. r.id == id) s.tables.runs) [
  | none ↦ err (run_not_found id)
  | some r ↦ ok r
]

abbrev is_running : RunStatus → Bool
is_running running = true
is_running _ = false

abbrev is_ended : RunStatus → Bool
is_ended pending = false
is_ended running = false
is_ended _ = true

-- A session that is absent or empty is kept as it was.
abbrev session_or : Option Text → Option Text → Option Text
session_or none old = old
session_or (some []) old = old
session_or (some (c ∷ cs)) old = some (c ∷ cs)

unfoldable pub with_status : ℕ → RunStatus → Option Text → AgentRun → AgentRun
with_status now status session r = record r {
  status = status;
  session_ref = session_or session r.session_ref;
  started_at = if is_running status then some now else r.started_at;
  ended_at = if is_ended status then some now else r.ended_at;
}

-- The usage that the source records on the way concerns no table of the model.
unfoldable pub set_run_status :
    (now id : ℕ) → RunStatus → Option Text → Store → Result (AgentRun × Store)
set_run_status now id status session s =
    let next = record s {
      tables = record s.tables {
        runs = update_where (λ r. r.id == id) (with_status now status session) s.tables.runs;
      };
    } in
    do updated ← get_run id next; ok (updated, next)

pub record NewVerification : Type 0 where
  pub task_id : ℕ
  pub status : VerificationStatus
  pub exit_code : Option ℕ
  pub validation_subject : Option Text
  pub agent_run_id : Option ℕ
  pub started_at : Option ℕ
  pub ended_at : Option ℕ

abbrev is_terminal : VerificationStatus → Bool
is_terminal passed = true
is_terminal verification_failed = true
is_terminal _ = false

abbrev time_or : Option ℕ → Bool → ℕ → Option ℕ
time_or (some t) terminal now = some t
time_or none terminal now = if terminal then some now else none

unfoldable pub new_verification : ℕ → Text → NewVerification → VerificationRun
new_verification now id input = record {
  id = id;
  task_id = input.task_id;
  agent_run_id = input.agent_run_id;
  status = input.status;
  exit_code = input.exit_code;
  validation_subject = input.validation_subject;
  started_at = time_or input.started_at (is_terminal input.status) now;
  ended_at = time_or input.ended_at (is_terminal input.status) now;
}

unfoldable pub record_verification_run :
    ℕ → Text → NewVerification → Store → Result (VerificationRun × Store)
record_verification_run now id input s =
    if is_passed input.status && not (option_eq input.exit_code (some 0))
    then err (bad_exit_code input.exit_code)
    else let row = new_verification now id input in
      ok (
        row,
        record s {
          tables = record s.tables { verifications = s.tables.verifications ++ row ∷ [] };
        },
      )

pub record NewEvidence : Type 0 where
  pub task_id : ℕ
  pub kind : EvidenceKind
  pub ref : Option Text
  pub agent_run_id : Option ℕ

unfoldable pub add_evidence : ℕ → NewEvidence → Store → Evidence × Store
add_evidence id input s =
    let row : Evidence = record {
      id = id;
      task_id = input.task_id;
      agent_run_id = input.agent_run_id;
      kind = input.kind;
      ref = input.ref;
    } in
    (row, record s { tables = record s.tables { evidence = s.tables.evidence ++ row ∷ [] } })
