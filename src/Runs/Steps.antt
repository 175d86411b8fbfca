-- ===== src/Runs/Steps.antt =====
-- The operations on runs, verification runs, evidence and decisions as steps of one store
-- (src/domain/run-service.ts, src/domain/decision-service.ts).
use project_baracks.Prelude.{ℕ, Eq-ℕ, Text, Option, none, some, List, [], ◌∷◌}
use project_baracks.Records.Types.{RunStatus, Decision}
use project_baracks.Runs.Decisions.{
  NewDecision, create_decision_request, expire_stale_decisions, Resolution, resolve_decision,
}
use project_baracks.Runs.Types.{Store, Reading, Result, ok, err}
use project_baracks.Runs.Create.{NewRun, create_run}
use project_baracks.Runs.Records.{
  set_run_status, NewVerification, record_verification_run, NewEvidence, add_evidence,
}

pub data RunOp : Type 0 where
  create : (now id : ℕ) → NewRun → RunOp
  set_status : (now id : ℕ) → RunStatus → Option Text → RunOp
  verify : (now : ℕ) → Text → NewVerification → RunOp
  cite : ℕ → NewEvidence → RunOp
  request : (id now : ℕ) → NewDecision → RunOp
  resolve : (id : ℕ) → Resolution → Option Text → (now : ℕ) → RunOp
  expire : (now : ℕ) → RunOp

abbrev on_decisions : Store → List Decision → Store
on_decisions s ds = record s { tables = record s.tables { decisions = ds } }

abbrev pub committed : {A : Type 0} → Store → Result (A × Store) → Store
committed s (ok (a, next)) = next
committed s (err e) = s

abbrev resolved_or : Store → Option (List Decision) → Store
resolved_or s none = s
resolved_or s (some ds) = on_decisions s ds

-- An operation that fails leaves the store as it was.
unfoldable pub apply : Reading → RunOp → Store → Store
apply reading (create now id input) s = committed s (create_run reading now id input s)
apply reading (set_status now id status session) s =
    committed s (set_run_status now id status session s)
apply reading (verify now id input) s = committed s (record_verification_run now id input s)
apply reading (cite id input) s = (add_evidence id input s).1
apply reading (request id now input) s =
    on_decisions s (create_decision_request id now input s.tables.decisions)
apply reading (resolve id outcome note now) s =
    resolved_or s (resolve_decision id outcome note now s.tables.decisions)
apply reading (expire now) s = on_decisions s (expire_stale_decisions now s.tables.decisions).0

unfoldable pub run : Reading → List RunOp → Store → Store
run reading [] s = s
run reading (op ∷ ops) s = run reading ops (apply reading op s)
