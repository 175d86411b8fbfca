-- ===== src/Completion/Verified.antt =====
-- The verification runs that count for a task (src/domain/completion.ts,
-- qualifyingVerificationRuns and the candidate's head of evaluateCompletionProof).
use project_baracks.Prelude.{
  ℕ, ◌==◌, Eq-ℕ, Text, Eq-Text, Bool, false, ◌&&◌, Option, none, some, option_eq, is_some, List, [],
  ◌∷◌, ◌++◌, keep, any, map, if◌then◌else◌,
}
use project_baracks.Completion.Criteria.{ProgressiveValidation}
use project_baracks.Records.Types.{
  AgentRun, is_succeeded, VerificationRun, is_passed, Evidence, is_verification_run, Tables,
}

-- A row of the join of verification_runs, agent_runs and evidence.
pub record Qualified : Type 0 where
  pub id : Text
  pub validation_subject : Option Text
  pub source_head : Option Text

abbrev pub qualified_eq : Qualified → Qualified → Bool
qualified_eq a b =
    a.id == b.id
    && option_eq a.validation_subject b.validation_subject
    && option_eq a.source_head b.source_head

-- `selectDistinct`
unfoldable pub distinct : List Qualified → List Qualified
distinct [] = []
distinct (q ∷ qs) = let rest = distinct qs in if any (qualified_eq q) rest then rest else q ∷ rest

unfoldable pub verification_holds : ℕ → VerificationRun → Bool
verification_holds task_id v =
    v.task_id == task_id
    && is_passed v.status
    && option_eq v.exit_code (some 0)
    && is_some v.started_at
    && is_some v.ended_at

unfoldable pub produced_by : VerificationRun → AgentRun → Bool
produced_by v r =
    option_eq v.agent_run_id (some r.id) && r.task_id == v.task_id && is_succeeded r.status

unfoldable pub cites : VerificationRun → Evidence → Bool
cites v e = option_eq e.ref (some v.id) && is_verification_run e.kind && e.task_id == v.task_id

abbrev pub qualified : VerificationRun → AgentRun → Qualified
qualified v r = record {
  id = v.id;
  validation_subject = v.validation_subject;
  source_head = r.source_head;
}

-- The rows of the join for one verification run: those that only the evidence tells apart are one
-- row of the distinct result.
unfoldable pub joined : Tables → VerificationRun → List Qualified
joined t v =
    if any (cites v) t.evidence then map (qualified v) (keep (produced_by v) t.runs) else []

unfoldable pub join_all : Tables → List VerificationRun → List Qualified
join_all t [] = []
join_all t (v ∷ vs) = joined t v ++ join_all t vs

unfoldable pub qualifying_verifications : Tables → ℕ → List Qualified
qualifying_verifications t task_id =
    distinct (join_all t (keep (verification_holds task_id) t.verifications))

-- An absent head is the head of no row.
abbrev pub is_at_head : Option Text → Qualified → Bool
is_at_head none q = false
is_at_head (some head) q = option_eq q.source_head (some head)

unfoldable pub effective_verifications :
    Option ProgressiveValidation → List Qualified → List Qualified
effective_verifications none qs = qs
effective_verifications (some p) qs = keep (λ q. is_at_head p.candidate_head q) qs
