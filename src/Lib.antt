-- ===== src/Lib.antt =====
-- Verification of the coordinator's core: the resource governor, the task lifecycle and queue,
-- the model router and the trust policies, the completion proofs, the runs with their
-- approvals, the parallel batches, and the goals of the supervisor with their grades.
--
-- The program lets a coordinator run agents on tasks. A worker claims a task from the queue
-- (domain) and moves it through the lifecycle; the router picks a provider's model for each
-- run; the resource governor grants leases on the host's memory and processes; the trust policy
-- of a project says whether a worker may execute at all. What a worker did is recorded as runs,
-- verification runs and evidence, and the completion proof over these tables decides whether a
-- task may be completed. The supervisor keeps the goals; a goal is done only by the grade of an
-- independent review.
--
-- The files, and the code they are about:
--   Prelude: Boolean tests, lists measured by native numbers, equality by instances, texts as
--     lists of code units.
--   Resource: src/supervisor/resources.ts. Types has the records, Limits the live caps
--     (currentResourceLimits), Store the store's own steps (prune, capacityReason,
--     promoteQueued), Operations one function per exported operation on the store and Leases
--     one per operation on a lease. Waiting has the loop of waitForResource. Runs gathers them
--     as steps of one store. The other modules prove: Bounds, Fifo, Owners, Reclaim, Fencing,
--     on the lemmas of Capacity and Turn.
--   Lifecycle: src/domain/lifecycle.ts. Machine has the table and validateTransition; Diagram
--     and Traces prove.
--   Queue: src/domain/task-service.ts (Tasks: applyTransition) and src/domain/claim-service.ts
--     (Claims: claimNextTask, heartbeatClaim, completeClaim, releaseClaim,
--     recoverExpiredClaims) on the rows of src/db/schema.ts (Types). Leases, Runs, Guards,
--     Permission, Permitted, Age, Acquire, Recovery, Keys, Commits and Grants prove.
--   Routing: src/routing/router.ts (Types, Router) and src/providers/account.ts (Account).
--     Router.Ladder, Picks, Pool, Choices and Account.Keys prove.
--   Policy: src/supervisor/policy.ts (Types, Store: configureProjectPolicy, Grades:
--     storeGrade). Runs, Ladder, Execution, Limits and Shadow prove.
--   Sdlc: src/domain/sdlc.ts (Decisions, Validation) and composeRepairPolicy of
--     src/intelligence/repair-gate.ts (Repair). Delivery proves.
--   Records: the rows of src/db/schema.ts that proofs and runs read.
--   Completion: src/domain/completion.ts (Criteria; Verified, Review and Proof:
--     evaluateCompletionProof, Binding: resolveCanonicalTaskBinding and
--     evaluateTaskPromotionProof). Clear, Sound, Findings, Reviewed, Promotable and Provenance
--     prove; Transition composes the proof with applyTransition of the queue.
--   Runs: src/domain/decision-service.ts (Decisions) and src/domain/run-service.ts (Create:
--     createRun, Records: setRunStatus and recordVerificationRun, Events: appendRunEvent), with
--     the trigger of src/drizzle/0009_paid_authority_boundary.sql that consumes a paid
--     approval. Steps gathers them as steps of one store; Authority, Stamps, Paid and History
--     prove.
--   Dispatch: src/supervisor/parallel-dispatch.ts (Paths: pathsOverlap, Batch:
--     selectParallelBatch, Landing: the transaction that records a landed branch, Gate:
--     promoteNextLandedTask with the trigger of src/drizzle/0011_complete_worker_fencing.sql
--     that aborts an unfenced change of a status). Disjoint and Selected prove, for a matcher
--     of globs that is an argument; so do Checked and Landed, which compose a landing with the
--     completion proof, and Promoted and Canonical, which compose the gate with the binding.
--   Suggestions: src/domain/task-service.ts (Fingerprint: scopeFingerprint, Store:
--     addSuggestion, rejectSuggestion, approveSuggestion). Runs gathers them; Once and Closed
--     prove.
--   Goals: src/supervisor/state.ts (Types, Store: startGoal, admitGoal,
--     reconcileStaleGoalOwnership, bindGoalToProject, removeGoals; Live: claimLiveWorker;
--     Sessions: attachSession, authorizeSessionWorkshop; Receipt, Authority and Grade:
--     applyIndependentCompletionGrade; Recovery: recoverSupervisorCompletion). Admitted, Held,
--     Workshops, Graded, Bound, Earned, Refused and Replayed prove.
--   Tests: runs at concrete inputs.
--
-- How the state is modelled. The governor's file and the policy file are values that an
-- operation takes and returns; an operation that throws returns the file as it was. A database
-- is a record of its tables and a transaction that fails leaves it as it was. The file lock and
-- the immediate transactions are taken to exclude other writers, so that an interleaving is a
-- sequence of operations. One operation reads the clock once. A time is a number of
-- milliseconds where the source writes an ISO text. A message is a constructor with what the
-- text is made of. Identifiers that are drawn at random are a function of a counter in the
-- store (Resource) or an argument (Queue). Quotients that the source computes in floating point
-- are exact. What the code asks of its host (the clock, live processes, free memory, path
-- resolution, git, redaction) is a record that every operation takes; nothing is assumed of it
-- but that its clock advances from one turn of a wait to the next.
--
-- Every loop is a recursion on a list, but for the one of waitForResource. That one runs on
-- fuel: a turn for each millisecond of the timeout and one more, which is enough where the
-- clock advances from a turn to the next (the source sleeps for 250 ms).
--
-- In the goals the file of the state and the database are one value, a write that the source
-- makes in the middle of an operation is part of its result, and what an operation sees of a
-- repository is an argument.
--
-- The capabilities of src/security/capabilities.ts are constants that are all available, so
-- that asserting one never throws.
--
-- Not modelled: file and database IO, the SQL triggers of drizzle/ other than the consumption
-- of an approval and the fence of a task that the gate moves (they refuse writes that the
-- services refuse as well, or more), the usage that a run reports, the migration of old lease
-- files, the wording of messages, and the rest of the program: providers, execution backends,
-- skills, roadmap, user interfaces.
pub mod Prelude
pub mod Resource
pub mod Lifecycle
pub mod Routing
pub mod Policy
pub mod Records
pub mod Queue
pub mod Completion
pub mod Runs
pub mod Dispatch
pub mod Sdlc
pub mod Suggestions
pub mod Goals
pub mod Tests
