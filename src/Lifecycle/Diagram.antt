-- ===== src/Lifecycle/Diagram.antt =====
-- The transition diagram of src/domain/lifecycle.ts, as a relation.
use project_baracks.Prelude.{
  ◌≡◌, ◌≢◌, ◌↔◌, refl, arith, true, false, Option, none, some, inl, inr, Bool-cases,
}
use project_baracks.Lifecycle.Machine.{
  TaskStatus, suggested, draft, ready, queued, running, verifying, reviewing, repairing,
  needs_decision, ready_to_merge, completed, failed, cancelled, CompletionProof, TransitionGuards,
  ok, validate_transition, is_terminal,
}

-- What a task goes through when all goes well.
pub data Forward : TaskStatus → TaskStatus → Type 0 where
  materialise : Forward suggested draft
  prepare : Forward draft ready
  enqueue : Forward ready queued
  start : Forward queued running
  submit : Forward running verifying
  pass_checks : Forward verifying reviewing
  approve : Forward reviewing ready_to_merge
  complete : Forward ready_to_merge completed

-- A status in which work is under way, so that it can fail or be parked for the owner.
pub data IsInFlight : TaskStatus → Type 0 where
  running_work : IsInFlight running
  verifying_work : IsInFlight verifying
  reviewing_work : IsInFlight reviewing
  repairing_work : IsInFlight repairing

infix 40 ◌⟶◌ ◌⟶*◌
pub data ◌⟶◌ : TaskStatus → TaskStatus → Type 0 where
  forward : {s t : TaskStatus} → Forward s t → s ⟶ t
  unready : ready ⟶ draft
  unqueue : queued ⟶ ready
  recover : running ⟶ queued
  retry : failed ⟶ queued
  repair_checks : verifying ⟶ repairing
  repair_review : reviewing ⟶ repairing
  repair_merge : ready_to_merge ⟶ repairing
  repaired : repairing ⟶ verifying
  park : {s : TaskStatus} → IsInFlight s → s ⟶ needs_decision
  park_merge : ready_to_merge ⟶ needs_decision
  fail : {s : TaskStatus} → IsInFlight s → s ⟶ failed
  decide_ready : needs_decision ⟶ ready
  decide_queue : needs_decision ⟶ queued
  decide_repair : needs_decision ⟶ repairing
  decide_merge : needs_decision ⟶ ready_to_merge
  decide_fail : needs_decision ⟶ failed
  cancel : {s : TaskStatus} → is_terminal s ≡ false → s ⟶ cancelled

pub data ◌⟶*◌ : TaskStatus → TaskStatus → Type 0 where
  here : {s : TaskStatus} → s ⟶* s
  then : {s t u : TaskStatus} → s ⟶ t → t ⟶* u → s ⟶* u

ruleset forwards =
    (materialise, prepare, enqueue, start, submit, pass_checks, approve, complete, forward)

ruleset edges = (
  forwards, running_work, verifying_work, reviewing_work, repairing_work, unready, unqueue, recover,
  retry, repair_checks, repair_review, repair_merge, repaired, park, park_merge, fail, decide_ready,
  decide_queue, decide_repair, decide_merge, decide_fail, cancel,
)

abbrev pub Proven : Option CompletionProof → Type 0
Proven none = ⊥
Proven (some proof) = proof.ok ≡ true

-- What the caller must have shown for a transition that is guarded.
pub record Guarded (from to : TaskStatus) (guards : TransitionGuards) : Type 0 where
  pub dependencies : from ≡ ready → to ≡ queued → guards.incomplete_dependency_count ≡ some 0
  pub proof : to ≡ completed → Proven guards.completion_proof

validate-⟶ :
    (from to : TaskStatus) (guards : TransitionGuards)
    → validate_transition from to guards ≡ ok
    → from ⟶ to
unfolding validate_transition is_terminal
validate-⟶ suggested to guards h = grind (arith, edges)
validate-⟶ _ to guards h = grind (arith, edges)

validate-Guarded :
    (from to : TaskStatus) (guards : TransitionGuards)
    → validate_transition from to guards ≡ ok
    → Guarded from to guards
unfolding validate_transition
validate-Guarded from to guards h = ground arith

Guarded-validate :
    {from to : TaskStatus} (guards : TransitionGuards)
    → from ⟶ to
    → Guarded from to guards
    → validate_transition from to guards ≡ ok
unfolding validate_transition is_terminal
Guarded-validate guards (forward materialise) g = ground arith
Guarded-validate guards (forward prepare) g = ground arith
Guarded-validate guards (forward enqueue) g = ground (arith, g.dependencies refl refl)
Guarded-validate guards (forward start) g = ground arith
Guarded-validate guards (forward submit) g = ground arith
Guarded-validate guards (forward pass_checks) g = ground arith
Guarded-validate guards (forward approve) g = ground arith
Guarded-validate guards (forward complete) g = ground (arith, g.proof refl)
Guarded-validate guards (park running_work) g = ground arith
Guarded-validate guards (park verifying_work) g = ground arith
Guarded-validate guards (park reviewing_work) g = ground arith
Guarded-validate guards (park repairing_work) g = ground arith
Guarded-validate guards (fail running_work) g = ground arith
Guarded-validate guards (fail verifying_work) g = ground arith
Guarded-validate guards (fail reviewing_work) g = ground arith
Guarded-validate guards (fail repairing_work) g = ground arith
Guarded-validate guards (cancel live) g = ground arith
Guarded-validate guards _ g = ground arith

-- A transition is valid exactly if the diagram has its edge and its guards are shown: no incomplete
-- dependency for a ready task to be queued, a satisfied proof for a task to be completed.
pub validate_iff :
    (from to : TaskStatus) (guards : TransitionGuards)
    → (validate_transition from to guards ≡ ok) ↔ ((from ⟶ to) × Guarded from to guards)
validate_iff from to guards = (
  λ h. (validate-⟶ from to guards h, validate-Guarded from to guards h),
  λ (edge, shown). Guarded-validate guards edge shown,
)

terminal_stays :
    (s : TaskStatus)
    → is_terminal s ≡ true
    → (to : TaskStatus) (guards : TransitionGuards) → validate_transition s to guards ≢ ok
unfolding is_terminal validate_transition
terminal_stays s terminal to guards = ground arith

-- A terminal status has no way out, whatever the guards; any other can be cancelled at once.
is_terminal_iff :
    (s : TaskStatus)
    → (is_terminal s ≡ true)
      ↔ ((to : TaskStatus) (guards : TransitionGuards) → validate_transition s to guards ≢ ok)
is_terminal_iff s = (
  terminal_stays s,
  λ stays. elim (Bool-cases (is_terminal s)) [
    | inl terminal ↦ terminal
    | inr live ↦
        absurd (stays cancelled unguarded (Guarded-validate unguarded (cancel live) (ground arith)))
  ],
)
  where
    unguarded : TransitionGuards
    unguarded = record { incomplete_dependency_count = none; completion_proof = none }

merged : ready_to_merge ⟶* completed
merged = then (forward complete) here

reviewed : verifying ⟶* completed
reviewed = then (forward pass_checks) (then (forward approve) merged)

worked : queued ⟶* completed
worked = then (forward start) (then (forward submit) reviewed)

readied : ready ⟶* completed
readied = then (forward enqueue) worked

-- Every status that is not terminal has a way to `completed`.
completed_reachable : (s : TaskStatus) → is_terminal s ≡ false → s ⟶* completed
unfolding is_terminal
completed_reachable suggested live = then (forward materialise) (then (forward prepare) readied)
completed_reachable draft live = then (forward prepare) readied
completed_reachable ready live = readied
completed_reachable queued live = worked
completed_reachable running live = then (forward submit) reviewed
completed_reachable verifying live = reviewed
completed_reachable reviewing live = then (forward approve) merged
completed_reachable repairing live = then repaired reviewed
completed_reachable needs_decision live = then decide_merge merged
completed_reachable ready_to_merge live = merged
completed_reachable completed live = here
completed_reachable failed live = then retry worked
completed_reachable cancelled live = ground arith
