-- ===== src/Lifecycle/Machine.antt =====
-- src/domain/lifecycle.ts: the statuses, the transition table and its guards. A refusal's text is a
-- constructor that holds what the text is made of.
use project_baracks.Prelude.{
  ℕ, ◌≡◌, ◌↔◌, arith, Eq, Eq-ℕ, ◌==◌, String, Bool, true, not, ◌&&◌, Option, none, some, List, [],
  ◌∷◌, any, ltb, if◌then◌else◌,
}

pub data TaskStatus : Type 0 where
  suggested draft ready queued running verifying reviewing repairing : TaskStatus
  needs_decision ready_to_merge completed failed cancelled : TaskStatus

-- A number for each status, by which two of them are compared.
abbrev rank : TaskStatus → ℕ
rank suggested = 0
rank draft = 1
rank ready = 2
rank queued = 3
rank running = 4
rank verifying = 5
rank reviewing = 6
rank repairing = 7
rank needs_decision = 8
rank ready_to_merge = 9
rank completed = 10
rank failed = 11
rank cancelled = 12

abbrev status_eq : TaskStatus → TaskStatus → Bool
status_eq a b = rank a == rank b

pub status_eq_iff : (a b : TaskStatus) → (status_eq a b ≡ true) ↔ (a ≡ b)
status_eq_iff a b = ground arith

instance abbrev pub Eq-TaskStatus : Eq TaskStatus
Eq-TaskStatus = record { equals = status_eq; equals_iff = status_eq_iff }

abbrev terminal_statuses : List TaskStatus
terminal_statuses = completed ∷ cancelled ∷ []

unfoldable pub transitions : TaskStatus → List TaskStatus
transitions suggested = draft ∷ cancelled ∷ []
transitions draft = ready ∷ cancelled ∷ []
transitions ready = queued ∷ draft ∷ cancelled ∷ []
transitions queued = running ∷ ready ∷ cancelled ∷ []
transitions running = verifying ∷ queued ∷ needs_decision ∷ failed ∷ cancelled ∷ []
transitions verifying = reviewing ∷ repairing ∷ needs_decision ∷ failed ∷ cancelled ∷ []
transitions reviewing = ready_to_merge ∷ repairing ∷ needs_decision ∷ failed ∷ cancelled ∷ []
transitions repairing = verifying ∷ needs_decision ∷ failed ∷ cancelled ∷ []
transitions needs_decision = ready ∷ queued ∷ repairing ∷ ready_to_merge ∷ failed ∷ cancelled ∷ []
transitions ready_to_merge = completed ∷ repairing ∷ needs_decision ∷ cancelled ∷ []
transitions completed = []
transitions failed = queued ∷ cancelled ∷ []
transitions cancelled = []

pub record CompletionProof : Type 0 where
  pub ok : Bool
  pub failures : List String

pub record TransitionGuards : Type 0 where
  pub incomplete_dependency_count : Option ℕ
  pub completion_proof : Option CompletionProof

pub data Refusal : Type 0 where
  illegal_transition : TaskStatus → TaskStatus → Refusal
  requires_dependency_check : Refusal
  blocked_by : ℕ → Refusal
  requires_completion_proof : Refusal
  proof_not_satisfied : List String → Refusal

pub data TransitionResult : Type 0 where
  ok : TransitionResult
  refused : Refusal → TransitionResult

abbrev pub includes : List TaskStatus → TaskStatus → Bool
includes statuses s = any (λ t. t == s) statuses

abbrev check_completion : TaskStatus → TransitionGuards → TransitionResult
check_completion to guards =
    if to == completed
    then (elim guards.completion_proof [
      | none ↦ refused requires_completion_proof
      | some proof ↦ if not proof.ok then refused (proof_not_satisfied proof.failures) else ok
    ])
    else ok

unfoldable pub validate_transition : TaskStatus → TaskStatus → TransitionGuards → TransitionResult
unfolding transitions
validate_transition from to guards =
    if not (includes (transitions from) to)
    then refused (illegal_transition from to)
    else if from == ready && to == queued
    then (elim guards.incomplete_dependency_count [
      | none ↦ refused requires_dependency_check
      | some n ↦ if ltb 0 n then refused (blocked_by n) else check_completion to guards
    ])
    else check_completion to guards

unfoldable pub is_terminal : TaskStatus → Bool
is_terminal status = includes terminal_statuses status
