-- ===== src/Lifecycle/Traces.antt =====
-- What the guards of src/domain/lifecycle.ts ensure over a task's whole life.
use project_baracks.Prelude.{◌≡◌, refl, ◌⊎◌, inl, inr, Bool, true, false, some, arith}
use project_baracks.Lifecycle.Machine.{
  TaskStatus, suggested, draft, ready, queued, completed, cancelled, TransitionGuards, ok,
  validate_transition,
}
use project_baracks.Lifecycle.Diagram.{Proven, validate_iff}

-- The valid transitions of a task, one after the other, each with the guards it was validated by.
pub data Trace : TaskStatus → TaskStatus → Type 0 where
  start : (s : TaskStatus) → Trace s s
  step :
      {s t : TaskStatus} (u : TaskStatus) (guards : TransitionGuards)
      → Trace s t
      → validate_transition t u guards ≡ ok
      → Trace s u

-- Somewhere in the trace a ready task was queued with no incomplete dependency.
abbrev QueuedFree : {s t : TaskStatus} → Trace s t → Type 0
QueuedFree (start s) = ⊥
QueuedFree (step {t = t} u guards before valid) =
    (t ≡ ready) × (u ≡ queued) × (guards.incomplete_dependency_count ≡ some 0) ⊎ QueuedFree before

-- The last step of the trace completed the task under a satisfied proof.
abbrev EndsProven : {s t : TaskStatus} → Trace s t → Type 0
EndsProven (start s) = ⊥
EndsProven (step {t = t} u guards before valid) = Proven guards.completion_proof

abbrev is_early : TaskStatus → Bool
is_early suggested = true
is_early draft = true
is_early ready = true
is_early cancelled = true
is_early _ = false

early_step :
    (t u : TaskStatus) (guards : TransitionGuards)
    → is_early t ≡ true
    → validate_transition t u guards ≡ ok
    → (is_early u ≡ true)
      ⊎ ((t ≡ ready) × (u ≡ queued) × (guards.incomplete_dependency_count ≡ some 0))
unfolding validate_transition
early_step t u guards early valid = ground arith

early_or_queued :
    {s t : TaskStatus} (trace : Trace s t)
    → is_early s ≡ true
    → (is_early t ≡ true) ⊎ QueuedFree trace
early_or_queued (start s) early = inl early
early_or_queued (step {t = t} u guards before valid) early = elim (early_or_queued before early) [
  | inr free ↦ inr (inr free)
  | inl still ↦ elim (early_step t u guards still valid) [ inl e ↦ inl e | inr now ↦ inr (inl now) ]
]

ends_proven :
    {s t : TaskStatus} (trace : Trace s t) → (s ≡ completed → ⊥) → t ≡ completed → EndsProven trace
ends_proven (start s) other done = absurd (other done)
ends_proven (step {t = t} u guards before valid) other done =
    ((validate_iff t u guards).0 valid).1.proof done

-- A task that starts as a draft is completed only by a step whose completion proof is satisfied,
-- and only after a ready task was queued with no incomplete dependency.
draft-completed : (trace : Trace draft completed) → EndsProven trace × QueuedFree trace
draft-completed trace = (
  ends_proven trace (λ e. cc) refl,
  elim (early_or_queued trace refl) [ inl early ↦ absurd (not_early early) | inr free ↦ free ],
)
  where
    not_early : is_early completed ≡ true → ⊥
    not_early e = cc
