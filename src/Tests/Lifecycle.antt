-- ===== src/Tests/Lifecycle.antt =====
-- The task lifecycle (src/domain/lifecycle.ts) at concrete inputs.
use project_baracks.Prelude.{◌≡◌, ◌↔◌, refl, true, false, none, some, []}
use project_baracks.Lifecycle.Machine.{
  draft, ready, queued, running, verifying, reviewing, ready_to_merge, completed, failed,
  TransitionGuards, ok, validate_transition, is_terminal,
}
use project_baracks.Lifecycle.Diagram.{◌⟶◌, Guarded, validate_iff}
use project_baracks.Lifecycle.Traces.{Trace, start, step}

abbrev free : TransitionGuards
free = record { incomplete_dependency_count = some 0; completion_proof = none }

abbrev proven : TransitionGuards
proven = record {
  incomplete_dependency_count = some 0;
  completion_proof = some (record { ok = true; failures = [] });
}

validate_iff_example :
    (validate_transition ready queued free ≡ ok) ↔ ((ready ⟶ queued) × Guarded ready queued free)
validate_iff_example = validate_iff ready queued free

failed_goes_on : is_terminal failed ≡ false
unfolding is_terminal
failed_goes_on = refl

whole_life : Trace draft completed
unfolding validate_transition
whole_life =
    step completed proven
      (step ready_to_merge free
        (step reviewing free
          (step verifying free
            (step running free (step queued free (step ready free (start draft) refl) refl) refl)
            refl)
          refl)
        refl)
      refl
