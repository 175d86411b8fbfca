-- ===== src/Sdlc/Repair.antt =====
-- The hard policy around repairs (src/intelligence/repair-gate.ts, composeRepairPolicy) and the
-- boundary of autonomous actions (src/supervisor/autonomy.ts, classifyAutonomyBoundary).
use project_baracks.Prelude.{
  ℕ, ◌≡◌, ◌≤◌, ◌<◌, ◌↔◌, ◌⊎◌, arith, ltb, leb, Bool, true, false, not, ◌&&◌, ◌||◌, Option, some,
  get_or, is_some, if◌then◌else◌,
}

pub data RepairAction : Type 0 where
  accept targeted_fix change_strategy escalate stop : RepairAction

pub record RepairPolicyInput : Type 0 where
  pub semantic_action : Option RepairAction
  pub failure_count : ℕ
  pub materially_unchanged_failures : ℕ
  pub hard_failure_limit : Option ℕ
  pub independent_review_satisfied : Bool
  pub worker_succeeded : Bool

pub data RepairReason : Type 0 where
  hard_limit_reached : ℕ → RepairReason
  unchanged_failures bounded_judgment deterministic_fallback : RepairReason

pub record RepairPolicyDecision : Type 0 where
  pub action : RepairAction
  pub reason : RepairReason

abbrev pub is_accept : RepairAction → Bool
is_accept accept = true
is_accept _ = false

abbrev is_halt : RepairAction → Bool
is_halt stop = true
is_halt escalate = true
is_halt _ = false

abbrev is_repeat : RepairAction → Bool
is_repeat accept = true
is_repeat targeted_fix = true
is_repeat _ = false

abbrev is_change : RepairAction → Bool
is_change change_strategy = true
is_change _ = false

abbrev is_stuck : RepairPolicyInput → Bool
is_stuck input = leb 2 input.materially_unchanged_failures

abbrev pub failure_limit : RepairPolicyInput → ℕ
failure_limit input = get_or input.hard_failure_limit 6

-- The three assignments, one after the other.
unfoldable pub without_proof : RepairPolicyInput → RepairAction → RepairAction
without_proof input action =
    if is_accept action && (not input.worker_succeeded || not input.independent_review_satisfied)
    then targeted_fix
    else action

unfoldable pub early_halt : RepairPolicyInput → RepairAction → RepairAction
early_halt input action =
    if is_halt action && ltb input.failure_count 3
    then if is_stuck input then change_strategy else targeted_fix
    else action

unfoldable pub not_again : RepairPolicyInput → RepairAction → RepairAction
not_again input action = if is_stuck input && is_repeat action then change_strategy else action

unfoldable pub bounded_action : RepairPolicyInput → RepairAction
bounded_action input =
    not_again input
      (early_halt input (without_proof input (get_or input.semantic_action targeted_fix)))

unfoldable pub compose_repair_policy : RepairPolicyInput → RepairPolicyDecision
compose_repair_policy input =
    if leb (failure_limit input) input.failure_count
    then record { action = stop; reason = hard_limit_reached (failure_limit input) }
    else record {
      action = bounded_action input;
      reason =
          if is_stuck input && is_change (bounded_action input)
          then unchanged_failures
          else if is_some input.semantic_action
          then bounded_judgment
          else deterministic_fallback;
    }

-- A judgement cannot turn a failure into success: a repair is accepted exactly if it was judged
-- so, the worker succeeded, the independent review is satisfied, fewer than two failures in a row
-- were materially the same, and the hard limit is not reached.
pub compose_repair_policy-accept :
    (input : RepairPolicyInput)
    → (is_accept (compose_repair_policy input).action ≡ true) ↔ (
        (input.semantic_action ≡ some accept)
        × (input.worker_succeeded ≡ true)
        × (input.independent_review_satisfied ≡ true)
        × (input.materially_unchanged_failures < 2)
        × (input.failure_count < failure_limit input))
unfolding compose_repair_policy bounded_action without_proof early_halt not_again
compose_repair_policy-accept input = ground arith

-- Work stops or escalates exactly if the hard limit is reached, or a judgement asks for it after
-- three failures at least.
compose_repair_policy-halt :
    (input : RepairPolicyInput)
    → (is_halt (compose_repair_policy input).action ≡ true) ↔ (
        (failure_limit input ≤ input.failure_count)
        ⊎ ((3 ≤ input.failure_count)
            × (is_halt (get_or input.semantic_action targeted_fix) ≡ true)))
unfolding compose_repair_policy bounded_action without_proof early_halt not_again
compose_repair_policy-halt input = ground arith
