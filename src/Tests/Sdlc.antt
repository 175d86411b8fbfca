-- ===== src/Tests/Sdlc.antt =====
-- Ceremony, delivery and repair (src/domain/sdlc.ts, src/intelligence/repair-gate.ts) at concrete
-- inputs.
use project_baracks.Prelude.{◌<◌, ◌≡◌, ◌⊎◌, ◌↔◌, refl, true, false, none, some, []}
use project_baracks.Sdlc.Decisions.{
  SdlcRisk, SdlcInput, natural, ok, decide_sdlc, decided, is_substantive, is_consequential,
  has_risk, assess_promotion, DeliveryEvidence,
}
use project_baracks.Sdlc.Delivery.{MoreEvidence, MoreRisk, assess_promotion-decided}
use project_baracks.Sdlc.Repair.{
  RepairPolicyInput, accept, compose_repair_policy, is_accept, failure_limit,
  compose_repair_policy-accept,
}

abbrev checked : DeliveryEvidence
checked = record {
  implementation_exists = true;
  deterministic_checks_passed = true;
  review_passed = false;
  installation_proven = false;
  representative_behavior_proven = true;
}

abbrev complete : DeliveryEvidence
complete = record checked { review_passed = true }

more_evidence : MoreEvidence checked complete
unfolding MoreEvidence
more_evidence = (λ h. h, λ h. h, λ h. refl, λ h. h, λ h. h)

abbrev calm : SdlcRisk
calm = record {
  touches_authority = false;
  touches_persistence = false;
  touches_security = false;
  external_effect = false;
  irreversible = false;
  broad_blast_radius = false;
}

abbrev secured : SdlcRisk
secured = record calm { touches_security = true }

abbrev small_change : SdlcInput
small_change = record { estimated_files = natural 1; acceptance_paths = natural 1; risk = calm }

abbrev risky_change : SdlcInput
risky_change = record { estimated_files = natural 4; acceptance_paths = natural 1; risk = secured }

more_risk : MoreRisk calm secured
unfolding MoreRisk
more_risk = (λ h. h, λ h. h, λ h. refl, λ h. h, λ h. h, λ h. h)

small_decided : decide_sdlc small_change ≡ ok (decided false false)
unfolding decide_sdlc is_substantive is_consequential has_risk
small_decided = refl

risky_decided : decide_sdlc risky_change ≡ ok (decided true true)
unfolding decide_sdlc is_substantive is_consequential has_risk
risky_decided = refl

promoted :
    assess_promotion true (decided true true).review true (natural 0)
    ≡ ok (record { is_promotable = true; blockers = [] })
unfolding assess_promotion decided
promoted = refl

assess_promotion-decided_example :
    (true ≡ true) × ((true ≡ true) ⊎ (is_consequential secured ≡ false)) × (natural 0 ≡ natural 0)
assess_promotion-decided_example =
    assess_promotion-decided risky_change (decided true true) true true (natural 0)
      (record { is_promotable = true; blockers = [] }) risky_decided promoted refl

abbrev third_failure : RepairPolicyInput
third_failure = record {
  semantic_action = some accept;
  failure_count = 3;
  materially_unchanged_failures = 0;
  hard_failure_limit = none;
  independent_review_satisfied = true;
  worker_succeeded = true;
}

compose_repair_policy-accept_example :
    (is_accept (compose_repair_policy third_failure).action ≡ true) ↔ (
      (some accept ≡ some accept)
      × (true ≡ true)
      × (true ≡ true)
      × (0 < 2)
      × (3 < failure_limit third_failure))
compose_repair_policy-accept_example = compose_repair_policy-accept third_failure
