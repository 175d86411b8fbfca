-- ===== src/Sdlc/Delivery.antt =====
-- What the delivery states and the chosen ceremony ensure (src/domain/sdlc.ts).
use project_baracks.Prelude.{ℕ, ◌≤◌, ◌≡◌, ◌⊎◌, ◌↔◌, arith, Bool, true, false}
use project_baracks.Sdlc.Decisions.{
  DeliveryState, planned, built, validated, ready, ReviewLevel, no_review, focused, independent,
  SdlcRisk, SdlcDecision, Number, natural, ok, SdlcInput, is_consequential, has_risk,
  is_substantive, decided, decide_sdlc, Promotion, assess_promotion, DeliveryEvidence,
  assess_delivery,
}

abbrev delivery_rank : DeliveryState → ℕ
delivery_rank planned = 0
delivery_rank built = 1
delivery_rank validated = 2
delivery_rank ready = 3

abbrev review_rank : ReviewLevel → ℕ
review_rank no_review = 0
review_rank focused = 1
review_rank independent = 2

-- Each flag that is up stays up.
abbrev Implies : Bool → Bool → Type 0
Implies a b = a ≡ true → b ≡ true

unfoldable pub MoreEvidence : DeliveryEvidence → DeliveryEvidence → Type 0
MoreEvidence e f =
    (Implies e.implementation_exists f.implementation_exists)
    × (Implies e.deterministic_checks_passed f.deterministic_checks_passed)
    × (Implies e.review_passed f.review_passed)
    × (Implies e.installation_proven f.installation_proven)
    × (Implies e.representative_behavior_proven f.representative_behavior_proven)

unfoldable pub MoreRisk : SdlcRisk → SdlcRisk → Type 0
MoreRisk r s =
    (Implies r.touches_authority s.touches_authority)
    × (Implies r.touches_persistence s.touches_persistence)
    × (Implies r.touches_security s.touches_security)
    × (Implies r.external_effect s.external_effect)
    × (Implies r.irreversible s.irreversible)
    × (Implies r.broad_blast_radius s.broad_blast_radius)

-- More evidence never lowers the delivery state, and a stricter review or an installation that
-- becomes required never raises it.
assess_delivery_mono :
    (e f : DeliveryEvidence) (lax strict : ReviewLevel) (lax_install strict_install : Bool)
    → MoreEvidence e f
    → review_rank lax ≤ review_rank strict
    → (lax_install ≡ true → strict_install ≡ true)
    → delivery_rank (assess_delivery e strict strict_install).delivery
      ≤ delivery_rank (assess_delivery f lax lax_install).delivery
unfolding assess_delivery MoreEvidence
assess_delivery_mono e f lax strict lax_install strict_install more less install = ground arith

-- Work is ready exactly if it exists, its checks passed, the required review and installation are
-- shown, and representative behaviour is proven.
assess_delivery-ready :
    (e : DeliveryEvidence) (level : ReviewLevel) (install : Bool)
    → ((assess_delivery e level install).delivery ≡ ready) ↔ (
        (e.implementation_exists ≡ true)
        × (e.deterministic_checks_passed ≡ true)
        × ((level ≡ no_review) ⊎ (e.review_passed ≡ true))
        × ((install ≡ false) ⊎ (e.installation_proven ≡ true))
        × (e.representative_behavior_proven ≡ true))
unfolding assess_delivery
assess_delivery-ready e level install = ground arith

-- A larger or riskier change never needs less review, where both inputs are accepted.
decide_sdlc_mono :
    (files files' paths paths' : ℕ) (r s : SdlcRisk) (d d' : SdlcDecision)
    → files ≤ files'
    → paths ≤ paths'
    → MoreRisk r s
    → decide_sdlc
        (record { estimated_files = natural files; acceptance_paths = natural paths; risk = r })
      ≡ ok d
    → decide_sdlc
        (record { estimated_files = natural files'; acceptance_paths = natural paths'; risk = s })
      ≡ ok d'
    → review_rank d.review ≤ review_rank d'.review
unfolding decide_sdlc decided is_substantive is_consequential has_risk MoreRisk
decide_sdlc_mono files files' paths paths' r s d d' more_files more_paths more e e' = ground arith

-- A change with a consequential risk is not promoted on the review that was decided for it unless
-- that review has passed, and no change is promoted while evidence is missing or a blocking
-- finding remains.
pub assess_promotion-decided :
    (input : SdlcInput) (d : SdlcDecision) (evidence_passed review_passed : Bool)
    (findings : Number) (p : Promotion)
    → decide_sdlc input ≡ ok d
    → assess_promotion evidence_passed d.review review_passed findings ≡ ok p
    → p.is_promotable ≡ true
    → (evidence_passed ≡ true)
      × ((review_passed ≡ true) ⊎ (is_consequential input.risk ≡ false))
      × (findings ≡ natural 0)
unfolding decide_sdlc decided assess_promotion
assess_promotion-decided input d evidence_passed review_passed findings p e promoted sure =
    ground arith
