-- ===== src/Sdlc/Decisions.antt =====
-- The decisions on ceremony, promotion and delivery (src/domain/sdlc.ts).
use project_baracks.Prelude.{
  ℕ, ltb, Text, trim, ◌==◌, Eq-Text, Bool, true, false, not, ◌&&◌, ◌||◌, Option, none, some, get_or,
  List, [], ◌∷◌, ◌++◌, keep, any, if◌then◌else◌,
}

pub data DeliveryState : Type 0 where
  planned built validated ready : DeliveryState

pub data WorkClass : Type 0 where
  small substantive : WorkClass

pub data ReviewLevel : Type 0 where
  no_review focused independent : ReviewLevel

pub data ReviewSeverity : Type 0 where
  blocker important nit : ReviewSeverity

pub data ProofState : Type 0 where
  not_required unproven proven : ProofState

-- An absent flag is false.
pub record SdlcRisk : Type 0 where
  pub touches_authority : Bool
  pub touches_persistence : Bool
  pub touches_security : Bool
  pub external_effect : Bool
  pub irreversible : Bool
  pub broad_blast_radius : Bool

pub data IntentField : Type 0 where
  intent_field spec_field plan_field evidence_field : IntentField

pub record SdlcIntent : Type 0 where
  pub intent : Text
  pub spec : List Text
  pub plan : Option (List Text)
  pub evidence : Option (List Text)

pub data SdlcReason : Type 0 where
  resumable_state bounded_low_risk : SdlcReason
  independent_review proportional_review deterministic_proof : SdlcReason

pub record SdlcDecision : Type 0 where
  pub work_class : WorkClass
  pub review : ReviewLevel
  pub requires_compact_state : Bool
  pub required_state : List IntentField
  pub reasons : List SdlcReason

-- A number of the language: a natural one, or a negative, fractional or undefined one.
pub data Number : Type 0 where
  natural : ℕ → Number
  not_natural : Number

pub data SdlcError : Type 0 where
  bad_estimated_files bad_acceptance_paths bad_blocker_findings : SdlcError

pub data Result (A : Type 0) : Type 0 where
  ok : A → Result A
  err : SdlcError → Result A

pub record SdlcInput : Type 0 where
  pub estimated_files : Number
  pub acceptance_paths : Number
  pub risk : SdlcRisk

unfoldable pub is_consequential : SdlcRisk → Bool
is_consequential r =
    r.touches_authority || r.touches_security || r.irreversible || r.broad_blast_radius

unfoldable pub has_risk : SdlcRisk → Bool
has_risk r = is_consequential r || r.touches_persistence || r.external_effect

unfoldable pub is_substantive : ℕ → ℕ → SdlcRisk → Bool
is_substantive files paths r = ltb 2 files || ltb 1 paths || has_risk r

unfoldable pub decided : (is_large consequential : Bool) → SdlcDecision
decided is_large consequential = record {
  work_class = if is_large then substantive else small;
  review = if consequential then independent else if is_large then focused else no_review;
  requires_compact_state = is_large;
  required_state =
      if is_large
      then intent_field ∷ spec_field ∷ plan_field ∷ evidence_field ∷ []
      else intent_field ∷ spec_field ∷ [];
  reasons =
      (if is_large then resumable_state else bounded_low_risk)
      ∷ (if consequential
          then independent_review
          else if is_large
          then proportional_review
          else deterministic_proof)
      ∷ [];
}

unfoldable pub decide_sdlc : SdlcInput → Result SdlcDecision
decide_sdlc input = elim input.estimated_files [
  | not_natural ↦ err bad_estimated_files
  | natural files ↦ elim input.acceptance_paths [
    | not_natural ↦ err bad_acceptance_paths
    | natural paths ↦
        if ltb paths 1
        then err bad_acceptance_paths
        else ok (decided (is_substantive files paths input.risk) (is_consequential input.risk))
  ]
]

pub data Disposition : Type 0 where
  block triage advisory : Disposition

unfoldable review_finding_disposition : Option ReviewSeverity → (speculative : Bool) → Disposition
review_finding_disposition severity true = advisory
review_finding_disposition none false = advisory
review_finding_disposition (some nit) false = advisory
review_finding_disposition (some blocker) false = block
review_finding_disposition (some important) false = triage

abbrev pub has_text : Text → Bool
has_text t = not (trim t == [])

unfoldable is_present : SdlcIntent → IntentField → Bool
is_present i intent_field = has_text i.intent
is_present i spec_field = any has_text i.spec
is_present i plan_field = any has_text (get_or i.plan [])
is_present i evidence_field = any has_text (get_or i.evidence [])

unfoldable missing_state : SdlcIntent → SdlcDecision → List IntentField
missing_state i decision = keep (λ field. not (is_present i field)) decision.required_state

pub data Blocker : Type 0 where
  evidence_missing review_not_passed findings_remain : Blocker

pub record Promotion : Type 0 where
  pub is_promotable : Bool
  pub blockers : List Blocker

abbrev needs_review : ReviewLevel → Bool
needs_review no_review = false
needs_review _ = true

abbrev when : Bool → Blocker → List Blocker
when true b = b ∷ []
when false b = []

abbrev is_empty : List Blocker → Bool
is_empty [] = true
is_empty (b ∷ bs) = false

unfoldable pub assess_promotion :
    (evidence_passed : Bool) → ReviewLevel → (review_passed : Bool) → Number → Result Promotion
assess_promotion evidence_passed level review_passed not_natural = err bad_blocker_findings
assess_promotion evidence_passed level review_passed (natural findings) =
    let blockers =
      when (not evidence_passed) evidence_missing
      ++ (when (needs_review level && not review_passed) review_not_passed
          ++ when (ltb 0 findings) findings_remain) in
    ok (record { is_promotable = is_empty blockers; blockers = blockers })

pub record DeliveryEvidence : Type 0 where
  pub implementation_exists : Bool
  pub deterministic_checks_passed : Bool
  pub review_passed : Bool
  pub installation_proven : Bool
  pub representative_behavior_proven : Bool

pub record DeliveryAssessment : Type 0 where
  pub delivery : DeliveryState
  pub review_proof : ProofState
  pub installation_proof : ProofState
  pub behavior_proof : ProofState

abbrev shown : (required satisfied : Bool) → ProofState
shown false satisfied = not_required
shown true satisfied = if satisfied then proven else unproven

abbrev is_satisfied : ProofState → Bool
is_satisfied unproven = false
is_satisfied _ = true

unfoldable pub assess_delivery :
    DeliveryEvidence → ReviewLevel → (installation_required : Bool) → DeliveryAssessment
assess_delivery e review installation_required =
    let review_proof = shown (needs_review review) e.review_passed in
    let installation_proof = shown installation_required e.installation_proven in
    let behavior_proof = shown true e.representative_behavior_proven in
    record {
      delivery =
          if not e.implementation_exists
          then planned
          else if not (e.deterministic_checks_passed && is_satisfied review_proof)
          then built
          else if is_satisfied installation_proof && is_satisfied behavior_proof
          then ready
          else validated;
      review_proof = review_proof;
      installation_proof = installation_proof;
      behavior_proof = behavior_proof;
    }
