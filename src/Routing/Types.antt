-- ===== src/Routing/Types.antt =====
-- What a routing request and the known models are (src/routing/router.ts, src/providers/types.ts
-- and the enumerations of src/db/schema.ts).
use project_baracks.Prelude.{ℕ, ◌≡◌, ◌↔◌, Eq-ℕ, ◌==◌, Text, Bool, true, false, Option, List, arith}

pub data RoutingClass : Type 0 where
  fable opus sonnet codex unknown_class : RoutingClass

-- `Exclude<RoutingClass, 'unknown' | 'codex'>`
pub data TargetClass : Type 0 where
  fable_target opus_target sonnet_target : TargetClass

abbrev pub class_of_target : TargetClass → RoutingClass
class_of_target fable_target = fable
class_of_target opus_target = opus
class_of_target sonnet_target = sonnet

pub data ModelAvailability : Type 0 where
  available rate_limited exhausted availability_unknown : ModelAvailability

pub data BillingMode : Type 0 where
  subscription_included usage_credits api_billing billing_unknown : BillingMode

pub data RunPurpose : Type 0 where
  implementation verification review repair analysis : RunPurpose

pub data TaskComplexity : Type 0 where
  routine bounded complex architectural : TaskComplexity

pub data RiskLevel : Type 0 where
  normal high_risk security_sensitive : RiskLevel

pub data Effort : Type 0 where
  low medium high : Effort

-- The tests of an enumeration compare the constructors' positions.
abbrev class_rank : RoutingClass → ℕ
class_rank fable = 0
class_rank opus = 1
class_rank sonnet = 2
class_rank codex = 3
class_rank unknown_class = 4

abbrev billing_rank : BillingMode → ℕ
billing_rank subscription_included = 0
billing_rank usage_credits = 1
billing_rank api_billing = 2
billing_rank billing_unknown = 3

abbrev pub class_eq : RoutingClass → RoutingClass → Bool
class_eq a b = class_rank a == class_rank b

abbrev pub billing_eq : BillingMode → BillingMode → Bool
billing_eq a b = billing_rank a == billing_rank b

pub class_eq_iff : (a b : RoutingClass) → (class_eq a b ≡ true) ↔ (a ≡ b)
class_eq_iff a b = ground arith

pub billing_eq_iff : (a b : BillingMode) → (billing_eq a b ≡ true) ↔ (a ≡ b)
billing_eq_iff a b = ground arith

abbrev pub is_available : ModelAvailability → Bool
is_available available = true
is_available _ = false

abbrev pub is_review : RunPurpose → Bool
is_review review = true
is_review _ = false

abbrev pub is_normal : RiskLevel → Bool
is_normal normal = true
is_normal _ = false

pub record ModelState : Type 0 where
  pub model_ref : Text
  pub routing_class : RoutingClass
  pub visible : Bool
  pub authenticated : Bool
  pub availability : ModelAvailability
  pub retry_eligible : Option Bool
  pub billing_mode : BillingMode
  pub prohibited : Bool

pub record ProviderInfo : Type 0 where
  pub name : Text
  pub models : List ModelState

pub record RoutingRequest : Type 0 where
  pub purpose : RunPurpose
  pub complexity : TaskComplexity
  pub risk_level : Option RiskLevel
  pub implemented_by_provider : Option Text
  pub repair_attempts : Option ℕ
  pub approved_paid_usage : Option Text
  pub target_class : Option TargetClass

pub record RoutingOptions : Type 0 where
  pub preserve_codex_for_review : Option Bool

pub record Candidate : Type 0 where
  pub provider : Text
  pub model : ModelState

-- What the text of a decision's `reason` says, without its wording.
pub data Reason : Type 0 where
  subscription :
      (purpose : RunPurpose) (complexity : TaskComplexity) (risk : RiskLevel)
      (target : RoutingClass) (effort : Effort)
      → Reason
  paid_usage : (target : RoutingClass) (approval : Text) → Reason
  approval_required : (target : RoutingClass) (purpose : RunPurpose) → Reason
  paid_unavailable : (target : RoutingClass) (purpose : RunPurpose) → Reason
  nothing_usable : (target : RoutingClass) (purpose : RunPurpose) → Reason

pub record Route : Type 0 where
  pub provider : Text
  pub model_ref : Text
  pub routing_class : RoutingClass
  pub billing_mode : BillingMode
  pub effort : Effort
  pub reason : Reason
  pub paid_usage_decision_id : Option Text

pub data RoutingDecision : Type 0 where
  routed : Route → RoutingDecision
  checkpoint : Reason → (paid_options_available : List Candidate) → RoutingDecision
