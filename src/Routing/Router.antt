-- ===== src/Routing/Router.antt =====
-- The ladder router (src/routing/router.ts).
pub mod Ladder
pub mod Picks
pub mod Pool
pub mod Choices
use project_baracks.Prelude.{
  ℕ, zero, suc, ◌/◌, min, ◌==◌, Eq-ℕ, Eq-Text, Text, Bool, true, false, not, ◌&&◌, ◌||◌, Option,
  none, some, get_or, is_some, List, [], ◌∷◌, ◌++◌, map, keep, if◌then◌else◌,
}
use project_baracks.Routing.Account.{Result, ok, err, ◌>>=◌, parse_capacity_key}
use project_baracks.Routing.Types.{
  RoutingClass, fable, opus, sonnet, codex, unknown_class, TargetClass, fable_target, opus_target,
  sonnet_target, class_of_target, ModelAvailability, available, rate_limited, exhausted,
  availability_unknown, BillingMode, subscription_included, usage_credits, api_billing,
  billing_unknown, RunPurpose, implementation, verification, review, repair, analysis,
  TaskComplexity, routine, bounded, complex, architectural, RiskLevel, normal, high_risk,
  security_sensitive, Effort, low, medium, high, class_eq, billing_eq, class_eq_iff, billing_eq_iff,
  is_available, is_review, is_normal, ModelState, ProviderInfo, RoutingRequest, RoutingOptions,
  Candidate, Reason, subscription, paid_usage, approval_required, paid_unavailable, nothing_usable,
  checkpoint, Route, RoutingDecision, routed,
}

-- `isCapabilityAvailable('paid-provider-execution')`, a constant of the build.
abbrev paid_execution_available : Bool
paid_execution_available = true

abbrev ladders : RoutingClass → List RoutingClass
ladders fable = fable ∷ opus ∷ codex ∷ sonnet ∷ []
ladders opus = opus ∷ fable ∷ codex ∷ sonnet ∷ []
ladders sonnet = sonnet ∷ codex ∷ opus ∷ fable ∷ []
ladders codex = codex ∷ opus ∷ sonnet ∷ fable ∷ []
ladders unknown_class = []

abbrev review_ladder : List RoutingClass
review_ladder = codex ∷ opus ∷ fable ∷ sonnet ∷ []

abbrev pub escalate : TargetClass → TargetClass
escalate sonnet_target = opus_target
escalate opus_target = fable_target
escalate fable_target = fable_target

abbrev escalate_times : ℕ → TargetClass → TargetClass
escalate_times zero target = target
escalate_times (suc n) target = escalate_times n (escalate target)

-- The class before escalation.
abbrev base_target : RoutingRequest → TargetClass
base_target request = elim request.target_class [
  | some target ↦ target
  | none ↦ elim (get_or request.risk_level normal) [
    | security_sensitive ↦ opus_target
    | high_risk ↦ opus_target
    | normal ↦ elim request.complexity [
      | architectural ↦ fable_target
      | complex ↦ elim request.purpose [
        | analysis ↦ fable_target
        | implementation ↦ fable_target
        | _ ↦ opus_target
      ]
      | routine ↦ sonnet_target
      | bounded ↦ sonnet_target
    ]
  ]
]

unfoldable pub target_class : RoutingRequest → TargetClass
target_class request =
    escalate_times (min 2 (get_or request.repair_attempts 0 / 2)) (base_target request)

unfoldable pub effort_for : RoutingRequest → Effort
effort_for request =
    if is_review request.purpose || not (is_normal (get_or request.risk_level normal))
    then high
    else elim (target_class request) [
      | fable_target ↦ high
      | sonnet_target ↦ low
      | opus_target ↦ medium
    ]

unfoldable pub usable : Candidate → Bool
usable candidate =
    let m = candidate.model in
    m.visible
    && m.authenticated
    && not m.prohibited
    && (is_available m.availability || get_or m.retry_eligible false)
    && not (billing_eq m.billing_mode billing_unknown)

abbrev pub collect_candidates : List ProviderInfo → List Candidate
collect_candidates [] = []
collect_candidates (p ∷ providers) =
    map (λ model. record { provider = p.name; model = model }) p.models
    ++ collect_candidates providers

unfoldable pub is_free : Candidate → Bool
is_free candidate = billing_eq candidate.model.billing_mode subscription_included

pub record Pick : Type 0 where
  pub free : Option Candidate
  pub paid : List Candidate

module _ (request : RoutingRequest) (options : RoutingOptions) where
  -- Codex that is kept for reviews.
  unfoldable pub reserved : Candidate → Bool
  reserved candidate =
      get_or options.preserve_codex_for_review false
      && class_eq candidate.model.routing_class codex
      && not (is_review request.purpose)

  -- What neither `continue` skips.
  unfoldable pub considered : RoutingClass → Candidate → Bool
  considered cls candidate =
      class_eq candidate.model.routing_class cls && usable candidate && not (reserved candidate)

  -- The loop over the candidates of one class, then the classes that are left.
  unfoldable pub scan_class :
      RoutingClass → List Candidate → (List Candidate → Pick) → List Candidate → Pick
  scan_class cls [] later paid = later paid
  scan_class cls (c ∷ cs) later paid = elim (considered cls c) [
    | false ↦ scan_class cls cs later paid
    | true ↦ elim (is_free c) [
      | true ↦ record { free = some c; paid = paid }
      | false ↦ scan_class cls cs later (paid ++ c ∷ [])
    ]
  ]

  unfoldable pub scan_ladder : List RoutingClass → List Candidate → List Candidate → Pick
  scan_ladder [] candidates paid = record { free = none; paid = paid }
  scan_ladder (cls ∷ ladder) candidates paid =
      scan_class cls candidates (scan_ladder ladder candidates) paid

  unfoldable pub pick_from_ladder : List RoutingClass → List Candidate → Pick
  pick_from_ladder ladder candidates = scan_ladder ladder candidates []

  -- `candidates.filter(...)`, which stops where a key does not parse.
  abbrev pub keep_independent : Text → List Candidate → Result (List Candidate)
  keep_independent implementer [] = ok []
  keep_independent implementer (c ∷ cs) = do
    key ← parse_capacity_key c.provider
    rest ← keep_independent implementer cs
    ok (if key.provider_name == implementer then rest else c ∷ rest)

  abbrev pub route_target : RoutingClass
  route_target = if is_review request.purpose then codex else class_of_target (target_class request)

  abbrev pub route_ladder : List RoutingClass
  route_ladder = if is_review request.purpose then review_ladder else ladders route_target

  abbrev independent_pool : Text → List Candidate → Result (List Candidate)
  independent_pool implementer candidates = do
    key ← parse_capacity_key implementer
    independent ← keep_independent key.provider_name candidates
    ok (
        if is_some ((pick_from_ladder route_ladder independent).free)
        then independent
        else candidates)

  -- The candidates that are picked from: for a review those of other providers, when one of
  -- these is free.
  unfoldable pub route_pool : List Candidate → Result (List Candidate)
  route_pool candidates = elim request.implemented_by_provider [
    | none ↦ ok candidates
    | some [] ↦ ok candidates
    | some (c ∷ cs) ↦
        if is_review request.purpose then independent_pool (c ∷ cs) candidates else ok candidates
  ]

  abbrev pub route_to : Candidate → Option Text → Reason → Route
  route_to c approval reason = record {
    provider = c.provider;
    model_ref = c.model.model_ref;
    routing_class = c.model.routing_class;
    billing_mode = c.model.billing_mode;
    effort = effort_for request;
    reason = reason;
    paid_usage_decision_id = approval;
  }

  abbrev pub free_route : Candidate → Route
  free_route free = route_to free none (
      subscription request.purpose request.complexity (get_or request.risk_level normal)
        route_target (effort_for request))

  unfoldable pub decide : Pick → RoutingDecision
  decide pick = elim pick.free [
    | some free ↦ routed (free_route free)
    | none ↦ elim pick.paid [
      | [] ↦ checkpoint (nothing_usable route_target request.purpose) []
      | chosen ∷ rest ↦ elim request.approved_paid_usage [
        | some approval ↦
            if paid_execution_available
            then routed (route_to chosen (some approval) (paid_usage route_target approval))
            else checkpoint (paid_unavailable route_target request.purpose) (chosen ∷ rest)
        | none ↦
            checkpoint
              (if paid_execution_available
                then approval_required route_target request.purpose
                else paid_unavailable route_target request.purpose)
              (chosen ∷ rest)
      ]
    ]
  ]

  unfoldable pub route : List ProviderInfo → Result RoutingDecision
  route providers = do
    pool ← route_pool (collect_candidates providers)
    ok (decide (pick_from_ladder route_ladder pool))
