-- ===== src/Tests/Routing.antt =====
-- The router and the capacity keys (src/routing/router.ts, src/providers/account.ts) at concrete
-- inputs.
use project_baracks.Prelude.{◌≤◌, ◌≡◌, refl, inl, inr, text, true, false, none, some, List, [], ◌∷◌}
use project_baracks.Routing.Account.{
  ok, CapacityKey, capacity_key, parse_capacity_key, assert_account_label, label_matches,
}
use project_baracks.Routing.Account.Keys.{parse-capacity_key}
use project_baracks.Routing.Types.{
  opus, codex, available, subscription_included, usage_credits, implementation, review, complex,
  ModelState, ProviderInfo, RoutingRequest, RoutingOptions, Candidate, Route, routed,
}
use project_baracks.Routing.Router.{
  usable, is_free, reserved, considered, scan_class, scan_ladder, target_class, pick_from_ladder,
  collect_candidates, route_ladder, route_pool, route, free_route, decide,
}
use project_baracks.Routing.Router.Ladder.{place}
use project_baracks.Routing.Router.Picks.{Eligible}
use project_baracks.Routing.Router.Choices.{Backing, route-Backing, route-free, route-earliest}

abbrev claude_opus : ModelState
claude_opus = record {
  model_ref = text "opus";
  routing_class = opus;
  visible = true;
  authenticated = true;
  availability = available;
  retry_eligible = none;
  billing_mode = subscription_included;
  prohibited = false;
}

abbrev codex_model : ModelState
codex_model = record claude_opus { model_ref = text "codex"; routing_class = codex }

abbrev metered : ModelState
metered = record claude_opus { model_ref = text "metered"; billing_mode = usage_credits }

abbrev providers : List ProviderInfo
providers =
    record { name = text "codex"; models = codex_model ∷ [] }
    ∷ record { name = text "claude-code"; models = metered ∷ claude_opus ∷ [] }
    ∷ []

abbrev request : RoutingRequest
request = record {
  purpose = implementation;
  complexity = complex;
  risk_level = none;
  implemented_by_provider = none;
  repair_attempts = none;
  approved_paid_usage = none;
  target_class = none;
}

abbrev review_request : RoutingRequest
review_request = record request { purpose = review; implemented_by_provider = some (text "codex") }

abbrev options : RoutingOptions
options = record { preserve_codex_for_review = none }

abbrev chosen : Candidate
chosen = record { provider = text "claude-code"; model = claude_opus }

abbrev codex_candidate : Candidate
codex_candidate = record { provider = text "codex"; model = codex_model }

abbrev decision : Route
decision = free_route request options chosen

route-request : route request options providers ≡ ok (routed decision)
unfolding route route_pool decide pick_from_ladder scan_ladder scan_class considered usable is_free
    reserved target_class
route-request = refl

route-Backing_example :
    (c : Candidate) × Backing request options (collect_candidates providers) decision c
route-Backing_example = route-Backing request options providers decision route-request

codex-Eligible :
    Eligible request options
      (route_ladder request options)
      (collect_candidates providers)
      codex_candidate
unfolding usable reserved target_class
codex-Eligible = (inl refl, inr (inr (inl refl)), refl, refl)

codex_free : is_free codex_candidate ≡ true
unfolding is_free
codex_free = refl

route-free_example :
    (d : Route) × (routed decision ≡ routed d)
    × (d.billing_mode ≡ subscription_included)
    × (d.paid_usage_decision_id ≡ none)
route-free_example =
    route-free request options providers (routed decision) codex_candidate route-request
      codex-Eligible codex_free

route-earliest_example :
    (d : Route) × (x : Candidate) × (route request options providers ≡ ok (routed d))
    × (d.paid_usage_decision_id ≡ none)
    × (d.provider ≡ x.provider)
    × (d.model_ref ≡ x.model.model_ref)
    × (d.routing_class ≡ x.model.routing_class)
    × (d.billing_mode ≡ subscription_included)
    × Eligible request options (route_ladder request options) (collect_candidates providers) x
    × (is_free x ≡ true)
    × ((e : Candidate)
        → Eligible request options (route_ladder request options) (collect_candidates providers) e
        → is_free e ≡ true
        → place d.routing_class (route_ladder request options)
          ≤ place e.model.routing_class (route_ladder request options))
route-earliest_example =
    route-earliest request options providers codex_candidate refl codex-Eligible codex_free

codex_key : CapacityKey
codex_key = record { provider_name = text "codex"; account_label = text "default" }

key_made : capacity_key (text "codex") (text "work-2") ≡ ok (text "codex#work-2")
unfolding capacity_key assert_account_label label_matches
key_made = refl

parse-capacity_key_example :
    parse_capacity_key (text "codex#work-2")
    ≡ ok (record { provider_name = text "codex"; account_label = text "work-2" })
parse-capacity_key_example =
    parse-capacity_key (text "codex") (text "work-2") (text "codex#work-2") key_made
