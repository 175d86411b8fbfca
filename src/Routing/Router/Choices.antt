-- ===== src/Routing/Router/Choices.antt =====
-- What the router promises (src/routing/router.ts, route).
use mathlib.Core.Option.{some-injective}
use project_baracks.Prelude.{
  ◌≤◌, ◌≡◌, ◌⊎◌, inl, inr, refl, true, false, none, some, List, arith, Option-cases, List-cases,
  ◌∙◌, sym, subst, is_some, Eq-Text,
}
use project_baracks.Routing.Account.{ok, Result-cases, ok-injective}
use project_baracks.Routing.Types.{
  RoutingClass, subscription_included, is_review, ProviderInfo, RoutingRequest, RoutingOptions,
  Candidate, Route, RoutingDecision, routed,
}
use project_baracks.Routing.Router.{
  collect_candidates, is_free, Pick, pick_from_ladder, route_ladder, route_pool, free_route, decide,
  route,
}
use project_baracks.Routing.Router.Ladder.{place}
use project_baracks.Routing.Router.Picks.{
  Eligible, pick-free, is_free-billing, pick-paid, pick-earliest,
}
use project_baracks.Routing.Router.Pool.{
  PoolOf, route_pool-PoolOf, route_pool-Mem, route_pool-not_review,
}

module _ (request : RoutingRequest) (options : RoutingOptions) where
  -- What a decision to route rests on.
  unfoldable pub Backing : List Candidate → Route → Candidate → Type 0
  Backing candidates d c =
      Eligible request options (route_ladder request options) candidates c
      × (d.provider ≡ c.provider)
      × (d.model_ref ≡ c.model.model_ref)
      × (d.routing_class ≡ c.model.routing_class)
      × (d.billing_mode ≡ c.model.billing_mode)
      × (((is_free c ≡ true) × (d.paid_usage_decision_id ≡ none))
          ⊎ ((is_free c ≡ false)
              × (is_some request.approved_paid_usage ≡ true)
              × (d.paid_usage_decision_id ≡ request.approved_paid_usage)))

  decide-Backing :
      (pool : List Candidate) (d : Route)
      → decide request options
          (pick_from_ladder request options (route_ladder request options) pool)
        ≡ routed d
      → (c : Candidate) × Backing pool d c
  unfolding decide Backing
  decide-Backing pool d e =
      let ladder : List RoutingClass = route_ladder request options in
      let pick : Pick = pick_from_ladder request options ladder pool in
      elim (Option-cases pick.free) [
        | inr (c, ec) ↦ (c, ground (arith, ec, pick-free request options ladder pool c ec))
        | inl ec ↦ elim (List-cases pick.paid) [
          | inl ep ↦ absurd (ground (arith, ec, ep))
          | inr (c, cs, ep) ↦
              (c, ground (arith, ec, ep, pick-paid request options ladder pool c cs ec ep))
        ]
      ]

  -- A decision to route names a model of a known provider that is usable, is not kept for reviews
  -- and has a class of the ladder; it is included in a subscription and nothing is paid, or
  -- the request carries the approval that the decision names.
  pub route-Backing :
      (providers : List ProviderInfo) (d : Route)
      → route request options providers ≡ ok (routed d)
      → (c : Candidate) × Backing (collect_candidates providers) d c
  unfolding route Backing
  route-Backing providers d e =
      elim (Result-cases (route_pool request options (collect_candidates providers))) [
        | inr (_, ep) ↦ absurd (ground (arith, ep))
        | inl (pool, ep) ↦
            let (c, back) = decide-Backing pool d (ground (arith, ep)) in
            (
              c,
              ground (
                arith,
                back,
                route_pool-Mem request options (collect_candidates providers) pool c
                    (route_pool-PoolOf request options (collect_candidates providers) pool ep),
              ),
            )
      ]

  route-pick :
      (providers : List ProviderInfo) (pool : List Candidate) (x : Candidate)
      → route_pool request options (collect_candidates providers) ≡ ok pool
      → (pick_from_ladder request options (route_ladder request options) pool).free ≡ some x
      → route request options providers ≡ ok (routed (free_route request options x))
  unfolding route decide
  route-pick providers pool x ep ex = rw (ep, ex) refl

  -- A free candidate that may be picked leads to a free pick from the pool.
  pool-free :
      (candidates pool : List Candidate) (c : Candidate)
      → PoolOf request options candidates pool
      → Eligible request options (route_ladder request options) candidates c
      → is_free c ≡ true
      → (x : Candidate) × ((pick_from_ladder request options
            (route_ladder request options)
            pool).free
          ≡ some x)
        × (is_free x ≡ true)
  unfolding PoolOf
  pool-free candidates pool c (inl same) can free =
      let (x, ex, _) =
        pick-earliest request options (route_ladder request options) pool c
          (subst (λ p. Eligible request options (route_ladder request options) p c) (sym same) can)
          free in
      (x, ex, (pick-free request options (route_ladder request options) pool x ex).1)
  pool-free candidates pool c (inr (_, _, _, found)) can free =
      elim (Option-cases
        ((pick_from_ladder request options (route_ladder request options) pool).free)) [
          | inl ex ↦ absurd (ground (arith, ex))
          | inr (x, ex) ↦
              (x, ex, (pick-free request options (route_ladder request options) pool x ex).1)
        ]

  -- While a model included in a subscription may be chosen (it is usable, has a class of the ladder
  -- and is not kept for reviews), the run is routed to a model included in a subscription, so
  -- that it is neither paid for nor put off; the statement is on a run of the router that no
  -- malformed key stops.
  pub route-free :
      (providers : List ProviderInfo) (decision : RoutingDecision) (c : Candidate)
      → route request options providers ≡ ok decision
      → Eligible request options (route_ladder request options) (collect_candidates providers) c
      → is_free c ≡ true
      → (d : Route) × (decision ≡ routed d)
        × (d.billing_mode ≡ subscription_included)
        × (d.paid_usage_decision_id ≡ none)
  unfolding route decide
  route-free providers decision c e can free =
      elim (Result-cases (route_pool request options (collect_candidates providers))) [
        | inr (_, ep) ↦ absurd (ground (arith, ep))
        | inl (pool, ep) ↦
            let (x, ex, included) =
              pool-free (collect_candidates providers) pool c
                (route_pool-PoolOf request options (collect_candidates providers) pool ep) can
                free in
            (
              free_route request options x,
              ok-injective (sym e ∙ route-pick providers pool x ep ex),
              is_free-billing x included,
              refl,
            )
      ]

  -- When the request is not a review and some model included in a subscription may be chosen (it is
  -- usable, has a class of the ladder and is not kept for reviews), the run is routed to a
  -- candidate that may be chosen and is included in a subscription, nothing is paid, and the
  -- ladder names no class of such a candidate before the chosen one.
  pub route-earliest :
      (providers : List ProviderInfo) (c : Candidate)
      → is_review request.purpose ≡ false
      → Eligible request options (route_ladder request options) (collect_candidates providers) c
      → is_free c ≡ true
      → (d : Route) × (x : Candidate) × (route request options providers ≡ ok (routed d))
        × (d.paid_usage_decision_id ≡ none)
        × (d.provider ≡ x.provider)
        × (d.model_ref ≡ x.model.model_ref)
        × (d.routing_class ≡ x.model.routing_class)
        × (d.billing_mode ≡ subscription_included)
        × Eligible request options (route_ladder request options) (collect_candidates providers) x
        × (is_free x ≡ true)
        × ((e : Candidate)
            → Eligible request options
                (route_ladder request options)
                (collect_candidates providers)
                e
            → is_free e ≡ true
            → place d.routing_class (route_ladder request options)
              ≤ place e.model.routing_class (route_ladder request options))
  unfolding route decide
  route-earliest providers c purpose can free =
      let ladder : List RoutingClass = route_ladder request options in
      let candidates : List Candidate = collect_candidates providers in
      let ep : route_pool request options candidates ≡ ok candidates =
        route_pool-not_review request options candidates purpose in
      let (x, ex, _) = pick-earliest request options ladder candidates c can free in
      let (may, included) = pick-free request options ladder candidates x ex in
      (
        free_route request options x,
        x,
        route-pick providers candidates x ep ex,
        refl,
        refl,
        refl,
        refl,
        is_free-billing x included,
        may,
        included,
        λ e other its_free.
            let (y, ey, near) = pick-earliest request options ladder candidates e other its_free in
            subst
              (λ (z : Candidate).
                place z.model.routing_class ladder ≤ place e.model.routing_class ladder)
              (some-injective y x (sym ey ∙ ex)) near,
      )
