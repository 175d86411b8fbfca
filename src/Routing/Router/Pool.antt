-- ===== src/Routing/Router/Pool.antt =====
-- The candidates that a review is picked from (src/routing/router.ts, route).
use project_baracks.Prelude.{
  ℕ, ◌≡◌, ◌≢◌, ◌⊎◌, inl, inr, Bool, true, false, not, some, List, [], ◌∷◌, Mem, Text, arith,
  Bool-cases, Option-cases, ◌∙◌, ap, subst, is_some, ◌==◌, Eq-Text, text_eq_iff,
}
use project_baracks.Routing.Account.{ok, err, Result-cases, CapacityKey, parse_capacity_key}
use project_baracks.Routing.Types.{is_review, RoutingRequest, RoutingOptions, Candidate}
use project_baracks.Routing.Router.{pick_from_ladder, keep_independent, route_ladder, route_pool}

-- The candidate's key parses, and names another provider than the implementer's.
unfoldable pub other_provider : Text → Candidate → Bool
other_provider implementer c = elim (parse_capacity_key c.provider) [
  | ok key ↦ not (key.provider_name == implementer)
  | err _ ↦ false
]

pub other_provider-key :
    (implementer : Text) (c : Candidate)
    → other_provider implementer c ≡ true
    → (key : CapacityKey) × (parse_capacity_key c.provider ≡ ok key)
      × (key.provider_name ≢ implementer)
unfolding other_provider
other_provider-key implementer c h = elim (Result-cases (parse_capacity_key c.provider)) [
  | inr (_, e) ↦ absurd (ground (arith, e))
  | inl (key, e) ↦ (key, e, ground (arith, e, text_eq_iff key.provider_name implementer))
]

module _ (request : RoutingRequest) (options : RoutingOptions) where
  -- The filter of a review keeps the candidates of the other providers.
  pub keep_independent-Mem :
      (implementer : Text) (cs pool : List Candidate) (c : Candidate)
      → keep_independent request options implementer cs ≡ ok pool
      → Mem c pool
      → Mem c cs × (other_provider implementer c ≡ true)
  unfolding other_provider
  keep_independent-Mem implementer [] pool c e h = ground arith
  keep_independent-Mem implementer (d ∷ cs) pool c e h =
      elim (Result-cases (parse_capacity_key d.provider)) [
        | inr (_, ek) ↦ ground (arith, ek)
        | inl (key, ek) ↦ elim (Result-cases (keep_independent request options implementer cs)) [
          | inr (_, er) ↦ ground (arith, ek, er)
          | inl (rest, er) ↦ ground (arith, ek, er, keep_independent-Mem implementer cs rest c er)
        ]
      ]

  pub keep_independent-Mem_in :
      (implementer : Text) (cs pool : List Candidate) (c : Candidate)
      → keep_independent request options implementer cs ≡ ok pool
      → Mem c cs
      → other_provider implementer c ≡ true
      → Mem c pool
  unfolding other_provider
  keep_independent-Mem_in implementer [] pool c e h other = ground arith
  keep_independent-Mem_in implementer (d ∷ cs) pool c e h other =
      elim (Result-cases (parse_capacity_key d.provider)) [
        | inr (_, ek) ↦ ground (arith, ek)
        | inl (key, ek) ↦ elim (Result-cases (keep_independent request options implementer cs)) [
          | inr (_, er) ↦ ground (arith, ek, er)
          | inl (rest, er) ↦
              ground (arith, ek, er, keep_independent-Mem_in implementer cs rest c er)
        ]
      ]

  -- The pool holds all candidates, or those that the filter keeps where one of them is free.
  unfoldable pub PoolOf : List Candidate → List Candidate → Type 0
  PoolOf candidates pool =
      (pool ≡ candidates)
      ⊎ ((is_review request.purpose ≡ true)
          × (implementer : Text) × (keep_independent request options implementer candidates
              ≡ ok pool)
          × (is_some ((pick_from_ladder request options (route_ladder request options) pool).free)
              ≡ true))

  pub route_pool-PoolOf :
      (candidates pool : List Candidate)
      → route_pool request options candidates ≡ ok pool
      → PoolOf candidates pool
  unfolding route_pool PoolOf
  route_pool-PoolOf candidates pool e = elim (Option-cases request.implemented_by_provider) [
    | inl gone ↦ ground (arith, gone)
    | inr ([], same) ↦ ground (arith, same)
    | inr (t ∷ ts, same) ↦ elim (Bool-cases (is_review request.purpose)) [
      | inr other ↦ ground (arith, same, other)
      | inl purpose ↦ elim (Result-cases (parse_capacity_key (t ∷ ts))) [
        | inr (_, ek) ↦ ground (arith, same, purpose, ek)
        | inl (key, ek) ↦
            elim (Result-cases (keep_independent request options key.provider_name candidates)) [
              | inr (_, er) ↦ ground (arith, same, purpose, ek, er)
              | inl (rest, er) ↦
                  elim (Bool-cases (
                    is_some (
                      (pick_from_ladder request options (route_ladder request options)
                        rest).free))) [
                          | inl found ↦
                              let here : rest ≡ pool =
                                ground (arith, same, purpose, ek, er, found) in
                              inr (
                                purpose,
                                key.provider_name,
                                er ∙ ap ok here,
                                subst
                                    (λ p.
                                      is_some (
                                        (pick_from_ladder request options
                                          (route_ladder request options) p).free)
                                      ≡ true)
                                    here found,
                              )
                          | inr none_free ↦ ground (arith, same, purpose, ek, er, none_free)
                        ]
            ]
      ]
    ]
  ]

  pub route_pool-Mem :
      (candidates pool : List Candidate) (c : Candidate)
      → PoolOf candidates pool
      → Mem c pool
      → Mem c candidates
  unfolding PoolOf
  route_pool-Mem candidates pool c (inl same) h = subst (λ p. Mem c p) same h
  route_pool-Mem candidates pool c (inr (purpose, implementer, kept, found)) h =
      (keep_independent-Mem implementer candidates pool c kept h).0

  pub route_pool-not_review :
      (candidates : List Candidate)
      → is_review request.purpose ≡ false
      → route_pool request options candidates ≡ ok candidates
  unfolding route_pool
  route_pool-not_review candidates purpose = elim (Option-cases request.implemented_by_provider) [
    | inl gone ↦ ground (arith, gone)
    | inr ([], same) ↦ ground (arith, same)
    | inr (t ∷ ts, same) ↦ ground (arith, same)
  ]

  pub route_pool-independent :
      (candidates pool : List Candidate) (t : ℕ) (ts : Text) (key : CapacityKey)
      → is_review request.purpose ≡ true
      → request.implemented_by_provider ≡ some (t ∷ ts)
      → parse_capacity_key (t ∷ ts) ≡ ok key
      → keep_independent request options key.provider_name candidates ≡ ok pool
      → is_some ((pick_from_ladder request options (route_ladder request options) pool).free) ≡ true
      → route_pool request options candidates ≡ ok pool
  unfolding route_pool
  route_pool-independent candidates pool t ts key purpose by parsed kept found =
      rw (by, purpose, parsed, kept) (ground (arith, purpose, found))
