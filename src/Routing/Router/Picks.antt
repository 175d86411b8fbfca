-- ===== src/Routing/Router/Picks.antt =====
-- What the pick from a ladder is (src/routing/router.ts, pickFromLadder).
use project_baracks.Prelude.{
  ◌≤◌, ◌≡◌, ◌≢◌, inl, inr, refl, true, false, none, some, List, [], ◌∷◌, keep, Mem, Mem-keep,
  Mem-in_keep, All, All-Mem, arith, Option-cases, ◌∙◌, sym, ap, subst, true_ne_false, Eq-Text,
}
use project_baracks.Routing.Types.{
  RoutingClass, subscription_included, class_eq_iff, billing_eq_iff, RoutingRequest, RoutingOptions,
  Candidate,
}
use project_baracks.Routing.Router.{usable, is_free, reserved, considered, pick_from_ladder}
use project_baracks.Routing.Router.Ladder.{
  first_free, place, first_free-some, first_free-none, preferred, Mem-preferred,
  pick_from_ladder-eq, first_free-append_some, first_free-append_none, place-here, place-later,
}

module _ (request : RoutingRequest) (options : RoutingOptions) where
  first_of_class :
      (cls : RoutingClass) (candidates before : List Candidate) (c : Candidate)
      → (first_free (keep (considered request options cls) candidates) before).free ≡ some c
      → c.model.routing_class ≡ cls
  unfolding considered
  first_of_class cls candidates before c e = ground (
    arith,
    first_free-some (keep (considered request options cls) candidates) before c e,
    Mem-keep (considered request options cls) c candidates,
    class_eq_iff c.model.routing_class cls,
  )

  -- The reference's free one is of the earliest class in which one is free, and exists if any is.
  first_free-earliest :
      (ladder : List RoutingClass) (candidates before : List Candidate) (d : Candidate)
      → Mem d candidates
      → Mem d.model.routing_class ladder
      → considered request options d.model.routing_class d ≡ true
      → is_free d ≡ true
      → (c : Candidate) × ((first_free (preferred request options ladder candidates) before).free
          ≡ some c)
        × (place c.model.routing_class ladder ≤ place d.model.routing_class ladder)
  unfolding preferred
  first_free-earliest [] candidates before d inside listed sure free = absurd listed
  first_free-earliest (cls ∷ ladder) candidates before d inside listed sure free =
      let here : List Candidate = keep (considered request options cls) candidates in
      elim (Option-cases ((first_free here before).free)) [
        | inl e ↦
            let missed : (d.model.routing_class ≡ cls) → is_free d ≡ false = λ same.
              All-Mem (λ x. is_free x ≡ false) d here (first_free-none here before e).1
                (Mem-in_keep (considered request options cls) d candidates
                  (subst (λ k. considered request options k d ≡ true) same sure) inside) in
            let other : d.model.routing_class ≢ cls =
              λ same. true_ne_false (sym free ∙ missed same) in
            let deeper : Mem d.model.routing_class ladder = ground (arith, other) in
            let (c, found, near) =
              first_free-earliest ladder candidates (first_free here before).paid d inside deeper
                sure free in
            (
              c,
              ap (λ pick. pick.free)
                    (first_free-append_none here (preferred request options ladder candidates)
                      before e)
                  ∙ found,
              place-later c.model.routing_class d.model.routing_class cls ladder other near,
            )
        | inr (c, e) ↦ (
          c,
          first_free-append_some here (preferred request options ladder candidates) before c e,
          rw
              (
                ap (λ k. place k (cls ∷ ladder)) (first_of_class cls candidates before c e),
                place-here cls ladder,
              )
              (omega arith),
        )
      ]

  module _ (ladder : List RoutingClass) (pool : List Candidate) where
    -- What a candidate must be to be picked.
    abbrev pub Eligible : Candidate → Type 0
    Eligible c =
        Mem c pool
        × Mem c.model.routing_class ladder
        × (usable c ≡ true)
        × (reserved request options c ≡ false)

    pub pick-free :
        (c : Candidate)
        → (pick_from_ladder request options ladder pool).free ≡ some c
        → Eligible c × (is_free c ≡ true)
    unfolding considered
    pick-free c e =
        let found : Mem c (preferred request options ladder pool) × (is_free c ≡ true) =
          first_free-some (preferred request options ladder pool) [] c
            (sym (ap (λ pick. pick.free) (pick_from_ladder-eq request options ladder pool)) ∙ e) in
        ground (
          arith,
          found,
          Mem-preferred request options ladder pool c found.0,
          class_eq_iff c.model.routing_class c.model.routing_class,
        )

    pub pick-paid :
        (c : Candidate) (cs : List Candidate)
        → (pick_from_ladder request options ladder pool).free ≡ none
        → (pick_from_ladder request options ladder pool).paid ≡ c ∷ cs
        → Eligible c × (is_free c ≡ false)
    unfolding considered
    pick-paid c cs e paid =
        let none_free : ((first_free (preferred request options ladder pool) []).paid
              ≡ preferred request options ladder pool)
            × All (λ x. is_free x ≡ false) (preferred request options ladder pool) =
          first_free-none (preferred request options ladder pool) []
            (sym (ap (λ pick. pick.free) (pick_from_ladder-eq request options ladder pool)) ∙ e) in
        let listed : preferred request options ladder pool ≡ c ∷ cs =
          sym none_free.0
          ∙ sym (ap (λ pick. pick.paid) (pick_from_ladder-eq request options ladder pool))
          ∙ paid in
        let inside : Mem c (preferred request options ladder pool) =
          subst (λ xs. Mem c xs) (sym listed) (inl refl) in
        let free : is_free c ≡ false =
          All-Mem (λ x. is_free x ≡ false) c (preferred request options ladder pool) none_free.1
            inside in
        ground (
          arith,
          free,
          Mem-preferred request options ladder pool c inside,
          class_eq_iff c.model.routing_class c.model.routing_class,
        )

    -- A free one that may be picked leads to one of a class that is as early.
    pub pick-earliest :
        (d : Candidate)
        → Eligible d
        → is_free d ≡ true
        → (c : Candidate) × ((pick_from_ladder request options ladder pool).free ≡ some c)
          × (place c.model.routing_class ladder ≤ place d.model.routing_class ladder)
    unfolding considered
    pick-earliest d (inside, listed, can, kept) free =
        let sure : considered request options d.model.routing_class d ≡ true =
          ground (arith, class_eq_iff d.model.routing_class d.model.routing_class) in
        let (c, found, near) = first_free-earliest ladder pool [] d inside listed sure free in
        (c, ap (λ pick. pick.free) (pick_from_ladder-eq request options ladder pool) ∙ found, near)

pub is_free-billing :
    (c : Candidate) → is_free c ≡ true → c.model.billing_mode ≡ subscription_included
unfolding is_free
is_free-billing c h = (billing_eq_iff c.model.billing_mode subscription_included).0 h
