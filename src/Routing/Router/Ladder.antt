-- ===== src/Routing/Router/Ladder.antt =====
-- The pick from a preference ladder (src/routing/router.ts, pickFromLadder) against a reference:
-- the first free one of the list of all usable candidates in the ladder's order.
use mathlib.Core.List.{append_assoc, append-nil}
use project_baracks.Prelude.{
  ℕ, suc, ◌≤◌, ◌≡◌, ◌≢◌, ◌⊎◌, inl, inr, refl, true, false, none, some, List, [], ◌∷◌, ◌++◌, keep,
  Mem, Mem-keep, Mem-in_keep, Mem-append, Mem-append_left, Mem-append_right, All, if◌then◌else◌,
  arith, Bool-cases, subst, ◌∙◌, sym, Option-cases,
}
use project_baracks.Routing.Types.{
  RoutingClass, Candidate, RoutingRequest, RoutingOptions, class_eq, class_eq_iff,
}
use project_baracks.Routing.Router.{
  is_free, Pick, considered, scan_class, scan_ladder, pick_from_ladder,
}

-- The first free one, and the others before it.
unfoldable pub first_free : List Candidate → List Candidate → Pick
first_free [] before = record { free = none; paid = before }
first_free (c ∷ cs) before = elim (is_free c) [
  | true ↦ record { free = some c; paid = before }
  | false ↦ first_free cs (before ++ c ∷ [])
]

-- The list position of a class's first mention.
unfoldable pub place : RoutingClass → List RoutingClass → ℕ
place cls [] = 0
place cls (c ∷ ladder) = let later = place cls ladder in if class_eq cls c then 0 else suc later

abbrev or_later : (List Candidate → Pick) → Pick → Pick
or_later later pick = elim pick.free [ some c ↦ pick | none ↦ later pick.paid ]

first_free-append :
    (xs ys before : List Candidate)
    → first_free (xs ++ ys) before ≡ or_later (first_free ys) (first_free xs before)
unfolding first_free
first_free-append [] ys before = refl
first_free-append (x ∷ xs) ys before = elim (Bool-cases (is_free x)) [
  | inl e ↦ rw (e, first_free) refl
  | inr e ↦ rw (e, first_free) (first_free-append xs ys (before ++ x ∷ []))
]

pub first_free-append_some :
    (xs ys before : List Candidate) (c : Candidate)
    → (first_free xs before).free ≡ some c
    → (first_free (xs ++ ys) before).free ≡ some c
first_free-append_some xs ys before c e = rw (first_free-append xs ys before, e) refl

pub first_free-append_none :
    (xs ys before : List Candidate)
    → (first_free xs before).free ≡ none
    → first_free (xs ++ ys) before ≡ first_free ys (first_free xs before).paid
first_free-append_none xs ys before e = rw (first_free-append xs ys before, e) refl

or_later-same :
    {f g : List Candidate → Pick}
    → ((paid : List Candidate) → f paid ≡ g paid)
    → (pick : Pick) → or_later f pick ≡ or_later g pick
or_later-same {f} {g} same pick = elim (Option-cases pick.free) [
  | inl e ↦ rw e (same pick.paid)
  | inr (c, e) ↦ rw e refl
]

module _ (request : RoutingRequest) (options : RoutingOptions) where
  -- All candidates that may be picked, in the order of the ladder.
  unfoldable pub preferred : List RoutingClass → List Candidate → List Candidate
  preferred [] candidates = []
  preferred (cls ∷ ladder) candidates =
      keep (considered request options cls) candidates ++ preferred ladder candidates

  scan_class-eq :
      (cls : RoutingClass) (cs : List Candidate) (later : List Candidate → Pick)
      (paid : List Candidate)
      → scan_class request options cls cs later paid
        ≡ or_later later (first_free (keep (considered request options cls) cs) paid)
  unfolding first_free scan_class
  scan_class-eq cls [] later paid = refl
  scan_class-eq cls (c ∷ cs) later paid = elim (Bool-cases (considered request options cls c)) [
    | inl e ↦ elim (Bool-cases (is_free c)) [
      | inl f ↦ rw (e, f, scan_class, first_free) refl
      | inr f ↦ rw (e, f, scan_class, first_free) (scan_class-eq cls cs later (paid ++ c ∷ []))
    ]
    | inr e ↦ rw (e, scan_class) (scan_class-eq cls cs later paid)
  ]

  -- The two loops with their early return are the search of one list.
  pub scan_ladder-eq :
      (ladder : List RoutingClass) (candidates paid : List Candidate)
      → scan_ladder request options ladder candidates paid
        ≡ first_free (preferred ladder candidates) paid
  unfolding scan_ladder preferred first_free
  scan_ladder-eq [] candidates paid = refl
  scan_ladder-eq (cls ∷ ladder) candidates paid =
      scan_class-eq cls candidates (scan_ladder request options ladder candidates) paid
      ∙ or_later-same (scan_ladder-eq ladder candidates)
          (first_free (keep (considered request options cls) candidates) paid)
      ∙ sym (
          first_free-append (keep (considered request options cls) candidates)
            (preferred ladder candidates) paid)

  -- The loops over classes and candidates, with their early return, find the first free one of a
  -- single list: the candidates that may be picked, class by class in the ladder's order; what
  -- they report as paid is what stands before it.
  pub pick_from_ladder-eq :
      (ladder : List RoutingClass) (candidates : List Candidate)
      → pick_from_ladder request options ladder candidates
        ≡ first_free (preferred ladder candidates) []
  unfolding pick_from_ladder
  pick_from_ladder-eq ladder candidates = scan_ladder-eq ladder candidates []

  -- What is preferred is a candidate that may be picked, of a class of the ladder.
  pub Mem-preferred :
      (ladder : List RoutingClass) (candidates : List Candidate) (c : Candidate)
      → Mem c (preferred ladder candidates)
      → Mem c candidates
        × Mem c.model.routing_class ladder
        × (considered request options c.model.routing_class c ≡ true)
  unfolding preferred considered
  Mem-preferred [] candidates c h = absurd h
  Mem-preferred (cls ∷ ladder) candidates c h =
      let split : Mem c (keep (considered request options cls) candidates)
          ⊎ Mem c (preferred ladder candidates) =
        Mem-append c (keep (considered request options cls) candidates)
          (preferred ladder candidates) h in
      elim split [
        | inl here ↦ ground (
          arith,
          Mem-keep (considered request options cls) c candidates here,
          class_eq_iff c.model.routing_class cls,
          class_eq_iff cls cls,
        )
        | inr later ↦ ground (arith, Mem-preferred ladder candidates c later)
      ]

  -- Every candidate that may be picked, of a class of the ladder, is preferred.
  pub Mem-in_preferred :
      (ladder : List RoutingClass) (candidates : List Candidate) (c : Candidate)
      → Mem c candidates
      → Mem c.model.routing_class ladder
      → considered request options c.model.routing_class c ≡ true
      → Mem c (preferred ladder candidates)
  unfolding preferred
  Mem-in_preferred [] candidates c inside listed sure = absurd listed
  Mem-in_preferred (cls ∷ ladder) candidates c inside (inl e) sure =
      Mem-append_left c (keep (considered request options cls) candidates)
        (preferred ladder candidates)
        (Mem-in_keep (considered request options cls) c candidates
          (subst (λ k. considered request options k c ≡ true) e sure) inside)
  Mem-in_preferred (cls ∷ ladder) candidates c inside (inr later) sure =
      Mem-append_right c (keep (considered request options cls) candidates)
        (preferred ladder candidates) (Mem-in_preferred ladder candidates c inside later sure)

-- The pick's free one is a free one of the list, and without it all others are not free.
pub first_free-some :
    (xs before : List Candidate) (c : Candidate)
    → (first_free xs before).free ≡ some c
    → Mem c xs × (is_free c ≡ true)
unfolding first_free
first_free-some [] before c h = ground arith
first_free-some (x ∷ xs) before c h = elim (Bool-cases (is_free x)) [
  | inl e ↦ ground (arith, e)
  | inr e ↦ ground (arith, e, first_free-some xs (before ++ x ∷ []) c)
]

pub first_free-none :
    (xs before : List Candidate)
    → (first_free xs before).free ≡ none
    → ((first_free xs before).paid ≡ before ++ xs) × All (λ c. is_free c ≡ false) xs
unfolding first_free
first_free-none [] before h = (sym (append-nil before), tt)
first_free-none (x ∷ xs) before h = elim (Bool-cases (is_free x)) [
  | inl e ↦ ground (arith, e)
  | inr e ↦
      ground (arith, e, first_free-none xs (before ++ x ∷ []), append_assoc before (x ∷ []) xs)
]

pub place-here : (cls : RoutingClass) (ladder : List RoutingClass) → place cls (cls ∷ ladder) ≡ 0
unfolding place
place-here cls ladder = ground (arith, class_eq_iff cls cls)

pub place-later :
    (a b cls : RoutingClass) (ladder : List RoutingClass)
    → b ≢ cls
    → place a ladder ≤ place b ladder
    → place a (cls ∷ ladder) ≤ place b (cls ∷ ladder)
unfolding place
place-later a b cls ladder other h = ground (arith, class_eq_iff b cls)
