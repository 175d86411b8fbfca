-- ===== src/Resource/Fifo.antt =====
-- The order in which the store's loop grants queued requests (src/supervisor/resources.ts).
use mathlib.Core.List.{Sublist, cons-sublist-cons, append_assoc, append-nil}
use mathlib.Core.List.Sublist
use project_baracks.Prelude.{
  ℕ, suc, ◌≡◌, refl, subst, inl, inr, true, false, List, [], ◌∷◌, ◌++◌, arith, is_some, Bool-cases,
  if◌then◌else◌, not, keep, Eq-String,
}
use project_baracks.Resource.Types.{
  ResourceKind, kind_eq, kind_eq_iff, ResourceLimits, ResourceLease, QueuedResourceRequest, Host,
}
use project_baracks.Resource.Turn.{
  is_orphan-grant, turn, promote_from-nil, drops, passes, stops, grants,
}
use project_baracks.Resource.Store.{
  kind_cap_reached, capacity_reason, lease_from, is_orphan, promote_from,
}
use project_baracks.Resource.Capacity.{other_kind_of_free, kind_cap_reached-grant, promote_from_ind}

cancel {ℓ} :
    {A : Type ℓ} (xs : List A) {ys zs : List A} → Sublist (xs ++ ys) (xs ++ zs) → Sublist ys zs
cancel [] sub = sub
cancel (x ∷ xs) sub = cancel xs (cons-sublist-cons.0 sub)

-- A value that a grant copies from the request to the lease, such as the fencing token.
module _ {ℓ} {B : Type ℓ} (of_lease : ResourceLease → B) (of_request : QueuedResourceRequest → B)
    (k : ResourceKind) where
  -- The values of one kind's leases, in the order of their grants.
  abbrev pub held : List ResourceLease → List B
  held [] = []
  held (l ∷ ls) = let rest = held ls in if kind_eq l.kind k then of_lease l ∷ rest else rest

  -- The values of one kind's requests, in the order of the queue.
  abbrev pub waiting : List QueuedResourceRequest → List B
  waiting [] = []
  waiting (r ∷ rs) = let rest = waiting rs in if kind_eq r.kind k then of_request r ∷ rest else rest

  held-append : (xs ys : List ResourceLease) → held (xs ++ ys) ≡ held xs ++ held ys
  held-append [] ys = refl
  held-append (x ∷ xs) ys = ground (arith, held-append xs ys)

  waiting-cons :
      (r : QueuedResourceRequest) (rs : List QueuedResourceRequest) {xs : List B}
      → Sublist xs (waiting rs)
      → Sublist xs (waiting (r ∷ rs))
  waiting-cons r rs sub = elim (Bool-cases (kind_eq r.kind k)) [
    | inl same ↦ rw same (Sublist.cons _ sub)
    | inr other ↦ rw other sub
  ]

  waiting-cons_cons :
      (r : QueuedResourceRequest) (qs rs : List QueuedResourceRequest)
      → Sublist (waiting qs) (waiting rs)
      → Sublist (waiting (r ∷ qs)) (waiting (r ∷ rs))
  waiting-cons_cons r qs rs sub = elim (Bool-cases (kind_eq r.kind k)) [
    | inl same ↦ rw same (Sublist.cons-cons _ sub)
    | inr other ↦ rw other sub
  ]

  module _ (h : Host) (memory : ℕ) (limits : ResourceLimits)
      (copied : (drawn : ℕ) (r : QueuedResourceRequest)
        → of_lease (lease_from h drawn r) ≡ of_request r) where
    -- A grant moves the value from the head of the queue to the end of the leases.
    held-grant :
        (leases : List ResourceLease) (drawn : ℕ) (r : QueuedResourceRequest)
        (rest : List QueuedResourceRequest)
        → held (leases ++ lease_from h drawn r ∷ []) ++ waiting rest
          ≡ held leases ++ waiting (r ∷ rest)
    unfolding lease_from
    held-grant leases drawn r rest = elim (Bool-cases (kind_eq r.kind k)) [
      | inl same ↦
          rw (held-append leases (lease_from h drawn r ∷ []), same)
            (rw (append_assoc, copied drawn r) refl)
      | inr other ↦ rw (held-append leases (lease_from h drawn r ∷ []), other) (rw append-nil refl)
    ]

    held-grant_other :
        (leases : List ResourceLease) (drawn : ℕ) (r : QueuedResourceRequest)
        → kind_eq r.kind k ≡ false
        → held (leases ++ lease_from h drawn r ∷ []) ≡ held leases
    unfolding lease_from
    held-grant_other leases drawn r other =
        rw (held-append leases (lease_from h drawn r ∷ []), other) (append-nil _)

    waiting-promote_from :
        (queue : List QueuedResourceRequest) (leases : List ResourceLease) (drawn : ℕ)
        → Sublist (waiting (promote_from h memory limits leases drawn queue).1) (waiting queue)
    waiting-promote_from [] leases drawn =
        rw (promote_from-nil h memory limits leases drawn) (Sublist.refl [])
    waiting-promote_from (r ∷ rest) leases drawn = elim (turn h memory limits leases drawn r rest) [
      | drops _ e ↦ rw e (waiting-cons r rest (waiting-promote_from rest leases drawn))
      | passes _ e ↦ rw e (waiting-cons_cons r _ rest (waiting-promote_from rest leases drawn))
      | stops _ e ↦ rw e (Sublist.refl _)
      | grants _ _ e ↦ rw e (waiting-cons r rest (waiting-promote_from rest _ (suc drawn)))
    ]

    -- A kind at its cap gets nothing.
    held-promote_from_capped :
        (queue : List QueuedResourceRequest) (leases : List ResourceLease) (drawn : ℕ)
        → kind_cap_reached leases k limits ≡ true
        → held (promote_from h memory limits leases drawn queue).0 ≡ held leases
    held-promote_from_capped queue leases drawn capped =
        (promote_from_ind h memory limits IsCapped (λ l d r free p. still l d r free p) queue leases
          drawn (capped, refl)).1
      where
        IsCapped : List ResourceLease → Type ℓ
        IsCapped l = (kind_cap_reached l k limits ≡ true) × (held l ≡ held leases)

        still :
            (l : List ResourceLease) (d : ℕ) (r : QueuedResourceRequest)
            → is_some (capacity_reason l r.kind memory limits) ≡ false
            → IsCapped l
            → IsCapped (l ++ lease_from h d r ∷ [])
        still l d r free (reached, same) = (
          kind_cap_reached-grant h memory limits k l d r reached,
          rw (held-grant_other l d r (other_kind_of_free l r.kind k memory limits free reached))
              same,
        )

    passed :
        (r : QueuedResourceRequest) (rest : List QueuedResourceRequest)
        (leases : List ResourceLease) (drawn : ℕ)
        → kind_cap_reached leases r.kind limits ≡ true
        → Sublist
            (held (promote_from h memory limits leases drawn rest).0
              ++ waiting (promote_from h memory limits leases drawn rest).1)
            (held leases ++ waiting rest)
        → Sublist
            (held (promote_from h memory limits leases drawn rest).0
              ++ waiting (r ∷ (promote_from h memory limits leases drawn rest).1))
            (held leases ++ waiting (r ∷ rest))
    passed r rest leases drawn capped ih = elim (Bool-cases (kind_eq r.kind k)) [
      | inr other ↦ rw other ih
      | inl same ↦
          rw
            (held-promote_from_capped rest leases drawn (
              subst (λ c. kind_cap_reached leases c limits ≡ true) ((kind_eq_iff r.kind k).0 same)
                capped))
            (Sublist.append (Sublist.refl _)
              (waiting-cons_cons r _ rest (waiting-promote_from rest leases drawn)))
    ]

    -- The loop adds nothing and keeps the order.
    pub promote_from-within :
        (queue : List QueuedResourceRequest) (leases : List ResourceLease) (drawn : ℕ)
        → let out = promote_from h memory limits leases drawn queue in
          Sublist (held out.0 ++ waiting out.1) (held leases ++ waiting queue)
    promote_from-within [] leases drawn =
        rw (promote_from-nil h memory limits leases drawn) (Sublist.refl _)
    promote_from-within (r ∷ rest) leases drawn =
        let ih = promote_from-within rest leases drawn in
        elim (turn h memory limits leases drawn r rest) [
          | drops _ e ↦ rw e (
              Sublist.trans ih
                (Sublist.append (Sublist.refl _) (waiting-cons r rest (Sublist.refl _))))
          | passes capped e ↦ rw e (passed r rest leases drawn capped ih)
          | stops _ e ↦ rw e (Sublist.refl _)
          | grants _ _ e ↦ rw e (
              subst (Sublist _) (held-grant leases drawn r rest)
                (promote_from-within rest _ (suc drawn)))
        ]

    -- A request with the parent among the leases that `start` had has it among `leases`.
    module _ (start : List ResourceLease) where
      abbrev StillOwned : List ResourceLease → Type 0
      StillOwned leases =
          (r : QueuedResourceRequest) → is_orphan leases r ≡ true → is_orphan start r ≡ true

      abbrev owned : List QueuedResourceRequest → List QueuedResourceRequest
      owned = keep (λ r. not (is_orphan start r))

      waiting-owned : (rs : List QueuedResourceRequest) → Sublist (waiting (owned rs)) (waiting rs)
      waiting-owned [] = Sublist.refl []
      waiting-owned (r ∷ rs) = elim (Bool-cases (is_orphan start r)) [
        | inl orphan ↦ rw orphan (waiting-cons r rs (waiting-owned rs))
        | inr own ↦ rw own (waiting-cons_cons r (owned rs) rs (waiting-owned rs))
      ]

      waiting-owned_cons :
          (r : QueuedResourceRequest) (rs : List QueuedResourceRequest)
          → Sublist (waiting (owned (r ∷ rs))) (waiting (r ∷ owned rs))
      waiting-owned_cons r rs = elim (Bool-cases (is_orphan start r)) [
        | inl orphan ↦ rw orphan (waiting-cons r (owned rs) (Sublist.refl _))
        | inr own ↦ rw own (Sublist.refl _)
      ]

      kept_back :
          (r : QueuedResourceRequest) (rest : List QueuedResourceRequest)
          (leases : List ResourceLease) (drawn : ℕ)
          → kind_cap_reached leases r.kind limits ≡ true
          → Sublist (held leases ++ waiting (owned rest)) (
              held (promote_from h memory limits leases drawn rest).0
              ++ waiting (promote_from h memory limits leases drawn rest).1)
          → Sublist (held leases ++ waiting (r ∷ owned rest)) (
              held (promote_from h memory limits leases drawn rest).0
              ++ waiting (r ∷ (promote_from h memory limits leases drawn rest).1))
      kept_back r rest leases drawn capped ih = elim (Bool-cases (kind_eq r.kind k)) [
        | inr other ↦ rw other ih
        | inl same ↦
            let at_cap : held (promote_from h memory limits leases drawn rest).0 ≡ held leases =
              held-promote_from_capped rest leases drawn (
                subst (λ c. kind_cap_reached leases c limits ≡ true) ((kind_eq_iff r.kind k).0 same)
                  capped) in
            rw at_cap (
              Sublist.append (Sublist.refl (held leases)) (
                waiting-cons_cons r (owned rest) _ (
                  cancel (held leases) (
                    subst
                      (λ l.
                        Sublist (held leases ++ waiting (owned rest))
                          (l ++ waiting (promote_from h memory limits leases drawn rest).1))
                      at_cap ih))))
      ]

      -- The loop loses nothing but orphans.
      promote_from-keeps :
          (queue : List QueuedResourceRequest) (leases : List ResourceLease) (drawn : ℕ)
          → StillOwned leases
          → let out = promote_from h memory limits leases drawn queue in
            Sublist (held leases ++ waiting (owned queue)) (held out.0 ++ waiting out.1)
      promote_from-keeps [] leases drawn still =
          rw (promote_from-nil h memory limits leases drawn) (Sublist.refl _)
      promote_from-keeps (r ∷ rest) leases drawn still =
          let ih = promote_from-keeps rest leases drawn still in
          let front : Sublist (held leases ++ waiting (owned (r ∷ rest)))
              (held leases ++ waiting (r ∷ owned rest)) =
            Sublist.append (Sublist.refl (held leases)) (waiting-owned_cons r rest) in
          elim (turn h memory limits leases drawn r rest) [
            | drops orphan e ↦ rw (e, still r orphan) ih
            | passes capped e ↦ rw e (Sublist.trans front (kept_back r rest leases drawn capped ih))
            | stops _ e ↦
                rw e (Sublist.append (Sublist.refl (held leases)) (waiting-owned (r ∷ rest)))
            | grants _ _ e ↦ rw e (
                Sublist.trans front (
                  subst
                    (λ l. Sublist l (
                      held
                        (promote_from h memory limits (leases ++ lease_from h drawn r ∷ [])
                          (suc drawn) rest).0
                      ++ waiting
                          (promote_from h memory limits (leases ++ lease_from h drawn r ∷ [])
                            (suc drawn) rest).1))
                    (held-grant leases drawn r (owned rest))
                    (promote_from-keeps rest _ (suc drawn)
                      (λ q lost. still q (is_orphan-grant leases (lease_from h drawn r) q lost)))))
          ]

    -- Of a value that a grant copies from its request to its lease, such as the fencing token, and
    -- for each kind: the values of the leases and then of the requests that still wait are, in
    -- order, among those of the leases and the requests that were there. All that was held is
    -- still there, and so is every request whose parent lease, when it names one, was there: the
    -- loop loses nothing but orphans.
    pub promote_from-Sublist :
        (queue : List QueuedResourceRequest) (leases : List ResourceLease) (drawn : ℕ)
        → let out = promote_from h memory limits leases drawn queue in
          Sublist (held out.0 ++ waiting out.1) (held leases ++ waiting queue)
          × Sublist
              (held leases ++ waiting (keep (λ r. not (is_orphan leases r)) queue))
              (held out.0 ++ waiting out.1)
    promote_from-Sublist queue leases drawn = (
      promote_from-within queue leases drawn,
      promote_from-keeps leases queue leases drawn (λ r orphan. orphan),
    )
