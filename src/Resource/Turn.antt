-- ===== src/Resource/Turn.antt =====
-- The four ways in which one turn of the loop of `promoteQueued` goes
-- (src/supervisor/resources.ts).
use project_baracks.Prelude.{
  ℕ, suc, ◌≡◌, refl, true, false, List, [], ◌∷◌, ◌++◌, is_some, Bool-cases, inl, inr, any, Bool,
  Option-cases, ◌==◌, Eq-String, arith,
}
use project_baracks.Resource.Types.{ResourceLimits, ResourceLease, QueuedResourceRequest, Host}
use project_baracks.Resource.Store.{
  kind_cap_reached, capacity_reason, lease_from, is_orphan, promote_from,
}

abbrev Outcome : Type 0
Outcome = List ResourceLease × List QueuedResourceRequest × ℕ

module _ (h : Host) (memory : ℕ) (limits : ResourceLimits) (leases : List ResourceLease)
    (drawn : ℕ) where
  pub promote_from-nil : promote_from h memory limits leases drawn [] ≡ (leases, [], drawn)
  unfolding promote_from
  promote_from-nil = refl

  module _ (request : QueuedResourceRequest) (rest : List QueuedResourceRequest) where
    pub data Turn (out : List ResourceLease × List QueuedResourceRequest × ℕ) : Type 0 where
      drops :
          is_orphan leases request ≡ true
          → out ≡ promote_from h memory limits leases drawn rest
          → Turn out
      passes :
          kind_cap_reached leases request.kind limits ≡ true
          → out ≡ (
            (promote_from h memory limits leases drawn rest).0,
            request ∷ (promote_from h memory limits leases drawn rest).1,
            (promote_from h memory limits leases drawn rest).2,
          )
          → Turn out
      stops :
          is_some (capacity_reason leases request.kind memory limits) ≡ true
          → out ≡ (leases, request ∷ rest, drawn)
          → Turn out
      grants :
          is_orphan leases request ≡ false
          → is_some (capacity_reason leases request.kind memory limits) ≡ false
          → out
            ≡ promote_from h memory limits
                (leases ++ lease_from h drawn request ∷ [])
                (suc drawn)
                rest
          → Turn out

    pub turn : Turn (promote_from h memory limits leases drawn (request ∷ rest))
    unfolding promote_from
    turn = elim (Bool-cases (is_orphan leases request)) [
      | inl orphan ↦ drops orphan (rw orphan)
      | inr own ↦ elim (Bool-cases (is_some (capacity_reason leases request.kind memory limits))) [
        | inr free ↦ grants own free (rw (own, free))
        | inl full ↦ elim (Bool-cases (kind_cap_reached leases request.kind limits)) [
          | inl capped ↦ passes capped (rw (own, full, capped))
          | inr other ↦ stops full (rw (own, full, other))
        ]
      ]
    ]

any-grant :
    (p : ResourceLease → Bool) (leases : List ResourceLease) (l : ResourceLease)
    → any p leases ≡ true
    → any p (leases ++ l ∷ []) ≡ true
any-grant p [] l h = absurd (ground arith)
any-grant p (x ∷ xs) l h = elim (Bool-cases (p x)) [
  | inl e ↦ rw e refl
  | inr e ↦ ground (arith, e, any-grant p xs l)
]

-- A lease more makes no request an orphan.
pub is_orphan-grant :
    (leases : List ResourceLease) (l : ResourceLease) (r : QueuedResourceRequest)
    → is_orphan (leases ++ l ∷ []) r ≡ true
    → is_orphan leases r ≡ true
unfolding is_orphan
is_orphan-grant leases l r h = elim (Option-cases r.parent_lease_id) [
  | inl e ↦ absurd (ground (arith, e))
  | inr (id, e) ↦ ground (arith, e, h, any-grant (λ x. x.id == id) leases l)
]
