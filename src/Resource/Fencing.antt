-- ===== src/Resource/Fencing.antt =====
-- Heartbeats and releases under the fencing token (src/supervisor/resources.ts).
use mathlib.Core.Option.{some-injective}
use text.Mathlib.TextEquality.{eq_iff}
use project_baracks.Prelude.{
  ℕ, ◌+◌, ◌<◌, ◌≡◌, ◌≢◌, refl, sym, ap, subst, ◌∙◌, ◌==◌, Eq-String, Bool, true, false, not, Option,
  some, String, List, [], ◌∷◌, arith, keep, find, any, Bool-cases, Option-cases, inl, inr, ◌⊎◌,
  ne_of_beq,
}
use project_baracks.Resource.Types.{
  ResourceLease, ResourceStore, ResourceTelemetry, ResourceError, not_active, not_current,
  owns_child, Result, ok, err, Host,
}
use project_baracks.Resource.Store.{prune, lease_is_active, promote_queued}
use project_baracks.Resource.Limits.{available_memory_percent, current_resource_limits}
use project_baracks.Resource.Operations.{with_store_lock, by_id}
use project_baracks.Resource.Leases.{
  renewed, update_first, heartbeat_resource, release_resource, is_child_of,
}

-- What a heartbeat does: it renews the lease that holds the identifier and the token, in place, or
-- it throws and leaves the store as it was.
pub data Heartbeat (h : Host) (id token : String) (ttl : Option ℕ) (s : ResourceStore)
    (out : ResourceStore × Result ResourceLease) : Type 0 where
  renews :
      (lease : ResourceLease)
      → find (by_id id) (prune h s).leases ≡ some lease
      → lease.fencing_token ≡ token
      → out.1 ≡ ok (renewed h ttl lease)
      → out.0
        ≡ record (prune h s) { leases = update_first (by_id id) (renewed h ttl) (prune h s).leases }
      → Heartbeat h id token ttl s out
  refuses :
      ((lease : ResourceLease)
        → find (by_id id) (prune h s).leases ≡ some lease
        → lease.fencing_token ≢ token)
      → out.1 ≡ err (not_active id)
      → out.0 ≡ s
      → Heartbeat h id token ttl s out

-- A heartbeat renews exactly if the store, stale leases taken out, holds a lease of the identifier
-- whose fencing token is the caller's; otherwise it throws and changes nothing.
heartbeat_resource-Heartbeat :
    (h : Host) (id token : String) (ttl : Option ℕ) (s : ResourceStore)
    → Heartbeat h id token ttl s (heartbeat_resource h id token ttl s)
unfolding heartbeat_resource with_store_lock
heartbeat_resource-Heartbeat h id token ttl s =
    elim (Option-cases (find (by_id id) (prune h s).leases)) [
      | inl gone ↦
          refuses (λ l e. cc) (rw (gone, heartbeat_resource, with_store_lock))
            (rw (gone, heartbeat_resource, with_store_lock))
      | inr (lease, e) ↦ elim (Bool-cases (lease.fencing_token == token)) [
        | inl held ↦
            renews lease e ((eq_iff lease.fencing_token token).0 held)
              (rw (e, heartbeat_resource, with_store_lock) (rw held))
              (rw (e, heartbeat_resource, with_store_lock) (rw held))
        | inr lost ↦
            refuses
              (λ l e'.
                rw (some-injective l lease (sym e' ∙ e)) (ne_of_beq lease.fencing_token token lost))
              (rw (e, heartbeat_resource, with_store_lock) (rw lost))
              (rw (e, heartbeat_resource, with_store_lock) (rw lost))
      ]
    ]

by_id-renewed :
    (h : Host) (id : String) (ttl : Option ℕ) (l : ResourceLease)
    → by_id id (renewed h ttl l) ≡ by_id id l
unfolding renewed
by_id-renewed h id ttl l = refl

ok-injective {ℓ} : {A : Type ℓ} {a b : A} → ok a ≡ ok b → a ≡ b
ok-injective {a} e = ap (λ r. elim r [ ok x ↦ x | err _ ↦ a ]) e

-- After the heartbeat the first lease of the identifier is the renewed one.
find-update_first :
    (h : Host) (id : String) (ttl : Option ℕ) (lease : ResourceLease) (ls : List ResourceLease)
    → find (by_id id) ls ≡ some lease
    → find (by_id id) (update_first (by_id id) (renewed h ttl) ls) ≡ some (renewed h ttl lease)
unfolding update_first
find-update_first h id ttl lease [] e = cc
find-update_first h id ttl lease (l ∷ ls) e = elim (Bool-cases (by_id id l)) [
  | inl hit ↦ rw hit (
      rw (by_id-renewed h id ttl l, hit)
        (ap (λ x. some (renewed h ttl x)) (some-injective l lease (rw hit at e))))
  | inr miss ↦ rw miss (rw miss (find-update_first h id ttl lease ls (rw miss at e)))
]

-- What is found stays the first to be found when other leases go.
find-keep :
    (p q : ResourceLease → Bool) (lease : ResourceLease) (ls : List ResourceLease)
    → q lease ≡ true
    → find p ls ≡ some lease
    → find p (keep q ls) ≡ some lease
find-keep p q lease [] sure e = cc
find-keep p q lease (l ∷ ls) sure e = elim (Bool-cases (p l)) [
  | inl hit ↦
      let same = some-injective l lease (rw hit at e) in
      rw (ap q same ∙ sure) (rw hit (ap some same))
  | inr miss ↦
      let later = find-keep p q lease ls sure (rw miss at e) in
      elim (Bool-cases (q l)) [ inl kept ↦ rw kept (rw miss later) | inr gone ↦ rw gone later ]
]

renewed-reclaim_after :
    (h : Host) (ttl : Option ℕ) (l : ResourceLease)
    → (renewed h ttl l).reclaim_after
      ≡ h.now + (renewed h ttl l).ttl_ms + (renewed h ttl l).grace_ms
unfolding renewed
renewed-reclaim_after h ttl l = refl

renewed-active :
    (h h' : Host) (ttl : Option ℕ) (l : ResourceLease)
    → h'.now < (renewed h ttl l).reclaim_after
    → lease_is_active h' (renewed h ttl l) ≡ true
unfolding lease_is_active
renewed-active h h' ttl l soon = ground arith

-- A heartbeat that returns holds the lease: until its time to live and the grace period after it
-- are over, an operation on any host that reclaims stale leases still finds exactly that lease.
heartbeat_resource-holds :
    (h h' : Host) (id token : String) (ttl : Option ℕ) (s : ResourceStore) (lease : ResourceLease)
    → (heartbeat_resource h id token ttl s).1 ≡ ok lease
    → h'.now < h.now + lease.ttl_ms + lease.grace_ms
    → find (by_id id) (prune h' (heartbeat_resource h id token ttl s).0).leases ≡ some lease
unfolding prune
heartbeat_resource-holds h h' id token ttl s lease e soon =
    elim (heartbeat_resource-Heartbeat h id token ttl s) [
      | refuses _ thrown _ ↦ cc
      | renews l found match returned store ↦
          let same : renewed h ttl l ≡ lease = ok-injective (sym returned ∙ e) in
          let lasting : h'.now < (renewed h ttl l).reclaim_after =
            rw (renewed-reclaim_after h ttl l)
              (subst (λ x. h'.now < h.now + x.ttl_ms + x.grace_ms) (sym same) soon) in
          rw (store, ← same)
            (find-keep (by_id id) (lease_is_active h') (renewed h ttl l) _
              (renewed-active h h' ttl l lasting) (find-update_first h id ttl l _ found))
    ]

-- What a release does: it takes out the lease of the identifier and token, which must have no
-- child, and the queue moves up; or it throws and leaves the store as it was.
pub data Release (h : Host) (id token : String) (s : ResourceStore)
    (out : ResourceStore × Result ResourceTelemetry) : Type 0 where
  releases :
      (lease : ResourceLease)
      → find (by_id id) (prune h s).leases ≡ some lease
      → lease.fencing_token ≡ token
      → any (is_child_of id) (prune h s).leases ≡ false
      → out.0
        ≡ promote_queued h
            (available_memory_percent h)
            (current_resource_limits h)
            (record (prune h s) { leases = keep (λ l. not (by_id id l)) (prune h s).leases })
      → Release h id token s out
  keeps :
      (e : ResourceError)
      → out.1 ≡ err e
      → out.0 ≡ s
      → (((lease : ResourceLease)
            → find (by_id id) (prune h s).leases ≡ some lease
            → lease.fencing_token ≢ token)
          ⊎ (any (is_child_of id) (prune h s).leases ≡ true))
      → Release h id token s out

-- A release succeeds exactly if the store, stale leases taken out, holds a lease of the identifier
-- with the caller's fencing token and no lease names it as its parent; then the freed capacity goes
-- to the queue. Otherwise it throws and changes nothing.
release_resource-Release :
    (h : Host) (id token : String) (s : ResourceStore)
    → Release h id token s (release_resource h id token s)
unfolding release_resource with_store_lock
release_resource-Release h id token s = elim (Option-cases (find (by_id id) (prune h s).leases)) [
  | inl gone ↦
      keeps (not_current id) (rw (gone, release_resource, with_store_lock))
        (rw (gone, release_resource, with_store_lock)) (inl (λ l e. cc))
  | inr (lease, e) ↦ elim (Bool-cases (lease.fencing_token == token)) [
    | inr lost ↦
        keeps (not_current id) (rw (e, release_resource, with_store_lock) (rw lost))
          (rw (e, release_resource, with_store_lock) (rw lost))
          (inl (λ l e'.
            rw (some-injective l lease (sym e' ∙ e)) (ne_of_beq lease.fencing_token token lost)))
    | inl held ↦ elim (Bool-cases (any (is_child_of id) (prune h s).leases)) [
      | inl child ↦
          keeps (owns_child id) (rw (e, release_resource, with_store_lock) (rw held (rw child)))
            (rw (e, release_resource, with_store_lock) (rw held (rw child))) (inr child)
      | inr childless ↦
          releases lease e ((eq_iff lease.fencing_token token).0 held) childless
            (rw (e, release_resource, with_store_lock) (rw held (rw childless)))
    ]
  ]
]
