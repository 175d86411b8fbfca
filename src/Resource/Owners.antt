-- ===== src/Resource/Owners.antt =====
-- At most one lease or request for each kind and owner (src/supervisor/resources.ts).
use mathlib.Core.List.{
  Sublist, Nodup, Nodup-cons, Mem, mem-append, mem-cons, not-mem-nil, perm_middle, append_assoc,
  append-nil,
}
use mathlib.Core.List.Sublist
use mathlib.Core.List.Nodup
use mathlib.Core.List.Perm
use mathlib.Core.Logic.Or
use mathlib.Core.HLevel.{⊥_prop}
use text.Mathlib.TextEquality.{eq_iff}
use project_baracks.Prelude.{
  ℕ, ◌≡◌, refl, sym, subst, true_ne_false, ◌∙◌, ◌==◌, Eq-String, Bool, true, not, Option, none,
  String, List, [], ◌∷◌, ◌++◌, arith, keep, find, is_some, Bool-cases, inl, inr,
}
use project_baracks.Resource.Types.{
  ResourceKind, Eq-ResourceKind, kind_eq, kind_eq_iff, ResourceLease, QueuedResourceRequest,
  ResourceStore, Host,
}
use project_baracks.Resource.Limits.{available_memory_percent, current_resource_limits}
use project_baracks.Resource.Store.{
  prune, lease_from, capacity_reason, promote_queued, lease_is_active,
}
use project_baracks.Resource.Operations.{of_owner, queued_of_owner, admit_request, by_id}
use project_baracks.Resource.Leases.{renewed, update_first}
use project_baracks.Resource.Fifo.{held, waiting, promote_from-within}
use project_baracks.Resource.Runs.{ResourceOp, Reach, here, next, StoreRule, apply_ind}

-- The owners of one kind's leases, and of its requests.
abbrev holders : ResourceKind → List ResourceLease → List String
holders k leases = held (λ l. l.owner) (λ r. r.owner) k leases

abbrev waiters : ResourceKind → List QueuedResourceRequest → List String
waiters k queue = waiting (λ l. l.owner) (λ r. r.owner) k queue

-- No owner has two leases or requests of one kind.
abbrev pub HasOneEach : ResourceStore → Type 0
HasOneEach s = (k : ResourceKind) → Nodup (holders k s.leases ++ waiters k s.queue)

holders-keep :
    (k : ResourceKind) (p : ResourceLease → Bool) (ls : List ResourceLease)
    → Sublist (holders k (keep p ls)) (holders k ls)
holders-keep k p [] = Sublist.refl []
holders-keep k p (l ∷ ls) = elim (Bool-cases (p l)) [
  | inl kept ↦ rw kept (elim (Bool-cases (kind_eq l.kind k)) [
    | inl same ↦ rw same (Sublist.cons-cons l.owner (holders-keep k p ls))
    | inr other ↦ rw other (holders-keep k p ls)
  ])
  | inr gone ↦ rw gone (elim (Bool-cases (kind_eq l.kind k)) [
    | inl same ↦ rw same (Sublist.cons l.owner (holders-keep k p ls))
    | inr other ↦ rw other (holders-keep k p ls)
  ])
]

waiters-keep :
    (k : ResourceKind) (p : QueuedResourceRequest → Bool) (rs : List QueuedResourceRequest)
    → Sublist (waiters k (keep p rs)) (waiters k rs)
waiters-keep k p [] = Sublist.refl []
waiters-keep k p (r ∷ rs) = elim (Bool-cases (p r)) [
  | inl kept ↦ rw kept (elim (Bool-cases (kind_eq r.kind k)) [
    | inl same ↦ rw same (Sublist.cons-cons r.owner (waiters-keep k p rs))
    | inr other ↦ rw other (waiters-keep k p rs)
  ])
  | inr gone ↦ rw gone (elim (Bool-cases (kind_eq r.kind k)) [
    | inl same ↦ rw same (Sublist.cons r.owner (waiters-keep k p rs))
    | inr other ↦ rw other (waiters-keep k p rs)
  ])
]

holders-update_first :
    (h : Host) (k : ResourceKind) (p : ResourceLease → Bool) (ttl : Option ℕ)
    (ls : List ResourceLease)
    → holders k (update_first p (renewed h ttl) ls) ≡ holders k ls
unfolding update_first renewed
holders-update_first h k p ttl [] = refl
holders-update_first h k p ttl (l ∷ ls) = ground (arith, holders-update_first h k p ttl ls)

holders-append :
    (k : ResourceKind) (xs ys : List ResourceLease)
    → holders k (xs ++ ys) ≡ holders k xs ++ holders k ys
holders-append k [] ys = refl
holders-append k (x ∷ xs) ys = ground (arith, holders-append k xs ys)

waiters-append :
    (k : ResourceKind) (xs ys : List QueuedResourceRequest)
    → waiters k (xs ++ ys) ≡ waiters k xs ++ waiters k ys
waiters-append k [] ys = refl
waiters-append k (x ∷ xs) ys = ground (arith, waiters-append k xs ys)

-- An owner that `find` does not find is not among the holders.
not-mem-holders :
    (k : ResourceKind) (owner : String) (ls : List ResourceLease)
    → find (of_owner k owner) ls ≡ none
    → ¬ Mem owner (holders k ls)
not-mem-holders k owner [] e m = not-mem-nil m
not-mem-holders k owner (l ∷ ls) e m = elim (Bool-cases (kind_eq l.kind k)) [
  | inr other ↦ not-mem-holders k owner ls (rw other at e) (rw other at m)
  | inl same ↦ elim (Bool-cases (l.owner == owner)) [
    | inl eq ↦ ground arith
    | inr ne ↦
        Or.elim ⊥_prop (mem-cons.0 (rw same at m))
          (λ q. absurd (true_ne_false (sym ((eq_iff l.owner owner).1 (sym q)) ∙ ne)))
          (not-mem-holders k owner ls (rw (same, ne) at e))
  ]
]

not-mem-waiters :
    (k : ResourceKind) (owner : String) (rs : List QueuedResourceRequest)
    → find (queued_of_owner k owner) rs ≡ none
    → ¬ Mem owner (waiters k rs)
not-mem-waiters k owner [] e m = not-mem-nil m
not-mem-waiters k owner (r ∷ rs) e m = elim (Bool-cases (kind_eq r.kind k)) [
  | inr other ↦ not-mem-waiters k owner rs (rw other at e) (rw other at m)
  | inl same ↦ elim (Bool-cases (r.owner == owner)) [
    | inl eq ↦ ground arith
    | inr ne ↦
        Or.elim ⊥_prop (mem-cons.0 (rw same at m))
          (λ q. absurd (true_ne_false (sym ((eq_iff r.owner owner).1 (sym q)) ∙ ne)))
          (not-mem-waiters k owner rs (rw (same, ne) at e))
  ]
]

-- A new owner may stand anywhere.
Nodup-insert :
    (owner : String) (xs ys : List String)
    → ¬ Mem owner xs
    → ¬ Mem owner ys
    → Nodup (xs ++ ys)
    → Nodup (xs ++ owner ∷ ys)
Nodup-insert owner xs ys out_xs out_ys all =
    Perm.nodup (Perm.symm (perm_middle xs ys))
      (Nodup-cons.1 ((λ m. Or.elim ⊥_prop (mem-append.0 m) out_xs out_ys), all))

module _ (h : Host) (s : ResourceStore) (r : QueuedResourceRequest) (drawn : ℕ)
    (unheld : find (of_owner r.kind r.owner) s.leases ≡ none)
    (unqueued : find (queued_of_owner r.kind r.owner) s.queue ≡ none) where
  unlisted :
      (k : ResourceKind)
      → kind_eq r.kind k ≡ true
      → (¬ Mem r.owner (holders k s.leases)) × (¬ Mem r.owner (waiters k s.queue))
  unlisted k same =
      subst (λ c. (¬ Mem r.owner (holders c s.leases)) × (¬ Mem r.owner (waiters c s.queue)))
        ((kind_eq_iff r.kind k).0 same)
        (
          not-mem-holders r.kind r.owner s.leases unheld,
          not-mem-waiters r.kind r.owner s.queue unqueued,
        )

  -- One more request at the end of the queue.
  queued-Nodup :
      (k : ResourceKind) (waits : QueuedResourceRequest)
      → waits.kind ≡ r.kind
      → waits.owner ≡ r.owner
      → Nodup (holders k s.leases ++ waiters k s.queue)
      → Nodup (holders k s.leases ++ waiters k (s.queue ++ waits ∷ []))
  queued-Nodup k waits kind owner one =
      rw (waiters-append k s.queue (waits ∷ []), kind, owner)
        (elim (Bool-cases (kind_eq r.kind k)) [
          | inr other ↦ rw (other, append-nil) one
          | inl same ↦
              let (out_h, out_w) = unlisted k same in
              rw (same, ← append_assoc)
                (Nodup-insert r.owner (holders k s.leases ++ waiters k s.queue) []
                  (λ m. Or.elim ⊥_prop (mem-append.0 m) out_h out_w) not-mem-nil
                  (rw append-nil one))
        ])

  -- One more lease at the end of the leases.
  held-Nodup :
      (k : ResourceKind)
      → Nodup (holders k s.leases ++ waiters k s.queue)
      → Nodup (holders k (s.leases ++ lease_from h drawn r ∷ []) ++ waiters k s.queue)
  unfolding lease_from
  held-Nodup k one =
      rw (holders-append k s.leases (lease_from h drawn r ∷ []))
        (elim (Bool-cases (kind_eq r.kind k)) [
          | inr other ↦ rw (other, append-nil) one
          | inl same ↦
              let (out_h, out_w) = unlisted k same in
              rw (same, append_assoc)
                (Nodup-insert r.owner (holders k s.leases) (waiters k s.queue) out_h out_w one)
        ])

  admit-HasOneEach : HasOneEach s → HasOneEach (admit_request h r (record s { drawn = drawn })).0
  unfolding admit_request
  admit-HasOneEach one k =
      elim (Bool-cases (
        is_some (
          capacity_reason s.leases r.kind (available_memory_percent h)
            (current_resource_limits h)))) [
              | inl full ↦ rw full (queued-Nodup k _ refl refl (one k))
              | inr free ↦ rw free (held-Nodup k (one k))
            ]

one_each_rule : (h : Host) (op : ResourceOp) → StoreRule h op HasOneEach
unfolding prune promote_queued
one_each_rule h op = record {
  pruned = λ s one k.
      Nodup.sublist (Sublist.append (holders-keep k (lease_is_active h) s.leases) (Sublist.refl _))
        (one k);
  granted = λ s one k.
      Nodup.sublist
        (promote_from-within (λ l. l.owner) (λ r. r.owner) k h (available_memory_percent h)
          (current_resource_limits h) (λ d r. unfold lease_from in refl) s.queue s.leases s.drawn)
        (one k);
  renew = λ s p ttl one k. rw (holders-update_first h k p ttl s.leases) (one k);
  released = λ s id token lease now e match one k.
      Nodup.sublist
        (Sublist.append (holders-keep k (λ l. not (by_id id l)) s.leases) (Sublist.refl _)) (one k);
  drop_requests = λ s p one k.
      Nodup.sublist (Sublist.append (Sublist.refl _) (waiters-keep k p s.queue)) (one k);
  admit = λ s r drawn unheld unqueued. admit-HasOneEach h s r drawn unheld unqueued;
}

-- In every store that any sequence of operations reaches from a store of the kind, each on a host
-- of its own, an owner holds or waits for at most one resource of each kind.
pub Reach-HasOneEach : {s t : ResourceStore} → HasOneEach s → Reach s t → HasOneEach t
Reach-HasOneEach one here = one
Reach-HasOneEach one (next r h op) = apply_ind h op (one_each_rule h op) _ (Reach-HasOneEach one r)
