-- ===== src/Resource/Reclaim.antt =====
-- What reclaiming stale leases may take and what it counts (src/supervisor/resources.ts).
use text.Mathlib.TextEquality.{eq_iff}
use project_baracks.Prelude.{
  ℕ, ◌+◌, ◌≡◌, ◌≢◌, sym, ap, ◌∙◌, ◌==◌, Eq-String, Bool, true, not, Option, get_or, String, List,
  [], ◌∷◌, arith, length, keep, is_some, Bool-cases, inl, inr, Any, Any-keep, Any-append_left,
}
use project_baracks.Resource.Types.{ResourceLease, ReclaimTelemetry, ResourceStore, Host}
use project_baracks.Resource.Limits.{available_memory_percent, current_resource_limits}
use project_baracks.Resource.Store.{
  prune, capacity_reason, promote_queued, lease_is_active, pid_alive, empty_reclaim_telemetry,
  count_reclaimed, reclaim_into,
}
use project_baracks.Resource.Operations.{by_id, admit_request}
use project_baracks.Resource.Leases.{renewed, update_first}
use project_baracks.Resource.Capacity.{promote_from_ind}
use project_baracks.Resource.Runs.{
  ResourceOp, release, apply, StoreRule, admit_ind, apply_ind, Reach, here, next,
}

-- `now` is `lease`, but that a heartbeat may have moved its times.
pub record Same (lease now : ResourceLease) : Type 0 where
  pub id : now.id ≡ lease.id
  pub fencing_token : now.fencing_token ≡ lease.fencing_token
  pub kind : now.kind ≡ lease.kind
  pub owner : now.owner ≡ lease.owner
  pub pid : now.pid ≡ lease.pid

abbrev pub Survives : ResourceLease → List ResourceLease → Type 0
Survives lease leases = Any (Same lease) leases

Survives-update_first :
    (h : Host) (p : ResourceLease → Bool) (ttl : Option ℕ) (lease : ResourceLease)
    (ls : List ResourceLease)
    → Survives lease ls
    → Survives lease (update_first p (renewed h ttl) ls)
unfolding update_first
Survives-update_first h p ttl lease [] s = s
Survives-update_first h p ttl lease (l ∷ ls) (inl s) = elim (Bool-cases (p l)) [
  | inl hit ↦ rw hit (
      inl (
        unfold renewed in
        record {
          id = s.id;
          fencing_token = s.fencing_token;
          kind = s.kind;
          owner = s.owner;
          pid = s.pid;
        }))
  | inr miss ↦ rw miss (inl s)
]
Survives-update_first h p ttl lease (l ∷ ls) (inr s) = elim (Bool-cases (p l)) [
  | inl hit ↦ rw hit (inr s)
  | inr miss ↦ rw miss (inr (Survives-update_first h p ttl lease ls s))
]

module _ (h : Host) (op : ResourceOp) (lease : ResourceLease) (alive : pid_alive h lease.pid ≡ true)
    (unreleased : (token : String) → op ≢ release lease.id token) where
  active_of_Same : (now : ResourceLease) → Same lease now → lease_is_active h now ≡ true
  unfolding lease_is_active
  active_of_Same now s = ground (arith, ap (pid_alive h) s.pid)

  kept_of_Same :
      (id token : String)
      → op ≡ release id token
      → (now : ResourceLease) → Same lease now
      → not (by_id id now) ≡ true
  kept_of_Same id token op_is now s = elim (Bool-cases (now.id == id)) [
    | inr other ↦ rw other
    | inl same ↦ absurd (
        unreleased token
          (op_is ∙ ap (λ i. release i token) (sym ((eq_iff now.id id).0 same) ∙ s.id)))
  ]

  survival : StoreRule h op (λ s. Survives lease s.leases)
  unfolding prune promote_queued
  survival = record {
    pruned = λ s held. Any-keep (Same lease) (lease_is_active h) s.leases active_of_Same held;
    granted = λ s held.
        promote_from_ind h (available_memory_percent h) (current_resource_limits h) (Survives lease)
          (λ l d r free held. Any-append_left (Same lease) l _ held) s.queue s.leases s.drawn held;
    renew = λ s p ttl held. Survives-update_first h p ttl lease s.leases held;
    released = λ s id token found now e match held.
        Any-keep (Same lease) (λ l. not (by_id id l)) s.leases (kept_of_Same id token now) held;
    drop_requests = λ s p held. held;
    admit = λ s r drawn unheld unqueued.
        admit_ind h (Survives lease) r (record s { drawn = drawn })
          (λ free held. Any-append_left (Same lease) s.leases _ held);
  }

-- No operation but the release of its own identifier takes the lease of a live process, however
-- long ago its time ran out: it keeps its identifier, fencing token, kind, owner and process.
pub apply-Survives :
    (h : Host) (op : ResourceOp) (s : ResourceStore) (lease : ResourceLease)
    → pid_alive h lease.pid ≡ true
    → ((token : String) → op ≢ release lease.id token)
    → Survives lease s.leases
    → Survives lease (apply h op s).leases
apply-Survives h op s lease alive unreleased held =
    apply_ind h op (survival h op lease alive unreleased) s held

-- How many leases have been reclaimed, one way or the other.
abbrev pub reclaims : ResourceStore → ReclaimTelemetry
reclaims s = get_or s.reclaim_telemetry empty_reclaim_telemetry

abbrev IsBalanced : ResourceStore → Type 0
IsBalanced s = (reclaims s).expired + (reclaims s).dead_process ≡ (reclaims s).total

length-keep-split :
    (p : ResourceLease → Bool) (ls : List ResourceLease)
    → length (keep p ls) + length (keep (λ l. not (p l)) ls) ≡ length ls
length-keep-split p [] = omega arith
length-keep-split p (l ∷ ls) = ground (arith, length-keep-split p ls)

module _ (now : ℕ) (prior : Option ReclaimTelemetry) where
  abbrev counted : List ResourceLease → ReclaimTelemetry
  counted xs = get_or (reclaim_into now xs prior) empty_reclaim_telemetry

  total-reclaim_into :
      (xs : List ResourceLease)
      → (counted xs).total ≡ length xs + (get_or prior empty_reclaim_telemetry).total
  unfolding count_reclaimed
  total-reclaim_into [] = omega arith
  total-reclaim_into (x ∷ xs) = omega arith

  balanced-reclaim_into :
      (xs : List ResourceLease)
      → (get_or prior empty_reclaim_telemetry).expired
          + (get_or prior empty_reclaim_telemetry).dead_process
        ≡ (get_or prior empty_reclaim_telemetry).total
      → (counted xs).expired + (counted xs).dead_process ≡ (counted xs).total
  unfolding count_reclaimed
  balanced-reclaim_into [] b = b
  balanced-reclaim_into (x ∷ xs) b = omega (arith, length-keep-split (λ l. is_some l.pid) (x ∷ xs))

-- Reclaiming accounts for every lease that it takes: what is left and what has ever been reclaimed
-- are together what there was, and the two causes still add up to the total.
prune-accounts :
    (h : Host) (s : ResourceStore)
    → (length (prune h s).leases + (reclaims (prune h s)).total
        ≡ length s.leases + (reclaims s).total)
      × (IsBalanced s → IsBalanced (prune h s))
unfolding prune
prune-accounts h s =
    let taken = keep (λ l. not (lease_is_active h l)) s.leases in
    (
      omega (
        arith,
        total-reclaim_into h.now s.reclaim_telemetry taken,
        length-keep-split (lease_is_active h) s.leases,
      ),
      balanced-reclaim_into h.now s.reclaim_telemetry taken,
    )

balance : (h : Host) (op : ResourceOp) → StoreRule h op IsBalanced
unfolding promote_queued admit_request
balance h op = record {
  pruned = λ s b. (prune-accounts h s).1 b;
  granted = λ s b. b;
  renew = λ s p ttl b. b;
  released = λ s id token lease now e match b. b;
  drop_requests = λ s p b. b;
  admit = λ s r drawn unheld unqueued b.
      elim (Bool-cases (
        is_some (
          capacity_reason s.leases r.kind (available_memory_percent h)
            (current_resource_limits h)))) [ inl full ↦ rw full b | inr free ↦ rw free b ];
}

-- In every store that operations reach from a balanced one, the leases reclaimed as expired and
-- those reclaimed for a dead process add up to the total that the telemetry reports.
Reach-IsBalanced : {s t : ResourceStore} → IsBalanced s → Reach s t → IsBalanced t
Reach-IsBalanced b here = b
Reach-IsBalanced b (next r h op) = apply_ind h op (balance h op) _ (Reach-IsBalanced b r)
