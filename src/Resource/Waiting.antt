-- ===== src/Resource/Waiting.antt =====
-- The wait for a queued request (src/supervisor/resources.ts, waitForResource): the loop and
-- its turns.
use project_baracks.Prelude.{
  ◌⊎◌, ℕ, zero, suc, ◌+◌, ◌<◌, ◌≤◌, ◌≡◌, refl, inl, inr, true, false, not, List, [], ◌∷◌, Mem,
  arith, any, keep, find, find-Mem, Bool-cases, Option-cases, Option, none, some, leb, ◌==◌,
  Eq-String, String, subst, Bool,
}
use project_baracks.Resource.Types.{
  ResourceLimits, ResourceError, ResourceLease, QueuedResourceRequest, ResourceStore, Host, Result,
  ok, err,
}
use project_baracks.Resource.Turn.{turn, promote_from-nil, drops, passes, stops, grants}
use project_baracks.Resource.Limits.{available_memory_percent, current_resource_limits}
use project_baracks.Resource.Store.{promote_from, promote_queued, prune}
use project_baracks.Resource.Operations.{refresh, with_store_lock}
use project_baracks.Resource.Leases.{
  WaitStep, found, failed, sleep, granted_to, wait_turn, cancel_resource_request,
}

-- The loop from its turn `n` on. Turn n runs on the host `at n`; while it sleeps the other
-- processes change the store by `others n`. It is `none` where the fuel does not suffice.
unfoldable pub wait_from :
    (at : ℕ → Host) (others : ℕ → ResourceStore → ResourceStore)
    → QueuedResourceRequest
    → (deadline fuel n : ℕ) → ResourceStore
    → Option (ResourceStore × Result ResourceLease)
wait_from at others request deadline zero n s = none
wait_from at others request deadline (suc fuel) n s =
    let (s', step) = wait_turn (at n) request deadline s in
    elim step [
      | found lease ↦ some (s', ok lease)
      | failed e ↦ some (s', err e)
      | sleep ↦ wait_from at others request deadline fuel (suc n) (others n s')
    ]

-- One turn for each millisecond and one more: enough where each turn takes at least one.
unfoldable pub wait_for_resource :
    (at : ℕ → Host) (others : ℕ → ResourceStore → ResourceStore)
    → QueuedResourceRequest
    → (timeout_ms : ℕ) → ResourceStore
    → Option (ResourceStore × Result ResourceLease)
wait_for_resource at others request timeout_ms s =
    wait_from at others request ((at 0).now + timeout_ms) (suc timeout_ms) 0 s

any-promote_from :
    (p : QueuedResourceRequest → Bool) (h : Host) (memory : ℕ) (limits : ResourceLimits)
    → (queue : List QueuedResourceRequest) (leases : List ResourceLease) (drawn : ℕ)
    → any p queue ≡ false
    → any p (promote_from h memory limits leases drawn queue).1 ≡ false
any-promote_from p h memory limits [] leases drawn e =
    rw (promote_from-nil h memory limits leases drawn) refl
any-promote_from p h memory limits (r ∷ rest) leases drawn e =
    elim (turn h memory limits leases drawn r rest) [
      | drops _ f ↦ rw f (any-promote_from p h memory limits rest leases drawn (ground arith))
      | passes _ f ↦
          rw f (ground (arith, any-promote_from p h memory limits rest leases drawn (ground arith)))
      | stops _ f ↦ rw f e
      | grants _ _ f ↦ rw f (any-promote_from p h memory limits rest _ (suc drawn) (ground arith))
    ]

any-removed :
    (id : String) (queue : List QueuedResourceRequest)
    → any (λ r. r.id == id) (keep (λ r. not (r.id == id)) queue) ≡ false
any-removed id [] = refl
any-removed id (r ∷ queue) = ground (arith, any-removed id queue)

-- A request that is cancelled has left the queue.
cancel_leaves :
    (h : Host) (id : String) (s : ResourceStore)
    → any (λ r. r.id == id) (cancel_resource_request h id s).0.queue ≡ false
unfolding cancel_resource_request with_store_lock promote_queued
cancel_leaves h id s =
    any-promote_from (λ r. r.id == id) h (available_memory_percent h) (current_resource_limits h)
      (keep (λ r. not (r.id == id)) (prune h s).queue) (prune h s).leases (prune h s).drawn
      (any-removed id (prune h s).queue)

-- What a turn may end with: a lease of the store with the request's token, owner and kind, a
-- failure that leaves no request of this id in the queue, or a sleep before the deadline.
Ends : (now deadline : ℕ) → QueuedResourceRequest → ResourceStore → WaitStep → Type 0
Ends now deadline request s (found lease) = Mem lease s.leases × (granted_to request lease ≡ true)
Ends now deadline request s (failed e) = any (λ r. r.id == request.id) s.queue ≡ false
Ends now deadline request s sleep = now < deadline

wait_turn-Ends :
    (h : Host) (request : QueuedResourceRequest) (deadline : ℕ) (s : ResourceStore)
    → Ends h.now deadline request
        (wait_turn h request deadline s).0
        (wait_turn h request deadline s).1
unfolding Ends wait_turn
wait_turn-Ends h request deadline s =
    let s' : ResourceStore = refresh h s in
    elim (Option-cases (find (granted_to request) s'.leases)) [
      | inr (lease, e) ↦ rw (e, wait_turn) (find-Mem (granted_to request) lease s'.leases e)
      | inl e ↦ elim (Bool-cases (any (λ r. r.id == request.id) s'.queue)) [
        | inr gone ↦ rw (e, gone, wait_turn) gone
        | inl queued ↦ elim (Bool-cases (leb deadline h.now)) [
          | inl late ↦ rw (e, queued, late, wait_turn) (cancel_leaves h request.id s')
          | inr early ↦ rw (e, queued, early, wait_turn) (ground arith)
        ]
      ]
    ]

-- What the wait returns: a lease of the store with the request's token, owner and kind, or an error
-- with no request of this id left in the queue.
unfoldable pub Settled : QueuedResourceRequest → ResourceStore × Result ResourceLease → Type 0
Settled request (s, ok lease) = Mem lease s.leases × (granted_to request lease ≡ true)
Settled request (s, err e) = any (λ r. r.id == request.id) s.queue ≡ false

step_cases :
    (step : WaitStep)
    → ((lease : ResourceLease) × (step ≡ found lease))
      ⊎ (((e : ResourceError) × (step ≡ failed e)) ⊎ (step ≡ sleep))
step_cases (found lease) = inl (lease, refl)
step_cases (failed e) = inr (inl (e, refl))
step_cases sleep = inr (inr refl)

module _ (at : ℕ → Host) (others : ℕ → ResourceStore → ResourceStore)
    (ticks : (n : ℕ) → (at n).now < (at (suc n)).now) (request : QueuedResourceRequest)
    (deadline : ℕ) where
  Returns : (fuel n : ℕ) → ResourceStore → Type 0
  Returns fuel n s =
      (out : ResourceStore × Result ResourceLease) × (wait_from at others request deadline fuel n s
        ≡ some out)
      × Settled request out

  -- A turn returns, or it sleeps before the deadline and the next turn returns.
  turn-Returns :
      (fuel n : ℕ) (s : ResourceStore)
      → ((at n).now < deadline
          → Returns fuel (suc n) (others n (wait_turn (at n) request deadline s).0))
      → Returns (suc fuel) n s
  unfolding Returns wait_from Settled Ends
  turn-Returns fuel n s next =
      let s' : ResourceStore = (wait_turn (at n) request deadline s).0 in
      let step : WaitStep = (wait_turn (at n) request deadline s).1 in
      let ends : Ends (at n).now deadline request s' step =
        wait_turn-Ends (at n) request deadline s in
      let ended : (step' : WaitStep) → step ≡ step' → Ends (at n).now deadline request s' step' =
        λ step' e. subst (Ends (at n).now deadline request s') e ends in
      elim (step_cases step) [
        | inl (lease, e) ↦ ((s', ok lease), rw (wait_from, e) refl, ended (found lease) e)
        | inr (inl (x, e)) ↦ ((s', err x), rw (wait_from, e) refl, ended (failed x) e)
        | inr (inr e) ↦
            let (out, f, settled) = next (ended sleep e) in (out, rw (wait_from, e) f, settled)
      ]

  -- With as many turns as milliseconds are left, and one more, the wait returns.
  wait_from-Returns :
      (fuel n : ℕ) (s : ResourceStore) → deadline ≤ (at n).now + fuel → Returns (suc fuel) n s
  wait_from-Returns zero n s enough = turn-Returns zero n s (λ early. absurd (omega arith))
  wait_from-Returns (suc fuel) n s enough = turn-Returns (suc fuel) n s (λ early.
      let tick : (at n).now < (at (suc n)).now = ticks n in
      wait_from-Returns fuel (suc n) (others n (wait_turn (at n) request deadline s).0)
        (omega arith))

-- When the clock advances at every turn, the wait ends, whatever other processes do in between:
-- with a lease of the store that has the request's token, owner and kind, or with an error and no
-- request of this id left in the queue.
pub wait_for_resource-Settled :
    (at : ℕ → Host) (others : ℕ → ResourceStore → ResourceStore) (request : QueuedResourceRequest)
    (timeout_ms : ℕ) (s : ResourceStore)
    → ((n : ℕ) → (at n).now < (at (suc n)).now)
    → (out : ResourceStore × Result ResourceLease) × (wait_for_resource at others request timeout_ms
          s
        ≡ some out)
      × Settled request out
unfolding wait_for_resource Returns
wait_for_resource-Settled at others request timeout_ms s ticks =
    wait_from-Returns at others ticks request ((at 0).now + timeout_ms) timeout_ms 0 s (omega arith)
