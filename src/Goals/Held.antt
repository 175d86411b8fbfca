-- ===== src/Goals/Held.antt =====
-- A live claim is not taken over while it is fresh (src/supervisor/state.ts, claimLiveWorker and
-- heartbeatLiveWorker).
use project_baracks.Prelude.{
  ◌≡◌, ◌≤◌, ◌+◌, refl, sym, ap, ◌∙◌, subst, inl, inr, arith, ℕ, ◌==◌, Eq-ℕ, nat_eq_iff, Eq-Text,
  text_eq_iff, Bool, true, false, ◌&&◌, some, List, [], ◌∷◌, find, All, Bool-cases, Option-cases,
}
use mathlib.Core.Option.{some-injective}
use project_baracks.Goals.Types.{LiveWorkerClaim, SupervisorGoal}
use project_baracks.Goals.Live.{
  live_worker_stale_ms, is_live_worker_fresh, SessionRef, is_session, update_first, by_id,
  next_claim, with_claim, claim_live_worker, refreshed, heartbeat_live_worker,
}

pub data LiveOp : Type 0 where
  claim : (goal_id now : ℕ) → SessionRef → LiveOp
  heartbeat : (goal_id now : ℕ) → SessionRef → LiveOp

abbrev time_of : LiveOp → ℕ
time_of (claim goal_id now input) = now
time_of (heartbeat goal_id now input) = now

unfoldable pub apply : LiveOp → List SupervisorGoal → List SupervisorGoal
apply (claim goal_id now input) goals = (claim_live_worker goal_id now input goals).0
apply (heartbeat goal_id now input) goals = (heartbeat_live_worker goal_id now input goals).0

unfoldable pub run : List LiveOp → List SupervisorGoal → List SupervisorGoal
run [] goals = goals
run (op ∷ ops) goals = run ops (apply op goals)

-- The session holds the goal's claim, with a heartbeat no earlier than `since`.
unfoldable pub IsHeld : (goal_id since : ℕ) → SessionRef → List SupervisorGoal → Type 0
IsHeld goal_id since holder goals =
    (g : SupervisorGoal) × (c : LiveWorkerClaim) × (find (by_id goal_id) goals ≡ some g)
    × (g.live_worker ≡ some c)
    × (is_session holder c ≡ true)
    × (since ≤ c.heartbeat_at)

find-updated :
    (id : ℕ) (f : SupervisorGoal → SupervisorGoal) (g : SupervisorGoal)
    (goals : List SupervisorGoal)
    → ((x : SupervisorGoal) → (f x).id ≡ x.id)
    → find (by_id id) goals ≡ some g
    → find (by_id id) (update_first (by_id id) f goals) ≡ some (f g)
unfolding update_first
find-updated id f g [] keeps h = absurd (ground arith)
find-updated id f g (x ∷ xs) keeps h = elim (Bool-cases (x.id == id)) [
  | inl e ↦
      let here : x ≡ g = some-injective x g (ground (arith, e)) in
      let still : (f x).id ≡ id = keeps x ∙ (nat_eq_iff x.id id).0 e in
      rw (e, (nat_eq_iff (f x).id id).1 still) (ap (λ y. some (f y)) here)
  | inr e ↦ ground (arith, e, find-updated id f g xs keeps)
]

find-other :
    (id other : ℕ) (f : SupervisorGoal → SupervisorGoal) (goals : List SupervisorGoal)
    → ((x : SupervisorGoal) → (f x).id ≡ x.id)
    → (other == id) ≡ false
    → find (by_id id) (update_first (by_id other) f goals) ≡ find (by_id id) goals
unfolding update_first
find-other id other f [] keeps apart = refl
find-other id other f (x ∷ xs) keeps apart = ground (
  arith,
  keeps x,
  nat_eq_iff x.id other,
  nat_eq_iff other id,
  find-other id other f xs keeps apart,
)

-- An update that keeps every holder's claim keeps this one's.
update-IsHeld :
    (goal_id since other : ℕ) (holder : SessionRef) (f : SupervisorGoal → SupervisorGoal)
    (goals : List SupervisorGoal)
    → ((x : SupervisorGoal) → (f x).id ≡ x.id)
    → ((g : SupervisorGoal) (c : LiveWorkerClaim)
        → find (by_id other) goals ≡ some g
        → g.live_worker ≡ some c
        → is_session holder c ≡ true
        → since ≤ c.heartbeat_at
        → (d : LiveWorkerClaim) × ((f g).live_worker ≡ some d)
          × (is_session holder d ≡ true)
          × (since ≤ d.heartbeat_at))
    → IsHeld goal_id since holder goals
    → IsHeld goal_id since holder (update_first (by_id other) f goals)
unfolding IsHeld
update-IsHeld goal_id since other holder f goals keeps holds (g, c, found, its, mine, fresh) =
    elim (Bool-cases (other == goal_id)) [
      | inr apart ↦ (g, c, find-other goal_id other f goals keeps apart ∙ found, its, mine, fresh)
      | inl e ↦
          let same : other ≡ goal_id = (nat_eq_iff other goal_id).0 e in
          let there : find (by_id other) goals ≡ some g =
            subst (λ i. find (by_id i) goals ≡ some g) (sym same) found in
          let (d, now_its, still, later) = holds g c there its mine fresh in
          (
            f g,
            d,
            subst (λ i. find (by_id i) (update_first (by_id other) f goals) ≡ some (f g)) same
                (find-updated other f g goals keeps there),
            now_its,
            still,
            later,
          )
    ]

with_claim-id :
    (now : ℕ) (out : LiveWorkerClaim × Bool) (g : SupervisorGoal) → (with_claim now out g).id ≡ g.id
with_claim-id now (c, true) g = refl
with_claim-id now (c, false) g = refl

refreshed-id :
    (now : ℕ) (input : SessionRef) (g : SupervisorGoal) → (refreshed now input g).id ≡ g.id
refreshed-id now input g = elim (Option-cases g.live_worker) [
  | inl e ↦ rw e refl
  | inr (c, e) ↦ elim (Bool-cases (is_session input c)) [
    | inl f ↦ rw (e, f) refl
    | inr f ↦ rw (e, f) refl
  ]
]

same_session :
    (holder input : SessionRef) (c : LiveWorkerClaim)
    → is_session holder c ≡ true
    → is_session input c ≡ true
    → (input.session_id == holder.session_id && input.host == holder.host) ≡ true
unfolding is_session
same_session holder input c h k = ground (
  arith,
  text_eq_iff c.session_id holder.session_id,
  text_eq_iff c.session_id input.session_id,
  text_eq_iff c.host holder.host,
  text_eq_iff c.host input.host,
  text_eq_iff input.session_id holder.session_id,
  text_eq_iff input.host holder.host,
)

claimed-holds :
    (since now : ℕ) (holder input : SessionRef) (g : SupervisorGoal) (c : LiveWorkerClaim)
    → since ≤ now
    → now ≤ since + live_worker_stale_ms
    → g.live_worker ≡ some c
    → is_session holder c ≡ true
    → since ≤ c.heartbeat_at
    → (d : LiveWorkerClaim) × ((with_claim now (next_claim now input g.live_worker) g).live_worker
        ≡ some d)
      × (is_session holder d ≡ true)
      × (since ≤ d.heartbeat_at)
unfolding next_claim
claimed-holds since now holder input g c after before its mine fresh =
    let live : is_live_worker_fresh now c ≡ true = ground arith in
    elim (Bool-cases (is_session input c)) [
      | inr other ↦ (c, rw (its, next_claim, other, live) refl, mine, fresh)
      | inl same ↦ (
        record {
          host = input.host;
          session_id = input.session_id;
          claimed_at = c.claimed_at;
          heartbeat_at = now;
        },
        rw (its, next_claim, same) refl,
        unfold is_session in same_session holder input c mine same,
        after,
      )
    ]

refreshed-holds :
    (since now : ℕ) (holder input : SessionRef) (g : SupervisorGoal) (c : LiveWorkerClaim)
    → since ≤ now
    → g.live_worker ≡ some c
    → is_session holder c ≡ true
    → since ≤ c.heartbeat_at
    → (d : LiveWorkerClaim) × ((refreshed now input g).live_worker ≡ some d)
      × (is_session holder d ≡ true)
      × (since ≤ d.heartbeat_at)
refreshed-holds since now holder input g c after its mine fresh =
    elim (Bool-cases (is_session input c)) [
      | inr other ↦ (c, rw (its, other) refl, mine, fresh)
      | inl same ↦
          (record c { heartbeat_at = now }, rw (its, same) refl, unfold is_session in mine, after)
    ]

-- The operation happens no earlier than `since`, and no later than a claim of then stays fresh.
abbrev WithinWindow : ℕ → LiveOp → Type 0
WithinWindow since op = (since ≤ time_of op) × (time_of op ≤ since + live_worker_stale_ms)

apply-IsHeld :
    (goal_id since : ℕ) (holder : SessionRef) (op : LiveOp) (goals : List SupervisorGoal)
    → WithinWindow since op
    → IsHeld goal_id since holder goals
    → IsHeld goal_id since holder (apply op goals)
unfolding apply claim_live_worker heartbeat_live_worker
apply-IsHeld goal_id since holder (claim other now input) goals (after, before) held =
    elim (Option-cases (find (by_id other) goals)) [
      | inl e ↦ rw (e, apply, claim_live_worker) held
      | inr (x, e) ↦
          rw (e, apply, claim_live_worker)
            (update-IsHeld goal_id since other holder
              (with_claim now (next_claim now input x.live_worker)) goals
              (with_claim-id now (next_claim now input x.live_worker))
              (λ g c there its mine fresh.
                subst
                  (λ (y : SupervisorGoal).
                    (d : LiveWorkerClaim) × ((with_claim now (next_claim now input y.live_worker)
                        g).live_worker
                      ≡ some d)
                    × (is_session holder d ≡ true)
                    × (since ≤ d.heartbeat_at))
                  (some-injective g x (sym there ∙ e))
                  (claimed-holds since now holder input g c after before its mine fresh))
              held)
    ]
apply-IsHeld goal_id since holder (heartbeat other now input) goals (after, before) held =
    elim (Option-cases (find (by_id other) goals)) [
      | inl e ↦ rw (e, apply, heartbeat_live_worker) held
      | inr (x, e) ↦
          rw (e, apply, heartbeat_live_worker)
            (update-IsHeld goal_id since other holder (refreshed now input) goals
              (refreshed-id now input)
              (λ g c there its mine fresh.
                refreshed-holds since now holder input g c after its mine fresh)
              held)
    ]

-- A session whose last heartbeat is at `since` or later keeps its claim on the goal through any
-- claims and heartbeats of any sessions that happen while it is fresh: none takes it over.
pub run-IsHeld :
    (goal_id since : ℕ) (holder : SessionRef) (ops : List LiveOp) (goals : List SupervisorGoal)
    → All (WithinWindow since) ops
    → IsHeld goal_id since holder goals
    → IsHeld goal_id since holder (run ops goals)
unfolding run
run-IsHeld goal_id since holder [] goals timed held = held
run-IsHeld goal_id since holder (op ∷ ops) goals timed held =
    run-IsHeld goal_id since holder ops (apply op goals) timed.1
      (apply-IsHeld goal_id since holder op goals timed.0 held)
