-- ===== src/Goals/Live.antt =====
-- The one interactive session that does a goal's live work (src/supervisor/state.ts, claimLiveWorker
-- and heartbeatLiveWorker).
use project_baracks.Prelude.{
  ℕ, ◌+◌, ◌*◌, ◌==◌, Eq-ℕ, leb, Text, Eq-Text, Bool, true, false, not, ◌&&◌, Option, none, some,
  List, [], ◌∷◌, find, if◌then◌else◌,
}
use project_baracks.Goals.Types.{LiveWorkerClaim, SupervisorGoal}

abbrev pub live_worker_stale_ms : ℕ
live_worker_stale_ms = 45 * 60 * 1000

-- `now - heartbeat <= stale`
abbrev pub is_live_worker_fresh : ℕ → LiveWorkerClaim → Bool
is_live_worker_fresh now claim = leb now (claim.heartbeat_at + live_worker_stale_ms)

pub record SessionRef : Type 0 where
  pub host : Text
  pub session_id : Text

unfoldable pub is_session : SessionRef → LiveWorkerClaim → Bool
is_session input claim = claim.session_id == input.session_id && claim.host == input.host

unfoldable pub update_first : {A : Type 0} → (A → Bool) → (A → A) → List A → List A
update_first p f [] = []
update_first p f (x ∷ xs) = let rest = update_first p f xs in if p x then f x ∷ xs else x ∷ rest

abbrev pub by_id : ℕ → SupervisorGoal → Bool
by_id id g = g.id == id

-- The claim after a request: the holder keeps one that is fresh and another's.
unfoldable pub next_claim : (now : ℕ) → SessionRef → Option LiveWorkerClaim → LiveWorkerClaim × Bool
next_claim now input none = (
  record { host = input.host; session_id = input.session_id; claimed_at = now; heartbeat_at = now },
  true,
)
next_claim now input (some existing) =
    if not (is_session input existing) && is_live_worker_fresh now existing
    then (existing, false)
    else (
      record {
        host = input.host;
        session_id = input.session_id;
        claimed_at = if is_session input existing then existing.claimed_at else now;
        heartbeat_at = now;
      },
      true,
    )

abbrev pub with_claim : (now : ℕ) → LiveWorkerClaim × Bool → SupervisorGoal → SupervisorGoal
with_claim now (claim, true) g = record g { live_worker = some claim; updated_at = now }
with_claim now (claim, false) g = g

-- The goal may be missing, which throws.
unfoldable pub claim_live_worker :
    (goal_id now : ℕ)
    → SessionRef
    → List SupervisorGoal
    → List SupervisorGoal × Option (LiveWorkerClaim × Bool)
claim_live_worker goal_id now input goals = elim (find (by_id goal_id) goals) [
  | none ↦ (goals, none)
  | some g ↦ (
    update_first (by_id goal_id) (with_claim now (next_claim now input g.live_worker)) goals,
    some (next_claim now input g.live_worker),
  )
]

abbrev pub refreshed : (now : ℕ) → SessionRef → SupervisorGoal → SupervisorGoal
refreshed now input g = elim g.live_worker [
  | none ↦ g
  | some claim ↦
      if is_session input claim
      then record g { live_worker = some (record claim { heartbeat_at = now }); updated_at = now }
      else g
]

abbrev pub holds : SessionRef → SupervisorGoal → Bool
holds input g = elim g.live_worker [ none ↦ false | some claim ↦ is_session input claim ]

unfoldable pub heartbeat_live_worker :
    (goal_id now : ℕ) → SessionRef → List SupervisorGoal → List SupervisorGoal × Bool
heartbeat_live_worker goal_id now input goals = elim (find (by_id goal_id) goals) [
  | none ↦ (goals, false)
  | some g ↦ (update_first (by_id goal_id) (refreshed now input) goals, holds input g)
]
