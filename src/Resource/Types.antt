-- ===== src/Resource/Types.antt =====
-- The data of src/supervisor/resources.ts. A time is the number of milliseconds that the source
-- writes as an ISO text and reads back by `Date.parse`; a message is a constructor that holds what
-- the text is made of.
use project_baracks.Prelude.{
  ℕ, ◌*◌, String, Bool, true, false, Option, none, some, List, ◌≡◌, ◌↔◌, arith, Eq, Eq-String, ◌==◌,
  if◌then◌else◌,
}

pub data ResourceKind : Type 0 where
  worker browser build : ResourceKind

abbrev pub kind_eq : ResourceKind → ResourceKind → Bool
kind_eq worker worker = true
kind_eq browser browser = true
kind_eq build build = true
kind_eq _ _ = false

pub kind_eq_iff : (a b : ResourceKind) → (kind_eq a b ≡ true) ↔ (a ≡ b)
kind_eq_iff a b = ground arith

instance abbrev pub Eq-ResourceKind : Eq ResourceKind
Eq-ResourceKind = record { equals = kind_eq; equals_iff = kind_eq_iff }

-- `none` in `max_subagent_depth` is `Number.POSITIVE_INFINITY`.
pub record ResourceLimits : Type 0 where
  pub total : ℕ
  pub workers : ℕ
  pub browsers : ℕ
  pub builds : ℕ
  pub max_subagent_depth : Option ℕ
  pub soft_memory_available_percent : ℕ

pub record ResourceLease : Type 0 where
  pub id : String
  pub task_id : String
  pub resource_id : String
  pub fencing_token : String
  pub kind : ResourceKind
  pub owner : String
  pub project : Option String
  pub parent_lease_id : Option String
  pub depth : ℕ
  pub pid : Option ℕ
  pub created_at : ℕ
  pub heartbeat_at : ℕ
  pub ttl_ms : ℕ
  pub expires_at : ℕ
  pub grace_ms : ℕ
  pub reclaim_after : ℕ

-- Why a request waits.
pub data CapacityReason : Type 0 where
  below_soft_floor : (available floor : ℕ) → CapacityReason
  total_cap : (cap : ℕ) → CapacityReason
  kind_cap : ResourceKind → (cap : ℕ) → CapacityReason

-- `none` in `reason` is the empty text.
pub record QueuedResourceRequest : Type 0 where
  pub id : String
  pub task_id : String
  pub resource_id : String
  pub fencing_token : String
  pub kind : ResourceKind
  pub owner : String
  pub project : Option String
  pub parent_lease_id : Option String
  pub depth : ℕ
  pub pid : Option ℕ
  pub ttl_ms : ℕ
  pub requested_at : ℕ
  pub reason : Option CapacityReason

pub record ReclaimTelemetry : Type 0 where
  pub total : ℕ
  pub expired : ℕ
  pub dead_process : ℕ
  pub last_reclaimed_at : Option ℕ
  pub last_reclaimed_lease_ids : List String

-- `drawn` is the state of `randomUUID`: how many identifiers have been drawn so far.
pub record ResourceStore : Type 0 where
  pub leases : List ResourceLease
  pub queue : List QueuedResourceRequest
  pub reclaim_telemetry : Option ReclaimTelemetry
  pub drawn : ℕ

pub record Usage : Type 0 where
  pub active : ℕ
  pub limit : ℕ

pub record ResourceTelemetry : Type 0 where
  pub workers : Usage
  pub browsers : Usage
  pub builds : Usage
  pub total : Usage
  pub queued : ℕ
  pub memory_available_percent : ℕ
  pub memory_soft_floor_percent : ℕ
  pub reclaims : ReclaimTelemetry

pub data Rejection : Type 0 where
  parent_of_non_worker : Rejection
  parent_not_active : String → Rejection
  too_deep : (depth : ℕ) (cap : ℕ) → Rejection

pub data ResourceRequestResult : Type 0 where
  active : ResourceLease → ResourceTelemetry → ResourceRequestResult
  queued : QueuedResourceRequest → ResourceTelemetry → ResourceRequestResult
  rejected : Rejection → ResourceTelemetry → ResourceRequestResult

-- What the operations throw.
pub data ResourceError : Type 0 where
  bad_ttl : ResourceError
  not_active not_current owns_child request_gone wait_timed_out : String → ResourceError
  not_fence : ResourceKind → String → ResourceError

pub data Result {ℓ} (A : Type ℓ) : Type ℓ where
  ok : A → Result A
  err : ResourceError → Result A

-- What the process reads of its host during one operation. One operation reads one instant.
-- An `env_` field is the number that the environment variable's text starts with, if it does.
pub record Host : Type 0 where
  pub now : ℕ
  pub alive : ℕ → Bool
  pub uuid : ℕ → String
  pub env_memory_available_percent : Option ℕ
  pub system_memory_available_percent : Option ℕ
  pub freemem : ℕ
  pub totalmem : ℕ
  pub available_parallelism : ℕ
  pub env_worker_limit : Option ℕ
  pub env_worker_memory_mb : Option ℕ
  pub env_max_subagent_depth : Option ℕ
  pub env_resource_lease_id : Option String

abbrev pub default_ttl_ms : ResourceKind → ℕ
default_ttl_ms worker = 30 * 60 * 1000
default_ttl_ms browser = 15 * 60 * 1000
default_ttl_ms build = 20 * 60 * 1000

abbrev pub reclaim_grace_ms : ℕ
reclaim_grace_ms = 60_000

-- An optional text in a test: the empty text counts as absent.
abbrev pub truthy : Option String → Option String
truthy none = none
truthy (some s) = if s == "" then none else some s
