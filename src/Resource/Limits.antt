-- ===== src/Resource/Limits.antt =====
-- Live limits from the host's capacity (src/supervisor/resources.ts). The source divides in
-- floating point; here the same quotients are exact. The percentages are whole numbers.
use project_baracks.Prelude.{
  ℕ, ◌+◌, ◌-◌, ◌*◌, ◌/◌, min, max, Option, none, some, get_or, ltb, if◌then◌else◌,
}
use project_baracks.Resource.Types.{Host, ResourceLimits}

-- `Math.round((freemem() / totalmem()) * 100)` in the last line.
unfoldable pub available_memory_percent : Host → ℕ
available_memory_percent h =
    let measured = (200 * h.freemem + h.totalmem) / (2 * h.totalmem) in
    elim h.env_memory_available_percent [
      | some n ↦ min 100 n
      | none ↦ get_or h.system_memory_available_percent measured
    ]

unfoldable pub env_positive_int : Option ℕ → Option ℕ
env_positive_int none = none
env_positive_int (some n) = if ltb 0 n then some n else none

abbrev pub soft_memory_floor : ℕ
soft_memory_floor = 25

abbrev worker_memory_estimate_bytes : ℕ
worker_memory_estimate_bytes = 256 * 1024 * 1024

abbrev browser_memory_estimate_bytes : ℕ
browser_memory_estimate_bytes = 768 * 1024 * 1024

abbrev build_memory_estimate_bytes : ℕ
build_memory_estimate_bytes = 2048 * 1024 * 1024

unfoldable pub worker_memory_estimate : Host → ℕ
worker_memory_estimate h = elim (env_positive_int h.env_worker_memory_mb) [
  | some mb ↦ mb * 1024 * 1024
  | none ↦ worker_memory_estimate_bytes
]

-- How many leases of `estimate` bytes fit into the memory above the soft floor; one at least.
unfoldable pub fit : Host → ℕ → ℕ
fit h estimate =
    max 1 ((available_memory_percent h - soft_memory_floor) * h.totalmem / (100 * estimate))

unfoldable pub current_resource_limits : Host → ResourceLimits
current_resource_limits h =
    let workers = get_or (env_positive_int h.env_worker_limit) (fit h (worker_memory_estimate h)) in
    let browsers = fit h browser_memory_estimate_bytes in
    let builds = min (fit h build_memory_estimate_bytes) (max 1 (h.available_parallelism / 2)) in
    record {
      total = workers + browsers + builds;
      workers = workers;
      browsers = browsers;
      builds = builds;
      max_subagent_depth = env_positive_int h.env_max_subagent_depth;
      soft_memory_available_percent = soft_memory_floor;
    }
