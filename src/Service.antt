-- ===== src/Service.antt =====
-- internal/api/service.go, saveReservedAllocation: the limits under which the service saves an
-- allocation that the scheduler reserved. The broker's own limits of backends are an argument.
pub mod Limits
pub mod Filters
pub mod Lifecycle
pub mod Queue
use unified_ephemeral_runner.Common.{
  ℕ, ◌&&◌, ◌||◌, Option, none, some, ◌==◌, string_eq, nat_eq, pair_eq, Dict, get, if◌then◌else◌,
  eqb, ltb, or_zero,
}
use unified_ephemeral_runner.Common.Text.{trim_space}
use unified_ephemeral_runner.Model.{
  BackendName, BackendConfig, FairShareConfig, PoolConfig, AllocationStatus, quota,
}
use unified_ephemeral_runner.Scheduler.FairShare.Lanes.{effective_max_runners}
use unified_ephemeral_runner.Store.{StoreError, Memory, save_if_capacity}

-- The fields of a configured backend, and Go's zero for one that is not configured.
abbrev pub max_runners_of : PoolConfig → BackendName → ℕ
max_runners_of pool backend = elim (get pool.backends backend) [
  | none ↦ 0
  | some cfg ↦ cfg.max_runners
]

abbrev pub cross_pool_of : PoolConfig → BackendName → ℕ
cross_pool_of pool backend = elim (get pool.backends backend) [
  | none ↦ 0
  | some cfg ↦ cfg.cross_pool_max_runners
]

-- maxRunners, after the soft reserves
unfoldable pub saved_max_runners : PoolConfig → AllocationStatus → ℕ
saved_max_runners pool allocation =
    let configured = max_runners_of pool allocation.selected_backend in
    if pool.fair_share.enabled
    then effective_max_runners configured pool.fair_share allocation.priority_class
    else configured

-- tenantQuota
unfoldable pub saved_tenant_quota : PoolConfig → AllocationStatus → ℕ
saved_tenant_quota pool allocation =
    let trimmed = trim_space allocation.tenant in
    let tenant = if trimmed == "" then "default" else trimmed in
    if pool.fair_share.enabled then or_zero (quota pool.fair_share tenant) else 0

-- backendLimit
unfoldable pub saved_backend_limit : Dict BackendName ℕ → PoolConfig → AllocationStatus → ℕ
saved_backend_limit backend_limits pool allocation =
    let configured = cross_pool_of pool allocation.selected_backend in
    let limit = or_zero (get backend_limits allocation.selected_backend) in
    if ltb 0 limit && (eqb configured 0 || ltb limit configured) then limit else configured

-- saveReservedAllocation
unfoldable pub save_reserved_allocation :
    Dict BackendName ℕ → Memory → AllocationStatus → PoolConfig → Memory × Option StoreError
save_reserved_allocation backend_limits m allocation pool =
    save_if_capacity m allocation (saved_max_runners pool allocation)
      (saved_tenant_quota pool allocation) (saved_backend_limit backend_limits pool allocation)
