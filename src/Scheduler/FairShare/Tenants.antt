-- ===== src/Scheduler/FairShare/Tenants.antt =====
-- Tenant counts, and the reservation log behind usageWindow: tenantUsage, noteUsageWindow,
-- recordReservation, pruneAllTenantLogs, pruneLog.
use unified_ephemeral_runner.Common.{
  ℕ, String, ◌-◌, not, ◌&&◌, none, some, List, [], ◌∷◌, ◌++◌, ◌==◌, string_eq, Dict, get, put,
  erase, if◌then◌else◌, leb, ltb, or_zero, length, filter, sum_by,
}
use unified_ephemeral_runner.Common.Text.{trim_space, to_lower}
use unified_ephemeral_runner.Model.{Time, Duration, PoolName, BackendName, PoolConfig}

-- normalizeTenant of the scheduler, which folds the case.
unfoldable pub normalize_tenant : String → String
normalize_tenant value =
    let trimmed = trim_space value in if trimmed == "" then "default" else to_lower trimmed

abbrev pub TenantActive : Type 0
TenantActive = Dict PoolName (Dict BackendName (Dict String ℕ))

abbrev pub pool_tenants : TenantActive → PoolName → Dict BackendName (Dict String ℕ)
pool_tenants m pool = elim (get m pool) [ none ↦ [] | some backends ↦ backends ]

abbrev pub backend_tenants : TenantActive → PoolName → BackendName → Dict String ℕ
backend_tenants m pool backend = elim (get (pool_tenants m pool) backend) [
  | none ↦ []
  | some counts ↦ counts
]

abbrev pub tenant_count : TenantActive → PoolName → BackendName → String → ℕ
tenant_count m pool backend tenant = or_zero (get (backend_tenants m pool backend) tenant)

-- The sum of the quota test of Reserve.
abbrev pub tenant_total : TenantActive → PoolName → String → ℕ
tenant_total m pool tenant = sum_by (λ entry. or_zero (get entry.1 tenant)) (pool_tenants m pool)

unfoldable pub ensure_tenant_pool : TenantActive → PoolName → TenantActive
ensure_tenant_pool m pool = elim (get m pool) [ none ↦ put m pool [] | some backends ↦ m ]

-- A write of a tenant's count; a count of 0 drops the entry.
unfoldable pub set_tenant_count : TenantActive → PoolName → BackendName → String → ℕ → TenantActive
set_tenant_count m pool backend tenant n =
    let counts = backend_tenants m pool backend in
    let counts' = if leb n 0 then erase counts tenant else put counts tenant n in
    put m pool (put (pool_tenants m pool) backend counts')

pub record TenantReservation : Type 0 where
  pub tenant : String
  pub backend : BackendName
  pub reserve_at : Time

abbrev pub TenantLog : Type 0
TenantLog = Dict PoolName (List TenantReservation)

abbrev pub UsageWindows : Type 0
UsageWindows = Dict PoolName Duration

abbrev pub pool_log : TenantLog → PoolName → List TenantReservation
pool_log log pool = elim (get log pool) [ none ↦ [] | some entries ↦ entries ]

-- tenantUsage
unfoldable pub tenant_usage :
    TenantActive → TenantLog → PoolConfig → BackendName → String → Time → ℕ
tenant_usage m log pool backend tenant now =
    let cutoff = now - pool.fair_share.usage_window in
    if leb pool.fair_share.usage_window 0
    then tenant_count m pool.name backend tenant
    else length (
        filter (λ e. e.backend == backend && e.tenant == tenant && not (ltb e.reserve_at cutoff))
          (pool_log log pool.name))

-- noteUsageWindow
unfoldable pub note_usage_window : UsageWindows → TenantLog → PoolConfig → UsageWindows × TenantLog
note_usage_window windows log pool =
    if leb pool.fair_share.usage_window 0
    then (erase windows pool.name, erase log pool.name)
    else (put windows pool.name pool.fair_share.usage_window, log)

-- recordReservation
unfoldable pub record_reservation :
    UsageWindows → TenantLog → PoolConfig → BackendName → String → Time → UsageWindows × TenantLog
record_reservation windows log pool backend tenant now =
    if leb pool.fair_share.usage_window 0 then (windows, log) else (
      put windows pool.name pool.fair_share.usage_window,
      put log pool.name (
          pool_log log pool.name
          ++ record { tenant = tenant; backend = backend; reserve_at = now } ∷ []),
    )

-- pruneLog
unfoldable pub prune_log : TenantLog → PoolName → Time → TenantLog
prune_log log pool cutoff =
    let kept = filter (λ e. not (ltb e.reserve_at cutoff)) (pool_log log pool) in
    if leb (length kept) 0 then erase log pool else put log pool kept

-- The loop of pruneAllTenantLogs, over the windows as they were when it began.
prune_each : List (PoolName × Duration) → UsageWindows → TenantLog → Time → UsageWindows × TenantLog
prune_each [] windows log now = (windows, log)
prune_each ((pool, window) ∷ rest) windows log now =
    let windows' = if leb window 0 then erase windows pool else windows in
    let log' = if leb window 0 then erase log pool else prune_log log pool (now - window) in
    prune_each rest windows' log' now

-- pruneAllTenantLogs
unfoldable pub prune_all_tenant_logs : UsageWindows → TenantLog → Time → UsageWindows × TenantLog
unfolding prune_each prune_log
prune_all_tenant_logs windows log now = prune_each windows windows log now
