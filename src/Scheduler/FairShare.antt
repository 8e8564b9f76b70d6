-- ===== src/Scheduler/FairShare.antt =====
-- internal/scheduler/priority_fair_share.go. The result of nowFunc() is an argument of Reserve and
-- Release. The lanes and weights are in Lanes, the starvation streaks in Starvation, and the choice
-- of the best candidate in Pick.
pub mod Lanes
pub mod Starvation
pub mod Pick
pub mod Tenants
pub mod Reserve
pub mod Guarantees
pub mod Bounds
use unified_ephemeral_runner.Common.{
  ℕ, zero, suc, String, ◌+◌, ◌-◌, ◌%◌, Bool, true, false, not, ◌&&◌, ◌||◌, Option, none, some, List,
  [], ◌∷◌, ◌++◌, ◌==◌, string_eq, Dict, get, put, erase, if◌then◌else◌, leb, ltb, or_zero, length,
  filter, any, sum_by,
}
use unified_ephemeral_runner.Common.Int.{ℤ}
use unified_ephemeral_runner.Model.{
  Time, Duration, PoolName, BackendName, BackendConfig, PoolConfig, AllocationRequest,
  AllocationStatus, quota,
}
use unified_ephemeral_runner.Scheduler.{
  SchedulerKind, weighted_round_robin, for_name, SchedulerError, unknown_backend, no_capacity,
  quota_exceeded, Result, ok, err, ordered_backends, weighted_backends, Active, pool_active,
  count_of, active_backend_locked, ensure_pool, set_count, at,
}
use Lanes.{effective_max_runners, priority_class_weight_of}
use Starvation.{
  StarvationMap, is_starving, forget_idle, record_starvation, clear_starvation,
  drop_pool_starvation,
}
use Pick.{Best, best_from, priority_fair_share_score}
use Tenants.{
  TenantActive, tenant_count, tenant_total, ensure_tenant_pool, set_tenant_count, normalize_tenant,
  TenantReservation, TenantLog, UsageWindows, tenant_usage, note_usage_window, record_reservation,
  prune_all_tenant_logs,
}

pub record FairShareState : Type 0 where
  pub cursors : Dict PoolName ℕ
  pub active : Active
  pub tenant_active : TenantActive
  pub tenant_log : TenantLog
  pub usage_windows : UsageWindows
  pub starvation : StarvationMap

-- newPriorityFairShareState
abbrev pub new_fair_share : FairShareState
new_fair_share = record {
  cursors = [];
  active = [];
  tenant_active = [];
  tenant_log = [];
  usage_windows = [];
  starvation = [];
}

-- backendAvailableForPriorityWithStarvation
unfoldable pub backend_available_for_priority :
    BackendConfig → ℕ → ℕ → PoolConfig → String → Bool → Bool
backend_available_for_priority cfg active active_backend pool priority_class starving =
    if not cfg.enabled || not cfg.healthy
    then false
    else if ltb 0 cfg.cross_pool_max_runners && leb cfg.cross_pool_max_runners active_backend
    then false
    else if starving
    then ltb active cfg.max_runners
    else ltb active (effective_max_runners cfg.max_runners pool.fair_share priority_class)

-- backendDeniedBySoftReserve
unfoldable pub backend_denied_by_soft_reserve : BackendConfig → ℕ → ℕ → PoolConfig → String → Bool
backend_denied_by_soft_reserve cfg active active_backend pool priority_class =
    if not cfg.enabled || not cfg.healthy || leb cfg.max_runners 0 || leb cfg.max_runners active
    then false
    else if ltb 0 cfg.cross_pool_max_runners && leb cfg.cross_pool_max_runners active_backend
    then false
    else leb (effective_max_runners cfg.max_runners pool.fair_share priority_class) active

-- anyBackendDeniedBySoftReserve
unfoldable pub any_backend_denied_by_soft_reserve : Active → PoolConfig → String → Bool
any_backend_denied_by_soft_reserve active pool priority_class =
    any
      (λ entry.
        backend_denied_by_soft_reserve entry.1 (count_of active pool.name entry.0)
          (active_backend_locked active entry.0) pool priority_class)
      pool.backends

-- The test of a candidate; a name that the pool does not configure is not enabled.
unfoldable pub is_candidate : Active → PoolConfig → String → Bool → BackendName → Bool
is_candidate active pool priority_class starving name = elim (get pool.backends name) [
  | none ↦ false
  | some cfg ↦
      backend_available_for_priority cfg (count_of active pool.name name)
        (active_backend_locked active name) pool priority_class starving
]

by_kind : PoolConfig → SchedulerKind → List BackendName
by_kind pool weighted_round_robin = weighted_backends pool
by_kind pool _ = ordered_backends pool

-- fairShareCandidateBackends
unfoldable pub fair_share_candidate_backends : PoolConfig → List BackendName
unfolding by_kind
fair_share_candidate_backends pool = by_kind pool (for_name pool.scheduler)

-- The writes that Reserve makes before its first test.
unfoldable pub prepare : FairShareState → PoolConfig → Time → FairShareState
prepare s pool now =
    let noted = note_usage_window s.usage_windows s.tenant_log pool in
    let pruned = prune_all_tenant_logs noted.0 noted.1 now in
    record s {
      active = ensure_pool s.active pool.name;
      tenant_active = ensure_tenant_pool s.tenant_active pool.name;
      usage_windows = pruned.0;
      tenant_log = pruned.1;
      starvation =
          if leb pool.fair_share.starvation_after 0
          then drop_pool_starvation s.starvation pool.name
          else s.starvation;
    }

-- The writes of a granted reservation, but for the cursor.
unfoldable pub grant :
    FairShareState → PoolConfig → String → String → Time → BackendName → FairShareState
grant s pool priority_class tenant now backend =
    let logged = record_reservation s.usage_windows s.tenant_log pool backend tenant now in
    record s {
      active = set_count s.active pool.name backend (count_of s.active pool.name backend + 1);
      tenant_active =
          set_tenant_count s.tenant_active pool.name backend tenant
            (tenant_count s.tenant_active pool.name backend tenant + 1);
      usage_windows = logged.0;
      tenant_log = logged.1;
      starvation = clear_starvation s.starvation pool priority_class;
    }

-- The state of a denial, which arms the starvation streak only when soft reserves caused it.
unfoldable pub deny : FairShareState → PoolConfig → String → Time → Bool → FairShareState
deny s pool priority_class now by_soft_reserve =
    if by_soft_reserve
    then record s { starvation = record_starvation s.starvation pool priority_class now }
    else s

reserve_pinned :
    FairShareState
    → PoolConfig
    → String
    → String
    → Time
    → Bool
    → BackendName
    → FairShareState × Result BackendName
reserve_pinned s pool priority_class tenant now starving pinned = elim (get pool.backends pinned) [
  | none ↦ (s, err unknown_backend)
  | some cfg ↦
      let n = count_of s.active pool.name pinned in
      let all_pools = active_backend_locked s.active pinned in
      if not (backend_available_for_priority cfg n all_pools pool priority_class starving)
      then (
        deny s pool priority_class now
            (backend_denied_by_soft_reserve cfg n all_pools pool priority_class),
        err no_capacity,
      )
      else (grant s pool priority_class tenant now pinned, ok pinned)
]

-- The score of a candidate.
unfoldable pub candidate_score :
    FairShareState → PoolConfig → String → String → Time → BackendName → ℤ
candidate_score s pool priority_class tenant now name =
    priority_fair_share_score (count_of s.active pool.name name)
      (tenant_usage s.tenant_active s.tenant_log pool name tenant now)
      (priority_class_weight_of pool.fair_share priority_class)

pub reserve_best :
    FairShareState
    → PoolConfig
    → String
    → String
    → Time
    → Bool
    → List BackendName
    → FairShareState × Result BackendName
reserve_best s pool priority_class tenant now starving [] = (s, err no_capacity)
reserve_best s pool priority_class tenant now starving (b ∷ bs) =
    let backends = b ∷ bs in
    let start = or_zero (get s.cursors pool.name) % length backends in
    elim (best_from (is_candidate s.active pool priority_class starving)
      (candidate_score s pool priority_class tenant now) backends start 0 (length backends) none) [
        | none ↦ (
          deny s pool priority_class now
              (any_backend_denied_by_soft_reserve s.active pool priority_class),
          err no_capacity,
        )
        | some best ↦
            let selected = at backends best.index in
            let granted = grant s pool priority_class tenant now selected in
            (
              record granted {
                cursors = put s.cursors pool.name ((best.index + 1) % length backends);
              },
              ok selected,
            )
      ]

over_quota : Option ℕ → ℕ → Bool
over_quota none total = false
over_quota (some limit) total = leb limit total

-- The choice, after the quota test.
unfoldable pub choose :
    FairShareState → PoolConfig → AllocationRequest → Time → FairShareState × Result BackendName
unfolding reserve_pinned reserve_best
choose s pool request now =
    let tenant = normalize_tenant request.tenant in
    let starving = is_starving s.starvation pool request.priority_class now in
    let s' = record s { starvation = forget_idle s.starvation pool request.priority_class now } in
    elim request.backend [
      | some pinned ↦ reserve_pinned s' pool request.priority_class tenant now starving pinned
      | none ↦
          reserve_best s' pool request.priority_class tenant now starving
            (fair_share_candidate_backends pool)
    ]

-- priorityFairShareState.Reserve
unfoldable pub reserve :
    FairShareState → PoolConfig → AllocationRequest → Time → FairShareState × Result BackendName
unfolding over_quota
reserve s pool request now =
    let s' = prepare s pool now in
    let tenant = normalize_tenant request.tenant in
    if over_quota (quota pool.fair_share tenant) (tenant_total s'.tenant_active pool.name tenant)
    then (s', err quota_exceeded)
    else choose s' pool request now

-- priorityFairShareState.Release; the logs are pruned on every way out.
unfoldable pub release :
    FairShareState → PoolName → BackendName → AllocationStatus → Time → FairShareState
release s pool backend allocation now =
    let pruned = prune_all_tenant_logs s.usage_windows s.tenant_log now in
    let swept = record s { usage_windows = pruned.0; tenant_log = pruned.1 } in
    let tenant = normalize_tenant allocation.tenant in
    let n = count_of s.active pool backend in
    let held = tenant_count s.tenant_active pool backend tenant in
    elim (get s.active pool) [
      | none ↦ swept
      | some counts ↦ record swept {
        active = if ltb 0 n then set_count s.active pool backend (n - 1) else s.active;
        tenant_active =
            if ltb 0 held
            then set_tenant_count s.tenant_active pool backend tenant (held - 1)
            else s.tenant_active;
      }
    ]
