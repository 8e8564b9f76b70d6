-- ===== src/Scheduler/FairShare/Guarantees.antt =====
-- The guarantees of the fair share: lanes, quotas, limits, and which denials arm a streak.
use unified_ephemeral_runner.Common.{
  ℕ, ◌≡◌, ◌≤◌, ◌<◌, ◌⊎◌, inl, inr, Bool, true, false, Option, none, some, arith, string_eq, nat_eq,
  pair_eq, get, Option-cases,
}
use unified_ephemeral_runner.Model.{
  Time, BackendName, BackendConfig, PoolConfig, AllocationRequest, quota,
}
use unified_ephemeral_runner.Scheduler.{
  no_capacity, ok, err, Active, count_of, active_backend_locked,
}
use unified_ephemeral_runner.Scheduler.FairShare.Lanes.{
  effective_max_runners, effective_max_runners_lem,
}
use unified_ephemeral_runner.Scheduler.FairShare.Starvation.{is_starving}
use unified_ephemeral_runner.Scheduler.FairShare.Tenants.{tenant_total, normalize_tenant}
use unified_ephemeral_runner.Scheduler.FairShare.Reserve.{
  chosen_in, Granted, Picks, best-Picks, choose-Granted,
}
use unified_ephemeral_runner.Scheduler.FairShare.{
  FairShareState, backend_available_for_priority, backend_denied_by_soft_reserve, is_candidate,
  fair_share_candidate_backends, prepare, deny, over_quota, choose, reserve,
}

abbrev pub starving_in : FairShareState → PoolConfig → AllocationRequest → Time → Bool
starving_in s pool request now =
    is_starving (prepare s pool now).starvation pool request.priority_class now

-- The limit of a request on a backend: all of maxRunners when its class starves, else what the soft
-- reserves of higher classes leave.
abbrev pub seen_limit : BackendConfig → PoolConfig → AllocationRequest → Bool → ℕ
seen_limit cfg pool request true = cfg.max_runners
seen_limit cfg pool request false =
    effective_max_runners cfg.max_runners pool.fair_share request.priority_class

-- The quota test as an order.
abbrev pub WithinQuota : Option ℕ → ℕ → Type 0
WithinQuota none n = Unit
WithinQuota (some limit) n = n < limit

reserve_ok :
    (s : FairShareState) (pool : PoolConfig) (request : AllocationRequest) (now : Time)
    (b : BackendName)
    → (reserve s pool request now).1 ≡ ok b
    → (over_quota (quota pool.fair_share (normalize_tenant request.tenant)) (
          tenant_total
            (prepare s pool now).tenant_active
            pool.name
            (normalize_tenant request.tenant))
        ≡ false)
      × (reserve s pool request now ≡ choose (prepare s pool now) pool request now)
unfolding reserve
reserve_ok s pool request now b h = ground arith

pub Granted-parts :
    (s : FairShareState) (pool : PoolConfig) (request : AllocationRequest) (now : Time)
    (b : BackendName)
    → (reserve s pool request now).1 ≡ ok b
    → Granted
        (prepare s pool now)
        pool
        request.priority_class
        (normalize_tenant request.tenant)
        (starving_in s pool request now)
        b
        (reserve s pool request now).0
Granted-parts s pool request now b h =
    let (quota_left, chosen) = reserve_ok s pool request now b h in
    rw chosen (choose-Granted (prepare s pool now) pool request now b (rw chosen at h))

candidate_config :
    (a : Active) (pool : PoolConfig) (request : AllocationRequest) (starving : Bool)
    (b : BackendName)
    → is_candidate a pool request.priority_class starving b ≡ true
    → (cfg : BackendConfig) × (get pool.backends b ≡ some cfg)
      × (cfg.enabled ≡ true)
      × (cfg.healthy ≡ true)
      × (count_of a pool.name b < seen_limit cfg pool request starving)
      × ((cfg.cross_pool_max_runners ≡ 0)
          ⊎ (active_backend_locked a b < cfg.cross_pool_max_runners))
unfolding is_candidate backend_available_for_priority
candidate_config a pool request starving b h = elim (Option-cases (get pool.backends b)) [
  | inl e ↦ ground arith
  | inr (cfg, e) ↦ (cfg, e, ground arith, ground arith, limit_of starving cfg e h, ground arith)
]
  where
    limit_of :
        (starves : Bool) (cfg : BackendConfig)
        → get pool.backends b ≡ some cfg
        → is_candidate a pool request.priority_class starves b ≡ true
        → count_of a pool.name b < seen_limit cfg pool request starves
    limit_of true cfg e k = ground arith
    limit_of false cfg e k = ground arith

-- A granted request was within its tenant's quota, and its backend is configured, enabled and
-- healthy and had a free slot: below maxRunners when the class starves, and else below what the soft
-- reserves of higher classes leave to it; and below the backend's limit over all pools, if one is set.
pub reserve_guards :
    (s : FairShareState) (pool : PoolConfig) (request : AllocationRequest) (now : Time)
    (b : BackendName)
    → (reserve s pool request now).1 ≡ ok b
    → WithinQuota (quota pool.fair_share (normalize_tenant request.tenant)) (
        tenant_total (prepare s pool now).tenant_active pool.name (normalize_tenant request.tenant))
      × ((cfg : BackendConfig) × (get pool.backends b ≡ some cfg)
          × (cfg.enabled ≡ true)
          × (cfg.healthy ≡ true)
          × (count_of (prepare s pool now).active pool.name b
              < seen_limit cfg pool request (starving_in s pool request now))
          × ((cfg.cross_pool_max_runners ≡ 0)
              ⊎ (active_backend_locked (prepare s pool now).active b < cfg.cross_pool_max_runners)))
unfolding over_quota
reserve_guards s pool request now b h =
    let (quota_left, chosen) = reserve_ok s pool request now b h in
    let (passed, counted, charged) = Granted-parts s pool request now b h in
    (
      within (quota pool.fair_share (normalize_tenant request.tenant)) _ quota_left,
      candidate_config (prepare s pool now).active pool request _ b passed,
    )
  where
    within : (q : Option ℕ) (n : ℕ) → over_quota q n ≡ false → WithinQuota q n
    within none n e = tt
    within (some limit) n e = ground arith

-- A pinned request that finds its backend at maxRunners is refused and leaves the streaks as they
-- are, but for the dropping of its own class's streak if that was idle too long.
pub hard_denial_keeps_streaks :
    (s : FairShareState) (pool : PoolConfig) (request : AllocationRequest) (now : Time)
    (b : BackendName) (cfg : BackendConfig)
    → request.backend ≡ some b
    → get pool.backends b ≡ some cfg
    → cfg.max_runners ≤ count_of s.active pool.name b
    → choose s pool request now ≡ (chosen_in s pool request now, err no_capacity)
unfolding choose backend_available_for_priority backend_denied_by_soft_reserve deny
hard_denial_keeps_streaks s pool request now b cfg pinned found full =
    ground (arith, effective_max_runners_lem cfg.max_runners pool.fair_share request.priority_class)

-- An unpinned request within its quota gets, of the candidates of the ring from the pool's cursor
-- on, the first with the lowest score, and the cursor moves behind it; or it is refused, where none is
-- a candidate.
pub choose-Picks :
    (s : FairShareState) (pool : PoolConfig) (request : AllocationRequest) (now : Time)
    → request.backend ≡ none
    → Picks
        (chosen_in s pool request now)
        pool
        request.priority_class
        (normalize_tenant request.tenant)
        now
        (is_starving s.starvation pool request.priority_class now)
        (fair_share_candidate_backends pool)
        (choose s pool request now)
unfolding choose
choose-Picks s pool request now e =
    rw (e, choose)
      (best-Picks (chosen_in s pool request now) pool request.priority_class
        (normalize_tenant request.tenant) now
        (is_starving s.starvation pool request.priority_class now)
        (fair_share_candidate_backends pool))
