-- ===== src/Scheduler/FairShare/Bounds.antt =====
-- The concurrency limits over every run of the fair share.
use unified_ephemeral_runner.Common.{
  String, ◌≡◌, refl, sym, subst, ◌-◌, ◌%◌, ◌≤◌, ◌<◌, ◌⊎◌, inl, inr, Bool, true, false, none, List,
  [], ◌∷◌, arith, string_eq, nat_eq, pair_eq, get, ltb, Bool-cases, Option-cases, or_zero, length,
}
use unified_ephemeral_runner.Model.{
  Time, PoolName, BackendName, BackendConfig, PoolConfig, AllocationRequest, AllocationStatus,
  quota,
}
use unified_ephemeral_runner.Scheduler.{
  Result, ok, Active, count_of, active_backend_locked, ensure_pool, set_count, at,
}
use unified_ephemeral_runner.Scheduler.Limits.{
  Limits, Agrees, IsBounded, set_count-IsBounded, ensure_pool-IsBounded, start-IsBounded,
}
use unified_ephemeral_runner.Scheduler.FairShare.Lanes.{effective_max_runners_lem}
use unified_ephemeral_runner.Scheduler.FairShare.Pick.{best_from}
use unified_ephemeral_runner.Scheduler.FairShare.Tenants.{normalize_tenant, tenant_total}
use unified_ephemeral_runner.Scheduler.FairShare.Reserve.{chosen_in}
use unified_ephemeral_runner.Scheduler.FairShare.Guarantees.{
  Granted-parts, reserve_guards, seen_limit, starving_in,
}
use unified_ephemeral_runner.Scheduler.FairShare.{
  FairShareState, new_fair_share, prepare, deny, is_candidate, candidate_score,
  any_backend_denied_by_soft_reserve, reserve_pinned, reserve_best, choose, over_quota, reserve,
  release, backend_available_for_priority, backend_denied_by_soft_reserve,
}

-- A refusal leaves the counts of `a` as they are.
abbrev Refuses : Active → FairShareState × Result BackendName → Type 0
Refuses a r = (r.0.active ≡ a) ⊎ ((b : BackendName) × (r.1 ≡ ok b))

deny-active :
    (s : FairShareState) (pool : PoolConfig) (c : String) (now : Time) (soft : Bool)
    → (deny s pool c now soft).active ≡ s.active
unfolding deny
deny-active s pool c now soft = ground arith

pinned-Refuses :
    (s : FairShareState) (pool : PoolConfig) (c t : String) (now : Time) (starving : Bool)
    (pinned : BackendName)
    → Refuses s.active (reserve_pinned s pool c t now starving pinned)
unfolding reserve_pinned
pinned-Refuses s pool c t now starving pinned = elim (Option-cases (get pool.backends pinned)) [
  | inl e ↦ rw (e, reserve_pinned) (inl refl)
  | inr (cfg, e) ↦
      let n = count_of s.active pool.name pinned in
      let all_pools = active_backend_locked s.active pinned in
      elim (Bool-cases (backend_available_for_priority cfg n all_pools pool c starving)) [
        | inl free ↦ rw (e, reserve_pinned, free) (inr (pinned, refl))
        | inr full ↦
            rw (e, reserve_pinned, full)
              (inl
                (deny-active s pool c now (backend_denied_by_soft_reserve cfg n all_pools pool c)))
      ]
]

best-Refuses :
    (s : FairShareState) (pool : PoolConfig) (c t : String) (now : Time) (starving : Bool)
    (backends : List BackendName)
    → Refuses s.active (reserve_best s pool c t now starving backends)
unfolding reserve_best
best-Refuses s pool c t now starving [] = inl refl
best-Refuses s pool c t now starving (x ∷ xs) =
    elim (Option-cases (
      best_from (is_candidate s.active pool c starving) (candidate_score s pool c t now) (x ∷ xs)
        (or_zero (get s.cursors pool.name) % length (x ∷ xs)) 0 (length (x ∷ xs)) none)) [
          | inl e ↦
              rw (e, reserve_best)
                (inl
                  (deny-active s pool c now (any_backend_denied_by_soft_reserve s.active pool c)))
          | inr (best, e) ↦ rw (e, reserve_best) (inr (at (x ∷ xs) best.index, refl))
        ]

choose-Refuses :
    (s : FairShareState) (pool : PoolConfig) (request : AllocationRequest) (now : Time)
    → Refuses s.active (choose s pool request now)
unfolding choose
choose-Refuses s pool request now = elim (Option-cases request.backend) [
  | inl e ↦ rw (e, choose) (best-Refuses (chosen_in s pool request now) pool _ _ now _ _)
  | inr (b, e) ↦ rw (e, choose) (pinned-Refuses (chosen_in s pool request now) pool _ _ now _ b)
]

reserve-Refuses :
    (s : FairShareState) (pool : PoolConfig) (request : AllocationRequest) (now : Time)
    → Refuses (ensure_pool s.active pool.name) (reserve s pool request now)
unfolding reserve prepare
reserve-Refuses s pool request now =
    elim (Bool-cases (
      over_quota (quota pool.fair_share (normalize_tenant request.tenant)) (
        tenant_total (prepare s pool now).tenant_active pool.name
          (normalize_tenant request.tenant)))) [
            | inl e ↦ rw (e, reserve) (inl refl)
            | inr e ↦ rw (e, reserve) (choose-Refuses (prepare s pool now) pool request now)
          ]

seen-le-max :
    (cfg : BackendConfig) (pool : PoolConfig) (request : AllocationRequest) (starving : Bool)
    → seen_limit cfg pool request starving ≤ cfg.max_runners
seen-le-max cfg pool request true = omega arith
seen-le-max cfg pool request false =
    omega (arith, effective_max_runners_lem cfg.max_runners pool.fair_share request.priority_class)

granted-IsBounded :
    (l : Limits) (s : FairShareState) (pool : PoolConfig) (request : AllocationRequest) (now : Time)
    (b : BackendName)
    → Agrees l pool
    → IsBounded l (ensure_pool s.active pool.name)
    → (reserve s pool request now).1 ≡ ok b
    → IsBounded l (reserve s pool request now).0.active
unfolding prepare
granted-IsBounded l s pool request now b agrees v h =
    let (passed, counted, charged) = Granted-parts s pool request now b h in
    let (quota_left, (cfg, found, enabled, healthy, room, cross)) =
      reserve_guards s pool request now b h in
    let (slots, shared) = agrees b cfg found in
    let below = seen-le-max cfg pool request (starving_in s pool request now) in
    rw counted (
      set_count-IsBounded l (ensure_pool s.active pool.name) pool.name b _ (omega arith)
        (ground arith) v)

pub reserve-IsBounded :
    (l : Limits) (s : FairShareState) (pool : PoolConfig) (request : AllocationRequest) (now : Time)
    → Agrees l pool
    → IsBounded l s.active
    → IsBounded l (reserve s pool request now).0.active
reserve-IsBounded l s pool request now agrees v =
    let ensured = ensure_pool-IsBounded l s.active pool.name v in
    elim (reserve-Refuses s pool request now) [
      | inl e ↦ subst (IsBounded l) (sym e) ensured
      | inr (b, e) ↦ granted-IsBounded l s pool request now b agrees ensured e
    ]

release_writes :
    (s : FairShareState) (p : PoolName) (b : BackendName) (allocation : AllocationStatus)
    (now : Time)
    → ((release s p b allocation now).active ≡ s.active)
      ⊎ ((0 < count_of s.active p b)
          × ((release s p b allocation now).active
              ≡ set_count s.active p b (count_of s.active p b - 1)))
unfolding release
release_writes s p b allocation now = elim (Option-cases (get s.active p)) [
  | inl e ↦ rw (e, release) (inl refl)
  | inr (counts, e) ↦ elim (Bool-cases (ltb 0 (count_of s.active p b))) [
    | inl held ↦ inr (ground arith, ground arith)
    | inr free ↦ inl (ground arith)
  ]
]

release-IsBounded :
    (l : Limits) (s : FairShareState) (p : PoolName) (b : BackendName)
    (allocation : AllocationStatus) (now : Time)
    → IsBounded l s.active
    → IsBounded l (release s p b allocation now).active
release-IsBounded l s p b allocation now v = elim (release_writes s p b allocation now) [
  | inl e ↦ subst (IsBounded l) (sym e) v
  | inr (positive, written) ↦ rw written (
      set_count-IsBounded l s.active p b _ (omega (arith, v.slots p b))
        (ground (arith, v.backends b)) v)
]

-- A run of the fair share: reservations in pools that have the configured limits, and releases.
pub data FairRun (l : Limits) : FairShareState → Type 0 where
  begin : FairRun l new_fair_share
  reserved :
      {s : FairShareState} (pool : PoolConfig) (request : AllocationRequest) (now : Time)
      → Agrees l pool
      → FairRun l s
      → FairRun l (reserve s pool request now).0
  released :
      {s : FairShareState} (p : PoolName) (b : BackendName) (allocation : AllocationStatus)
      (now : Time)
      → FairRun l s
      → FairRun l (release s p b allocation now)

-- After every sequence of the fair share's releases and of its reservations, starving ones too, in
-- pools with one configuration of limits, no pool has more reservations of a backend than its
-- maxRunners, and no backend more than its limit over all pools where one is set.
pub FairRun-IsBounded : (l : Limits) (s : FairShareState) → FairRun l s → IsBounded l s.active
FairRun-IsBounded l _ begin = start-IsBounded l
FairRun-IsBounded l _ (reserved {s = s} pool request now agrees r) =
    reserve-IsBounded l s pool request now agrees (FairRun-IsBounded l s r)
FairRun-IsBounded l _ (released {s = s} p b allocation now r) =
    release-IsBounded l s p b allocation now (FairRun-IsBounded l s r)
