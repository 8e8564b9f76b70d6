-- ===== src/Scheduler/Limits.antt =====
-- Concurrency limits of the ordered schedulers, over every sequence of reservations and releases.
use unified_ephemeral_runner.Common.{
  ℕ, ◌≡◌, refl, ap, ◌+◌, ◌-◌, ◌≤◌, ◌<◌, ◌⊎◌, inl, inr, true, some, List, [], arith, string_eq,
  nat_eq, pair_eq, Dict, get, Option-cases, get-nil,
}
use unified_ephemeral_runner.Model.{
  PoolName, BackendName, BackendConfig, PoolConfig, AllocationRequest,
}
use unified_ephemeral_runner.Scheduler.{
  Result, ok, err, Active, pool_active, count_of, active_backend_locked, ensure_pool, set_count,
  backend_available, OrderedScheduler, new_ordered_scheduler, is_candidate, reserve, release,
}
use unified_ephemeral_runner.Scheduler.Counts.{
  IsMap, count_of-ensure_pool, count_of-set_count, backend_active-ensure_pool,
  backend_active-set_count, ensure_pool-IsMap, set_count-IsMap,
}
use unified_ephemeral_runner.Scheduler.Reserve.{reserve-Granted, reserve_error}

-- The configured limits of a broker: the runners of a backend in a pool, and the runners of a
-- backend over all pools, where 0 is no limit.
pub record Limits : Type 0 where
  pub max_runners : PoolName → BackendName → ℕ
  pub cross_pool : BackendName → ℕ

-- A pool, possibly with backends filtered out, has the configured limits.
abbrev pub Agrees : Limits → PoolConfig → Type 0
Agrees l pool =
    (b : BackendName) (cfg : BackendConfig)
    → get pool.backends b ≡ some cfg
    → (cfg.max_runners ≡ l.max_runners pool.name b) × (cfg.cross_pool_max_runners ≡ l.cross_pool b)

pub record IsBounded (l : Limits) (a : Active) : Type 0 where
  pub is_map : IsMap a
  pub slots : (p : PoolName) (b : BackendName) → count_of a p b ≤ l.max_runners p b
  pub backends :
      (b : BackendName) → (l.cross_pool b ≡ 0) ⊎ (active_backend_locked a b ≤ l.cross_pool b)

-- What the test of a candidate says of its limits.
candidate_room :
    (l : Limits) (a : Active) (pool : PoolConfig) (b : BackendName)
    → Agrees l pool
    → is_candidate a pool b ≡ true
    → (count_of a pool.name b < l.max_runners pool.name b)
      × ((l.cross_pool b ≡ 0) ⊎ (active_backend_locked a b < l.cross_pool b))
unfolding is_candidate backend_available
candidate_room l a pool b agrees h = elim (Option-cases (get pool.backends b)) [
  | inl e ↦ ground arith
  | inr (cfg, e) ↦ ground (arith, agrees b cfg e)
]

pub ensure_pool-IsBounded :
    (l : Limits) (a : Active) (p : PoolName) → IsBounded l a → IsBounded l (ensure_pool a p)
ensure_pool-IsBounded l a p v = record {
  is_map = ensure_pool-IsMap a p v.is_map;
  slots = λ q b. rw (count_of-ensure_pool a p q b) (v.slots q b);
  backends = λ b. rw (backend_active-ensure_pool a p b v.is_map.pools) (v.backends b);
}

-- A write of a count that both limits allow.
pub set_count-IsBounded :
    (l : Limits) (a : Active) (p : PoolName) (b : BackendName) (n : ℕ)
    → n ≤ l.max_runners p b
    → ((l.cross_pool b ≡ 0) ⊎ (active_backend_locked a b + n ≤ l.cross_pool b + count_of a p b))
    → IsBounded l a
    → IsBounded l (set_count a p b n)
set_count-IsBounded l a p b n slot cross v = record {
  is_map = set_count-IsMap a p b n v.is_map;
  slots = λ q c. ground (
    arith,
    count_of-set_count a p b n q c,
    v.slots q c,
    string_eq.agrees_iff p q,
    string_eq.agrees_iff b c,
  );
  backends = λ c. ground (
    arith,
    backend_active-set_count a p b n c v.is_map.pools,
    v.backends c,
    string_eq.agrees_iff b c,
  );
}

-- No reservation, granted or refused, exceeds a limit.
pub reserve-IsBounded :
    (l : Limits) (order : PoolConfig → List BackendName) (s : OrderedScheduler) (pool : PoolConfig)
    (request : AllocationRequest)
    → Agrees l pool
    → IsBounded l s.active
    → IsBounded l (reserve order s pool request).0.active
reserve-IsBounded l order s pool request agrees v = by_result _ refl
  where
    ensured : IsBounded l (ensure_pool s.active pool.name)
    ensured = ensure_pool-IsBounded l s.active pool.name v

    by_result :
        (r : Result BackendName)
        → (reserve order s pool request).1 ≡ r
        → IsBounded l (reserve order s pool request).0.active
    by_result (err e) h = rw (reserve_error order s pool request e h) ensured
    by_result (ok b) h =
        let (passed, written) = reserve-Granted order s pool request b h in
        let room = candidate_room l (ensure_pool s.active pool.name) pool b agrees passed in
        rw written (
          set_count-IsBounded l (ensure_pool s.active pool.name) pool.name b _ (ground arith)
            (ground arith) ensured)

-- What a release writes: nothing, or one less for a count that is positive.
pub release_writes :
    (s : OrderedScheduler) (p : PoolName) (b : BackendName)
    → ((count_of s.active p b ≡ 0) × (release s p b ≡ s))
      ⊎ ((0 < count_of s.active p b)
          × ((release s p b).active ≡ set_count s.active p b (count_of s.active p b - 1)))
unfolding release
release_writes s p b = ground (arith, get-nil ℕ b)

pub release-IsBounded :
    (l : Limits) (s : OrderedScheduler) (p : PoolName) (b : BackendName)
    → IsBounded l s.active
    → IsBounded l (release s p b).active
release-IsBounded l s p b v = elim (release_writes s p b) [
  | inl (zero_count, same) ↦ rw same v
  | inr (positive, written) ↦ rw written (
      set_count-IsBounded l s.active p b _ (omega (arith, v.slots p b))
        (ground (arith, v.backends b)) v)
]

-- A run of a scheduler: reservations in pools that have the configured limits, and releases.
pub data Reach (l : Limits) (order : PoolConfig → List BackendName)
    : OrderedScheduler → Type 0 where
  start : Reach l order new_ordered_scheduler
  reserved :
      {s : OrderedScheduler} (pool : PoolConfig) (request : AllocationRequest)
      → Agrees l pool
      → Reach l order s
      → Reach l order (reserve order s pool request).0
  released :
      {s : OrderedScheduler} (p : PoolName) (b : BackendName)
      → Reach l order s
      → Reach l order (release s p b)

pub start-IsBounded : (l : Limits) → IsBounded l []
start-IsBounded l = record {
  is_map = record {
    pools = tt;
    backends = λ p. rw (get-nil (Dict BackendName ℕ) p, pool_active) tt;
  };
  slots = λ p b. rw (get-nil (Dict BackendName ℕ) p, pool_active) (rw (get-nil ℕ b) (omega arith));
  backends = λ b. inr (omega arith);
}

-- After every sequence of releases and of reservations, in pools with one configuration of limits, no
-- pool has more reservations of a backend than its maxRunners, and no backend more than its limit
-- over all pools where one is set.
pub reachable-IsBounded :
    (l : Limits) (order : PoolConfig → List BackendName) (s : OrderedScheduler)
    → Reach l order s
    → IsBounded l s.active
reachable-IsBounded l order _ start = start-IsBounded l
reachable-IsBounded l order _ (reserved {s = s} pool request agrees r) =
    reserve-IsBounded l order s pool request agrees (reachable-IsBounded l order s r)
reachable-IsBounded l order _ (released {s = s} p b r) =
    release-IsBounded l s p b (reachable-IsBounded l order s r)

-- A release undoes a granted reservation: every count is again what it was.
pub release-reserve :
    (order : PoolConfig → List BackendName) (s : OrderedScheduler) (pool : PoolConfig)
    (request : AllocationRequest) (b : BackendName) (p : PoolName) (c : BackendName)
    → (reserve order s pool request).1 ≡ ok b
    → count_of (release (reserve order s pool request).0 pool.name b).active p c
      ≡ count_of s.active p c
release-reserve order s pool request b p c h =
    let s' = (reserve order s pool request).0 in
    let a = ensure_pool s.active pool.name in
    let n = count_of a pool.name b in
    let (passed, written) = reserve-Granted order s pool request b h in
    let here : count_of s'.active pool.name b ≡ n + 1 = rw written (
      ground (
        arith,
        count_of-set_count a pool.name b (n + 1) pool.name b,
        string_eq.agrees_iff pool.name pool.name,
        string_eq.agrees_iff b b,
      )) in
    elim (release_writes s' pool.name b) [
      | inl (zero_count, same) ↦ absurd (omega arith)
      | inr (positive, unwritten) ↦ rw unwritten (
          ground (
            arith,
            count_of-set_count s'.active pool.name b (count_of s'.active pool.name b - 1) p c,
            ap (λ (x : Active). count_of x p c) written,
            count_of-set_count a pool.name b (n + 1) p c,
            count_of-ensure_pool s.active pool.name p c,
            string_eq.agrees_iff pool.name p,
            string_eq.agrees_iff b c,
          ))
    ]
