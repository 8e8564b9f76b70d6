-- ===== src/Service/Limits.antt =====
-- What the limits of saveReservedAllocation guarantee, and whom they refuse.
use unified_ephemeral_runner.Common.{
  ℕ, ◌≡◌, ◌≤◌, ◌⊎◌, inl, inr, none, arith, string_eq, nat_eq, pair_eq, Dict, get, Bool-cases,
  or_zero,
}
use unified_ephemeral_runner.Model.{BackendName, PoolConfig, AllocationStatus}
use unified_ephemeral_runner.Scheduler.FairShare.Lanes.{effective_max_runners_lem}
use unified_ephemeral_runner.Store.{Memory, count_active, count_backend_active}
use unified_ephemeral_runner.Store.Capacity.{Within, save_if_capacity_bounds}
use unified_ephemeral_runner.Service.{
  max_runners_of, cross_pool_of, saved_max_runners, saved_backend_limit, save_reserved_allocation,
}

saved-le-max :
    (pool : PoolConfig) (allocation : AllocationStatus)
    → saved_max_runners pool allocation ≤ max_runners_of pool allocation.selected_backend
unfolding saved_max_runners
saved-le-max pool allocation =
    let reduced =
      effective_max_runners_lem (max_runners_of pool allocation.selected_backend) pool.fair_share
        allocation.priority_class in
    elim (Bool-cases pool.fair_share.enabled) [ inl e ↦ ground arith | inr e ↦ ground arith ]

slots-Within :
    (pool : PoolConfig) (allocation : AllocationStatus) (n : ℕ)
    → Within (saved_max_runners pool allocation) n
    → (saved_max_runners pool allocation ≡ 0)
      ⊎ (n ≤ max_runners_of pool allocation.selected_backend)
slots-Within pool allocation n (inl e) = inl e
slots-Within pool allocation n (inr le) = inr (omega (arith, saved-le-max pool allocation))

backend_limit-Within :
    (backend_limits : Dict BackendName ℕ) (pool : PoolConfig) (allocation : AllocationStatus)
    (n : ℕ)
    → Within (saved_backend_limit backend_limits pool allocation) n
    → Within (cross_pool_of pool allocation.selected_backend) n
      × Within (or_zero (get backend_limits allocation.selected_backend)) n
unfolding saved_backend_limit
backend_limit-Within backend_limits pool allocation n h = ground arith

-- After a successful save of a reserved allocation the pool holds no more of its backend than
-- maxRunners, unless no slot is left to its class (or configured), which the store takes for no limit;
-- and over all pools no more than the lower of the pool's and the broker's limit of the backend, of
-- those that are set.
pub save_reserved_bounds :
    (backend_limits : Dict BackendName ℕ) (m : Memory) (allocation : AllocationStatus)
    (pool : PoolConfig)
    → (save_reserved_allocation backend_limits m allocation pool).1 ≡ none
    → let m' = (save_reserved_allocation backend_limits m allocation pool).0 in
      ((saved_max_runners pool allocation ≡ 0)
        ⊎ (count_active m' allocation.pool allocation.selected_backend
            ≤ max_runners_of pool allocation.selected_backend))
      × Within
          (cross_pool_of pool allocation.selected_backend)
          (count_backend_active m' allocation.selected_backend)
      × Within
          (or_zero (get backend_limits allocation.selected_backend))
          (count_backend_active m' allocation.selected_backend)
unfolding save_reserved_allocation
save_reserved_bounds backend_limits m allocation pool h =
    let (slots, shared, owned) = save_if_capacity_bounds m allocation _ _ _ h in
    let (both, lower) = backend_limit-Within backend_limits pool allocation _ shared in
    (slots-Within pool allocation _ slots, both, lower)
