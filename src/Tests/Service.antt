-- ===== src/Tests/Service.antt =====
-- The theorems on saveReservedAllocation at one backend.
use unified_ephemeral_runner.Common.{
  ℕ, String, ◌≡◌, refl, ◌≤◌, ◌⊎◌, none, some, [], arith, string_eq, nat_eq, pair_eq, get, erase,
  put, or_zero,
}
use unified_ephemeral_runner.Common.Text.{trim_space, to_lower}
use unified_ephemeral_runner.Model.{lookup_fold, priority_class_weight}
use unified_ephemeral_runner.Scheduler.FairShare.Lanes.{
  effective_max_runners, soft_reserve_held, priority_class_weight_of,
}
use unified_ephemeral_runner.Store.{
  Memory, new_memory, save, save_if_capacity, capacity_allowed, count_active, count_backend_active,
  count_active_locked, count_backend_active_locked, count_tenant_active_locked,
}
use unified_ephemeral_runner.Store.Capacity.{Within}
use unified_ephemeral_runner.Service.{
  max_runners_of, cross_pool_of, saved_max_runners, save_reserved_allocation,
}
use unified_ephemeral_runner.Service.Limits.{save_reserved_bounds}
use unified_ephemeral_runner.Tests.Fixtures.{backend_config, fair_share, pool, allocation}

saved : (save_reserved_allocation [] new_memory allocation pool).1 ≡ none
unfolding save_reserved_allocation save_if_capacity capacity_allowed count_active_locked
    count_backend_active_locked count_tenant_active_locked
saved = ground arith

save_reserved_bounds_example :
    let m' = (save_reserved_allocation [] new_memory allocation pool).0 in
    ((saved_max_runners pool allocation ≡ 0)
      ⊎ (count_active m' "p" "arc" ≤ max_runners_of pool "arc"))
    × Within (cross_pool_of pool "arc") (count_backend_active m' "arc")
    × Within (or_zero (get {K = String} {V = ℕ} [] "arc")) (count_backend_active m' "arc")
save_reserved_bounds_example = save_reserved_bounds [] new_memory allocation pool saved

abbrev stored : Memory
stored = save new_memory (record allocation { id = "b" })

configured : get pool.backends "arc" ≡ some backend_config
unfolding get
configured = refl

one_slot : effective_max_runners 2 fair_share "low" ≡ 1
unfolding effective_max_runners soft_reserve_held priority_class_weight_of priority_class_weight
    lookup_fold trim_space to_lower get
one_slot = refl

one_held : count_active_locked stored.allocations "p" "arc" "a" ≡ 1
unfolding count_active_locked save put erase
one_held = refl
