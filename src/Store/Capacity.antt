-- ===== src/Store/Capacity.antt =====
-- What a capacity-checked save guarantees (SaveIfCapacity, capacityAllowed).
use unified_ephemeral_runner.Common.{
  ℕ, String, ◌≡◌, ◌≤◌, ◌<◌, ◌↔◌, ◌⊎◌, inl, inr, Bool, not, ◌&&◌, none, some, arith, ◌==◌, string_eq,
  put, count_by, Bool-cases, count_by-skip, count_by_congr, count_by-put-le-suc, count_by-erase-le,
}
use unified_ephemeral_runner.Model.{AllocationStatus}
use unified_ephemeral_runner.Store.{
  no_capacity, Allocations, is_excluded, holds_slot, holds_backend, holds_tenant, normalize_tenant,
  count_active_locked, count_backend_active_locked, count_tenant_active_locked, capacity_allowed,
  Memory, save_if_capacity, count_active, count_backend_active, count_tenant_active,
}

abbrev pub Within : ℕ → ℕ → Type 0
Within limit n = (limit ≡ 0) ⊎ (n ≤ limit)

abbrev pub Exceeds : ℕ → ℕ → Type 0
Exceeds limit n = (0 < limit) × (limit ≤ n)

module _ (p : AllocationStatus → Bool) (m : Allocations) (status : AllocationStatus) where
  open status use {id}

  pub not_excluded : (j : String) (s : AllocationStatus) → (not (is_excluded "" j) && p s) ≡ p s
  not_excluded j s = ground arith

  -- A loop that skips the id of the record being saved counts what the write leaves beside it.
  -- The empty id is never skipped.
  pub count_by-put-excluded :
      (bound : ℕ)
      → count_by (λ j s. not (is_excluded id j) && p s) m < bound
      → count_by (λ j s. not (is_excluded "" j) && p s) (put m id status) ≤ bound
  count_by-put-excluded bound h = elim (Bool-cases (id == "")) [
    | inl blank ↦ ground (
      arith,
      count_by_congr (λ j s. not (is_excluded id j) && p s) (λ j s. p s) m (λ j s. rw blank),
      count_by_congr (λ j s. not (is_excluded "" j) && p s) (λ j s. p s) (put m id status)
          not_excluded,
      count_by-put-le-suc (λ j s. p s) m id status,
      count_by-erase-le (λ j s. p s) m id,
    )
    | inr named ↦ ground (
      arith,
      count_by_congr (λ j s. not (is_excluded id j) && p s) (λ j s. not (j == id) && p s) m
          (λ j s. rw named),
      count_by-skip (λ j s. p s) m id,
      count_by_congr (λ j s. not (is_excluded "" j) && p s) (λ j s. p s) (put m id status)
          not_excluded,
      count_by-put-le-suc (λ j s. p s) m id status,
    )
  ]

module _ (m : Memory) (status : AllocationStatus) (max_runners tenant_quota backend_limit : ℕ) where
  abbrev Below : ℕ → ℕ → Type 0
  Below limit n = (limit ≡ 0) ⊎ (n < limit)

  -- What the three tests leave when they all pass.
  save_if_capacity_ok :
      (save_if_capacity m status max_runners tenant_quota backend_limit).1 ≡ none
      → Below max_runners
          (count_active_locked m.allocations status.pool status.selected_backend status.id)
        × Below backend_limit
            (count_backend_active_locked m.allocations status.selected_backend status.id)
        × Below tenant_quota
            (count_tenant_active_locked m.allocations status.pool status.tenant status.id)
        × ((save_if_capacity m status max_runners tenant_quota backend_limit).0
            ≡ record m { allocations = put m.allocations status.id status })
  unfolding save_if_capacity capacity_allowed
  save_if_capacity_ok h = ground arith

  bounds_after :
      (p : AllocationStatus → Bool) (limit : ℕ)
      → Below limit (count_by (λ j s. not (is_excluded status.id j) && p s) m.allocations)
      → Within limit
          (count_by (λ j s. not (is_excluded "" j) && p s) (put m.allocations status.id status))
  bounds_after p limit (inl e) = inl e
  bounds_after p limit (inr h) = inr (count_by-put-excluded p m.allocations status limit h)

  -- When a capacity-checked save succeeds, none of the three limits that are set (positive) is
  -- exceeded afterwards: neither the pool's for the backend, nor the backend's over all pools, nor
  -- the tenant's in the pool.
  pub save_if_capacity_bounds :
      (save_if_capacity m status max_runners tenant_quota backend_limit).1 ≡ none
      → let m' = (save_if_capacity m status max_runners tenant_quota backend_limit).0 in
        Within max_runners (count_active m' status.pool status.selected_backend)
        × Within backend_limit (count_backend_active m' status.selected_backend)
        × Within tenant_quota (count_tenant_active m' status.pool status.tenant)
  unfolding count_active count_backend_active count_tenant_active count_active_locked
      count_backend_active_locked count_tenant_active_locked
  save_if_capacity_bounds h =
      let (active, backend, tenant, saved) = save_if_capacity_ok h in
      rw saved (
        bounds_after (holds_slot status.pool status.selected_backend) max_runners active,
        bounds_after (holds_backend status.selected_backend) backend_limit backend,
        bounds_after (holds_tenant status.pool (normalize_tenant status.tenant)) tenant_quota
            tenant,
      )

  pub save_if_capacity_saves :
      (save_if_capacity m status max_runners tenant_quota backend_limit).1 ≡ none
      → (save_if_capacity m status max_runners tenant_quota backend_limit).0
        ≡ record m { allocations = put m.allocations status.id status }
  save_if_capacity_saves h = (save_if_capacity_ok h).3

  -- A capacity-checked save fails exactly when a limit that is set is reached by the other
  -- allocations, and then it leaves the store as it was.
  pub save_if_capacity_error :
      (((save_if_capacity m status max_runners tenant_quota backend_limit).1 ≡ some no_capacity) ↔ (
        Exceeds max_runners
          (count_active_locked m.allocations status.pool status.selected_backend status.id)
        ⊎ (Exceeds backend_limit
              (count_backend_active_locked m.allocations status.selected_backend status.id)
            ⊎ Exceeds tenant_quota
                (count_tenant_active_locked m.allocations status.pool status.tenant status.id))))
      × (((save_if_capacity m status max_runners tenant_quota backend_limit).1 ≡ none)
          ⊎ ((save_if_capacity m status max_runners tenant_quota backend_limit).0 ≡ m))
  unfolding save_if_capacity capacity_allowed
  save_if_capacity_error = ground arith
