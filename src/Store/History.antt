-- ===== src/Store/History.antt =====
-- Histories of the store: which writes the broker may make, and that the limits hold after all of
-- them.
use unified_ephemeral_runner.Common.{
  ℕ, String, ◌≡◌, refl, ◌≤◌, ◌⊎◌, inl, inr, Bool, true, false, not, ◌&&◌, some, List, [], ◌∷◌,
  arith, string_eq, nat_eq, pair_eq, get, erase, put, count_by, count_by-put-le,
  count_by-put-le_of_false, count_by-erase-le,
}
use unified_ephemeral_runner.Model.{PoolName, BackendName, state_eq, AllocationStatus}
use unified_ephemeral_runner.Store.{
  Allocations, Memory, is_excluded, is_scheduler_accounted_state, holds_slot, holds_backend,
  holds_tenant, count_active_locked, count_backend_active_locked, delete_all, count_active,
  count_backend_active,
}
use unified_ephemeral_runner.Store.Capacity.{not_excluded}

-- What is limited: a backend in a pool, a backend over all pools, a tenant in a pool.
pub data Limit : Type 0 where
  slot : PoolName → BackendName → Limit
  backend : BackendName → Limit
  tenant : PoolName → String → Limit

abbrev pub holds : Limit → AllocationStatus → Bool
holds (slot p b) s = holds_slot p b s
holds (backend b) s = holds_backend b s
holds (tenant p t) s = holds_tenant p t s

-- The count that the store compares with the limit. A tenant's limit goes by its normalized name.
abbrev pub usage : Limit → Memory → ℕ
usage (slot p b) m = count_active m p b
usage (backend b) m = count_backend_active m b
usage (tenant p t) m = count_by (λ j s. not (is_excluded "" j) && holds_tenant p t s) m.allocations

abbrev pub usage_by : (AllocationStatus → Bool) → Allocations → ℕ
usage_by p m = count_by (λ j s. not (is_excluded "" j) && p s) m

pub usage-holds : (l : Limit) (m : Memory) → usage l m ≡ usage_by (holds l) m.allocations
unfolding count_active count_backend_active count_active_locked count_backend_active_locked
usage-holds (slot p b) m = refl
usage-holds (backend b) m = refl
usage-holds (tenant p t) m = refl

pub holds_accounted :
    (l : Limit) (s : AllocationStatus)
    → holds l s ≡ true
    → is_scheduler_accounted_state s.state ≡ true
holds_accounted (slot p b) s h = ground arith
holds_accounted (backend b) s h = ground arith
holds_accounted (tenant p t) s h = ground arith

-- Whether a record counts depends on its pool, backend, tenant and state alone.
pub holds_same :
    (l : Limit) (s t : AllocationStatus)
    → s.pool ≡ t.pool
    → s.selected_backend ≡ t.selected_backend
    → s.tenant ≡ t.tenant
    → is_scheduler_accounted_state s.state ≡ true
    → holds l t ≡ true
    → holds l s ≡ true
holds_same (slot p b) s t hp hb ht a h = rw (hp, hb, a) (ground arith)
holds_same (backend b) s t hp hb ht a h = rw (hb, a) (ground arith)
holds_same (tenant p u) s t hp hb ht a h = rw (hp, a, ht) (ground arith)

-- A write that the limit does not count, or that replaces a record that it counts, is free.
pub usage-put :
    (p : AllocationStatus → Bool) (m : Allocations) (k : String) (s : AllocationStatus)
    → ((p s ≡ false) ⊎ ((old : AllocationStatus) × (get m k ≡ some old) × (p old ≡ true)))
    → usage_by p (put m k s) ≤ usage_by p m
usage-put p m k s (inl h) =
    count_by-put-le_of_false (λ j t. not (is_excluded "" j) && p t) m k s
      (rw (not_excluded p m s k s) h)
usage-put p m k s (inr (old, g, h)) =
    count_by-put-le (λ j t. not (is_excluded "" j) && p t) m k s old g
      (rw (not_excluded p m s k old) h)

pub usage-erase :
    (p : AllocationStatus → Bool) (m : Allocations) (k : String)
    → usage_by p (erase m k) ≤ usage_by p m
usage-erase p m k = count_by-erase-le (λ j t. not (is_excluded "" j) && p t) m k

pub usage-delete_all :
    (p : AllocationStatus → Bool) (m : Allocations) (ids : List String)
    → usage_by p (delete_all m ids) ≤ usage_by p m
unfolding delete_all
usage-delete_all p m [] = omega arith
usage-delete_all p m (id ∷ ids) =
    omega (arith, usage-delete_all p (erase m id) ids, usage-erase p m id)
