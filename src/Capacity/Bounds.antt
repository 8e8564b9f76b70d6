-- ===== src/Capacity/Bounds.antt =====
-- What EffectiveMaxRunners promises, and the pool that the live-capacity filter passes on.
use unified_ephemeral_runner.Common.{
  ℕ, String, ◌≡◌, subst, ◌-◌, ◌≤◌, ◌<◌, ◌≢◌, inl, inr, true, false, Option, none, some, [], ◌∷◌,
  arith, ◌==◌, string_eq, nat_eq, pair_eq, Dict, get, Bool-cases, Option-cases,
}
use unified_ephemeral_runner.Model.{BackendName, BackendConfig, PoolConfig, AllocationRequest}
use unified_ephemeral_runner.Capacity.{
  Snapshot, Manager, free_slots, effective_max_runners, in_failure_mode, stale_or_error,
  live_ceiling, live, clamp_backend, is_schedulable, clamp_each, filter_backends_by_live_capacity,
  clamp_pinned, clamp_unpinned,
}

-- An available backend can take one runner more than are active, within the configured maximum. If
-- the answer rests on a live reading, the runners it can take fit into the provider's free slots,
-- and the total is within the provider's maximum too.
pub ceiling_bounds :
    (cfg_max active : ℕ) (s : Option Snapshot) (mode : String)
    → (effective_max_runners cfg_max active s mode).available ≡ true
    → (active < (effective_max_runners cfg_max active s mode).max)
      × ((effective_max_runners cfg_max active s mode).max ≤ cfg_max)
      × ((t : Snapshot)
          → s ≡ some t
          → (effective_max_runners cfg_max active s mode).reason ≡ live
          → ((effective_max_runners cfg_max active s mode).max - active ≤ free_slots t.status)
            × ((effective_max_runners cfg_max active s mode).max ≤ t.status.max_runners))
unfolding effective_max_runners in_failure_mode stale_or_error live_ceiling
ceiling_bounds cfg_max active none mode h = ground arith
ceiling_bounds cfg_max active (some s) mode h = ground arith

-- A backend whose reading names an unavailable node is never available, in any failure mode, and
-- stale or failed readings too.
pub node_unavailable_blocks :
    (cfg_max active : ℕ) (s : Snapshot) (mode : String)
    → s.status.node_unavailable ≢ ""
    → (effective_max_runners cfg_max active (some s) mode).available ≡ false
unfolding effective_max_runners
node_unavailable_blocks cfg_max active s mode down =
    let differs = string_eq.agrees_iff s.status.node_unavailable "" in ground arith

clamped_room :
    (cfg : BackendConfig) (active : ℕ) (s : Option Snapshot) (mode : String)
    → is_schedulable (clamp_backend cfg active s mode).0 ≡ true
    → (active < (clamp_backend cfg active s mode).0.max_runners)
      × ((clamp_backend cfg active s mode).0.max_runners ≤ cfg.max_runners)
unfolding clamp_backend
clamped_room cfg active s mode h =
    let bounds = ceiling_bounds cfg.max_runners active s mode in
    elim (Bool-cases (effective_max_runners cfg.max_runners active s mode).available) [
      | inl e ↦ let (room, le, fits) = bounds e in ground arith
      | inr e ↦ ground arith
    ]

module _ (active : BackendName → ℕ) (m : Manager) (mode : String) where
  get-clamp_each :
      (backends : Dict BackendName BackendConfig) (name : BackendName) (cfg : BackendConfig)
      → get (clamp_each active m mode backends) name ≡ some cfg
      → (original : BackendConfig) × (get backends name ≡ some original)
        × (cfg ≡ (clamp_backend original (active name) (get m name) mode).0)
  unfolding clamp_each get
  get-clamp_each [] name cfg h = absurd (ground arith)
  get-clamp_each ((other, c) ∷ backends) name cfg h = elim (Bool-cases (other == name)) [
    | inl e ↦
        let same : other ≡ name = (string_eq.agrees_iff other name).0 e in
        (c, ground arith, ground arith)
    | inr e ↦
        let (original, found, clamped) = get-clamp_each backends name cfg (ground arith) in
        (original, ground arith, clamped)
  ]

  pinned_is_clamped :
      (pool filtered : PoolConfig) (b name : BackendName) (cfg : BackendConfig)
      → clamp_pinned active m mode pool b ≡ inr filtered
      → get filtered.backends name ≡ some cfg
      → (original : BackendConfig) × (get pool.backends name ≡ some original)
        × (cfg ≡ (clamp_backend original (active name) (get m name) mode).0)
  unfolding clamp_pinned get
  pinned_is_clamped pool filtered b name cfg h found = elim (Option-cases (get pool.backends b)) [
    | inl e ↦ absurd (ground arith)
    | inr (original, e) ↦
        let r = clamp_backend original (active b) (get m b) mode in
        let one : filtered.backends ≡ (b, r.0) ∷ [] = ground arith in
        elim (Bool-cases (b == name)) [
          | inl same ↦
              let is : b ≡ name = (string_eq.agrees_iff b name).0 same in
              (original, ground arith, ground arith)
          | inr other ↦ absurd (ground arith)
        ]
  ]

  unpinned_is_clamped :
      (pool filtered : PoolConfig)
      → clamp_unpinned active m mode pool ≡ inr filtered
      → filtered.backends ≡ clamp_each active m mode pool.backends
  unfolding clamp_unpinned
  unpinned_is_clamped pool filtered h = ground arith

  filtered_is_clamped :
      (pool filtered : PoolConfig) (request : AllocationRequest) (name : BackendName)
      (cfg : BackendConfig)
      → filter_backends_by_live_capacity active m mode pool request ≡ inr filtered
      → get filtered.backends name ≡ some cfg
      → (original : BackendConfig) × (get pool.backends name ≡ some original)
        × (cfg ≡ (clamp_backend original (active name) (get m name) mode).0)
  unfolding filter_backends_by_live_capacity
  filtered_is_clamped pool filtered request name cfg h found = elim (Option-cases request.backend) [
    | inl e ↦
        let all =
          unpinned_is_clamped pool filtered (rw (e, filter_backends_by_live_capacity) at h) in
        get-clamp_each pool.backends name cfg
          (subst (λ backends. get backends name ≡ some cfg) all found)
    | inr (b, e) ↦
        pinned_is_clamped pool filtered b name cfg (rw (e, filter_backends_by_live_capacity) at h)
          found
  ]

  -- A backend that the scheduler may still choose after the live-capacity filter is configured in
  -- the pool, has a limit above its active count and no larger than the configured one.
  pub live_capacity_room :
      (pool filtered : PoolConfig) (request : AllocationRequest) (name : BackendName)
      (cfg : BackendConfig)
      → filter_backends_by_live_capacity active m mode pool request ≡ inr filtered
      → get filtered.backends name ≡ some cfg
      → is_schedulable cfg ≡ true
      → (original : BackendConfig) × (get pool.backends name ≡ some original)
        × (active name < cfg.max_runners)
        × (cfg.max_runners ≤ original.max_runners)
  live_capacity_room pool filtered request name cfg h found usable =
      let (original, known, clamped) = filtered_is_clamped pool filtered request name cfg h found in
      let (room, le) =
        clamped_room original (active name) (get m name) mode
          (subst (λ c. is_schedulable c ≡ true) clamped usable) in
      (original, known, ground arith, ground arith)
