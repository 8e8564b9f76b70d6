-- ===== src/Scheduler.antt =====
-- internal/scheduler/: reservation of backends. `round_robin.go`, `weighted_round_robin.go` and
-- `stateful.go` are here and in the children; the priority fair share is in FairShare.
-- A method of a scheduler takes its state and returns the new one; the mutex makes it one step.
pub mod Counts
pub mod Ring
pub mod Reserve
pub mod Limits
pub mod Order
pub mod FairShare
use unified_ephemeral_runner.Common.{
  ℕ, zero, suc, String, ◌+◌, ◌-◌, ◌%◌, Bool, true, false, not, ◌&&◌, ◌||◌, Option, none, some, List,
  [], ◌∷◌, ◌++◌, map, ◌==◌, string_eq, Dict, get, put, if◌then◌else◌, eqb, leb, ltb, or_zero,
  length, replicate, sum_by,
}
use unified_ephemeral_runner.Common.Sorting.{sort}
use unified_ephemeral_runner.Common.Text.{trim_space, to_lower}
use unified_ephemeral_runner.Model.{
  PoolName, BackendName, BackendConfig, PoolConfig, AllocationRequest,
}

pub data SchedulerError : Type 0 where
  unknown_backend no_capacity quota_exceeded : SchedulerError

pub data Result {ℓ} (A : Type ℓ) : Type ℓ where
  ok : A → Result A
  err : SchedulerError → Result A

-- internal/budget/tracker.go, CostClass.
unfoldable pub cost_class : BackendName → BackendConfig → ℕ
cost_class name cfg =
    if ltb 0 cfg.cost_class
    then cfg.cost_class
    else if cfg.driver == "kubernetes"
    then 10
    else if name == "arc" || name == "kubernetes" || name == "desktop"
    then 10
    else if name == "azure-functions"
    then 30
    else if name == "lambda"
    then 40
    else if name == "codebuild" || name == "cloud-run"
    then 50
    else if name == "azure-vm"
    then 80
    else if name == "ec2" || name == "gce"
    then 90
    else 100

-- preferredBackendOrder
abbrev pub preferred_backend_order : List BackendName
preferred_backend_order =
    "arc" ∷ "kubernetes" ∷ "codebuild" ∷ "lambda" ∷ "cloud-run" ∷ "azure-functions" ∷ "azure-vm"
    ∷ "ec2" ∷ "gce" ∷ "desktop" ∷ []

-- The first index of a name, or the length of the list.
abbrev pub rank_index : List BackendName → BackendName → ℕ
rank_index [] name = 0
rank_index (x ∷ xs) name = let rest = suc (rank_index xs name) in if x == name then 0 else rest

pub record Ranked : Type 0 where
  pub name : BackendName
  pub cost : ℕ
  pub order : ℕ

abbrev pub ranked : BackendName × BackendConfig → Ranked
ranked (name, cfg) = record {
  name = name;
  cost = cost_class name cfg;
  order = rank_index preferred_backend_order name;
}

-- The comparison of the sort: by cost, then by the preferred order.
abbrev pub ranked_less : Ranked → Ranked → Bool
ranked_less a b = if not (eqb a.cost b.cost) then ltb a.cost b.cost else ltb a.order b.order

-- orderedBackends
unfoldable pub ordered_backends : PoolConfig → List BackendName
unfolding cost_class sort
ordered_backends pool = map (λ c. c.name) (sort ranked_less (map ranked pool.backends))

-- backendWeight
unfoldable pub backend_weight : BackendConfig → ℕ
backend_weight cfg = if ltb 0 cfg.weight then cfg.weight else 1

-- The weight of a name of the pool; a missing name has Go's zero configuration.
unfoldable pub weight_of : PoolConfig → BackendName → ℕ
unfolding backend_weight
weight_of pool name = elim (get pool.backends name) [ none ↦ 1 | some cfg ↦ backend_weight cfg ]

abbrev pub repeat_each : (BackendName → ℕ) → List BackendName → List BackendName
repeat_each weight [] = []
repeat_each weight (x ∷ xs) = replicate (weight x) x ++ repeat_each weight xs

-- weightedBackends
unfoldable pub weighted_backends : PoolConfig → List BackendName
weighted_backends pool = repeat_each (weight_of pool) (ordered_backends pool)

-- backendAvailable
unfoldable pub backend_available : BackendConfig → ℕ → ℕ → Bool
backend_available cfg active active_backend =
    if not cfg.enabled || not cfg.healthy
    then false
    else if leb cfg.max_runners active
    then false
    else if ltb 0 cfg.cross_pool_max_runners && leb cfg.cross_pool_max_runners active_backend
    then false
    else true

-- The counts of the reservations: a map for each pool.
abbrev pub Active : Type 0
Active = Dict PoolName (Dict BackendName ℕ)

abbrev pub pool_active : Active → PoolName → Dict BackendName ℕ
pool_active active pool = elim (get active pool) [ none ↦ [] | some counts ↦ counts ]

abbrev pub count_of : Active → PoolName → BackendName → ℕ
count_of active pool backend = or_zero (get (pool_active active pool) backend)

-- activeBackendLocked
abbrev pub active_backend_locked : Active → BackendName → ℕ
active_backend_locked active backend = sum_by (λ entry. or_zero (get entry.1 backend)) active

-- The map of a pool is made on the pool's first reservation.
unfoldable pub ensure_pool : Active → PoolName → Active
ensure_pool active pool = elim (get active pool) [
  | none ↦ put active pool []
  | some counts ↦ active
]

-- s.active[pool][backend] = n
unfoldable pub set_count : Active → PoolName → BackendName → ℕ → Active
set_count active pool backend n = put active pool (put (pool_active active pool) backend n)

pub record OrderedScheduler : Type 0 where
  pub cursors : Dict PoolName ℕ
  pub active : Active

-- newOrderedScheduler; the order is an argument of the operations.
abbrev pub new_ordered_scheduler : OrderedScheduler
new_ordered_scheduler = record { cursors = []; active = [] }

-- The test of a candidate. A name that the pool does not configure has Go's zero configuration,
-- which is not enabled.
unfoldable pub is_candidate : Active → PoolConfig → BackendName → Bool
is_candidate active pool name = elim (get pool.backends name) [
  | none ↦ false
  | some cfg ↦
      backend_available cfg (count_of active pool.name name) (active_backend_locked active name)
]

abbrev pub at : List BackendName → ℕ → BackendName
at [] i = ""
at (x ∷ xs) zero = x
at (x ∷ xs) (suc i) = at xs i

-- The loop over the ring: `rounds` candidates are left, from `offset` on. The result is the index
-- of the first one that passes the test.
unfoldable pub scan : (BackendName → Bool) → List BackendName → ℕ → ℕ → ℕ → Option ℕ
scan test backends start offset zero = none
scan test backends start offset (suc rounds) =
    let rest = scan test backends start (offset + 1) rounds in
    let index = (start + offset) % length backends in
    if test (at backends index) then some index else rest

reserve_pinned : OrderedScheduler → PoolConfig → BackendName → OrderedScheduler × Result BackendName
reserve_pinned s pool pinned = elim (get pool.backends pinned) [
  | none ↦ (s, err unknown_backend)
  | some cfg ↦
      let n = count_of s.active pool.name pinned in
      if not (backend_available cfg n (active_backend_locked s.active pinned))
      then (s, err no_capacity)
      else (record s { active = set_count s.active pool.name pinned (n + 1) }, ok pinned)
]

reserve_next :
    OrderedScheduler → PoolConfig → List BackendName → OrderedScheduler × Result BackendName
reserve_next s pool [] = (s, err no_capacity)
reserve_next s pool (b ∷ bs) =
    let backends = b ∷ bs in
    let start = or_zero (get s.cursors pool.name) % length backends in
    elim (scan (is_candidate s.active pool) backends start 0 (length backends)) [
      | none ↦ (s, err no_capacity)
      | some index ↦
          let candidate = at backends index in
          let n = count_of s.active pool.name candidate in
          (
            record {
              cursors = put s.cursors pool.name ((index + 1) % length backends);
              active = set_count s.active pool.name candidate (n + 1);
            },
            ok candidate,
          )
    ]

-- orderedScheduler.Reserve
unfoldable pub reserve :
    (PoolConfig → List BackendName)
    → OrderedScheduler
    → PoolConfig
    → AllocationRequest
    → OrderedScheduler × Result BackendName
unfolding reserve_pinned reserve_next
reserve order s pool request =
    let s' = record s { active = ensure_pool s.active pool.name } in
    elim request.backend [
      | some pinned ↦ reserve_pinned s' pool pinned
      | none ↦ reserve_next s' pool (order pool)
    ]

-- orderedScheduler.Release
unfoldable pub release : OrderedScheduler → PoolName → BackendName → OrderedScheduler
release s pool backend = elim (get s.active pool) [
  | none ↦ s
  | some counts ↦
      let n = or_zero (get counts backend) in
      if ltb 0 n then record s { active = set_count s.active pool backend (n - 1) } else s
]

-- orderedScheduler.Active
abbrev pub active : OrderedScheduler → PoolName → BackendName → ℕ
active s pool backend = count_of s.active pool backend

pub data SchedulerKind : Type 0 where
  round_robin weighted_round_robin priority_fair_share : SchedulerKind

-- Registry.ForName on the registry of NewRegistry.
unfoldable pub for_name : String → SchedulerKind
for_name name =
    let normalized = to_lower (trim_space name) in
    if normalized == "weighted-round-robin"
    then weighted_round_robin
    else if normalized == "priority-fair-share"
    then priority_fair_share
    else round_robin

-- Registry.ValidateName on the registry of NewRegistry: true where the error is nil.
unfoldable pub validate_name : String → Bool
validate_name name =
    let normalized = to_lower (trim_space name) in
    if normalized == ""
    then true
    else normalized == "round-robin"
      || normalized == "weighted-round-robin"
      || normalized == "priority-fair-share"
