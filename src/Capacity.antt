-- ===== src/Capacity.antt =====
-- internal/capacity/manager.go, Refresh of internal/capacity/refresh.go, FreeSlots of
-- internal/backend/backend.go and filterBackendsByLiveCapacity of internal/api/service.go. A
-- provider's reading is an argument, and so is the scheduler's active count.
pub mod Bounds
pub mod Failures
use unified_ephemeral_runner.Common.{
  ℕ, zero, suc, String, ◌≡◌, refl, sym, ap, ◌∙◌, subst, ◌+◌, ◌-◌, ◌*◌, ◌/◌, ◌%◌, ◌^◌, ◌≤◌, ◌<◌, ◌≢◌,
  ◌↔◌, ◌⊎◌, inl, inr, Bool, true, false, not, ◌&&◌, ◌||◌, Option, none, some, List, [], ◌∷◌, ◌++◌,
  map, arith, Comparable, ◌==◌, ==_refl, string_eq, nat_eq, pair_eq, Dict, get, erase, put,
  count_by, Unique, if◌then◌else◌, eqb, leb, ltb, Bool-cases, Option-cases, is_some, or_zero,
  ltb→lt, lt→ltb, leb→le, eqb_iff, count_by_congr, count_by-skip, count_by-put-le,
  count_by-put-le_of_false, count_by-put-le-suc, count_by-erase-le, count_by-erase-lt, get-erase,
  get-put, get-put_self, get-nil, erase-Unique, put-Unique, length, get_elem?, take, replicate,
  filter, any, sum_by, value_of, sum_by-put, length-append, length-filter-le, get_elem?-lt,
}
use unified_ephemeral_runner.Model.{
  Time, Duration, PoolName, BackendName, BackendConfig, PoolConfig, AllocationRequest,
}

-- backend.CapacityStatus
pub record CapacityStatus : Type 0 where
  pub max_runners : ℕ
  pub active_runners : ℕ
  pub pending_runners : ℕ
  pub warm_runners : ℕ
  pub node_unavailable : String

pub record Snapshot : Type 0 where
  pub backend : BackendName
  pub status : CapacityStatus
  pub updated_at : Time
  pub stale : Bool
  pub error : String
  pub source : String

abbrev pub Manager : Type 0
Manager = Dict BackendName Snapshot

abbrev pub no_status : CapacityStatus
no_status = record {
  max_runners = 0;
  active_runners = 0;
  pending_runners = 0;
  warm_runners = 0;
  node_unavailable = "";
}

unfoldable pub with_source : Snapshot → Snapshot
with_source s =
    if not (s.source == "")
    then s
    else if not (s.error == "")
    then record s { source = "error" }
    else record s { source = "live" }

-- Manager.Set
unfoldable pub set : Manager → Snapshot → Manager
set m s = put m s.backend (with_source s)

-- Manager.MarkStale
unfoldable pub mark_stale : Manager → Duration → Time → Manager
mark_stale m stale_after now =
    if leb stale_after 0
    then m
    else map
        (λ entry.
          if eqb entry.1.updated_at 0 || ltb stale_after (now - entry.1.updated_at)
          then (entry.0, record entry.1 { stale = true })
          else entry)
        m

-- backend.FreeSlots
unfoldable pub free_slots : CapacityStatus → ℕ
free_slots s = s.max_runners - (s.active_runners + s.pending_runners + s.warm_runners)

pub data FailureMode : Type 0 where
  pass_through block : FailureMode

-- normalizeFailureMode
unfoldable pub normalize_failure_mode : String → FailureMode
normalize_failure_mode mode =
    if mode == "block" || mode == "block-stale" || mode == "fail-closed"
    then block
    else pass_through

pub data CapacityReason : Type 0 where
  disabled node_is_unavailable local_full no_live_data : CapacityReason
  stale_pass_through provider_ceiling provider_full live : CapacityReason
  capacity_error capacity_invalid capacity_stale : CapacityReason

-- staleBlockReason
unfoldable pub stale_block_reason : Snapshot → CapacityReason
stale_block_reason s =
    if not (s.error == "") || s.source == "error"
    then capacity_error
    else if leb s.status.max_runners 0
    then capacity_invalid
    else capacity_stale

-- The results of EffectiveMaxRunners.
pub record Ceiling : Type 0 where
  pub max : ℕ
  pub available : Bool
  pub reason : CapacityReason

abbrev ceiling : ℕ → Bool → CapacityReason → Ceiling
ceiling max available reason = record { max = max; available = available; reason = reason }

pub in_failure_mode : ℕ → Snapshot → FailureMode → Ceiling
in_failure_mode cfg_max s block = ceiling cfg_max false (stale_block_reason s)
in_failure_mode cfg_max s pass_through = ceiling cfg_max true stale_pass_through

pub stale_or_error : Snapshot → Bool
stale_or_error s =
    s.stale || not (s.error == "") || s.source == "error" || leb s.status.max_runners 0

pub live_ceiling : ℕ → ℕ → CapacityStatus → Ceiling
live_ceiling cfg_max local_active status =
    let free = free_slots status in
    let limit =
      if ltb 0 status.max_runners && ltb status.max_runners cfg_max
      then status.max_runners
      else cfg_max in
    let remaining = if ltb free (limit - local_active) then free else limit - local_active in
    if leb limit local_active
    then ceiling limit false provider_ceiling
    else if leb free 0
    then ceiling limit false provider_full
    else ceiling (local_active + remaining) true live

-- EffectiveMaxRunners
unfoldable pub effective_max_runners : ℕ → ℕ → Option Snapshot → String → Ceiling
unfolding in_failure_mode stale_or_error live_ceiling
effective_max_runners cfg_max local_active none failure_mode =
    if leb cfg_max 0
    then ceiling 0 false disabled
    else if leb cfg_max local_active
    then ceiling cfg_max false local_full
    else ceiling cfg_max true no_live_data
effective_max_runners cfg_max local_active (some s) failure_mode =
    if leb cfg_max 0
    then ceiling 0 false disabled
    else if not (s.status.node_unavailable == "")
    then ceiling 0 false node_is_unavailable
    else if leb cfg_max local_active
    then ceiling cfg_max false local_full
    else if stale_or_error s
    then in_failure_mode cfg_max s (normalize_failure_mode failure_mode)
    else live_ceiling cfg_max local_active s.status

-- What a provider's Capacity returned: a status, or an error with this text.
pub data Reading : Type 0 where
  success : CapacityStatus → Reading
  failure : String → Reading

-- The status that a failed poll keeps: that of the snapshot before, if it has no error.
unfoldable pub kept_status : Option Snapshot → CapacityStatus
kept_status none = no_status
kept_status (some previous) = if previous.error == "" then previous.status else no_status

-- The snapshot that Refresh stores for one polled backend.
unfoldable pub polled : Manager → BackendName → Reading → Time → Snapshot
polled m name (success status) now = record {
  backend = name;
  status = status;
  updated_at = now;
  stale = false;
  error = "";
  source = "live";
}
polled m name (failure text) now = record {
  backend = name;
  status = kept_status (get m name);
  updated_at = now;
  stale = false;
  error = text;
  source = "error";
}

-- One round of Refresh's loop, for a backend that was not seen before and has a reporter.
unfoldable pub poll : Manager → BackendName → Reading → Time → Manager
poll m name reading now = set m (polled m name reading now)

-- The loop of Refresh over the backends of a pool. A backend without a reporter reads as none.
unfoldable pub refresh_each :
    (BackendName → Option Reading)
    → Time
    → Dict BackendName BackendConfig
    → Manager × List BackendName
    → Manager × List BackendName
refresh_each readings now [] state = state
refresh_each readings now ((name, cfg) ∷ backends) (m, seen) =
    let polls : Manager = elim (readings name) [
      | none ↦ m
      | some reading ↦ poll m name reading now
    ] in
    let next =
      if not cfg.enabled || any (λ s. s == name) seen then (m, seen) else (polls, name ∷ seen) in
    refresh_each readings now backends next

refresh_pools :
    (BackendName → Option Reading)
    → Time
    → List PoolConfig
    → Manager × List BackendName
    → Manager × List BackendName
refresh_pools readings now [] state = state
refresh_pools readings now (pool ∷ pools) state =
    refresh_pools readings now pools (refresh_each readings now pool.backends state)

-- Refresh
unfoldable pub refresh : (BackendName → Option Reading) → Manager → List PoolConfig → Time → Manager
unfolding refresh_pools
refresh readings m pools now = (refresh_pools readings now pools (m, [])).0

abbrev pub is_schedulable : BackendConfig → Bool
is_schedulable cfg = cfg.enabled && cfg.healthy && ltb 0 cfg.max_runners

-- poolHasSchedulableBackend
unfoldable pub pool_has_schedulable_backend : Dict BackendName BackendConfig → Bool
pool_has_schedulable_backend backends = any (λ entry. is_schedulable entry.1) backends

pub data CapacityError : Type 0 where
  unknown_backend no_capacity live_capacity : CapacityError

-- The configuration of a backend for this attempt, and whether live capacity skipped it.
unfoldable pub clamp_backend : BackendConfig → ℕ → Option Snapshot → String → BackendConfig × Bool
clamp_backend cfg active s failure_mode =
    let r = effective_max_runners cfg.max_runners active s failure_mode in
    if not (is_schedulable cfg)
    then (cfg, false)
    else if not r.available
    then (record cfg { healthy = false }, true)
    else if ltb 0 r.max && ltb r.max cfg.max_runners
    then (record cfg { max_runners = r.max }, false)
    else (cfg, false)

module _ (active : BackendName → ℕ) (m : Manager) (failure_mode : String) where
  unfoldable pub clamp_each : Dict BackendName BackendConfig → Dict BackendName BackendConfig
  clamp_each [] = []
  clamp_each ((name, cfg) ∷ backends) =
      (name, (clamp_backend cfg (active name) (get m name) failure_mode).0) ∷ clamp_each backends

  unfoldable pub any_skipped : Dict BackendName BackendConfig → Bool
  any_skipped [] = false
  any_skipped ((name, cfg) ∷ backends) =
      let rest = any_skipped backends in
      (clamp_backend cfg (active name) (get m name) failure_mode).1 || rest

  clamp_pinned : PoolConfig → BackendName → CapacityError ⊎ PoolConfig
  clamp_pinned pool backend = elim (get pool.backends backend) [
    | none ↦ inl unknown_backend
    | some cfg ↦
        let r = clamp_backend cfg (active backend) (get m backend) failure_mode in
        if not (is_schedulable cfg)
        then inl no_capacity
        else if r.1
        then inl live_capacity
        else inr (record pool { backends = (backend, r.0) ∷ [] })
  ]

  clamp_unpinned : PoolConfig → CapacityError ⊎ PoolConfig
  clamp_unpinned pool =
      if not (pool_has_schedulable_backend (clamp_each pool.backends))
      then inl (if any_skipped pool.backends then live_capacity else no_capacity)
      else inr (record pool { backends = clamp_each pool.backends })

  -- filterBackendsByLiveCapacity, with LiveCapacity enabled
  unfoldable pub filter_backends_by_live_capacity :
      PoolConfig → AllocationRequest → CapacityError ⊎ PoolConfig
  unfolding clamp_pinned clamp_unpinned
  filter_backends_by_live_capacity pool request = elim request.backend [
    | some backend ↦ clamp_pinned pool backend
    | none ↦ clamp_unpinned pool
  ]
