-- ===== src/Service/Lifecycle.antt =====
-- internal/api/service.go: the end of an allocation. This file has what the handlers share: the
-- configuration they read, the store, the penalties, and the calls that they make of the other parts of
-- the broker. Metrics, traces and log lines are left out.
pub mod Finish
pub mod Sweep
use unified_ephemeral_runner.Common.{
  ℕ, String, ◌*◌, Bool, false, not, ◌&&◌, ◌||◌, Option, none, some, List, [], ◌∷◌, ◌==◌, string_eq,
  nat_eq, pair_eq, Dict, get, if◌then◌else◌, eqb, ltb, or_zero,
}
use unified_ephemeral_runner.Common.Text.{trim_space}
use unified_ephemeral_runner.Model.{
  Time, Duration, minute, PoolName, BackendName, BackendConfig, PoolConfig, AllocationState,
  reserved, ready, state_eq, AllocationStatus,
}
use unified_ephemeral_runner.Store.{Memory, mark_state, is_terminal_state}
use unified_ephemeral_runner.WorkflowJobRetry.{RegistrationPenalties}

-- The fields of BrokerConfig that the handlers read. `lifecycle` says whether there is a notifier.
pub record Config : Type 0 where
  pub default_pool : PoolName
  pub backend_limits : Dict BackendName ℕ
  pub registration_timeout : Duration
  pub orphan_cleanup : Bool
  pub quarantine_ttl : Duration
  pub grace_period : Duration
  pub retention : Duration
  pub lifecycle : Bool
  pub pools : List PoolConfig

-- The calls of the handlers on the schedulers and backends, the admission and the notifier.
pub data Call : Type 0 where
  notifies : AllocationStatus → Call
  releases : PoolConfig → BackendName → AllocationStatus → Bool → Call
  reclaims : AllocationStatus → Call
  fails_with : PoolConfig → BackendName → String → Time → Call

-- The newest call is the first.
pub record Broker : Type 0 where
  pub store : Memory
  pub penalties : RegistrationPenalties
  pub calls : List Call

abbrev pub call : Broker → Call → Broker
call b c = record b { calls = c ∷ b.calls }

-- isActiveAllocationState
unfoldable pub is_active_state : AllocationState → Bool
is_active_state state = state == ready || state == reserved

abbrev pub limited_backend : Dict BackendName ℕ → BackendName → BackendConfig → BackendConfig
limited_backend limits name cfg =
    let limit = or_zero (get limits name) in
    if ltb 0 limit && (eqb cfg.cross_pool_max_runners 0 || ltb limit cfg.cross_pool_max_runners)
    then record cfg { cross_pool_max_runners = limit }
    else cfg

abbrev pub limited_backends :
    Dict BackendName ℕ → Dict BackendName BackendConfig → Dict BackendName BackendConfig
limited_backends limits [] = []
limited_backends limits ((name, cfg) ∷ backends) =
    (name, limited_backend limits name cfg) ∷ limited_backends limits backends

unfoldable pub find_pool : List PoolConfig → PoolName → Option PoolConfig
find_pool [] name = none
find_pool (pool ∷ pools) name =
    let rest = find_pool pools name in if pool.name == name then some pool else rest

-- resolvePool; the error is `none`. With no limits the backends are the pool's own.
unfoldable pub resolve_pool : Config → PoolName → Option PoolConfig
resolve_pool cfg name =
    let name' = if name == "" then cfg.default_pool else name in
    elim (find_pool cfg.pools name') [
      | none ↦ none
      | some pool ↦
          some (record pool { backends = limited_backends cfg.backend_limits pool.backends })
    ]

-- notifyLifecycleTerminal
unfoldable pub notify_lifecycle_terminal : Config → Broker → AllocationStatus → Broker
notify_lifecycle_terminal cfg b status =
    if not (is_terminal_state status.state)
    then b
    else if not cfg.lifecycle || status.id == ""
    then b
    else call b (notifies status)

-- Service.markState
unfoldable pub mark_and_notify :
    Config → Broker → String → AllocationState → Time → String → Broker × Option AllocationStatus
mark_and_notify cfg b id state now message =
    let r = mark_state b.store id state now message in
    let marked : Broker = record b { store = r.0 } in
    elim r.1 [
      | none ↦ (marked, none)
      | some updated ↦ (notify_lifecycle_terminal cfg marked updated, some updated)
    ]

-- isStaticLabelBackend
unfoldable pub is_static_label_backend : Config → PoolName → BackendName → Bool
is_static_label_backend cfg pool_name backend_name = elim (resolve_pool cfg pool_name) [
  | none ↦ false
  | some pool ↦ elim (get pool.backends backend_name) [
    | none ↦ false
    | some backend ↦ not (trim_space backend.runner_label == "")
  ]
]

abbrev pub default_registration_timeout : Duration
default_registration_timeout = 10 * minute

abbrev pub backend_registration_timeout : Config → AllocationStatus → Duration
backend_registration_timeout cfg status = elim (resolve_pool cfg status.pool) [
  | none ↦ 0
  | some pool ↦ elim (get pool.backends status.selected_backend) [
    | none ↦ 0
    | some backend ↦ backend.registration_timeout
  ]
]

abbrev pub request_registration_timeout : AllocationStatus → Duration
request_registration_timeout status = elim status.request [
  | none ↦ 0
  | some request ↦ request.registration_timeout
]

-- effectiveRegistrationTimeout
unfoldable pub effective_registration_timeout : Config → AllocationStatus → Duration
effective_registration_timeout cfg status =
    if ltb 0 (request_registration_timeout status)
    then request_registration_timeout status
    else if ltb 0 (backend_registration_timeout cfg status)
    then backend_registration_timeout cfg status
    else if ltb 0 cfg.registration_timeout
    then cfg.registration_timeout
    else default_registration_timeout

-- A pointer to a time is neither nil nor to the zero time.
unfoldable pub is_set : Option Time → Bool
is_set none = false
is_set (some t) = not (eqb t 0)
