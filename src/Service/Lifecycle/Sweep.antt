-- ===== src/Service/Lifecycle/Sweep.antt =====
-- internal/api/service.go, SweepExpired: the sweep of the allocations whose runner never came, whose
-- job is over its time, or whose quarantine is over.
pub mod Expiry
pub mod UniqueIds
pub mod Fate
use unified_ephemeral_runner.Common.{
  ℕ, String, ◌+◌, ◌-◌, Bool, true, not, ◌&&◌, Option, none, some, List, [], ◌∷◌, ◌==◌, string_eq,
  nat_eq, pair_eq, if◌then◌else◌, eqb, leb, ltb,
}
use unified_ephemeral_runner.Model.{
  Time, Duration, AllocationState, expired, quarantined, state_eq, AllocationRequest,
  AllocationStatus,
}
use unified_ephemeral_runner.Store.{Memory, list, prune_terminal}
use unified_ephemeral_runner.WorkflowJobRetry.{record_registration_expiry}
use unified_ephemeral_runner.Service.Lifecycle.{
  Config, Call, releases, reclaims, fails_with, Broker, call, is_active_state, resolve_pool,
  mark_and_notify, is_static_label_backend, effective_registration_timeout, is_set,
}

abbrev pub job_timeout_of : Option AllocationRequest → Duration
job_timeout_of none = 0
job_timeout_of (some request) = request.job_timeout

-- createdAt, for a record that may have none. A time before Go's zero time is 0 here.
unfoldable pub created_at_of : AllocationStatus → Time
created_at_of status =
    if not (eqb status.created_at 0)
    then status.created_at
    else if not (eqb status.expires_at 0) && ltb 0 (job_timeout_of status.request)
    then status.expires_at - job_timeout_of status.request
    else status.expires_at

-- The time for a runner to come is over.
unfoldable pub is_registration_over : Config → AllocationStatus → Time → Bool
is_registration_over cfg status now =
    let created_at = created_at_of status in
    let timeout = effective_registration_timeout cfg status in
    ltb 0 timeout && not (eqb created_at 0) && leb (created_at + timeout) now

-- No runner came: for a static label none claimed, else none registered or claimed.
unfoldable pub is_unconfirmed : Config → AllocationStatus → Bool
is_unconfirmed cfg status =
    if is_static_label_backend cfg status.pool status.selected_backend
    then not (is_set status.claimed_at)
    else not (is_set status.registered_at) && not (is_set status.claimed_at)

abbrev pub unconfirmed_message : Config → AllocationStatus → String
unconfirmed_message cfg status =
    if is_static_label_backend cfg status.pool status.selected_backend
    then "allocation expired: static runner label never claimed within registration timeout"
    else "allocation expired: runner never registered or claimed within registration timeout"

-- releaseStaleLabel and recordBackendFailureClass, or reclaimStaleRunnerLabel without a pool
abbrev pub release_stale : Config → Broker → AllocationStatus → Time → Broker
release_stale cfg b status now = elim (resolve_pool cfg status.pool) [
  | none ↦ call b (reclaims status)
  | some pool ↦
      call (call b (releases pool status.selected_backend status true))
        (fails_with pool status.selected_backend "wait-timeout" now)
]

unfoldable pub expire_unconfirmed : Config → Broker → AllocationStatus → Time → Broker × ℕ
expire_unconfirmed cfg b status now =
    let marked = mark_and_notify cfg b status.id expired now (unconfirmed_message cfg status) in
    let released = release_stale cfg marked.0 status now in
    elim marked.1 [
      | none ↦ (marked.0, 0)
      | some _ ↦ (
        record released {
          penalties =
              record_registration_expiry released.penalties status.pool status.selected_backend now;
        },
        1,
      )
    ]

-- The state of a reaped allocation, and the time of the mark.
abbrev pub reaped_state : Config → AllocationState
reaped_state cfg = if cfg.orphan_cleanup then quarantined else expired

abbrev pub reaped_expiry : Config → Time → Time
reaped_expiry cfg now = if cfg.orphan_cleanup then now + cfg.quarantine_ttl else now

abbrev pub reaped_message : Config → String
reaped_message cfg =
    if cfg.orphan_cleanup
    then "stale runner label quarantined: allocation past job timeout without finalize"
    else "stale runner label reclaimed: allocation expired without finalize"

unfoldable pub reap : Config → Broker → AllocationStatus → Time → Broker × ℕ
reap cfg b status now =
    let marked =
      mark_and_notify cfg b status.id (reaped_state cfg) (reaped_expiry cfg now)
        (reaped_message cfg) in
    elim marked.1 [ none ↦ (marked.0, 0) | some _ ↦ (release_stale cfg marked.0 status now, 1) ]

unfoldable pub end_quarantine : Config → Broker → AllocationStatus → Time → Broker × ℕ
end_quarantine cfg b status now =
    let marked =
      mark_and_notify cfg b status.id expired now "stale runner label quarantine expired" in
    elim marked.1 [ none ↦ (marked.0, 0) | some _ ↦ (call marked.0 (reclaims status), 1) ]

-- The job's time is over, and the grace period with it.
unfoldable pub is_overdue : Config → AllocationStatus → Time → Bool
is_overdue cfg status now =
    not (eqb status.expires_at 0) && leb (status.expires_at + cfg.grace_period) now

-- One pass of the loop, with the number of updates.
unfoldable pub sweep_one : Config → Broker → AllocationStatus → Time → Broker × ℕ
sweep_one cfg b status now =
    if is_active_state status.state
    then if is_registration_over cfg status now && is_unconfirmed cfg status
      then expire_unconfirmed cfg b status now
      else if is_overdue cfg status now
      then reap cfg b status now
      else (b, 0)
    else if not (status.state == quarantined)
    then (b, 0)
    else if ltb now status.expires_at
    then (b, 0)
    else end_quarantine cfg b status now

unfoldable pub sweep_all : Config → Broker → List AllocationStatus → Time → Broker × ℕ
sweep_all cfg b [] now = (b, 0)
sweep_all cfg b (status ∷ statuses) now =
    let step = sweep_one cfg b status now in
    let rest = sweep_all cfg step.0 statuses now in (rest.0, step.1 + rest.1)

-- pruneFinishedAllocations
unfoldable pub prune_finished_allocations : Config → Broker → Time → Broker × ℕ
prune_finished_allocations cfg b now =
    let r = prune_terminal b.store now cfg.retention in
    if leb cfg.retention 0 then (b, 0) else (record b { store = r.0 }, r.1)

-- SweepExpired
unfoldable pub sweep_expired : Config → Broker → Time → Broker × ℕ
sweep_expired cfg b now =
    let swept = sweep_all cfg b (list b.store) now in
    let pruned = prune_finished_allocations cfg swept.0 now in (pruned.0, swept.1 + pruned.1)
