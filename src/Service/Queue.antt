-- ===== src/Service/Queue.antt =====
-- internal/api/service.go and service_workflow_job.go: the queue of allocations that wait for a
-- retry. What allocateNow does is an argument: the broker that it leaves, and its error or none.
pub mod Reasons
use unified_ephemeral_runner.Common.{
  ℕ, suc, String, ◌+◌, ◌*◌, Bool, true, false, not, ◌&&◌, ◌||◌, Option, none, some, [], ◌∷◌, ◌==◌,
  string_eq, nat_eq, pair_eq, get, put, if◌then◌else◌, eqb, leb, ltb, is_some, any,
}
use unified_ephemeral_runner.Model.{
  Time, Duration, second, PoolName, BackendName, AllocationState, pending, expired, failed,
  state_eq, AllocationRequest, AllocationStatus,
}
use unified_ephemeral_runner.Store.{save, get_allocation}
use unified_ephemeral_runner.Service.Lifecycle.{Config, Broker, mark_and_notify}

-- AdmissionQueueConfig and the default of the job timeout.
pub record QueueConfig : Type 0 where
  pub enabled : Bool
  pub retry_after : Duration
  pub max_attempts : ℕ
  pub default_job_timeout : Duration

-- An error, by the tests of errors.Is and of the package backend on it.
pub record Cause : Type 0 where
  pub rate_limited : Bool
  pub live_capacity : Bool
  pub budget_exceeded : Bool
  pub no_capacity : Bool
  pub capacity_exhausted : Bool
  pub circuit_open : Bool
  pub failure_reason : Option String
  pub text : String

unfoldable pub normalize_queue_retry_after : QueueConfig → Duration
normalize_queue_retry_after cfg = if ltb 0 cfg.retry_after then cfg.retry_after else 30 * second

unfoldable pub normalize_queue_max_attempts : QueueConfig → ℕ
normalize_queue_max_attempts cfg = if ltb 0 cfg.max_attempts then cfg.max_attempts else 3

abbrev pub is_retryable_reason : Option String → Bool
is_retryable_reason none = false
is_retryable_reason (some reason) =
    any (λ r. r == reason) ("timeout" ∷ "transport-error" ∷ "throttled" ∷ "server-error" ∷ [])

-- queueableError
unfoldable pub queueable_error : Cause → Bool
queueable_error cause =
    if cause.rate_limited
    then false
    else if cause.live_capacity
    then false
    else if cause.budget_exceeded
    then false
    else if cause.no_capacity
    then false
    else if cause.capacity_exhausted
    then false
    else if cause.circuit_open
    then true
    else is_retryable_reason cause.failure_reason

-- queueReason
unfoldable pub queue_reason : Cause → String
queue_reason cause =
    if cause.no_capacity
    then "no-capacity"
    else if cause.live_capacity || cause.capacity_exhausted
    then "live-capacity"
    else if cause.rate_limited
    then "rate-limited"
    else if cause.budget_exceeded
    then "budget-exceeded"
    else if cause.circuit_open
    then "circuit-open"
    else elim cause.failure_reason [ some reason ↦ reason | none ↦ "retryable" ]

-- workflowCapacityError
unfoldable pub workflow_capacity_error : AllocationRequest → Cause → Bool
workflow_capacity_error request cause =
    ltb 0 request.workflow_job_id
    && (cause.no_capacity || cause.live_capacity || cause.capacity_exhausted)

abbrev pub workflow_job_of : Option AllocationRequest → ℕ
workflow_job_of none = 0
workflow_job_of (some request) = request.workflow_job_id

-- waitingForWorkflowCapacity
unfoldable pub waiting_for_workflow_capacity : AllocationStatus → Bool
waiting_for_workflow_capacity status =
    if eqb (workflow_job_of status.request) 0
    then false
    else elim (get status.metadata "queue_reason") [
      | none ↦ false
      | some reason ↦ reason == "no-capacity" || reason == "live-capacity"
    ]

-- The record that queueAllocation saves.
unfoldable pub queued_status :
    QueueConfig
    → AllocationRequest
    → PoolName
    → BackendName
    → Cause
    → AllocationStatus
    → Time
    → AllocationStatus
queued_status cfg request pool selected cause status now =
    let timeout =
      if ltb 0 request.job_timeout then request.job_timeout else cfg.default_job_timeout in
    record status {
      pool = if pool == "" then request.pool else pool;
      selected_backend = selected;
      tenant = request.tenant;
      priority_class = request.priority_class;
      requested_labels = request.labels;
      retry_after = now + normalize_queue_retry_after cfg;
      state = pending;
      error = cause.text;
      request = some (record request { job_timeout = timeout });
      metadata = put status.metadata "queue_reason" (queue_reason cause);
    }

-- queueAllocation of an allocation that has a record, outside a request with a principal.
unfoldable pub queue_allocation :
    QueueConfig
    → Broker
    → AllocationRequest
    → PoolName
    → BackendName
    → Cause
    → AllocationStatus
    → Time
    → Broker × Option AllocationStatus
queue_allocation cfg b request pool selected cause existing now =
    let capacity_wait = workflow_capacity_error request cause in
    let status = queued_status cfg request pool selected cause existing now in
    if not cfg.enabled || (not (queueable_error cause) && not capacity_wait)
    then (b, none)
    else if leb (normalize_queue_max_attempts cfg) existing.attempts && not capacity_wait
    then (b, none)
    else (record b { store = save b.store status }, some status)

module _
    (allocate_now : Broker → AllocationRequest → AllocationStatus → Broker × Option Cause) where
  -- The end of reconcileQueuedAllocation: an attempt, and what its error leads to.
  unfoldable pub attempt :
      Config → QueueConfig → Broker → AllocationStatus → AllocationRequest → Time → Broker
  attempt service cfg b status request now =
      let saved : Broker = record b { store = save b.store status } in
      let tried = allocate_now saved request status in
      elim tried.1 [
        | none ↦ tried.0
        | some cause ↦
            let queued =
              queue_allocation cfg tried.0 request status.pool status.selected_backend cause status
                now in
            if is_some queued.1
            then queued.0
            else (mark_and_notify service queued.0 status.id failed now cause.text).0
      ]

  -- What reconcileQueuedAllocation does with a pending record whose retry is due, by its request.
  unfoldable pub retry :
      Config
      → QueueConfig
      → Broker
      → AllocationStatus
      → Time
      → Option AllocationRequest
      → Broker × ℕ
  retry service cfg b status now none = (
    (mark_and_notify service b status.id failed now
        "pending allocation is missing original request").0,
    1,
  )
  retry service cfg b status now (some request) =
      let capacity_wait = waiting_for_workflow_capacity status in
      let next = record status {
        attempts = if capacity_wait then status.attempts else suc status.attempts;
        retry_after = now + normalize_queue_retry_after cfg;
      } in
      if ltb status.expires_at now
      then ((mark_and_notify service b status.id expired now "pending allocation expired").0, 1)
      else if not capacity_wait && leb (normalize_queue_max_attempts cfg) status.attempts
      then (
        (mark_and_notify service b status.id failed now
            "pending allocation retry attempts exhausted").0,
        1,
      )
      else (attempt service cfg b next request now, 1)

  -- reconcileQueuedAllocation of a record that stands in the store.
  unfoldable pub reconcile_queued_allocation :
      Config → QueueConfig → Broker → AllocationStatus → Time → Broker × ℕ
  reconcile_queued_allocation service cfg b status now =
      if not (status.state == pending)
        || (not (eqb status.retry_after 0) && ltb now status.retry_after)
      then (b, 0)
      else retry service cfg b status now status.request
