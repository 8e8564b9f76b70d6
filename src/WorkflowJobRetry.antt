-- ===== src/WorkflowJobRetry.antt =====
-- internal/api/workflow_job_retry.go: the bounded re-allocation of queued jobs, and the cooldown of
-- backends whose runners do not register. The stores are explicit, and so is the clock.
pub mod Backoff
pub mod Penalties
use unified_ephemeral_runner.Common.{
  ℕ, zero, suc, String, ◌≡◌, refl, sym, ap, ◌∙◌, subst, ◌+◌, ◌-◌, ◌*◌, ◌/◌, ◌%◌, ◌^◌, ◌≤◌, ◌<◌, ◌≢◌,
  ◌↔◌, ◌⊎◌, inl, inr, Bool, true, false, not, ◌&&◌, ◌||◌, Option, none, some, List, [], ◌∷◌, ◌++◌,
  map, arith, Comparable, ◌==◌, ==_refl, string_eq, nat_eq, pair_eq, Dict, get, erase, put,
  count_by, Unique, if◌then◌else◌, eqb, leb, ltb, Bool-cases, Option-cases, is_some, or_zero,
  ltb→lt, lt→ltb, leb→le, eqb_iff, count_by_congr, count_by-skip, count_by-put-le,
  count_by-put-le_of_false, count_by-put-le-suc, count_by-erase-le, count_by-erase-lt, get-erase,
  get-put, get-put_self, get-nil, erase-Unique, put-Unique, length, get_elem?, take, replicate,
  filter, any, sum_by, value_of, sum_by-put, length-append, length-filter-le, get_elem?-lt,
}
use unified_ephemeral_runner.Model.{
  Time, Duration, second, minute, hour, PoolName, BackendName, BackendConfig, PoolConfig,
  AllocationRequest, AllocationStatus,
}
use unified_ephemeral_runner.Store.{Allocations}

abbrev pub max_workflow_job_allocations : ℕ
max_workflow_job_allocations = 5

abbrev pub workflow_job_retry_base : Duration
workflow_job_retry_base = 30 * second

abbrev pub workflow_job_retry_max : Duration
workflow_job_retry_max = 10 * minute

abbrev pub registration_expiry_threshold : ℕ
registration_expiry_threshold = 2

abbrev pub registration_expiry_cooldown : Duration
registration_expiry_cooldown = 30 * minute

-- The loop of workflowJobRetryBackoff, with this many rounds left.
double_up : ℕ → Duration → Duration
double_up zero d = d
double_up (suc rounds) d =
    let rest = double_up rounds (d * 2) in
    if leb workflow_job_retry_max (d * 2) then workflow_job_retry_max else rest

-- workflowJobRetryBackoff, whose loop runs from 1 up to the number of prior allocations.
unfoldable pub workflow_job_retry_backoff : ℕ → Duration
unfolding double_up
workflow_job_retry_backoff prior = double_up (prior - 1) workflow_job_retry_base

-- Whether an allocation was made for the job.
unfoldable pub is_for_job : ℕ → AllocationStatus → Bool
is_for_job job_id status = elim status.request [
  | none ↦ false
  | some request ↦ eqb request.workflow_job_id job_id
]

-- countWorkflowJobAllocations
unfoldable pub count_workflow_job_allocations : Allocations → ℕ → ℕ
count_workflow_job_allocations allocations job_id =
    count_by (λ id status. is_for_job job_id status) allocations

-- workflowJobRetries: the time before which a job is not allocated again.
abbrev pub WorkflowJobRetries : Type 0
WorkflowJobRetries = Dict ℕ Time

-- mayReallocateWorkflowJob
unfoldable pub may_reallocate_workflow_job : Allocations → WorkflowJobRetries → ℕ → Time → Bool
may_reallocate_workflow_job allocations retries job_id now =
    if leb max_workflow_job_allocations (count_workflow_job_allocations allocations job_id)
    then false
    else elim (get retries job_id) [ none ↦ true | some next ↦ not (ltb now next) ]

-- noteWorkflowJobReallocated
unfoldable pub note_workflow_job_reallocated :
    Allocations → WorkflowJobRetries → ℕ → Time → WorkflowJobRetries
note_workflow_job_reallocated allocations retries job_id now =
    filter (λ entry. not (ltb hour (now - entry.1)))
      (put retries job_id
        (now + workflow_job_retry_backoff (count_workflow_job_allocations allocations job_id)))

pub record RegistrationPenalty : Type 0 where
  pub consecutive : ℕ
  pub skip_until : Time

abbrev pub RegistrationPenalties : Type 0
RegistrationPenalties = Dict (PoolName × BackendName) RegistrationPenalty

abbrev no_penalty : RegistrationPenalty
no_penalty = record { consecutive = 0; skip_until = 0 }

unfoldable pub penalize : RegistrationPenalty → Time → RegistrationPenalty
penalize entry now =
    let n = entry.consecutive + 1 in
    if leb registration_expiry_threshold n
    then record { consecutive = n; skip_until = now + registration_expiry_cooldown }
    else record entry { consecutive = n }

-- recordRegistrationExpiry
unfoldable pub record_registration_expiry :
    RegistrationPenalties → PoolName → BackendName → Time → RegistrationPenalties
record_registration_expiry m pool name now = elim (get m (pool, name)) [
  | none ↦ put m (pool, name) (penalize no_penalty now)
  | some entry ↦ put m (pool, name) (penalize entry now)
]

-- recordRegistrationSuccess
unfoldable pub record_registration_success :
    RegistrationPenalties → PoolName → BackendName → RegistrationPenalties
record_registration_success m pool name = erase m (pool, name)

-- registrationPenalized
unfoldable pub registration_penalized : RegistrationPenalties → PoolName → BackendName → Time → Bool
registration_penalized m pool name now = elim (get m (pool, name)) [
  | none ↦ false
  | some entry ↦ ltb now entry.skip_until
]

-- filterRegistrationPenalized
unfoldable pub filter_registration_penalized :
    RegistrationPenalties → PoolConfig → AllocationRequest → Time → PoolConfig
filter_registration_penalized m pool request now =
    let kept =
      filter (λ entry. not (registration_penalized m pool.name entry.0 now)) pool.backends in
    if is_some request.backend || ltb (length pool.backends) 2
    then pool
    else if eqb (length kept) 0 || eqb (length kept) (length pool.backends)
    then pool
    else record pool { backends = kept }
