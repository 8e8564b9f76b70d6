-- ===== src/Store.antt =====
-- internal/store/store.go and memory.go: the process-local store of allocation records. A method
-- of *Memory takes the store and returns the new one with its result; the mutex makes each method
-- one step. A nil error is `none`.
pub mod Documents
pub mod Capacity
pub mod History
pub mod Reach
pub mod Transitions
pub mod Prune
pub mod Leader
pub mod Inbox
pub mod Snapshot
pub mod File
use unified_ephemeral_runner.Common.{
  ℕ, String, ◌≡◌, refl, ◌+◌, ◌-◌, ◌↔◌, Bool, true, false, not, ◌&&◌, ◌||◌, Option, none, some, List,
  [], ◌∷◌, map, arith, Comparable, ◌==◌, string_eq, Dict, get, erase, put, count_by, length,
  if◌then◌else◌, eqb, leb, ltb,
}
use unified_ephemeral_runner.Common.Text.{trim_space, to_lower}
use unified_ephemeral_runner.Model.{
  Time, Duration, hour, PoolName, BackendName, AllocationState, reserved, ready, warm, pending,
  canceled, expired, failed, completed, quarantined, state_beq, state_eq, AllocationStatus,
}
use Documents.{AdmissionStateDocument, empty_document, clone_admission}

pub data StoreError : Type 0 where
  no_capacity : StoreError

abbrev pub Allocations : Type 0
Allocations = Dict String AllocationStatus

-- isSchedulerAccountedState
abbrev pub is_scheduler_accounted_state : AllocationState → Bool
is_scheduler_accounted_state state = state == ready || state == reserved || state == warm

-- isTerminalState
abbrev pub is_terminal_state : AllocationState → Bool
is_terminal_state completed = true
is_terminal_state failed = true
is_terminal_state canceled = true
is_terminal_state expired = true
is_terminal_state quarantined = true
is_terminal_state _ = false

-- normalizeTenant of the store, which keeps the case.
unfoldable pub normalize_tenant : String → String
normalize_tenant tenant =
    let trimmed = trim_space tenant in if trimmed == "" then "default" else trimmed

abbrev pub is_excluded : String → String → Bool
is_excluded exclude_id id = not (exclude_id == "") && id == exclude_id

abbrev pub holds_slot : PoolName → BackendName → AllocationStatus → Bool
holds_slot pool backend status =
    if not (status.pool == pool) || not (status.selected_backend == backend)
    then false
    else is_scheduler_accounted_state status.state

abbrev pub holds_backend : BackendName → AllocationStatus → Bool
holds_backend backend status =
    if not (status.selected_backend == backend)
    then false
    else is_scheduler_accounted_state status.state

abbrev pub holds_tenant : PoolName → String → AllocationStatus → Bool
holds_tenant pool tenant status =
    if not (status.pool == pool)
    then false
    else if not (is_scheduler_accounted_state status.state)
    then false
    else normalize_tenant status.tenant == tenant

-- countActiveLocked
unfoldable pub count_active_locked : Allocations → PoolName → BackendName → String → ℕ
count_active_locked allocations pool backend exclude_id =
    count_by (λ id status. not (is_excluded exclude_id id) && holds_slot pool backend status)
      allocations

-- countBackendActiveLocked
unfoldable pub count_backend_active_locked : Allocations → BackendName → String → ℕ
count_backend_active_locked allocations backend exclude_id =
    count_by (λ id status. not (is_excluded exclude_id id) && holds_backend backend status)
      allocations

-- countTenantActiveLocked
unfoldable pub count_tenant_active_locked : Allocations → PoolName → String → String → ℕ
count_tenant_active_locked allocations pool tenant exclude_id =
    let normalized = normalize_tenant tenant in
    count_by (λ id status. not (is_excluded exclude_id id) && holds_tenant pool normalized status)
      allocations

-- capacityAllowed
unfoldable pub capacity_allowed : Allocations → AllocationStatus → ℕ → ℕ → ℕ → Option StoreError
capacity_allowed allocations status max_runners tenant_quota backend_limit =
    let active = count_active_locked allocations status.pool status.selected_backend status.id in
    let backend_active =
      count_backend_active_locked allocations status.selected_backend status.id in
    let tenant_active =
      count_tenant_active_locked allocations status.pool status.tenant status.id in
    if ltb 0 max_runners && leb max_runners active
    then some no_capacity
    else if ltb 0 backend_limit && leb backend_limit backend_active
    then some no_capacity
    else if ltb 0 tenant_quota && leb tenant_quota tenant_active
    then some no_capacity
    else none

-- applyMarkState
unfoldable pub apply_mark_state :
    AllocationStatus → AllocationState → Time → String → AllocationStatus
apply_mark_state status state now message = record status {
  state = state;
  error = if not (message == "") then message else status.error;
  expires_at = if state == expired || state == quarantined then now else status.expires_at;
}

-- allocationAgeAnchor
unfoldable pub allocation_age_anchor : AllocationStatus → Time
allocation_age_anchor status =
    if not (eqb status.created_at 0) then status.created_at else status.expires_at

-- The test of the loop of collectPrunableIDs.
unfoldable pub is_prunable : Time → AllocationStatus → Bool
unfolding allocation_age_anchor
is_prunable cutoff status =
    let anchor = allocation_age_anchor status in
    if not (is_terminal_state status.state) then false else eqb anchor 0 || not (ltb cutoff anchor)

unfoldable pub prunable_ids : Time → Allocations → List String
prunable_ids cutoff [] = []
prunable_ids cutoff ((id, status) ∷ rest) =
    let ids = prunable_ids cutoff rest in if is_prunable cutoff status then id ∷ ids else ids

-- collectPrunableIDs
unfoldable pub collect_prunable_ids : Allocations → Time → Duration → List String
unfolding prunable_ids
collect_prunable_ids allocations now retention =
    if leb retention 0 then [] else prunable_ids (now - retention) allocations

pub delete_all : Allocations → List String → Allocations
delete_all allocations [] = allocations
delete_all allocations (id ∷ ids) = delete_all (erase allocations id) ids

pub record LeaderLease : Type 0 where
  pub holder : String
  pub expires_at : Time

pub record Memory : Type 0 where
  pub allocations : Allocations
  pub admission : AdmissionStateDocument
  pub leader : Dict String LeaderLease

-- NewMemory
abbrev pub new_memory : Memory
new_memory = record { allocations = []; admission = empty_document; leader = [] }

unfoldable pub save_admission_state : Memory → AdmissionStateDocument → Memory
save_admission_state m doc = record m { admission = clone_admission doc }

abbrev pub load_admission_state : Memory → AdmissionStateDocument
load_admission_state m = clone_admission m.admission

unfoldable pub save : Memory → AllocationStatus → Memory
save m status = record m { allocations = put m.allocations status.id status }

unfoldable pub delete : Memory → String → Memory
delete m id = record m { allocations = erase m.allocations id }

abbrev pub get_allocation : Memory → String → Option AllocationStatus
get_allocation m id = get m.allocations id

unfoldable pub list : Memory → List AllocationStatus
list m = map (λ entry. entry.1) m.allocations

unfoldable pub mark_state :
    Memory → String → AllocationState → Time → String → Memory × Option AllocationStatus
mark_state m id state now message = elim (get m.allocations id) [
  | none ↦ (m, none)
  | some status ↦
      let status' = apply_mark_state status state now message in
      (record m { allocations = put m.allocations id status' }, some status')
]

unfoldable pub compare_and_mark_state :
    Memory
    → String
    → AllocationState
    → AllocationState
    → Time
    → String
    → Memory × Option AllocationStatus
compare_and_mark_state m id expected_from to now message = elim (get m.allocations id) [
  | none ↦ (m, none)
  | some status ↦
      let status' = apply_mark_state status to now message in
      if not (status.state == expected_from)
      then (m, none)
      else (record m { allocations = put m.allocations id status' }, some status')
]

unfoldable pub save_if_state : Memory → AllocationStatus → AllocationState → Memory × Bool
save_if_state m status expected_from = elim (get m.allocations status.id) [
  | none ↦ (m, false)
  | some current ↦
      if not (current.state == expected_from)
      then (m, false)
      else (record m { allocations = put m.allocations status.id status }, true)
]

unfoldable pub save_if_capacity : Memory → AllocationStatus → ℕ → ℕ → ℕ → Memory × Option StoreError
save_if_capacity m status max_runners tenant_quota backend_limit =
    elim (capacity_allowed m.allocations status max_runners tenant_quota backend_limit) [
      | some e ↦ (m, some e)
      | none ↦ (record m { allocations = put m.allocations status.id status }, none)
    ]

unfoldable pub count_active : Memory → PoolName → BackendName → ℕ
count_active m pool backend = count_active_locked m.allocations pool backend ""

unfoldable pub count_backend_active : Memory → BackendName → ℕ
count_backend_active m backend = count_backend_active_locked m.allocations backend ""

unfoldable pub count_tenant_active : Memory → PoolName → String → ℕ
count_tenant_active m pool tenant = count_tenant_active_locked m.allocations pool tenant ""

unfoldable pub prune_terminal : Memory → Time → Duration → Memory × ℕ
unfolding delete_all
prune_terminal m now retention =
    let ids = collect_prunable_ids m.allocations now retention in
    if leb retention 0
    then (m, 0)
    else (record m { allocations = delete_all m.allocations ids }, length ids)

-- TryAcquireLeadership at the time `now`.
unfoldable pub try_acquire_leadership : Memory → String → String → Duration → Time → Memory × Bool
try_acquire_leadership m name identity ttl now =
    let lease_ttl = if leb ttl 0 then 15000000000 else ttl in
    let renewed : LeaderLease = record { holder = identity; expires_at = now + lease_ttl } in
    let granted : Memory × Bool = (record m { leader = put m.leader name renewed }, true) in
    elim (get m.leader name) [
      | none ↦ granted
      | some lease ↦
          if ltb now lease.expires_at && not (lease.holder == identity) then (m, false) else granted
    ]

unfoldable pub release_leadership : Memory → String → String → Memory
release_leadership m name identity = elim (get m.leader name) [
  | none ↦ m
  | some lease ↦
      if not (lease.holder == identity) then m else record m { leader = erase m.leader name }
]
