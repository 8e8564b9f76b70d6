-- ===== src/Store/File.antt =====
-- internal/store/file.go: the store that keeps its records in a JSON file.
pub mod Refinement
pub mod Restart
pub mod Durable
use unified_ephemeral_runner.Common.{
  ℕ, String, ◌+◌, Bool, true, false, not, ◌&&◌, Option, none, some, List, [], ◌∷◌, ◌==◌, string_eq,
  nat_eq, pair_eq, get, erase, put, if◌then◌else◌, eqb, leb, ltb, length,
}
use unified_ephemeral_runner.Model.{
  Time, Duration, PoolName, BackendName, AllocationState, state_eq, AllocationStatus,
}
use unified_ephemeral_runner.Store.Documents.{
  AdmissionCircuitState, AdmissionRateLimit, AdmissionBudgetState, AdmissionStateDocument,
  empty_document, clone_admission,
}
pub use unified_ephemeral_runner.Store.Snapshot.{
  File, FileSnapshot, Codec, Failure, make_directory, encode_snapshot, open_temp, write_temp,
  chmod_temp, sync_temp, close_temp, rename_temp, open_directory, sync_directory, Disk,
  before_write, snapshot_of, new_file,
}
unfoldable pub use unified_ephemeral_runner.Store.Snapshot.{
  write_file_atomic, or_keep, or_empty, loaded_admission, apply_snapshot,
}
use unified_ephemeral_runner.Store.{
  Allocations, LeaderLease, apply_mark_state, capacity_allowed, collect_prunable_ids,
  count_active_locked, count_backend_active_locked, count_tenant_active_locked, delete_all,
}

pub data FileError : Type 0 where
  no_capacity not_persisted not_loaded : FileError

-- The records that a failed prune puts back.
unfoldable pub put_back : Allocations → List String → Allocations → Allocations
put_back old [] m = m
put_back old (id ∷ ids) m = elim (get old id) [
  | none ↦ put_back old ids m
  | some status ↦ put_back old ids (put m id status)
]

module _ (c : Codec) where
  open c use {Bytes, is_empty, encode, decode}

  pub record FileStore : Type 0 where
    pub file : File
    pub disk : Disk c.Bytes

  -- persistLocked
  unfoldable pub persist : FileStore → Option Failure → FileStore × Bool
  persist s io =
      let written = write_file_atomic s.disk (encode (snapshot_of s.file)) io in
      if before_write io then (s, false) else (record s { disk = written.0 }, written.1)

  -- loadLocked; the flag says whether os.ReadFile works.
  unfoldable pub load : File → Option Bytes → Bool → Option File
  load f content false = none
  load f none true = some f
  load f (some bytes) true =
      if is_empty bytes
      then some f
      else elim (decode bytes) [ none ↦ none | some snapshot ↦ some (apply_snapshot snapshot f) ]

  -- NewFile for a path
  unfoldable pub open_file : Disk Bytes → Bool → Option FileStore
  open_file disk readable = elim (load new_file disk.content readable) [
    | none ↦ none
    | some f ↦ some (record { file = f; disk = disk })
  ]

  unfoldable pub set_allocations : FileStore → Allocations → FileStore
  set_allocations s m = record s { file = record s.file { allocations = m } }

  -- What a failed write puts back under a key.
  unfoldable pub roll_back : FileStore → String → Option AllocationStatus → FileStore
  roll_back s id (some prev) = set_allocations s (put s.file.allocations id prev)
  roll_back s id none = set_allocations s (erase s.file.allocations id)

  -- A write of one record that is undone when it cannot be persisted; the end of Save, MarkState,
  -- CompareAndMarkState, SaveIfState and SaveIfCapacity.
  unfoldable pub write_record :
      FileStore → String → AllocationStatus → Option Failure → FileStore × Bool
  write_record s id status io =
      let prev = get s.file.allocations id in
      let r = persist (set_allocations s (put s.file.allocations id status)) io in
      if r.1 then r else (roll_back r.0 id prev, false)

  unfoldable pub save : FileStore → AllocationStatus → Option Failure → FileStore × Option FileError
  save s status io =
      let r = write_record s status.id status io in (r.0, if r.1 then none else some not_persisted)

  unfoldable pub delete : FileStore → String → Option Failure → FileStore × Option FileError
  delete s id io =
      let r = persist (set_allocations s (erase s.file.allocations id)) io in
      elim (get s.file.allocations id) [
        | none ↦ (s, none)
        | some prev ↦
            if r.1 then (r.0, none) else (roll_back r.0 id (some prev), some not_persisted)
      ]

  unfoldable pub mark_state :
      FileStore
      → String
      → AllocationState
      → Time
      → String
      → Option Failure
      → FileStore × Option AllocationStatus
  mark_state s id state now message io = elim (get s.file.allocations id) [
    | none ↦ (s, none)
    | some previous ↦
        let status = apply_mark_state previous state now message in
        let r = write_record s id status io in (r.0, if r.1 then some status else none)
  ]

  unfoldable pub compare_and_mark_state :
      FileStore
      → String
      → AllocationState
      → AllocationState
      → Time
      → String
      → Option Failure
      → FileStore × Option AllocationStatus
  compare_and_mark_state s id expected_from to now message io = elim (get s.file.allocations id) [
    | none ↦ (s, none)
    | some previous ↦
        let status = apply_mark_state previous to now message in
        let r = write_record s id status io in
        if not (previous.state == expected_from)
        then (s, none)
        else (r.0, if r.1 then some status else none)
  ]

  unfoldable pub save_if_state :
      FileStore
      → AllocationStatus
      → AllocationState
      → Option Failure
      → FileStore × Bool × Option FileError
  save_if_state s status expected_from io = elim (get s.file.allocations status.id) [
    | none ↦ (s, false, none)
    | some current ↦
        let r = write_record s status.id status io in
        if not (current.state == expected_from)
        then (s, false, none)
        else (r.0, r.1, if r.1 then none else some not_persisted)
  ]

  unfoldable pub save_if_capacity :
      FileStore → AllocationStatus → ℕ → ℕ → ℕ → Option Failure → FileStore × Option FileError
  save_if_capacity s status max_runners tenant_quota backend_limit io =
      let r = write_record s status.id status io in
      elim (capacity_allowed s.file.allocations status max_runners tenant_quota backend_limit) [
        | some _ ↦ (s, some no_capacity)
        | none ↦ (r.0, if r.1 then none else some not_persisted)
      ]

  abbrev pub count_active : FileStore → PoolName → BackendName → ℕ
  count_active s pool backend = count_active_locked s.file.allocations pool backend ""

  abbrev pub count_backend_active : FileStore → BackendName → ℕ
  count_backend_active s backend = count_backend_active_locked s.file.allocations backend ""

  abbrev pub count_tenant_active : FileStore → PoolName → String → ℕ
  count_tenant_active s pool tenant = count_tenant_active_locked s.file.allocations pool tenant ""

  unfoldable pub prune_terminal :
      FileStore → Time → Duration → Option Failure → FileStore × ℕ × Option FileError
  unfolding delete_all
  prune_terminal s now retention io =
      let old = s.file.allocations in
      let ids = collect_prunable_ids old now retention in
      let r = persist (set_allocations s (delete_all old ids)) io in
      if leb retention 0
      then (s, 0, none)
      else if eqb (length ids) 0
      then (s, 0, none)
      else if r.1
      then (r.0, length ids, none)
      else (set_allocations r.0 (put_back old ids r.0.file.allocations), 0, some not_persisted)

  -- TryAcquireLeadership at the time `now`; it loads the file first, so that processes that share it
  -- see one lease. The lease is not put back when it cannot be persisted.
  unfoldable pub try_acquire_leadership :
      FileStore
      → String
      → String
      → Duration
      → Time
      → Bool
      → Option Failure
      → FileStore × Bool × Option FileError
  try_acquire_leadership s name identity ttl now readable io =
      let lease_ttl = if leb ttl 0 then 15000000000 else ttl in
      elim (load s.file s.disk.content readable) [
        | none ↦ (s, false, some not_loaded)
        | some f ↦
            let renewed : LeaderLease = record {
              holder = identity;
              expires_at = now + lease_ttl;
            } in
            let loaded : FileStore = record s { file = f } in
            let r =
              persist (record loaded { file = record f { leader = put f.leader name renewed } })
                io in
            let granted : FileStore × Bool × Option FileError =
              if r.1 then (r.0, true, none) else (r.0, false, some not_persisted) in
            elim (get f.leader name) [
              | none ↦ granted
              | some lease ↦
                  if ltb now lease.expires_at && not (lease.holder == identity)
                  then (loaded, false, none)
                  else granted
            ]
      ]

  unfoldable pub release_leadership :
      FileStore → String → String → Bool → Option Failure → FileStore × Option FileError
  release_leadership s name identity readable io = elim (load s.file s.disk.content readable) [
    | none ↦ (s, some not_loaded)
    | some f ↦
        let loaded : FileStore = record s { file = f } in
        let r = persist (record loaded { file = record f { leader = erase f.leader name } }) io in
        let released : FileStore × Option FileError =
          (r.0, if r.1 then none else some not_persisted) in
        elim (get f.leader name) [
          | none ↦ (loaded, none)
          | some lease ↦ if not (lease.holder == identity) then (loaded, none) else released
        ]
  ]

  abbrev pub load_admission_state : FileStore → AdmissionStateDocument
  load_admission_state s = clone_admission s.file.admission

  -- SaveAdmissionState; the document stays in memory when it cannot be persisted.
  unfoldable pub save_admission_state :
      FileStore → AdmissionStateDocument → Option Failure → FileStore × Option FileError
  save_admission_state s doc io =
      let r = persist (record s { file = record s.file { admission = clone_admission doc } }) io in
      (r.0, if r.1 then none else some not_persisted)
