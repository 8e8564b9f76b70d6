-- ===== src/Store/File/Refinement/Writes.antt =====
-- A write of one record, and a prune, of the file store against a map with the same entries.
use unified_ephemeral_runner.Common.{
  ℕ, String, ◌≡◌, refl, ap, ◌∙◌, ◌-◌, inl, inr, Bool, true, false, ◌&&◌, Option, none, some, List,
  [], ◌∷◌, arith, string_eq, nat_eq, pair_eq, get, erase, put, count_by, Unique, if◌then◌else◌, leb,
  ltb, Option-cases, erase-Unique, put-Unique, length,
}
use unified_ephemeral_runner.Common.SameMap.{
  SameMap, put-SameMap, erase-SameMap, put-put-SameMap, erase-put-SameMap, count_by-SameMap,
}
use unified_ephemeral_runner.Model.{Time, Duration, PoolName, BackendName, AllocationStatus}
use unified_ephemeral_runner.Store.{
  no_capacity, Allocations, capacity_allowed, collect_prunable_ids, count_active_locked,
  count_backend_active_locked, count_tenant_active_locked, delete_all, prunable_ids, is_prunable,
}
use unified_ephemeral_runner.Store.Prune.{get-delete_all, contains-prunable_ids}
use unified_ephemeral_runner.Store.File.{
  Codec, Failure, FileStore, write_file_atomic, persist, set_allocations, write_record, roll_back,
}

-- The records of a file store and those of a map are the same, and no id stands twice.
pub record Agree (m n : Allocations) : Type 0 where
  pub same : SameMap m n
  pub left : Unique m
  pub right : Unique n

abbrev pub worked : Option Failure → Bool
worked none = true
worked (some e) = false

pub Agree-put :
    (m n : Allocations) (id : String) (status : AllocationStatus)
    → Agree m n
    → Agree (put m id status) (put n id status)
Agree-put m n id status a = record {
  same = put-SameMap m n id status a.same;
  left = put-Unique m id status a.left;
  right = put-Unique n id status a.right;
}

pub Agree-erase : (m n : Allocations) (id : String) → Agree m n → Agree (erase m id) (erase n id)
Agree-erase m n id a = record {
  same = erase-SameMap m n id a.same;
  left = erase-Unique m id a.left;
  right = erase-Unique n id a.right;
}

pub delete_all-Unique : (m : Allocations) (ids : List String) → Unique m → Unique (delete_all m ids)
unfolding delete_all
delete_all-Unique m [] u = u
delete_all-Unique m (id ∷ ids) u = delete_all-Unique (erase m id) ids (erase-Unique m id u)

pub Agree-delete_all :
    (m n : Allocations) (now : Time) (retention : Duration)
    → Agree m n
    → Agree
        (delete_all m (collect_prunable_ids m now retention))
        (delete_all n (collect_prunable_ids n now retention))
unfolding collect_prunable_ids
Agree-delete_all m n now retention a = record {
  same = λ id. ground (
    arith,
    get-delete_all m (collect_prunable_ids m now retention) id,
    get-delete_all n (collect_prunable_ids n now retention) id,
    contains-prunable_ids (now - retention) m id a.left,
    contains-prunable_ids (now - retention) n id a.right,
    a.same id,
  );
  left = delete_all-Unique m _ a.left;
  right = delete_all-Unique n _ a.right;
}

length-prunable_ids :
    (cutoff : Time) (m : Allocations)
    → length (prunable_ids cutoff m) ≡ count_by (λ id status. is_prunable cutoff status) m
unfolding prunable_ids
length-prunable_ids cutoff [] = refl
length-prunable_ids cutoff ((id, status) ∷ m) = ground (arith, length-prunable_ids cutoff m)

pub length-collect_prunable_ids :
    (m n : Allocations) (now : Time) (retention : Duration)
    → Agree m n
    → length (collect_prunable_ids m now retention) ≡ length (collect_prunable_ids n now retention)
unfolding collect_prunable_ids
length-collect_prunable_ids m n now retention a = ground (
  arith,
  length-prunable_ids (now - retention) m,
  length-prunable_ids (now - retention) n,
  count_by-SameMap (λ id status. is_prunable (now - retention) status) m n a.left a.right a.same,
)

-- The counts do not depend on the order of the records.
pub count_active_locked-Agree :
    (m n : Allocations) (pool : PoolName) (backend : BackendName) (id : String)
    → Agree m n
    → count_active_locked m pool backend id ≡ count_active_locked n pool backend id
unfolding count_active_locked
count_active_locked-Agree m n pool backend id a = count_by-SameMap _ m n a.left a.right a.same

pub count_backend_active_locked-Agree :
    (m n : Allocations) (backend : BackendName) (id : String)
    → Agree m n
    → count_backend_active_locked m backend id ≡ count_backend_active_locked n backend id
unfolding count_backend_active_locked
count_backend_active_locked-Agree m n backend id a = count_by-SameMap _ m n a.left a.right a.same

pub count_tenant_active_locked-Agree :
    (m n : Allocations) (pool : PoolName) (tenant id : String)
    → Agree m n
    → count_tenant_active_locked m pool tenant id ≡ count_tenant_active_locked n pool tenant id
unfolding count_tenant_active_locked
count_tenant_active_locked-Agree m n pool tenant id a = count_by-SameMap _ m n a.left a.right a.same

pub capacity_allowed-Agree :
    (m n : Allocations) (status : AllocationStatus) (max_runners tenant_quota backend_limit : ℕ)
    → Agree m n
    → capacity_allowed m status max_runners tenant_quota backend_limit
      ≡ capacity_allowed n status max_runners tenant_quota backend_limit
unfolding capacity_allowed
capacity_allowed-Agree m n status max_runners tenant_quota backend_limit a =
    ap
      (λ (counts : ℕ × ℕ × ℕ).
        if ltb 0 max_runners && leb max_runners counts.0
        then some no_capacity
        else if ltb 0 backend_limit && leb backend_limit counts.1
        then some no_capacity
        else if ltb 0 tenant_quota && leb tenant_quota counts.2
        then some no_capacity
        else none)
      counts
  where
    counts :
        ◌≡◌ {A = ℕ × ℕ × ℕ}
          (
            count_active_locked m status.pool status.selected_backend status.id,
            count_backend_active_locked m status.selected_backend status.id,
            count_tenant_active_locked m status.pool status.tenant status.id,
          )
          (
            count_active_locked n status.pool status.selected_backend status.id,
            count_backend_active_locked n status.selected_backend status.id,
            count_tenant_active_locked n status.pool status.tenant status.id,
          )
    counts =
        rw
          (
            count_active_locked-Agree m n status.pool status.selected_backend status.id a,
            count_backend_active_locked-Agree m n status.selected_backend status.id a,
            count_tenant_active_locked-Agree m n status.pool status.tenant status.id a,
          )
          refl

module _ (c : Codec) where
  pub persist-file :
      (s : FileStore c) (io : Option Failure)
      → ((persist c s io).0.file ≡ s.file) × ((persist c s io).1 ≡ worked io)
  unfolding persist write_file_atomic
  persist-file s none = ground arith
  persist-file s (some e) = ground arith

  undone :
      (s : FileStore c) (m n : Allocations) (id : String) (status : AllocationStatus)
      → s.file.allocations ≡ put m id status
      → Agree m n
      → Agree (roll_back c s id (get m id)).file.allocations n
  unfolding roll_back set_allocations
  undone s m n id status e a = elim (Option-cases (get m id)) [
    | inl gone ↦
        rw (gone, roll_back, e)
          (record {
            same = λ j. erase-put-SameMap m id status gone j ∙ a.same j;
            left = erase-Unique (put m id status) id (put-Unique m id status a.left);
            right = a.right;
          })
    | inr (old, there) ↦
        rw (there, roll_back, e)
          (record {
            same = λ j. put-put-SameMap m id status old there j ∙ a.same j;
            left = put-Unique (put m id status) id old (put-Unique m id status a.left);
            right = a.right;
          })
  ]

  -- A write that works puts the record; one that fails leaves every record as it was.
  pub write_record-Agree :
      (s : FileStore c) (n : Allocations) (id : String) (status : AllocationStatus)
      (io : Option Failure)
      → Agree s.file.allocations n
      → ((write_record c s id status io).1 ≡ worked io)
        × Agree
            (write_record c s id status io).0.file.allocations
            (if worked io then put n id status else n)
  unfolding write_record set_allocations
  write_record-Agree s n id status io a =
      let m = s.file.allocations in
      let (kept, flag) = persist-file (set_allocations c s (put m id status)) io in
      let same = ap (λ f. f.allocations) kept in by_io io flag same
    where
      by_io :
          (io : Option Failure)
          → (persist c (set_allocations c s (put s.file.allocations id status)) io).1 ≡ worked io
          → (persist c
              (set_allocations c s (put s.file.allocations id status))
              io).0.file.allocations
            ≡ put s.file.allocations id status
          → ((write_record c s id status io).1 ≡ worked io)
            × Agree
                (write_record c s id status io).0.file.allocations
                (if worked io then put n id status else n)
      by_io none flag same =
          rw (write_record, flag) (refl, rw same (Agree-put s.file.allocations n id status a))
      by_io (some e) flag same =
          rw (write_record, flag) (refl, undone _ s.file.allocations n id status same a)
