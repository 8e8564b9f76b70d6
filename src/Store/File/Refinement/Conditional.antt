-- ===== src/Store/File/Refinement/Conditional.antt =====
-- The conditional operations of the file store against the memory store's.
use unified_ephemeral_runner.Common.{
  ℕ, String, ◌≡◌, refl, sym, ◌∙◌, inl, inr, true, false, Option, none, some, ◌==◌, string_eq,
  nat_eq, pair_eq, get, Bool-cases, Option-cases,
}
use unified_ephemeral_runner.Model.{Time, AllocationState, state_eq, AllocationStatus}
use unified_ephemeral_runner.Store.{
  Allocations, Memory, capacity_allowed, collect_prunable_ids, delete_all, apply_mark_state,
}
use unified_ephemeral_runner.Store
use unified_ephemeral_runner.Store.File
use unified_ephemeral_runner.Store.File.{
  Codec, Failure, FileStore, persist, set_allocations, write_record, put_back,
}
use unified_ephemeral_runner.Store.File.Refinement.Writes.{
  Agree, capacity_allowed-Agree, write_record-Agree,
}
use unified_ephemeral_runner.Store.File.Refinement.Operations.{Simulates, compares, commits, admits}

module _ (c : Codec) where
  pub compares-Simulates :
      (s : FileStore c) (m : Memory) (id : String) (from to : AllocationState) (now : Time)
      (message : String) (io : Option Failure)
      → Agree s.file.allocations m.allocations
      → Simulates c s m (compares id from to now message) io
  unfolding File.compare_and_mark_state Store.compare_and_mark_state
  compares-Simulates s m id from to now message io a =
      elim (Option-cases (get s.file.allocations id)) [
        | inl gone ↦ absent io gone (sym (a.same id) ∙ gone)
        | inr (prev, there) ↦ elim (Bool-cases (prev.state == from)) [
          | inl meets ↦ swaps io prev there (sym (a.same id) ∙ there) meets
          | inr differs ↦ keeps io prev there (sym (a.same id) ∙ there) differs
        ]
      ]
    where
      absent :
          (io : Option Failure)
          → get s.file.allocations id ≡ none
          → get m.allocations id ≡ none
          → Simulates c s m (compares id from to now message) io
      absent none gone other =
          rw (gone, other, File.compare_and_mark_state, Store.compare_and_mark_state) (a, refl)
      absent (some e) gone other = rw (gone, File.compare_and_mark_state) a

      keeps :
          (io : Option Failure) (prev : AllocationStatus)
          → get s.file.allocations id ≡ some prev
          → get m.allocations id ≡ some prev
          → (prev.state == from) ≡ false
          → Simulates c s m (compares id from to now message) io
      keeps none prev there other differs =
          rw (there, other, File.compare_and_mark_state, Store.compare_and_mark_state, differs)
            (a, refl)
      keeps (some e) prev there other differs = rw (there, File.compare_and_mark_state, differs) a

      swaps :
          (io : Option Failure) (prev : AllocationStatus)
          → get s.file.allocations id ≡ some prev
          → get m.allocations id ≡ some prev
          → (prev.state == from) ≡ true
          → Simulates c s m (compares id from to now message) io
      swaps none prev there other meets =
          let status = apply_mark_state prev to now message in
          let (flag, agree) = write_record-Agree c s m.allocations id status none a in
          rw (there, other, File.compare_and_mark_state, Store.compare_and_mark_state, meets)
            (agree, rw flag refl)
      swaps (some e) prev there other meets =
          let status = apply_mark_state prev to now message in
          let (flag, agree) = write_record-Agree c s m.allocations id status (some e) a in
          rw (there, File.compare_and_mark_state, meets) agree

  pub commits-Simulates :
      (s : FileStore c) (m : Memory) (status : AllocationStatus) (from : AllocationState)
      (io : Option Failure)
      → Agree s.file.allocations m.allocations
      → Simulates c s m (commits status from) io
  unfolding File.save_if_state Store.save_if_state
  commits-Simulates s m status from io a = elim (Option-cases (get s.file.allocations status.id)) [
    | inl gone ↦ absent io gone (sym (a.same status.id) ∙ gone)
    | inr (prev, there) ↦ elim (Bool-cases (prev.state == from)) [
      | inl meets ↦ swaps io prev there (sym (a.same status.id) ∙ there) meets
      | inr differs ↦ keeps io prev there (sym (a.same status.id) ∙ there) differs
    ]
  ]
    where
      absent :
          (io : Option Failure)
          → get s.file.allocations status.id ≡ none
          → get m.allocations status.id ≡ none
          → Simulates c s m (commits status from) io
      absent none gone other = rw (gone, other, File.save_if_state, Store.save_if_state) (a, refl)
      absent (some e) gone other = rw (gone, File.save_if_state) a

      keeps :
          (io : Option Failure) (prev : AllocationStatus)
          → get s.file.allocations status.id ≡ some prev
          → get m.allocations status.id ≡ some prev
          → (prev.state == from) ≡ false
          → Simulates c s m (commits status from) io
      keeps none prev there other differs =
          rw (there, other, File.save_if_state, Store.save_if_state, differs) (a, refl)
      keeps (some e) prev there other differs = rw (there, File.save_if_state, differs) a

      swaps :
          (io : Option Failure) (prev : AllocationStatus)
          → get s.file.allocations status.id ≡ some prev
          → get m.allocations status.id ≡ some prev
          → (prev.state == from) ≡ true
          → Simulates c s m (commits status from) io
      swaps none prev there other meets =
          let (flag, agree) = write_record-Agree c s m.allocations status.id status none a in
          rw (there, other, File.save_if_state, Store.save_if_state, meets) (agree, rw flag refl)
      swaps (some e) prev there other meets =
          let (flag, agree) = write_record-Agree c s m.allocations status.id status (some e) a in
          rw (there, File.save_if_state, meets) agree

  pub admits-Simulates :
      (s : FileStore c) (m : Memory) (status : AllocationStatus)
      (max_runners tenant_quota backend_limit : ℕ) (io : Option Failure)
      → Agree s.file.allocations m.allocations
      → Simulates c s m (admits status max_runners tenant_quota backend_limit) io
  unfolding File.save_if_capacity Store.save_if_capacity
  admits-Simulates s m status max_runners tenant_quota backend_limit io a =
      let same =
        capacity_allowed-Agree s.file.allocations m.allocations status max_runners tenant_quota
          backend_limit a in
      elim (Option-cases
        (capacity_allowed s.file.allocations status max_runners tenant_quota backend_limit)) [
          | inl fits ↦ admitted io fits (sym same ∙ fits)
          | inr (Store.no_capacity, over) ↦ refuses io over (sym same ∙ over)
        ]
    where
      refuses :
          (io : Option Failure)
          → capacity_allowed s.file.allocations status max_runners tenant_quota backend_limit
            ≡ some Store.no_capacity
          → capacity_allowed m.allocations status max_runners tenant_quota backend_limit
            ≡ some Store.no_capacity
          → Simulates c s m (admits status max_runners tenant_quota backend_limit) io
      refuses none over other =
          rw (over, other, File.save_if_capacity, Store.save_if_capacity) (a, refl)
      refuses (some e) over other = rw (over, File.save_if_capacity) a

      admitted :
          (io : Option Failure)
          → capacity_allowed s.file.allocations status max_runners tenant_quota backend_limit ≡ none
          → capacity_allowed m.allocations status max_runners tenant_quota backend_limit ≡ none
          → Simulates c s m (admits status max_runners tenant_quota backend_limit) io
      admitted none fits other =
          let (flag, agree) = write_record-Agree c s m.allocations status.id status none a in
          rw (fits, other, File.save_if_capacity, Store.save_if_capacity) (agree, rw flag refl)
      admitted (some e) fits other =
          let (flag, agree) = write_record-Agree c s m.allocations status.id status (some e) a in
          rw (fits, File.save_if_capacity) agree
