-- ===== src/Store/File/Refinement/Operations.antt =====
-- Each operation of the file store against the memory store's, when its write works and when not.
use unified_ephemeral_runner.Common.{
  ℕ, String, ◌≡◌, refl, sym, ap, ◌∙◌, inl, inr, Bool, Option, none, some, arith, string_eq, nat_eq,
  pair_eq, get, erase, Option-cases, get-erase, erase-Unique, put-Unique,
}
use unified_ephemeral_runner.Common.SameMap.{put-erase-SameMap}
use unified_ephemeral_runner.Model.{Time, Duration, AllocationState, state_eq, AllocationStatus}
use unified_ephemeral_runner.Store.{
  StoreError, Allocations, Memory, capacity_allowed, collect_prunable_ids, delete_all,
  apply_mark_state,
}
use unified_ephemeral_runner.Store
use unified_ephemeral_runner.Store.File
use unified_ephemeral_runner.Store.File.{
  Codec, Failure, FileStore, FileError, no_capacity, not_persisted, persist, set_allocations,
  write_record, put_back,
}
use unified_ephemeral_runner.Store.File.Refinement.Writes.{
  Agree, Agree-erase, persist-file, write_record-Agree,
}

-- The operations of the interface Store that write.
pub data Operation : Type 0 where
  saves : AllocationStatus → Operation
  deletes : String → Operation
  marks : String → AllocationState → Time → String → Operation
  compares : String → AllocationState → AllocationState → Time → String → Operation
  commits : AllocationStatus → AllocationState → Operation
  admits : AllocationStatus → ℕ → ℕ → ℕ → Operation
  prunes : Time → Duration → Operation

-- What an operation returns.
pub data Reply : Type 0 where
  done refused failed : Reply
  record_of : Option AllocationStatus → Reply
  swapped : Bool → Reply
  pruned : ℕ → Reply

abbrev capacity_reply : Option StoreError → Reply
capacity_reply none = done
capacity_reply (some e) = refused

abbrev pub on_memory : Memory → Operation → Memory × Reply
on_memory m (saves status) = (Store.save m status, done)
on_memory m (deletes id) = (Store.delete m id, done)
on_memory m (marks id state now message) =
    let r = Store.mark_state m id state now message in (r.0, record_of r.1)
on_memory m (compares id from to now message) =
    let r = Store.compare_and_mark_state m id from to now message in (r.0, record_of r.1)
on_memory m (commits status from) = let r = Store.save_if_state m status from in (r.0, swapped r.1)
on_memory m (admits status max_runners tenant_quota backend_limit) =
    let r = Store.save_if_capacity m status max_runners tenant_quota backend_limit in
    (r.0, capacity_reply r.1)
on_memory m (prunes now retention) =
    let r = Store.prune_terminal m now retention in (r.0, pruned r.1)

abbrev file_reply : Reply → Option FileError → Reply
file_reply reply none = reply
file_reply reply (some File.no_capacity) = refused
file_reply reply (some _) = failed

module _ (c : Codec) where
  abbrev pub on_file : FileStore c → Operation → Option Failure → FileStore c × Reply
  on_file s (saves status) io = let r = File.save c s status io in (r.0, file_reply done r.1)
  on_file s (deletes id) io = let r = File.delete c s id io in (r.0, file_reply done r.1)
  on_file s (marks id state now message) io =
      let r = File.mark_state c s id state now message io in (r.0, record_of r.1)
  on_file s (compares id from to now message) io =
      let r = File.compare_and_mark_state c s id from to now message io in (r.0, record_of r.1)
  on_file s (commits status from) io =
      let r = File.save_if_state c s status from io in (r.0, file_reply (swapped r.1) r.2)
  on_file s (admits status max_runners tenant_quota backend_limit) io =
      let r = File.save_if_capacity c s status max_runners tenant_quota backend_limit io in
      (r.0, file_reply done r.1)
  on_file s (prunes now retention) io =
      let r = File.prune_terminal c s now retention io in (r.0, file_reply (pruned r.1) r.2)

  -- A working write does what the memory store does and returns the same; a failing one leaves every
  -- record as it was.
  abbrev pub Simulates : FileStore c → Memory → Operation → Option Failure → Type 0
  Simulates s m op none =
      Agree (on_file s op none).0.file.allocations (on_memory m op).0.allocations
      × ((on_file s op none).1 ≡ (on_memory m op).1)
  Simulates s m op (some e) = Agree (on_file s op (some e)).0.file.allocations m.allocations

  pub saves-Simulates :
      (s : FileStore c) (m : Memory) (status : AllocationStatus) (io : Option Failure)
      → Agree s.file.allocations m.allocations
      → Simulates s m (saves status) io
  unfolding File.save Store.save
  saves-Simulates s m status none a =
      let (flag, agree) = write_record-Agree c s m.allocations status.id status none a in
      (agree, rw (flag) refl)
  saves-Simulates s m status (some e) a =
      let (flag, agree) = write_record-Agree c s m.allocations status.id status (some e) a in agree

  pub deletes-Simulates :
      (s : FileStore c) (m : Memory) (id : String) (io : Option Failure)
      → Agree s.file.allocations m.allocations
      → Simulates s m (deletes id) io
  unfolding File.delete Store.delete File.set_allocations File.roll_back
  deletes-Simulates s m id io a = elim (Option-cases (get s.file.allocations id)) [
    | inl gone ↦ absent io gone
    | inr (prev, there) ↦ present io prev there
  ]
    where
      n : Allocations
      n = s.file.allocations

      absent : (io : Option Failure) → get n id ≡ none → Simulates s m (deletes id) io
      absent none gone =
          rw (gone, File.delete)
            (
              record {
                same = λ j.
                    ground
                      (arith, a.same j, get-erase m.allocations id j, string_eq.agrees_iff id j);
                left = a.left;
                right = erase-Unique m.allocations id a.right;
              },
              refl,
            )
      absent (some e) gone = rw (gone, File.delete) a

      present :
          (io : Option Failure) (prev : AllocationStatus)
          → get n id ≡ some prev
          → Simulates s m (deletes id) io
      present none prev there =
          let (kept, flag) = persist-file c (set_allocations c s (erase n id)) none in
          let same = ap (λ f. f.allocations) kept in
          rw (there, File.delete, flag) (rw same (Agree-erase n m.allocations id a), refl)
      present (some e) prev there =
          let (kept, flag) = persist-file c (set_allocations c s (erase n id)) (some e) in
          let same = ap (λ f. f.allocations) kept in
          rw (there, File.delete, flag, same)
            (record {
              same = λ j. put-erase-SameMap n id prev there j ∙ a.same j;
              left = put-Unique (erase n id) id prev (erase-Unique n id a.left);
              right = a.right;
            })

  pub marks-Simulates :
      (s : FileStore c) (m : Memory) (id : String) (state : AllocationState) (now : Time)
      (message : String) (io : Option Failure)
      → Agree s.file.allocations m.allocations
      → Simulates s m (marks id state now message) io
  unfolding File.mark_state Store.mark_state
  marks-Simulates s m id state now message io a = elim (Option-cases (get s.file.allocations id)) [
    | inl gone ↦ let other = sym (a.same id) ∙ gone in by_absent io gone other
    | inr (prev, there) ↦ let other = sym (a.same id) ∙ there in by_present io prev there other
  ]
    where
      by_absent :
          (io : Option Failure)
          → get s.file.allocations id ≡ none
          → get m.allocations id ≡ none
          → Simulates s m (marks id state now message) io
      by_absent none gone other = rw (gone, other, File.mark_state, Store.mark_state) (a, refl)
      by_absent (some e) gone other = rw (gone, File.mark_state) a

      by_present :
          (io : Option Failure) (prev : AllocationStatus)
          → get s.file.allocations id ≡ some prev
          → get m.allocations id ≡ some prev
          → Simulates s m (marks id state now message) io
      by_present none prev there other =
          let status = apply_mark_state prev state now message in
          let (flag, agree) = write_record-Agree c s m.allocations id status none a in
          rw (there, other, File.mark_state, Store.mark_state) (agree, rw flag refl)
      by_present (some e) prev there other =
          let status = apply_mark_state prev state now message in
          let (flag, agree) = write_record-Agree c s m.allocations id status (some e) a in
          rw (there, File.mark_state) agree
