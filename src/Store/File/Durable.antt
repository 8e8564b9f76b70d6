-- ===== src/Store/File/Durable.antt =====
-- What a broker that starts again reads after a history of operations.
use unified_ephemeral_runner.Common.{
  String, ◌≡◌, refl, sym, ap, ◌∙◌, ◌⊎◌, inl, inr, Bool, true, false, not, ◌&&◌, Option, none, some,
  [], ◌∷◌, arith, ◌==◌, string_eq, nat_eq, pair_eq, get, erase, eqb, leb, Bool-cases, else_of,
  Option-cases, length,
}
use unified_ephemeral_runner.Common.SameMap.{SameMap}
use unified_ephemeral_runner.Model.{state_eq, AllocationStatus}
use unified_ephemeral_runner.Store.{
  Allocations, Memory, delete_all, capacity_allowed, collect_prunable_ids, apply_mark_state,
}
use unified_ephemeral_runner.Store.File
use unified_ephemeral_runner.Store.File.{
  Codec, Failure, FileStore, write_file_atomic, persist, snapshot_of, load, new_file, open_file,
  set_allocations, write_record, roll_back,
}
use unified_ephemeral_runner.Store.File.Refinement.Writes.{Agree, persist-file}
use unified_ephemeral_runner.Store.File.Refinement.Operations.{
  Operation, on_memory, on_file, saves, deletes, marks, compares, commits, admits, prunes,
}
use unified_ephemeral_runner.Store.File.Refinement.History.{
  History, memory_run, file_run, on_file-Simulates,
}
use unified_ephemeral_runner.Store.File.Restart.{
  DecodesEncoded, after_rename, restored, open_content, roll_back-disk, persist_error-disk,
  write_record_error-disk,
}

-- No operation of the history fails after the rename.
unfoldable pub all_before_rename : History → Bool
all_before_rename [] = true
all_before_rename ((op, none) ∷ h) = all_before_rename h
all_before_rename ((op, some e) ∷ h) = not (after_rename e) && all_before_rename h

module _ (c : Codec) where
  -- The store did nothing, or wrote its file.
  abbrev Written : FileStore c → FileStore c → Type 0
  Written s t = (t ≡ s) ⊎ (t.disk.content ≡ some (c.encode (snapshot_of t.file)))

  on_file-Written : (s : FileStore c) (op : Operation) → Written s (on_file c s op none).0
  unfolding File.save File.delete File.mark_state File.compare_and_mark_state File.save_if_state
      File.save_if_capacity File.prune_terminal write_record persist write_file_atomic
  on_file-Written s (saves status) = inr refl
  on_file-Written s (deletes id) = elim (Option-cases (get s.file.allocations id)) [
    | inl gone ↦ rw (gone, File.delete) (inl refl)
    | inr (prev, there) ↦ rw (there, File.delete) (inr refl)
  ]
  on_file-Written s (marks id state now message) = elim (Option-cases (get s.file.allocations id)) [
    | inl gone ↦ rw (gone, File.mark_state) (inl refl)
    | inr (prev, there) ↦ rw (there, File.mark_state) (inr refl)
  ]
  on_file-Written s (compares id from to now message) =
      elim (Option-cases (get s.file.allocations id)) [
        | inl gone ↦ rw (gone, File.compare_and_mark_state) (inl refl)
        | inr (prev, there) ↦ elim (Bool-cases (prev.state == from)) [
          | inl meets ↦ rw (there, File.compare_and_mark_state, meets) (inr refl)
          | inr differs ↦ rw (there, File.compare_and_mark_state, differs) (inl refl)
        ]
      ]
  on_file-Written s (commits status from) = elim (Option-cases (get s.file.allocations status.id)) [
    | inl gone ↦ rw (gone, File.save_if_state) (inl refl)
    | inr (prev, there) ↦ elim (Bool-cases (prev.state == from)) [
      | inl meets ↦ rw (there, File.save_if_state, meets) (inr refl)
      | inr differs ↦ rw (there, File.save_if_state, differs) (inl refl)
    ]
  ]
  on_file-Written s (admits status max_runners tenant_quota backend_limit) =
      elim (Option-cases
        (capacity_allowed s.file.allocations status max_runners tenant_quota backend_limit)) [
          | inl fits ↦ rw (fits, File.save_if_capacity) (inr refl)
          | inr (over, stands) ↦ rw (stands, File.save_if_capacity) (inl refl)
        ]
  on_file-Written s (prunes now retention) = elim (Bool-cases (leb retention 0)) [
    | inl off ↦ rw (off, File.prune_terminal) (inl refl)
    | inr on ↦
        elim (Bool-cases (eqb (length (collect_prunable_ids s.file.allocations now retention)) 0)) [
          | inl nothing ↦ rw (on, nothing, File.prune_terminal) (inl refl)
          | inr old ↦ rw (on, old, File.prune_terminal) (inr refl)
        ]
  ]

  -- A failure before the rename leaves the content of the file.
  not_persisted :
      (s : FileStore c) (m : Allocations) (e : Failure)
      → after_rename e ≡ false
      → (persist c (set_allocations c s m) (some e)).0.disk.content ≡ s.disk.content
  unfolding set_allocations
  not_persisted s m e early =
      persist_error-disk c (set_allocations c s m) e ∙ else_of _ _ s.disk.content early

  kept :
      (s : FileStore c) (id : String) (status : AllocationStatus) (e : Failure)
      → after_rename e ≡ false
      → (write_record c s id status (some e)).0.disk.content ≡ s.disk.content
  kept s id status e early =
      write_record_error-disk c s id status e ∙ else_of _ _ s.disk.content early

  on_file_error-disk :
      (s : FileStore c) (op : Operation) (e : Failure)
      → after_rename e ≡ false
      → (on_file c s op (some e)).0.disk.content ≡ s.disk.content
  unfolding File.save File.delete File.mark_state File.compare_and_mark_state File.save_if_state
      File.save_if_capacity File.prune_terminal set_allocations
  on_file_error-disk s (saves status) e early = kept s status.id status e early
  on_file_error-disk s (deletes id) e early =
      let m = erase s.file.allocations id in
      let (same, flag) = persist-file c (set_allocations c s m) (some e) in
      elim (Option-cases (get s.file.allocations id)) [
        | inl gone ↦ rw (gone, File.delete) refl
        | inr (prev, there) ↦
            rw (there, File.delete, flag)
              (ap (λ d. d.content) (roll_back-disk c _ id (some prev)) ∙ not_persisted s m e early)
      ]
  on_file_error-disk s (marks id state now message) e early =
      elim (Option-cases (get s.file.allocations id)) [
        | inl gone ↦ rw (gone, File.mark_state) refl
        | inr (prev, there) ↦
            rw (there, File.mark_state)
              (kept s id (apply_mark_state prev state now message) e early)
      ]
  on_file_error-disk s (compares id from to now message) e early =
      elim (Option-cases (get s.file.allocations id)) [
        | inl gone ↦ rw (gone, File.compare_and_mark_state) refl
        | inr (prev, there) ↦
            let write = kept s id (apply_mark_state prev to now message) e early in
            elim (Bool-cases (prev.state == from)) [
              | inl meets ↦ rw (there, File.compare_and_mark_state, meets) write
              | inr differs ↦ rw (there, File.compare_and_mark_state, differs) refl
            ]
      ]
  on_file_error-disk s (commits status from) e early =
      elim (Option-cases (get s.file.allocations status.id)) [
        | inl gone ↦ rw (gone, File.save_if_state) refl
        | inr (prev, there) ↦
            let write = kept s status.id status e early in
            elim (Bool-cases (prev.state == from)) [
              | inl meets ↦ rw (there, File.save_if_state, meets) write
              | inr differs ↦ rw (there, File.save_if_state, differs) refl
            ]
      ]
  on_file_error-disk s (admits status max_runners tenant_quota backend_limit) e early =
      elim (Option-cases
        (capacity_allowed s.file.allocations status max_runners tenant_quota backend_limit)) [
          | inl fits ↦ rw (fits, File.save_if_capacity) (kept s status.id status e early)
          | inr (over, stands) ↦ rw (stands, File.save_if_capacity) refl
        ]
  on_file_error-disk s (prunes now retention) e early =
      let ids = collect_prunable_ids s.file.allocations now retention in
      let m = delete_all s.file.allocations ids in
      let (same, flag) = persist-file c (set_allocations c s m) (some e) in
      elim (Bool-cases (leb retention 0)) [
        | inl off ↦ rw (off, File.prune_terminal) refl
        | inr on ↦ elim (Bool-cases (eqb (length ids) 0)) [
          | inl nothing ↦ rw (on, nothing, File.prune_terminal) refl
          | inr old ↦ rw (on, old, File.prune_terminal, flag) (not_persisted s m e early)
        ]
      ]

  -- A new store that loads this file has these records.
  pub record Restores (disk : File.Disk c.Bytes) (m : Allocations) : Type 0 where
    pub opened : FileStore c
    pub opens : open_file c disk true ≡ some opened
    pub same : SameMap opened.file.allocations m

module _ (c : Codec) (laws : DecodesEncoded c) where
  written-Restores :
      (disk : File.Disk c.Bytes) (f : File.File) (m : Allocations)
      → laws.IsPlain (snapshot_of f)
      → disk.content ≡ some (c.encode (snapshot_of f))
      → SameMap f.allocations m
      → Restores c disk m
  unfolding restored
  written-Restores disk f m plain here same =
      let r = open_content c laws disk f plain here in
      record {
        opened = record { file = r.file; disk = disk };
        opens = r.opens;
        same = λ id. r.same.allocations id ∙ same id;
      }

  -- What is read depends on the content alone.
  content-Restores :
      (disk next : File.Disk c.Bytes) (m : Allocations)
      → next.content ≡ disk.content
      → Restores c disk m
      → Restores c next m
  unfolding open_file
  content-Restores disk next m here r = elim (Option-cases (load c new_file disk.content true)) [
    | inl unread ↦
        let opens : open_file c disk true ≡ none = rw (open_file, unread) refl in
        absurd (ground (arith, opens, r.opens))
    | inr (f, read) ↦
        let opens : open_file c disk true ≡ some (record { file = f; disk = disk }) =
          rw (open_file, read) refl in
        let read_next = ap (λ b. load c new_file b true) here ∙ read in
        record {
          opened = record { file = f; disk = next };
          opens = rw (open_file, read_next) refl;
          same = λ id.
              ap
                (λ (o : Option (FileStore c)). elim o [
                  | none ↦ none
                  | some t ↦ get t.file.allocations id
                ])
                (sym opens ∙ r.opens)
              ∙ r.same id;
        }
  ]

  -- Each content that a working write of the history puts in the file is plain.
  unfoldable pub AllPlain : FileStore c → History → Type 0
  AllPlain s [] = Unit
  AllPlain s ((op, none) ∷ h) =
      laws.IsPlain (snapshot_of (on_file c s op none).0.file) × AllPlain (on_file c s op none).0 h
  AllPlain s ((op, some e) ∷ h) = AllPlain (on_file c s op (some e)).0 h

  -- After a history in which no operation fails after the rename and every content that is written
  -- is plain, a broker that starts again reads
  -- the records of a memory store that performs only the operations whose write works: what was
  -- acknowledged is read back, and what was refused is not.
  pub file_run-Restores :
      (h : History) (s : FileStore c) (m : Memory)
      → Agree s.file.allocations m.allocations
      → Restores c s.disk m.allocations
      → all_before_rename h ≡ true
      → AllPlain s h
      → Restores c (file_run c s h).0.disk (memory_run m h).0.allocations
  unfolding file_run memory_run all_before_rename AllPlain
  file_run-Restores [] s m a r early plain = r
  file_run-Restores ((op, none) ∷ h) s m a r early (now_plain, plain) =
      let (next, reply) = on_file-Simulates c s m op none a in
      file_run-Restores h _ _ next (worked (on_file-Written c s op) next) early plain
    where
      worked :
          Written c s (on_file c s op none).0
          → Agree (on_file c s op none).0.file.allocations (on_memory m op).0.allocations
          → Restores c (on_file c s op none).0.disk (on_memory m op).0.allocations
      worked (inl unchanged) next = record {
        opened = r.opened;
        opens = ap (λ t. open_file c t.disk true) unchanged ∙ r.opens;
        same = λ id.
            r.same id
            ∙ sym (a.same id)
            ∙ sym (ap (λ t. get t.file.allocations id) unchanged)
            ∙ next.same id;
      }
      worked (inr written) next = written-Restores _ _ _ now_plain written next.same
  file_run-Restores ((op, some e) ∷ h) s m a r early plain =
      let before : after_rename e ≡ false = ground arith in
      let content = on_file_error-disk c s op e before in
      file_run-Restores h _ m (on_file-Simulates c s m op (some e) a)
        (content-Restores s.disk _ m.allocations content r) (ground arith) plain
