-- ===== src/Store/File/Restart.antt =====
-- internal/store/file.go: what a broker that starts again reads from the file.
use unified_ephemeral_runner.Common.{
  String, ◌≡◌, refl, sym, ap, ◌∙◌, subst, Bool, true, false, not, ◌&&◌, ◌||◌, Option, none, some,
  List, [], ◌∷◌, string_eq, nat_eq, pair_eq, Comparable, Dict, inl, inr, arith, Bool-cases, get,
  put, Unique, if◌then◌else◌, is_some,
}
use unified_ephemeral_runner.Common.SameMap.{SameMap}
use unified_ephemeral_runner.Model.{AllocationStatus}
use unified_ephemeral_runner.Store.Documents.{empty_document}
use unified_ephemeral_runner.Store.File
use unified_ephemeral_runner.Store.File.{
  Codec, Failure, make_directory, encode_snapshot, open_temp, write_temp, chmod_temp, sync_temp,
  close_temp, rename_temp, open_directory, sync_directory, File, FileSnapshot, FileStore, FileError,
  not_persisted, write_file_atomic, persist, snapshot_of, apply_snapshot, load, new_file, open_file,
  set_allocations, write_record, roll_back,
}
use unified_ephemeral_runner.Store.File.Refinement.Writes.{Agree, persist-file, write_record-Agree}

unfoldable pub is_nil : {A : Type 0} → List A → Bool
is_nil [] = true
is_nil (x ∷ xs) = false

-- The option omitempty of encoding/json: an empty map is left out, and read as a nil map.
unfoldable pub omit : {A : Type 0} → Option (List A) → Option (List A)
omit none = none
omit (some []) = none
omit (some (x ∷ xs)) = some (x ∷ xs)

unfoldable pub omit_empty : FileSnapshot → FileSnapshot
omit_empty s = record {
  allocations = s.allocations;
  circuits = omit s.circuits;
  limits = omit s.limits;
  budgets = omit s.budgets;
  leader = omit s.leader;
}

-- Both are nil, or both hold the same entries, in whatever order.
module _ {K V : Type 0} ⦃e : Comparable K⦄ where
  abbrev pub SameOption : Option (Dict K V) → Option (Dict K V) → Type 0
  SameOption none none = Unit
  SameOption (some m) (some n) = SameMap m n
  SameOption none (some n) = ⊥
  SameOption (some m) none = ⊥

pub record SameSnapshot (s t : FileSnapshot) : Type 0 where
  pub allocations : SameOption s.allocations t.allocations
  pub circuits : SameOption s.circuits t.circuits
  pub limits : SameOption s.limits t.limits
  pub budgets : SameOption s.budgets t.budgets
  pub leader : SameOption s.leader t.leader

pub record SameFile (f g : File) : Type 0 where
  pub allocations : SameMap f.allocations g.allocations
  pub circuits : SameMap f.admission.circuits g.admission.circuits
  pub limits : SameMap f.admission.limits g.admission.limits
  pub budgets : SameMap f.admission.budgets g.admission.budgets
  pub leader : SameMap f.leader g.leader

-- What the store relies on of encoding/json: a snapshot that is plain is read back as the same maps,
-- where an empty map that omitempty leaves out is read as a nil map. Plain ones are those that JSON
-- carries without loss: their text is valid UTF-8, their times are in the range of RFC 3339, and the
-- maps within a record are listed in the order of their keys.
pub record DecodesEncoded (c : Codec) : Type 1 where
  pub IsPlain : FileSnapshot → Type 0
  pub decodes :
      (s : FileSnapshot)
      → IsPlain s
      → (t : FileSnapshot) × (c.decode (c.encode s) ≡ some t) × SameSnapshot t (omit_empty s)
  pub not_empty : (s : FileSnapshot) → c.is_empty (c.encode s) ≡ false

-- The file's records and leases, and the admission document unless it has neither circuits nor limits.
unfoldable pub restored : File → File
restored f = record f {
  admission =
      if is_nil f.admission.circuits && is_nil f.admission.limits
      then empty_document
      else f.admission;
}

module _ {K V : Type 0} ⦃e : Comparable K⦄ where
  or_empty-SameMap :
      (o : Option (Dict K V)) (m : Dict K V)
      → SameOption o (omit (some m))
      → SameMap (File.or_empty o) m
  unfolding omit File.or_empty
  or_empty-SameMap none [] same = λ k. refl
  or_empty-SameMap none (x ∷ m) same = absurd same
  or_empty-SameMap (some n) [] same = absurd same
  or_empty-SameMap (some n) (x ∷ m) same = same

  or_keep-SameMap :
      (o : Option (Dict K V)) (m : Dict K V)
      → SameOption o (omit (some m))
      → SameMap (File.or_keep o []) m
  unfolding omit File.or_keep
  or_keep-SameMap none [] same = λ k. refl
  or_keep-SameMap none (x ∷ m) same = absurd same
  or_keep-SameMap (some n) [] same = absurd same
  or_keep-SameMap (some n) (x ∷ m) same = same

  kept-SameMap :
      (o : Option (Dict K V)) (m : Dict K V) → SameOption o (some m) → SameMap (File.or_keep o []) m
  unfolding File.or_keep
  kept-SameMap none m same = absurd same
  kept-SameMap (some n) m same = same

  is_some-is_nil :
      (o : Option (Dict K V)) (m : Dict K V)
      → SameOption o (omit (some m))
      → is_some o ≡ not (is_nil m)
  unfolding omit is_nil
  is_some-is_nil none [] same = refl
  is_some-is_nil none (x ∷ m) same = absurd same
  is_some-is_nil (some n) [] same = absurd same
  is_some-is_nil (some n) (x ∷ m) same = refl

-- The two documents that a load leaves, by whether the maps are empty.
pub restored-SameFile :
    (t : FileSnapshot) (f : File)
    → SameSnapshot t (omit_empty (snapshot_of f))
    → SameFile (apply_snapshot t new_file) (restored f)
unfolding apply_snapshot omit_empty restored File.loaded_admission
restored-SameFile t f same =
    let c = is_some-is_nil t.circuits f.admission.circuits same.circuits in
    let l = is_some-is_nil t.limits f.admission.limits same.limits in
    let allocations = kept-SameMap t.allocations f.allocations same.allocations in
    let leader = or_keep-SameMap t.leader f.leader same.leader in
    elim (Bool-cases (is_nil f.admission.circuits && is_nil f.admission.limits)) [
      | inl e ↦
          let off : (is_some t.circuits || is_some t.limits) ≡ false = ground arith in
          record {
            allocations = allocations;
            circuits = λ k. rw (e, off) refl;
            limits = λ k. rw (e, off) refl;
            budgets = λ k. rw (e, off) refl;
            leader = leader;
          }
      | inr e ↦
          let on : (is_some t.circuits || is_some t.limits) ≡ true = ground arith in
          record {
            allocations = allocations;
            circuits = rw (e, on) (or_empty-SameMap t.circuits f.admission.circuits same.circuits);
            limits = rw (e, on) (or_empty-SameMap t.limits f.admission.limits same.limits);
            budgets = rw (e, on) (or_empty-SameMap t.budgets f.admission.budgets same.budgets);
            leader = leader;
          }
    ]

-- The steps after the rename.
unfoldable pub after_rename : Failure → Bool
after_rename open_directory = true
after_rename sync_directory = true
after_rename _ = false

module _ (c : Codec) where
  pub roll_back-disk :
      (s : FileStore c) (id : String) (prev : Option AllocationStatus)
      → (roll_back c s id prev).disk ≡ s.disk
  unfolding roll_back set_allocations
  roll_back-disk s id none = refl
  roll_back-disk s id (some prev) = refl

  -- The content of the file after a write that is reported as failed.
  pub persist_error-disk :
      (s : FileStore c) (failure : Failure)
      → (persist c s (some failure)).0.disk.content
        ≡ (if after_rename failure then some (c.encode (snapshot_of s.file)) else s.disk.content)
  unfolding persist write_file_atomic after_rename
  persist_error-disk s make_directory = refl
  persist_error-disk s encode_snapshot = refl
  persist_error-disk s open_temp = refl
  persist_error-disk s write_temp = refl
  persist_error-disk s chmod_temp = refl
  persist_error-disk s sync_temp = refl
  persist_error-disk s close_temp = refl
  persist_error-disk s rename_temp = refl
  persist_error-disk s open_directory = refl
  persist_error-disk s sync_directory = refl

  pub write_record_error-disk :
      (s : FileStore c) (id : String) (status : AllocationStatus) (failure : Failure)
      → let m = put s.file.allocations id status in
        (write_record c s id status (some failure)).0.disk.content ≡ (
          if after_rename failure
          then some (c.encode (snapshot_of (record s.file { allocations = m })))
          else s.disk.content)
  unfolding write_record set_allocations
  write_record_error-disk s id status failure =
      let m = put s.file.allocations id status in
      let (kept, flag) = persist-file c (set_allocations c s m) (some failure) in
      rw (write_record, flag)
        (ap (λ d. d.content) (roll_back-disk _ id (get s.file.allocations id))
          ∙ persist_error-disk (set_allocations c s m) failure)

-- A broker that opens this disk has what `f` holds, and leaves the disk as it is.
pub record Reopens (c : Codec) (disk : File.Disk c.Bytes) (f : File) : Type 0 where
  pub file : File
  pub opens : open_file c disk true ≡ some (record { file = file; disk = disk })
  pub same : SameFile file f

module _ (c : Codec) (laws : DecodesEncoded c) where
  open_encoded :
      (temp : Option c.Bytes) (f : File)
      → laws.IsPlain (snapshot_of f)
      → Reopens c (record { content = some (c.encode (snapshot_of f)); temp = temp }) (restored f)
  unfolding open_file load
  open_encoded temp f plain =
      let (t, decoded, same) = laws.decodes (snapshot_of f) plain in
      record {
        file = apply_snapshot t new_file;
        opens = rw (open_file, load, laws.not_empty (snapshot_of f), decoded) refl;
        same = restored-SameFile t f same;
      }

  pub open_content :
      (disk : File.Disk c.Bytes) (f : File)
      → laws.IsPlain (snapshot_of f)
      → disk.content ≡ some (c.encode (snapshot_of f))
      → Reopens c disk (restored f)
  open_content disk f plain here =
      subst (λ bytes. Reopens c (record { content = bytes; temp = disk.temp }) (restored f))
        (sym here) (open_encoded disk.temp f plain)

  -- A broker that starts on the file that a working persist wrote, of a plain content, reads back the
  -- same records and leases, and the same admission document unless that has neither circuits nor
  -- limits: then it reads an empty one.
  pub open_file-persist :
      (s : FileStore c)
      → laws.IsPlain (snapshot_of s.file)
      → Reopens c (persist c s none).0.disk (restored s.file)
  unfolding persist write_file_atomic
  open_file-persist s plain = open_content _ s.file plain refl

  -- A Save that fails after the rename is reported as failed, and the records in memory are as
  -- before; but a broker that starts again on the file, of a plain content, reads the new record.
  pub save_error-open_file :
      (s : FileStore c) (status : AllocationStatus) (failure : Failure)
      → after_rename failure ≡ true
      → Unique s.file.allocations
      → let saved = record s.file { allocations = put s.file.allocations status.id status } in
        let r = File.save c s status (some failure) in
        laws.IsPlain (snapshot_of saved)
        → (r.1 ≡ some not_persisted)
          × Agree r.0.file.allocations s.file.allocations
          × Reopens c r.0.disk (restored saved)
  unfolding File.save
  save_error-open_file s status failure late u plain =
      let m = put s.file.allocations status.id status in
      let (flag, agree) =
        write_record-Agree c s s.file.allocations status.id status (some failure)
          (record { same = λ id. refl; left = u; right = u }) in
      let content =
        write_record_error-disk c s status.id status failure
        ∙ ap
            (λ b.
              if b
              then some (c.encode (snapshot_of (record s.file { allocations = m })))
              else s.disk.content)
            late in
      (rw flag refl, agree, open_content _ (record s.file { allocations = m }) plain content)
