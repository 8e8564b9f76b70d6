-- ===== src/Store/File/Refinement/Prunes.antt =====
-- The prune of the file store against the memory store's.
use unified_ephemeral_runner.Common.{
  String, ◌≡◌, refl, sym, ap, ◌∙◌, subst, ◌⊎◌, inl, inr, true, false, ◌&&◌, Option, none, some,
  List, [], ◌∷◌, arith, ◌==◌, string_eq, nat_eq, pair_eq, get, put, Unique, if◌then◌else◌, eqb, leb,
  Bool-cases, Option-cases, is_some, eqb_iff, get-put, put-Unique, length,
}
use unified_ephemeral_runner.Common.SameMap.{SameMap}
use unified_ephemeral_runner.Model.{Time, Duration, state_eq, AllocationStatus}
use unified_ephemeral_runner.Store.{
  Allocations, Memory, capacity_allowed, collect_prunable_ids, delete_all, apply_mark_state,
}
use unified_ephemeral_runner.Store
use unified_ephemeral_runner.Store.File
use unified_ephemeral_runner.Store.Prune.{contains, get-delete_all}
use unified_ephemeral_runner.Store.File.{
  Codec, Failure, FileStore, persist, set_allocations, write_record, put_back,
}
use unified_ephemeral_runner.Store.File.Refinement.Writes.{
  Agree, delete_all-Unique, Agree-delete_all, length-collect_prunable_ids, persist-file,
}
use unified_ephemeral_runner.Store.File.Refinement.Operations.{Simulates, prunes, pruned}

put_back-Unique :
    (old : Allocations) (ids : List String) (m : Allocations)
    → Unique m
    → Unique (put_back old ids m)
unfolding put_back
put_back-Unique old [] m u = u
put_back-Unique old (id ∷ ids) m u = elim (Option-cases (get old id)) [
  | inl gone ↦ rw (gone, put_back) (put_back-Unique old ids m u)
  | inr (status, there) ↦
      rw (there, put_back) (put_back-Unique old ids (put m id status) (put-Unique m id status u))
]

get-put_back :
    (old : Allocations) (ids : List String) (m : Allocations) (id : String)
    → get (put_back old ids m) id
      ≡ (if contains ids id && is_some (get old id) then get old id else get m id)
unfolding put_back
get-put_back old [] m id = refl
get-put_back old (x ∷ ids) m id = elim (Option-cases (get old x)) [
  | inl gone ↦ rw (gone, put_back) (skipped gone (Bool-cases (x == id)) (get-put_back old ids m id))
  | inr (status, there) ↦
      rw (there, put_back)
        (written status there (Bool-cases (x == id)) (get-put_back old ids (put m x status) id))
]
  where
    skipped :
        get old x ≡ none
        → ((x == id) ≡ true) ⊎ ((x == id) ≡ false)
        → get (put_back old ids m) id
          ≡ (if contains ids id && is_some (get old id) then get old id else get m id)
        → get (put_back old ids m) id
          ≡ (if contains (x ∷ ids) id && is_some (get old id) then get old id else get m id)
    skipped gone (inl same) rest =
        let eq = (string_eq.agrees_iff x id).0 same in
        let none_here = subst (λ j. get old j ≡ none) eq gone in ground arith
    skipped gone (inr other) rest = ground arith

    written :
        (status : AllocationStatus)
        → get old x ≡ some status
        → ((x == id) ≡ true) ⊎ ((x == id) ≡ false)
        → get (put_back old ids (put m x status)) id ≡ (
            if contains ids id && is_some (get old id) then get old id else get (put m x status) id)
        → get (put_back old ids (put m x status)) id
          ≡ (if contains (x ∷ ids) id && is_some (get old id) then get old id else get m id)
    written status there (inl same) rest =
        let eq = (string_eq.agrees_iff x id).0 same in
        let here = subst (λ j. get old j ≡ some status) eq there in
        let now = get-put m x status id in ground arith
    written status there (inr other) rest = let now = get-put m x status id in ground arith

-- A failed prune puts every record back.
put_back-SameMap :
    (m : Allocations) (ids : List String) → SameMap (put_back m ids (delete_all m ids)) m
put_back-SameMap m ids id =
    let back = get-put_back m ids (delete_all m ids) id in
    let deleted = get-delete_all m ids id in
    elim (Option-cases (get m id)) [ inl gone ↦ ground arith | inr (s, there) ↦ ground arith ]

no_elements : {A : Type 0} → (xs : List A) → length xs ≡ 0 → xs ≡ []
no_elements [] e = refl
no_elements (x ∷ xs) e = absurd (ground arith)

module _ (c : Codec) where
  pub prunes-Simulates :
      (s : FileStore c) (m : Memory) (now : Time) (retention : Duration) (io : Option Failure)
      → Agree s.file.allocations m.allocations
      → Simulates c s m (prunes now retention) io
  unfolding File.prune_terminal Store.prune_terminal set_allocations
  prunes-Simulates s m now retention io a = elim (Bool-cases (leb retention 0)) [
    | inl off ↦ disabled io off
    | inr on ↦
        let counted =
          length-collect_prunable_ids s.file.allocations m.allocations now retention a in
        elim (Bool-cases (eqb (length (collect_prunable_ids s.file.allocations now retention)) 0)) [
          | inl nothing ↦
              let zero_ids = (eqb_iff _ 0).0 nothing in
              unchanged io on (no_elements _ zero_ids) (no_elements _ (sym counted ∙ zero_ids))
          | inr old ↦ deleted io on old counted
        ]
  ]
    where
      ids : List String
      ids = collect_prunable_ids s.file.allocations now retention

      disabled :
          (io : Option Failure) → leb retention 0 ≡ true → Simulates c s m (prunes now retention) io
      disabled none off = rw (off, File.prune_terminal, Store.prune_terminal) (a, refl)
      disabled (some e) off = rw (off, File.prune_terminal) a

      unchanged :
          (io : Option Failure)
          → leb retention 0 ≡ false
          → ids ≡ []
          → collect_prunable_ids m.allocations now retention ≡ []
          → Simulates c s m (prunes now retention) io
      unchanged none on nothing other =
          rw (on, nothing, other, File.prune_terminal, Store.prune_terminal) (a, refl)
      unchanged (some e) on nothing other = rw (on, nothing, File.prune_terminal) a

      deleted :
          (io : Option Failure)
          → leb retention 0 ≡ false
          → eqb (length ids) 0 ≡ false
          → length ids ≡ length (collect_prunable_ids m.allocations now retention)
          → Simulates c s m (prunes now retention) io
      deleted none on old counted =
          let (kept, flag) =
            persist-file c (set_allocations c s (delete_all s.file.allocations ids)) none in
          let same = ap (λ f. f.allocations) kept in
          rw (on, old, File.prune_terminal, Store.prune_terminal, flag, same)
            (Agree-delete_all s.file.allocations m.allocations now retention a, ap pruned counted)
      deleted (some e) on old counted =
          let (kept, flag) =
            persist-file c (set_allocations c s (delete_all s.file.allocations ids)) (some e) in
          let same = ap (λ f. f.allocations) kept in
          rw (on, old, File.prune_terminal, flag, same)
            (record {
              same = λ id. put_back-SameMap s.file.allocations ids id ∙ a.same id;
              left = put_back-Unique _ ids _ (delete_all-Unique _ ids a.left);
              right = a.right;
            })
