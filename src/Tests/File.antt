-- ===== src/Tests/File.antt =====
-- The file store's theorems on a history with a failing write.
use unified_ephemeral_runner.Common.{
  ◌≡◌, refl, ◌∙◌, not, is_some, Option, Dict, Comparable, get, overlay, get-overlay, none, some, [],
  ◌∷◌, put, true, string_eq,
}
use unified_ephemeral_runner.Model.{ready, AllocationStatus}
use unified_ephemeral_runner.Store.{Allocations, new_memory}
use unified_ephemeral_runner.Store.File
use unified_ephemeral_runner.Store.File.{
  Codec, FileSnapshot, FileStore, not_persisted, sync_temp, sync_directory, new_file, open_file,
  load, persist,
}
use unified_ephemeral_runner.Store.File.Restart.{
  DecodesEncoded, SameOption, Reopens, omit_empty, restored, after_rename, open_file-persist,
  save_error-open_file,
}
use unified_ephemeral_runner.Store.File.Refinement.Writes.{Agree}
use unified_ephemeral_runner.Store.File.Refinement.Operations.{saves, deletes, marks}
use unified_ephemeral_runner.Store.File.Refinement.History.{
  History, memory_run, file_run, file_run-memory_run,
}
use unified_ephemeral_runner.Store.File.Durable.{
  Restores, AllPlain, all_before_rename, file_run-Restores,
}
use unified_ephemeral_runner.Tests.Fixtures.{allocation}

-- A codec that writes the list of the records anew.
map_over : {A B : Type 0} → (A → B) → Option A → Option B
map_over f none = none
map_over f (some a) = some (f a)

abbrev json : Codec
json = record {
  Bytes = Option FileSnapshot;
  is_empty = λ b. not (is_some b);
  encode = λ s. some (record (omit_empty s) { allocations = map_over (overlay []) s.allocations });
  decode = λ b. b;
}

rewritten : (o : Option Allocations) → SameOption (map_over (overlay []) o) o
unfolding map_over get
rewritten none = tt
rewritten (some m) = λ id. get-overlay [] m id ∙ shown (get m id)
  where
    shown : (o : Option AllocationStatus) → elim o [ none ↦ none | some v ↦ some v ] ≡ o
    shown none = refl
    shown (some v) = refl

same_omitted : {K V : Type 0} → ⦃e : Comparable K⦄ → (o : Option (Dict K V)) → SameOption o o
same_omitted none = tt
same_omitted (some m) = λ k. refl

json_laws : DecodesEncoded json
unfolding omit_empty
json_laws = record {
  IsPlain = λ s. Unit;
  decodes = λ s _. (
    record (omit_empty s) { allocations = map_over (overlay []) s.allocations },
    refl,
    record {
      allocations = rewritten s.allocations;
      circuits = same_omitted (omit_empty s).circuits;
      limits = same_omitted (omit_empty s).limits;
      budgets = same_omitted (omit_empty s).budgets;
      leader = same_omitted (omit_empty s).leader;
    },
  );
  not_empty = λ s. refl;
}

abbrev fresh : FileStore json
fresh = record { file = new_file; disk = record { content = none; temp = none } }

abbrev history : History
history =
    (saves allocation, none)
    ∷ (saves (record allocation { id = "b" }), some sync_temp)
    ∷ (marks "a" ready 9 "", none)
    ∷ (deletes "b", none)
    ∷ []

fresh-Agree : Agree fresh.file.allocations new_memory.allocations
fresh-Agree = record { same = λ id. refl; left = tt; right = tt }

file_run-memory_run_example :
    Agree
      (file_run json fresh history).0.file.allocations
      (memory_run new_memory history).0.allocations
    × ((file_run json fresh history).1 ≡ (memory_run new_memory history).1)
file_run-memory_run_example = file_run-memory_run json history fresh new_memory fresh-Agree

fresh-Restores : Restores json fresh.disk new_memory.allocations
unfolding open_file load
fresh-Restores = record { opened = fresh; opens = refl; same = λ id. refl }

history_early : all_before_rename history ≡ true
unfolding all_before_rename after_rename
history_early = refl

file_run-Restores_example :
    Restores json (file_run json fresh history).0.disk (memory_run new_memory history).0.allocations
unfolding AllPlain json_laws
file_run-Restores_example =
    file_run-Restores json json_laws history fresh new_memory fresh-Agree fresh-Restores
      history_early (tt, (tt, (tt, tt)))

open_file-persist_example : Reopens json (persist json fresh none).0.disk (restored fresh.file)
unfolding json_laws
open_file-persist_example = open_file-persist json json_laws fresh tt

sync_is_late : after_rename sync_directory ≡ true
unfolding after_rename
sync_is_late = refl

save_error-open_file_example :
    let saved = record fresh.file {
      allocations = put fresh.file.allocations allocation.id allocation;
    } in
    let r = File.save json fresh allocation (some sync_directory) in
    (r.1 ≡ some not_persisted)
    × Agree r.0.file.allocations fresh.file.allocations
    × Reopens json r.0.disk (restored saved)
unfolding json_laws
save_error-open_file_example =
    save_error-open_file json json_laws fresh allocation sync_directory sync_is_late tt tt
