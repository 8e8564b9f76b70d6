-- ===== src/Store/File/Refinement/History.antt =====
-- A history of operations on the file store against the same history on the memory store.
use unified_ephemeral_runner.Common.{
  ◌≡◌, refl, Option, none, some, List, [], ◌∷◌, string_eq, nat_eq, pair_eq,
}
use unified_ephemeral_runner.Store.{Memory}
use unified_ephemeral_runner.Store.File.{Codec, Failure, FileStore}
use unified_ephemeral_runner.Store.File.Refinement.Writes.{Agree}
use unified_ephemeral_runner.Store.File.Refinement.Operations.{
  Operation, Reply, Simulates, on_memory, on_file, saves, deletes, marks, compares, commits, admits,
  prunes, saves-Simulates, deletes-Simulates, marks-Simulates,
}
use unified_ephemeral_runner.Store.File.Refinement.Conditional.{
  compares-Simulates, commits-Simulates, admits-Simulates,
}
use unified_ephemeral_runner.Store.File.Refinement.Prunes.{prunes-Simulates}

-- Operations in order, each with what the file system does when the operation writes.
abbrev pub History : Type 0
History = List (Operation × Option Failure)

-- The memory store performs the operations whose write works, and returns their replies.
unfoldable pub memory_run : Memory → History → Memory × List Reply
memory_run m [] = (m, [])
memory_run m ((op, none) ∷ h) =
    let step = on_memory m op in let rest = memory_run step.0 h in (rest.0, step.1 ∷ rest.1)
memory_run m ((op, some e) ∷ h) = memory_run m h

module _ (c : Codec) where
  -- The file store performs every operation; the replies are those of the operations whose write works.
  unfoldable pub file_run : FileStore c → History → FileStore c × List Reply
  file_run s [] = (s, [])
  file_run s ((op, none) ∷ h) =
      let step = on_file c s op none in let rest = file_run step.0 h in (rest.0, step.1 ∷ rest.1)
  file_run s ((op, some e) ∷ h) = file_run (on_file c s op (some e)).0 h

  pub on_file-Simulates :
      (s : FileStore c) (m : Memory) (op : Operation) (io : Option Failure)
      → Agree s.file.allocations m.allocations
      → Simulates c s m op io
  on_file-Simulates s m (saves status) io a = saves-Simulates c s m status io a
  on_file-Simulates s m (deletes id) io a = deletes-Simulates c s m id io a
  on_file-Simulates s m (marks id state now message) io a =
      marks-Simulates c s m id state now message io a
  on_file-Simulates s m (compares id from to now message) io a =
      compares-Simulates c s m id from to now message io a
  on_file-Simulates s m (commits status from) io a = commits-Simulates c s m status from io a
  on_file-Simulates s m (admits status max_runners tenant_quota backend_limit) io a =
      admits-Simulates c s m status max_runners tenant_quota backend_limit io a
  on_file-Simulates s m (prunes now retention) io a = prunes-Simulates c s m now retention io a

  -- On every history of operations, from stores that hold the same records: the file store ends with
  -- the records of a memory store that performs only the operations whose write works, and the
  -- replies of those operations are the memory store's, in order.
  pub file_run-memory_run :
      (h : History) (s : FileStore c) (m : Memory)
      → Agree s.file.allocations m.allocations
      → Agree (file_run s h).0.file.allocations (memory_run m h).0.allocations
        × ((file_run s h).1 ≡ (memory_run m h).1)
  unfolding file_run memory_run
  file_run-memory_run [] s m a = (a, refl)
  file_run-memory_run ((op, none) ∷ h) s m a =
      let (next, reply) = on_file-Simulates s m op none a in
      let (last, replies) = file_run-memory_run h _ _ next in (last, rw (reply, replies) refl)
  file_run-memory_run ((op, some e) ∷ h) s m a =
      file_run-memory_run h _ m (on_file-Simulates s m op (some e) a)
