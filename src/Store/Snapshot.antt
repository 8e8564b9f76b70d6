-- ===== src/Store/Snapshot.antt =====
-- internal/store/file.go: the content of the file and its replacement. The codec of encoding/json
-- is a parameter, and so is what the file system does on each call.
use unified_ephemeral_runner.Common.{
  String, Bool, true, false, ◌||◌, Option, none, some, List, [], string_eq, nat_eq, pair_eq, Dict,
  if◌then◌else◌, is_some,
}
use unified_ephemeral_runner.Store.Documents.{
  AdmissionCircuitState, AdmissionRateLimit, AdmissionBudgetState, AdmissionStateDocument,
  empty_document, clone_admission,
}
use unified_ephemeral_runner.Store.{Allocations, LeaderLease}

pub record File : Type 0 where
  pub allocations : Allocations
  pub admission : AdmissionStateDocument
  pub leader : Dict String LeaderLease

-- fileSnapshot; a nil map is `none`.
pub record FileSnapshot : Type 0 where
  pub allocations : Option Allocations
  pub circuits : Option (Dict String AdmissionCircuitState)
  pub limits : Option (Dict String AdmissionRateLimit)
  pub budgets : Option (Dict String AdmissionBudgetState)
  pub leader : Option (Dict String LeaderLease)

-- encoding/json on fileSnapshot.
pub record Codec : Type 1 where
  pub Bytes : Type 0
  pub is_empty : Bytes → Bool
  pub encode : FileSnapshot → Bytes
  pub decode : Bytes → Option FileSnapshot

-- The first step that fails of persistLocked and of the writeFileAtomic that it calls.
pub data Failure : Type 0 where
  make_directory encode_snapshot open_temp write_temp chmod_temp sync_temp : Failure
  close_temp rename_temp open_directory sync_directory : Failure

-- The file at the store's path, and the temporary file beside it.
pub record Disk (Bytes : Type 0) : Type 0 where
  pub content : Option Bytes
  pub temp : Option Bytes

-- writeFileAtomic: a failure after the temporary file is open removes it again; a failure after the
-- rename leaves the new content.
unfoldable pub write_file_atomic :
    {Bytes : Type 0} → Disk Bytes → Bytes → Option Failure → Disk Bytes × Bool
write_file_atomic disk bytes none = (record { content = some bytes; temp = none }, true)
write_file_atomic disk bytes (some open_temp) = (disk, false)
write_file_atomic disk bytes (some open_directory) =
    (record { content = some bytes; temp = none }, false)
write_file_atomic disk bytes (some sync_directory) =
    (record { content = some bytes; temp = none }, false)
write_file_atomic disk bytes (some _) = (record disk { temp = none }, false)

-- The directory is made, and the snapshot encoded, before the temporary file is opened.
abbrev pub before_write : Option Failure → Bool
before_write (some make_directory) = true
before_write (some encode_snapshot) = true
before_write _ = false

abbrev pub snapshot_of : File → FileSnapshot
snapshot_of f = record {
  allocations = some f.allocations;
  circuits = some f.admission.circuits;
  limits = some f.admission.limits;
  budgets = some f.admission.budgets;
  leader = some f.leader;
}

unfoldable pub or_keep : {A : Type 0} → Option A → A → A
or_keep none a = a
or_keep (some b) a = b

unfoldable pub or_empty : {A : Type 0} → Option (List A) → List A
or_empty none = []
or_empty (some xs) = xs

unfoldable pub loaded_admission : FileSnapshot → AdmissionStateDocument → AdmissionStateDocument
unfolding or_empty
loaded_admission snapshot admission =
    if is_some snapshot.circuits || is_some snapshot.limits
    then clone_admission (record {
      circuits = or_empty snapshot.circuits;
      limits = or_empty snapshot.limits;
      budgets = or_empty snapshot.budgets;
    })
    else admission

-- What loadLocked writes for a decoded snapshot.
unfoldable pub apply_snapshot : FileSnapshot → File → File
unfolding or_keep loaded_admission
apply_snapshot snapshot f = record {
  allocations = or_keep snapshot.allocations f.allocations;
  admission = loaded_admission snapshot f.admission;
  leader = or_keep snapshot.leader f.leader;
}

abbrev pub new_file : File
new_file = record { allocations = []; admission = empty_document; leader = [] }
