-- ===== src/Store/Documents.antt =====
-- internal/store/store.go: the admission state that the replicas of a broker share.
use unified_ephemeral_runner.Common.{ℕ, String, List, [], Dict}
use unified_ephemeral_runner.Model.{Time}

pub record AdmissionCircuitState : Type 0 where
  pub state : String
  pub failures : List Time
  pub opened_at : Time
  pub next_probe_at : Time
  pub half_open_in_flight : ℕ
  pub recovery_successes : ℕ
  pub last_transition_reason : String

pub record AdmissionRateLimit : Type 0 where
  pub window_start : Time
  pub used : ℕ

pub record AdmissionBudgetState : Type 0 where
  pub daily_window_start : Time
  pub daily_used : ℕ
  pub monthly_window_start : Time
  pub monthly_used : ℕ

pub record AdmissionStateDocument : Type 0 where
  pub circuits : Dict String AdmissionCircuitState
  pub limits : Dict String AdmissionRateLimit
  pub budgets : Dict String AdmissionBudgetState

abbrev pub empty_document : AdmissionStateDocument
empty_document = record { circuits = []; limits = []; budgets = [] }

-- cloneAdmission makes fresh maps and slices with the same entries. Values are not shared here, so
-- that the copy is the document itself.
abbrev pub clone_admission : AdmissionStateDocument → AdmissionStateDocument
clone_admission doc = record { circuits = doc.circuits; limits = doc.limits; budgets = doc.budgets }
