-- ===== src/Service/Lifecycle/Finish.antt =====
-- internal/api/service.go: Cancel, Complete, Claim and Register. What other goroutines do to the store
-- between the read and the write of a handler is a list of operations.
pub mod Once
pub mod Sequence
use unified_ephemeral_runner.Common.{
  String, false, not, Option, none, some, List, [], ◌∷◌, ◌==◌, string_eq, nat_eq, pair_eq,
  if◌then◌else◌, any,
}
use unified_ephemeral_runner.Common.Text.{to_lower, trim_space}
use unified_ephemeral_runner.Model.{
  Time, AllocationState, canceled, expired, failed, completed, quarantined, state_eq,
  AllocationStatus,
}
use unified_ephemeral_runner.Store.{
  Memory, save, get_allocation, compare_and_mark_state, is_terminal_state,
}
use unified_ephemeral_runner.Store.File.Refinement.Operations.{Operation, on_memory}
use unified_ephemeral_runner.WorkflowJobRetry.{record_registration_success}
use unified_ephemeral_runner.Service.Lifecycle.{
  Config, Call, releases, fails_with, Broker, call, is_active_state, resolve_pool,
  notify_lifecycle_terminal, mark_and_notify, is_set,
}

abbrev pub after_operations : Memory → List Operation → Memory
after_operations m [] = m
after_operations m (op ∷ ops) = after_operations (on_memory m op).0 ops

abbrev pub interfere : Broker → List Operation → Broker
interfere b ops = record b { store = after_operations b.store ops }

-- Service.release when the pool is configured
abbrev pub release_if_configured : Config → Broker → AllocationStatus → Broker
release_if_configured cfg b status = elim (resolve_pool cfg status.pool) [
  | none ↦ b
  | some pool ↦ call b (releases pool status.selected_backend status false)
]

pub data Canceled : Type 0 where
  not_found : Canceled
  already_terminal was_canceled : AllocationStatus → Canceled

-- Cancel: the loop reads the record and swaps its state; in each pass others do the given operations in
-- between, and in the pass after the last list nobody does, so that the swap of that pass works.
unfoldable pub cancel : Config → Broker → String → Time → List (List Operation) → Broker × Canceled
cancel cfg b id now [] = elim (get_allocation b.store id) [
  | none ↦ (b, not_found)
  | some status ↦
      let r = compare_and_mark_state b.store id status.state canceled now "" in
      let swapped : Broker = record b { store = r.0 } in
      if is_terminal_state status.state then (b, already_terminal status) else elim r.1 [
        | none ↦ (swapped, not_found)
        | some updated ↦ (
          release_if_configured cfg (notify_lifecycle_terminal cfg swapped updated) updated,
          was_canceled updated,
        )
      ]
]
cancel cfg b id now (ops ∷ others) =
    let rest = cancel cfg (interfere b ops) id now others in
    elim (get_allocation b.store id) [
      | none ↦ (b, not_found)
      | some status ↦
          let r = compare_and_mark_state (interfere b ops).store id status.state canceled now "" in
          let swapped : Broker = record b { store = r.0 } in
          if is_terminal_state status.state then (b, already_terminal status) else elim r.1 [
            | none ↦ rest
            | some updated ↦ (
              release_if_configured cfg (notify_lifecycle_terminal cfg swapped updated) updated,
              was_canceled updated,
            )
          ]
    ]

pub record CompletionRequest : Type 0 where
  pub state : String
  pub error : String
  pub reason : String
  pub failure_class : String

-- parseCompletionState; the error is `none`.
unfoldable pub parse_completion_state : CompletionRequest → Option (AllocationState × String)
parse_completion_state request =
    let state = trim_space (to_lower request.state) in
    if state == ""
    then some (completed, "")
    else if any (λ word. word == state) ("complete" ∷ "completed" ∷ "success" ∷ "succeeded" ∷ [])
    then some (completed, request.reason)
    else if any (λ word. word == state) ("failed" ∷ "failure" ∷ "error" ∷ [])
    then some (failed, request.error)
    else if any (λ word. word == state) ("canceled" ∷ "cancelled" ∷ "cancel" ∷ [])
    then some (canceled, request.reason)
    else if state == "expired"
    then some (expired, request.reason)
    else if any (λ word. word == state) ("quarantined" ∷ "quarantine" ∷ [])
    then some (quarantined, request.reason)
    else none

abbrev pub default_completion_message : AllocationState → String
default_completion_message completed = "allocation completed"
default_completion_message failed = "allocation failed"
default_completion_message canceled = "allocation canceled"
default_completion_message expired = "allocation expired"
default_completion_message quarantined = "allocation quarantined"
default_completion_message _ = ""

-- How Complete returns: no record, a state that is not one, another terminal state, the target state
-- already there, a record that went between the read and the write, or the updated record.
pub data Completed : Type 0 where
  unknown invalid vanished : Completed
  conflicts repeats updates : AllocationStatus → Completed

-- The end of Complete for a record that is marked.
abbrev pub release_completed :
    Config → Broker → AllocationStatus → AllocationState → String → Time → Broker
release_completed cfg b status target failure_class now =
    if not (is_active_state status.state) then b else elim (resolve_pool cfg status.pool) [
      | none ↦ b
      | some pool ↦
          let released = call b (releases pool status.selected_backend status false) in
          if target == failed
          then call released (fails_with pool status.selected_backend failure_class now)
          else released
    ]

-- Complete; others do the given operations between its read and its write.
unfoldable pub complete :
    Config → Broker → String → CompletionRequest → Time → List Operation → Broker × Completed
complete cfg b id request now ops = elim (get_allocation b.store id) [
  | none ↦ (b, unknown)
  | some status ↦ elim (parse_completion_state request) [
    | none ↦ (b, invalid)
    | some (target, message) ↦
        let message' =
          if trim_space message == "" then default_completion_message target else message in
        let marked = mark_and_notify cfg (interfere b ops) id target now message' in
        if is_terminal_state status.state
        then (b, if status.state == target then repeats status else conflicts status)
        else if status.state == target
        then (b, repeats status)
        else elim marked.1 [
          | none ↦ (marked.0, vanished)
          | some updated ↦ (
            release_completed cfg marked.0 status target request.failure_class now,
            updates updated,
          )
        ]
  ]
]

-- How Claim and Register return: no record, a terminal one, or the saved one.
pub data Confirmed : Type 0 where
  unknown_allocation : Confirmed
  already_completed confirmed : AllocationStatus → Confirmed

abbrev pub set_once : Option Time → Time → Option Time
set_once time now = if is_set time then time else some now

abbrev pub confirm : Broker → AllocationStatus → Broker × Confirmed
confirm b status = (
  record b {
    store = save b.store status;
    penalties = record_registration_success b.penalties status.pool status.selected_backend;
  },
  confirmed status,
)

unfoldable pub claim : Broker → String → Time → Broker × Confirmed
claim b id now = elim (get_allocation b.store id) [
  | none ↦ (b, unknown_allocation)
  | some status ↦
      if is_terminal_state status.state
      then (b, already_completed status)
      else confirm b (record status {
        claimed_at = set_once status.claimed_at now;
        registered_at = set_once status.registered_at now;
      })
]

unfoldable pub register : Broker → String → Time → Broker × Confirmed
register b id now = elim (get_allocation b.store id) [
  | none ↦ (b, unknown_allocation)
  | some status ↦
      if is_terminal_state status.state
      then (b, already_completed status)
      else confirm b (record status { registered_at = set_once status.registered_at now })
]
