-- ===== src/Service/Lifecycle/Finish/Once.antt =====
-- An allocation is canceled once, whatever others do meanwhile.
use unified_ephemeral_runner.Common.{
  String, ◌≡◌, refl, ap, ◌∙◌, ◌⊎◌, inl, inr, true, false, not, ◌&&◌, none, some, List, [], ◌∷◌,
  arith, ◌==◌, ==_refl, string_eq, nat_eq, pair_eq, get, if◌then◌else◌, Bool-cases, Option-cases,
  is_some, get-put_self,
}
use unified_ephemeral_runner.Model.{Time, AllocationState, canceled, state_eq, AllocationStatus}
use unified_ephemeral_runner.Store.{
  Memory, compare_and_mark_state, apply_mark_state, is_terminal_state,
}
use unified_ephemeral_runner.Store.File.Refinement.Operations.{Operation}
use unified_ephemeral_runner.Service.Lifecycle.{
  Config, Call, notifies, releases, Broker, resolve_pool, notify_lifecycle_terminal,
}
use unified_ephemeral_runner.Service.Lifecycle.Finish.{
  interfere, release_if_configured, Canceled, not_found, already_terminal, was_canceled, cancel,
}

-- The calls of the end of an allocation: the notification, and one release.
unfoldable pub released_calls : Config → AllocationStatus → List Call → List Call
released_calls cfg status calls = elim (resolve_pool cfg status.pool) [
  | none ↦ calls
  | some pool ↦ releases pool status.selected_backend status false ∷ calls
]

unfoldable pub notified_calls : Config → AllocationStatus → List Call → List Call
notified_calls cfg status calls =
    if cfg.lifecycle && not (status.id == "") then notifies status ∷ calls else calls

release_if_configured-calls :
    (cfg : Config) (b : Broker) (status : AllocationStatus)
    → ((release_if_configured cfg b status).calls ≡ released_calls cfg status b.calls)
      × ((release_if_configured cfg b status).store ≡ b.store)
unfolding released_calls
release_if_configured-calls cfg b status = elim (Option-cases (resolve_pool cfg status.pool)) [
  | inl gone ↦ rw (gone, released_calls, release_if_configured) (refl, refl)
  | inr (pool, found) ↦ rw (found, released_calls, release_if_configured) (refl, refl)
]

pub notify_lifecycle_terminal-calls :
    (cfg : Config) (b : Broker) (status : AllocationStatus)
    → is_terminal_state status.state ≡ true
    → ((notify_lifecycle_terminal cfg b status).calls ≡ notified_calls cfg status b.calls)
      × ((notify_lifecycle_terminal cfg b status).store ≡ b.store)
unfolding notify_lifecycle_terminal notified_calls
notify_lifecycle_terminal-calls cfg b status ends = elim (Bool-cases cfg.lifecycle) [
  | inl on ↦ elim (Bool-cases (status.id == "")) [
    | inl blank ↦ rw (ends, on, blank) (refl, refl)
    | inr named ↦ rw (ends, on, named) (refl, refl)
  ]
  | inr off ↦ rw (ends, off) (refl, refl)
]

-- What each outcome of Cancel says of the broker that it leaves, from the calls made before.
unfoldable pub Outcome : Config → List Call → String → Broker → Canceled → Type 0
Outcome cfg calls id b not_found = (get b.store.allocations id ≡ none) × (b.calls ≡ calls)
Outcome cfg calls id b (already_terminal status) =
    (is_terminal_state status.state ≡ true)
    × (get b.store.allocations id ≡ some status)
    × (b.calls ≡ calls)
Outcome cfg calls id b (was_canceled status) =
    (status.state ≡ canceled)
    × (get b.store.allocations id ≡ some status)
    × (b.calls ≡ released_calls cfg status (notified_calls cfg status calls))

swap-cases :
    (m : Memory) (id : String) (from : AllocationState) (now : Time)
    → ((compare_and_mark_state m id from canceled now "").1 ≡ none)
      ⊎ ((updated : AllocationStatus) × ((compare_and_mark_state m id from canceled now "").1
            ≡ some updated)
          × (updated.state ≡ canceled)
          × (get (compare_and_mark_state m id from canceled now "").0.allocations id
              ≡ some updated))
unfolding compare_and_mark_state apply_mark_state
swap-cases m id from now = elim (Option-cases (get m.allocations id)) [
  | inl gone ↦ inl (rw (gone, compare_and_mark_state) refl)
  | inr (status, there) ↦ elim (Bool-cases (status.state == from)) [
    | inl meets ↦ inr (
        rw (there, compare_and_mark_state, meets)
          (apply_mark_state status canceled now "", refl, refl, get-put_self m.allocations id _))
    | inr differs ↦ inl (rw (there, compare_and_mark_state, differs) refl)
  ]
]

swap_works :
    (m : Memory) (id : String) (status : AllocationStatus) (now : Time)
    → get m.allocations id ≡ some status
    → is_some (compare_and_mark_state m id status.state canceled now "").1 ≡ true
unfolding compare_and_mark_state
swap_works m id status now there = rw (there, compare_and_mark_state, ==_refl status.state) refl

canceled-Outcome :
    (cfg : Config) (b : Broker) (id : String) (updated : AllocationStatus)
    → updated.state ≡ canceled
    → get b.store.allocations id ≡ some updated
    → Outcome cfg b.calls id
        (release_if_configured cfg (notify_lifecycle_terminal cfg b updated) updated)
        (was_canceled updated)
unfolding Outcome
canceled-Outcome cfg b id updated ends there =
    let terminal : is_terminal_state updated.state ≡ true = ap is_terminal_state ends in
    let (notified, kept) = notify_lifecycle_terminal-calls cfg b updated terminal in
    let (released, kept') =
      release_if_configured-calls cfg (notify_lifecycle_terminal cfg b updated) updated in
    (
      ends,
      ap (λ m. get m.allocations id) (kept' ∙ kept) ∙ there,
      released ∙ ap (released_calls cfg updated) notified,
    )

-- Cancel ends, however often others get in between, and: it found no record; or one that had ended,
-- and did nothing; or it wrote the canceled record, notified, and released the slot once.
pub cancel_lem :
    (cfg : Config) (b : Broker) (id : String) (now : Time) (others : List (List Operation))
    → Outcome cfg b.calls id (cancel cfg b id now others).0 (cancel cfg b id now others).1
unfolding cancel Outcome
cancel_lem cfg b id now [] = elim (Option-cases (get b.store.allocations id)) [
  | inl gone ↦ rw (gone, cancel) (gone, refl)
  | inr (status, there) ↦ elim (Bool-cases (is_terminal_state status.state)) [
    | inl ended ↦ rw (there, cancel, ended) (ended, there, refl)
    | inr going ↦ elim (swap-cases b.store id status.state now) [
      | inl lost ↦ absurd (ground (arith, swap_works b.store id status now there, lost))
      | inr (updated, won, ends, here) ↦
          rw (there, cancel, going, won) (canceled-Outcome cfg _ id updated ends here)
    ]
  ]
]
cancel_lem cfg b id now (ops ∷ others) = elim (Option-cases (get b.store.allocations id)) [
  | inl gone ↦ rw (gone, cancel) (gone, refl)
  | inr (status, there) ↦ elim (Bool-cases (is_terminal_state status.state)) [
    | inl ended ↦ rw (there, cancel, ended) (ended, there, refl)
    | inr going ↦ elim (swap-cases (interfere b ops).store id status.state now) [
      | inl lost ↦ rw (there, cancel, going, lost) (cancel_lem cfg (interfere b ops) id now others)
      | inr (updated, won, ends, here) ↦
          rw (there, cancel, going, won) (canceled-Outcome cfg _ id updated ends here)
    ]
  ]
]
