-- ===== src/Store/Transitions.antt =====
-- Compare-and-swap transitions (CompareAndMarkState, SaveIfState, MarkState).
use unified_ephemeral_runner.Common.{
  String, ◌≡◌, refl, sym, subst, ◌≢◌, ◌⊎◌, inl, inr, false, Option, none, some, arith, ◌==◌,
  string_eq, nat_eq, pair_eq, get, Bool-cases, Option-cases, get-put, get-put_self,
}
use unified_ephemeral_runner.Model.{
  Time, AllocationState, state_eq, state_beq_iff, AllocationStatus,
}
use unified_ephemeral_runner.Store.{
  Memory, apply_mark_state, mark_state, compare_and_mark_state, save_if_state, get_allocation,
}

-- The record after a compare-and-swap, and what it returns, by cases on the record before.
abbrev pub Swapped :
    Option AllocationStatus
    → AllocationState
    → AllocationStatus
    → Option AllocationStatus
    → Option AllocationStatus
    → Type 0
Swapped none from new result after = (result ≡ none) × (after ≡ none)
Swapped (some status) from new result after =
    ((status.state ≡ from) × (result ≡ some new) × (after ≡ some new))
    ⊎ ((status.state ≢ from) × (result ≡ none) × (after ≡ some status))

abbrev pub updated :
    Option AllocationStatus → AllocationState → Time → String → AllocationStatus → AllocationStatus
updated none to now message default = default
updated (some status) to now message default = apply_mark_state status to now message

module _ (m : Memory) (id : String) (from to : AllocationState) (now : Time)
    (message : String) where
  -- A compare-and-swap returns the updated record and stores it exactly when the record is there in
  -- the expected state; else it returns nothing and the record stays. No other record changes.
  pub compare_and_mark_state_lem :
      (default : AllocationStatus)
      → Swapped
          (get_allocation m id)
          from
          (updated (get_allocation m id) to now message default)
          (compare_and_mark_state m id from to now message).1
          (get_allocation (compare_and_mark_state m id from to now message).0 id)
        × ((other : String)
            → (id == other) ≡ false
            → get_allocation (compare_and_mark_state m id from to now message).0 other
              ≡ get_allocation m other)
  unfolding compare_and_mark_state
  compare_and_mark_state_lem default = elim (Option-cases (get m.allocations id)) [
    | inl e ↦ rw (e, compare_and_mark_state) ((refl, e), λ other h. refl)
    | inr (s, e) ↦ elim (Bool-cases (s.state == from)) [
      | inl same ↦
          rw (e, compare_and_mark_state, same)
            (
              inl ((state_beq_iff s.state from).0 same, refl, get-put_self m.allocations id _),
              λ other h. rw get-put (rw h),
            )
      | inr differs ↦
          rw (e, compare_and_mark_state, differs)
            (inr (λ eq. cc ((state_beq_iff s.state from).1 eq), refl, e), λ other h. refl)
    ]
  ]

-- A record in another state than the expected one, or no record.
abbrev InOther : Memory → String → AllocationState → Type 0
InOther m id from =
    (get m.allocations id ≡ none)
    ⊎ ((s : AllocationStatus) × (get m.allocations id ≡ some s) × ((s.state == from) ≡ false))

compare_and_mark_state_fails :
    (m : Memory) (id : String) (from to : AllocationState) (now : Time) (message : String)
    → InOther m id from
    → compare_and_mark_state m id from to now message ≡ (m, none)
unfolding compare_and_mark_state
compare_and_mark_state_fails m id from to now message (inl e) = rw (e, compare_and_mark_state)
compare_and_mark_state_fails m id from to now message (inr (s, e, differs)) =
    rw (e, compare_and_mark_state, differs)

save_if_state_fails :
    (m : Memory) (status : AllocationStatus) (from : AllocationState)
    → InOther m status.id from
    → save_if_state m status from ≡ (m, false)
unfolding save_if_state
save_if_state_fails m status from (inl e) = rw (e, save_if_state)
save_if_state_fails m status from (inr (s, e, differs)) = rw (e, save_if_state, differs)

differs_of_ne : (s t : AllocationState) → s ≢ t → (s == t) ≡ false
differs_of_ne s t ne = ground (arith, state_beq_iff s t)

compare_and_mark_state_won :
    (m : Memory) (id : String) (from to : AllocationState) (now : Time) (message : String)
    (won : AllocationStatus)
    → (compare_and_mark_state m id from to now message).1 ≡ some won
    → to ≢ from
    → InOther (compare_and_mark_state m id from to now message).0 id from
unfolding compare_and_mark_state apply_mark_state
compare_and_mark_state_won m id from to now message won e ne =
    elim (Option-cases (get m.allocations id)) [
      | inl missing ↦ rw (missing, compare_and_mark_state) (inl missing)
      | inr (s, found) ↦ elim (Bool-cases (s.state == from)) [
        | inr differs ↦ rw (found, compare_and_mark_state, differs) (inr (s, found, differs))
        | inl same ↦
            rw (found, compare_and_mark_state, same)
              (inr (
                apply_mark_state s to now message,
                get-put_self m.allocations id _,
                differs_of_ne to from ne,
              ))
      ]
    ]

-- Of two writers that expect the same state only the first wins: after a successful swap to
-- another state, a second swap, or a commit of a provisioned record, that expects the old state
-- fails and leaves the store as it is.
pub compare_and_mark_state_once :
    (m : Memory) (id : String) (from to : AllocationState) (now : Time) (message : String)
    (won : AllocationStatus) (to' : AllocationState) (now' : Time) (message' : String)
    (status : AllocationStatus)
    → (compare_and_mark_state m id from to now message).1 ≡ some won
    → to ≢ from
    → status.id ≡ id
    → let m' = (compare_and_mark_state m id from to now message).0 in
      (compare_and_mark_state m' id from to' now' message' ≡ (m', none))
      × (save_if_state m' status from ≡ (m', false))
compare_and_mark_state_once m id from to now message won to' now' message' status e ne same_id =
    let other = compare_and_mark_state_won m id from to now message won e ne in
    (
      compare_and_mark_state_fails _ id from to' now' message' other,
      save_if_state_fails _ status from (
          subst (λ k. InOther (compare_and_mark_state m id from to now message).0 k from)
            (sym same_id) other),
    )

mark_state-InOther :
    (m : Memory) (id : String) (from to : AllocationState) (now : Time) (message : String)
    → to ≢ from
    → InOther (mark_state m id to now message).0 id from
unfolding mark_state apply_mark_state
mark_state-InOther m id from to now message ne = elim (Option-cases (get m.allocations id)) [
  | inl missing ↦ rw (missing, mark_state) (inl missing)
  | inr (s, found) ↦
      rw (found, mark_state)
        (inr (
          apply_mark_state s to now message,
          get-put_self m.allocations id _,
          differs_of_ne to from ne,
        ))
]

-- A record that is canceled while its runner is provisioned stays canceled: after a transition to
-- any state but the expected one, the commit of the provisioned record fails and changes nothing.
pub save_if_state-mark_state :
    (m : Memory) (id : String) (from to : AllocationState) (now : Time) (message : String)
    (status : AllocationStatus)
    → to ≢ from
    → status.id ≡ id
    → save_if_state (mark_state m id to now message).0 status from
      ≡ ((mark_state m id to now message).0, false)
save_if_state-mark_state m id from to now message status ne same_id =
    save_if_state_fails _ status from (
      subst (λ k. InOther (mark_state m id to now message).0 k from) (sym same_id)
        (mark_state-InOther m id from to now message ne))
