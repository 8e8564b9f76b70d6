-- ===== src/Store/Prune.antt =====
-- Retention pruning (PruneTerminal, collectPrunableIDs).
use unified_ephemeral_runner.Common.{
  String, ◌≡◌, refl, subst, ◌+◌, ◌-◌, ◌≤◌, ◌<◌, ◌⊎◌, ◌||◌, not, eqb, inl, inr, Bool, true, false,
  ◌&&◌, Option, none, some, List, [], ◌∷◌, arith, ◌==◌, string_eq, nat_eq, pair_eq, get, erase,
  Unique, if◌then◌else◌, ltb, Bool-cases, get-erase,
}
use unified_ephemeral_runner.Model.{
  Time, Duration, AllocationStatus, AllocationState, reserved, ready, warm, pending, completed,
  failed, canceled, expired, quarantined,
}
use unified_ephemeral_runner.Store.{
  Allocations, Memory, is_terminal_state, is_prunable, prunable_ids, collect_prunable_ids,
  delete_all, prune_terminal, get_allocation, allocation_age_anchor,
}

abbrev pub contains : List String → String → Bool
contains [] id = false
contains (x ∷ xs) id = let rest = contains xs id in if x == id then true else rest

pub get-delete_all :
    (m : Allocations) (ids : List String) (id : String)
    → get (delete_all m ids) id ≡ (if contains ids id then none else get m id)
unfolding delete_all
get-delete_all m [] id = refl
get-delete_all m (x ∷ xs) id = ground (arith, get-delete_all (erase m x) xs id, get-erase m x id)

abbrev pub drops : Time → Option AllocationStatus → Bool
drops cutoff none = false
drops cutoff (some status) = is_prunable cutoff status

contains-prunable_ids_absent :
    (cutoff : Time) (m : Allocations) (id : String)
    → get m id ≡ none
    → contains (prunable_ids cutoff m) id ≡ false
unfolding prunable_ids get
contains-prunable_ids_absent cutoff [] id e = refl
contains-prunable_ids_absent cutoff ((k, s) ∷ m) id e =
    ground (arith, contains-prunable_ids_absent cutoff m id)

pub contains-prunable_ids :
    (cutoff : Time) (m : Allocations) (id : String)
    → Unique m
    → contains (prunable_ids cutoff m) id ≡ drops cutoff (get m id)
unfolding prunable_ids get
contains-prunable_ids cutoff [] id u = refl
contains-prunable_ids cutoff ((k, s) ∷ m) id u = elim (Bool-cases (k == id)) [
  | inl same ↦
      let eq : k ≡ id = (string_eq.agrees_iff k id).0 same in
      ground (arith, contains-prunable_ids_absent cutoff m id (subst (λ j. get m j ≡ none) eq u.0))
  | inr other ↦ ground (arith, contains-prunable_ids cutoff m id u.1)
]

pub prune_terminal_lem :
    (m : Memory) (now : Time) (retention : Duration) (id : String)
    → Unique m.allocations
    → get_allocation (prune_terminal m now retention).0 id ≡ (
        if ltb 0 retention && drops (now - retention) (get_allocation m id)
        then none
        else get_allocation m id)
unfolding prune_terminal collect_prunable_ids
prune_terminal_lem m now retention id u = ground (
  arith,
  get-delete_all m.allocations (prunable_ids (now - retention) m.allocations) id,
  contains-prunable_ids (now - retention) m.allocations id u,
)

-- A record that holds capacity is never pruned.
pub prune_terminal_keeps_active :
    (m : Memory) (now : Time) (retention : Duration) (id : String) (status : AllocationStatus)
    → Unique m.allocations
    → get_allocation m id ≡ some status
    → is_terminal_state status.state ≡ false
    → get_allocation (prune_terminal m now retention).0 id ≡ some status
unfolding is_prunable
prune_terminal_keeps_active m now retention id status u e live =
    ground (arith, prune_terminal_lem m now retention id u)

abbrev pub HasEnded : AllocationState → Type 0
HasEnded state =
    (state ≡ completed)
    ⊎ (state ≡ failed)
    ⊎ (state ≡ canceled)
    ⊎ (state ≡ expired)
    ⊎ (state ≡ quarantined)

abbrev pub IsLive : AllocationState → Type 0
IsLive state = (state ≡ reserved) ⊎ (state ≡ ready) ⊎ (state ≡ warm) ⊎ (state ≡ pending)

terminal-cases :
    (state : AllocationState)
    → ((is_terminal_state state ≡ true) × HasEnded state)
      ⊎ ((is_terminal_state state ≡ false) × IsLive state)
terminal-cases reserved = inr (refl, inl refl)
terminal-cases ready = inr (refl, inr (inl refl))
terminal-cases warm = inr (refl, inr (inr (inl refl)))
terminal-cases pending = inr (refl, inr (inr (inr refl)))
terminal-cases completed = inl (refl, inl refl)
terminal-cases failed = inl (refl, inr (inl refl))
terminal-cases canceled = inl (refl, inr (inr (inl refl)))
terminal-cases expired = inl (refl, inr (inr (inr (inl refl))))
terminal-cases quarantined = inl (refl, inr (inr (inr (inr refl))))

-- The age counts from the creation, or from the expiry of a record that has no time of creation.
abbrev pub AgesFrom : AllocationStatus → Time → Type 0
AgesFrom status from =
    ((0 < status.created_at) × (from ≡ status.created_at))
    ⊎ ((status.created_at ≡ 0) × (from ≡ status.expires_at))

anchored :
    (status : AllocationStatus) (from : Time)
    → AgesFrom status from
    → allocation_age_anchor status ≡ from
unfolding allocation_age_anchor
anchored status from h = ground arith

is_prunable-cases :
    (status : AllocationStatus) (from now : Time) (retention : Duration)
    → AgesFrom status from
    → ((is_prunable (now - retention) status ≡ true)
        × HasEnded status.state
        × ((from ≡ 0) ⊎ (from + retention ≤ now)))
      ⊎ ((is_prunable (now - retention) status ≡ false)
          × (IsLive status.state ⊎ ((0 < from) × (now < from + retention))))
unfolding is_prunable
is_prunable-cases status from now retention h =
    let age = anchored status from h in
    elim (terminal-cases status.state) [
      | inr (going, live) ↦ inr (rw going refl, inl live)
      | inl (over, ended) ↦ elim (Bool-cases (eqb from 0 || not (ltb (now - retention) from))) [
        | inl old ↦ inl (rw (over, age) old, ended, ground arith)
        | inr young ↦ inr (rw (over, age) young, inr (ground arith))
      ]
    ]

-- In a store where no id stands twice, pruning drops a record exactly when the retention is
-- positive, the record is completed, failed, canceled, expired or quarantined, and its age, from its
-- creation or else from its expiry, is the retention or more (or it has neither time). Any other
-- record stays as it is.
pub prune_terminal-get :
    (m : Memory) (now : Time) (retention : Duration) (id : String) (status : AllocationStatus)
    (from : Time)
    → Unique m.allocations
    → get_allocation m id ≡ some status
    → AgesFrom status from
    → ((0 < retention)
        × HasEnded status.state
        × ((from ≡ 0) ⊎ (from + retention ≤ now))
        × (get_allocation (prune_terminal m now retention).0 id ≡ none))
      ⊎ (((retention ≡ 0) ⊎ IsLive status.state ⊎ ((0 < from) × (now < from + retention)))
          × (get_allocation (prune_terminal m now retention).0 id ≡ some status))
prune_terminal-get m now retention id status from u there ages =
    let after = prune_terminal_lem m now retention id u in
    elim (Bool-cases (ltb 0 retention)) [
      | inr off ↦ inr (inl (ground arith), rw (after, off) there)
      | inl on ↦ elim (is_prunable-cases status from now retention ages) [
        | inl (old, ended, long) ↦ inl (ground arith, ended, long, rw (after, on, there, old) refl)
        | inr (kept, why) ↦ inr (inr why, rw (after, on, there, kept) refl)
      ]
    ]
