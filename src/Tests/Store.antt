-- ===== src/Tests/Store.antt =====
-- The store's theorems on one record.
use unified_ephemeral_runner.Common.{
  ℕ, String, ◌≡◌, ◌<◌, ◌≤◌, ◌+◌, ◌⊎◌, inl, refl, ◌≢◌, true, false, none, some, [], ◌∷◌, arith,
  string_eq, nat_eq, pair_eq, get, put, Unique, put-Unique,
}
use unified_ephemeral_runner.Model.{reserved, ready, completed, canceled}
use unified_ephemeral_runner.Store.{
  Memory, new_memory, save, save_if_capacity, capacity_allowed, count_active_locked,
  count_backend_active_locked, count_tenant_active_locked, count_active, count_backend_active,
  count_tenant_active, compare_and_mark_state, save_if_state, get_allocation, apply_mark_state,
  try_acquire_leadership, prune_terminal,
}
use unified_ephemeral_runner.Store.Capacity.{Within, save_if_capacity_bounds}
use unified_ephemeral_runner.Store.Reach.{Limits}
use unified_ephemeral_runner.Store.Transitions.{compare_and_mark_state_once}
use unified_ephemeral_runner.Store.Leader.{
  acquires, releases, calls, AllFalse, leadership_exclusive,
}
use unified_ephemeral_runner.Store.Prune.{HasEnded, IsLive, prune_terminal-get}
use unified_ephemeral_runner.Tests.Fixtures.{allocation}

abbrev stored : Memory
stored = save new_memory allocation

abbrev limits : Limits
limits = record { max_runners = λ _ _. 1; backend_limit = λ _. 1; tenant_quota = λ _ _. 1 }

first_saved : (save_if_capacity new_memory allocation 1 1 1).1 ≡ none
unfolding save_if_capacity capacity_allowed count_active_locked count_backend_active_locked
    count_tenant_active_locked
first_saved = refl

save_if_capacity_bounds_example :
    let m' = (save_if_capacity new_memory allocation 1 1 1).0 in
    Within 1 (count_active m' allocation.pool allocation.selected_backend)
    × Within 1 (count_backend_active m' allocation.selected_backend)
    × Within 1 (count_tenant_active m' allocation.pool allocation.tenant)
save_if_capacity_bounds_example = save_if_capacity_bounds new_memory allocation 1 1 1 first_saved

canceled_is_not_reserved : canceled ≢ reserved
canceled_is_not_reserved = ground arith

swapped :
    (compare_and_mark_state stored "a" reserved canceled 9 "").1
    ≡ some (apply_mark_state allocation canceled 9 "")
unfolding compare_and_mark_state save get put
swapped = refl

compare_and_mark_state_once_example :
    let m' = (compare_and_mark_state stored "a" reserved canceled 9 "").0 in
    (compare_and_mark_state m' "a" reserved ready 10 "" ≡ (m', none))
    × (save_if_state m' allocation reserved ≡ (m', false))
compare_and_mark_state_once_example =
    compare_and_mark_state_once stored "a" reserved canceled 9 ""
      (apply_mark_state allocation canceled 9 "") ready 10 "" allocation swapped
      canceled_is_not_reserved refl

won : (try_acquire_leadership new_memory "lease" "x" 10 0).1 ≡ true
unfolding try_acquire_leadership get
won = refl

others : ◌≢◌ {A = String} "y" "x"
others = ground (arith, string_eq.agrees_iff "y" "x")

leadership_exclusive_example :
    let m' = (try_acquire_leadership new_memory "lease" "x" 10 0).0 in
    AllFalse (calls m' "lease" (acquires "y" 10 5 ∷ releases "y" ∷ [])).1
    × ((calls m' "lease" (acquires "y" 10 5 ∷ releases "y" ∷ [])).0 ≡ m')
leadership_exclusive_example =
    leadership_exclusive new_memory "lease" "x" 10 0 (acquires "y" 10 5 ∷ releases "y" ∷ []) won
      (omega arith) (others, omega arith, (others, tt))

one_record : Unique stored.allocations
unfolding save
one_record = put-Unique new_memory.allocations "a" allocation tt

abbrev over : Memory
over = save new_memory (record allocation { state = completed })

over_found : get_allocation over "a" ≡ some (record allocation { state = completed })
unfolding save get put
over_found = refl

over_unique : Unique over.allocations
unfolding save
over_unique = put-Unique new_memory.allocations "a" (record allocation { state = completed }) tt

prune_terminal-get_example :
    ((0 < 10)
      × HasEnded completed
      × (◌≡◌ {A = ℕ} 5 0 ⊎ (5 + 10 ≤ 15))
      × (get_allocation (prune_terminal over 15 10).0 "a" ≡ none))
    ⊎ ((◌≡◌ {A = ℕ} 10 0 ⊎ IsLive completed ⊎ ((0 < 5) × (15 < 5 + 10)))
        × (get_allocation (prune_terminal over 15 10).0 "a"
            ≡ some (record allocation { state = completed })))
prune_terminal-get_example =
    prune_terminal-get over 15 10 "a" (record allocation { state = completed }) 5 over_unique
      over_found (inl (omega arith, refl))
