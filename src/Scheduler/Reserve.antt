-- ===== src/Scheduler/Reserve.antt =====
-- orderedScheduler.Reserve: which backend it picks, when it fails, and what it writes.
use unified_ephemeral_runner.Common.{
  ℕ, ◌≡◌, refl, subst, ◌+◌, ◌%◌, ◌<◌, ◌⊎◌, inl, inr, Bool, true, false, Option, none, some, List,
  [], ◌∷◌, arith, string_eq, nat_eq, pair_eq, get, put, Option-cases, or_zero, length,
}
use native.Mathlib.Nat.{mod-lt}
use unified_ephemeral_runner.Model.{BackendName, PoolConfig, AllocationRequest}
use unified_ephemeral_runner.Scheduler.{
  SchedulerError, Result, ok, err, no_capacity, Active, count_of, ensure_pool, set_count,
  OrderedScheduler, is_candidate, at, scan, reserve_pinned, reserve_next, reserve,
}
use unified_ephemeral_runner.Scheduler.Ring.{Scans, scan-Scans, ring_index}

-- A granted reservation: the backend passed the test, and its count grew by one.
abbrev pub Granted : Active → PoolConfig → BackendName → Active → Type 0
Granted a pool b a' =
    (is_candidate a pool b ≡ true) × (a' ≡ set_count a pool.name b (count_of a pool.name b + 1))

pinned-Granted :
    (s : OrderedScheduler) (pool : PoolConfig) (pinned b : BackendName)
    → (reserve_pinned s pool pinned).1 ≡ ok b
    → (pinned ≡ b) × Granted s.active pool b (reserve_pinned s pool pinned).0.active
unfolding reserve_pinned is_candidate
pinned-Granted s pool pinned b h = ground arith

-- How the ring is read: from the pool's cursor.
abbrev pub ring_start : OrderedScheduler → PoolConfig → List BackendName → ℕ
ring_start s pool backends = or_zero (get s.cursors pool.name) % length backends

-- The pick of an unpinned reservation: the first candidate from the cursor on that passes, after
-- which the cursor stands behind it; or none, where none passes.
abbrev pub Picks :
    OrderedScheduler
    → PoolConfig
    → List BackendName
    → OrderedScheduler × Result BackendName
    → Type 0
Picks s pool backends r =
    ((r ≡ (s, err no_capacity))
      × ((i : ℕ) → i < length backends → is_candidate s.active pool (at backends i) ≡ false))
    ⊎ ((index : ℕ) × (k : ℕ) × (k < length backends)
        × (index ≡ (ring_start s pool backends + k) % length backends)
        × (r.1 ≡ ok (at backends index))
        × Granted s.active pool (at backends index) r.0.active
        × (r.0.cursors ≡ put s.cursors pool.name ((index + 1) % length backends))
        × ((j : ℕ)
            → j < k
            → is_candidate s.active pool
                (at backends ((ring_start s pool backends + j) % length backends))
              ≡ false))

next-Picks :
    (s : OrderedScheduler) (pool : PoolConfig) (backends : List BackendName)
    → Picks s pool backends (reserve_next s pool backends)
unfolding reserve_next
next-Picks s pool [] = inl (refl, λ i h. absurd (omega arith))
next-Picks s pool (b ∷ bs) = pick _ refl
  where
    backends : List BackendName
    backends = b ∷ bs

    start : ℕ
    start = ring_start s pool backends

    test : BackendName → Bool
    test = is_candidate s.active pool

    pick :
        (r : Option ℕ)
        → scan test backends start 0 (length backends) ≡ r
        → Picks s pool backends (reserve_next s pool backends)
    pick none e =
        let fails =
          subst (Scans test backends start 0 (length backends)) e
            (scan-Scans test backends start 0 (length backends)) in
        rw (e, reserve_next)
          (inl (
            refl,
            λ i h.
                let (k, lt, at_i) =
                  ring_index (length backends) start i
                    (mod-lt (or_zero (get s.cursors pool.name)) (omega arith)) h in
                subst (λ x. test (at backends x) ≡ false) at_i
                  (fails k (omega arith) (omega arith)),
          ))
    pick (some index) e =
        let (k, lo, hi, at_k, hit, before) =
          subst (Scans test backends start 0 (length backends)) e
            (scan-Scans test backends start 0 (length backends)) in
        rw (e, reserve_next)
          (inr (
            index,
            k,
            omega arith,
            at_k,
            refl,
            (hit, refl),
            refl,
            λ j lt. before j (omega arith) lt,
          ))

-- An unpinned reservation takes the first available backend of the ring from the pool's cursor on,
-- adds one to its count and moves the cursor behind it; it fails, with no capacity, exactly when no
-- backend of the order is available, and then nothing but the pool's empty map is written.
pub reserve-Picks :
    (order : PoolConfig → List BackendName) (s : OrderedScheduler) (pool : PoolConfig)
    (request : AllocationRequest)
    → request.backend ≡ none
    → Picks
        (record s { active = ensure_pool s.active pool.name })
        pool
        (order pool)
        (reserve order s pool request)
unfolding reserve
reserve-Picks order s pool request e =
    rw (e, reserve)
      (next-Picks (record s { active = ensure_pool s.active pool.name }) pool (order pool))

Picks-ok :
    (s : OrderedScheduler) (pool : PoolConfig) (backends : List BackendName)
    (r : OrderedScheduler × Result BackendName) (b : BackendName)
    → Picks s pool backends r
    → r.1 ≡ ok b
    → Granted s.active pool b r.0.active
Picks-ok s pool backends r b (inl (e, none_left)) h = ground arith
Picks-ok s pool backends r b (inr (index, k, lt, at_k, picked, granted, moved, before)) h =
    let same : at backends index ≡ b = ground arith in
    subst (λ x. Granted s.active pool x r.0.active) same granted

-- Every granted reservation, pinned or not, is of a backend that passed the test, and adds one to its
-- count and to no other.
pub reserve-Granted :
    (order : PoolConfig → List BackendName) (s : OrderedScheduler) (pool : PoolConfig)
    (request : AllocationRequest) (b : BackendName)
    → (reserve order s pool request).1 ≡ ok b
    → Granted (ensure_pool s.active pool.name) pool b (reserve order s pool request).0.active
unfolding reserve
reserve-Granted order s pool request b h = elim (Option-cases request.backend) [
  | inl e ↦ Picks-ok _ pool (order pool) _ b (reserve-Picks order s pool request e) h
  | inr (pinned, e) ↦ rw (e, reserve) (pinned-Granted _ pool pinned b (rw (e, reserve) at h)).1
]

-- A failed reservation changes the counts in nothing but the pool's map, which it makes if there is none.
pub reserve_error :
    (order : PoolConfig → List BackendName) (s : OrderedScheduler) (pool : PoolConfig)
    (request : AllocationRequest) (e : SchedulerError)
    → (reserve order s pool request).1 ≡ err e
    → (reserve order s pool request).0.active ≡ ensure_pool s.active pool.name
unfolding reserve reserve_pinned
reserve_error order s pool request e h = elim (Option-cases request.backend) [
  | inl free ↦ elim (reserve-Picks order s pool request free) [
    | inl (same, _) ↦ ground arith
    | inr (index, k, lt, at_k, picked, granted, moved, before) ↦ ground arith
  ]
  | inr (pinned, set) ↦ ground arith
]
