-- ===== src/Store/Reach.antt =====
-- The broker's guarded writes as steps, and the safety of every sequence of them.
use unified_ephemeral_runner.Common.{
  ℕ, String, ◌≡◌, refl, ◌≤◌, ◌⊎◌, inl, inr, true, false, Option, none, some, arith, ◌==◌, string_eq,
  nat_eq, pair_eq, get, put, leb, Bool-cases, Option-cases,
}
use unified_ephemeral_runner.Model.{
  Time, Duration, PoolName, BackendName, AllocationState, state_eq, state_beq_iff, AllocationStatus,
}
use unified_ephemeral_runner.Store.{
  StoreError, Memory, new_memory, is_scheduler_accounted_state, normalize_tenant, apply_mark_state,
  save, delete, mark_state, compare_and_mark_state, save_if_state, save_if_capacity, prune_terminal,
  collect_prunable_ids, count_tenant_active, count_tenant_active_locked,
}
use unified_ephemeral_runner.Store.Capacity.{
  Within, save_if_capacity_bounds, save_if_capacity_saves,
}
use unified_ephemeral_runner.Store.History.{
  Limit, slot, backend, tenant, holds, usage, usage_by, usage-holds, usage-put, usage-erase,
  usage-delete_all, holds_accounted, holds_same,
}

-- The configured limits; 0 is no limit.
pub record Limits : Type 0 where
  pub max_runners : PoolName → BackendName → ℕ
  pub backend_limit : BackendName → ℕ
  pub tenant_quota : PoolName → String → ℕ

abbrev pub bound : Limits → Limit → ℕ
bound c (slot p b) = c.max_runners p b
bound c (backend b) = c.backend_limit b
bound c (tenant p t) = c.tenant_quota p t

-- No limit that is set is exceeded.
abbrev pub IsBounded : Limits → Memory → Type 0
IsBounded c m = (l : Limit) → Within (bound c l) (usage l m)

abbrev pub admits : Limits → Memory → AllocationStatus → Memory × Option StoreError
admits c m s =
    save_if_capacity m s (c.max_runners s.pool s.selected_backend)
      (c.tenant_quota s.pool (normalize_tenant s.tenant)) (c.backend_limit s.selected_backend)

-- One write. Records enter a counted state only by a capacity-checked save under the configured
-- limits; the other writes park records that are not counted, move a record within or out of the
-- counted states (a warm runner that is handed over is one), replace a counted record by one of the same pool, backend and tenant (by the
-- commit of a provisioned record, and by the plain Save of a claim, a registration, a warm handoff
-- or the reconciliation after a restart on a record that is still counted), or drop records.
pub data Step (c : Limits) (m : Memory) : Memory → Type 0 where
  admit : (s : AllocationStatus) → (admits c m s).1 ≡ none → Step c m (admits c m s).0
  park : (s : AllocationStatus) → is_scheduler_accounted_state s.state ≡ false → Step c m (save m s)
  retire :
      (id : String) (to : AllocationState) (now : Time) (message : String)
      → is_scheduler_accounted_state to ≡ false
      → Step c m (mark_state m id to now message).0
  transition :
      (id : String) (from to : AllocationState) (now : Time) (message : String)
      → (is_scheduler_accounted_state from ≡ true) ⊎ (is_scheduler_accounted_state to ≡ false)
      → Step c m (compare_and_mark_state m id from to now message).0
  commit :
      (s current : AllocationStatus) (from : AllocationState)
      → get m.allocations s.id ≡ some current
      → is_scheduler_accounted_state from ≡ true
      → current.pool ≡ s.pool
      → current.selected_backend ≡ s.selected_backend
      → current.tenant ≡ s.tenant
      → Step c m (save_if_state m s from).0
  resave :
      (s current : AllocationStatus)
      → get m.allocations s.id ≡ some current
      → is_scheduler_accounted_state current.state ≡ true
      → current.pool ≡ s.pool
      → current.selected_backend ≡ s.selected_backend
      → current.tenant ≡ s.tenant
      → Step c m (save m s)
  hand_over :
      (id : String) (current : AllocationStatus) (to : AllocationState) (now : Time)
      (message : String)
      → get m.allocations id ≡ some current
      → is_scheduler_accounted_state current.state ≡ true
      → Step c m (mark_state m id to now message).0
  drop : (id : String) → Step c m (delete m id)
  prune : (now : Time) (retention : Duration) → Step c m (prune_terminal m now retention).0

pub data Reach (c : Limits) : Memory → Type 0 where
  start : Reach c new_memory
  next : {m m' : Memory} → Reach c m → Step c m m' → Reach c m'

Within-mono : (limit : ℕ) {a b : ℕ} → a ≤ b → Within limit b → Within limit a
Within-mono limit h (inl e) = inl e
Within-mono limit h (inr k) = inr (omega arith)

-- A write that uses no limit more than before keeps the bounds.
IsBounded-of_le :
    (c : Limits) (m m' : Memory)
    → ((l : Limit) → usage_by (holds l) m'.allocations ≤ usage_by (holds l) m.allocations)
    → IsBounded c m
    → IsBounded c m'
IsBounded-of_le c m m' h b l =
    Within-mono (bound c l) (rw (usage-holds l m, usage-holds l m') (h l)) (b l)

-- The free writes: the record was counted before, or is not counted after.
put_free :
    (l : Limit) (m : Memory) (k : String) (s : AllocationStatus)
    → ((is_scheduler_accounted_state s.state ≡ false)
        ⊎ ((old : AllocationStatus) × (get m.allocations k ≡ some old)
            × (is_scheduler_accounted_state old.state ≡ true)
            × (old.pool ≡ s.pool)
            × (old.selected_backend ≡ s.selected_backend)
            × (old.tenant ≡ s.tenant)))
    → usage_by (holds l) (put m.allocations k s) ≤ usage_by (holds l) m.allocations
put_free l m k s (inl h) = elim (Bool-cases (holds l s)) [
  | inl counted ↦ absurd (ground (arith, holds_accounted l s))
  | inr free ↦ usage-put (holds l) m.allocations k s (inl free)
]
put_free l m k s (inr (old, g, a, hp, hb, ht)) = elim (Bool-cases (holds l s)) [
  | inl counted ↦
      usage-put (holds l) m.allocations k s (inr (old, g, holds_same l old s hp hb ht a counted))
  | inr free ↦ usage-put (holds l) m.allocations k s (inl free)
]

admit_holds :
    (c : Limits) (m : Memory) (s : AllocationStatus) (l : Limit)
    → (admits c m s).1 ≡ none
    → holds l s ≡ true
    → Within (bound c l) (usage l (admits c m s).0)
unfolding count_tenant_active count_tenant_active_locked
admit_holds c m s (slot p b) e h =
    let hp : s.pool ≡ p = ground (arith, string_eq.agrees_iff s.pool p) in
    let hb : s.selected_backend ≡ b = ground (arith, string_eq.agrees_iff s.selected_backend b) in
    rw (← hp, ← hb) (save_if_capacity_bounds m s _ _ _ e).0
admit_holds c m s (backend b) e h =
    let hb : s.selected_backend ≡ b = ground (arith, string_eq.agrees_iff s.selected_backend b) in
    rw (← hb) (save_if_capacity_bounds m s _ _ _ e).1
admit_holds c m s (tenant p t) e h =
    let hp : s.pool ≡ p = ground (arith, string_eq.agrees_iff s.pool p) in
    let ht : normalize_tenant s.tenant ≡ t =
      ground (arith, string_eq.agrees_iff (normalize_tenant s.tenant) t) in
    rw (← hp, ← ht) (save_if_capacity_bounds m s _ _ _ e).2

admit-IsBounded :
    (c : Limits) (m : Memory) (s : AllocationStatus)
    → (admits c m s).1 ≡ none
    → IsBounded c m
    → IsBounded c (admits c m s).0
admit-IsBounded c m s e b l = elim (Bool-cases (holds l s)) [
  | inl counted ↦ admit_holds c m s l e counted
  | inr free ↦ rw (save_if_capacity_saves m s _ _ _ e) (
      Within-mono (bound c l)
        (rw (usage-holds l m, usage-holds l (record m { allocations = put m.allocations s.id s }))
          (usage-put (holds l) m.allocations s.id s (inl free)))
        (b l))
]

retire_free :
    (l : Limit) (m : Memory) (id : String) (to : AllocationState) (now : Time) (message : String)
    → is_scheduler_accounted_state to ≡ false
    → usage_by (holds l) (mark_state m id to now message).0.allocations
      ≤ usage_by (holds l) m.allocations
unfolding mark_state apply_mark_state
retire_free l m id to now message h = elim (Option-cases (get m.allocations id)) [
  | inl e ↦ rw (e, mark_state) (omega arith)
  | inr (s, e) ↦ rw (e, mark_state) (put_free l m id (apply_mark_state s to now message) (inl h))
]

hand_over_free :
    (l : Limit) (m : Memory) (id : String) (current : AllocationStatus) (to : AllocationState)
    (now : Time) (message : String)
    → get m.allocations id ≡ some current
    → is_scheduler_accounted_state current.state ≡ true
    → usage_by (holds l) (mark_state m id to now message).0.allocations
      ≤ usage_by (holds l) m.allocations
unfolding mark_state apply_mark_state
hand_over_free l m id current to now message e a =
    rw (e, mark_state)
      (put_free l m id (apply_mark_state current to now message)
        (inr (current, e, a, refl, refl, refl)))

transition_free :
    (l : Limit) (m : Memory) (id : String) (from to : AllocationState) (now : Time)
    (message : String)
    → (is_scheduler_accounted_state from ≡ true) ⊎ (is_scheduler_accounted_state to ≡ false)
    → usage_by (holds l) (compare_and_mark_state m id from to now message).0.allocations
      ≤ usage_by (holds l) m.allocations
unfolding compare_and_mark_state apply_mark_state
transition_free l m id from to now message h = elim (Option-cases (get m.allocations id)) [
  | inl e ↦ rw (e, compare_and_mark_state) (omega arith)
  | inr (s, e) ↦ elim (Bool-cases (s.state == from)) [
    | inr differs ↦ rw (e, compare_and_mark_state, differs) (omega arith)
    | inl same ↦
        rw (e, compare_and_mark_state, same)
          (put_free l m id (apply_mark_state s to now message) (elim h [
            | inr out ↦ inl out
            | inl in_use ↦
                inr (s, e, rw ((state_beq_iff s.state from).0 same) in_use, refl, refl, refl)
          ]))
  ]
]

commit_free :
    (l : Limit) (m : Memory) (s current : AllocationStatus) (from : AllocationState)
    → get m.allocations s.id ≡ some current
    → is_scheduler_accounted_state from ≡ true
    → current.pool ≡ s.pool
    → current.selected_backend ≡ s.selected_backend
    → current.tenant ≡ s.tenant
    → usage_by (holds l) (save_if_state m s from).0.allocations ≤ usage_by (holds l) m.allocations
unfolding save_if_state
commit_free l m s current from e a hp hb ht = elim (Bool-cases (current.state == from)) [
  | inr differs ↦ rw (e, save_if_state, differs) (omega arith)
  | inl same ↦
      rw (e, save_if_state, same)
        (put_free l m s.id s
          (inr (current, e, rw ((state_beq_iff current.state from).0 same) a, hp, hb, ht)))
]

prune_free :
    (l : Limit) (m : Memory) (now : Time) (retention : Duration)
    → usage_by (holds l) (prune_terminal m now retention).0.allocations
      ≤ usage_by (holds l) m.allocations
unfolding prune_terminal
prune_free l m now retention = elim (Bool-cases (leb retention 0)) [
  | inl e ↦ rw e (omega arith)
  | inr e ↦
      rw e (
        usage-delete_all (holds l) m.allocations (collect_prunable_ids m.allocations now retention))
]

pub Step-IsBounded : (c : Limits) {m m' : Memory} → Step c m m' → IsBounded c m → IsBounded c m'
unfolding save delete
Step-IsBounded c {m} (admit s e) b = admit-IsBounded c m s e b
Step-IsBounded c {m} (park s h) b = IsBounded-of_le c m _ (λ l. put_free l m s.id s (inl h)) b
Step-IsBounded c {m} (retire id to now message h) b =
    IsBounded-of_le c m _ (λ l. retire_free l m id to now message h) b
Step-IsBounded c {m} (transition id from to now message h) b =
    IsBounded-of_le c m _ (λ l. transition_free l m id from to now message h) b
Step-IsBounded c {m} (commit s current from e a hp hb ht) b =
    IsBounded-of_le c m _ (λ l. commit_free l m s current from e a hp hb ht) b
Step-IsBounded c {m} (resave s current e a hp hb ht) b =
    IsBounded-of_le c m _ (λ l. put_free l m s.id s (inr (current, e, a, hp, hb, ht))) b
Step-IsBounded c {m} (hand_over id current to now message e a) b =
    IsBounded-of_le c m _ (λ l. hand_over_free l m id current to now message e a) b
Step-IsBounded c {m} (drop id) b =
    IsBounded-of_le c m _ (λ l. usage-erase (holds l) m.allocations id) b
Step-IsBounded c {m} (prune now retention) b =
    IsBounded-of_le c m _ (λ l. prune_free l m now retention) b
