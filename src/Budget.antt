-- ===== src/Budget.antt =====
-- internal/budget/tracker.go, and filterBackendsByBudget of internal/api/service.go. The shared
-- document is an argument of the operations that load it, as its budgets (none for an error), and
-- what Record saves in it are the counters that it leaves. The first instant of a month, which the
-- code asks package time for, is an argument; that of a UTC day is a multiple of 24 hours since Go's
-- zero time. An external source is the function that its Usage computes, and none for a missing one.
pub mod Bounds
use unified_ephemeral_runner.Common.{
  ℕ, zero, suc, String, ◌≡◌, refl, sym, ap, ◌∙◌, subst, ◌+◌, ◌-◌, ◌*◌, ◌/◌, ◌%◌, ◌^◌, ◌≤◌, ◌<◌, ◌≢◌,
  ◌↔◌, ◌⊎◌, inl, inr, Bool, true, false, not, ◌&&◌, ◌||◌, Option, none, some, List, [], ◌∷◌, ◌++◌,
  map, arith, Comparable, ◌==◌, ==_refl, string_eq, nat_eq, pair_eq, Dict, get, erase, put,
  count_by, Unique, if◌then◌else◌, eqb, leb, ltb, Bool-cases, Option-cases, is_some, or_zero,
  ltb→lt, lt→ltb, leb→le, eqb_iff, count_by_congr, count_by-skip, count_by-put-le,
  count_by-put-le_of_false, count_by-put-le-suc, count_by-erase-le, count_by-erase-lt, get-erase,
  get-put, get-put_self, get-nil, erase-Unique, put-Unique, length, get_elem?, take, replicate,
  filter, any, sum_by, value_of, sum_by-put, length-append, length-filter-le, get_elem?-lt, overlay,
}
use Prim.Native.String.{◌++◌ as append}
use unified_ephemeral_runner.Model.{
  Time, Duration, hour, PoolName, BackendName, BudgetConfig, BackendConfig, PoolConfig,
  AllocationRequest,
}
use unified_ephemeral_runner.Scheduler.{Result, ok, err}

pub data BudgetReason : Type 0 where
  daily_budget_exceeded monthly_budget_exceeded : BudgetReason

pub record BudgetDecision : Type 0 where
  pub allowed : Bool
  pub reason : Option BudgetReason
  pub daily_used : ℕ
  pub daily_limit : ℕ
  pub monthly_used : ℕ
  pub monthly_limit : ℕ

pub record Counter : Type 0 where
  pub daily_window_start : Time
  pub daily_used : ℕ
  pub monthly_window_start : Time
  pub monthly_used : ℕ

abbrev pub Tracker : Type 0
Tracker = Dict String Counter

abbrev pub Source : Type 0
Source = PoolName → BackendName → Option (ℕ × ℕ)

-- store.AdmissionKey
unfoldable pub admission_key : PoolName → BackendName → String
admission_key pool backend = append pool (append "/" backend)

-- evaluate
unfoldable pub evaluate : BudgetConfig → ℕ → ℕ → BudgetDecision
evaluate cfg daily monthly =
    let decision : BudgetDecision = record {
      allowed = true;
      reason = none;
      daily_used = daily;
      daily_limit = cfg.max_allocations_daily;
      monthly_used = monthly;
      monthly_limit = cfg.max_allocations_monthly;
    } in
    if ltb 0 cfg.max_allocations_daily && leb cfg.max_allocations_daily daily
    then record decision { allowed = false; reason = some daily_budget_exceeded }
    else if ltb 0 cfg.max_allocations_monthly && leb cfg.max_allocations_monthly monthly
    then record decision { allowed = false; reason = some monthly_budget_exceeded }
    else decision

abbrev pub unlimited : BudgetDecision
unlimited = record {
  allowed = true;
  reason = none;
  daily_used = 0;
  daily_limit = 0;
  monthly_used = 0;
  monthly_limit = 0;
}

-- utcDayStart
abbrev pub utc_day_start : Time → Time
utc_day_start now = now - now % (24 * hour)

abbrev new_counter : Counter
new_counter = record {
  daily_window_start = 0;
  daily_used = 0;
  monthly_window_start = 0;
  monthly_used = 0;
}

-- reloadShared
unfoldable pub reload_shared : Tracker → Option Tracker → Tracker
reload_shared t none = t
reload_shared t (some budgets) = overlay t budgets

module _ (utc_month_start : Time → Time) where
  -- The counter in the windows of `now`.
  unfoldable pub roll : Counter → Time → Counter
  roll c now =
      let day = utc_day_start now in
      let month = utc_month_start now in
      let daily =
        if eqb c.daily_window_start 0 || ltb c.daily_window_start day
        then record c { daily_window_start = day; daily_used = 0 }
        else c in
      if eqb daily.monthly_window_start 0 || ltb daily.monthly_window_start month
      then record daily { monthly_window_start = month; monthly_used = 0 }
      else daily

  -- The counter that ensureCounterLocked returns.
  unfoldable pub ensure_counter : Tracker → String → Time → Counter
  ensure_counter t key now = elim (get t key) [ none ↦ roll new_counter now | some c ↦ roll c now ]

  -- Tracker.Allow after the reload
  unfoldable pub decide :
      Source → Tracker → PoolName → BackendName → BudgetConfig → Time → Tracker × BudgetDecision
  decide source t pool backend cfg now =
      let key = admission_key pool backend in
      let c = ensure_counter t key now in
      (
        put t key c,
        elim (source pool backend) [
          | none ↦ evaluate cfg c.daily_used c.monthly_used
          | some used ↦ evaluate cfg used.0 used.1
        ],
      )

  -- Tracker.Allow
  unfoldable pub allow :
      Source
      → Tracker
      → Option Tracker
      → PoolName
      → BackendName
      → BudgetConfig
      → Time
      → Tracker × BudgetDecision
  allow source t loaded pool backend cfg now =
      if not cfg.enabled
      then (t, unlimited)
      else decide source (reload_shared t loaded) pool backend cfg now

  -- Tracker.Record after the reload: the counters that it leaves, and saves.
  unfoldable pub advance : Tracker → PoolName → BackendName → BudgetConfig → Time → Tracker
  advance t pool backend cfg now =
      let key = admission_key pool backend in
      let c = ensure_counter t key now in
      put t key (record c {
        daily_used = if ltb 0 cfg.max_allocations_daily then c.daily_used + 1 else c.daily_used;
        monthly_used =
            if ltb 0 cfg.max_allocations_monthly then c.monthly_used + 1 else c.monthly_used;
      })

  -- Tracker.Record: the counters after it, and what it saves as the budgets of the document.
  unfoldable pub count_allocation :
      Tracker
      → Option Tracker
      → PoolName
      → BackendName
      → BudgetConfig
      → Time
      → Tracker × Option Tracker
  count_allocation t loaded pool backend cfg now =
      let counted = advance (reload_shared t loaded) pool backend cfg now in
      if not cfg.enabled then (t, none) else (counted, some counted)

  -- Tracker.Snapshot
  unfoldable pub snapshot :
      Tracker
      → Option Tracker
      → PoolName
      → BackendName
      → BudgetConfig
      → Time
      → Tracker × BudgetDecision
  snapshot t loaded pool backend cfg now = allow (λ _ _. none) t loaded pool backend cfg now

  pub data BudgetError : Type 0 where
    unknown_backend budget_exceeded no_capacity : BudgetError

  -- The loop of filterBackendsByBudget: the backends kept, and the numbers of those with a budget
  -- and of those over it.
  pub record Filtered : Type 0 where
    pub tracker : Tracker
    pub kept : Dict BackendName BackendConfig
    pub budgeted : ℕ
    pub over_budget : ℕ

  -- `loads` is what each backend's Allow loads.
  unfoldable pub filter_each :
      Source
      → (BackendName → Option Tracker)
      → Tracker
      → PoolName
      → Time
      → Dict BackendName BackendConfig
      → Filtered
  filter_each source loads t pool now [] = record {
    tracker = t;
    kept = [];
    budgeted = 0;
    over_budget = 0;
  }
  filter_each source loads t pool now ((name, cfg) ∷ backends) =
      let decided = allow source t (loads name) pool name cfg.budget now in
      let rest = filter_each source loads decided.0 pool now backends in
      if not cfg.budget.enabled
      then record rest { kept = (name, cfg) ∷ rest.kept }
      else if decided.1.allowed
      then record rest { kept = (name, cfg) ∷ rest.kept; budgeted = rest.budgeted + 1 }
      else record rest { budgeted = rest.budgeted + 1; over_budget = rest.over_budget + 1 }

  abbrev pub is_usable : BackendConfig → Bool
  is_usable cfg = cfg.enabled && cfg.healthy && ltb 0 cfg.max_runners

  -- The backends that the later steps see.
  unfoldable pub remaining : Filtered → Dict BackendName BackendConfig
  remaining f =
      if ltb 0 f.budgeted
        && eqb f.over_budget f.budgeted
        && not (any (λ entry. is_usable entry.1) f.kept)
      then []
      else f.kept

  filter_pinned :
      Source
      → Option Tracker
      → Filtered
      → PoolConfig
      → BackendName
      → Time
      → Tracker × (BudgetError ⊎ PoolConfig)
  filter_pinned source loaded f pool backend now = elim (get pool.backends backend) [
    | none ↦ (f.tracker, inl unknown_backend)
    | some cfg ↦
        let decided = allow source f.tracker loaded pool.name backend cfg.budget now in
        if not cfg.budget.enabled
        then (f.tracker, inr (record pool { backends = remaining f }))
        else if decided.1.allowed
        then (decided.0, inr (record pool { backends = remaining f }))
        else (decided.0, inl budget_exceeded)
  ]

  filter_unpinned : Filtered → PoolConfig → Tracker × (BudgetError ⊎ PoolConfig)
  filter_unpinned f pool =
      if eqb (length (remaining f)) 0
      then (
        f.tracker,
        inl (
            if ltb 0 f.budgeted && eqb f.over_budget f.budgeted
            then budget_exceeded
            else no_capacity),
      )
      else (f.tracker, inr (record pool { backends = remaining f }))

  -- filterBackendsByBudget
  unfoldable pub filter_backends_by_budget :
      Source
      → (BackendName → Option Tracker)
      → Option Tracker
      → Tracker
      → PoolConfig
      → AllocationRequest
      → Time
      → Tracker × (BudgetError ⊎ PoolConfig)
  unfolding filter_pinned filter_unpinned
  filter_backends_by_budget source loads loaded t pool request now =
      let f = filter_each source loads t pool.name now pool.backends in
      elim request.backend [
        | some backend ↦ filter_pinned source loaded f pool backend now
        | none ↦ filter_unpinned f pool
      ]
