-- ===== src/Budget/Bounds.antt =====
-- How many allocations a budget lets through in a day.
use unified_ephemeral_runner.Common.{
  ℕ, suc, ◌≡◌, ◌+◌, ◌-◌, ◌≤◌, ◌<◌, ◌||◌, Option, none, some, List, [], ◌∷◌, string_eq, nat_eq,
  pair_eq, get, if◌then◌else◌, eqb, ltb,
}
use unified_ephemeral_runner.Model.{Time, PoolName, BackendName, BudgetConfig}
use unified_ephemeral_runner.Budget.{
  Counter, Tracker, admission_key, utc_day_start, allow, count_allocation, reload_shared,
}

-- A broker's tracker, the budgets of the shared document, and the number of allocations that Allow
-- let through and that are neither recorded nor given up yet.
pub record World : Type 0 where
  pub tracker : Tracker
  pub shared : Tracker
  pub pending : ℕ

-- Allow for a new allocation; Record for one that is ready; one that is given up.
pub data Event : Type 0 where
  asks : Time → Event
  counts : Time → Event
  gives_up : Event

unfoldable pub or_else : Option Tracker → Tracker → Tracker
or_else none budgets = budgets
or_else (some saved) budgets = saved

-- Every load answers what was saved last.
module _ (utc_month_start : Time → Time) (pool : PoolName) (backend : BackendName)
    (cfg : BudgetConfig) where
  unfoldable pub after : World → Event → World
  unfolding or_else
  after w (asks now) =
      let r = allow utc_month_start (λ _ _. none) w.tracker (some w.shared) pool backend cfg now in
      record w { tracker = r.0; pending = if r.1.allowed then w.pending + 1 else w.pending }
  after w (counts now) =
      let r = count_allocation utc_month_start w.tracker (some w.shared) pool backend cfg now in
      record { tracker = r.0; shared = or_else r.1 w.shared; pending = w.pending - 1 }
  after w gives_up = record w { pending = w.pending - 1 }

  abbrev pub counted : List Event → ℕ
  counted [] = 0
  counted (asks now ∷ events) = counted events
  counted (counts now ∷ events) = suc (counted events)
  counted (gives_up ∷ events) = counted events

  abbrev pub HappensOn : Time → World → Event → Type 0
  HappensOn day w (asks now) = utc_day_start now ≡ day
  HappensOn day w (counts now) = (utc_day_start now ≡ day) × (0 < w.pending)
  HappensOn day w gives_up = 0 < w.pending

  -- A day's run: only an allocation that is pending is recorded or given up, and no more than `k`
  -- are ever pending.
  abbrev pub RunOn : Time → ℕ → World → List Event → Type 0
  RunOn day k w [] = Unit
  RunOn day k w (event ∷ events) =
      HappensOn day w event × ((after w event).pending ≤ k) × RunOn day k (after w event) events

  -- What a counter has left for a day.
  left_on : Time → Option Counter → ℕ
  left_on day none = cfg.max_allocations_daily
  left_on day (some c) =
      if eqb c.daily_window_start 0 || ltb c.daily_window_start day
      then cfg.max_allocations_daily
      else cfg.max_allocations_daily - c.daily_used

  left_in : Time → Counter → ℕ
  left_in day c = cfg.max_allocations_daily - c.daily_used

  IsOn : Time → Counter → Type 0
  IsOn day c = (0 < c.daily_window_start) × (day ≤ c.daily_window_start)

  -- What the next operation finds.
  found : Tracker → Tracker → Option Counter
  found tracker shared = get (reload_shared tracker (some shared)) (admission_key pool backend)

  either : Option Counter → Option Counter → Option Counter
  either none held = held
  either (some saved) held = some saved

  left : Time → World → ℕ
  left day w = left_on day (found w.tracker w.shared)

  -- The counter that Record writes.
  one_more : Counter → Counter
  one_more c = record c {
    daily_used = if ltb 0 cfg.max_allocations_daily then c.daily_used + 1 else c.daily_used;
    monthly_used = if ltb 0 cfg.max_allocations_monthly then c.monthly_used + 1 else c.monthly_used;
  }

  -- The records that `left` and the pending allocations allow for.
  most : ℕ → ℕ → ℕ → ℕ
  most k left pending = if eqb left 0 then pending else left + k - 1
