-- ===== src/Tests/Lifecycle.antt =====
-- The theorems on the end of an allocation, on one allocation.
use unified_ephemeral_runner.Common.{
  ◌≡◌, ◌≤◌, ◌+◌, ◌⊎◌, refl, string_eq, true, false, some, [], ◌∷◌, List, get, ◌&&◌,
}
use unified_ephemeral_runner.Model.{reserved, ready, canceled, AllocationStatus}
use unified_ephemeral_runner.Store.{new_memory, list}
use unified_ephemeral_runner.Store.File.Refinement.Operations.{Operation, marks}
use unified_ephemeral_runner.Service.Lifecycle.{Config, Broker, is_active_state, is_set}
use unified_ephemeral_runner.Service.Lifecycle.Finish.{cancel}
use unified_ephemeral_runner.Service.Lifecycle.Finish.Sequence.{
  Finish, cancels, completes, finish_all, release_count, IsEnded, finish_once,
}
use unified_ephemeral_runner.Service.Lifecycle.Finish.Once.{Outcome, cancel_lem}
use unified_ephemeral_runner.Service.Lifecycle.Sweep.{
  is_overdue, is_registration_over, is_unconfirmed, sweep_all, sweep_expired,
}
use unified_ephemeral_runner.Service.Lifecycle.Sweep.Expiry.{swept_option}
use unified_ephemeral_runner.Service.Lifecycle.Sweep.UniqueIds.{HasUniqueIds}
use unified_ephemeral_runner.Service.Lifecycle.Sweep.Fate.{
  IsById, sweep_all_lem, sweep_expired-active, sweep_expired-claimed,
}
use unified_ephemeral_runner.Tests.Fixtures.{allocation, pool}

abbrev pub config : Config
config = record {
  default_pool = "p";
  backend_limits = [];
  registration_timeout = 100;
  orphan_cleanup = true;
  quarantine_ttl = 50;
  grace_period = 5;
  retention = 1000;
  lifecycle = true;
  pools = pool ∷ [];
}

abbrev running : AllocationStatus
running = record allocation { state = ready; claimed_at = some 6; expires_at = 500 }

abbrev broker : Broker
broker = record {
  store = record new_memory { allocations = ("a", running) ∷ [] };
  penalties = [];
  calls = [];
}

-- Another goroutine takes the record back to reserved, and then cancels it.
abbrev others : List (List Operation)
others = (marks "a" reserved 7 "" ∷ []) ∷ (marks "a" canceled 8 "" ∷ []) ∷ []

cancel_lem_example :
    Outcome config [] "a"
      (cancel config broker "a" 9 others).0
      (cancel config broker "a" 9 others).1
cancel_lem_example = cancel_lem config broker "a" 9 others

-- A cancellation, and a late report of success.
abbrev both_ends : List Finish
both_ends =
    cancels 9
    ∷ completes (record { state = "Success"; error = ""; reason = "done"; failure_class = "" }) 10
    ∷ []

finish_once_example :
    let ended = finish_all config "a" broker both_ends in
    (release_count ended.calls ≡ release_count broker.calls)
    ⊎ ((release_count ended.calls ≤ release_count broker.calls + 1)
        × IsEnded ended "a"
        × (finish_all config "a" ended (cancels 11 ∷ []) ≡ ended))
finish_once_example = finish_once config "a" broker both_ends (cancels 11 ∷ [])

here : get broker.store.allocations "a" ≡ some running
unfolding get
here = refl

broker-IsById : IsById broker.store.allocations
unfolding IsById
broker-IsById = (refl, tt)

broker-HasUniqueIds : HasUniqueIds broker
unfolding get
broker-HasUniqueIds = (refl, tt)

sweep_all_lem_example :
    get (sweep_all config broker (list broker.store) 600).0.store.allocations "a"
    ≡ swept_option config 600 (get broker.store.allocations "a")
sweep_all_lem_example = sweep_all_lem config broker 600 "a" broker-HasUniqueIds broker-IsById

is_running : is_active_state running.state ≡ true
unfolding is_active_state
is_running = refl

is_claimed : is_set running.claimed_at ≡ true
unfolding is_set
is_claimed = refl

in_time : is_overdue config running 300 ≡ false
unfolding is_overdue
in_time = refl

sweep_expired-claimed_example :
    get (sweep_expired config broker 300).0.store.allocations "a" ≡ some running
sweep_expired-claimed_example =
    sweep_expired-claimed config broker 300 "a" running broker-HasUniqueIds broker-IsById here
      is_running is_claimed in_time

still_there : get (sweep_expired config broker 300).0.store.allocations "a" ≡ some running
still_there =
    sweep_expired-claimed config broker 300 "a" running broker-HasUniqueIds broker-IsById here
      is_running is_claimed in_time

sweep_expired-active_example :
    (is_overdue config running 300 ≡ false)
    × (is_registration_over config running 300 && is_unconfirmed config running ≡ false)
sweep_expired-active_example =
    sweep_expired-active config broker 300 "a" running broker-HasUniqueIds broker-IsById still_there
      is_running
