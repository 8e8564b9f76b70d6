-- ===== src/Tests/Capacity.antt =====
-- The theorems on budgets and live capacity at one backend.
use unified_ephemeral_runner.Common.{
  String, ◌≡◌, refl, ◌+◌, ◌*◌, List, ◌≤◌, ◌<◌, ◌≢◌, inr, true, false, some, [], ◌∷◌, arith,
  string_eq, nat_eq, pair_eq, get,
}
use unified_ephemeral_runner.Model.{Time, hour, BackendConfig}
use unified_ephemeral_runner.Budget
use unified_ephemeral_runner.Budget.Bounds.{Event, asks, counts, gives_up}
use unified_ephemeral_runner.Capacity.{
  CapacityStatus, Snapshot, Manager, success, failure, poll, free_slots, effective_max_runners,
  filter_backends_by_live_capacity, clamp_each, clamp_backend, pool_has_schedulable_backend,
  normalize_failure_mode, pass_through,
}
use unified_ephemeral_runner.Capacity.Bounds.{live_capacity_room}
use unified_ephemeral_runner.Capacity.Failures.{failed_poll_keeps_node, second_failure_forgets_node}
use unified_ephemeral_runner.Tests.Fixtures.{backend_config, pool, request}

abbrev whole_day : Time
whole_day = 24 * hour

-- Two allocations pass Allow before the first is recorded.
abbrev two_at_once : List Event
two_at_once = asks whole_day ∷ asks whole_day ∷ counts (whole_day + 5) ∷ gives_up ∷ []

abbrev status : CapacityStatus
status = record {
  max_runners = 5;
  active_runners = 1;
  pending_runners = 0;
  warm_runners = 3;
  node_unavailable = "";
}

abbrev down : CapacityStatus
down = record status { node_unavailable = "NotReady" }

abbrev reading : Snapshot
reading = record {
  backend = "arc";
  status = status;
  updated_at = 9;
  stale = false;
  error = "";
  source = "live";
}

is_available : (effective_max_runners 4 1 (some reading) "block").available ≡ true
unfolding effective_max_runners free_slots
is_available = refl

abbrev manager : Manager
manager = ("arc", reading) ∷ []

passed : filter_backends_by_live_capacity (λ b. 1) manager "block" pool request ≡ inr pool
unfolding filter_backends_by_live_capacity clamp_each clamp_backend pool_has_schedulable_backend get
    effective_max_runners free_slots
passed = refl

configured : get pool.backends "arc" ≡ some backend_config
unfolding get
configured = refl

live_capacity_room_example :
    (original : BackendConfig) × (get pool.backends "arc" ≡ some original)
    × (1 < backend_config.max_runners)
    × (backend_config.max_runners ≤ original.max_runners)
live_capacity_room_example =
    live_capacity_room (λ b. 1) manager "block" pool pool request "arc" backend_config passed
      configured refl

is_down : ◌≢◌ {A = String} "NotReady" ""
is_down = ground (arith, string_eq.agrees_iff "NotReady" "")

has_text : ◌≢◌ {A = String} "timeout" ""
has_text = ground (arith, string_eq.agrees_iff "timeout" "")

failed_poll_keeps_node_example :
    (effective_max_runners 4 1
      (get (poll (poll [] "arc" (success down) 1) "arc" (failure "timeout") 2) "arc")
      "pass-through").available
    ≡ false
failed_poll_keeps_node_example =
    failed_poll_keeps_node [] "arc" down "timeout" 1 2 4 1 "pass-through" is_down

passing : normalize_failure_mode "pass-through" ≡ pass_through
unfolding normalize_failure_mode
passing = refl

second_failure_forgets_node_example :
    (effective_max_runners 4 1
      (get
        (poll
          (poll (poll [] "arc" (success down) 1) "arc" (failure "timeout") 2)
          "arc"
          (failure "timeout")
          3)
        "arc")
      "pass-through").available
    ≡ true
second_failure_forgets_node_example =
    second_failure_forgets_node [] "arc" down "timeout" "timeout" 1 2 3 4 1 "pass-through" has_text
      (omega arith) passing
