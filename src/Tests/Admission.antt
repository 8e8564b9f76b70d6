-- ===== src/Tests/Admission.antt =====
-- The theorems on the circuit breaker and the rate limit at one backend.
use unified_ephemeral_runner.Common.{
  ◌≡◌, refl, sym, subst, ap, ◌*◌, ◌≤◌, ◌<◌, ◌⊎◌, true, false, none, some, List, [], ◌∷◌, arith,
  string_eq, nat_eq, pair_eq, get,
}
use unified_ephemeral_runner.Common.Text.{trim_space, to_lower}
use unified_ephemeral_runner.Admission.{
  closed, opened, half_open, AdmissionKey, BackendCircuit, BackendAdmission, Transition,
  new_backend_admission, circuit, allow, window_interval, window_permits, record_failure, fail,
  recent_failures, trip_reason_enabled, normalize_failure_reason,
  normalize_recovery_success_threshold, normalize_failure_threshold, normalize_open_duration,
  normalize_evaluation_window,
}
use unified_ephemeral_runner.Admission.RateLimit.{World, consume_all, rate_limit_bound}
use unified_ephemeral_runner.Admission.Circuit.Runs.{
  Call, DeniedAll, fail_all, succeed_all, threshold_opens, trip_blocks, recovery,
}
use unified_ephemeral_runner.Admission.Circuit.Reach.{
  SlotsBounded, starts, steps, allowing, half_open_bounded,
}
use unified_ephemeral_runner.Tests.Fixtures.{breaker, rate, backend_config}

abbrev key : AdmissionKey
key = ("p", "arc")

abbrev half : BackendCircuit
half = record {
  state = half_open;
  failures = 3 ∷ [];
  opened_at = 5;
  next_probe_at = 20;
  half_open_in_flight = 1;
  recovery_successes = 0;
  last_transition_reason = "timeout";
}

abbrev halfway : BackendAdmission
halfway = record {
  circuits = (key, half) ∷ [];
  limits = (key, record { window_start = 10; used = 1 }) ∷ [];
}

abbrev alone : World
alone = record { admission = new_backend_admission; shared = halfway }

rate_limit_bound_example :
    (consume_all alone key backend_config (10 ∷ 60 ∷ 109 ∷ [])).1 ≤ 2 * window_permits rate
unfolding window_interval
rate_limit_bound_example =
    rate_limit_bound alone key backend_config 10 (10 ∷ 60 ∷ 109 ∷ []) refl (omega arith)
      (omega arith, omega arith, (omega arith, omega arith, (omega arith, omega arith, tt)))

half_open_bounded_example :
    SlotsBounded
      (λ k. backend_config)
      (allow new_backend_admission none key backend_config 30 false true).0
half_open_bounded_example =
    half_open_bounded (λ k. backend_config)
      (allow new_backend_admission none key backend_config 30 false true).0
      (steps new_backend_admission
        (allow new_backend_admission none key backend_config 30 false true).0 starts
        (allowing new_backend_admission key 30 false true))

timeout_trips : trip_reason_enabled breaker (normalize_failure_reason "timeout") ≡ true
unfolding trip_reason_enabled normalize_failure_reason trim_space to_lower
timeout_trips = refl

half_found : circuit halfway key ≡ half
unfolding circuit get
half_found = refl

threshold_opens_example :
    (circuit (fail_all new_backend_admission key backend_config "timeout" (10 ∷ 60 ∷ [])) key).state
    ≡ opened
unfolding normalize_evaluation_window normalize_failure_threshold
threshold_opens_example =
    threshold_opens new_backend_admission key backend_config "timeout" 10 10 (60 ∷ []) refl
      timeout_trips (omega arith, omega arith, (omega arith, omega arith, tt)) (omega arith)

abbrev tripped : Transition
tripped = record { from = half_open; to = opened; reason = "timeout"; changed = true }

trips : (record_failure halfway key backend_config "timeout" 30).1 ≡ some tripped
unfolding record_failure trip_reason_enabled normalize_failure_reason trim_space to_lower fail
    circuit get recent_failures
trips = refl

-- What another broker saved, of a later trip.
abbrev later : BackendAdmission
later = record {
  circuits = (key, record half { state = opened; next_probe_at = 200 }) ∷ [];
  limits = [];
}

later_open :
    (document : BackendAdmission) (c : BackendCircuit)
    → some later ≡ some document
    → get document.circuits key ≡ some c
    → (c.state ≡ opened) × (80 ≤ c.next_probe_at)
unfolding get
later_open document c e found =
    let same : later ≡ document = ground arith in
    let here : get later.circuits key ≡ some c =
      subst (λ d. get d.circuits key ≡ some c) (sym same) found in
    ground arith

abbrev calls : List Call
calls =
    record { key = key; now = 40; warm = false; consume = true; loaded = some later }
    ∷ record { key = ("p", "other"); now = 50; warm = false; consume = true; loaded = none }
    ∷ record { key = key; now = 79; warm = true; consume = false; loaded = none }
    ∷ []

trip_blocks_example :
    DeniedAll
      (λ k. backend_config)
      (record_failure halfway key backend_config "timeout" 30).0
      key
      calls
unfolding normalize_open_duration
trip_blocks_example =
    trip_blocks (λ k. backend_config) halfway key "timeout" 30 tripped calls refl timeout_trips
      trips (later_open, ((λ d c e. absurd (ground arith)), ((λ d c e. absurd (ground arith)), tt)))
      (omega arith, (omega arith, (omega arith, tt)))

recovery_example :
    ((normalize_recovery_success_threshold breaker ≤ 2)
      × ((circuit (succeed_all 2 halfway key backend_config) key).state ≡ closed)
      × ((circuit (succeed_all 2 halfway key backend_config) key).failures ≡ []))
    ⊎ ((2 < normalize_recovery_success_threshold breaker)
        × ((circuit (succeed_all 2 halfway key backend_config) key).state ≡ half_open)
        × ((circuit (succeed_all 2 halfway key backend_config) key).recovery_successes ≡ 2))
recovery_example =
    recovery 2 halfway key backend_config refl (ap (λ c. c.state) half_found)
      (ap (λ c. c.recovery_successes) half_found)
