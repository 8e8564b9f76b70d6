-- ===== src/Admission.antt =====
-- internal/api/backend_admission.go and NormalizeFailureReason of internal/backend/failure.go: the
-- circuit breaker and the rate limit of each backend. The shared document is read and written as an
-- argument and a result, of the operations that read it and of allow; its circuits and limits stand
-- under the pool and the backend that splitAdmissionKey takes from their key, which are the ones
-- that AdmissionKey joined where the name of the pool has no slash.
pub mod RateLimit
pub mod Circuit
use unified_ephemeral_runner.Common.{
  ℕ, zero, suc, String, ◌≡◌, refl, sym, ap, ◌∙◌, subst, ◌+◌, ◌-◌, ◌*◌, ◌/◌, ◌%◌, ◌^◌, ◌≤◌, ◌<◌, ◌≢◌,
  ◌↔◌, ◌⊎◌, inl, inr, Bool, true, false, not, ◌&&◌, ◌||◌, Option, none, some, List, [], ◌∷◌, ◌++◌,
  map, arith, Comparable, ◌==◌, ==_refl, string_eq, nat_eq, pair_eq, Dict, get, erase, put,
  count_by, Unique, if◌then◌else◌, eqb, leb, ltb, Bool-cases, Option-cases, is_some, or_zero,
  ltb→lt, lt→ltb, leb→le, eqb_iff, count_by_congr, count_by-skip, count_by-put-le,
  count_by-put-le_of_false, count_by-put-le-suc, count_by-erase-le, count_by-erase-lt, get-erase,
  get-put, get-put_self, get-nil, erase-Unique, put-Unique, length, get_elem?, take, replicate,
  filter, any, sum_by, value_of, sum_by-put, length-append, length-filter-le, get_elem?-lt, overlay,
}
use unified_ephemeral_runner.Common.Text.{to_lower, trim_space}
use unified_ephemeral_runner.Model.{
  Time, Duration, second, minute, PoolName, BackendName, CircuitBreakerConfig, RateLimitConfig,
  BackendConfig, PoolConfig, AllocationRequest,
}

-- The circuit states, of which opened is the source's "open"; the empty state of a new record counts as closed.
pub data CircuitState : Type 0 where
  closed opened half_open : CircuitState

abbrev pub is_closed : CircuitState → Bool
is_closed closed = true
is_closed _ = false

abbrev pub is_open : CircuitState → Bool
is_open opened = true
is_open _ = false

abbrev pub is_half_open : CircuitState → Bool
is_half_open half_open = true
is_half_open _ = false

abbrev pub AdmissionKey : Type 0
AdmissionKey = PoolName × BackendName

pub record BackendCircuit : Type 0 where
  pub state : CircuitState
  pub failures : List Time
  pub opened_at : Time
  pub next_probe_at : Time
  pub half_open_in_flight : ℕ
  pub recovery_successes : ℕ
  pub last_transition_reason : String

pub record BackendRateLimit : Type 0 where
  pub window_start : Time
  pub used : ℕ

pub record BackendAdmission : Type 0 where
  pub circuits : Dict AdmissionKey BackendCircuit
  pub limits : Dict AdmissionKey BackendRateLimit

pub data DenyReason : Type 0 where
  circuit_open rate_limited : DenyReason

-- backendAdmissionDecision: the circuit's state, and the reason of a denial.
pub record Decision : Type 0 where
  pub allowed : Bool
  pub reason : Option DenyReason
  pub state : CircuitState

-- newBackendAdmission
abbrev pub new_backend_admission : BackendAdmission
new_backend_admission = record { circuits = []; limits = [] }

abbrev pub allowed_in : CircuitState → Decision
allowed_in state = record { allowed = true; reason = none; state = state }

abbrev pub denied_in : DenyReason → CircuitState → Decision
denied_in reason state = record { allowed = false; reason = some reason; state = state }

unfoldable pub normalize_failure_threshold : CircuitBreakerConfig → ℕ
normalize_failure_threshold cfg = if ltb 0 cfg.failure_threshold then cfg.failure_threshold else 3

unfoldable pub normalize_evaluation_window : CircuitBreakerConfig → Duration
normalize_evaluation_window cfg =
    if ltb 0 cfg.evaluation_window then cfg.evaluation_window else 5 * minute

unfoldable pub normalize_open_duration : CircuitBreakerConfig → Duration
normalize_open_duration cfg = if ltb 0 cfg.open_duration then cfg.open_duration else 2 * minute

unfoldable pub normalize_probe_interval : CircuitBreakerConfig → Duration
normalize_probe_interval cfg = if ltb 0 cfg.probe_interval then cfg.probe_interval else 30 * second

unfoldable pub normalize_recovery_success_threshold : CircuitBreakerConfig → ℕ
normalize_recovery_success_threshold cfg =
    if ltb 0 cfg.recovery_success_threshold then cfg.recovery_success_threshold else 1

unfoldable pub normalize_half_open_max_requests : CircuitBreakerConfig → ℕ
normalize_half_open_max_requests cfg =
    if ltb 0 cfg.half_open_max_requests then cfg.half_open_max_requests else 1

-- backend.NormalizeFailureReason
unfoldable pub normalize_failure_reason : String → String
normalize_failure_reason value =
    let v = to_lower (trim_space value) in
    if any (λ s. s == v) ("deadline" ∷ "deadline-exceeded" ∷ "context-deadline-exceeded" ∷ [])
    then "timeout"
    else if any (λ s. s == v) ("rate-limit" ∷ "rate-limited" ∷ "too-many-requests" ∷ [])
    then "throttled"
    else if any (λ s. s == v) ("wait" ∷ "expired" ∷ "allocation-expired" ∷ [])
    then "wait-timeout"
    else v

abbrev pub default_trip_reasons : List String
default_trip_reasons =
    "timeout" ∷ "transport-error" ∷ "throttled" ∷ "server-error" ∷ "wait-timeout" ∷ []

or_default : List String → List String
or_default [] = default_trip_reasons
or_default (r ∷ rs) = r ∷ rs

-- tripReasonEnabled
unfoldable pub trip_reason_enabled : CircuitBreakerConfig → String → Bool
unfolding or_default
trip_reason_enabled cfg reason =
    let r = normalize_failure_reason reason in
    if r == ""
    then false
    else any (λ allowed. normalize_failure_reason allowed == r) (or_default cfg.trip_reasons)

abbrev new_circuit : BackendCircuit
new_circuit = record {
  state = closed;
  failures = [];
  opened_at = 0;
  next_probe_at = 0;
  half_open_in_flight = 0;
  recovery_successes = 0;
  last_transition_reason = "";
}

-- The circuit of a key, closed when there is none yet.
unfoldable pub circuit : BackendAdmission → AdmissionKey → BackendCircuit
circuit a key = elim (get a.circuits key) [ none ↦ new_circuit | some c ↦ c ]

abbrev pub set_circuit : BackendAdmission → AdmissionKey → BackendCircuit → BackendAdmission
set_circuit a key c = record a { circuits = put a.circuits key c }

-- The decision of one circuit, and the circuit after it.
unfoldable pub decide_circuit :
    CircuitState → BackendCircuit → CircuitBreakerConfig → Time → Bool → BackendCircuit × Decision
decide_circuit opened c cfg now consume =
    if ltb now c.next_probe_at
    then (c, denied_in circuit_open opened)
    else if not consume
    then (c, allowed_in opened)
    else (
      record c { state = half_open; half_open_in_flight = 1; recovery_successes = 0 },
      allowed_in half_open,
    )
decide_circuit half_open c cfg now consume =
    if not consume
    then (c, allowed_in half_open)
    else if leb (normalize_half_open_max_requests cfg) c.half_open_in_flight
    then (c, denied_in circuit_open half_open)
    else (record c { half_open_in_flight = c.half_open_in_flight + 1 }, allowed_in half_open)
decide_circuit closed c cfg now consume = (c, allowed_in closed)

-- circuitDecision
unfoldable pub circuit_decision :
    BackendAdmission
    → AdmissionKey
    → CircuitBreakerConfig
    → Time
    → Bool
    → BackendAdmission × Decision
circuit_decision a key cfg now consume =
    let c = circuit a key in
    let r = decide_circuit c.state c cfg now consume in (set_circuit a key r.0, r.1)

-- The interval and the permits of a window, with the defaults of rateLimitDecision.
unfoldable pub window_interval : RateLimitConfig → Duration
window_interval cfg = if ltb 0 cfg.interval then cfg.interval else minute

unfoldable pub window_permits : RateLimitConfig → ℕ
window_permits cfg =
    let permits = if ltb 0 cfg.permits then cfg.permits else 1 in
    if ltb permits cfg.burst then cfg.burst else permits

-- The record of a key in the window of `now`.
unfoldable pub current_window :
    BackendAdmission → AdmissionKey → RateLimitConfig → Time → BackendRateLimit
current_window a key cfg now = elim (get a.limits key) [
  | none ↦ record { window_start = now; used = 0 }
  | some l ↦
      if eqb l.window_start 0 || leb (l.window_start + window_interval cfg) now
      then record { window_start = now; used = 0 }
      else l
]

-- rateLimitDecision
unfoldable pub rate_limit_decision :
    BackendAdmission → AdmissionKey → RateLimitConfig → Time → Bool → BackendAdmission × Decision
rate_limit_decision a key cfg now consume =
    let l = current_window a key cfg now in
    if leb (window_permits cfg) l.used
    then (record a { limits = put a.limits key l }, denied_in rate_limited closed)
    else if consume
    then (
      record a { limits = put a.limits key (record l { used = l.used + 1 }) },
      allowed_in closed,
    )
    else (record a { limits = put a.limits key l }, allowed_in closed)

unfoldable pub limited :
    BackendAdmission
    → AdmissionKey
    → BackendConfig
    → Time
    → Bool
    → Bool
    → BackendAdmission × Decision
limited a key cfg now warm consume =
    if not warm && cfg.rate_limit.enabled
    then rate_limit_decision a key cfg.rate_limit now consume
    else (a, allowed_in closed)

-- reloadShared with the document that LoadAdmissionState answers, none for an error: the circuits and
-- the limits of the document over the ones held, by the pool and the backend of their key.
unfoldable pub reload_shared : BackendAdmission → Option BackendAdmission → BackendAdmission
reload_shared a none = a
reload_shared a (some document) = record {
  circuits = overlay a.circuits document.circuits;
  limits = overlay a.limits document.limits;
}

-- What a call of allow decides by: a consuming call loads the shared document first.
unfoldable pub refreshed : BackendAdmission → Option BackendAdmission → Bool → BackendAdmission
refreshed a loaded consume = if consume then reload_shared a loaded else a

-- allow after the reload
unfoldable pub decide :
    BackendAdmission
    → AdmissionKey
    → BackendConfig
    → Time
    → Bool
    → Bool
    → BackendAdmission × Decision
decide a key cfg now warm consume =
    let r = circuit_decision a key cfg.circuit_breaker now consume in
    if not cfg.circuit_breaker.enabled
    then limited a key cfg now warm consume
    else if not r.1.allowed
    then r
    else limited r.0 key cfg now warm consume

-- backendAdmission.allow
unfoldable pub allow :
    BackendAdmission
    → Option BackendAdmission
    → AdmissionKey
    → BackendConfig
    → Time
    → Bool
    → Bool
    → BackendAdmission × Decision
allow a loaded key cfg now warm consume =
    decide (refreshed a loaded consume) key cfg now warm consume

-- The last document that allow passes to SaveAdmissionState, none when it saves nothing: a call that
-- takes a half-open slot or a permit saves what it leaves.
unfoldable pub decide_saves :
    BackendAdmission → AdmissionKey → BackendConfig → Time → Bool → Bool → Option BackendAdmission
decide_saves a key cfg now warm consume =
    let r = circuit_decision a key cfg.circuit_breaker now consume in
    let d = decide a key cfg now warm consume in
    if not consume || not d.1.allowed && (not cfg.circuit_breaker.enabled || not r.1.allowed)
    then none
    else if not warm && cfg.rate_limit.enabled && d.1.allowed
    then some d.0
    else if cfg.circuit_breaker.enabled && not (is_closed (circuit a key).state)
    then some r.0
    else none

-- What a record operation reports. recordFailure returns no reason; it is the one it was called with.
pub record Transition : Type 0 where
  pub from : CircuitState
  pub to : CircuitState
  pub reason : String
  pub changed : Bool

-- recordSuccess on a circuit; `none` is the report of no transition.
unfoldable pub succeed : BackendCircuit → CircuitBreakerConfig → BackendCircuit × Option Transition
succeed c cfg =
    let half = is_half_open c.state in
    let n = if half then c.recovery_successes + 1 else c.recovery_successes in
    let cleared = record c { failures = []; half_open_in_flight = 0; recovery_successes = n } in
    if half && ltb n (normalize_recovery_success_threshold cfg) then (cleared, none) else (
      record cleared { state = closed; recovery_successes = 0; last_transition_reason = "success" },
      some (record {
        from = c.state;
        to = closed;
        reason = "success";
        changed = not (is_closed c.state);
      }),
    )

-- recordSuccess
unfoldable pub record_success :
    BackendAdmission → AdmissionKey → BackendConfig → BackendAdmission × Option Transition
record_success a key cfg =
    let r = succeed (circuit a key) cfg.circuit_breaker in
    if not cfg.circuit_breaker.enabled then (a, none) else (set_circuit a key r.0, r.1)

-- recordProbeSuccess on a circuit
unfoldable pub succeed_probe :
    BackendCircuit → CircuitBreakerConfig → Time → BackendCircuit × Option Transition
succeed_probe c cfg now =
    let n = c.recovery_successes + 1 in
    if is_closed c.state
    then (c, none)
    else if ltb n (normalize_recovery_success_threshold cfg)
    then (
      record c { recovery_successes = n; next_probe_at = now + normalize_probe_interval cfg },
      none,
    )
    else (
      record c {
        state = closed;
        failures = [];
        half_open_in_flight = 0;
        recovery_successes = 0;
        last_transition_reason = "probe-success";
      },
      some (record { from = c.state; to = closed; reason = "probe-success"; changed = true }),
    )

-- recordProbeSuccess
unfoldable pub record_probe_success :
    BackendAdmission → AdmissionKey → BackendConfig → Time → BackendAdmission × Option Transition
record_probe_success a key cfg now =
    let r = succeed_probe (circuit a key) cfg.circuit_breaker now in
    if not cfg.circuit_breaker.enabled then (a, none) else (set_circuit a key r.0, r.1)

-- The failures of the evaluation window, with the one of `now` at the end.
unfoldable pub recent_failures : BackendCircuit → CircuitBreakerConfig → Time → List Time
recent_failures c cfg now =
    filter (λ failure. not (ltb failure (now - normalize_evaluation_window cfg))) c.failures
    ++ (now ∷ [])

-- recordFailure on a circuit, for a reason that trips it
unfoldable pub fail :
    BackendCircuit → CircuitBreakerConfig → String → Time → BackendCircuit × Option Transition
fail c cfg reason now =
    let failures = recent_failures c cfg now in
    let counted = record c {
      failures = failures;
      half_open_in_flight = 0;
      recovery_successes = 0;
    } in
    if is_half_open c.state || leb (normalize_failure_threshold cfg) (length failures)
    then (
      record counted {
        state = opened;
        opened_at = now;
        next_probe_at = now + normalize_open_duration cfg;
        last_transition_reason = reason;
      },
      some (record {
        from = c.state;
        to = opened;
        reason = reason;
        changed = not (is_open c.state);
      }),
    )
    else (counted, none)

-- recordFailure
unfoldable pub record_failure :
    BackendAdmission
    → AdmissionKey
    → BackendConfig
    → String
    → Time
    → BackendAdmission × Option Transition
record_failure a key cfg reason now =
    let normalized = normalize_failure_reason reason in
    let r = fail (circuit a key) cfg.circuit_breaker normalized now in
    if not cfg.circuit_breaker.enabled || not (trip_reason_enabled cfg.circuit_breaker normalized)
    then (a, none)
    else (set_circuit a key r.0, r.1)

-- probeDue
unfoldable pub probe_due : BackendAdmission → AdmissionKey → BackendConfig → Time → Bool
probe_due a key cfg now =
    if not cfg.circuit_breaker.enabled
    then false
    else is_open (circuit a key).state && not (ltb now (circuit a key).next_probe_at)

-- deferProbe
unfoldable pub defer_probe :
    BackendAdmission → AdmissionKey → CircuitBreakerConfig → Time → String → BackendAdmission
defer_probe a key cfg now reason = set_circuit a key (record (circuit a key) {
  state = opened;
  next_probe_at = now + normalize_probe_interval cfg;
  recovery_successes = 0;
  half_open_in_flight = 0;
  last_transition_reason = reason;
})
