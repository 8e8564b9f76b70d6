-- ===== src/Admission/Circuit/Reach.antt =====
-- The half-open slots over every sequence of operations.
use unified_ephemeral_runner.Common.{
  String, ◌≡◌, sym, subst, ◌≤◌, ◌⊎◌, inl, inr, Bool, arith, ◌==◌, string_eq, nat_eq, pair_eq,
  Bool-cases, true, false, get-nil, none, some, get, Option-cases, refl,
}
use unified_ephemeral_runner.Model.{Time, BackendConfig, CircuitBreakerConfig}
use unified_ephemeral_runner.Admission.{
  CircuitState, closed, opened, half_open, AdmissionKey, BackendCircuit, BackendAdmission,
  new_backend_admission, circuit, set_circuit, decide_circuit, circuit_decision, limited, allow,
  decide, refreshed, reload_shared, succeed, record_success, succeed_probe, record_probe_success,
  fail, record_failure, defer_probe, normalize_half_open_max_requests, normalize_failure_reason,
}
use unified_ephemeral_runner.Admission.Circuit.Decisions.{
  circuit-set_circuit, circuit-limited, circuit-reload_shared,
}

module _ (configs : AdmissionKey → BackendConfig) where
  -- No circuit counts more calls in flight than its halfOpenMaxRequests.
  abbrev pub SlotsBounded : BackendAdmission → Type 0
  SlotsBounded a =
      (key : AdmissionKey)
      → (circuit a key).half_open_in_flight
        ≤ normalize_half_open_max_requests (configs key).circuit_breaker

  -- One operation of the broker; each uses the configuration of its backend.
  pub data Step : BackendAdmission → BackendAdmission → Type 0 where
    -- the calls of circuitDecision and of allow that load no document
    deciding :
        (a : BackendAdmission) (key : AdmissionKey) (now : Time) (consume : Bool)
        → Step a (circuit_decision a key (configs key).circuit_breaker now consume).0
    allowing :
        (a : BackendAdmission) (key : AdmissionKey) (now : Time) (warm consume : Bool)
        → Step a (allow a none key (configs key) now warm consume).0
    succeeding :
        (a : BackendAdmission) (key : AdmissionKey) → Step a (record_success a key (configs key)).0
    probed :
        (a : BackendAdmission) (key : AdmissionKey) (now : Time)
        → Step a (record_probe_success a key (configs key) now).0
    failing :
        (a : BackendAdmission) (key : AdmissionKey) (reason : String) (now : Time)
        → Step a (record_failure a key (configs key) reason now).0
    deferring :
        (a : BackendAdmission) (key : AdmissionKey) (now : Time) (reason : String)
        → Step a (defer_probe a key (configs key).circuit_breaker now reason)

  pub data Reach : BackendAdmission → Type 0 where
    starts : Reach new_backend_admission
    steps : (a b : BackendAdmission) → Reach a → Step a b → Reach b
    -- A document that any of the brokers saved in any state is loaded, before a call of allow too.
    reloads :
        (a document : BackendAdmission)
        → Reach a
        → Reach document
        → Reach (reload_shared a (some document))

  set-SlotsBounded :
      (a : BackendAdmission) (key : AdmissionKey) (c : BackendCircuit)
      → SlotsBounded a
      → c.half_open_in_flight ≤ normalize_half_open_max_requests (configs key).circuit_breaker
      → SlotsBounded (set_circuit a key c)
  set-SlotsBounded a key c bounded le other = elim (Bool-cases (key == other)) [
    | inl e ↦
        let same : key ≡ other = (pair_eq.agrees_iff key other).0 e in
        ground (arith, circuit-set_circuit a key c other)
    | inr e ↦ ground (arith, circuit-set_circuit a key c other, bounded other)
  ]

  decide_circuit-le :
      (state : CircuitState) (c : BackendCircuit) (cfg : CircuitBreakerConfig) (now : Time)
      (consume : Bool)
      → c.half_open_in_flight ≤ normalize_half_open_max_requests cfg
      → (decide_circuit state c cfg now consume).0.half_open_in_flight
        ≤ normalize_half_open_max_requests cfg
  unfolding decide_circuit normalize_half_open_max_requests
  decide_circuit-le closed c cfg now consume le = le
  decide_circuit-le opened c cfg now consume le = ground arith
  decide_circuit-le half_open c cfg now consume le = ground arith

  limited-SlotsBounded :
      (a : BackendAdmission) (key : AdmissionKey) (cfg : BackendConfig) (now : Time)
      (warm consume : Bool)
      → SlotsBounded a
      → SlotsBounded (limited a key cfg now warm consume).0
  limited-SlotsBounded a key cfg now warm consume bounded other =
      subst
        (λ c.
          c.half_open_in_flight ≤ normalize_half_open_max_requests (configs other).circuit_breaker)
        (sym (circuit-limited a key cfg now warm consume other)) (bounded other)

  decide_cases :
      (a : BackendAdmission) (key : AdmissionKey) (cfg : BackendConfig) (now : Time)
      (warm consume : Bool)
      → ((decide a key cfg now warm consume).0 ≡ (limited a key cfg now warm consume).0)
        ⊎ (((decide a key cfg now warm consume).0
              ≡ (circuit_decision a key cfg.circuit_breaker now consume).0)
            ⊎ ((decide a key cfg now warm consume).0
                ≡ (limited
                    (circuit_decision a key cfg.circuit_breaker now consume).0
                    key
                    cfg
                    now
                    warm
                    consume).0))
  unfolding decide
  decide_cases a key cfg now warm consume = elim (Bool-cases cfg.circuit_breaker.enabled) [
    | inr e ↦ inl (ground arith)
    | inl e ↦ elim (Bool-cases (circuit_decision a key cfg.circuit_breaker now consume).1.allowed) [
      | inl granted ↦ inr (inr (ground arith))
      | inr denied ↦ inr (inl (ground arith))
    ]
  ]

  decision-SlotsBounded :
      (a : BackendAdmission) (key : AdmissionKey) (now : Time) (consume : Bool)
      → SlotsBounded a
      → SlotsBounded (circuit_decision a key (configs key).circuit_breaker now consume).0
  unfolding circuit_decision
  decision-SlotsBounded a key now consume bounded =
      set-SlotsBounded a key
        (decide_circuit (circuit a key).state (circuit a key) (configs key).circuit_breaker now
          consume).0
        bounded
        (decide_circuit-le (circuit a key).state (circuit a key) (configs key).circuit_breaker now
          consume (bounded key))

  refreshed_alone : (a : BackendAdmission) (consume : Bool) → refreshed a none consume ≡ a
  unfolding refreshed reload_shared
  refreshed_alone a true = refl
  refreshed_alone a false = refl

  decide-SlotsBounded :
      (a : BackendAdmission) (key : AdmissionKey) (now : Time) (warm consume : Bool)
      → SlotsBounded a
      → SlotsBounded (decide a key (configs key) now warm consume).0
  decide-SlotsBounded a key now warm consume bounded =
      let decided = decision-SlotsBounded a key now consume bounded in
      elim (decide_cases a key (configs key) now warm consume) [
        | inl e ↦
            subst SlotsBounded (sym e)
              (limited-SlotsBounded a key (configs key) now warm consume bounded)
        | inr (inl e) ↦ subst SlotsBounded (sym e) decided
        | inr (inr e) ↦
            subst SlotsBounded (sym e)
              (limited-SlotsBounded _ key (configs key) now warm consume decided)
      ]

  allow-SlotsBounded :
      (a : BackendAdmission) (key : AdmissionKey) (now : Time) (warm consume : Bool)
      → SlotsBounded a
      → SlotsBounded (allow a none key (configs key) now warm consume).0
  unfolding allow
  allow-SlotsBounded a key now warm consume bounded =
      rw (allow, refreshed_alone a consume) (decide-SlotsBounded a key now warm consume bounded)

  reload-SlotsBounded :
      (a document : BackendAdmission)
      → SlotsBounded a
      → SlotsBounded document
      → SlotsBounded (reload_shared a (some document))
  unfolding circuit
  reload-SlotsBounded a document bounded saved key =
      subst
        (λ c.
          c.half_open_in_flight ≤ normalize_half_open_max_requests (configs key).circuit_breaker)
        (sym (circuit-reload_shared a document key))
        (elim (Option-cases (get document.circuits key)) [
          | inl e ↦ rw e (bounded key)
          | inr (c, e) ↦
              let found : circuit document key ≡ c = rw (circuit, e) refl in
              rw (e, ← found) (saved key)
        ])

  -- The operations that set one circuit, or none.
  set_or_keep :
      (a b : BackendAdmission) (key : AdmissionKey) (c : BackendCircuit)
      → SlotsBounded a
      → (b ≡ a) ⊎ (b ≡ set_circuit a key c)
      → c.half_open_in_flight ≤ normalize_half_open_max_requests (configs key).circuit_breaker
      → SlotsBounded b
  set_or_keep a b key c bounded (inl e) le = subst SlotsBounded (sym e) bounded
  set_or_keep a b key c bounded (inr e) le =
      subst SlotsBounded (sym e) (set-SlotsBounded a key c bounded le)

  success_cases :
      (a : BackendAdmission) (key : AdmissionKey) (cfg : BackendConfig)
      → ((record_success a key cfg).0 ≡ a)
        ⊎ ((record_success a key cfg).0
            ≡ set_circuit a key (succeed (circuit a key) cfg.circuit_breaker).0)
  unfolding record_success
  success_cases a key cfg = ground arith

  probe_cases :
      (a : BackendAdmission) (key : AdmissionKey) (cfg : BackendConfig) (now : Time)
      → ((record_probe_success a key cfg now).0 ≡ a)
        ⊎ ((record_probe_success a key cfg now).0
            ≡ set_circuit a key (succeed_probe (circuit a key) cfg.circuit_breaker now).0)
  unfolding record_probe_success
  probe_cases a key cfg now = ground arith

  failure_cases :
      (a : BackendAdmission) (key : AdmissionKey) (cfg : BackendConfig) (reason : String)
      (now : Time)
      → ((record_failure a key cfg reason now).0 ≡ a)
        ⊎ ((record_failure a key cfg reason now).0
            ≡ set_circuit a key
                (fail (circuit a key) cfg.circuit_breaker (normalize_failure_reason reason) now).0)
  unfolding record_failure
  failure_cases a key cfg reason now = ground arith

  Step-SlotsBounded : (a b : BackendAdmission) → SlotsBounded a → Step a b → SlotsBounded b
  unfolding succeed succeed_probe fail defer_probe
  Step-SlotsBounded _ _ bounded (deciding a key now consume) =
      decision-SlotsBounded a key now consume bounded
  Step-SlotsBounded _ _ bounded (allowing a key now warm consume) =
      allow-SlotsBounded a key now warm consume bounded
  Step-SlotsBounded _ _ bounded (succeeding a key) =
      set_or_keep a _ key _ bounded (success_cases a key (configs key)) (ground arith)
  Step-SlotsBounded _ _ bounded (probed a key now) =
      set_or_keep a _ key _ bounded (probe_cases a key (configs key) now)
        (ground (arith, bounded key))
  Step-SlotsBounded _ _ bounded (failing a key reason now) =
      set_or_keep a _ key _ bounded (failure_cases a key (configs key) reason now) (ground arith)
  Step-SlotsBounded _ _ bounded (deferring a key now reason) =
      set-SlotsBounded a key _ bounded (omega arith)

  -- After every sequence of operations of one or more brokers from a new admission state, in which
  -- each uses the configuration of its backend and loads no document or one that a broker saved
  -- after such operations, the counter of calls in flight of every circuit is at most its
  -- halfOpenMaxRequests. (recordSuccess sets the counter back to zero, whatever is in flight.)
  pub half_open_bounded : (a : BackendAdmission) → Reach a → SlotsBounded a
  unfolding circuit
  half_open_bounded _ starts = λ key. rw (circuit, get-nil BackendCircuit key) (omega arith)
  half_open_bounded _ (steps a b reach step) =
      Step-SlotsBounded a b (half_open_bounded a reach) step
  half_open_bounded _ (reloads a document reach saved) =
      reload-SlotsBounded a document (half_open_bounded a reach) (half_open_bounded document saved)
