-- ===== src/Admission/Circuit/Decisions.antt =====
-- The circuit of a key after each operation of backendAdmission, and what allow decides on it.
use unified_ephemeral_runner.Common.{
  ◌≡◌, refl, ◌∙◌, else_of, none, some, get, false, Option-cases, get-overlay, ◌<◌, inl, inr, Bool,
  true, arith, ◌==◌, ==_refl, string_eq, nat_eq, pair_eq, if◌then◌else◌, Bool-cases, get-put,
}
use unified_ephemeral_runner.Model.{Time, BackendConfig}
use unified_ephemeral_runner.Admission.{
  opened, AdmissionKey, BackendCircuit, BackendAdmission, circuit_open, circuit, set_circuit,
  decide_circuit, circuit_decision, rate_limit_decision, limited, decide, reload_shared, denied_in,
}

pub circuit-set_circuit :
    (a : BackendAdmission) (key : AdmissionKey) (c : BackendCircuit) (other : AdmissionKey)
    → circuit (set_circuit a key c) other ≡ (if key == other then c else circuit a other)
unfolding circuit
circuit-set_circuit a key c other = elim (Bool-cases (key == other)) [
  | inl e ↦ rw (circuit, get-put a.circuits key c other, e) refl
  | inr e ↦ rw (circuit, get-put a.circuits key c other, e) refl
]

pub circuit-set_circuit_self :
    (a : BackendAdmission) (key : AdmissionKey) (c : BackendCircuit)
    → circuit (set_circuit a key c) key ≡ c
circuit-set_circuit_self a key c = rw (circuit-set_circuit a key c key, ==_refl key) refl

-- The rate limit changes no circuit.
pub circuit-limited :
    (a : BackendAdmission) (key : AdmissionKey) (cfg : BackendConfig) (now : Time)
    (warm consume : Bool) (other : AdmissionKey)
    → circuit (limited a key cfg now warm consume).0 other ≡ circuit a other
unfolding limited rate_limit_decision circuit
circuit-limited a key cfg now warm consume other = ground arith

-- The circuit of the document, where it has one.
pub circuit-reload_shared :
    (a document : BackendAdmission) (key : AdmissionKey)
    → circuit (reload_shared a (some document)) key
      ≡ elim (get document.circuits key) [ none ↦ circuit a key | some c ↦ c ]
unfolding reload_shared circuit
circuit-reload_shared a document key = elim (Option-cases (get document.circuits key)) [
  | inl e ↦ rw (circuit, get-overlay a.circuits document.circuits key, e) refl
  | inr (c, e) ↦ rw (circuit, get-overlay a.circuits document.circuits key, e) refl
]

-- An open circuit before its next probe keeps its state when it denies.
pub open_denies :
    (a : BackendAdmission) (key : AdmissionKey) (cfg : BackendConfig) (now : Time)
    (warm consume : Bool)
    → cfg.circuit_breaker.enabled ≡ true
    → (circuit a key).state ≡ opened
    → now < (circuit a key).next_probe_at
    → ((decide a key cfg now warm consume).1 ≡ denied_in circuit_open opened)
      × (circuit (decide a key cfg now warm consume).0 key ≡ circuit a key)
unfolding decide circuit_decision decide_circuit
open_denies a key cfg now warm consume enabled state early =
    ground (arith, circuit-set_circuit_self a key (circuit a key))

-- A call for one backend leaves the circuits of the others.
pub circuit-decide_other :
    (a : BackendAdmission) (key other : AdmissionKey) (cfg : BackendConfig) (now : Time)
    (warm consume : Bool)
    → (key == other) ≡ false
    → circuit (decide a key cfg now warm consume).0 other ≡ circuit a other
unfolding decide circuit_decision
circuit-decide_other a key other cfg now warm consume differs =
    let c =
      (decide_circuit (circuit a key).state (circuit a key) cfg.circuit_breaker now consume).0 in
    let set : circuit (set_circuit a key c) other ≡ circuit a other =
      circuit-set_circuit a key c other ∙ else_of (key == other) _ _ differs in
    let left = circuit-limited a key cfg now warm consume other in
    let both = circuit-limited (set_circuit a key c) key cfg now warm consume other in ground arith
