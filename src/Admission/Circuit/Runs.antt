-- ===== src/Admission/Circuit/Runs.antt =====
-- Runs of failures, of successes and of calls on one circuit.
use unified_ephemeral_runner.Common.{
  ℕ, zero, suc, String, ◌≡◌, refl, sym, ◌∙◌, ◌==◌, ==_refl, get, Option, none, false, Bool-cases,
  Option-cases, subst, ◌+◌, ◌-◌, ◌≤◌, ◌<◌, ◌⊎◌, inl, inr, Bool, true, not, some, List, [], ◌∷◌,
  ◌++◌, arith, string_eq, nat_eq, pair_eq, if◌then◌else◌, leb, ltb, length, filter,
}
use unified_ephemeral_runner.Model.{Time, BackendConfig}
use unified_ephemeral_runner.Admission.{
  closed, opened, half_open, AdmissionKey, BackendAdmission, BackendCircuit, Decision, Transition,
  circuit_open, denied_in, circuit, allow, decide, refreshed, reload_shared, succeed,
  record_success, fail, record_failure, recent_failures, trip_reason_enabled,
  normalize_failure_reason, normalize_failure_threshold, normalize_evaluation_window,
  normalize_open_duration, normalize_recovery_success_threshold,
}
use unified_ephemeral_runner.Admission.RateLimit.{AllIn}
use unified_ephemeral_runner.Admission.Circuit.Decisions.{
  circuit-set_circuit_self, circuit-reload_shared, circuit-decide_other, open_denies,
}

-- A call of allow for a backend, and the document that a consuming one loads, none for an error.
pub record Call : Type 0 where
  pub key : AdmissionKey
  pub now : Time
  pub warm : Bool
  pub consume : Bool
  pub loaded : Option BackendAdmission

module _ (configs : AdmissionKey → BackendConfig) where
  abbrev pub run : BackendAdmission → Call → BackendAdmission × Decision
  run a call = allow a call.loaded call.key (configs call.key) call.now call.warm call.consume

  -- Each of these calls, one after the other, is denied if it is for the backend of `key`.
  abbrev pub DeniedAll : BackendAdmission → AdmissionKey → List Call → Type 0
  DeniedAll a key [] = Unit
  DeniedAll a key (call ∷ calls) =
      ((call.key ≡ key) → (run a call).1 ≡ denied_in circuit_open opened)
      × DeniedAll (run a call).0 key calls

  -- No document that is loaded has the circuit of `key` in another state than open, or with a next
  -- probe before `t`.
  abbrev pub KeepsOpen : AdmissionKey → Time → List Call → Type 0
  KeepsOpen key t [] = Unit
  KeepsOpen key t (call ∷ calls) =
      ((document : BackendAdmission) (c : BackendCircuit)
        → call.loaded ≡ some document
        → get document.circuits key ≡ some c
        → (c.state ≡ opened) × (t ≤ c.next_probe_at))
      × KeepsOpen key t calls

  abbrev pub Before : Time → List Call → Type 0
  Before t [] = Unit
  Before t (call ∷ calls) = (call.now < t) × Before t calls

  -- An open circuit, with its next probe at `t` or later.
  abbrev IsOpen : BackendAdmission → AdmissionKey → Time → Type 0
  IsOpen a key t = ((circuit a key).state ≡ opened) × (t ≤ (circuit a key).next_probe_at)

  refreshed-IsOpen :
      (a : BackendAdmission) (key : AdmissionKey) (t : Time) (loaded : Option BackendAdmission)
      (consume : Bool)
      → IsOpen a key t
      → ((document : BackendAdmission) (c : BackendCircuit)
          → loaded ≡ some document
          → get document.circuits key ≡ some c
          → (c.state ≡ opened) × (t ≤ c.next_probe_at))
      → IsOpen (refreshed a loaded consume) key t
  unfolding refreshed reload_shared
  refreshed-IsOpen a key t loaded false on keeps = on
  refreshed-IsOpen a key t none true on keeps = on
  refreshed-IsOpen a key t (some document) true on keeps =
      let found = circuit-reload_shared a document key in
      elim (Option-cases (get document.circuits key)) [
        | inl e ↦
            let same : circuit (reload_shared a (some document)) key ≡ circuit a key =
              rw (found, e) refl in
            subst (λ c. (c.state ≡ opened) × (t ≤ c.next_probe_at)) (sym same) on
        | inr (c, e) ↦
            let same : circuit (reload_shared a (some document)) key ≡ c = rw (found, e) refl in
            subst (λ c. (c.state ≡ opened) × (t ≤ c.next_probe_at)) (sym same)
              (keeps document c refl e)
      ]

  different : (k key : AdmissionKey) → (k == key) ≡ false → k ≡ key → ⊥
  different k key e same =
      let equal : (k == key) ≡ true = rw same (==_refl key) in
      absurd (ground (arith, sym equal ∙ e))

  denied_while-IsOpen :
      (a : BackendAdmission) (key : AdmissionKey) (t : Time) (call : Call)
      → (configs key).circuit_breaker.enabled ≡ true
      → IsOpen a key t
      → call.now < t
      → ((call.key ≡ key)
          → (decide a call.key (configs call.key) call.now call.warm call.consume).1
            ≡ denied_in circuit_open opened)
        × IsOpen (decide a call.key (configs call.key) call.now call.warm call.consume).0 key t
  denied_while-IsOpen a key t call enabled (state, probe) lt = elim (Bool-cases (call.key == key)) [
    | inl e ↦
        let same : call.key ≡ key = (pair_eq.agrees_iff call.key key).0 e in
        let (denied, kept) =
          open_denies a key (configs key) call.now call.warm call.consume enabled state
            (omega arith) in
        rw same (
          λ _. denied,
          subst (λ c. (c.state ≡ opened) × (t ≤ c.next_probe_at)) (sym kept) (state, probe),
        )
    | inr e ↦
        let kept =
          circuit-decide_other a call.key key (configs call.key) call.now call.warm call.consume
            e in
        (
          λ same. absurd (different call.key key e same),
          subst (λ c. (c.state ≡ opened) × (t ≤ c.next_probe_at)) (sym kept) (state, probe),
        )
  ]

  open_denies_all :
      (a : BackendAdmission) (key : AdmissionKey) (t : Time) (calls : List Call)
      → (configs key).circuit_breaker.enabled ≡ true
      → IsOpen a key t
      → KeepsOpen key t calls
      → Before t calls
      → DeniedAll a key calls
  unfolding allow
  open_denies_all a key t [] enabled on keeps before = tt
  open_denies_all a key t (call ∷ calls) enabled on (keep, keeps) (lt, before) =
      let now_open = refreshed-IsOpen a key t call.loaded call.consume on keep in
      let (denied, kept) =
        denied_while-IsOpen (refreshed a call.loaded call.consume) key t call enabled now_open lt in
      (denied, open_denies_all (run a call).0 key t calls enabled kept keeps before)

-- What recordFailure does for a reason that trips the circuit.
tripping :
    (a : BackendAdmission) (key : AdmissionKey) (cfg : BackendConfig) (reason : String) (now : Time)
    → cfg.circuit_breaker.enabled ≡ true
    → trip_reason_enabled cfg.circuit_breaker (normalize_failure_reason reason) ≡ true
    → (circuit (record_failure a key cfg reason now).0 key
        ≡ (fail (circuit a key) cfg.circuit_breaker (normalize_failure_reason reason) now).0)
      × ((record_failure a key cfg reason now).1
          ≡ (fail (circuit a key) cfg.circuit_breaker (normalize_failure_reason reason) now).1)
unfolding record_failure
tripping a key cfg reason now enabled trips =
    let set =
      circuit-set_circuit_self a key
        (fail (circuit a key) cfg.circuit_breaker (normalize_failure_reason reason) now).0 in
    ground (arith, set)

-- Once a failure at `now` has tripped the circuit of a backend with an enabled breaker, and as long
-- as only allow is called, for this and other backends, every call for this backend before `now`
-- plus the open duration is denied, warm ones and those that take no slot too; where no document
-- that a call loads has this circuit closed, half-open or with an earlier next probe.
pub trip_blocks :
    (configs : AdmissionKey → BackendConfig) (a : BackendAdmission) (key : AdmissionKey)
    (reason : String) (now : Time) (transition : Transition) (calls : List Call)
    → let cfg = (configs key).circuit_breaker in
      let t = now + normalize_open_duration cfg in
      cfg.enabled ≡ true
      → trip_reason_enabled cfg (normalize_failure_reason reason) ≡ true
      → (record_failure a key (configs key) reason now).1 ≡ some transition
      → KeepsOpen configs key t calls
      → Before configs t calls
      → DeniedAll configs (record_failure a key (configs key) reason now).0 key calls
unfolding fail
trip_blocks configs a key reason now transition calls enabled trips reported keeps before =
    let (after, report) = tripping a key (configs key) reason now enabled trips in
    open_denies_all configs (record_failure a key (configs key) reason now).0 key _ calls enabled
      (ground arith, ground arith) keeps before

-- recordFailure for one reason at these times.
abbrev pub fail_all :
    BackendAdmission → AdmissionKey → BackendConfig → String → List Time → BackendAdmission
fail_all a key cfg reason [] = a
fail_all a key cfg reason (t ∷ ts) =
    fail_all (record_failure a key cfg reason t).0 key cfg reason ts

since : Time → List Time → ℕ
since first [] = 0
since first (t ∷ ts) = let rest = since first ts in if leb first t then suc rest else rest

since-le-length : (first : Time) (ts : List Time) → since first ts ≤ length ts
unfolding since
since-le-length first [] = omega arith
since-le-length first (t ∷ ts) = ground (arith, since-le-length first ts)

since-recent :
    (first now cutoff : Time) (ts : List Time)
    → first ≤ now
    → cutoff ≤ first
    → since first (filter (λ t. not (ltb t cutoff)) ts ++ (now ∷ [])) ≡ since first ts + 1
unfolding since
since-recent first now cutoff [] le old = ground arith
since-recent first now cutoff (t ∷ ts) le old =
    ground (arith, since-recent first now cutoff ts le old)

fails_open :
    (a : BackendAdmission) (key : AdmissionKey) (cfg : BackendConfig) (reason : String)
    (first t : Time) (ts : List Time)
    → cfg.circuit_breaker.enabled ≡ true
    → trip_reason_enabled cfg.circuit_breaker (normalize_failure_reason reason) ≡ true
    → AllIn first (first + normalize_evaluation_window cfg.circuit_breaker + 1) (t ∷ ts)
    → normalize_failure_threshold cfg.circuit_breaker
      ≤ since first (circuit a key).failures + length (t ∷ ts)
    → (circuit (fail_all a key cfg reason (t ∷ ts)) key).state ≡ opened
unfolding fail recent_failures
fails_open a key cfg reason first t [] enabled trips (ge, lt, all) enough =
    let (after, report) = tripping a key cfg reason t enabled trips in
    let counted =
      since-recent first t (t - normalize_evaluation_window cfg.circuit_breaker)
        (circuit a key).failures ge (omega arith) in
    let long = since-le-length first (recent_failures (circuit a key) cfg.circuit_breaker t) in
    ground arith
fails_open a key cfg reason first t (u ∷ ts) enabled trips (ge, lt, all) enough =
    let (after, report) = tripping a key cfg reason t enabled trips in
    let counted =
      since-recent first t (t - normalize_evaluation_window cfg.circuit_breaker)
        (circuit a key).failures ge (omega arith) in
    let kept : (circuit (record_failure a key cfg reason t).0 key).failures
        ≡ recent_failures (circuit a key) cfg.circuit_breaker t =
      ground arith in
    fails_open (record_failure a key cfg reason t).0 key cfg reason first u ts enabled trips all (
      subst
        (λ fs. normalize_failure_threshold cfg.circuit_breaker ≤ since first fs + length (u ∷ ts))
        (sym kept) (omega arith))

-- As many failures as the failure threshold, for a reason that trips the circuit of an enabled
-- breaker, at times no further apart than the evaluation window, leave the circuit open, from every
-- state.
pub threshold_opens :
    (a : BackendAdmission) (key : AdmissionKey) (cfg : BackendConfig) (reason : String)
    (first t : Time) (ts : List Time)
    → cfg.circuit_breaker.enabled ≡ true
    → trip_reason_enabled cfg.circuit_breaker (normalize_failure_reason reason) ≡ true
    → AllIn first (first + normalize_evaluation_window cfg.circuit_breaker + 1) (t ∷ ts)
    → normalize_failure_threshold cfg.circuit_breaker ≤ length (t ∷ ts)
    → (circuit (fail_all a key cfg reason (t ∷ ts)) key).state ≡ opened
threshold_opens a key cfg reason first t ts enabled trips all enough =
    fails_open a key cfg reason first t ts enabled trips all (omega arith)

-- `n` calls of recordSuccess
abbrev pub succeed_all : ℕ → BackendAdmission → AdmissionKey → BackendConfig → BackendAdmission
succeed_all zero a key cfg = a
succeed_all (suc n) a key cfg = (record_success (succeed_all n a key cfg) key cfg).0

-- After `n` successes a half-open circuit without recovery successes is closed when the recovery
-- threshold is reached, with no failure on record, and else still half-open with `n` of them.
pub recovery :
    (n : ℕ) (a : BackendAdmission) (key : AdmissionKey) (cfg : BackendConfig)
    → cfg.circuit_breaker.enabled ≡ true
    → (circuit a key).state ≡ half_open
    → (circuit a key).recovery_successes ≡ 0
    → ((normalize_recovery_success_threshold cfg.circuit_breaker ≤ n)
        × ((circuit (succeed_all n a key cfg) key).state ≡ closed)
        × ((circuit (succeed_all n a key cfg) key).failures ≡ []))
      ⊎ ((n < normalize_recovery_success_threshold cfg.circuit_breaker)
          × ((circuit (succeed_all n a key cfg) key).state ≡ half_open)
          × ((circuit (succeed_all n a key cfg) key).recovery_successes ≡ n))
unfolding record_success succeed normalize_recovery_success_threshold
recovery zero a key cfg enabled state start = ground arith
recovery (suc n) a key cfg enabled state start =
    let b = succeed_all n a key cfg in
    let set = circuit-set_circuit_self b key (succeed (circuit b key) cfg.circuit_breaker).0 in
    let after : circuit (record_success b key cfg).0 key
        ≡ (succeed (circuit b key) cfg.circuit_breaker).0 =
      ground (arith, set) in
    elim (recovery n a key cfg enabled state start) [
      | inl (reached, is_closed, clear) ↦ ground arith
      | inr (below, half, counted) ↦ ground arith
    ]
