-- ===== src/Service/Filters/Narrow.antt =====
-- What the filters leave, and what the scheduler may then pick.
use unified_ephemeral_runner.Common.{
  String, ◌≡◌, refl, sym, ap, ◌∙◌, subst, inl, inr, Bool, true, false, not, ◌&&◌, some, List, [],
  ◌∷◌, arith, string_eq, nat_eq, pair_eq, Dict, get, Unique, eqb, Bool-cases, then_of, else_of,
  Option-cases, length,
}
use unified_ephemeral_runner.Capabilities.{normalize_capabilities}
use unified_ephemeral_runner.Model.{BackendName, BackendConfig, PoolConfig, AllocationRequest}
use unified_ephemeral_runner.Scheduler.{
  OrderedScheduler, Active, ok, is_candidate, backend_available, ensure_pool, count_of,
  active_backend_locked,
}
use unified_ephemeral_runner.Scheduler
use unified_ephemeral_runner.Scheduler.Reserve.{reserve-Granted}
use unified_ephemeral_runner.Service.Filters.{
  no_matching_capabilities, backend_matches_capabilities, with_normal_capabilities, eligible_each,
  filter_eligible_backends, is_too_long, in_time_each, filter_backends_by_timeout,
}
use unified_ephemeral_runner.Service.Filters.Loops.{
  passed, Meets, backends_or, get-eligible_each, get-in_time_each, matches-Meets,
  backends_or-filtered_pool, backends_or-filter_backends_by_timeout, passed-cases, unasked,
}

-- The backends that filter_eligible_backends leaves are backends of the pool, unchanged but for the
-- normal form of their capabilities, and each of them meets the request.
filter_eligible_backends-Meets :
    (pool pool' : PoolConfig) (request : AllocationRequest) (name : BackendName)
    (cfg' : BackendConfig)
    → Unique pool.backends
    → filter_eligible_backends pool request ≡ inr pool'
    → get pool'.backends name ≡ some cfg'
    → (cfg : BackendConfig) × (get pool.backends name ≡ some cfg)
      × (cfg' ≡ record cfg { capabilities = cfg'.capabilities })
      × Meets request (with_normal_capabilities cfg)
unfolding filter_eligible_backends backends_or
filter_eligible_backends-Meets pool pool' request name cfg' u kept there =
    elim (Bool-cases (eqb (length required) 0 && eqb (length excluded) 0)) [
      | inl free ↦
          let same : pool.backends ≡ pool'.backends =
            ap (backends_or pool.backends) (sym (then_of _ _ _ free) ∙ kept) in
          let (no_required, no_excluded) = both free in
          (
            cfg',
            ap (λ m. get m name) same ∙ there,
            refl,
            λ capability named. (
              λ asked. absurd (
                  ground (
                    arith,
                    unasked request.required_capabilities capability named no_required,
                    asked,
                  )),
              λ asked. absurd (
                  ground (
                    arith,
                    unasked request.excluded_capabilities capability named no_excluded,
                    asked,
                  )),
            ),
          )
      | inr asked ↦
          let each = eligible_each required excluded pool.backends in
          let same : each ≡ pool'.backends =
            sym (
              backends_or-filtered_pool pool each request no_matching_capabilities
                no_matching_capabilities)
            ∙ ap (backends_or each) (sym (else_of _ _ _ asked) ∙ kept) in
          let (cfg, found, changed, meets) =
            passed-cases with_normal_capabilities
              (λ cfg. backend_matches_capabilities cfg required excluded) (get pool.backends name)
              cfg'
              (sym (get-eligible_each required excluded pool.backends name u)
                ∙ ap (λ m. get m name) same
                ∙ there) in
          (
            cfg,
            found,
            changed
                ∙ ap (λ c. record cfg { capabilities = c })
                    (sym (ap (λ c. c.capabilities) changed)),
            subst (λ c. Meets request c) changed (matches-Meets cfg' request meets),
          )
    ]
  where
    required : List String
    required = normalize_capabilities request.required_capabilities

    excluded : List String
    excluded = normalize_capabilities request.excluded_capabilities

    both : {b d : Bool} → (b && d) ≡ true → (b ≡ true) × (d ≡ true)
    both {b} {d} e = ground arith

eligible_each-Unique :
    (required excluded : List String) (m : Dict BackendName BackendConfig)
    → Unique m
    → Unique (eligible_each required excluded m)
unfolding eligible_each
eligible_each-Unique required excluded [] u = tt
eligible_each-Unique required excluded ((k, cfg) ∷ m) u =
    let gone =
      get-eligible_each required excluded m k u.1
      ∙ ap (passed with_normal_capabilities (λ c. backend_matches_capabilities c required excluded))
          u.0 in
    let rest = eligible_each-Unique required excluded m u.1 in
    elim (Bool-cases
      (backend_matches_capabilities (with_normal_capabilities cfg) required excluded)) [
        | inl meets ↦ rw (meets) (gone, rest)
        | inr fails ↦ rw (fails) rest
      ]

filter_eligible_backends-Unique :
    (pool pool' : PoolConfig) (request : AllocationRequest)
    → Unique pool.backends
    → filter_eligible_backends pool request ≡ inr pool'
    → Unique pool'.backends
unfolding filter_eligible_backends backends_or
filter_eligible_backends-Unique pool pool' request u kept =
    let required = normalize_capabilities request.required_capabilities in
    let excluded = normalize_capabilities request.excluded_capabilities in
    let each = eligible_each required excluded pool.backends in
    elim (Bool-cases (eqb (length required) 0 && eqb (length excluded) 0)) [
      | inl free ↦
          subst (λ m. Unique m) (ap (backends_or pool.backends) (sym (then_of _ _ _ free) ∙ kept)) u
      | inr asked ↦
          subst (λ m. Unique m)
            (sym (
                backends_or-filtered_pool pool each request no_matching_capabilities
                  no_matching_capabilities)
              ∙ ap (backends_or each) (sym (else_of _ _ _ asked) ∙ kept))
            (eligible_each-Unique required excluded pool.backends u)
    ]

filter_backends_by_timeout-get :
    (pool pool' : PoolConfig) (request : AllocationRequest) (name : BackendName)
    (cfg : BackendConfig)
    → Unique pool.backends
    → filter_backends_by_timeout pool request ≡ inr pool'
    → get pool'.backends name ≡ some cfg
    → (get pool.backends name ≡ some cfg) × (is_too_long request.job_timeout cfg ≡ false)
unfolding backends_or filter_backends_by_timeout
filter_backends_by_timeout-get pool pool' request name cfg u kept there =
    elim (Bool-cases (eqb request.job_timeout 0)) [
      | inl free ↦
          let same : pool.backends ≡ pool'.backends =
            ap (backends_or pool.backends) (sym (then_of _ _ _ free) ∙ kept) in
          (ap (λ m. get m name) same ∙ there, ground arith)
      | inr limited ↦
          let each = in_time_each request.job_timeout pool.backends in
          let same : each ≡ pool'.backends =
            sym (backends_or-filter_backends_by_timeout pool request limited)
            ∙ ap (backends_or each) kept in
          let (old, found, equal, in_time) =
            passed-cases (λ c. c) (λ c. not (is_too_long request.job_timeout c))
              (get pool.backends name) cfg
              (sym (get-in_time_each request.job_timeout pool.backends name u)
                ∙ ap (λ m. get m name) same
                ∙ there) in
          (found ∙ ap (λ c. some c) (sym equal), ground arith)
    ]

-- The backend that is reserved.
pub record Fits (pool : PoolConfig) (request : AllocationRequest) (b : BackendName) : Type 0 where
  pub configured : BackendConfig
  pub of_pool : get pool.backends b ≡ some configured
  pub enabled : configured.enabled ≡ true
  pub healthy : configured.healthy ≡ true
  pub in_time : is_too_long request.job_timeout configured ≡ false
  pub meets : Meets request (with_normal_capabilities configured)

-- A scheduler that reserves from a pool narrowed by capabilities and by time gives a backend of the
-- pool that is enabled and healthy, has every required capability and no excluded one, and runs a job
-- as long as the request asks.
pub reserve-Fits :
    (order : PoolConfig → List BackendName) (s : OrderedScheduler)
    (pool eligible in_time : PoolConfig) (request : AllocationRequest) (b : BackendName)
    → Unique pool.backends
    → filter_eligible_backends pool request ≡ inr eligible
    → filter_backends_by_timeout eligible request ≡ inr in_time
    → (Scheduler.reserve order s in_time request).1 ≡ ok b
    → Fits pool request b
unfolding is_candidate backend_available
reserve-Fits order s pool eligible in_time request b u first second reserved =
    let (candidate, counted) = reserve-Granted order s in_time request b reserved in
    elim (Option-cases (get in_time.backends b)) [
      | inl gone ↦ absurd (ground arith)
      | inr (cfg, there) ↦
          let unique = filter_eligible_backends-Unique pool eligible request u first in
          let (before, short) =
            filter_backends_by_timeout-get eligible in_time request b cfg unique second there in
          let (configured, of_pool, changed, meets) =
            filter_eligible_backends-Meets pool eligible request b cfg u first before in
          let (on, well) = usable cfg candidate there in
          record {
            configured = configured;
            of_pool = of_pool;
            enabled = sym (ap (λ c. c.enabled) changed) ∙ on;
            healthy = sym (ap (λ c. c.healthy) changed) ∙ well;
            in_time = sym (ap (λ c. is_too_long request.job_timeout c) changed) ∙ short;
            meets = meets;
          }
    ]
  where
    usable :
        (cfg : BackendConfig)
        → is_candidate (ensure_pool s.active in_time.name) in_time b ≡ true
        → get in_time.backends b ≡ some cfg
        → (cfg.enabled ≡ true) × (cfg.healthy ≡ true)
    usable cfg candidate there = ground arith
