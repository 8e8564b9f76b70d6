-- ===== src/Service/Filters.antt =====
-- internal/api/service.go: the filters of a pool by the capabilities and the time of a request, and
-- the lanes of a pool, the cluster's own backends before the clouds.
pub mod Loops
pub mod Narrow
use unified_ephemeral_runner.Common.{
  String, ◌+◌, ◌⊎◌, inl, inr, Bool, not, ◌&&◌, none, some, List, [], ◌∷◌, ◌++◌, ◌==◌, string_eq,
  nat_eq, Dict, get, if◌then◌else◌, eqb, ltb, is_some, length, filter, any,
}
use unified_ephemeral_runner.Capabilities.{contains_capability, normalize_capabilities}
use unified_ephemeral_runner.Model.{
  Duration, BackendName, BackendConfig, PoolConfig, AllocationRequest,
}

pub data FilterError : Type 0 where
  unknown_backend no_matching_capabilities exceeds_backend_limit no_capacity : FilterError

-- The two loops, that end at the first capability that decides.
unfoldable pub backend_matches_capabilities : BackendConfig → List String → List String → Bool
backend_matches_capabilities cfg required excluded =
    let capabilities = normalize_capabilities cfg.capabilities in
    not (any (λ c. not (contains_capability capabilities c)) required)
    && not (any (λ c. contains_capability capabilities c) excluded)

abbrev pub with_normal_capabilities : BackendConfig → BackendConfig
with_normal_capabilities cfg = record cfg { capabilities = normalize_capabilities cfg.capabilities }

unfoldable pub eligible_each :
    List String → List String → Dict BackendName BackendConfig → Dict BackendName BackendConfig
eligible_each required excluded [] = []
eligible_each required excluded ((name, cfg) ∷ backends) =
    let rest = eligible_each required excluded backends in
    let cfg' = with_normal_capabilities cfg in
    if backend_matches_capabilities cfg' required excluded then (name, cfg') ∷ rest else rest

-- The end of a filter: what it does to a pinned backend, and to a pool with no backend left.
abbrev pub filtered_pool :
    PoolConfig
    → Dict BackendName BackendConfig
    → AllocationRequest
    → FilterError
    → FilterError
    → FilterError ⊎ PoolConfig
filtered_pool pool kept request dropped emptied = elim request.backend [
  | some backend ↦
      if not (is_some (get pool.backends backend))
      then inl unknown_backend
      else if not (is_some (get kept backend))
      then inl dropped
      else inr (record pool { backends = kept })
  | none ↦ if eqb (length kept) 0 then inl emptied else inr (record pool { backends = kept })
]

-- filterEligibleBackends
unfoldable pub filter_eligible_backends : PoolConfig → AllocationRequest → FilterError ⊎ PoolConfig
filter_eligible_backends pool request =
    let required = normalize_capabilities request.required_capabilities in
    let excluded = normalize_capabilities request.excluded_capabilities in
    if eqb (length required) 0 && eqb (length excluded) 0
    then inr pool
    else filtered_pool pool (eligible_each required excluded pool.backends) request
        no_matching_capabilities no_matching_capabilities

abbrev pub is_too_long : Duration → BackendConfig → Bool
is_too_long timeout cfg = ltb 0 cfg.max_job_duration && ltb cfg.max_job_duration timeout

unfoldable pub in_time_each :
    Duration → Dict BackendName BackendConfig → Dict BackendName BackendConfig
in_time_each timeout [] = []
in_time_each timeout ((name, cfg) ∷ backends) =
    let rest = in_time_each timeout backends in
    if is_too_long timeout cfg then rest else (name, cfg) ∷ rest

-- filterBackendsByTimeout; a pinned backend is dropped exactly when its own limit is exceeded.
unfoldable pub filter_backends_by_timeout :
    PoolConfig → AllocationRequest → FilterError ⊎ PoolConfig
filter_backends_by_timeout pool request =
    let kept = in_time_each request.job_timeout pool.backends in
    if eqb request.job_timeout 0 then inr pool else elim request.backend [
      | some backend ↦ elim (get pool.backends backend) [
        | none ↦ inl unknown_backend
        | some cfg ↦
            if is_too_long request.job_timeout cfg
            then inl exceeds_backend_limit
            else inr (record pool { backends = kept })
      ]
      | none ↦
          if eqb (length kept) 0 then inl no_capacity else inr (record pool { backends = kept })
    ]

-- isCloudFallback
unfoldable pub is_cloud_fallback : BackendName → Bool
is_cloud_fallback name =
    any (λ cloud. cloud == name)
      ("azure-vm" ∷ "azure-functions" ∷ "ec2" ∷ "gce" ∷ "cloud-run" ∷ "lambda" ∷ "codebuild" ∷ [])

abbrev pub has_slots : BackendConfig → Bool
has_slots cfg = cfg.enabled && cfg.healthy && ltb 0 cfg.max_runners

-- hasFallbackBackend
unfoldable pub has_fallback_backend : PoolConfig → Bool
has_fallback_backend pool = any (λ entry. not (entry.0 == "arc") && has_slots entry.1) pool.backends

-- fallbackBackends
unfoldable pub fallback_backends : PoolConfig → PoolConfig
unfolding is_cloud_fallback
fallback_backends pool = record pool {
  backends =
      filter (λ entry. is_cloud_fallback entry.0) pool.backends
      ++ filter (λ entry. not (entry.0 == "arc") && not (is_cloud_fallback entry.0)) pool.backends;
}

-- localBackends
unfoldable pub local_backends : PoolConfig → PoolConfig
unfolding is_cloud_fallback
local_backends pool = record pool {
  backends =
      filter
        (λ entry. not (entry.0 == "arc") && not (is_cloud_fallback entry.0) && has_slots entry.1)
        pool.backends;
}

-- withoutBackend
unfoldable pub without_backend : PoolConfig → BackendName → PoolConfig
without_backend pool name = record pool {
  backends = filter (λ entry. not (entry.0 == name)) pool.backends;
}
