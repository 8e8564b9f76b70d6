-- ===== src/Tests/Filters.antt =====
-- The filters' theorem on a pool of two backends.
use unified_ephemeral_runner.Common.{◌≡◌, refl, string_eq, inr, [], ◌∷◌, get, put, erase, Unique}
use unified_ephemeral_runner.Common.Text.{to_lower, trim_space}
use unified_ephemeral_runner.Common.Sorting.{sort, insert}
use unified_ephemeral_runner.Capabilities.{normalize_capabilities, canonical_capability}
use unified_ephemeral_runner.Model.{AllocationRequest, PoolConfig}
use unified_ephemeral_runner.Scheduler.{
  ok, new_ordered_scheduler, ordered_backends, backend_available, is_candidate, ensure_pool, scan,
}
use unified_ephemeral_runner.Scheduler
use unified_ephemeral_runner.Service.Filters.{
  filter_eligible_backends, filter_backends_by_timeout, backend_matches_capabilities, eligible_each,
  in_time_each,
}
use unified_ephemeral_runner.Service.Filters.Narrow.{Fits, reserve-Fits}
use unified_ephemeral_runner.Tests.Fixtures.{backend_config, pool, request}

abbrev two_backends : PoolConfig
two_backends = record pool {
  backends =
      ("arc", record backend_config { capabilities = "Linux" ∷ "gpu" ∷ []; max_job_duration = 60 })
      ∷ ("lambda", record backend_config { capabilities = "linux" ∷ []; max_job_duration = 20 })
      ∷ [];
}

abbrev gpu_job : AllocationRequest
gpu_job = record request {
  job_timeout = 50;
  required_capabilities = "GPU" ∷ "linux" ∷ [];
  excluded_capabilities = "windows" ∷ [];
}

abbrev arc_only : PoolConfig
arc_only = record pool {
  backends =
      (
        "arc",
        record backend_config { capabilities = "gpu" ∷ "os:linux" ∷ []; max_job_duration = 60 },
      )
      ∷ [];
}

two_backends-Unique : Unique two_backends.backends
unfolding get
two_backends-Unique = (refl, (refl, tt))

gpu_eligible : filter_eligible_backends two_backends gpu_job ≡ inr arc_only
unfolding filter_eligible_backends normalize_capabilities canonical_capability
    backend_matches_capabilities eligible_each to_lower trim_space sort insert get
gpu_eligible = refl

gpu_in_time : filter_backends_by_timeout arc_only gpu_job ≡ inr arc_only
unfolding filter_backends_by_timeout in_time_each
gpu_in_time = refl

gpu_reserved :
    (Scheduler.reserve ordered_backends new_ordered_scheduler arc_only gpu_job).1 ≡ ok "arc"
unfolding Scheduler.reserve ordered_backends Scheduler.cost_class sort insert ensure_pool get put
    erase Scheduler.set_count is_candidate backend_available scan
gpu_reserved = refl

reserve-Fits_example : Fits two_backends gpu_job "arc"
reserve-Fits_example =
    reserve-Fits ordered_backends new_ordered_scheduler two_backends arc_only arc_only gpu_job "arc"
      two_backends-Unique gpu_eligible gpu_in_time gpu_reserved
