-- ===== src/Tests/Retry.antt =====
-- The theorems on retries and penalties at one job and one backend.
use unified_ephemeral_runner.Common.{
  ◌≡◌, ◌+◌, ◌≤◌, ◌<◌, ◌↔◌, true, false, [], ◌∷◌, arith, string_eq, nat_eq, pair_eq, ltb, is_some,
  length,
}
use unified_ephemeral_runner.WorkflowJobRetry.{
  workflow_job_retry_backoff, max_workflow_job_allocations, count_workflow_job_allocations,
  may_reallocate_workflow_job, note_workflow_job_reallocated, registration_expiry_cooldown,
  record_registration_expiry, record_registration_success, registration_penalized,
  filter_registration_penalized,
}
use unified_ephemeral_runner.WorkflowJobRetry.Backoff.{retry_waits}
use unified_ephemeral_runner.WorkflowJobRetry.Penalties.{cooldown, filter_keeps_some}
use unified_ephemeral_runner.Tests.Fixtures.{pool, request, allocation}

retry_waits_example :
    (may_reallocate_workflow_job
        (("a", allocation) ∷ [])
        (note_workflow_job_reallocated (("a", allocation) ∷ []) [] 7 100)
        7
        200
      ≡ true)
    ↔ ((count_workflow_job_allocations (("a", allocation) ∷ []) 7 < max_workflow_job_allocations)
        × (100
              + workflow_job_retry_backoff
                  (count_workflow_job_allocations (("a", allocation) ∷ []) 7)
            ≤ 200))
retry_waits_example = retry_waits (("a", allocation) ∷ []) (("a", allocation) ∷ []) [] 7 100 200

cooldown_example :
    (registration_penalized
        (record_registration_expiry (record_registration_expiry [] "p" "arc" 10) "p" "arc" 20)
        "p"
        "arc"
        30
      ≡ ltb 30 (20 + registration_expiry_cooldown))
    × (registration_penalized (record_registration_success [] "p" "arc") "p" "arc" 30 ≡ false)
cooldown_example = cooldown [] "p" "arc" 10 20 30

filter_keeps_some_example :
    (0 < length (filter_registration_penalized [] pool request 10).backends)
    × ((is_some request.backend ≡ true) → filter_registration_penalized [] pool request 10 ≡ pool)
filter_keeps_some_example = filter_keeps_some [] pool request 10 (omega arith)
