-- ===== src/Tests/Fixtures.antt =====
-- The test data.
use unified_ephemeral_runner.Common.{true, none, some, [], ◌∷◌, string_eq, nat_eq, pair_eq}
use unified_ephemeral_runner.Model.{
  reserved, CircuitBreakerConfig, RateLimitConfig, BudgetConfig, BackendConfig, FairShareConfig,
  PoolConfig, AllocationRequest, AllocationStatus,
}

abbrev pub breaker : CircuitBreakerConfig
breaker = record {
  enabled = true;
  failure_threshold = 2;
  evaluation_window = 100;
  open_duration = 50;
  probe_interval = 10;
  recovery_success_threshold = 2;
  half_open_max_requests = 1;
  trip_reasons = [];
}

abbrev pub rate : RateLimitConfig
rate = record { enabled = true; permits = 1; interval = 100; burst = 0 }

abbrev pub daily : BudgetConfig
daily = record { enabled = true; max_allocations_daily = 1; max_allocations_monthly = 0 }

abbrev pub backend_config : BackendConfig
backend_config = record {
  driver = "";
  enabled = true;
  healthy = true;
  max_runners = 2;
  cross_pool_max_runners = 2;
  weight = 2;
  cost_class = 5;
  max_job_duration = 0;
  registration_timeout = 0;
  runner_label = "";
  capabilities = [];
  circuit_breaker = breaker;
  rate_limit = rate;
  budget = daily;
}

abbrev pub full_config : BackendConfig
full_config = record backend_config { max_runners = 0 }

abbrev pub fair_share : FairShareConfig
fair_share = record {
  enabled = true;
  usage_window = 0;
  starvation_after = 10;
  priority_classes = ("high", 10) ∷ ("low", 1) ∷ [];
  soft_reserves = ("high", 1) ∷ [];
  quotas = ("team", 2) ∷ [];
}

abbrev pub pool : PoolConfig
pool = record {
  name = "p";
  labels = [];
  scheduler = "round-robin";
  fair_share = fair_share;
  backends = ("arc", backend_config) ∷ [];
}

abbrev pub full_pool : PoolConfig
full_pool = record pool { backends = ("arc", full_config) ∷ [] }

abbrev pub request : AllocationRequest
request = record {
  pool = "p";
  backend = none;
  job_timeout = 0;
  registration_timeout = 0;
  tenant = "team";
  priority_class = "low";
  labels = [];
  required_capabilities = [];
  excluded_capabilities = [];
  workflow_job_id = 7;
  target_repository = "";
}

abbrev pub pinned : AllocationRequest
pinned = record request { backend = some "arc" }

abbrev pub allocation : AllocationStatus
allocation = record {
  id = "a";
  correlation_id = "";
  pool = "p";
  selected_backend = "arc";
  runner_label = "";
  requested_labels = [];
  tenant = "team";
  priority_class = "low";
  subject = "";
  repository = "";
  owner = "";
  created_at = 5;
  registered_at = none;
  claimed_at = none;
  expires_at = 50;
  retry_after = 0;
  attempts = 0;
  state = reserved;
  error = "";
  metadata = [];
  request = some request;
}
