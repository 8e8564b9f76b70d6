-- ===== src/Model.antt =====
-- internal/model/types.go: the configuration and the allocation records that the other components
-- share. Times are nanoseconds since Go's zero time, so that 0 is the time for which IsZero holds.
-- A duration, limit, weight or threshold that the code first tests by `<= 0` or `> 0`, and uses
-- only when it is positive, is a natural number here, and its 0 stands for every value that is not
-- positive. Fields that no modelled code reads are left out of the configuration records.
use unified_ephemeral_runner.Common.{
  ℕ, String, ◌≡◌, ◌↔◌, Bool, true, Option, none, some, List, [], ◌∷◌, arith, Comparable, string_eq,
  Dict, get, if◌then◌else◌, eqb,
}
use unified_ephemeral_runner.Common.Text.{trim_space, equal_fold}

abbrev pub Time : Type 0
Time = ℕ

abbrev pub Duration : Type 0
Duration = ℕ

abbrev pub second : Duration
second = 1000000000

abbrev pub minute : Duration
minute = 60000000000

abbrev pub hour : Duration
hour = 3600000000000

abbrev pub PoolName : Type 0
PoolName = String

abbrev pub BackendName : Type 0
BackendName = String

pub data AllocationState : Type 0 where
  reserved ready warm pending canceled expired failed completed quarantined : AllocationState

abbrev pub state_code : AllocationState → ℕ
state_code reserved = 0
state_code ready = 1
state_code warm = 2
state_code pending = 3
state_code canceled = 4
state_code expired = 5
state_code failed = 6
state_code completed = 7
state_code quarantined = 8

abbrev pub state_beq : AllocationState → AllocationState → Bool
state_beq s t = eqb (state_code s) (state_code t)

pub state_beq_iff : (s t : AllocationState) → (state_beq s t ≡ true) ↔ (s ≡ t)
state_beq_iff reserved t = ground arith
state_beq_iff _ t = ground arith

instance abbrev pub state_eq : Comparable AllocationState
state_eq = record { agrees = state_beq; agrees_iff = state_beq_iff }

pub record CircuitBreakerConfig : Type 0 where
  pub enabled : Bool
  pub failure_threshold : ℕ
  pub evaluation_window : Duration
  pub open_duration : Duration
  pub probe_interval : Duration
  pub recovery_success_threshold : ℕ
  pub half_open_max_requests : ℕ
  pub trip_reasons : List String

pub record RateLimitConfig : Type 0 where
  pub enabled : Bool
  pub permits : ℕ
  pub interval : Duration
  pub burst : ℕ

pub record BudgetConfig : Type 0 where
  pub enabled : Bool
  pub max_allocations_daily : ℕ
  pub max_allocations_monthly : ℕ

pub record BackendConfig : Type 0 where
  pub driver : String
  pub enabled : Bool
  pub healthy : Bool
  pub max_runners : ℕ
  pub cross_pool_max_runners : ℕ
  pub weight : ℕ
  pub cost_class : ℕ
  pub max_job_duration : Duration
  pub registration_timeout : Duration
  pub runner_label : String
  pub capabilities : List String
  pub circuit_breaker : CircuitBreakerConfig
  pub rate_limit : RateLimitConfig
  pub budget : BudgetConfig

pub record FairShareConfig : Type 0 where
  pub enabled : Bool
  pub usage_window : Duration
  pub starvation_after : Duration
  pub priority_classes : Dict String ℕ
  pub soft_reserves : Dict String ℕ
  pub quotas : Dict String ℕ

pub record PoolConfig : Type 0 where
  pub name : PoolName
  pub labels : List String
  pub scheduler : String
  pub fair_share : FairShareConfig
  pub backends : Dict BackendName BackendConfig

pub record AllocationRequest : Type 0 where
  pub pool : PoolName
  pub backend : Option BackendName
  pub job_timeout : Duration
  pub registration_timeout : Duration
  pub tenant : String
  pub priority_class : String
  pub labels : List String
  pub required_capabilities : List String
  pub excluded_capabilities : List String
  pub workflow_job_id : ℕ
  pub target_repository : String

pub record AllocationStatus : Type 0 where
  pub id : String
  pub correlation_id : String
  pub pool : PoolName
  pub selected_backend : BackendName
  pub runner_label : String
  pub requested_labels : List String
  pub tenant : String
  pub priority_class : String
  pub subject : String
  pub repository : String
  pub owner : String
  pub created_at : Time
  pub registered_at : Option Time
  pub claimed_at : Option Time
  pub expires_at : Time
  pub retry_after : Time
  pub attempts : ℕ
  pub state : AllocationState
  pub error : String
  pub metadata : Dict String String
  pub request : Option AllocationRequest

-- The loop of lookupFold over the entries, for keys that differ in case or in spaces.
find_fold : Dict String ℕ → String → Option ℕ
find_fold [] key = none
find_fold ((k, v) ∷ m) key =
    let rest = find_fold m key in if equal_fold (trim_space k) key then some v else rest

-- lookupFold: the trimmed key, or else the first key of the range that folds to it.
unfoldable pub lookup_fold : Dict String ℕ → String → Option ℕ
unfolding find_fold
lookup_fold m key = elim (get m (trim_space key)) [
  | some v ↦ some v
  | none ↦ find_fold m (trim_space key)
]

-- FairShareConfig.Quota
unfoldable pub quota : FairShareConfig → String → Option ℕ
quota f tenant = lookup_fold f.quotas tenant

-- FairShareConfig.PriorityClassWeight
unfoldable pub priority_class_weight : FairShareConfig → String → Option ℕ
priority_class_weight f class = lookup_fold f.priority_classes class
