-- ===== src/Scheduler/FairShare/Lanes.antt =====
-- Priority classes and soft reserves: priorityClassWeight, SoftReserveHeld, EffectiveMaxRunners.
use unified_ephemeral_runner.Common.{
  ℕ, String, ◌+◌, ◌-◌, ◌≤◌, ◌≡◌, not, ◌||◌, Option, none, some, [], ◌∷◌, arith, ◌==◌, string_eq,
  Dict, if◌then◌else◌, leb, ltb,
}
use unified_ephemeral_runner.Common.Text.{trim_space, to_lower}
use unified_ephemeral_runner.Model.{FairShareConfig, priority_class_weight}

abbrev pub positive : Option ℕ → Option ℕ
positive none = none
positive (some n) = if ltb 0 n then some n else none

-- priorityClassWeight
unfoldable pub priority_class_weight_of : FairShareConfig → String → ℕ
priority_class_weight_of fair_share request_class =
    let normalized = trim_space (to_lower request_class) in
    if normalized == "" then 1 else elim (positive (priority_class_weight fair_share normalized)) [
      | some weight ↦ weight
      | none ↦ if normalized == "high" then 2 else 1
    ]

-- canonicalPriorityClass
unfoldable pub canonical_priority_class : FairShareConfig → String → String
canonical_priority_class fair_share priority_class =
    let trimmed = trim_space (to_lower priority_class) in
    let normalized = if trimmed == "" then "normal" else trimmed in
    elim (positive (priority_class_weight fair_share normalized)) [
      | some weight ↦ normalized
      | none ↦ if normalized == "high" || normalized == "normal" then normalized else "normal"
    ]

-- The loop of SoftReserveHeld.
held_above : FairShareConfig → ℕ → Dict String ℕ → ℕ
held_above fair_share request_weight [] = 0
held_above fair_share request_weight ((class, slots) ∷ rest) =
    let held = held_above fair_share request_weight rest in
    if leb slots 0
    then held
    else if ltb request_weight (priority_class_weight_of fair_share class)
    then slots + held
    else held

-- SoftReserveHeld
unfoldable pub soft_reserve_held : FairShareConfig → String → ℕ
unfolding held_above
soft_reserve_held fair_share request_class =
    if not fair_share.enabled
    then 0
    else held_above fair_share (priority_class_weight_of fair_share request_class)
        fair_share.soft_reserves

-- EffectiveMaxRunners
unfoldable pub effective_max_runners : ℕ → FairShareConfig → String → ℕ
effective_max_runners max_runners fair_share request_class =
    let held = soft_reserve_held fair_share request_class in
    if leb max_runners 0 then 0 else if leb held 0 then max_runners else max_runners - held

held_above-anti :
    (fair_share : FairShareConfig) (v w : ℕ) (m : Dict String ℕ)
    → v ≤ w
    → held_above fair_share w m ≤ held_above fair_share v m
unfolding held_above
held_above-anti fair_share v w [] h = omega arith
held_above-anti fair_share v w ((class, slots) ∷ m) h =
    ground (arith, held_above-anti fair_share v w m h)

-- A request of a higher or equal class sees at least as many slots as one of a lower class.
pub effective_max_runners_mono :
    (max_runners : ℕ) (fair_share : FairShareConfig) (lower higher : String)
    → priority_class_weight_of fair_share lower ≤ priority_class_weight_of fair_share higher
    → effective_max_runners max_runners fair_share lower
      ≤ effective_max_runners max_runners fair_share higher
unfolding effective_max_runners soft_reserve_held
effective_max_runners_mono max_runners fair_share lower higher h = ground (
  arith,
  held_above-anti fair_share (priority_class_weight_of fair_share lower)
      (priority_class_weight_of fair_share higher) fair_share.soft_reserves h,
)

-- The limit that a request sees, and the slots that are kept from it, never make more than
-- maxRunners, and make all of it unless more is kept than there is.
pub effective_max_runners_lem :
    (max_runners : ℕ) (fair_share : FairShareConfig) (request_class : String)
    → effective_max_runners max_runners fair_share request_class
      ≡ max_runners - soft_reserve_held fair_share request_class
unfolding effective_max_runners
effective_max_runners_lem max_runners fair_share request_class = ground arith
