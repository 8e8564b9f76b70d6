-- ===== src/Scheduler/FairShare/Starvation.antt =====
-- Streaks of soft-reserve denials: isStarving, recordStarvation, clearStarvation,
-- dropPoolStarvation.
use unified_ephemeral_runner.Common.{
  String, ◌+◌, ◌-◌, ◌*◌, ◌≤◌, ◌<◌, ◌≡◌, Bool, false, none, some, List, [], ◌∷◌, arith, ◌==◌,
  string_eq, pair_eq, Dict, get, put, erase, if◌then◌else◌, leb, ltb, get-put_self,
}
use unified_ephemeral_runner.Model.{Time, Duration, PoolName, PoolConfig}
use unified_ephemeral_runner.Scheduler.FairShare.Lanes.{canonical_priority_class}

pub record StarvationTrack : Type 0 where
  pub start : Time
  pub last_denied : Time

-- starvationKey: the pool and the priority class.
abbrev pub StarvationKey : Type 0
StarvationKey = PoolName × String

abbrev pub StarvationMap : Type 0
StarvationMap = Dict StarvationKey StarvationTrack

-- starvationKeyFor
unfoldable pub starvation_key_for : PoolConfig → String → StarvationKey
starvation_key_for pool priority_class =
    (pool.name, canonical_priority_class pool.fair_share priority_class)

-- starvationIdleGap
abbrev pub starvation_idle_gap : Duration → Duration
starvation_idle_gap after = after * 2

abbrev pub is_idle : StarvationTrack → Duration → Time → Bool
is_idle track after now = ltb (starvation_idle_gap after) (now - track.last_denied)

-- The result of isStarving.
unfoldable pub is_starving : StarvationMap → PoolConfig → String → Time → Bool
is_starving m pool priority_class now =
    let after = pool.fair_share.starvation_after in
    if leb after 0 then false else elim (get m (starvation_key_for pool priority_class)) [
      | none ↦ false
      | some track ↦ if is_idle track after now then false else leb after (now - track.start)
    ]

-- What isStarving writes: a streak that was idle too long is dropped.
unfoldable pub forget_idle : StarvationMap → PoolConfig → String → Time → StarvationMap
forget_idle m pool priority_class now =
    let after = pool.fair_share.starvation_after in
    let key = starvation_key_for pool priority_class in
    if leb after 0 then m else elim (get m key) [
      | none ↦ m
      | some track ↦ if is_idle track after now then erase m key else m
    ]

-- recordStarvation
unfoldable pub record_starvation : StarvationMap → PoolConfig → String → Time → StarvationMap
record_starvation m pool priority_class now =
    let after = pool.fair_share.starvation_after in
    let key = starvation_key_for pool priority_class in
    let fresh : StarvationTrack = record { start = now; last_denied = now } in
    if leb after 0 then m else elim (get m key) [
      | none ↦ put m key fresh
      | some track ↦
          if is_idle track after now
          then put m key fresh
          else put m key (record track { last_denied = now })
    ]

-- clearStarvation
unfoldable pub clear_starvation : StarvationMap → PoolConfig → String → StarvationMap
clear_starvation m pool priority_class = erase m (starvation_key_for pool priority_class)

-- dropPoolStarvation
unfoldable pub drop_pool_starvation : StarvationMap → PoolName → StarvationMap
drop_pool_starvation [] pool = []
drop_pool_starvation ((key, track) ∷ m) pool =
    let rest = drop_pool_starvation m pool in if key.0 == pool then rest else (key, track) ∷ rest

-- Denials of one class at the given times, each no later than one idle gap after the one before.
abbrev pub Continuous : Duration → Time → List Time → Time → Type 0
Continuous after last [] now = now ≤ last + starvation_idle_gap after
Continuous after last (t ∷ ts) now =
    (last ≤ t) × (t ≤ last + starvation_idle_gap after) × Continuous after t ts now

pub deny_all : StarvationMap → PoolConfig → String → List Time → StarvationMap
deny_all m pool priority_class [] = m
deny_all m pool priority_class (t ∷ ts) =
    deny_all (record_starvation m pool priority_class t) pool priority_class ts

deny_all_starves :
    (ts : List Time) (m : StarvationMap) (pool : PoolConfig) (priority_class : String)
    (start last now : Time)
    → 0 < pool.fair_share.starvation_after
    → get m (starvation_key_for pool priority_class)
      ≡ some (record { start = start; last_denied = last })
    → Continuous pool.fair_share.starvation_after last ts now
    → is_starving (deny_all m pool priority_class ts) pool priority_class now
      ≡ leb pool.fair_share.starvation_after (now - start)
unfolding deny_all is_starving record_starvation
deny_all_starves [] m pool c start last now on e h = rw (e, is_starving) (ground arith)
deny_all_starves (t ∷ ts) m pool c start last now on e (after, soon, more) =
    deny_all_starves ts (record_starvation m pool c t) pool c start t now on
      (rw (e, record_starvation)
        (ground (
          arith,
          get-put_self m (starvation_key_for pool c) (record { start = start; last_denied = t }),
        )))
      more

-- A class whose soft-reserve denials follow one another without an idle gap starves exactly when
-- starvationAfter has passed since the first of them, where no streak is running at the first (a
-- streak that was idle too long does not count).
pub streak_starves :
    (m : StarvationMap) (pool : PoolConfig) (priority_class : String) (first : Time)
    (ts : List Time) (now : Time)
    → 0 < pool.fair_share.starvation_after
    → get (forget_idle m pool priority_class first) (starvation_key_for pool priority_class) ≡ none
    → Continuous pool.fair_share.starvation_after first ts now
    → is_starving (deny_all m pool priority_class (first ∷ ts)) pool priority_class now
      ≡ leb pool.fair_share.starvation_after (now - first)
unfolding deny_all record_starvation forget_idle
streak_starves m pool c first ts now on fresh h =
    deny_all_starves ts (record_starvation m pool c first) pool c first first now on begun h
  where
    begun :
        get (record_starvation m pool c first) (starvation_key_for pool c)
        ≡ some (record { start = first; last_denied = first })
    begun = ground (
      arith,
      get-put_self m (starvation_key_for pool c) (record { start = first; last_denied = first }),
    )
