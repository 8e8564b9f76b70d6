-- ===== src/Scheduler/Order.antt =====
-- The candidate orders: orderedBackends and weightedBackends.
use unified_ephemeral_runner.Common.{
  ℕ, zero, suc, ◌≡◌, refl, ap, ◌+◌, ◌*◌, ◌≤◌, ◌<◌, inl, inr, true, false, List, [], ◌∷◌, ◌++◌, map,
  arith, ◌==◌, string_eq, nat_eq, pair_eq, if◌then◌else◌, Bool-cases, replicate, sum_by,
}
use mathlib.Core.List.{Perm}
use unified_ephemeral_runner.Common.Sorting.{sort, sort-perm, sort-IsSorted, IsSorted}
use unified_ephemeral_runner.Model.{BackendName, PoolConfig}
use unified_ephemeral_runner.Scheduler.{
  Ranked, ranked, ranked_less, ordered_backends, weighted_backends, weight_of, repeat_each,
}

ranked_less_asym : (x y : Ranked) → ranked_less x y ≡ true → ranked_less y x ≡ false
ranked_less_asym x y h = ground arith

ranked_less_trans :
    (x y z : Ranked) → ranked_less y x ≡ false → ranked_less z y ≡ false → ranked_less z x ≡ false
ranked_less_trans x y z h k = ground arith

-- orderedBackends lists every configured backend, each as often as the configuration does, by rising
-- cost class, and within one cost class by the preferred order.
pub ordered_backends_lem :
    (pool : PoolConfig)
    → (rs : List Ranked) × (ordered_backends pool ≡ map (λ c. c.name) rs)
      × Perm rs (map ranked pool.backends)
      × IsSorted ranked_less rs
unfolding ordered_backends
ordered_backends_lem pool = (
  sort ranked_less (map ranked pool.backends),
  refl,
  sort-perm ranked_less (map ranked pool.backends),
  sort-IsSorted ranked_less ranked_less_asym ranked_less_trans (map ranked pool.backends),
)

-- How often a backend stands in a ring.
abbrev pub occurrences : BackendName → List BackendName → ℕ
occurrences b = sum_by (λ c. if c == b then 1 else 0)

occurrences-append :
    (b : BackendName) (xs ys : List BackendName)
    → occurrences b (xs ++ ys) ≡ occurrences b xs + occurrences b ys
occurrences-append b [] ys = omega arith
occurrences-append b (x ∷ xs) ys = omega (arith, occurrences-append b xs ys)

occurrences-replicate :
    (b c : BackendName) (n : ℕ) → occurrences b (replicate n c) ≡ (if c == b then n else 0)
occurrences-replicate b c zero = ground arith
occurrences-replicate b c (suc n) = ground (arith, occurrences-replicate b c n)

occurrences-repeat_each :
    (weight : BackendName → ℕ) (b : BackendName) (xs : List BackendName)
    → occurrences b (repeat_each weight xs) ≡ occurrences b xs * weight b
occurrences-repeat_each weight b [] = grind arith
occurrences-repeat_each weight b (x ∷ xs) = elim (Bool-cases (x == b)) [
  | inl same ↦
      let eq : x ≡ b = (string_eq.agrees_iff x b).0 same in
      let copies : occurrences b (replicate (weight x) x) ≡ weight b =
        rw (occurrences-replicate b x (weight x), same) (ap weight eq) in
      rw same (
        omega (
          arith,
          occurrences-append b (replicate (weight x) x) (repeat_each weight xs),
          copies,
          occurrences-repeat_each weight b xs,
        ))
  | inr other ↦
      let copies : occurrences b (replicate (weight x) x) ≡ 0 =
        rw (occurrences-replicate b x (weight x), other) in
      rw other (
        omega (
          arith,
          occurrences-append b (replicate (weight x) x) (repeat_each weight xs),
          copies,
          occurrences-repeat_each weight b xs,
        ))
]

weight_of_pos : (pool : PoolConfig) (b : BackendName) → 0 < weight_of pool b
unfolding weight_of
weight_of_pos pool b = ground arith

-- In the weighted ring every backend stands its weight times as often as in the plain order, and
-- the weight is at least one, so that no configured backend is left out.
pub weighted_backends_lem :
    (pool : PoolConfig) (b : BackendName)
    → (occurrences b (weighted_backends pool)
        ≡ occurrences b (ordered_backends pool) * weight_of pool b)
      × (occurrences b (ordered_backends pool) ≤ occurrences b (weighted_backends pool))
unfolding weighted_backends
weighted_backends_lem pool b =
    let times = occurrences-repeat_each (weight_of pool) b (ordered_backends pool) in
    let positive = weight_of_pos pool b in (times, grind arith)
