-- ===== src/Scheduler/Counts.antt =====
-- The counts of reservations: how the writes change them.
use unified_ephemeral_runner.Common.{
  ℕ, ◌≡◌, ap, subst, ◌+◌, inl, inr, ◌&&◌, none, [], arith, ◌==◌, string_eq, nat_eq, pair_eq, Dict,
  get, put, Unique, if◌then◌else◌, Bool-cases, Option-cases, or_zero, get-put, get-nil, put-Unique,
  value_of, sum_by-put,
}
use unified_ephemeral_runner.Model.{PoolName, BackendName}
use unified_ephemeral_runner.Scheduler.{
  Active, pool_active, count_of, active_backend_locked, ensure_pool, set_count,
}

-- Every map in the state has its keys once.
pub record IsMap (a : Active) : Type 0 where
  pub pools : Unique a
  pub backends : (pool : PoolName) → Unique (pool_active a pool)

pool_active-put :
    (a : Active) (p : PoolName) (m : Dict BackendName ℕ) (q : PoolName)
    → pool_active (put a p m) q ≡ (if p == q then m else pool_active a q)
pool_active-put a p m q = rw (get-put a p m q, pool_active) (ground arith)

pool_active-ensure_pool :
    (a : Active) (p q : PoolName) → pool_active (ensure_pool a p) q ≡ pool_active a q
unfolding ensure_pool
pool_active-ensure_pool a p q = elim (Option-cases (get a p)) [
  | inr (counts, e) ↦ rw (e, ensure_pool)
  | inl e ↦
      rw (e, ensure_pool)
        (elim (Bool-cases (p == q)) [
          | inr other ↦ rw (pool_active-put a p [] q, other)
          | inl same ↦
              rw (pool_active-put a p [] q, same)
                (rw
                  (subst (λ r. get a r ≡ none) ((string_eq.agrees_iff p q).0 same) e, pool_active))
        ])
]

pub count_of-ensure_pool :
    (a : Active) (p q : PoolName) (c : BackendName)
    → count_of (ensure_pool a p) q c ≡ count_of a q c
count_of-ensure_pool a p q c = rw (pool_active-ensure_pool a p q)

pub count_of-set_count :
    (a : Active) (p : PoolName) (b : BackendName) (n : ℕ) (q : PoolName) (c : BackendName)
    → count_of (set_count a p b n) q c ≡ (if p == q && b == c then n else count_of a q c)
unfolding set_count
count_of-set_count a p b n q c = elim (Bool-cases (p == q)) [
  | inr other ↦ rw (pool_active-put a p (put (pool_active a p) b n) q, other)
  | inl same ↦
      let eq : p ≡ q = (string_eq.agrees_iff p q).0 same in
      rw (pool_active-put a p (put (pool_active a p) b n) q, same, get-put (pool_active a p) b n c)
        (rw eq (ground arith))
]

-- A backend's count in one pool, as the sum over the pools reads it.
abbrev reads : BackendName → Dict BackendName ℕ → ℕ
reads c m = or_zero (get m c)

reads-pool_active :
    (a : Active) (p : PoolName) (c : BackendName) → value_of (reads c) (get a p) ≡ count_of a p c
reads-pool_active a p c = ground (arith, get-nil ℕ c)

pub backend_active-ensure_pool :
    (a : Active) (p : PoolName) (c : BackendName)
    → Unique a
    → active_backend_locked (ensure_pool a p) c ≡ active_backend_locked a c
unfolding ensure_pool
backend_active-ensure_pool a p c u = elim (Option-cases (get a p)) [
  | inr (counts, e) ↦ rw (e, ensure_pool)
  | inl e ↦
      rw (e, ensure_pool)
        (omega (
          arith,
          sum_by-put (reads c) a p [] u,
          ap (value_of (reads c)) e,
          ap or_zero (get-nil ℕ c),
        ))
]

-- A write to one count changes the backend's sum over the pools by as much.
pub backend_active-set_count :
    (a : Active) (p : PoolName) (b : BackendName) (n : ℕ) (c : BackendName)
    → Unique a
    → active_backend_locked (set_count a p b n) c + count_of a p c
      ≡ active_backend_locked a c + (if b == c then n else count_of a p c)
unfolding set_count
backend_active-set_count a p b n c u =
    let sums = sum_by-put (reads c) a p (put (pool_active a p) b n) u in
    let written : reads c (put (pool_active a p) b n) ≡ (if b == c then n else count_of a p c) =
      rw (get-put (pool_active a p) b n c) (ground arith) in
    omega (arith, sums, written, reads-pool_active a p c)

pub ensure_pool-IsMap : (a : Active) (p : PoolName) → IsMap a → IsMap (ensure_pool a p)
unfolding ensure_pool
ensure_pool-IsMap a p v = record {
  pools = elim (Option-cases (get a p)) [
    | inr (counts, e) ↦ rw (e, ensure_pool) v.pools
    | inl e ↦ rw (e, ensure_pool) (put-Unique a p [] v.pools)
  ];
  backends = λ q. rw (pool_active-ensure_pool a p q) (v.backends q);
}

pub set_count-IsMap :
    (a : Active) (p : PoolName) (b : BackendName) (n : ℕ) → IsMap a → IsMap (set_count a p b n)
unfolding set_count
set_count-IsMap a p b n v = record {
  pools = put-Unique a p _ v.pools;
  backends = λ q.
      rw (pool_active-put a p (put (pool_active a p) b n) q) (elim (Bool-cases (p == q)) [
        | inl same ↦ rw same (put-Unique (pool_active a p) b n (v.backends p))
        | inr other ↦ rw other (v.backends q)
      ]);
}
