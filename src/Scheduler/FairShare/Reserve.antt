-- ===== src/Scheduler/FairShare/Reserve.antt =====
-- What Reserve of the fair share grants, and why it refuses.
use unified_ephemeral_runner.Common.{
  ℕ, String, ◌≡◌, refl, sym, subst, ◌+◌, ◌%◌, ◌⊎◌, inl, inr, Bool, true, Option, none, some, List,
  [], ◌∷◌, arith, string_eq, nat_eq, pair_eq, get, put, Option-cases, or_zero, length,
}
use unified_ephemeral_runner.Common.Int.{ℤ}
use unified_ephemeral_runner.Model.{Time, BackendName, PoolConfig, AllocationRequest}
use unified_ephemeral_runner.Scheduler.{no_capacity, Result, ok, err, count_of, set_count, at}
use unified_ephemeral_runner.Scheduler.FairShare.Starvation.{is_starving, forget_idle}
use unified_ephemeral_runner.Scheduler.FairShare.Pick.{Best, best_from, IsBest, IsBest-of_ring}
use unified_ephemeral_runner.Scheduler.FairShare.Tenants.{
  tenant_count, set_tenant_count, normalize_tenant,
}
use unified_ephemeral_runner.Scheduler.FairShare.{
  FairShareState, is_candidate, fair_share_candidate_backends, grant, reserve_pinned,
  candidate_score, reserve_best, choose,
}

-- The state in which the choice is made, and whether the request's class starves.
abbrev pub chosen_in : FairShareState → PoolConfig → AllocationRequest → Time → FairShareState
chosen_in s pool request now = record s {
  starvation = forget_idle s.starvation pool request.priority_class now;
}

-- A grant of `b`: it passed the test, and the counts of the backend and of its tenant grew by one.
abbrev pub Granted :
    FairShareState → PoolConfig → String → String → Bool → BackendName → FairShareState → Type 0
Granted s pool priority_class tenant starving b s' =
    (is_candidate s.active pool priority_class starving b ≡ true)
    × (s'.active ≡ set_count s.active pool.name b (count_of s.active pool.name b + 1))
    × (s'.tenant_active
        ≡ set_tenant_count s.tenant_active pool.name b tenant
            (tenant_count s.tenant_active pool.name b tenant + 1))

pinned-Granted :
    (s : FairShareState) (pool : PoolConfig) (c t : String) (now : Time) (starving : Bool)
    (pinned b : BackendName)
    → (reserve_pinned s pool c t now starving pinned).1 ≡ ok b
    → Granted s pool c t starving b (reserve_pinned s pool c t now starving pinned).0
unfolding reserve_pinned is_candidate grant
pinned-Granted s pool c t now starving pinned b h = ground arith

-- What an unpinned request gets from a ring: the first of its candidates with the lowest score, or
-- nothing where none is a candidate.
abbrev pub Picks :
    FairShareState
    → PoolConfig
    → String
    → String
    → Time
    → Bool
    → List BackendName
    → FairShareState × Result BackendName
    → Type 0
Picks s pool c t now starving backends r =
    let start = or_zero (get s.cursors pool.name) % length backends in
    let test = is_candidate s.active pool c starving in
    let score = candidate_score s pool c t now in
    ((r.1 ≡ err no_capacity) × IsBest test score backends start (length backends) none)
    ⊎ ((best : Best) × IsBest test score backends start (length backends) (some best)
        × (r ≡ (
          record (grant s pool c t now (at backends best.index)) {
            cursors = put s.cursors pool.name ((best.index + 1) % length backends);
          },
          ok (at backends best.index),
        )))

pub best-Picks :
    (s : FairShareState) (pool : PoolConfig) (c t : String) (now : Time) (starving : Bool)
    (backends : List BackendName)
    → Picks s pool c t now starving backends (reserve_best s pool c t now starving backends)
unfolding reserve_best
best-Picks s pool c t now starving [] = inl (refl, λ k lt. absurd (omega arith))
best-Picks s pool c t now starving (x ∷ xs) = pick _ refl
  where
    backends : List BackendName
    backends = x ∷ xs

    start : ℕ
    start = or_zero (get s.cursors pool.name) % length backends

    test : BackendName → Bool
    test = is_candidate s.active pool c starving

    score : BackendName → ℤ
    score = candidate_score s pool c t now

    pick :
        (r : Option Best)
        → best_from test score backends start 0 (length backends) none ≡ r
        → Picks s pool c t now starving backends (reserve_best s pool c t now starving backends)
    pick none e =
        rw (e, reserve_best)
          (inl (
            refl,
            subst (IsBest test score backends start (length backends)) e
                (IsBest-of_ring test score backends start),
          ))
    pick (some best) e =
        rw (e, reserve_best)
          (inr (
            best,
            subst (IsBest test score backends start (length backends)) e
                (IsBest-of_ring test score backends start),
            refl,
          ))

Picks-Granted :
    (s : FairShareState) (pool : PoolConfig) (c t : String) (now : Time) (starving : Bool)
    (backends : List BackendName) (r : FairShareState × Result BackendName) (b : BackendName)
    → Picks s pool c t now starving backends r
    → r.1 ≡ ok b
    → Granted s pool c t starving b r.0
unfolding grant
Picks-Granted s pool c t now starving backends r b (inl (e, none_left)) h = cc
Picks-Granted s pool c t now starving backends r b (inr (best, found, e)) h =
    let (in_ring, at_offset, scored, passed, least, first) = found in
    let here : at backends best.index ≡ b = ground arith in
    let index =
      subst (λ x. is_candidate s.active pool c starving (at backends x) ≡ true) (sym at_offset)
        passed in
    (
      subst (λ x. is_candidate s.active pool c starving x ≡ true) here index,
      ground arith,
      ground arith,
    )

pub choose-Granted :
    (s : FairShareState) (pool : PoolConfig) (request : AllocationRequest) (now : Time)
    (b : BackendName)
    → (choose s pool request now).1 ≡ ok b
    → Granted s pool request.priority_class
        (normalize_tenant request.tenant)
        (is_starving s.starvation pool request.priority_class now)
        b
        (choose s pool request now).0
unfolding choose
choose-Granted s pool request now b h = elim (Option-cases request.backend) [
  | inl e ↦
      rw (e, choose)
        (Picks-Granted (chosen_in s pool request now) pool request.priority_class
          (normalize_tenant request.tenant) now _ (fair_share_candidate_backends pool) _ b
          (best-Picks (chosen_in s pool request now) pool request.priority_class
            (normalize_tenant request.tenant) now
            (is_starving s.starvation pool request.priority_class now)
            (fair_share_candidate_backends pool))
          (rw (e, choose) at h))
  | inr (pinned, e) ↦
      rw (e, choose)
        (pinned-Granted (chosen_in s pool request now) pool request.priority_class
          (normalize_tenant request.tenant) now
          (is_starving s.starvation pool request.priority_class now) pinned b (rw (e, choose) at h))
]
