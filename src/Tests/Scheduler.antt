-- ===== src/Tests/Scheduler.antt =====
-- The theorems on round robin and the weighted ring at a pool of one backend.
use unified_ephemeral_runner.Common.{
  ◌≡◌, refl, List, [], ◌∷◌, arith, string_eq, nat_eq, pair_eq, get, erase, put,
}
use unified_ephemeral_runner.Model.{BackendName, PoolConfig}
use unified_ephemeral_runner.Scheduler.{
  no_capacity, ok, err, backend_available, count_of, ensure_pool, set_count, new_ordered_scheduler,
  is_candidate, scan, reserve, release,
}
use unified_ephemeral_runner.Scheduler.Reserve.{Picks, reserve-Picks}
use unified_ephemeral_runner.Scheduler.Limits.{
  Limits, Agrees, IsBounded, start, reserved, released, reachable-IsBounded, release-reserve,
}
use unified_ephemeral_runner.Tests.Fixtures.{pool, full_pool, request}

abbrev one : PoolConfig → List BackendName
one p = "arc" ∷ []

abbrev limits : Limits
limits = record { max_runners = λ _ _. 2; cross_pool = λ _. 2 }

pool-Agrees : Agrees limits pool
unfolding get
pool-Agrees b cfg h = ground arith

granted : (reserve one new_ordered_scheduler pool request).1 ≡ ok "arc"
unfolding reserve ensure_pool get put erase set_count is_candidate backend_available scan
granted = refl

refused : (reserve one new_ordered_scheduler full_pool request).1 ≡ err no_capacity
unfolding reserve ensure_pool get put erase set_count is_candidate backend_available scan
refused = refl

reachable-IsBounded_example :
    IsBounded limits (release (reserve one new_ordered_scheduler pool request).0 "p" "arc").active
reachable-IsBounded_example =
    reachable-IsBounded limits one
      (release (reserve one new_ordered_scheduler pool request).0 "p" "arc")
      (released "p" "arc" (reserved pool request pool-Agrees start))

reserve-Picks_example :
    Picks
      (record new_ordered_scheduler { active = ensure_pool [] "p" })
      pool
      (one pool)
      (reserve one new_ordered_scheduler pool request)
reserve-Picks_example = reserve-Picks one new_ordered_scheduler pool request refl

release-reserve_example :
    count_of (release (reserve one new_ordered_scheduler pool request).0 "p" "arc").active "p" "arc"
    ≡ count_of [] "p" "arc"
release-reserve_example =
    release-reserve one new_ordered_scheduler pool request "arc" "p" "arc" granted
