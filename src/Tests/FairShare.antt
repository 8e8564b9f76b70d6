-- ===== src/Tests/FairShare.antt =====
-- The theorems on the fair share at a pool of one backend.
use unified_ephemeral_runner.Common.{
  ◌≡◌, refl, ◌-◌, ◌≤◌, ◌<◌, ◌⊎◌, true, none, some, [], ◌∷◌, arith, string_eq, nat_eq, pair_eq, get,
  erase, put, leb,
}
use unified_ephemeral_runner.Common.Text.{trim_space, to_lower, equal_fold}
use unified_ephemeral_runner.Model.{BackendConfig, quota, lookup_fold, priority_class_weight}
use unified_ephemeral_runner.Scheduler.{ok, count_of, active_backend_locked, ensure_pool, set_count}
use unified_ephemeral_runner.Scheduler.Limits.{Limits, Agrees, IsBounded}
use unified_ephemeral_runner.Scheduler.FairShare.Bounds.{
  begin, reserved, released, FairRun-IsBounded,
}
use unified_ephemeral_runner.Scheduler.FairShare.Lanes.{
  priority_class_weight_of, effective_max_runners, canonical_priority_class, soft_reserve_held,
}
use unified_ephemeral_runner.Scheduler.FairShare.Starvation.{
  is_starving, clear_starvation, deny_all, streak_starves, forget_idle, starvation_key_for,
}
use unified_ephemeral_runner.Scheduler.FairShare.Tenants.{
  tenant_total, normalize_tenant, ensure_tenant_pool, set_tenant_count, note_usage_window,
  record_reservation, prune_all_tenant_logs,
}
use unified_ephemeral_runner.Scheduler.FairShare.Reserve.{Picks, chosen_in}
use unified_ephemeral_runner.Scheduler.FairShare.Guarantees.{
  WithinQuota, seen_limit, starving_in, reserve_guards, choose-Picks,
}
use unified_ephemeral_runner.Scheduler.FairShare.{
  new_fair_share, prepare, choose, reserve, release, fair_share_candidate_backends,
  backend_available_for_priority, grant,
}
use unified_ephemeral_runner.Tests.Fixtures.{
  full_config, fair_share, pool, full_pool, request, pinned, allocation,
}

low_below_high :
    priority_class_weight_of fair_share "low" ≤ priority_class_weight_of fair_share "high"
unfolding priority_class_weight_of priority_class_weight lookup_fold trim_space to_lower get
low_below_high = omega arith

no_streak : get (forget_idle [] pool "low" 100) (starvation_key_for pool "low") ≡ none
unfolding forget_idle get
no_streak = refl

streak_starves_example :
    is_starving (deny_all [] pool "low" (100 ∷ 108 ∷ [])) pool "low" 111
    ≡ leb pool.fair_share.starvation_after (111 - 100)
streak_starves_example =
    streak_starves [] pool "low" 100 (108 ∷ []) 111 (omega arith) no_streak
      (omega arith, omega arith, omega arith)

full : full_config.max_runners ≤ count_of new_fair_share.active "p" "arc"
full = omega arith

found_full : get full_pool.backends "arc" ≡ some full_config
unfolding get
found_full = refl

choose-Picks_example :
    Picks
      (chosen_in new_fair_share pool request 100)
      pool
      "low"
      (normalize_tenant "team")
      100
      (is_starving new_fair_share.starvation pool "low" 100)
      (fair_share_candidate_backends pool)
      (choose new_fair_share pool request 100)
choose-Picks_example = choose-Picks new_fair_share pool request 100 refl

fair_granted : (reserve new_fair_share pool pinned 100).1 ≡ ok "arc"
unfolding reserve prepare choose ensure_pool get put erase set_count ensure_tenant_pool quota
    lookup_fold equal_fold trim_space to_lower backend_available_for_priority grant is_starving
    forget_idle note_usage_window prune_all_tenant_logs effective_max_runners
    priority_class_weight_of priority_class_weight normalize_tenant starvation_key_for
    canonical_priority_class record_reservation clear_starvation set_tenant_count soft_reserve_held
fair_granted = refl

reserve_guards_example :
    WithinQuota
      (quota fair_share (normalize_tenant "team"))
      (tenant_total (prepare new_fair_share pool 100).tenant_active "p" (normalize_tenant "team"))
    × ((cfg : BackendConfig) × (get pool.backends "arc" ≡ some cfg)
        × (cfg.enabled ≡ true)
        × (cfg.healthy ≡ true)
        × (count_of (prepare new_fair_share pool 100).active "p" "arc"
            < seen_limit cfg pool pinned (starving_in new_fair_share pool pinned 100))
        × ((cfg.cross_pool_max_runners ≡ 0)
            ⊎ (active_backend_locked (prepare new_fair_share pool 100).active "arc"
                < cfg.cross_pool_max_runners)))
reserve_guards_example = reserve_guards new_fair_share pool pinned 100 "arc" fair_granted

abbrev limits : Limits
limits = record { max_runners = λ _ _. 2; cross_pool = λ _. 2 }

pool-Agrees_limits : Agrees limits pool
unfolding get
pool-Agrees_limits b cfg h = ground arith

FairRun-IsBounded_example :
    IsBounded limits
      (release (reserve new_fair_share pool pinned 100).0 "p" "arc" allocation 200).active
FairRun-IsBounded_example =
    FairRun-IsBounded limits
      (release (reserve new_fair_share pool pinned 100).0 "p" "arc" allocation 200)
      (released "p" "arc" allocation 200 (reserved pool pinned 100 pool-Agrees_limits begin))
