-- ===== src/Service/Lifecycle/Sweep/UniqueIds.antt =====
-- A sweep gives no id a second record.
use unified_ephemeral_runner.Common.{
  ℕ, String, sym, subst, inl, inr, Bool, true, false, not, ◌&&◌, List, [], ◌∷◌, ◌==◌, string_eq,
  nat_eq, pair_eq, get, Unique, if◌then◌else◌, ltb, Option-cases, put-Unique,
}
use unified_ephemeral_runner.Model.{
  Time, AllocationState, expired, quarantined, state_eq, AllocationStatus,
}
use unified_ephemeral_runner.Store.{Memory, mark_state}
use unified_ephemeral_runner.Service.Lifecycle.{Config, Broker, is_active_state, mark_and_notify}
use unified_ephemeral_runner.Service.Lifecycle.Sweep.{
  is_registration_over, is_unconfirmed, unconfirmed_message, release_stale, expire_unconfirmed,
  reaped_state, reaped_expiry, reaped_message, reap, end_quarantine, is_overdue, sweep_one,
  sweep_all,
}
use unified_ephemeral_runner.Service.Lifecycle.Sweep.Expiry.{
  notify_lifecycle_terminal-store, release_stale-store,
}

abbrev pub HasUniqueIds : Broker → Type 0
HasUniqueIds b = Unique b.store.allocations

mark_state-Unique :
    (m : Memory) (id : String) (state : AllocationState) (at : Time) (message : String)
    → Unique m.allocations
    → Unique (mark_state m id state at message).0.allocations
unfolding mark_state
mark_state-Unique m id state at message u = elim (Option-cases (get m.allocations id)) [
  | inl gone ↦ rw (gone, mark_state) u
  | inr (status, there) ↦ rw (there, mark_state) (put-Unique m.allocations id _ u)
]

mark_and_notify-HasUniqueIds :
    (cfg : Config) (b : Broker) (id : String) (state : AllocationState) (at : Time)
    (message : String)
    → HasUniqueIds b
    → HasUniqueIds (mark_and_notify cfg b id state at message).0
unfolding mark_and_notify
mark_and_notify-HasUniqueIds cfg b id state at message u =
    let marked : Broker = record b { store = (mark_state b.store id state at message).0 } in
    let kept = mark_state-Unique b.store id state at message u in
    elim (Option-cases (mark_state b.store id state at message).1) [
      | inl gone ↦ rw (mark_and_notify, gone) kept
      | inr (updated, there) ↦
          rw (mark_and_notify, there)
            (subst (λ m. Unique m.allocations)
              (sym (notify_lifecycle_terminal-store cfg marked updated)) kept)
    ]

release_stale-HasUniqueIds :
    (cfg : Config) (b : Broker) (status : AllocationStatus) (now : Time)
    → HasUniqueIds b
    → HasUniqueIds (release_stale cfg b status now)
release_stale-HasUniqueIds cfg b status now u =
    subst (λ m. Unique m.allocations) (sym (release_stale-store cfg b status now)) u

expire_unconfirmed-HasUniqueIds :
    (cfg : Config) (b : Broker) (status : AllocationStatus) (now : Time)
    → HasUniqueIds b
    → HasUniqueIds (expire_unconfirmed cfg b status now).0
unfolding expire_unconfirmed
expire_unconfirmed-HasUniqueIds cfg b status now u =
    let marked = mark_and_notify cfg b status.id expired now (unconfirmed_message cfg status) in
    let kept =
      mark_and_notify-HasUniqueIds cfg b status.id expired now (unconfirmed_message cfg status) u in
    elim (Option-cases marked.1) [
      | inl lost ↦ rw (expire_unconfirmed, lost) kept
      | inr (updated, won) ↦
          rw (expire_unconfirmed, won) (release_stale-HasUniqueIds cfg marked.0 status now kept)
    ]

reap-HasUniqueIds :
    (cfg : Config) (b : Broker) (status : AllocationStatus) (now : Time)
    → HasUniqueIds b
    → HasUniqueIds (reap cfg b status now).0
unfolding reap
reap-HasUniqueIds cfg b status now u =
    let marked =
      mark_and_notify cfg b status.id (reaped_state cfg) (reaped_expiry cfg now)
        (reaped_message cfg) in
    let kept =
      mark_and_notify-HasUniqueIds cfg b status.id (reaped_state cfg) (reaped_expiry cfg now)
        (reaped_message cfg) u in
    elim (Option-cases marked.1) [
      | inl lost ↦ rw (reap, lost) kept
      | inr (updated, won) ↦
          rw (reap, won) (release_stale-HasUniqueIds cfg marked.0 status now kept)
    ]

end_quarantine-HasUniqueIds :
    (cfg : Config) (b : Broker) (status : AllocationStatus) (now : Time)
    → HasUniqueIds b
    → HasUniqueIds (end_quarantine cfg b status now).0
unfolding end_quarantine
end_quarantine-HasUniqueIds cfg b status now u =
    let message : String = "stale runner label quarantine expired" in
    let marked = mark_and_notify cfg b status.id expired now message in
    let kept = mark_and_notify-HasUniqueIds cfg b status.id expired now message u in
    elim (Option-cases marked.1) [
      | inl lost ↦ rw (end_quarantine, lost) kept
      | inr (updated, won) ↦ rw (end_quarantine, won) kept
    ]

if-HasUniqueIds :
    (t : Bool) (x y : Broker × ℕ)
    → HasUniqueIds x.0
    → HasUniqueIds y.0
    → HasUniqueIds (if t then x else y).0
if-HasUniqueIds true x y hx hy = hx
if-HasUniqueIds false x y hx hy = hy

sweep_one-HasUniqueIds :
    (cfg : Config) (b : Broker) (status : AllocationStatus) (now : Time)
    → HasUniqueIds b
    → HasUniqueIds (sweep_one cfg b status now).0
unfolding sweep_one
sweep_one-HasUniqueIds cfg b status now u =
    if-HasUniqueIds (is_active_state status.state)
      (if is_registration_over cfg status now && is_unconfirmed cfg status
        then expire_unconfirmed cfg b status now
        else if is_overdue cfg status now
        then reap cfg b status now
        else (b, 0))
      (if not (status.state == quarantined)
        then (b, 0)
        else if ltb now status.expires_at
        then (b, 0)
        else end_quarantine cfg b status now)
      (if-HasUniqueIds (is_registration_over cfg status now && is_unconfirmed cfg status)
        (expire_unconfirmed cfg b status now)
        (if is_overdue cfg status now then reap cfg b status now else (b, 0))
        (expire_unconfirmed-HasUniqueIds cfg b status now u)
        (if-HasUniqueIds (is_overdue cfg status now) (reap cfg b status now) ((b, 0))
          (reap-HasUniqueIds cfg b status now u) u))
      (if-HasUniqueIds (not (status.state == quarantined)) ((b, 0))
        (if ltb now status.expires_at then (b, 0) else end_quarantine cfg b status now) u
        (if-HasUniqueIds (ltb now status.expires_at) ((b, 0)) (end_quarantine cfg b status now) u
          (end_quarantine-HasUniqueIds cfg b status now u)))

pub sweep_all-HasUniqueIds :
    (cfg : Config) (b : Broker) (ss : List AllocationStatus) (now : Time)
    → HasUniqueIds b
    → HasUniqueIds (sweep_all cfg b ss now).0
unfolding sweep_all
sweep_all-HasUniqueIds cfg b [] now u = u
sweep_all-HasUniqueIds cfg b (s ∷ ss) now u =
    sweep_all-HasUniqueIds cfg (sweep_one cfg b s now).0 ss now
      (sweep_one-HasUniqueIds cfg b s now u)
