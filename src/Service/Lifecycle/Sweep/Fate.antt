-- ===== src/Service/Lifecycle/Sweep/Fate.antt =====
-- What a sweep leaves: who is ended, and who is left alone.
use unified_ephemeral_runner.Common.{
  String, ◌≡◌, refl, sym, ap, ◌∙◌, subst, inl, inr, Bool, true, false, ◌&&◌, Option, none, some,
  List, [], ◌∷◌, map, arith, ◌==◌, ==_refl, string_eq, nat_eq, pair_eq, get, Unique, leb,
  Bool-cases, then_of, else_of, Option-cases, is_some,
}
use unified_ephemeral_runner.Model.{Time, AllocationState, state_eq, AllocationStatus}
use unified_ephemeral_runner.Store.{Allocations, list, apply_mark_state, is_terminal_state}
use unified_ephemeral_runner.Store.Prune.{prune_terminal_lem, prune_terminal_keeps_active}
use unified_ephemeral_runner.Service.Lifecycle.{Config, Broker, is_active_state, is_set}
use unified_ephemeral_runner.Service.Lifecycle.Sweep.{
  is_registration_over, is_unconfirmed, is_overdue, sweep_all, prune_finished_allocations,
  sweep_expired,
}
use unified_ephemeral_runner.Service.Lifecycle.Sweep.Expiry.{
  Due, due, swept, has, IsListed, IsListed-congr, swept_option, sweep_all-get,
}
use unified_ephemeral_runner.Service.Lifecycle.Sweep.UniqueIds.{
  HasUniqueIds, sweep_all-HasUniqueIds,
}

-- Every record stands under its id, as Save writes it.
unfoldable pub IsById : Allocations → Type 0
IsById [] = Unit
IsById ((k, s) ∷ m) = (s.id ≡ k) × IsById m

statuses : Allocations → List AllocationStatus
statuses m = map (λ entry. entry.1) m

has-statuses : (m : Allocations) (id : String) → IsById m → has (statuses m) id ≡ is_some (get m id)
unfolding statuses has IsById get
has-statuses [] id h = refl
has-statuses ((k, s) ∷ m) id h =
    let rest = has-statuses m id h.1 in
    let own = ap (λ i. i == id) h.0 in
    elim (Bool-cases (k == id)) [ inl same ↦ ground arith | inr other ↦ ground arith ]

statuses-IsListed : (m : Allocations) → Unique m → IsById m → IsListed m (statuses m)
unfolding statuses IsListed IsById get
statuses-IsListed [] u h = tt
statuses-IsListed ((k, s) ∷ m) u h = (
  ap (get ((k, s) ∷ m)) h.0 ∙ then_of (k == k) _ _ (==_refl k),
  ap (has (statuses m)) h.0 ∙ has-statuses m k h.1 ∙ ap is_some u.0,
  IsListed-congr m ((k, s) ∷ m) (statuses m) below (statuses-IsListed m u.1 h.1),
)
  where
    below : (j : String) → has (statuses m) j ≡ true → get m j ≡ get ((k, s) ∷ m) j
    below j listed = elim (Bool-cases (k == j)) [
      | inl same ↦
          let gone = subst (λ i. get m i ≡ none) ((string_eq.agrees_iff k j).0 same) u.0 in
          let absent : has (statuses m) j ≡ false = has-statuses m j h.1 ∙ ap is_some gone in
          absurd (ground (arith, absent, listed))
      | inr other ↦ sym (else_of (k == j) _ _ other)
    ]

-- Whatever the order in which the store lists its records, the loop of a sweep writes each of them
-- once: every record is what its due mark makes of it, and no other record appears.
pub sweep_all_lem :
    (cfg : Config) (b : Broker) (now : Time) (id : String)
    → HasUniqueIds b
    → IsById b.store.allocations
    → get (sweep_all cfg b (list b.store) now).0.store.allocations id
      ≡ swept_option cfg now (get b.store.allocations id)
unfolding list statuses
sweep_all_lem cfg b now id u h =
    let listed = statuses-IsListed b.store.allocations u h in
    let all = has-statuses b.store.allocations id h in
    let done = sweep_all-get cfg b (statuses b.store.allocations) now id listed in
    elim (Option-cases (get b.store.allocations id)) [
      | inl gone ↦
          done ∙ else_of _ _ _ (all ∙ ap is_some gone) ∙ gone ∙ sym (ap (swept_option cfg now) gone)
      | inr (s, there) ↦ done ∙ then_of _ _ _ (all ∙ ap is_some there)
    ]

kept_by_prune :
    (cfg : Config) (b : Broker) (now : Time) (id : String) (s : AllocationStatus)
    → HasUniqueIds b
    → get (prune_finished_allocations cfg b now).0.store.allocations id ≡ some s
    → get b.store.allocations id ≡ some s
unfolding prune_finished_allocations
kept_by_prune cfg b now id s u there =
    let pruned = prune_terminal_lem b.store now cfg.retention id u in
    elim (Bool-cases (leb cfg.retention 0)) [ inl off ↦ ground arith | inr on ↦ ground arith ]

-- The records that a sweep leaves.
sweep_expired-get :
    (cfg : Config) (b : Broker) (now : Time) (id : String) (s : AllocationStatus)
    → HasUniqueIds b
    → IsById b.store.allocations
    → get (sweep_expired cfg b now).0.store.allocations id ≡ some s
    → swept_option cfg now (get b.store.allocations id) ≡ some s
unfolding sweep_expired prune_finished_allocations
sweep_expired-get cfg b now id s u h there =
    let later = (sweep_all cfg b (list b.store) now).0 in
    let unique = sweep_all-HasUniqueIds cfg b (list b.store) now u in
    sym (sweep_all_lem cfg b now id u h) ∙ kept_by_prune cfg later now id s unique there

abbrev goes_on : Option Due → Bool
goes_on none = false
goes_on (some mark) = is_active_state mark.state

due-goes_on : (cfg : Config) (now : Time) (s : AllocationStatus) → goes_on (due cfg now s) ≡ false
unfolding due is_active_state
due-goes_on cfg now s = ground arith

due-ends :
    (cfg : Config) (now : Time) (s : AllocationStatus)
    → is_active_state (swept cfg now s).state ≡ true
    → due cfg now (swept cfg now s) ≡ none
unfolding swept apply_mark_state
due-ends cfg now s active = elim (Option-cases (due cfg now s)) [
  | inl nothing ↦
      let same : swept cfg now s ≡ s = rw (swept, nothing) refl in
      subst (λ x. due cfg now x ≡ none) (sym same) nothing
  | inr (mark, marked) ↦
      let ended : (swept cfg now s).state ≡ mark.state = rw (swept, marked) refl in
      let going : is_active_state mark.state ≡ true = sym (ap is_active_state ended) ∙ active in
      absurd (ground (arith, due-goes_on cfg now s, ap goes_on marked, going))
]

not_due :
    (cfg : Config) (now : Time) (s : AllocationStatus)
    → is_active_state s.state ≡ true
    → due cfg now s ≡ none
    → (is_overdue cfg s now ≡ false)
      × (is_registration_over cfg s now && is_unconfirmed cfg s ≡ false)
unfolding due
not_due cfg now s active nothing = ground arith

-- After a sweep nothing that is still active is over its registration time without a runner, or over
-- its job time.
pub sweep_expired-active :
    (cfg : Config) (b : Broker) (now : Time) (id : String) (s : AllocationStatus)
    → HasUniqueIds b
    → IsById b.store.allocations
    → get (sweep_expired cfg b now).0.store.allocations id ≡ some s
    → is_active_state s.state ≡ true
    → (is_overdue cfg s now ≡ false)
      × (is_registration_over cfg s now && is_unconfirmed cfg s ≡ false)
unfolding due
sweep_expired-active cfg b now id s u h there active =
    let after = sweep_expired-get cfg b now id s u h there in
    elim (Option-cases (get b.store.allocations id)) [
      | inl gone ↦ absurd (ground (arith, sym (ap (swept_option cfg now) gone) ∙ after))
      | inr (old, before) ↦
          let now_s : some (swept cfg now old) ≡ some s =
            sym (ap (swept_option cfg now) before) ∙ after in
          let eq : swept cfg now old ≡ s = ap (or_else s) now_s in
          not_due cfg now s active (
            subst (λ x. due cfg now x ≡ none) eq
              (due-ends cfg now old (ap (λ x. is_active_state x.state) eq ∙ active)))
    ]
  where
    or_else : AllocationStatus → Option AllocationStatus → AllocationStatus
    or_else x none = x
    or_else x (some y) = y

claimed_not_due :
    (cfg : Config) (now : Time) (s : AllocationStatus)
    → is_active_state s.state ≡ true
    → is_set s.claimed_at ≡ true
    → is_overdue cfg s now ≡ false
    → due cfg now s ≡ none
unfolding due is_unconfirmed
claimed_not_due cfg now s active claimed early = ground arith

active_not_terminal :
    (state : AllocationState) → is_active_state state ≡ true → is_terminal_state state ≡ false
unfolding is_active_state
active_not_terminal state active = ground arith

-- A sweep leaves an active record alone that a job has claimed and whose time is not over.
pub sweep_expired-claimed :
    (cfg : Config) (b : Broker) (now : Time) (id : String) (s : AllocationStatus)
    → HasUniqueIds b
    → IsById b.store.allocations
    → get b.store.allocations id ≡ some s
    → is_active_state s.state ≡ true
    → is_set s.claimed_at ≡ true
    → is_overdue cfg s now ≡ false
    → get (sweep_expired cfg b now).0.store.allocations id ≡ some s
unfolding sweep_expired prune_finished_allocations swept
sweep_expired-claimed cfg b now id s u h there active claimed early =
    let later = (sweep_all cfg b (list b.store) now).0 in
    let same : swept cfg now s ≡ s =
      rw (swept, claimed_not_due cfg now s active claimed early) refl in
    let kept : get later.store.allocations id ≡ some s =
      sweep_all_lem cfg b now id u h ∙ ap (swept_option cfg now) there ∙ ap (λ x. some x) same in
    let unique = sweep_all-HasUniqueIds cfg b (list b.store) now u in
    let live : is_terminal_state s.state ≡ false = active_not_terminal s.state active in
    let through = prune_terminal_keeps_active later.store now cfg.retention id s unique kept live in
    elim (Bool-cases (leb cfg.retention 0)) [ inl off ↦ rw (off) kept | inr on ↦ rw (on) through ]
