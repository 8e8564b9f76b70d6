-- ===== src/Service/Lifecycle/Sweep/Expiry.antt =====
-- What a sweep does to each record, in whatever order the store lists them.
use unified_ephemeral_runner.Common.{
  String, ◌≡◌, refl, sym, ap, ◌∙◌, subst, inl, inr, Bool, true, false, not, ◌&&◌, ◌||◌, Option,
  none, some, List, [], ◌∷◌, arith, ◌==◌, ==_refl, string_eq, nat_eq, pair_eq, get, if◌then◌else◌,
  ltb, Bool-cases, then_of, else_of, Option-cases, get-put,
}
use unified_ephemeral_runner.Model.{
  Time, AllocationState, expired, quarantined, state_eq, AllocationStatus,
}
use unified_ephemeral_runner.Store.{Allocations, mark_state, apply_mark_state}
use unified_ephemeral_runner.Service.Lifecycle.{
  Config, Broker, is_active_state, resolve_pool, notify_lifecycle_terminal, mark_and_notify,
}
use unified_ephemeral_runner.Service.Lifecycle.Sweep.{
  is_registration_over, is_unconfirmed, unconfirmed_message, release_stale, expire_unconfirmed,
  reaped_state, reaped_expiry, reaped_message, reap, end_quarantine, is_overdue, sweep_one,
  sweep_all,
}

-- The mark that is due for a record.
pub record Due : Type 0 where
  pub state : AllocationState
  pub at : Time
  pub message : String

unfoldable pub due : Config → Time → AllocationStatus → Option Due
due cfg now status =
    if is_active_state status.state
    then if is_registration_over cfg status now && is_unconfirmed cfg status
      then some (record { state = expired; at = now; message = unconfirmed_message cfg status })
      else if is_overdue cfg status now
      then some (record {
        state = reaped_state cfg;
        at = reaped_expiry cfg now;
        message = reaped_message cfg;
      })
      else none
    else if status.state == quarantined && not (ltb now status.expires_at)
    then some
        (record { state = expired; at = now; message = "stale runner label quarantine expired" })
    else none

-- The record after the sweep.
unfoldable pub swept : Config → Time → AllocationStatus → AllocationStatus
swept cfg now status = elim (due cfg now status) [
  | none ↦ status
  | some mark ↦ apply_mark_state status mark.state mark.at mark.message
]

pub notify_lifecycle_terminal-store :
    (cfg : Config) (b : Broker) (status : AllocationStatus)
    → (notify_lifecycle_terminal cfg b status).store ≡ b.store
unfolding notify_lifecycle_terminal
notify_lifecycle_terminal-store cfg b status = ground arith

-- A mark of a record that is there writes it, and no other.
pub mark_and_notify-get :
    (cfg : Config) (b : Broker) (status : AllocationStatus) (state : AllocationState) (at : Time)
    (message : String)
    → get b.store.allocations status.id ≡ some status
    → let r = mark_and_notify cfg b status.id state at message in
      let written = apply_mark_state status state at message in
      (r.1 ≡ some written)
      × ((j : String)
          → get r.0.store.allocations j
            ≡ (if status.id == j then some written else get b.store.allocations j))
unfolding mark_and_notify mark_state
mark_and_notify-get cfg b status state at message there =
    let written = apply_mark_state status state at message in
    let m = b.store in
    let found : (mark_state m status.id state at message).1 ≡ some written =
      rw (there, mark_state) refl in
    let marked : Broker = record b { store = (mark_state m status.id state at message).0 } in
    let kept = notify_lifecycle_terminal-store cfg marked written in
    rw (mark_and_notify, found)
      (
        refl,
        λ j.
            ap (λ s. get s.allocations j) kept
            ∙ rw (there, mark_state) (get-put m.allocations status.id written j),
      )

pub release_stale-store :
    (cfg : Config) (b : Broker) (status : AllocationStatus) (now : Time)
    → (release_stale cfg b status now).store ≡ b.store
release_stale-store cfg b status now = elim (Option-cases (resolve_pool cfg status.pool)) [
  | inl gone ↦ rw (gone, release_stale) refl
  | inr (pool, found) ↦ rw (found, release_stale) refl
]

-- A broker that holds the same records but for one.
abbrev Writes : Broker → String → AllocationStatus → Broker → Type 0
Writes b id written b' =
    (j : String)
    → get b'.store.allocations j ≡ (if id == j then some written else get b.store.allocations j)

expire_unconfirmed-get :
    (cfg : Config) (b : Broker) (status : AllocationStatus) (now : Time)
    → get b.store.allocations status.id ≡ some status
    → Writes b status.id
        (apply_mark_state status expired now (unconfirmed_message cfg status))
        (expire_unconfirmed cfg b status now).0
unfolding expire_unconfirmed
expire_unconfirmed-get cfg b status now there =
    let (found, others) =
      mark_and_notify-get cfg b status expired now (unconfirmed_message cfg status) there in
    rw (expire_unconfirmed, found)
      (λ j. ap (λ s. get s.allocations j) (release_stale-store cfg _ status now) ∙ others j)

reap-get :
    (cfg : Config) (b : Broker) (status : AllocationStatus) (now : Time)
    → get b.store.allocations status.id ≡ some status
    → Writes b status.id
        (apply_mark_state status (reaped_state cfg) (reaped_expiry cfg now) (reaped_message cfg))
        (reap cfg b status now).0
unfolding reap
reap-get cfg b status now there =
    let (found, others) =
      mark_and_notify-get cfg b status (reaped_state cfg) (reaped_expiry cfg now)
        (reaped_message cfg) there in
    rw (reap, found)
      (λ j. ap (λ s. get s.allocations j) (release_stale-store cfg _ status now) ∙ others j)

end_quarantine-get :
    (cfg : Config) (b : Broker) (status : AllocationStatus) (now : Time)
    → get b.store.allocations status.id ≡ some status
    → Writes b status.id
        (apply_mark_state status expired now "stale runner label quarantine expired")
        (end_quarantine cfg b status now).0
unfolding end_quarantine
end_quarantine-get cfg b status now there =
    let (found, others) =
      mark_and_notify-get cfg b status expired now "stale runner label quarantine expired" there in
    rw (end_quarantine, found) others

-- A record written as it was.
unwritten :
    (b : Broker) (status : AllocationStatus)
    → get b.store.allocations status.id ≡ some status
    → Writes b status.id status b
unwritten b status there j = elim (Bool-cases (status.id == j)) [
  | inl same ↦ rw same (
      subst (λ i. get b.store.allocations i ≡ some status)
        ((string_eq.agrees_iff status.id j).0 same) there)
  | inr other ↦ rw other refl
]

-- One pass of the loop writes the record that it visits, and no other.
sweep_one-get :
    (cfg : Config) (b : Broker) (status : AllocationStatus) (now : Time)
    → get b.store.allocations status.id ≡ some status
    → Writes b status.id (swept cfg now status) (sweep_one cfg b status now).0
unfolding sweep_one swept due
sweep_one-get cfg b status now there = elim (Bool-cases (is_active_state status.state)) [
  | inl active ↦
      elim (Bool-cases (is_registration_over cfg status now && is_unconfirmed cfg status)) [
        | inl alone ↦
            rw (sweep_one, swept, due, active, alone)
              (expire_unconfirmed-get cfg b status now there)
        | inr fine ↦ elim (Bool-cases (is_overdue cfg status now)) [
          | inl over ↦
              rw (sweep_one, swept, due, active, fine, over) (reap-get cfg b status now there)
          | inr early ↦ rw (sweep_one, swept, due, active, fine, early) (unwritten b status there)
        ]
      ]
  | inr ended ↦ elim (Bool-cases (status.state == quarantined)) [
    | inr other ↦ rw (sweep_one, swept, due, ended, other) (unwritten b status there)
    | inl held ↦ elim (Bool-cases (ltb now status.expires_at)) [
      | inl waits ↦ rw (sweep_one, swept, due, ended, held, waits) (unwritten b status there)
      | inr over ↦
          rw (sweep_one, swept, due, ended, held, over) (end_quarantine-get cfg b status now there)
    ]
  ]
]

unfoldable pub has : List AllocationStatus → String → Bool
has [] id = false
has (s ∷ ss) id = s.id == id || has ss id

-- Every listed record is in the map under its id, and no id is listed twice.
unfoldable pub IsListed : Allocations → List AllocationStatus → Type 0
IsListed m [] = Unit
IsListed m (s ∷ ss) = (get m s.id ≡ some s) × (has ss s.id ≡ false) × IsListed m ss

pub IsListed-congr :
    (m n : Allocations) (ss : List AllocationStatus)
    → ((j : String) → has ss j ≡ true → get m j ≡ get n j)
    → IsListed m ss
    → IsListed n ss
unfolding IsListed has
IsListed-congr m n [] same h = tt
IsListed-congr m n (s ∷ ss) same (there, once, rest) = (
  sym (same s.id (ground (arith, ==_refl s.id))) ∙ there,
  once,
  IsListed-congr m n ss (λ j listed. same j (ground arith)) rest,
)

abbrev pub swept_option : Config → Time → Option AllocationStatus → Option AllocationStatus
swept_option cfg now none = none
swept_option cfg now (some status) = some (swept cfg now status)

pub sweep_all-get :
    (cfg : Config) (b : Broker) (ss : List AllocationStatus) (now : Time) (j : String)
    → IsListed b.store.allocations ss
    → get (sweep_all cfg b ss now).0.store.allocations j ≡ (
        if has ss j
        then swept_option cfg now (get b.store.allocations j)
        else get b.store.allocations j)
unfolding sweep_all IsListed has
sweep_all-get cfg b [] now j h = refl
sweep_all-get cfg b (s ∷ ss) now j (there, once, listed) =
    let step = sweep_one-get cfg b s now there in
    let later = (sweep_one cfg b s now).0 in
    let rest = sweep_all-get cfg later ss now j (
      IsListed-congr b.store.allocations later.store.allocations ss
        (λ i in_ss. unwritten_here step i in_ss) listed) in
    elim (Bool-cases (s.id == j)) [
      | inl same ↦
          let eq = (string_eq.agrees_iff s.id j).0 same in
          let absent = subst (λ k. has ss k ≡ false) eq once in
          let here = subst (λ k. get b.store.allocations k ≡ some s) eq there in
          rest
          ∙ else_of (has ss j) _ _ absent
          ∙ step j
          ∙ then_of (s.id == j) _ _ same
          ∙ sym (ap (swept_option cfg now) here)
          ∙ sym (then_of (s.id == j || has ss j) _ _ (ground arith))
      | inr other ↦
          let kept = step j ∙ else_of (s.id == j) _ _ other in
          rw (other) (rest ∙ ap (λ o. if has ss j then swept_option cfg now o else o) kept)
    ]
  where
    unwritten_here :
        Writes b s.id (swept cfg now s) (sweep_one cfg b s now).0
        → (i : String) → has ss i ≡ true
        → get b.store.allocations i ≡ get (sweep_one cfg b s now).0.store.allocations i
    unwritten_here step i in_ss = elim (Bool-cases (s.id == i)) [
      | inl same ↦
          let absent = subst (λ k. has ss k ≡ false) ((string_eq.agrees_iff s.id i).0 same) once in
          absurd (ground arith)
      | inr other ↦ sym (step i ∙ else_of (s.id == i) _ _ other)
    ]
