-- ===== src/WorkflowJobRetry/Penalties.antt =====
-- The cooldown of backends whose runners do not register.
use unified_ephemeral_runner.Common.{
  ◌≡◌, refl, ap, ◌∙◌, ◌+◌, ◌<◌, ◌⊎◌, inl, inr, true, false, none, some, arith, ==_refl, string_eq,
  nat_eq, pair_eq, get, if◌then◌else◌, ltb, Option-cases, is_some, get-erase, get-put_self, length,
}
use unified_ephemeral_runner.Model.{Time, PoolName, BackendName, PoolConfig, AllocationRequest}
use unified_ephemeral_runner.WorkflowJobRetry.{
  registration_expiry_cooldown, RegistrationPenalty, RegistrationPenalties, penalize, no_penalty,
  record_registration_expiry, record_registration_success, registration_penalized,
  filter_registration_penalized,
}

expiry_cases :
    (m : RegistrationPenalties) (pool : PoolName) (name : BackendName) (now : Time)
    → (entry : RegistrationPenalty) × (get (record_registration_expiry m pool name now) (pool, name)
        ≡ some (penalize entry now))
      × ((get m (pool, name) ≡ some entry) ⊎ ((get m (pool, name) ≡ none) × (entry ≡ no_penalty)))
unfolding record_registration_expiry
expiry_cases m pool name now = elim (Option-cases (get m (pool, name))) [
  | inl e ↦
      rw (e, record_registration_expiry)
        (no_penalty, get-put_self m (pool, name) (penalize no_penalty now), inr (refl, refl))
  | inr (entry, e) ↦
      rw (e, record_registration_expiry)
        (entry, get-put_self m (pool, name) (penalize entry now), inl refl)
]

penalize-counts :
    (entry : RegistrationPenalty) (now : Time)
    → (penalize entry now).consecutive ≡ entry.consecutive + 1
unfolding penalize
penalize-counts entry now = ground arith

penalize-until :
    (entry : RegistrationPenalty) (now : Time)
    → 0 < entry.consecutive
    → (penalize entry now).skip_until ≡ now + registration_expiry_cooldown
unfolding penalize
penalize-until entry now counted = ground arith

success_erases :
    (m : RegistrationPenalties) (pool : PoolName) (name : BackendName)
    → get (record_registration_success m pool name) (pool, name) ≡ none
unfolding record_registration_success
success_erases m pool name =
    let key : PoolName × BackendName = (pool, name) in
    let same = ==_refl key in get-erase m key key ∙ ap (λ b. if b then none else get m key) same

-- Two expiries in a row, the second at `now`, keep a backend out until 30 minutes after `now`, and
-- one success lets it in again at once.
pub cooldown :
    (m : RegistrationPenalties) (pool : PoolName) (name : BackendName) (first now later : Time)
    → (registration_penalized
          (record_registration_expiry (record_registration_expiry m pool name first) pool name now)
          pool
          name
          later
        ≡ ltb later (now + registration_expiry_cooldown))
      × (registration_penalized (record_registration_success m pool name) pool name later ≡ false)
unfolding registration_penalized
cooldown m pool name first now later =
    let key : PoolName × BackendName = (pool, name) in
    let (one, put_one, from_one) = expiry_cases m pool name first in
    let (two, put_two, from_two) =
      expiry_cases (record_registration_expiry m pool name first) pool name now in
    (
      rw (put_two, registration_penalized) (second_until one two put_one from_two),
      rw (success_erases m pool name, registration_penalized) refl,
    )
  where
    second_until :
        (one two : RegistrationPenalty)
        → get (record_registration_expiry m pool name first) (pool, name)
          ≡ some (penalize one first)
        → (get (record_registration_expiry m pool name first) (pool, name) ≡ some two)
          ⊎ ((get (record_registration_expiry m pool name first) (pool, name) ≡ none)
              × (two ≡ no_penalty))
        → ltb later (penalize two now).skip_until ≡ ltb later (now + registration_expiry_cooldown)
    second_until one two before from =
        let counted = penalize-counts one first in
        let until = penalize-until two now in ap (ltb later) (until (ground arith))

-- The filter never empties a pool. It leaves a pinned request's pool as it is.
pub filter_keeps_some :
    (m : RegistrationPenalties) (pool : PoolConfig) (request : AllocationRequest) (now : Time)
    → 0 < length pool.backends
    → (0 < length (filter_registration_penalized m pool request now).backends)
      × ((is_some request.backend ≡ true) → filter_registration_penalized m pool request now ≡ pool)
unfolding filter_registration_penalized
filter_keeps_some m pool request now nonempty = ground arith
