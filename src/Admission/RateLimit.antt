-- ===== src/Admission/RateLimit.antt =====
-- The rate limit over runs of calls of allow for one backend.
use unified_ephemeral_runner.Common.{
  ℕ, ◌≡◌, refl, sym, ap, Bool, get-overlay, ◌∙◌, ◌+◌, ◌-◌, ◌*◌, ◌≤◌, ◌<◌, ◌⊎◌, inl, inr, true,
  false, Option, none, some, List, [], ◌∷◌, arith, string_eq, nat_eq, pair_eq, get, if◌then◌else◌,
  leb, Bool-cases, Option-cases, get-put_self,
}
use unified_ephemeral_runner.Model.{Time, RateLimitConfig, BackendConfig}
use unified_ephemeral_runner.Admission.{
  AdmissionKey, BackendRateLimit, BackendAdmission, window_interval, window_permits, current_window,
  rate_limit_decision, circuit_decision, limited, reload_shared, refreshed, decide, allow,
  decide_saves,
}

-- A broker and the document in the shared store.
pub record World : Type 0 where
  pub admission : BackendAdmission
  pub shared : BackendAdmission

unfoldable pub or_else : {A : Type 0} → Option A → A → A
or_else none a = a
or_else (some b) a = b

-- What a consuming call decides by, once it has loaded the document.
abbrev pub loaded : World → BackendAdmission
loaded w = reload_shared w.admission (some w.shared)

-- A consuming call of allow for a cold start, and whether it was allowed, in a store that answers
-- every load with the document saved last.
unfoldable pub serve : World → AdmissionKey → BackendConfig → Time → World × Bool
serve w key cfg t =
    let r = allow w.admission (some w.shared) key cfg t false true in
    (
      record {
        admission = r.0;
        shared = or_else (decide_saves (loaded w) key cfg t false true) w.shared;
      },
      r.1.allowed,
    )

-- The calls at these times, and the number of them that were allowed.
abbrev pub consume_all : World → AdmissionKey → BackendConfig → List Time → World × ℕ
consume_all w key cfg [] = (w, 0)
consume_all w key cfg (t ∷ ts) =
    let r = serve w key cfg t in
    let rest = consume_all r.0 key cfg ts in (rest.0, (if r.1 then 1 else 0) + rest.1)

abbrev pub AllIn : Time → Time → List Time → Type 0
AllIn first after [] = Unit
AllIn first after (t ∷ ts) = (first ≤ t) × (t < after) × AllIn first after ts

abbrev one_more : BackendRateLimit → BackendRateLimit
one_more l = record l { used = l.used + 1 }

-- What one consuming call does: it counts in the window of its time, when a permit is left.
consume_step :
    (a : BackendAdmission) (key : AdmissionKey) (cfg : RateLimitConfig) (t : Time)
    → ((window_permits cfg ≤ (current_window a key cfg t).used)
        × ((rate_limit_decision a key cfg t true).1.allowed ≡ false)
        × (get (rate_limit_decision a key cfg t true).0.limits key
            ≡ some (current_window a key cfg t)))
      ⊎ (((current_window a key cfg t).used < window_permits cfg)
          × ((rate_limit_decision a key cfg t true).1.allowed ≡ true)
          × (get (rate_limit_decision a key cfg t true).0.limits key
              ≡ some (one_more (current_window a key cfg t))))
unfolding rate_limit_decision
consume_step a key cfg t =
    elim (Bool-cases (leb (window_permits cfg) (current_window a key cfg t).used)) [
      | inl e ↦
          rw (e, rate_limit_decision)
            (inl (ground arith, refl, get-put_self a.limits key (current_window a key cfg t)))
      | inr e ↦
          rw (e, rate_limit_decision)
            (inr (
              ground arith,
              refl,
              get-put_self a.limits key (one_more (current_window a key cfg t)),
            ))
    ]

permits-positive : (cfg : RateLimitConfig) → 0 < window_permits cfg
unfolding window_permits
permits-positive cfg = ground arith

-- The window in force at `t`: a fresh one, or the stored one, which has not ended.
window_cases :
    (a : BackendAdmission) (key : AdmissionKey) (cfg : RateLimitConfig) (t : Time)
    → (current_window a key cfg t ≡ record { window_start = t; used = 0 })
      ⊎ ((get a.limits key ≡ some (current_window a key cfg t))
          × (0 < (current_window a key cfg t).window_start)
          × (t < (current_window a key cfg t).window_start + window_interval cfg))
unfolding current_window
window_cases a key cfg t = elim (Option-cases (get a.limits key)) [
  | inl e ↦ rw (e, current_window) (inl refl)
  | inr (l, e) ↦ ground arith
]

-- A call that is denied leaves the record that it found.
pub record Denied (b : BackendAdmission) (key : AdmissionKey) (cfg : BackendConfig) (t : Time)
    : Type 0 where
  pub refused : (decide b key cfg t false true).1.allowed ≡ false
  pub kept : get (decide b key cfg t false true).0.limits key ≡ get b.limits key
  pub saved :
      (doc : BackendAdmission)
      → decide_saves b key cfg t false true ≡ some doc
      → get doc.limits key ≡ get b.limits key

-- A call that is allowed takes a permit of the window and saves.
pub record Granted (b : BackendAdmission) (key : AdmissionKey) (cfg : BackendConfig) (t : Time)
    : Type 0 where
  pub room : (current_window b key cfg.rate_limit t).used < window_permits cfg.rate_limit
  pub allowed : (decide b key cfg t false true).1.allowed ≡ true
  pub counted :
      get (decide b key cfg t false true).0.limits key
      ≡ some (one_more (current_window b key cfg.rate_limit t))
  pub saved : decide_saves b key cfg t false true ≡ some (decide b key cfg t false true).0

full_kept :
    (b : BackendAdmission) (key : AdmissionKey) (cfg : RateLimitConfig) (t : Time)
    → window_permits cfg ≤ (current_window b key cfg t).used
    → get b.limits key ≡ some (current_window b key cfg t)
full_kept b key cfg t full = elim (window_cases b key cfg t) [
  | inl fresh ↦ absurd (ground (arith, permits-positive cfg))
  | inr (known, begun, inside) ↦ known
]

window_decided :
    (b : BackendAdmission) (key : AdmissionKey) (cfg : BackendConfig) (t : Time)
    → current_window (circuit_decision b key cfg.circuit_breaker t true).0 key cfg.rate_limit t
      ≡ current_window b key cfg.rate_limit t
unfolding circuit_decision current_window
window_decided b key cfg t = refl

decide-cases :
    (b : BackendAdmission) (key : AdmissionKey) (cfg : BackendConfig) (t : Time)
    → cfg.rate_limit.enabled ≡ true
    → Denied b key cfg t ⊎ Granted b key cfg t
unfolding decide decide_saves limited circuit_decision
decide-cases b key cfg t limits = elim (Bool-cases cfg.circuit_breaker.enabled) [
  | inr off ↦ elim (consume_step b key cfg.rate_limit t) [
    | inl (full, denied, stored) ↦
        let same = full_kept b key cfg.rate_limit t full in
        inl (record { refused = ground arith; kept = ground arith; saved = λ doc e. ground arith })
    | inr (room, granted, stored) ↦ inr (record {
      room = room;
      allowed = ground arith;
      counted = ground arith;
      saved = ground arith;
    })
  ]
  | inl on ↦ elim (Bool-cases (circuit_decision b key cfg.circuit_breaker t true).1.allowed) [
    | inr closed_off ↦
        inl (record { refused = ground arith; kept = ground arith; saved = λ doc e. ground arith })
    | inl passed ↦
        elim (consume_step (circuit_decision b key cfg.circuit_breaker t true).0 key cfg.rate_limit
          t) [
            | inl (full, denied, stored) ↦
                let same =
                  full_kept (circuit_decision b key cfg.circuit_breaker t true).0 key cfg.rate_limit
                    t full in
                inl (record {
                  refused = ground arith;
                  kept = ground arith;
                  saved = λ doc e. ground arith;
                })
            | inr (room, granted, stored) ↦
                let same = window_decided b key cfg t in
                inr (record {
                  room = ground arith;
                  allowed = ground arith;
                  counted = ground arith;
                  saved = ground arith;
                })
          ]
  ]
]

same_window :
    (a : BackendAdmission) (key : AdmissionKey) (cfg : RateLimitConfig) (l : BackendRateLimit)
    (t : Time)
    → get a.limits key ≡ some l
    → 0 < l.window_start
    → t < l.window_start + window_interval cfg
    → current_window a key cfg t ≡ l
unfolding current_window
same_window a key cfg l t e started inside = ground arith

-- What the next call finds for the key.
abbrev pub found : World → AdmissionKey → Option BackendRateLimit
found w key = get (loaded w).limits key

either : Option BackendRateLimit → Option BackendRateLimit → Option BackendRateLimit
either none held = held
either (some saved) held = some saved

found-either :
    (w : World) (key : AdmissionKey)
    → found w key ≡ either (get w.shared.limits key) (get w.admission.limits key)
unfolding either reload_shared
found-either w key = elim (Option-cases (get w.shared.limits key)) [
  | inl e ↦ rw (get-overlay w.admission.limits w.shared.limits key, e) refl
  | inr (l, e) ↦ rw (get-overlay w.admission.limits w.shared.limits key, e) refl
]

either-either :
    (saved held : Option BackendRateLimit) → either saved (either saved held) ≡ either saved held
unfolding either
either-either none held = refl
either-either (some l) held = refl

either_same : (o : Option BackendRateLimit) → either o o ≡ o
unfolding either
either_same none = refl
either_same (some l) = refl

-- The next call finds what a denied one found.
Denied-found :
    (w : World) (key : AdmissionKey) (cfg : BackendConfig) (t : Time)
    → Denied (loaded w) key cfg t
    → found (serve w key cfg t).0 key ≡ found w key
unfolding serve allow refreshed or_else
Denied-found w key cfg t d =
    let after = found-either (serve w key cfg t).0 key in
    let before = found-either w key in
    elim (Option-cases (decide_saves (loaded w) key cfg t false true)) [
      | inl e ↦
          after
          ∙ rw (e, serve)
              (ap (λ o. either (get w.shared.limits key) o) (d.kept ∙ before)
                ∙ either-either (get w.shared.limits key) (get w.admission.limits key)
                ∙ sym before)
      | inr (doc, e) ↦
          after ∙ rw (e, serve) (rw (d.saved doc e, d.kept) (either_same (found w key)))
    ]

Granted-found :
    (w : World) (key : AdmissionKey) (cfg : BackendConfig) (t : Time)
    → Granted (loaded w) key cfg t
    → found (serve w key cfg t).0 key
      ≡ some (one_more (current_window (loaded w) key cfg.rate_limit t))
unfolding serve allow refreshed or_else
Granted-found w key cfg t g =
    found-either (serve w key cfg t).0 key
    ∙ rw (g.saved, serve) (ap (λ o. either o o) g.counted ∙ either_same _)

-- A call of a backend with a rate limit, by what it finds and what the next one will find.
serve-cases :
    (w : World) (key : AdmissionKey) (cfg : BackendConfig) (t : Time)
    → cfg.rate_limit.enabled ≡ true
    → (((serve w key cfg t).1 ≡ false) × (found (serve w key cfg t).0 key ≡ found w key))
      ⊎ (((current_window (loaded w) key cfg.rate_limit t).used < window_permits cfg.rate_limit)
          × ((serve w key cfg t).1 ≡ true)
          × (found (serve w key cfg t).0 key
              ≡ some (one_more (current_window (loaded w) key cfg.rate_limit t))))
unfolding serve allow refreshed
serve-cases w key cfg t limits = elim (decide-cases (loaded w) key cfg t limits) [
  | inl d ↦ inl (d.refused, Denied-found w key cfg t d)
  | inr g ↦ inr (g.room, g.allowed, Granted-found w key cfg t g)
]

run_in_window :
    (w : World) (key : AdmissionKey) (cfg : BackendConfig) (l : BackendRateLimit)
    (first after : Time) (ts : List Time)
    → cfg.rate_limit.enabled ≡ true
    → found w key ≡ some l
    → 0 < l.window_start
    → after ≤ l.window_start + window_interval cfg.rate_limit
    → AllIn first after ts
    → (consume_all w key cfg ts).1 ≤ window_permits cfg.rate_limit - l.used
run_in_window w key cfg l first after [] limits e started inside all = omega arith
run_in_window w key cfg l first after (t ∷ ts) limits e started inside (ge, lt, all) =
    let same = same_window (loaded w) key cfg.rate_limit l t e started (omega arith) in
    elim (serve-cases w key cfg t limits) [
      | inl (denied, next) ↦
          let rest =
            run_in_window (serve w key cfg t).0 key cfg l first after ts limits (next ∙ e) started
              inside all in
          ground arith
      | inr (room, granted, next) ↦
          let rest =
            run_in_window (serve w key cfg t).0 key cfg (one_more l) first after ts limits
              (next ∙ ap (λ w. some (one_more w)) same) started inside all in
          ground arith
    ]

permits_left : Option BackendRateLimit → RateLimitConfig → ℕ
permits_left none cfg = 0
permits_left (some l) cfg = window_permits cfg - l.used

run_in_two_windows :
    (w : World) (key : AdmissionKey) (cfg : BackendConfig) (first : Time) (ts : List Time)
    → cfg.rate_limit.enabled ≡ true
    → 0 < first
    → AllIn first (first + window_interval cfg.rate_limit) ts
    → (consume_all w key cfg ts).1
      ≤ permits_left (found w key) cfg.rate_limit + window_permits cfg.rate_limit
unfolding permits_left
run_in_two_windows w key cfg first [] limits started all = omega arith
run_in_two_windows w key cfg first (t ∷ ts) limits started (ge, lt, all) =
    elim (serve-cases w key cfg t limits) [
      | inl (denied, next) ↦
          let rest = run_in_two_windows (serve w key cfg t).0 key cfg first ts limits started all in
          let same = ap (λ o. permits_left o cfg.rate_limit) next in ground arith
      | inr (room, granted, next) ↦ elim (window_cases (loaded w) key cfg.rate_limit t) [
        | inl fresh ↦
            let rest =
              run_in_window (serve w key cfg t).0 key cfg (record { window_start = t; used = 1 })
                first (first + window_interval cfg.rate_limit) ts limits
                (next ∙ ap (λ w. some (one_more w)) fresh) (omega arith) (omega arith) all in
            ground (arith, permits-positive cfg.rate_limit)
        | inr (known, begun, inside) ↦
            let rest =
              run_in_two_windows (serve w key cfg t).0 key cfg first ts limits started all in
            let before = ap (λ o. permits_left o cfg.rate_limit) known in
            let after = ap (λ o. permits_left o cfg.rate_limit) next in ground arith
      ]
    ]

-- Consuming calls of allow for a cold start on one backend with an enabled rate limit, whose times
-- all lie in a stretch as long as the limit's interval, are allowed at most twice the permits of a
-- window: in any order, from any state and document, whatever the circuit breaker decides, where no
-- other operation comes in between, the store saves what it is given, and each call loads the
-- document saved last.
pub rate_limit_bound :
    (w : World) (key : AdmissionKey) (cfg : BackendConfig) (first : Time) (ts : List Time)
    → cfg.rate_limit.enabled ≡ true
    → 0 < first
    → AllIn first (first + window_interval cfg.rate_limit) ts
    → (consume_all w key cfg ts).1 ≤ 2 * window_permits cfg.rate_limit
unfolding permits_left
rate_limit_bound w key cfg first ts limits started all =
    let bound = run_in_two_windows w key cfg first ts limits started all in
    elim (Option-cases (found w key)) [ inl e ↦ ground arith | inr (l, e) ↦ ground arith ]
