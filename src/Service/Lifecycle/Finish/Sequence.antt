-- ===== src/Service/Lifecycle/Finish/Sequence.antt =====
-- Cancel and Complete of one allocation, one after the other.
use unified_ephemeral_runner.Common.{
  String, ◌≡◌, refl, sym, ap, ◌∙◌, subst, ◌⊎◌, inl, inr, ◌+◌, ◌≤◌, ℕ, suc, ◌&&◌, not, Bool, true,
  false, Option, none, some, List, [], ◌∷◌, arith, ◌==◌, string_eq, nat_eq, pair_eq, get,
  if◌then◌else◌, Bool-cases, Option-cases, get-put_self, any,
}
use unified_ephemeral_runner.Common.Text.{to_lower, trim_space}
use unified_ephemeral_runner.Model.{
  Time, AllocationState, canceled, expired, failed, completed, quarantined, state_eq,
  AllocationStatus,
}
use unified_ephemeral_runner.Store.{apply_mark_state, is_terminal_state, mark_state}
use unified_ephemeral_runner.Service.Lifecycle.{
  Config, Call, notifies, releases, reclaims, fails_with, Broker, is_active_state, resolve_pool,
  mark_and_notify,
}
use unified_ephemeral_runner.Service.Lifecycle.Finish.{
  Canceled, not_found, already_terminal, was_canceled, cancel, CompletionRequest,
  parse_completion_state, default_completion_message, release_completed, complete,
}
use unified_ephemeral_runner.Service.Lifecycle.Finish.Once.{
  Outcome, released_calls, cancel_lem, notified_calls, notify_lifecycle_terminal-calls,
}

data IsEnding : Option (AllocationState × String) → Type 0 where
  invalid_state : IsEnding none
  ending :
      (target : AllocationState) (message : String)
      → is_terminal_state target ≡ true
      → IsEnding (some (target, message))

if-IsEnding :
    (b : Bool) {x y : Option (AllocationState × String)}
    → IsEnding x
    → IsEnding y
    → IsEnding (if b then x else y)
if-IsEnding true hx hy = hx
if-IsEnding false hx hy = hy

-- What Complete may write ends the allocation.
parse_completion_state-IsEnding :
    (request : CompletionRequest) → IsEnding (parse_completion_state request)
unfolding parse_completion_state
parse_completion_state-IsEnding request =
    let state = trim_space (to_lower request.state) in
    let among : List String → Bool = λ words. any (λ word. word == state) words in
    if-IsEnding (state == "") (ending completed "" refl) (
      if-IsEnding (among ("complete" ∷ "completed" ∷ "success" ∷ "succeeded" ∷ []))
        (ending completed request.reason refl)
        (if-IsEnding (among ("failed" ∷ "failure" ∷ "error" ∷ []))
          (ending failed request.error refl)
          (if-IsEnding (among ("canceled" ∷ "cancelled" ∷ "cancel" ∷ []))
            (ending canceled request.reason refl)
            (if-IsEnding (state == "expired") (ending expired request.reason refl) (
              if-IsEnding (among ("quarantined" ∷ "quarantine" ∷ []))
                (ending quarantined request.reason refl) invalid_state)))))

parsed_target :
    (request : CompletionRequest) (target : AllocationState) (message : String)
    → parse_completion_state request ≡ some (target, message)
    → is_terminal_state target ≡ true
parsed_target request target message parsed =
    elim (subst IsEnding parsed (parse_completion_state-IsEnding request)) [
      | ending target message ends ↦ ends
    ]

unequal :
    (s t : AllocationState)
    → is_terminal_state s ≡ false
    → is_terminal_state t ≡ true
    → (s == t) ≡ false
unequal s t going ends = elim (Bool-cases (s == t)) [
  | inl same ↦
      let eq = (state_eq.agrees_iff s t).0 same in
      absurd (ground (arith, ap is_terminal_state eq, going, ends))
  | inr other ↦ other
]

mark_and_notify_lem :
    (cfg : Config) (b : Broker) (id : String) (target : AllocationState) (now : Time)
    (message : String) (status : AllocationStatus)
    → get b.store.allocations id ≡ some status
    → is_terminal_state target ≡ true
    → let r = mark_and_notify cfg b id target now message in
      let written = apply_mark_state status target now message in
      (r.1 ≡ some written)
      × (get r.0.store.allocations id ≡ some written)
      × (r.0.calls ≡ notified_calls cfg written b.calls)
unfolding mark_and_notify mark_state apply_mark_state
mark_and_notify_lem cfg b id target now message status there ends =
    let written = apply_mark_state status target now message in
    let marked : Broker = record b { store = (mark_state b.store id target now message).0 } in
    let (calls, store) = notify_lifecycle_terminal-calls cfg marked written ends in
    let put_there : get (mark_state b.store id target now message).0.allocations id ≡ some written =
      rw (there, mark_state) (get-put_self b.store.allocations id written) in
    let found : (mark_state b.store id target now message).1 ≡ some written =
      rw (there, mark_state) refl in
    rw (mark_and_notify, found) (refl, ap (λ m. get m.allocations id) store ∙ put_there, calls)

-- A call of Cancel or of Complete, that nobody gets in between.
pub data Finish : Type 0 where
  cancels : Time → Finish
  completes : CompletionRequest → Time → Finish

abbrev pub finish : Config → String → Broker → Finish → Broker
finish cfg id b (cancels now) = (cancel cfg b id now []).0
finish cfg id b (completes request now) = (complete cfg b id request now []).0

abbrev pub finish_all : Config → String → Broker → List Finish → Broker
finish_all cfg id b [] = b
finish_all cfg id b (f ∷ fs) = finish_all cfg id (finish cfg id b f) fs

-- The releases of a slot among the calls.
abbrev pub release_count : List Call → ℕ
release_count [] = 0
release_count (releases pool backend status warm ∷ calls) = suc (release_count calls)
release_count (notifies status ∷ calls) = release_count calls
release_count (reclaims status ∷ calls) = release_count calls
release_count (fails_with pool backend reason now ∷ calls) = release_count calls

-- The record has ended.
abbrev pub IsEnded : Broker → String → Type 0
IsEnded b id =
    (status : AllocationStatus) × (get b.store.allocations id ≡ some status)
    × (is_terminal_state status.state ≡ true)

canceled_kept :
    (cfg : Config) (id : String) (b : Broker) (now : Time)
    → IsEnded b id
    → (cancel cfg b id now []).0 ≡ b
unfolding cancel
canceled_kept cfg id b now (status, there, ended) = rw (there, cancel, ended) refl

completed_kept :
    (cfg : Config) (id : String) (b : Broker) (request : CompletionRequest) (now : Time)
    → IsEnded b id
    → (complete cfg b id request now []).0 ≡ b
unfolding complete
completed_kept cfg id b request now (status, there, ended) =
    elim (Option-cases (parse_completion_state request)) [
      | inl bad ↦ rw (there, complete, bad) refl
      | inr (target, parsed) ↦ rw (there, complete, parsed, ended) refl
    ]

ended_kept :
    (cfg : Config) (id : String) (b : Broker) (f : Finish) → IsEnded b id → finish cfg id b f ≡ b
ended_kept cfg id b (cancels now) ended = canceled_kept cfg id b now ended
ended_kept cfg id b (completes request now) ended = completed_kept cfg id b request now ended

ended_kept_all :
    (cfg : Config) (id : String) (b : Broker) (fs : List Finish)
    → IsEnded b id
    → finish_all cfg id b fs ≡ b
ended_kept_all cfg id b [] ended = refl
ended_kept_all cfg id b (f ∷ fs) ended =
    ap (λ b'. finish_all cfg id b' fs) (ended_kept cfg id b f ended)
    ∙ ended_kept_all cfg id b fs ended

-- A call that releases nothing, or one slot of a record that it ends.
abbrev Step : Config → String → Broker → Broker → Type 0
Step cfg id b b' =
    (release_count b'.calls ≡ release_count b.calls)
    ⊎ ((release_count b'.calls ≤ release_count b.calls + 1) × IsEnded b' id)

release_count-notified :
    (cfg : Config) (status : AllocationStatus) (calls : List Call)
    → release_count (notified_calls cfg status calls) ≡ release_count calls
unfolding notified_calls
release_count-notified cfg status calls =
    elim (Bool-cases (cfg.lifecycle && not (status.id == ""))) [
      | inl on ↦ rw (on, notified_calls) refl
      | inr off ↦ rw (off, notified_calls) refl
    ]

release_count-released :
    (cfg : Config) (status : AllocationStatus) (calls : List Call)
    → release_count (released_calls cfg status calls) ≤ release_count calls + 1
unfolding released_calls
release_count-released cfg status calls = elim (Option-cases (resolve_pool cfg status.pool)) [
  | inl gone ↦ rw (gone, released_calls) (omega arith)
  | inr (pool, found) ↦ rw (found, released_calls) (omega arith)
]

canceled-Step :
    (cfg : Config) (id : String) (b later : Broker) (outcome : Canceled)
    → Outcome cfg b.calls id later outcome
    → Step cfg id b later
unfolding Outcome
canceled-Step cfg id b later not_found o = inl (ap release_count o.1)
canceled-Step cfg id b later (already_terminal status) o = inl (ap release_count o.2)
canceled-Step cfg id b later (was_canceled status) (ended, there, calls) =
    let one = release_count-released cfg status (notified_calls cfg status b.calls) in
    let none_more = release_count-notified cfg status b.calls in
    let after = ap release_count calls in
    inr (omega arith, (status, there, ap is_terminal_state ended))

release_completed-count :
    (cfg : Config) (b : Broker) (status : AllocationStatus) (target : AllocationState)
    (failure_class : String) (now : Time)
    → (release_count (release_completed cfg b status target failure_class now).calls
        ≤ release_count b.calls + 1)
      × ((release_completed cfg b status target failure_class now).store ≡ b.store)
release_completed-count cfg b status target failure_class now =
    elim (Bool-cases (is_active_state status.state)) [
      | inr idle ↦ rw (idle, release_completed) (omega arith, refl)
      | inl active ↦ elim (Option-cases (resolve_pool cfg status.pool)) [
        | inl gone ↦ rw (active, gone, release_completed) (omega arith, refl)
        | inr (pool, found) ↦ elim (Bool-cases (target == failed)) [
          | inl bad ↦ rw (active, found, bad, release_completed) (omega arith, refl)
          | inr good ↦ rw (active, found, good, release_completed) (omega arith, refl)
        ]
      ]
    ]

completed-Step :
    (cfg : Config) (id : String) (b : Broker) (request : CompletionRequest) (now : Time)
    → Step cfg id b (complete cfg b id request now []).0
unfolding complete apply_mark_state
completed-Step cfg id b request now = elim (Option-cases (get b.store.allocations id)) [
  | inl gone ↦ inl (rw (gone, complete) refl)
  | inr (status, there) ↦ elim (Option-cases (parse_completion_state request)) [
    | inl bad ↦ inl (rw (there, complete, bad) refl)
    | inr ((target, message), parsed) ↦ elim (Bool-cases (is_terminal_state status.state)) [
      | inl ended ↦ inl (rw (there, complete, parsed, ended) refl)
      | inr going ↦
          let ends = parsed_target request target message parsed in
          let differs = unequal status.state target going ends in
          let stored =
            if trim_space message == "" then default_completion_message target else message in
          let (result, written_here, calls) =
            mark_and_notify_lem cfg b id target now stored status there ends in
          let marked = (mark_and_notify cfg b id target now stored).0 in
          let (one, store) =
            release_completed-count cfg marked status target request.failure_class now in
          let written = apply_mark_state status target now stored in
          let none_more = ap release_count calls ∙ release_count-notified cfg written b.calls in
          inr (
            rw (there, complete, parsed, going, differs, result)
              (omega arith, (written, ap (λ m. get m.allocations id) store ∙ written_here, ends)))
    ]
  ]
]

finish-Step :
    (cfg : Config) (id : String) (b : Broker) (f : Finish) → Step cfg id b (finish cfg id b f)
finish-Step cfg id b (cancels now) = canceled-Step cfg id b _ _ (cancel_lem cfg b id now [])
finish-Step cfg id b (completes request now) = completed-Step cfg id b request now

-- Calls of Cancel and Complete for one allocation, one after the other and in any order, release no
-- slot, or they release at most one, leave the record in a terminal state, and no further such calls
-- change anything.
pub finish_once :
    (cfg : Config) (id : String) (b : Broker) (fs later : List Finish)
    → let b' = finish_all cfg id b fs in
      (release_count b'.calls ≡ release_count b.calls)
      ⊎ ((release_count b'.calls ≤ release_count b.calls + 1)
          × IsEnded b' id
          × (finish_all cfg id b' later ≡ b'))
finish_once cfg id b [] later = inl refl
finish_once cfg id b (f ∷ fs) later = elim (finish-Step cfg id b f) [
  | inl same ↦ elim (finish_once cfg id (finish cfg id b f) fs later) [
    | inl none_more ↦ inl (none_more ∙ same)
    | inr (one, ended, kept) ↦ inr (omega arith, ended, kept)
  ]
  | inr (one, ended) ↦
      let kept = ended_kept_all cfg id (finish cfg id b f) fs ended in
      let count = ap (λ b'. release_count b'.calls) kept in
      let still = subst (λ b'. IsEnded b' id) (sym kept) ended in
      inr (omega arith, still, ended_kept_all cfg id _ later still)
]
