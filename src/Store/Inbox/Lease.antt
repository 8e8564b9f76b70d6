-- ===== src/Store/Inbox/Lease.antt =====
-- A claim is a lease: until it runs out no other claim returns the delivery.
use unified_ephemeral_runner.Common.{
  ℕ, suc, ◌≡◌, sym, ◌∙◌, ◌+◌, ◌≤◌, inl, inr, Bool, true, false, ◌&&◌, some, List, [], ◌∷◌, arith,
  ◌==◌, string_eq, nat_eq, pair_eq, Dict, get, put, ltb, Bool-cases, Option-cases, get-erase,
  get-put,
}
use unified_ephemeral_runner.Model.{Time, Duration}
use unified_ephemeral_runner.Store.Inbox.{
  InboxItem, Inbox, is_enqueued, enqueue_webhook, claimable, claim_webhooks, ack_webhook, InboxCall,
  enqueues, claims, acks, after_call, after_calls, has_id,
}
use unified_ephemeral_runner.Store.Inbox.WellFormed.{
  IsWellFormed, get-IsKeyed, after_call-IsWellFormed,
}
use unified_ephemeral_runner.Store.Inbox.Claim.{
  has_id-claimable, has_id-unlocked, lease_all-others, lease_all-locked, lease_all-claimed,
}

-- The claimed delivery's item, when it is still there, is locked until the lease runs out.
abbrev IsLocked : Inbox → ℕ → Time → Type 0
IsLocked inbox id until =
    (id ≤ inbox.next_id)
    × ((item : InboxItem) → get inbox.items id ≡ some item → until ≤ item.locked_until)

-- The call is not a claim, or a claim before the time.
abbrev pub is_before : Time → InboxCall → Bool
is_before until (claims limit lease now) = ltb now until
is_before until (enqueues delivery_id payload now) = true
is_before until (acks id) = true

abbrev pub all_before : Time → List InboxCall → Bool
all_before until [] = true
all_before until (call ∷ calls) = is_before until call && all_before until calls

locked-claimable :
    (inbox : Inbox) (id : ℕ) (until now : Time) (limit : ℕ)
    → IsWellFormed inbox
    → IsLocked inbox id until
    → ltb now until ≡ true
    → has_id (claimable inbox limit now) id ≡ false
locked-claimable inbox id until now limit w locked early =
    elim (Bool-cases (has_id (claimable inbox limit now) id)) [
      | inl claimed ↦
          let free = has_id-claimable inbox limit now id claimed in
          let stands = has_id-unlocked inbox.next_id now inbox.items id w.unique w.keyed in
          elim (Option-cases (get inbox.items id)) [
            | inl gone ↦ absurd (ground arith)
            | inr (item, there) ↦ let held = locked.1 item there in absurd (ground arith)
          ]
      | inr other ↦ other
    ]

pub get-put_other :
    (m : Dict ℕ InboxItem) (k : ℕ) (item : InboxItem) (j : ℕ)
    → (k == j) ≡ false
    → get (put m k item) j ≡ get m j
get-put_other m k item j other = ground (arith, get-put m k item j)

pub newer : (id next : ℕ) → id ≤ next → (suc next == id) ≡ false
newer id next le = elim (Bool-cases (suc next == id)) [
  | inl same ↦ let eq = (nat_eq.agrees_iff (suc next) id).0 same in absurd (omega arith)
  | inr other ↦ other
]

after_call-IsLocked :
    (inbox : Inbox) (call : InboxCall) (id : ℕ) (until : Time)
    → IsWellFormed inbox
    → is_before until call ≡ true
    → IsLocked inbox id until
    → IsLocked (after_call inbox call) id until
unfolding enqueue_webhook claim_webhooks ack_webhook
after_call-IsLocked inbox (enqueues delivery_id payload now) id until w early (given, locked) =
    elim (Bool-cases (is_enqueued inbox.items delivery_id)) [
      | inl known ↦ rw (known, enqueue_webhook) (given, locked)
      | inr fresh ↦
          rw (fresh, enqueue_webhook)
            (
              omega arith,
              λ item there. locked item (
                  sym (
                    get-put_other inbox.items (suc inbox.next_id) _ id
                      (newer id inbox.next_id given))
                  ∙ there),
            )
    ]
after_call-IsLocked inbox (claims limit lease now) id until w early (given, locked) =
    let other = locked-claimable inbox id until now limit w (given, locked) early in
    let kept = lease_all-others (now + lease) inbox.items (claimable inbox limit now) id other in
    (given, λ item there. locked item (sym kept ∙ there))
after_call-IsLocked inbox (acks gone) id until w early (given, locked) =
    (given, λ item there. ground (arith, get-erase inbox.items gone id, locked item))

after_calls-IsLocked :
    (calls : List InboxCall) (inbox : Inbox) (id : ℕ) (until : Time)
    → IsWellFormed inbox
    → all_before until calls ≡ true
    → IsLocked inbox id until
    → IsWellFormed (after_calls inbox calls) × IsLocked (after_calls inbox calls) id until
after_calls-IsLocked [] inbox id until w early locked = (w, locked)
after_calls-IsLocked (call ∷ calls) inbox id until w early locked =
    after_calls-IsLocked calls (after_call inbox call) id until
      (after_call-IsWellFormed inbox call w) (ground arith)
      (after_call-IsLocked inbox call id until w (ground arith) locked)

-- A delivery that a claim returns is returned by no other claim before its lease runs out, whatever
-- calls come between.
pub claim_exclusive :
    (inbox : Inbox) (limit limit' : ℕ) (lease lease' : Duration) (now now' : Time)
    (calls : List InboxCall) (id : ℕ)
    → IsWellFormed inbox
    → has_id (claim_webhooks inbox limit lease now).1 id ≡ true
    → all_before (now + lease) calls ≡ true
    → ltb now' (now + lease) ≡ true
    → let later = after_calls (claim_webhooks inbox limit lease now).0 calls in
      has_id (claim_webhooks later limit' lease' now').1 id ≡ false
unfolding claim_webhooks
claim_exclusive inbox limit limit' lease lease' now now' calls id w claimed early early' =
    let out = lease_all-claimed (now + lease) inbox.items (claimable inbox limit now) id claimed in
    let first = (claim_webhooks inbox limit lease now).0 in
    let stands = has_id-unlocked inbox.next_id now inbox.items id w.unique w.keyed in
    let free = has_id-claimable inbox limit now id out in
    let given : id ≤ inbox.next_id = elim (Option-cases (get inbox.items id)) [
      | inl gone ↦ absurd (ground arith)
      | inr (item, there) ↦ (get-IsKeyed inbox.next_id inbox.items id item w.keyed there).1
    ] in
    let locked : IsLocked first id (now + lease) = (
      given,
      λ item there.
          let same =
            lease_all-locked (now + lease) inbox.items (claimable inbox limit now) id item out
              there in
          omega arith,
    ) in
    let (w', held) =
      after_calls-IsLocked calls first id (now + lease)
        (after_call-IsWellFormed inbox (claims limit lease now) w) early locked in
    let later = after_calls first calls in
    let refused = locked-claimable later id (now + lease) now' limit' w' held early' in
    elim (Bool-cases (has_id (claim_webhooks later limit' lease' now').1 id)) [
      | inl again ↦ absurd (
          ground (
            arith,
            lease_all-claimed (now' + lease') later.items (claimable later limit' now') id again,
          ))
      | inr other ↦ other
    ]
