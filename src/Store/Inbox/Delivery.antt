-- ===== src/Store/Inbox/Delivery.antt =====
-- No delivery is lost, and none is enqueued twice.
use unified_ephemeral_runner.Common.{
  ℕ, suc, String, ◌≡◌, refl, sym, ap, ◌∙◌, subst, ◌+◌, ◌≤◌, inl, inr, Bool, true, false, not, ◌&&◌,
  Option, none, some, List, [], ◌∷◌, arith, ◌==◌, ==_refl, string_eq, nat_eq, pair_eq, Dict, get,
  erase, put, leb, Bool-cases, Option-cases, leb→le, get-erase, get-put, get-put_self, value_of,
}
use unified_ephemeral_runner.Model.{Time, Duration}
use unified_ephemeral_runner.Store.Inbox.{
  WebhookDelivery, InboxItem, Inbox, is_enqueued, enqueue_webhook, unlocked, claimable, leased,
  lease_all, claim_webhooks, ack_webhook, InboxCall, enqueues, claims, acks, after_call,
  after_calls, has_id,
}
use unified_ephemeral_runner.Store.Inbox.WellFormed.{
  IsWellFormed, get-IsKeyed, after_call-IsWellFormed,
}
use unified_ephemeral_runner.Store.Inbox.Claim.{
  has_id-sort, has_id-unlocked, lease_all-others, lease_all-locked, lease_all-missing,
  lease_all-present,
}
use unified_ephemeral_runner.Store.Inbox.Lease.{get-put_other, newer}

abbrev pub content_of : Option InboxItem → Option (String × String)
content_of none = none
content_of (some item) = some (item.delivery.delivery_id, item.delivery.payload)

lease_all-content :
    (until : Time) (items : Dict ℕ InboxItem) (out : List WebhookDelivery) (id : ℕ)
    → content_of (get (lease_all until items out).0 id) ≡ content_of (get items id)
unfolding lease_all
lease_all-content until items [] id = refl
lease_all-content until items (d ∷ out) id = elim (Option-cases (get items d.id)) [
  | inl gone ↦ rw (gone, lease_all) (lease_all-content until items out id)
  | inr (item, there) ↦
      rw (there, lease_all)
        (lease_all-content until (put items d.id (leased until item)) out id
          ∙ elim (Bool-cases (d.id == id)) [
            | inl same ↦
                let here =
                  subst (λ j. get items j ≡ some item) ((nat_eq.agrees_iff d.id id).0 same) there in
                rw (get-put items d.id (leased until item) id, same, here) refl
            | inr other ↦ ap content_of (get-put_other items d.id (leased until item) id other)
          ])
]

lease_all-has_id :
    (until : Time) (items : Dict ℕ InboxItem) (out : List WebhookDelivery) (id : ℕ)
    (x : String × String)
    → content_of (get items id) ≡ some x
    → has_id out id ≡ true
    → has_id (lease_all until items out).1 id ≡ true
unfolding has_id
lease_all-has_id until items [] id x there h = absurd (ground arith)
lease_all-has_id until items (d ∷ out) id x there h = elim (Option-cases (get items d.id)) [
  | inl gone ↦
      let step = ap (λ r. has_id r.1 id) (lease_all-missing until items d out gone) in
      elim (Bool-cases (d.id == id)) [
        | inl same ↦
            let none_here =
              subst (λ j. get items j ≡ none) ((nat_eq.agrees_iff d.id id).0 same) gone in
            absurd (ground (arith, sym (ap content_of none_here) ∙ there))
        | inr other ↦ step ∙ lease_all-has_id until items out id x there (ground arith)
      ]
  | inr (item, present) ↦
      let step = ap (λ r. has_id r.1 id) (lease_all-present until items d out item present) in
      step ∙ elim (Bool-cases (d.id == id)) [
        | inl same ↦ ground arith
        | inr other ↦
            let kept = get-put_other items d.id (leased until item) id other in
            let rest =
              lease_all-has_id until (put items d.id (leased until item)) out id x
                (ap content_of kept ∙ there) in
            ground arith
      ]
]

-- The delivery waits under the id, and its lease runs out by the time.
pub record IsWaiting (inbox : Inbox) (id : ℕ) (x : String × String) (by : Time) : Type 0 where
  pub content : content_of (get inbox.items id) ≡ some x
  pub free : (item : InboxItem) → get inbox.items id ≡ some item → item.locked_until ≤ by

-- The call does not acknowledge the id, and the lease of a claim runs out by the time.
abbrev pub lets_wait : ℕ → Time → InboxCall → Bool
lets_wait id by (enqueues delivery_id payload now) = true
lets_wait id by (claims limit lease now) = leb (now + lease) by
lets_wait id by (acks done) = not (done == id)

abbrev pub all_let_wait : ℕ → Time → List InboxCall → Bool
all_let_wait id by [] = true
all_let_wait id by (call ∷ calls) = lets_wait id by call && all_let_wait id by calls

after_call-IsWaiting :
    (inbox : Inbox) (call : InboxCall) (id : ℕ) (x : String × String) (by : Time)
    → IsWellFormed inbox
    → lets_wait id by call ≡ true
    → IsWaiting inbox id x by
    → IsWaiting (after_call inbox call) id x by
unfolding enqueue_webhook claim_webhooks ack_webhook
after_call-IsWaiting inbox (enqueues delivery_id payload now) id x by w ok waits =
    elim (Bool-cases (is_enqueued inbox.items delivery_id)) [
      | inl known ↦ rw (known, enqueue_webhook) waits
      | inr fresh ↦
          rw (fresh, enqueue_webhook)
            (record {
              content = ap content_of (kept _) ∙ waits.content;
              free = λ item there. waits.free item (sym (kept _) ∙ there);
            })
    ]
  where
    given : id ≤ inbox.next_id
    given = elim (Option-cases (get inbox.items id)) [
      | inl gone ↦ absurd (ground (arith, sym (ap content_of gone) ∙ waits.content))
      | inr (item, there) ↦ (get-IsKeyed inbox.next_id inbox.items id item w.keyed there).1
    ]

    kept :
        (item : InboxItem) → get (put inbox.items (suc inbox.next_id) item) id ≡ get inbox.items id
    kept item = get-put_other inbox.items (suc inbox.next_id) item id (newer id inbox.next_id given)
after_call-IsWaiting inbox (claims limit lease now) id x by w ok waits =
    let out = claimable inbox limit now in
    record {
      content = lease_all-content (now + lease) inbox.items out id ∙ waits.content;
      free = λ item there. elim (Bool-cases (has_id out id)) [
        | inl claimed ↦
            let locked = lease_all-locked (now + lease) inbox.items out id item claimed there in
            let bound = leb→le (now + lease) by ok in omega arith
        | inr other ↦
            waits.free item (sym (lease_all-others (now + lease) inbox.items out id other) ∙ there)
      ];
    }
after_call-IsWaiting inbox (acks done) id x by w ok waits =
    let other : (done == id) ≡ false = ground arith in
    let kept : get (erase inbox.items done) id ≡ get inbox.items id =
      ground (arith, get-erase inbox.items done id) in
    record {
      content = ap content_of kept ∙ waits.content;
      free = λ item there. waits.free item (sym kept ∙ there);
    }

after_calls-IsWaiting :
    (calls : List InboxCall) (inbox : Inbox) (id : ℕ) (x : String × String) (by : Time)
    → IsWellFormed inbox
    → all_let_wait id by calls ≡ true
    → IsWaiting inbox id x by
    → IsWellFormed (after_calls inbox calls) × IsWaiting (after_calls inbox calls) id x by
after_calls-IsWaiting [] inbox id x by w ok waits = (w, waits)
after_calls-IsWaiting (call ∷ calls) inbox id x by w ok waits =
    after_calls-IsWaiting calls (after_call inbox call) id x by
      (after_call-IsWellFormed inbox call w) (ground arith)
      (after_call-IsWaiting inbox call id x by w (ground arith) waits)

enqueued-IsWaiting :
    (inbox : Inbox) (delivery_id payload : String) (received by : Time)
    → is_enqueued inbox.items delivery_id ≡ false
    → IsWaiting
        (enqueue_webhook inbox delivery_id payload received)
        (suc inbox.next_id)
        (delivery_id, payload)
        by
unfolding enqueue_webhook
enqueued-IsWaiting inbox delivery_id payload received by fresh =
    rw (fresh, enqueue_webhook)
      (record {
        content = ap content_of (get-put_self inbox.items (suc inbox.next_id) _);
        free = λ item there.
            let zero_lock =
              ap (value_of (λ i. i.locked_until))
                (sym there ∙ get-put_self inbox.items (suc inbox.next_id) _) in
            omega arith;
      })

claimed :
    (inbox : Inbox) (id : ℕ) (x : String × String) (now : Time) (lease : Duration)
    → IsWellFormed inbox
    → IsWaiting inbox id x now
    → has_id (claim_webhooks inbox 0 lease now).1 id ≡ true
unfolding claim_webhooks claimable
claimed inbox id x now lease w waits =
    let stands = has_id-unlocked inbox.next_id now inbox.items id w.unique w.keyed in
    let sorted = has_id-sort (unlocked now inbox.items) id in
    let unlocked_here : has_id (unlocked now inbox.items) id ≡ true =
      elim (Option-cases (get inbox.items id)) [
        | inl gone ↦ absurd (ground (arith, sym (ap content_of gone) ∙ waits.content))
        | inr (item, there) ↦ let free = waits.free item there in ground arith
      ] in
    lease_all-has_id (now + lease) inbox.items _ id x waits.content (sorted ∙ unlocked_here)

-- A delivery that was enqueued, and that no call has acknowledged, is still there with its payload,
-- and a claim without a limit returns it once every lease has run out.
pub enqueued_delivery :
    (inbox : Inbox) (delivery_id payload : String) (received by : Time) (lease : Duration)
    (calls : List InboxCall)
    → IsWellFormed inbox
    → is_enqueued inbox.items delivery_id ≡ false
    → all_let_wait (suc inbox.next_id) by calls ≡ true
    → let later = after_calls (enqueue_webhook inbox delivery_id payload received) calls in
      (content_of (get later.items (suc inbox.next_id)) ≡ some (delivery_id, payload))
      × (has_id (claim_webhooks later 0 lease by).1 (suc inbox.next_id) ≡ true)
enqueued_delivery inbox delivery_id payload received by lease calls w fresh ok =
    let id = suc inbox.next_id in
    let first = enqueue_webhook inbox delivery_id payload received in
    let (w', waits) =
      after_calls-IsWaiting calls first id (delivery_id, payload) by
        (after_call-IsWellFormed inbox (enqueues delivery_id payload received) w) ok
        (enqueued-IsWaiting inbox delivery_id payload received by fresh) in
    let later = after_calls first calls in
    (waits.content, claimed later id (delivery_id, payload) by lease w' waits)

-- Enqueueing a delivery again changes nothing.
pub enqueue_webhook-enqueue_webhook :
    (inbox : Inbox) (delivery_id payload payload' : String) (now now' : Time)
    → let once = enqueue_webhook inbox delivery_id payload now in
      enqueue_webhook once delivery_id payload' now' ≡ once
unfolding enqueue_webhook is_enqueued put
enqueue_webhook-enqueue_webhook inbox delivery_id payload payload' now now' =
    elim (Bool-cases (is_enqueued inbox.items delivery_id)) [
      | inl known ↦ rw (known, enqueue_webhook, known) refl
      | inr fresh ↦ rw (fresh, enqueue_webhook, ==_refl delivery_id) refl
    ]
