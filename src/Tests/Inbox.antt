-- ===== src/Tests/Inbox.antt =====
-- The webhook inbox's theorems on two deliveries.
use unified_ephemeral_runner.Common.{
  ◌≡◌, refl, true, false, some, [], ◌∷◌, List, get, put, erase, string_eq, nat_eq,
}
use unified_ephemeral_runner.Common.Sorting.{sort, insert}
use unified_ephemeral_runner.Store.Inbox.{
  Inbox, InboxCall, new_inbox, is_enqueued, enqueue_webhook, unlocked, claimable, lease_all,
  claim_webhooks, has_id, enqueues, claims, acks, after_calls,
}
use unified_ephemeral_runner.Store.Inbox.WellFormed.{IsWellFormed, IsKeyed, after_call-IsWellFormed}
use unified_ephemeral_runner.Store.Inbox.Lease.{claim_exclusive}
use unified_ephemeral_runner.Store.Inbox.Delivery.{enqueued_delivery, content_of}

new_inbox-IsWellFormed : IsWellFormed new_inbox
unfolding IsKeyed
new_inbox-IsWellFormed = record { unique = tt; keyed = tt }

abbrev one : Inbox
one = enqueue_webhook new_inbox "d" "push" 1

one-IsWellFormed : IsWellFormed one
one-IsWellFormed = after_call-IsWellFormed new_inbox (enqueues "d" "push" 1) new_inbox-IsWellFormed

abbrev calls : List InboxCall
calls = enqueues "e" "job" 3 ∷ claims 1 4 5 ∷ acks 2 ∷ []

one_claimed : has_id (claim_webhooks one 0 10 2).1 1 ≡ true
unfolding has_id claim_webhooks claimable unlocked lease_all sort insert enqueue_webhook is_enqueued
    get put erase
one_claimed = refl

claim_exclusive_example :
    let later = after_calls (claim_webhooks one 0 10 2).0 calls in
    has_id (claim_webhooks later 5 10 11).1 1 ≡ false
claim_exclusive_example =
    claim_exclusive one 0 5 10 10 2 11 calls 1 one-IsWellFormed one_claimed refl refl

none_enqueued : is_enqueued new_inbox.items "d" ≡ false
unfolding is_enqueued
none_enqueued = refl

enqueued_delivery_example :
    let later = after_calls (enqueue_webhook new_inbox "d" "push" 1) calls in
    (content_of (get later.items 1) ≡ some ("d", "push"))
    × (has_id (claim_webhooks later 0 10 9).1 1 ≡ true)
enqueued_delivery_example =
    enqueued_delivery new_inbox "d" "push" 1 9 10 calls new_inbox-IsWellFormed none_enqueued refl
