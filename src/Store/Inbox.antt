-- ===== src/Store/Inbox.antt =====
-- internal/store/inbox.go: the queue of webhook deliveries of the memory store.
pub mod WellFormed
pub mod Claim
pub mod Lease
pub mod Delivery
use unified_ephemeral_runner.Common.{
  ℕ, suc, String, ◌+◌, Bool, false, ◌&&◌, ◌||◌, none, some, List, [], ◌∷◌, ◌==◌, string_eq, nat_eq,
  pair_eq, Dict, get, erase, put, if◌then◌else◌, ltb, length, take,
}
use unified_ephemeral_runner.Common.Sorting.{sort}
use unified_ephemeral_runner.Model.{Time, Duration}

pub record WebhookDelivery : Type 0 where
  pub id : ℕ
  pub delivery_id : String
  pub payload : String
  pub attempts : ℕ
  pub received_at : Time

-- memoryInboxItem
pub record InboxItem : Type 0 where
  pub delivery : WebhookDelivery
  pub locked_until : Time

-- memoryInbox; the nil map of a new store has no items.
pub record Inbox : Type 0 where
  pub next_id : ℕ
  pub items : Dict ℕ InboxItem

abbrev pub new_inbox : Inbox
new_inbox = record { next_id = 0; items = [] }

unfoldable pub is_enqueued : Dict ℕ InboxItem → String → Bool
is_enqueued [] delivery_id = false
is_enqueued ((k, item) ∷ m) delivery_id =
    item.delivery.delivery_id == delivery_id || is_enqueued m delivery_id

-- EnqueueWebhook at the time `now`
unfoldable pub enqueue_webhook : Inbox → String → String → Time → Inbox
enqueue_webhook inbox delivery_id payload now =
    let id = suc inbox.next_id in
    if is_enqueued inbox.items delivery_id then inbox else record {
      next_id = id;
      items = put inbox.items id (record {
        delivery = record {
          id = id;
          delivery_id = delivery_id;
          payload = payload;
          attempts = 0;
          received_at = now;
        };
        locked_until = 0;
      });
    }

unfoldable pub unlocked : Time → Dict ℕ InboxItem → List WebhookDelivery
unlocked now [] = []
unlocked now ((k, item) ∷ m) =
    let rest = unlocked now m in if ltb now item.locked_until then rest else item.delivery ∷ rest

abbrev pub by_id : WebhookDelivery → WebhookDelivery → Bool
by_id d e = ltb d.id e.id

-- The deliveries that a claim leases: a limit of 0 (or below, in the source) is none.
unfoldable pub claimable : Inbox → ℕ → Time → List WebhookDelivery
claimable inbox limit now =
    let out = sort by_id (unlocked now inbox.items) in
    if ltb 0 limit && ltb limit (length out) then take limit out else out

abbrev pub leased : Time → InboxItem → InboxItem
leased until item = record {
  delivery = record item.delivery { attempts = suc item.delivery.attempts };
  locked_until = until;
}

-- The last loop of ClaimWebhooks: the items, and the deliveries as they are returned. Every id of the
-- second list has an item (in the source a missing one is a nil pointer).
unfoldable pub lease_all :
    Time → Dict ℕ InboxItem → List WebhookDelivery → Dict ℕ InboxItem × List WebhookDelivery
lease_all until items [] = (items, [])
lease_all until items (d ∷ out) = elim (get items d.id) [
  | none ↦ lease_all until items out
  | some item ↦
      let rest = lease_all until (put items d.id (leased until item)) out in
      (rest.0, record d { attempts = suc item.delivery.attempts } ∷ rest.1)
]

-- ClaimWebhooks at the time `now`
unfoldable pub claim_webhooks : Inbox → ℕ → Duration → Time → Inbox × List WebhookDelivery
claim_webhooks inbox limit lease now =
    let r = lease_all (now + lease) inbox.items (claimable inbox limit now) in
    (record inbox { items = r.0 }, r.1)

unfoldable pub ack_webhook : Inbox → ℕ → Inbox
ack_webhook inbox id = record inbox { items = erase inbox.items id }

-- The calls on the inbox, with the time at which each runs.
pub data InboxCall : Type 0 where
  enqueues : String → String → Time → InboxCall
  claims : ℕ → Duration → Time → InboxCall
  acks : ℕ → InboxCall

abbrev pub after_call : Inbox → InboxCall → Inbox
after_call inbox (enqueues delivery_id payload now) = enqueue_webhook inbox delivery_id payload now
after_call inbox (claims limit lease now) = (claim_webhooks inbox limit lease now).0
after_call inbox (acks id) = ack_webhook inbox id

abbrev pub after_calls : Inbox → List InboxCall → Inbox
after_calls inbox [] = inbox
after_calls inbox (call ∷ calls) = after_calls (after_call inbox call) calls

-- Some delivery of the list has the id.
unfoldable pub has_id : List WebhookDelivery → ℕ → Bool
has_id [] id = false
has_id (d ∷ ds) id = d.id == id || has_id ds id
