-- ===== src/Store/Inbox/WellFormed.antt =====
-- What holds of an inbox after every call: the ids and the items of its map.
use unified_ephemeral_runner.Common.{
  ℕ, suc, ◌≡◌, refl, ◌+◌, ◌≤◌, inl, inr, some, List, [], ◌∷◌, arith, string_eq, nat_eq, pair_eq,
  Dict, get, erase, put, Unique, Bool-cases, Option-cases, erase-Unique, put-Unique,
}
use unified_ephemeral_runner.Store.Inbox.{
  WebhookDelivery, InboxItem, Inbox, is_enqueued, enqueue_webhook, claimable, leased, lease_all,
  claim_webhooks, ack_webhook, InboxCall, enqueues, claims, acks, after_call,
}

-- Every item stands under its id, which has been given out.
unfoldable pub IsKeyed : ℕ → Dict ℕ InboxItem → Type 0
IsKeyed next [] = Unit
IsKeyed next ((k, item) ∷ m) = (item.delivery.id ≡ k) × (k ≤ next) × IsKeyed next m

pub record IsWellFormed (inbox : Inbox) : Type 0 where
  pub unique : Unique inbox.items
  pub keyed : IsKeyed inbox.next_id inbox.items

erase-IsKeyed :
    (next : ℕ) (m : Dict ℕ InboxItem) (k : ℕ) → IsKeyed next m → IsKeyed next (erase m k)
unfolding IsKeyed erase
erase-IsKeyed next [] k h = tt
erase-IsKeyed next ((j, item) ∷ m) k h = ground (arith, erase-IsKeyed next m k h.2)

put-IsKeyed :
    (next : ℕ) (m : Dict ℕ InboxItem) (k : ℕ) (item : InboxItem)
    → item.delivery.id ≡ k
    → k ≤ next
    → IsKeyed next m
    → IsKeyed next (put m k item)
unfolding IsKeyed put
put-IsKeyed next m k item e le h = (e, le, erase-IsKeyed next m k h)

suc-IsKeyed : (next : ℕ) (m : Dict ℕ InboxItem) → IsKeyed next m → IsKeyed (suc next) m
unfolding IsKeyed
suc-IsKeyed next [] h = tt
suc-IsKeyed next ((j, item) ∷ m) h = (h.0, omega arith, suc-IsKeyed next m h.2)

pub get-IsKeyed :
    (next : ℕ) (m : Dict ℕ InboxItem) (k : ℕ) (item : InboxItem)
    → IsKeyed next m
    → get m k ≡ some item
    → (item.delivery.id ≡ k) × (k ≤ next)
unfolding IsKeyed get
get-IsKeyed next [] k item h g = absurd (ground arith)
get-IsKeyed next ((j, i) ∷ m) k item h g =
    ground (arith, get-IsKeyed next m k item h.2, nat_eq.agrees_iff j k)

lease_all-IsWellFormed :
    (next until : ℕ) (items : Dict ℕ InboxItem) (out : List WebhookDelivery)
    → Unique items
    → IsKeyed next items
    → Unique (lease_all until items out).0 × IsKeyed next (lease_all until items out).0
unfolding lease_all
lease_all-IsWellFormed next until items [] u h = (u, h)
lease_all-IsWellFormed next until items (d ∷ out) u h = elim (Option-cases (get items d.id)) [
  | inl gone ↦ rw (gone, lease_all) (lease_all-IsWellFormed next until items out u h)
  | inr (item, there) ↦
      let (own, below) = get-IsKeyed next items d.id item h there in
      rw (there, lease_all)
        (lease_all-IsWellFormed next until (put items d.id (leased until item)) out
          (put-Unique items d.id _ u) (put-IsKeyed next items d.id _ own below h))
]

-- Every call keeps the map: one item under each id, its own, and no id above the last one given out.
pub after_call-IsWellFormed :
    (inbox : Inbox) (call : InboxCall) → IsWellFormed inbox → IsWellFormed (after_call inbox call)
unfolding enqueue_webhook claim_webhooks ack_webhook
after_call-IsWellFormed inbox (enqueues delivery_id payload now) w =
    elim (Bool-cases (is_enqueued inbox.items delivery_id)) [
      | inl known ↦ rw (known, enqueue_webhook) w
      | inr fresh ↦
          rw (fresh, enqueue_webhook)
            (record {
              unique = put-Unique inbox.items (suc inbox.next_id) _ w.unique;
              keyed =
                  put-IsKeyed (suc inbox.next_id) inbox.items (suc inbox.next_id) _ refl
                    (omega arith) (suc-IsKeyed inbox.next_id inbox.items w.keyed);
            })
    ]
after_call-IsWellFormed inbox (claims limit lease now) w =
    let (unique, keyed) =
      lease_all-IsWellFormed inbox.next_id (now + lease) inbox.items (claimable inbox limit now)
        w.unique w.keyed in
    record { unique = unique; keyed = keyed }
after_call-IsWellFormed inbox (acks id) w = record {
  unique = erase-Unique inbox.items id w.unique;
  keyed = erase-IsKeyed inbox.next_id inbox.items id w.keyed;
}
