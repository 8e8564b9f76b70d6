-- ===== src/Store/Inbox/Claim.antt =====
-- The two loops of a claim: what it collects, and what it leases.
use unified_ephemeral_runner.Common.{
  ℕ, zero, suc, ◌≡◌, refl, sym, ap, ◌∙◌, subst, inl, inr, true, false, not, ◌||◌, none, some, List,
  [], ◌∷◌, arith, ◌==◌, string_eq, nat_eq, pair_eq, Dict, get, put, Unique, ltb, Bool-cases,
  then_of, Option-cases, get-put, take, value_of,
}
use unified_ephemeral_runner.Common.Sorting.{insert, sort}
use unified_ephemeral_runner.Model.{Time}
use unified_ephemeral_runner.Store.Inbox.{
  WebhookDelivery, InboxItem, Inbox, unlocked, by_id, claimable, leased, lease_all, has_id,
}
use unified_ephemeral_runner.Store.Inbox.WellFormed.{IsKeyed}

pub has_id-insert :
    (d : WebhookDelivery) (ds : List WebhookDelivery) (id : ℕ)
    → has_id (insert by_id d ds) id ≡ (d.id == id || has_id ds id)
unfolding has_id insert
has_id-insert d [] id = refl
has_id-insert d (e ∷ ds) id = ground (arith, has_id-insert d ds id)

pub has_id-sort : (ds : List WebhookDelivery) (id : ℕ) → has_id (sort by_id ds) id ≡ has_id ds id
unfolding has_id sort
has_id-sort [] id = refl
has_id-sort (d ∷ ds) id = ground (arith, has_id-insert d (sort by_id ds) id, has_id-sort ds id)

has_id-take :
    (n : ℕ) (ds : List WebhookDelivery) (id : ℕ)
    → has_id (take n ds) id ≡ true
    → has_id ds id ≡ true
unfolding has_id
has_id-take zero ds id h = absurd (ground arith)
has_id-take (suc n) [] id h = h
has_id-take (suc n) (d ∷ ds) id h = ground (arith, has_id-take n ds id)

pub has_id-claimable :
    (inbox : Inbox) (limit : ℕ) (now : Time) (id : ℕ)
    → has_id (claimable inbox limit now) id ≡ true
    → has_id (unlocked now inbox.items) id ≡ true
unfolding claimable
has_id-claimable inbox limit now id h = ground (
  arith,
  has_id-sort (unlocked now inbox.items) id,
  has_id-take limit (sort by_id (unlocked now inbox.items)) id,
)

pub lease_all-missing :
    (until : Time) (items : Dict ℕ InboxItem) (d : WebhookDelivery) (out : List WebhookDelivery)
    → get items d.id ≡ none
    → lease_all until items (d ∷ out) ≡ lease_all until items out
unfolding lease_all
lease_all-missing until items d out gone = rw (gone, lease_all) refl

pub lease_all-present :
    (until : Time) (items : Dict ℕ InboxItem) (d : WebhookDelivery) (out : List WebhookDelivery)
    (item : InboxItem)
    → get items d.id ≡ some item
    → let rest = lease_all until (put items d.id (leased until item)) out in
      lease_all until items (d ∷ out)
      ≡ (rest.0, record d { attempts = suc item.delivery.attempts } ∷ rest.1)
unfolding lease_all
lease_all-present until items d out item there = rw (there, lease_all) refl

-- A delivery that is not claimed keeps its item.
pub lease_all-others :
    (until : Time) (items : Dict ℕ InboxItem) (out : List WebhookDelivery) (id : ℕ)
    → has_id out id ≡ false
    → get (lease_all until items out).0 id ≡ get items id
unfolding lease_all has_id
lease_all-others until items [] id h = refl
lease_all-others until items (d ∷ out) id h = elim (Option-cases (get items d.id)) [
  | inl gone ↦ rw (gone, lease_all) (lease_all-others until items out id (ground arith))
  | inr (item, there) ↦
      rw (there, lease_all)
        (lease_all-others until (put items d.id (leased until item)) out id (ground arith)
          ∙ ground (arith, get-put items d.id (leased until item) id))
]

pub lease_all-locked :
    (until : Time) (items : Dict ℕ InboxItem) (out : List WebhookDelivery) (id : ℕ)
    (item : InboxItem)
    → has_id out id ≡ true
    → get (lease_all until items out).0 id ≡ some item
    → item.locked_until ≡ until
unfolding has_id
lease_all-locked until items [] id item h g = absurd (ground arith)
lease_all-locked until items (d ∷ out) id item h g = elim (Option-cases (get items d.id)) [
  | inl gone ↦
      let step = ap (λ r. get r.0 id) (lease_all-missing until items d out gone) in
      elim (Bool-cases (has_id out id)) [
        | inl later ↦ lease_all-locked until items out id item later (sym step ∙ g)
        | inr last ↦
            let same : d.id ≡ id = ground (arith, nat_eq.agrees_iff d.id id) in
            let kept = lease_all-others until items out id last in
            let gone_too = subst (λ j. get items j ≡ none) same gone in
            absurd (ground (arith, step, kept, gone_too, g))
      ]
  | inr (old, there) ↦
      let step = ap (λ r. get r.0 id) (lease_all-present until items d out old there) in
      let next = put items d.id (leased until old) in
      elim (Bool-cases (has_id out id)) [
        | inl later ↦ lease_all-locked until next out id item later (sym step ∙ g)
        | inr last ↦
            let same : (d.id == id) ≡ true = ground arith in
            let kept = lease_all-others until next out id last in
            let now = get-put items d.id (leased until old) id in
            let eq : some item ≡ some (leased until old) =
              sym g ∙ step ∙ kept ∙ now ∙ then_of (d.id == id) _ _ same in
            ap (value_of (λ i. i.locked_until)) eq
      ]
]

pub lease_all-claimed :
    (until : Time) (items : Dict ℕ InboxItem) (out : List WebhookDelivery) (id : ℕ)
    → has_id (lease_all until items out).1 id ≡ true
    → has_id out id ≡ true
unfolding lease_all has_id
lease_all-claimed until items [] id h = h
lease_all-claimed until items (d ∷ out) id h = elim (Option-cases (get items d.id)) [
  | inl gone ↦
      let step = ap (λ r. has_id r.1 id) (lease_all-missing until items d out gone) in
      let rest = lease_all-claimed until items out id (sym step ∙ h) in ground arith
  | inr (item, there) ↦
      let step = ap (λ r. has_id r.1 id) (lease_all-present until items d out item there) in
      let rest = lease_all-claimed until (put items d.id (leased until item)) out id in ground arith
]

pub has_id-unlocked :
    (next : ℕ) (now : Time) (items : Dict ℕ InboxItem) (id : ℕ)
    → Unique items
    → IsKeyed next items
    → has_id (unlocked now items) id
      ≡ (elim (get items id) [ none ↦ false | some item ↦ not (ltb now item.locked_until) ])
unfolding has_id unlocked get IsKeyed
has_id-unlocked next now [] id u h = refl
has_id-unlocked next now ((k, item) ∷ m) id u h = elim (Bool-cases (k == id)) [
  | inl same ↦
      let eq : k ≡ id = (nat_eq.agrees_iff k id).0 same in
      let gone = subst (λ j. get m j ≡ none) eq u.0 in
      ground (arith, has_id-unlocked next now m id u.1 h.2)
  | inr other ↦ ground (arith, has_id-unlocked next now m id u.1 h.2)
]
