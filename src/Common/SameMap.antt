-- ===== src/Common/SameMap.antt =====
-- Maps that hold the same entries, in whatever order.
use Prim.Native.Nat.{◌+◌}
use mathlib.Core.Path.{◌≡◌, refl, subst}
use mathlib.Core.Logic.{inl, inr}
use mathlib.Core.Bool.{Bool}
use mathlib.Core.List.{[], ◌∷◌}
use mathlib.Core.Option.{none, some}
use native.Mathlib.Omega.{arith}
use unified_ephemeral_runner.Common.Tests.{if◌then◌else◌, Bool-cases}
use unified_ephemeral_runner.Common.Equality.{Comparable, ◌==◌, ==_refl}
use unified_ephemeral_runner.Common.Maps.{
  Dict, get, erase, put, count_by, Unique, get-erase, get-put, erase-Unique,
}

module _ {ℓ κ} {K : Type ℓ} {V : Type κ} ⦃e : Comparable K⦄ where
  abbrev pub SameMap : Dict K V → Dict K V → Type (ℓ ⊔ κ)
  SameMap m n = (k : K) → get m k ≡ get n k

  pub put-SameMap : (m n : Dict K V) (k : K) (v : V) → SameMap m n → SameMap (put m k v) (put n k v)
  put-SameMap m n k v h j = ground (arith, get-put m k v j, get-put n k v j, h j)

  pub erase-SameMap : (m n : Dict K V) (k : K) → SameMap m n → SameMap (erase m k) (erase n k)
  erase-SameMap m n k h j = ground (arith, get-erase m k j, get-erase n k j, h j)

  -- A write undone by the write of what was there before.
  pub put-put-SameMap :
      (m : Dict K V) (k : K) (v old : V) → get m k ≡ some old → SameMap (put (put m k v) k old) m
  put-put-SameMap m k v old h j =
      ground (arith, get-put (put m k v) k old j, get-put m k v j, e.agrees_iff k j)

  pub erase-put-SameMap :
      (m : Dict K V) (k : K) (v : V) → get m k ≡ none → SameMap (erase (put m k v) k) m
  erase-put-SameMap m k v h j =
      ground (arith, get-erase (put m k v) k j, get-put m k v j, e.agrees_iff k j)

  pub put-erase-SameMap :
      (m : Dict K V) (k : K) (old : V) → get m k ≡ some old → SameMap (put (erase m k) k old) m
  put-erase-SameMap m k old h j =
      ground (arith, get-put (erase m k) k old j, get-erase m k j, e.agrees_iff k j)

  erase_missing : (m : Dict K V) (k : K) → get m k ≡ none → erase m k ≡ m
  unfolding get erase
  erase_missing [] k h = refl
  erase_missing ((j, v) ∷ m) k h = ground (arith, erase_missing m k)

  -- An entry counts once.
  count_by-split :
      (p : K → V → Bool) (m : Dict K V) (k : K) (v : V)
      → Unique m
      → get m k ≡ some v
      → count_by p m ≡ (if p k v then 1 else 0) + count_by p (erase m k)
  unfolding get erase
  count_by-split p [] k v u h = absurd (ground arith)
  count_by-split p ((j, w) ∷ m) k v u h = elim (Bool-cases (j == k)) [
    | inl same ↦
        let eq : j ≡ k = (e.agrees_iff j k).0 same in
        let gone = erase_missing m k (subst (λ i. get m i ≡ none) eq u.0) in ground arith
    | inr other ↦ ground (arith, count_by-split p m k v u.1)
  ]

  no_keys : (n : Dict K V) → SameMap [] n → n ≡ []
  unfolding get
  no_keys [] h = refl
  no_keys ((k, v) ∷ n) h = absurd (ground (arith, h k, ==_refl k))

  -- A loop that counts entries counts the same in every order.
  pub count_by-SameMap :
      (p : K → V → Bool) (m n : Dict K V)
      → Unique m
      → Unique n
      → SameMap m n
      → count_by p m ≡ count_by p n
  unfolding get
  count_by-SameMap p [] n um un h = let empty = no_keys n h in ground arith
  count_by-SameMap p ((k, v) ∷ m) n um un h =
      let here : get n k ≡ some v = ground (arith, h k, ==_refl k) in
      let split = count_by-split p n k v un here in
      let rest = count_by-SameMap p m (erase n k) um.1 (erase-Unique n k un) (others k v um.0 h) in
      ground arith
    where
      others : (k : K) (v : V) → get m k ≡ none → SameMap ((k, v) ∷ m) n → SameMap m (erase n k)
      others k v absent h j = elim (Bool-cases (k == j)) [
        | inl same ↦
            let eq : k ≡ j = (e.agrees_iff k j).0 same in
            let gone = subst (λ i. get m i ≡ none) eq absent in ground (arith, get-erase n k j)
        | inr other ↦ ground (arith, h j, get-erase n k j)
      ]
