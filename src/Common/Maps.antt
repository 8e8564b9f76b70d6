-- ===== src/Common/Maps.antt =====
-- Go's maps. A map is the list of its entries in the order in which a `range` loop meets them,
-- which Go leaves open; every statement is about all lists. A write drops the entries of its key
-- and adds one.
use Prim.Native.Nat.{ℕ, suc, ◌+◌, ◌≤◌, ◌<◌}
use mathlib.Core.Path.{◌≡◌, refl, subst}
use mathlib.Core.Logic.{inl, inr}
use mathlib.Core.Bool.{Bool, true, false, not, ◌&&◌}
use mathlib.Core.List.{List, [], ◌∷◌}
use mathlib.Core.Option.{Option, none, some}
use native.Mathlib.Omega.{arith}
use unified_ephemeral_runner.Common.Tests.{if◌then◌else◌, Bool-cases}
use unified_ephemeral_runner.Common.Lists.{sum_by}
use unified_ephemeral_runner.Common.Equality.{Comparable, ◌==◌}

abbrev pub Dict {ℓ κ} : Type ℓ → Type κ → Type (ℓ ⊔ κ)
Dict K V = List (K × V)

abbrev pub value_of {κ} : {V : Type κ} → (V → ℕ) → Option V → ℕ
value_of f none = 0
value_of f (some v) = f v

module _ {ℓ κ} {K : Type ℓ} {V : Type κ} where
  -- The number of entries that a counting loop accepts.
  abbrev pub count_by : (K → V → Bool) → Dict K V → ℕ
  count_by p [] = 0
  count_by p ((k, v) ∷ m) = let rest = count_by p m in if p k v then suc rest else rest

  pub count_by_congr :
      (p q : K → V → Bool) (m : Dict K V)
      → ((k : K) (v : V) → p k v ≡ q k v)
      → count_by p m ≡ count_by q m
  count_by_congr p q [] h = refl
  count_by_congr p q ((k, v) ∷ m) h = ground (arith, h k v, count_by_congr p q m h)

module _ {ℓ κ} {K : Type ℓ} {V : Type κ} ⦃e : Comparable K⦄ where
  -- v, ok := m[k]
  unfoldable pub get : Dict K V → K → Option V
  get [] k = none
  get ((j, v) ∷ m) k = let rest = get m k in if j == k then some v else rest

  -- delete(m, k)
  unfoldable pub erase : Dict K V → K → Dict K V
  erase [] k = []
  erase ((j, v) ∷ m) k = let rest = erase m k in if j == k then rest else (j, v) ∷ rest

  -- m[k] = v
  unfoldable pub put : Dict K V → K → V → Dict K V
  put m k v = (k, v) ∷ erase m k

  pub get-erase : (m : Dict K V) (k j : K) → get (erase m k) j ≡ (if k == j then none else get m j)
  unfolding get erase
  get-erase [] k j = ground arith
  get-erase ((i, v) ∷ m) k j =
      ground (arith, get-erase m k j, e.agrees_iff i k, e.agrees_iff i j, e.agrees_iff k j)

  pub get-put :
      (m : Dict K V) (k : K) (v : V) (j : K)
      → get (put m k v) j ≡ (if k == j then some v else get m j)
  unfolding get put
  get-put m k v j = ground (arith, get-erase m k j)

  pub get-put_self : (m : Dict K V) (k : K) (v : V) → get (put m k v) k ≡ some v
  get-put_self m k v = ground (arith, get-put m k v k, e.agrees_iff k k)

  -- The entries of one map written over another.
  unfoldable pub overlay : Dict K V → Dict K V → Dict K V
  overlay m [] = m
  overlay m ((k, v) ∷ over) = put (overlay m over) k v

  pub get-overlay :
      (m over : Dict K V) (j : K)
      → get (overlay m over) j ≡ elim (get over j) [ none ↦ get m j | some v ↦ some v ]
  unfolding overlay get
  get-overlay m [] j = refl
  get-overlay m ((k, v) ∷ over) j = elim (Bool-cases (k == j)) [
    | inl same ↦ rw (get-put (overlay m over) k v j, same) refl
    | inr other ↦ rw (get-put (overlay m over) k v j, other) (get-overlay m over j)
  ]

  -- No key has two entries: true of every map that Go builds.
  abbrev pub Unique : Dict K V → Type κ
  Unique [] = Unit
  Unique ((k, v) ∷ m) = (get m k ≡ none) × Unique m

  pub erase-Unique : (m : Dict K V) (k : K) → Unique m → Unique (erase m k)
  unfolding erase
  erase-Unique [] k u = tt
  erase-Unique ((i, v) ∷ m) k u = ground (arith, erase-Unique m k u.1, get-erase m k i)

  pub put-Unique : (m : Dict K V) (k : K) (v : V) → Unique m → Unique (put m k v)
  unfolding put
  put-Unique m k v u = ground (arith, erase-Unique m k u, get-erase m k k, e.agrees_iff k k)

  -- A loop that skips one key counts the map without it.
  pub count_by-skip :
      (p : K → V → Bool) (m : Dict K V) (k : K)
      → count_by (λ j v. not (j == k) && p j v) m ≡ count_by p (erase m k)
  unfolding erase
  count_by-skip p [] k = refl
  count_by-skip p ((j, v) ∷ m) k = ground (arith, count_by-skip p m k)

  pub count_by-erase-le :
      (p : K → V → Bool) (m : Dict K V) (k : K) → count_by p (erase m k) ≤ count_by p m
  unfolding erase
  count_by-erase-le p [] k = omega arith
  count_by-erase-le p ((j, v) ∷ m) k = ground (arith, count_by-erase-le p m k)

  -- An entry that is counted makes room when it goes.
  pub count_by-erase-lt :
      (p : K → V → Bool) (m : Dict K V) (k : K) (v : V)
      → get m k ≡ some v
      → p k v ≡ true
      → count_by p (erase m k) < count_by p m
  unfolding get erase
  count_by-erase-lt p [] k v g h = cc
  count_by-erase-lt p ((j, w) ∷ m) k v g h =
      ground (arith, count_by-erase-lt p m k v, count_by-erase-le p m k, e.agrees_iff j k)

  -- A write that the count does not accept, or that replaces an accepted entry, adds nothing.
  pub count_by-put-le :
      (p : K → V → Bool) (m : Dict K V) (k : K) (v : V) (old : V)
      → get m k ≡ some old
      → p k old ≡ true
      → count_by p (put m k v) ≤ count_by p m
  unfolding put
  count_by-put-le p m k v old g h = ground (arith, count_by-erase-lt p m k old g h)

  pub count_by-put-le_of_false :
      (p : K → V → Bool) (m : Dict K V) (k : K) (v : V)
      → p k v ≡ false
      → count_by p (put m k v) ≤ count_by p m
  unfolding put
  count_by-put-le_of_false p m k v h = ground (arith, count_by-erase-le p m k)

  pub count_by-put-le-suc :
      (p : K → V → Bool) (m : Dict K V) (k : K) (v : V)
      → count_by p (put m k v) ≤ suc (count_by p (erase m k))
  unfolding put
  count_by-put-le-suc p m k v = ground arith

  erase_absent : (m : Dict K V) (k : K) → get m k ≡ none → erase m k ≡ m
  unfolding get erase
  erase_absent [] k h = refl
  erase_absent ((j, v) ∷ m) k h = ground (arith, erase_absent m k)

  sum_by-erase :
      (f : V → ℕ) (m : Dict K V) (k : K)
      → Unique m
      → sum_by (λ entry. f entry.1) (erase m k) + value_of f (get m k)
        ≡ sum_by (λ entry. f entry.1) m
  unfolding get erase
  sum_by-erase f [] k u = omega arith
  sum_by-erase f ((j, v) ∷ m) k u = elim (Bool-cases (j == k)) [
    | inl same ↦
        let absent : get m k ≡ none = subst (λ i. get m i ≡ none) ((e.agrees_iff j k).0 same) u.0 in
        rw same (rw (erase_absent m k absent) (omega arith))
    | inr other ↦ rw other (omega (arith, sum_by-erase f m k u.1))
  ]

  -- A write changes a sum over the values by the value of its key.
  pub sum_by-put :
      (f : V → ℕ) (m : Dict K V) (k : K) (v : V)
      → Unique m
      → sum_by (λ entry. f entry.1) (put m k v) + value_of f (get m k)
        ≡ sum_by (λ entry. f entry.1) m + f v
  unfolding put
  sum_by-put f m k v u = omega (arith, sum_by-erase f m k u)

pub get-nil {ℓ κ} : {K : Type ℓ} (V : Type κ) ⦃e : Comparable K⦄ (k : K) → get {V = V} [] k ≡ none
unfolding get
get-nil V k = refl
