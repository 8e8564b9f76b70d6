-- ===== src/Scheduler/Ring.antt =====
-- The loop over the ring of candidates finds the first one that passes the test.
use unified_ephemeral_runner.Common.{
  ℕ, zero, suc, ◌≡◌, refl, ◌+◌, ◌-◌, ◌%◌, ◌≤◌, ◌<◌, inl, inr, Bool, true, false, Option, none, some,
  List, arith, string_eq, nat_eq, pair_eq, eqb, leb, Bool-cases, eqb_iff, length,
}
use native.Mathlib.Nat.{mod-eq_of_lt, add-mod_right}
use unified_ephemeral_runner.Model.{BackendName}
use unified_ephemeral_runner.Scheduler.{at, scan}

-- What the loop returns: the index of the first candidate from `offset` on that passes, or
-- nothing where none does.
abbrev pub Scans : (BackendName → Bool) → List BackendName → ℕ → ℕ → ℕ → Option ℕ → Type 0
Scans test backends start offset rounds none =
    (k : ℕ)
    → offset ≤ k
    → k < offset + rounds
    → test (at backends ((start + k) % length backends)) ≡ false
Scans test backends start offset rounds (some index) =
    (k : ℕ) × (offset ≤ k)
    × (k < offset + rounds)
    × (index ≡ (start + k) % length backends)
    × (test (at backends index) ≡ true)
    × ((j : ℕ) → offset ≤ j → j < k → test (at backends ((start + j) % length backends)) ≡ false)

module _ (test : BackendName → Bool) (backends : List BackendName) (start : ℕ) where
  abbrev Fails : ℕ → Type 0
  Fails k = test (at backends ((start + k) % length backends)) ≡ false

  -- A failure at `offset` extends what is known from `offset + 1` on.
  Fails-from :
      (offset : ℕ) → Fails offset → (k : ℕ) → offset ≤ k → (offset + 1 ≤ k → Fails k) → Fails k
  Fails-from offset miss k lo more = elim (Bool-cases (eqb k offset)) [
    | inl same ↦ rw ((eqb_iff k offset).0 same) miss
    | inr other ↦ more (ground arith)
  ]

  Scans-widen :
      (offset rounds : ℕ) (r : Option ℕ)
      → Fails offset
      → Scans test backends start (offset + 1) rounds r
      → Scans test backends start offset (suc rounds) r
  Scans-widen offset rounds none miss h =
      λ k lo hi. Fails-from offset miss k lo (λ lo'. h k lo' (omega arith))
  Scans-widen offset rounds (some index) miss (k, lo, hi, e, hit, before) = (
    k,
    omega arith,
    omega arith,
    e,
    hit,
    λ j lo' hi'. Fails-from offset miss j lo' (λ lo''. before j lo'' hi'),
  )

  pub scan-Scans :
      (offset rounds : ℕ)
      → Scans test backends start offset rounds (scan test backends start offset rounds)
  unfolding scan
  scan-Scans offset zero = λ k lo hi. absurd (omega arith)
  scan-Scans offset (suc rounds) =
      elim (Bool-cases (test (at backends ((start + offset) % length backends)))) [
        | inl hit ↦
            rw hit (offset, omega arith, omega arith, refl, hit, λ j lo hi. absurd (omega arith))
        | inr miss ↦ rw miss (Scans-widen offset rounds _ miss (scan-Scans (offset + 1) rounds))
      ]

-- Every index of the ring is met.
pub ring_index : (n start i : ℕ) → start < n → i < n → (k : ℕ) × (k < n) × ((start + k) % n ≡ i)
ring_index n start i hs hi = elim (Bool-cases (leb start i)) [
  | inl le ↦
      let e : start + (i - start) ≡ i = ground arith in
      (i - start, ground arith, rw e (mod-eq_of_lt hi))
  | inr gt ↦
      let e : start + (i + n - start) ≡ i + n = ground arith in
      (i + n - start, ground arith, rw (e, add-mod_right i n) (mod-eq_of_lt hi))
]
