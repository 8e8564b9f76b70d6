-- ===== src/Scheduler/FairShare/Pick.antt =====
-- The choice of the candidate with the best score: priorityFairShareScore and the loop of Reserve.
use unified_ephemeral_runner.Common.{
  ℕ, zero, suc, ◌+◌, ◌-◌, ◌*◌, ◌/◌, ◌%◌, ◌^◌, ◌≤◌, ◌<◌, ◌≡◌, refl, subst, ◌⊎◌, inl, inr, Bool, true,
  false, ◌&&◌, ◌||◌, Option, none, some, List, arith, if◌then◌else◌, ltb, eqb, length, Bool-cases,
  eqb_iff,
}
use native.Mathlib.Nat.{div-le_self}
use unified_ephemeral_runner.Common.Int.{ℤ, pos_part, neg_part, sub_ℕ, ltb_ℤ, eqb_ℤ}
use unified_ephemeral_runner.Model.{BackendName}
use unified_ephemeral_runner.Scheduler.{at}

-- priorityFairShareScore
unfoldable pub priority_fair_share_score : ℕ → ℕ → ℕ → ℤ
priority_fair_share_score active_total tenant_active weight =
    let w = if ltb weight 1 then 1 else weight in
    sub_ℕ (active_total * 1000 + tenant_active * 1000 / w) ((w - 1) * 500)

pub record Best : Type 0 where
  pub index : ℕ
  pub score : ℤ
  pub offset : ℕ

-- The test of an available candidate; `none` is a bestIndex of -1.
abbrev pub improves : Option Best → ℤ → ℕ → Bool
improves none score offset = true
improves (some best) score offset =
    ltb_ℤ score best.score || (eqb_ℤ score best.score && ltb offset best.offset)

-- The loop: `rounds` candidates are left, from `offset` on.
unfoldable pub best_from :
    (BackendName → Bool)
    → (BackendName → ℤ)
    → List BackendName
    → ℕ
    → ℕ
    → ℕ
    → Option Best
    → Option Best
best_from test score backends start offset zero best = best
best_from test score backends start offset (suc rounds) best =
    let index = (start + offset) % length backends in
    let candidate = at backends index in
    let s = score candidate in
    let found : Best = record { index = index; score = s; offset = offset } in
    let next = if test candidate && improves best s offset then some found else best in
    best_from test score backends start (offset + 1) rounds next

infix 50 ◌≤ℤ◌ ◌<ℤ◌
abbrev pub ◌≤ℤ◌ : ℤ → ℤ → Type 0
a ≤ℤ b = pos_part a + neg_part b ≤ pos_part b + neg_part a

abbrev pub ◌<ℤ◌ : ℤ → ℤ → Type 0
a <ℤ b = pos_part a + neg_part b < pos_part b + neg_part a

module _ (test : BackendName → Bool) (score : BackendName → ℤ) (backends : List BackendName)
    (start : ℕ) where
  abbrev pub ring_at : ℕ → BackendName
  ring_at k = at backends ((start + k) % length backends)

  -- The best of the first `n` candidates of the ring: it passes the test, no passing candidate has a
  -- lower score, and those before it have a higher one; or no candidate passes.
  abbrev pub IsBest : ℕ → Option Best → Type 0
  IsBest n none = (k : ℕ) → k < n → test (ring_at k) ≡ false
  IsBest n (some best) =
      (best.offset < n)
      × (best.index ≡ (start + best.offset) % length backends)
      × (best.score ≡ score (ring_at best.offset))
      × (test (ring_at best.offset) ≡ true)
      × ((k : ℕ) → k < n → test (ring_at k) ≡ true → best.score ≤ℤ score (ring_at k))
      × ((k : ℕ) → k < best.offset → test (ring_at k) ≡ true → best.score <ℤ score (ring_at k))

  last_or_before : (k n : ℕ) → k < suc n → (k ≡ n) ⊎ (k < n)
  last_or_before k n h = elim (Bool-cases (eqb k n)) [
    | inl same ↦ inl ((eqb_iff k n).0 same)
    | inr other ↦ inr (ground arith)
  ]

  abbrev step : ℕ → Option Best → Option Best
  step offset best =
      if test (ring_at offset) && improves best (score (ring_at offset)) offset
      then some (record {
        index = (start + offset) % length backends;
        score = score (ring_at offset);
        offset = offset;
      })
      else best

  improves_lt :
      (best : Best) (s : ℤ) (n : ℕ)
      → improves (some best) s n ≡ true
      → best.offset < n
      → s <ℤ best.score
  improves_lt best s n h lt = ground arith

  not_improves_le :
      (best : Best) (s : ℤ) (n : ℕ) → improves (some best) s n ≡ false → best.score ≤ℤ s
  not_improves_le best s n h = ground arith

  step-IsBest : (n : ℕ) (best : Option Best) → IsBest n best → IsBest (suc n) (step n best)
  step-IsBest n none h = elim (Bool-cases (test (ring_at n))) [
    | inl pass ↦ rw pass (
      omega arith,
      refl,
      refl,
      pass,
      λ k lt t. elim (last_or_before k n lt) [
        | inl same ↦ rw same (omega arith)
        | inr earlier ↦ cc (h k earlier)
      ],
      λ k lt t. cc (h k lt),
    )
    | inr fail ↦ rw fail (λ k lt. elim (last_or_before k n lt) [
      | inl same ↦ rw same fail
      | inr earlier ↦ h k earlier
    ])
  ]
  step-IsBest n (some best) (in_ring, at_offset, scored, passed, least, first) =
      elim (Bool-cases (test (ring_at n))) [
        | inr fail ↦ rw fail (
          omega arith,
          at_offset,
          scored,
          passed,
          λ k lt t. elim (last_or_before k n lt) [
            | inl same ↦ cc (subst (λ j. test (ring_at j) ≡ true) same t, fail)
            | inr earlier ↦ least k earlier t
          ],
          first,
        )
        | inl pass ↦ elim (Bool-cases (improves (some best) (score (ring_at n)) n)) [
          | inl better ↦
              let lower = improves_lt best (score (ring_at n)) n better in_ring in
              rw (pass, better)
                (
                  omega arith,
                  refl,
                  refl,
                  pass,
                  λ k lt t. elim (last_or_before k n lt) [
                    | inl same ↦ rw same (omega arith)
                    | inr earlier ↦ omega (arith, lower, least k earlier t)
                  ],
                  λ k lt t. omega (arith, lower, least k lt t),
                )
          | inr worse ↦
              let kept = not_improves_le best (score (ring_at n)) n worse in
              rw (pass, worse)
                (
                  omega arith,
                  at_offset,
                  scored,
                  passed,
                  λ k lt t. elim (last_or_before k n lt) [
                    | inl same ↦ rw same kept
                    | inr earlier ↦ least k earlier t
                  ],
                  first,
                )
        ]
      ]

  best_from-IsBest :
      (offset rounds : ℕ) (best : Option Best)
      → IsBest offset best
      → IsBest (offset + rounds) (best_from test score backends start offset rounds best)
  unfolding best_from
  best_from-IsBest offset zero best h =
      let same : offset ≡ offset + 0 = omega arith in subst (λ n. IsBest n best) same h
  best_from-IsBest offset (suc rounds) best h =
      let next : suc offset ≡ offset + 1 = omega arith in
      let total : offset + 1 + rounds ≡ offset + suc rounds = omega arith in
      let stepped = subst (λ n. IsBest n (step offset best)) next (step-IsBest offset best h) in
      subst
        (λ n. IsBest n (best_from test score backends start (offset + 1) rounds (step offset best)))
        total (best_from-IsBest (offset + 1) rounds (step offset best) stepped)

  -- The loop over the whole ring finds the first of the passing candidates with the lowest score, and
  -- nothing exactly when no candidate passes.
  pub IsBest-of_ring :
      IsBest (length backends) (best_from test score backends start 0 (length backends) none)
  IsBest-of_ring =
      let total : 0 + length backends ≡ length backends = omega arith in
      subst (λ n. IsBest n (best_from test score backends start 0 (length backends) none)) total
        (best_from-IsBest 0 (length backends) none (λ k lt. absurd (omega arith)))

-- A score stays within a signed 64-bit integer while the counts and the weight are below 2 ^ 40.
pub priority_fair_share_score_bounds :
    (active_total tenant_active weight : ℕ)
    → active_total < 2 ^ 40
    → tenant_active < 2 ^ 40
    → weight < 2 ^ 40
    → (pos_part (priority_fair_share_score active_total tenant_active weight) < 2 ^ 63)
      × (neg_part (priority_fair_share_score active_total tenant_active weight) < 2 ^ 63)
unfolding priority_fair_share_score
priority_fair_share_score_bounds a t w ha ht hw =
    ground (arith, div-le_self (t * 1000) (if ltb w 1 then 1 else w))
