-- ===== src/WorkflowJobRetry/Backoff.antt =====
-- The re-allocation of a job and its backoff.
use unified_ephemeral_runner.Common.{
  ℕ, zero, suc, ◌≡◌, ◌+◌, ◌-◌, ◌*◌, ◌^◌, ◌≤◌, ◌<◌, ◌↔◌, inl, inr, true, some, arith, ==_refl,
  string_eq, nat_eq, pair_eq, get, put, if◌then◌else◌, leb, Bool-cases,
}
use unified_ephemeral_runner.Model.{Time}
use unified_ephemeral_runner.Store.{Allocations}
use unified_ephemeral_runner.WorkflowJobRetry.{
  double_up, workflow_job_retry_base, workflow_job_retry_max, workflow_job_retry_backoff,
  max_workflow_job_allocations, count_workflow_job_allocations, WorkflowJobRetries,
  may_reallocate_workflow_job, note_workflow_job_reallocated,
}

abbrev pub smaller : ℕ → ℕ → ℕ
smaller m n = if leb m n then m else n

power_pos : (n : ℕ) → 0 < 2 ^ n
power_pos zero = omega arith
power_pos (suc n) = omega (arith, power_pos n)

scale_le : (a b : ℕ) → 0 < b → a ≤ a * b
scale_le a b pos = grind arith

double_power : (d n : ℕ) → d * 2 ^ suc n ≡ d * 2 * 2 ^ n
double_power d n = let two : 2 ^ suc n ≡ 2 ^ n + 2 ^ n = omega arith in rw two (twice d (2 ^ n))
  where
    twice : (d p : ℕ) → d * (p + p) ≡ d * 2 * p
    twice d p = grind arith

double_up_lem :
    (rounds d : ℕ)
    → 0 < d
    → d < workflow_job_retry_max
    → double_up rounds d ≡ smaller (d * 2 ^ rounds) workflow_job_retry_max
unfolding double_up
double_up_lem zero d pos below = ground arith
double_up_lem (suc rounds) d pos below =
    let power = double_power d rounds in
    elim (Bool-cases (leb workflow_job_retry_max (d * 2))) [
      | inl e ↦
          let positive = power_pos rounds in
          let grows = scale_le (d * 2) (2 ^ rounds) positive in ground arith
      | inr e ↦ let rest = double_up_lem rounds (d * 2) (omega arith) (ground arith) in ground arith
    ]

-- The backoff is 30 seconds doubled for each prior allocation after the first, and at most 10
-- minutes.
pub workflow_job_retry_backoff_lem :
    (prior : ℕ)
    → workflow_job_retry_backoff (suc prior)
      ≡ smaller (workflow_job_retry_base * 2 ^ prior) workflow_job_retry_max
unfolding workflow_job_retry_backoff
workflow_job_retry_backoff_lem prior =
    let rounds : suc prior - 1 ≡ prior = omega arith in
    rw rounds (double_up_lem prior workflow_job_retry_base (omega arith) (omega arith))

noted_at :
    (allocations : Allocations) (retries : WorkflowJobRetries) (job_id : ℕ) (now : Time)
    → get (note_workflow_job_reallocated allocations retries job_id now) job_id
      ≡ some (now + workflow_job_retry_backoff (count_workflow_job_allocations allocations job_id))
unfolding note_workflow_job_reallocated put get
noted_at allocations retries job_id now = let same = ==_refl job_id in ground arith

-- A job whose re-allocation was noted at `now` is not allocated again before the backoff for its
-- number of allocations is over, nor once it has five allocations; and it is, once the backoff is
-- over, while it has fewer.
pub retry_waits :
    (before after : Allocations) (retries : WorkflowJobRetries) (job_id : ℕ) (now later : Time)
    → (may_reallocate_workflow_job after
          (note_workflow_job_reallocated before retries job_id now)
          job_id
          later
        ≡ true)
      ↔ ((count_workflow_job_allocations after job_id < max_workflow_job_allocations)
          × (now + workflow_job_retry_backoff (count_workflow_job_allocations before job_id)
              ≤ later))
unfolding may_reallocate_workflow_job note_workflow_job_reallocated
retry_waits before after retries job_id now later =
    let wait = workflow_job_retry_backoff (count_workflow_job_allocations before job_id) in
    let noted = noted_at before retries job_id now in ground arith
