-- ===== src/Service/Queue/Reasons.antt =====
-- An error that may be retried is not a wait for capacity.
use unified_ephemeral_runner.Common.{
  String, ◌≡◌, refl, ap, ◌∙◌, subst, inl, inr, Bool, true, false, ◌||◌, some, arith, ◌==◌,
  string_eq, nat_eq, pair_eq, put, eqb, Bool-cases, Option-cases, get-put_self,
}
use unified_ephemeral_runner.Model.{state_eq, AllocationRequest, AllocationStatus}
use unified_ephemeral_runner.Service.Queue.{
  Cause, queueable_error, queue_reason, workflow_capacity_error, waiting_for_workflow_capacity,
  is_retryable_reason, workflow_job_of,
}

abbrev is_capacity_reason : String → Bool
is_capacity_reason reason = reason == "no-capacity" || reason == "live-capacity"

retryable_not_capacity :
    (reason : String) → is_retryable_reason (some reason) ≡ true → is_capacity_reason reason ≡ false
retryable_not_capacity reason h = elim (Bool-cases ("timeout" == reason)) [
  | inl e ↦ by_name "timeout" e refl
  | inr n1 ↦ elim (Bool-cases ("transport-error" == reason)) [
    | inl e ↦ by_name "transport-error" e refl
    | inr n2 ↦ elim (Bool-cases ("throttled" == reason)) [
      | inl e ↦ by_name "throttled" e refl
      | inr n3 ↦ elim (Bool-cases ("server-error" == reason)) [
        | inl e ↦ by_name "server-error" e refl
        | inr n4 ↦ absurd (ground arith)
      ]
    ]
  ]
]
  where
    by_name :
        (name : String)
        → (name == reason) ≡ true
        → is_capacity_reason name ≡ false
        → is_capacity_reason reason ≡ false
    by_name name e fine =
        subst (λ r. is_capacity_reason r ≡ false) ((string_eq.agrees_iff name reason).0 e) fine

queue_reason_not_capacity :
    (cause : Cause) → queueable_error cause ≡ true → is_capacity_reason (queue_reason cause) ≡ false
unfolding queueable_error queue_reason
queue_reason_not_capacity cause ok = elim (Bool-cases cause.circuit_open) [
  | inl opened ↦
      let named : queue_reason cause ≡ "circuit-open" = ground arith in ap is_capacity_reason named
  | inr closed ↦ elim (Option-cases cause.failure_reason) [
    | inl unknown ↦ absurd (ground arith)
    | inr (reason, known) ↦
        let named : queue_reason cause ≡ reason = ground arith in
        let retryable : is_retryable_reason (some reason) ≡ true = ground arith in
        ap is_capacity_reason named ∙ retryable_not_capacity reason retryable
  ]
]

pub no_capacity_wait :
    (cause : Cause) (request : AllocationRequest)
    → queueable_error cause ≡ true
    → workflow_capacity_error request cause ≡ false
unfolding queueable_error workflow_capacity_error
no_capacity_wait cause request ok = ground arith

pub not_waiting :
    (cause : Cause) (status : AllocationStatus)
    → queueable_error cause ≡ true
    → waiting_for_workflow_capacity
        (record status { metadata = put status.metadata "queue_reason" (queue_reason cause) })
      ≡ false
unfolding waiting_for_workflow_capacity queueable_error queue_reason
not_waiting cause status ok =
    let fine = queue_reason_not_capacity cause ok in
    let stored = get-put_self status.metadata "queue_reason" (queue_reason cause) in
    elim (Bool-cases (eqb (workflow_job_of status.request) 0)) [
      | inl none_bound ↦ rw none_bound refl
      | inr bound ↦ rw (bound, stored) fine
    ]
