-- ===== src/Webhook/Lifecycle.antt =====
-- The life of a delivery: what the first attempt and each further one make of it.
pub mod Rows
pub mod Runs
use fmxevolution_go.Base.{
  suc, ◌≤◌, ◌<◌, ◌≡◌, refl, ◌⊎◌, inl, inr, true, none, leb, leb→le, if-cases, is_some, Time, ℕ, ap,
  sym, ◌∙◌, str_eq-false, arith,
}
use fmxevolution_go.Webhook.Model.{WebhookDelivery}
use fmxevolution_go.Webhook.Repo.{status_delivered, status_retrying, status_failed}
use fmxevolution_go.Webhook.Env.{Answer}
use fmxevolution_go.Webhook.Service.{
  is_success, answered, attempt_failed, schedule_retry_fields, first_attempt,
}
use fmxevolution_go.Webhook.Retry.{next_attempt}

-- Delivered with its time; waiting for a time with attempts left; or given up without any left.
abbrev pub Outcome : WebhookDelivery → Type 0
Outcome d =
    ((d.status ≡ status_delivered) × (is_some d.delivered_at ≡ true) × (d.next_attempt_at ≡ none))
    ⊎ ((d.status ≡ status_retrying)
        × (d.attempts < d.max_attempts)
        × (is_some d.next_attempt_at ≡ true))
    ⊎ ((d.status ≡ status_failed)
        × (d.max_attempts ≤ d.attempts)
        × (d.next_attempt_at ≡ none)
        × (d.delivered_at ≡ none))

-- What only an attempt changes.
abbrev pub Retried : WebhookDelivery → WebhookDelivery → Type 0
Retried d d' = d' ≡ record d {
  status = d'.status;
  attempts = suc d.attempts;
  response_status = d'.response_status;
  response_body = d'.response_body;
  error_message = d'.error_message;
  next_attempt_at = d'.next_attempt_at;
  delivered_at = d'.delivered_at;
}

-- One more attempt at a delivery that waits for one.
abbrev pub Attempt : WebhookDelivery → WebhookDelivery → Type 0
Attempt d d' = (d.status ≡ status_retrying) × Retried d d' × Outcome d'

-- A row stays, or one more attempt was made at it.
abbrev pub RowStep : WebhookDelivery → WebhookDelivery → Type 0
RowStep d d' = (d' ≡ d) ⊎ Attempt d d'

-- An attempt was made, and no more than are allowed.
abbrev pub IsDelivery : WebhookDelivery → Type 0
IsDelivery d = (1 ≤ d.attempts) × (d.attempts ≤ d.max_attempts) × Outcome d

attempt_failed-Outcome :
    (sent : Answer) (now : Time) (n : ℕ) (d : WebhookDelivery)
    → Outcome (attempt_failed sent now n d)
unfolding attempt_failed schedule_retry_fields answered
attempt_failed-Outcome sent now n d =
    if-cases Outcome (leb d.max_attempts n)
      (λ spent. inr (inr (refl, leb→le d.max_attempts n spent, refl, refl)))
      (λ left. inr (inl (refl, ground arith, refl)))

attempt_failed-Retried :
    (sent : Answer) (now : Time) (d : WebhookDelivery)
    → Retried d (attempt_failed sent now (suc d.attempts) d)
unfolding attempt_failed schedule_retry_fields answered
attempt_failed-Retried sent now d =
    if-cases (Retried d) (leb d.max_attempts (suc d.attempts)) (λ _. refl) (λ _. refl)

pub next_attempt-Attempt :
    (sent : Answer) (now : Time) (d : WebhookDelivery)
    → d.status ≡ status_retrying
    → Attempt d (next_attempt sent now d)
unfolding next_attempt answered
next_attempt-Attempt sent now d waits =
    if-cases (Attempt d) (is_success sent) (λ _. (waits, refl, inl (refl, refl, refl)))
      (λ _. (
        waits,
        attempt_failed-Retried sent now d,
        attempt_failed-Outcome sent now (suc d.attempts) d,
      ))

attempt_failed-counts :
    (sent : Answer) (now : Time) (n : ℕ) (d : WebhookDelivery)
    → ((attempt_failed sent now n d).attempts ≡ n)
      × ((attempt_failed sent now n d).max_attempts ≡ d.max_attempts)
unfolding attempt_failed schedule_retry_fields answered
attempt_failed-counts sent now n d =
    if-cases {A = WebhookDelivery} (λ x. (x.attempts ≡ n) × (x.max_attempts ≡ d.max_attempts))
      (leb d.max_attempts n) (λ _. (refl, refl)) (λ _. (refl, refl))

-- A delivery behind its first attempt.
pub first_attempt-IsDelivery :
    (sent : Answer) (now : Time) (d : WebhookDelivery)
    → d.next_attempt_at ≡ none
    → 1 ≤ d.max_attempts
    → IsDelivery (first_attempt sent now d)
unfolding first_attempt answered
first_attempt-IsDelivery sent now d fresh allowed =
    let (n, m) = attempt_failed-counts sent now 1 d in
    if-cases IsDelivery (is_success sent) (λ _. (omega arith, allowed, inl (refl, refl, fresh)))
      (λ _. (omega (arith, n), omega (arith, n, m), attempt_failed-Outcome sent now 1 d))

retrying-left :
    (d : WebhookDelivery) → d.status ≡ status_retrying → Outcome d → d.attempts < d.max_attempts
retrying-left d w (inl (s, _, _)) = absurd (str_eq-false "delivered" "retrying" refl (sym s ∙ w))
retrying-left d w (inr (inl (_, left, _))) = left
retrying-left d w (inr (inr (s, _, _, _))) =
    absurd (str_eq-false "failed" "retrying" refl (sym s ∙ w))

-- An attempt at a delivery keeps it one.
pub Attempt-IsDelivery : (d d' : WebhookDelivery) → Attempt d d' → IsDelivery d → IsDelivery d'
Attempt-IsDelivery d d' (waits, same, outcome) (tried, few, before) =
    let n : d'.attempts ≡ suc d.attempts = ap (λ x. x.attempts) same in
    let m : d'.max_attempts ≡ d.max_attempts = ap (λ x. x.max_attempts) same in
    let left : d.attempts < d.max_attempts = retrying-left d waits before in
    (omega (arith, n), omega (arith, n, m, left), outcome)
