-- ===== src/Broadcast/Worker/Retry.antt =====
-- The life of one job in the table: claimed, failed and put back, or completed.
use fmxevolution_go.Base.{
  ℕ, suc, ◌+◌, ◌*◌, ◌-◌, ◌≤◌, ◌<◌, String, true, ◌≡◌, refl, Option, none, some, str_eq,
  str_eq-false, eq_iff, if◌then◌else◌, nonneg_part, Time, arith,
}
use fmxevolution_go.Broadcast.Model.{BroadcastJob, status_queued, status_processing}
use fmxevolution_go.Broadcast.Jobs.{is_due, claimed, failed, completed, completed_with_failures}
use fmxevolution_go.Broadcast.Processor.{ProcessorError}
use fmxevolution_go.Broadcast.Worker.{retry_at}

-- A step of the row of a job: the dispatcher claims it, or the worker that has it settles it.
pub data JobStep : BroadcastJob → BroadcastJob → Type 0 where
  claim :
      (j : BroadcastJob) (worker : String) (now : Time)
      → is_due now j ≡ true
      → JobStep j (claimed worker now j)
  fail :
      (j : BroadcastJob) (e : ProcessorError) (now : Time)
      → j.status ≡ status_processing
      → JobStep j (failed e.error.text now (retry_at j e now) j)
  complete :
      (j : BroadcastJob) (at : Time) → j.status ≡ status_processing → JobStep j (completed at j)
  complete_with_failures :
      (j : BroadcastJob) (message : String) (at : Time)
      → j.status ≡ status_processing
      → JobStep j (completed_with_failures message at j)

pub data History (s : BroadcastJob) : BroadcastJob → ℕ → Type 0 where
  here : History s s 0
  next : {t u : BroadcastJob} {n : ℕ} → History s t n → JobStep t u → History s u (suc n)

abbrev pub max_of : BroadcastJob → ℕ
max_of j = nonneg_part j.max_attempts

-- A queued job has an attempt left.
pub record IsLive (j : BroadcastJob) : Type 0 where
  pub within : j.attempts ≤ max_of j
  pub left : j.status ≡ status_queued → j.attempts < max_of j

abbrev busy : BroadcastJob → ℕ
busy j = if str_eq j.status status_processing then 1 else 0

-- How many steps are left at most.
abbrev steps_left : BroadcastJob → ℕ
steps_left j = (max_of j - j.attempts) + (max_of j - j.attempts) + busy j

due-queued : (now : Time) (j : BroadcastJob) → is_due now j ≡ true → j.status ≡ status_queued
due-queued now j h = ground (arith, eq_iff j.status status_queued)

processing-busy : (j : BroadcastJob) → j.status ≡ status_processing → busy j ≡ 1
processing-busy j h = rw h

retry_at-some :
    (j : BroadcastJob) (e : ProcessorError) (now at : Time)
    → retry_at j e now ≡ some at
    → j.attempts < max_of j
unfolding retry_at
retry_at-some j e now at h = ground arith

failed-IsLive :
    (j : BroadcastJob) (text : String) (now : Time) (retry : Option Time)
    → ((at : Time) → retry ≡ some at → j.attempts < max_of j)
    → IsLive j
    → IsLive (failed text now retry j)
unfolding failed
failed-IsLive j text now none f v = record {
  within = v.within;
  left = λ e. absurd (str_eq-false "failed" status_queued refl e);
}
failed-IsLive j text now (some at) f v = record { within = v.within; left = λ e. f at refl }

failed-steps_left :
    (j : BroadcastJob) (text : String) (now : Time) (retry : Option Time)
    → busy j ≡ 1
    → (steps_left (failed text now retry j) < steps_left j)
      × (max_of (failed text now retry j) ≡ max_of j)
unfolding failed
failed-steps_left j text now none b = (omega arith, refl)
failed-steps_left j text now (some at) b = (omega arith, refl)

JobStep-IsLive : {j k : BroadcastJob} → JobStep j k → IsLive j → IsLive k
unfolding claimed completed completed_with_failures
JobStep-IsLive (claim j worker now d) v =
    let q : j.status ≡ status_queued = due-queued now j d in
    record { within = omega (arith, v.left q); left = λ e. cc }
JobStep-IsLive (fail j e now p) v =
    failed-IsLive j e.error.text now (retry_at j e now) (retry_at-some j e now) v
JobStep-IsLive (complete j at p) v = record { within = v.within; left = λ e. cc }
JobStep-IsLive (complete_with_failures j message at p) v = record {
  within = v.within;
  left = λ e. cc;
}

JobStep-steps_left :
    {j k : BroadcastJob}
    → JobStep j k
    → IsLive j
    → (steps_left k < steps_left j) × (max_of k ≡ max_of j)
unfolding claimed completed completed_with_failures
JobStep-steps_left (claim j worker now d) v =
    let q : j.status ≡ status_queued = due-queued now j d in (omega (arith, v.left q), refl)
JobStep-steps_left (fail j e now p) v =
    failed-steps_left j e.error.text now (retry_at j e now) (processing-busy j p)
JobStep-steps_left (complete j at p) v = (omega (arith, processing-busy j p), refl)
JobStep-steps_left (complete_with_failures j message at p) v =
    (omega (arith, processing-busy j p), refl)

History-IsLive : {s t : BroadcastJob} {n : ℕ} → History s t n → IsLive s → IsLive t
History-IsLive here v = v
History-IsLive (next h st) v = JobStep-IsLive st (History-IsLive h v)

History-steps_left :
    {s t : BroadcastJob} {n : ℕ}
    → History s t n
    → IsLive s
    → (n + steps_left t ≤ steps_left s) × (max_of t ≡ max_of s)
History-steps_left here v = (omega arith, refl)
History-steps_left (next h st) v =
    let (a, b) = History-steps_left h v in
    let (c, d) = JobStep-steps_left st (History-IsLive h v) in (omega arith, omega arith)

-- A job that starts in the queue with no attempt made and at least one allowed is never attempted
-- more often than it allows, and takes at most two steps
-- (a claim and what settles it) for each attempt allowed: no job is retried for ever.
pub attempts_bounded :
    (s t : BroadcastJob) (n : ℕ)
    → s.status ≡ status_queued
    → s.attempts ≡ 0
    → 0 < max_of s
    → History s t n
    → (t.attempts ≤ max_of s) × (n ≤ 2 * max_of s)
attempts_bounded s t n q a m h =
    let v : IsLive s = record { within = omega arith; left = λ _. omega arith } in
    let l : IsLive t = History-IsLive h v in
    let (c, d) = History-steps_left h v in
    let idle : busy s ≡ 0 = rw q in (omega (arith, l.within), omega arith)
