-- ===== src/Broadcast/Worker.antt =====
-- The background work of `Service` in internal/broadcast/service.go: the dispatcher that claims due
-- jobs, the rate limit per instance, and what a worker does with a job. Logging is left out.
pub mod Queue
pub mod Slots
pub mod Retry
pub mod Rows
pub mod Concluded
pub mod Wait
pub mod Examples
use fmxevolution_go.Base.{
  ℕ, zero, suc, ◌+◌, ◌*◌, ◌-◌, ◌/◌, ◌^◌, String, Bool, true, false, not, ◌&&◌, ◌||◌, Option, none,
  some, List, [], ◌∷◌, ◌++◌, map, str_eq, leb, ltb, ◌==◌, if◌then◌else◌, or_else, ℤ, pos, is_pos,
  nonneg_part, Time, add_duration, is_zero_time, after, millisecond, second, minute, hour, length,
  concat, decimal, GoMap, put,
}
use fmxevolution_go.Base.Effect.{M, Out, ok, err, pure, raise, map_err, fail_if, ◌>>=◌, ◌>>◌}
use fmxevolution_go.Domain.{GoError, plain_error}
use fmxevolution_go.Broadcast.Model.{BroadcastJob, BroadcastRecipientAnalytics}
use fmxevolution_go.Broadcast.Jobs.{
  claim_next, mark_completed, mark_completed_with_failures, mark_failed,
}
use fmxevolution_go.Broadcast.Repo.{Db}
use fmxevolution_go.Broadcast.Env.{Env, World, ask, check_context, db_call}
use fmxevolution_go.Broadcast.Processor.{ProcessorError, caught, process}
use fmxevolution_go.Broadcast.Service.{Req, summarize_progress}

-- The numbers that `NewService` settles on.
pub record Settings : Type 0 where
  pub workers : ℕ
  pub claim_batch_size : ℕ
  pub queue_capacity : ℕ

unfoldable pub new_settings : ℤ → ℤ → Settings
new_settings workers batch =
    let n = if is_pos workers then nonneg_part workers else 1 in
    record {
      workers = n;
      claim_batch_size = if is_pos batch then nonneg_part batch else n;
      queue_capacity = n * 4;
    }

-- A duration in nanoseconds; it is never negative.
unfoldable pub interval_for_rate : ℤ → ℕ
interval_for_rate rate =
    let interval = hour / nonneg_part rate in
    if is_pos rate then if interval == 0 then 100 * millisecond else interval else 500 * millisecond

unfoldable pub backoff_for_attempt : ℕ → ℕ
backoff_for_attempt attempt =
    if leb attempt 1 then 15 * second else if attempt == 2 then 1 * minute else 5 * minute

-- A send on a full channel takes the `default` branch: the job is dropped.
unfoldable pub try_enqueue : ℕ → BroadcastJob → List BroadcastJob → List BroadcastJob
try_enqueue capacity job queue = if ltb (length queue) capacity then queue ++ job ∷ [] else queue

unfoldable pub enqueue_all : ℕ → List BroadcastJob → List BroadcastJob → List BroadcastJob
unfolding try_enqueue
enqueue_all capacity [] queue = queue
enqueue_all capacity (j ∷ js) queue = enqueue_all capacity js (try_enqueue capacity j queue)

-- `min(claimBatchSize, freeSlots)`
abbrev pub claim_limit : Settings → ℕ → ℕ
claim_limit s free = if ltb free s.claim_batch_size then free else s.claim_batch_size

unfoldable pub claim : Env → ℕ → Time → Req (List BroadcastJob)
claim env limit now = db_call env λ t db.
    let (jobs, table) = claim_next "dispatcher" limit now db.jobs in
    (ok jobs, record db { jobs = table })

enqueue_claimed : ℕ → List BroadcastJob → Req (Unit {0})
unfolding enqueue_all
enqueue_claimed capacity jobs w = (ok tt, record w { queue = enqueue_all capacity jobs w.queue })

claim_batch : Env → Settings → ℕ → Req (Unit {0})
unfolding enqueue_claimed
claim_batch env s free = do
  now ← ask env.clock
  jobs ← claim env (claim_limit s free) now
  enqueue_claimed s.queue_capacity jobs

-- One tick of the dispatcher. The error of a claim is logged, and nothing follows it.
unfoldable pub claim_and_enqueue : Env → Settings → Req (Unit {0})
unfolding claim_batch
claim_and_enqueue env s w =
    let free = s.queue_capacity - length w.queue in
    if free == 0 then (ok tt, w) else claim_batch env s free w

-- The section of `waitForInstanceSlot` under the mutex: `none` where the slot is taken, and else how
-- long to wait.
unfoldable pub take_slot : String → ℤ → Time → GoMap Time → Option ℕ × GoMap Time
unfolding interval_for_rate
take_slot inst rate now slots =
    let next = or_else (slots inst) 0 in
    if is_zero_time next || not (after next now)
    then (none, put inst (now + interval_for_rate rate) slots)
    else (some (next - now), slots)

-- All workers share the map.
take_slot_step : Env → String → ℤ → Time → Req (Option ℕ)
unfolding take_slot
take_slot_step env inst rate now w =
    let seen = env.other_slots w.tick w.next_instance_at in
    let (wait, slots) = take_slot inst rate now seen in
    (ok wait, record w { next_instance_at = slots })

-- `waitForInstanceSlot`: each round looks at the context, takes the slot or waits for the timer or
-- the context. The rounds are bounded by the fuel; running out is the last clause of the error.
unfoldable pub wait_for_instance_slot : ℕ → Env → String → ℤ → Req (Unit {0})
unfolding take_slot_step
wait_for_instance_slot zero env inst rate = raise (plain_error "out of fuel")
wait_for_instance_slot (suc fuel) env inst rate = do
  check_context env
  now ← ask env.clock
  wait ← take_slot_step env inst rate now
  elim wait [
    | none ↦ pure tt
    | some d ↦ check_context env >> wait_for_instance_slot fuel env inst rate
  ]

-- gorm's `ErrRecordNotFound`
abbrev pub or_not_found : Option (List BroadcastJob) → Db → Out GoError (Unit {0}) × Db
or_not_found none db = (err (plain_error "record not found"), db)
or_not_found (some jobs) db = (ok tt, record db { jobs = jobs })

-- The time of the next try, if there is one.
unfoldable pub retry_at : BroadcastJob → ProcessorError → Time → Option Time
unfolding backoff_for_attempt
retry_at job e now =
    if ltb job.attempts (nonneg_part job.max_attempts) && e.retryable
    then some (now + backoff_for_attempt job.attempts)
    else none

unfoldable pub handle_failure : Env → BroadcastJob → ProcessorError → Req (Unit {0})
handle_failure env job e = do
  now ← ask env.clock
  db_call env λ t db.
      or_not_found (mark_failed job.tenant_id job.id e.error.text now (retry_at job e now) db.jobs)
        db

failure_message : BroadcastRecipientAnalytics → String
failure_message s = concat (
    "broadcast completed with "
    ∷ decimal s.sent
    ∷ " sent and "
    ∷ decimal s.failed
    ∷ " failed recipients"
    ∷ [])

unfoldable pub mark_done :
    BroadcastJob → BroadcastRecipientAnalytics → Time → Db → Out GoError (Unit {0}) × Db
unfolding failure_message
mark_done job summary at db =
    or_not_found
      (if ltb 0 summary.failed
        then mark_completed_with_failures job.tenant_id job.id (failure_message summary) at db.jobs
        else mark_completed job.tenant_id job.id at db.jobs)
      db

unfoldable pub handle_success : Env → BroadcastJob → Req (Unit {0})
handle_success env job = do
  completed_at ← ask env.clock
  summary ← summarize_progress env job.tenant_id job.id
  db_call env λ t db. mark_done job summary completed_at db

-- Behind the wait, with the result of `Process`.
unfoldable pub conclude : Env → BroadcastJob → Out ProcessorError (Unit {0}) → Req (Unit {0})
conclude env job (err e) = handle_failure env job e
conclude env job (ok u) = handle_success env job

-- An error is one that the worker logs, and goes on to the next job.
unfoldable pub handle_job : ℕ → Env → BroadcastJob → Req (Unit {0})
handle_job fuel env job = do
  wait_for_instance_slot fuel env job.instance_id job.rate_per_hour
  result ← caught (process env job)
  conclude env job result
