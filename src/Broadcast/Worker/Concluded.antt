-- ===== src/Broadcast/Worker/Concluded.antt =====
-- What a worker writes when the run of a job has ended.
use fmxevolution_go.Base.{
  ℕ, suc, ◌+◌, ◌*◌, ◌≤◌, ◌<◌, String, true, false, ◌≡◌, refl, ◌⊎◌, inl, inr, none, some, List, [],
  ◌∷◌, Bool-cases, Option-cases, if-cases, Time, nonneg_part, second, trim_space, ◌&&◌, ltb, leb,
  ◌==◌, if◌then◌else◌, count, Pointwise, done, pair, arith,
}
use fmxevolution_go.Base.Effect.{Out, ok, err, ◌>>=◌, >>=-run, >>=-stop}
use fmxevolution_go.Domain.{GoError, plain_error}
use fmxevolution_go.Broadcast.Model.{BroadcastJob, BroadcastRecipientAnalytics}
use fmxevolution_go.Broadcast.Repo.{Db, analytics_row}
use fmxevolution_go.Broadcast.Jobs.{
  is_job, update_jobs, update_one, completed, completed_with_failures, failed, mark_completed,
  mark_completed_with_failures, mark_failed,
}
use fmxevolution_go.Broadcast.Env.{Env, World, ask, db_call}
use fmxevolution_go.Broadcast.Processor.{ProcessorError}
use fmxevolution_go.Broadcast.Service.{Req, summarize_progress}
use fmxevolution_go.Broadcast.Worker.{
  retry_at, backoff_for_attempt, or_not_found, handle_failure, handle_success, mark_done, conclude,
  failure_message,
}

-- How long a job waits for its next attempt.
abbrev pub delay_after : ℕ → ℕ
delay_after attempts =
    if leb attempts 1 then 15 * second else if attempts == 2 then 60 * second else 300 * second

-- What becomes of a row of the job at a time: it waits for another attempt behind an error that can
-- be retried while attempts are left, it has failed behind any other, and it is complete behind a
-- run without an error, with or without failed recipients.
pub data Ended (job : BroadcastJob) (failures : ℕ) (now : Time)
    : Out ProcessorError (Unit {0}) → BroadcastJob → BroadcastJob → Type 0 where
  requeued :
      (e : ProcessorError) (j : BroadcastJob)
      → e.retryable ≡ true
      → job.attempts < nonneg_part job.max_attempts
      → Ended job failures now (err e) j (record j {
        status = "queued";
        available_at = now + delay_after job.attempts;
        last_error = e.error.text;
        worker_id = "";
        started_at = none;
      })
  given_up :
      (e : ProcessorError) (j : BroadcastJob)
      → (e.retryable ≡ false) ⊎ (nonneg_part job.max_attempts ≤ job.attempts)
      → Ended job failures now (err e) j (record j {
        status = "failed";
        failed_at = some now;
        last_error = e.error.text;
        worker_id = "";
        started_at = none;
      })
  all_sent :
      (j : BroadcastJob)
      → failures ≡ 0
      → Ended job failures now (ok tt) j (record j {
        status = "completed";
        completed_at = some now;
        last_error = "";
        worker_id = "";
      })
  some_failed :
      (j : BroadcastJob) (message : String)
      → 0 < failures
      → Ended job failures now (ok tt) j (record j {
        status = "completed_with_failures";
        completed_at = some now;
        last_error = message;
        worker_id = "";
      })

-- A row of another job stays as it is.
abbrev pub RowEnd :
    BroadcastJob → (BroadcastJob → BroadcastJob → Type 0) → BroadcastJob → BroadcastJob → Type 0
RowEnd job E j k =
    ((is_job job.tenant_id job.id j ≡ false) × (k ≡ j))
    ⊎ ((is_job job.tenant_id job.id j ≡ true) × E j k)

-- Why nothing is written: the database refuses a call, or there is no row of the job.
abbrev pub Unwritten : Env → BroadcastJob → List BroadcastJob → Type 0
Unwritten env job jobs =
    ((n : ℕ) × (x : String) × (env.db_fault n ≡ some x))
    ⊎ (count (is_job job.tenant_id job.id) jobs ≡ 0)

-- Every row of the job is written, or none is and an error says so.
abbrev pub Written :
    Env
    → BroadcastJob
    → (BroadcastJob → BroadcastJob → Type 0)
    → List BroadcastJob
    → Out GoError (Unit {0})
    → List BroadcastJob
    → Type 0
Written env job E jobs o jobs' =
    ((o ≡ ok tt) × Pointwise (RowEnd job E) jobs jobs')
    ⊎ ((e : GoError) × (o ≡ err e) × (jobs' ≡ jobs) × Unwritten env job jobs)

module _ (env : Env) (job : BroadcastJob) (E : BroadcastJob → BroadcastJob → Type 0) where
  update_jobs-RowEnd :
      (change : BroadcastJob → BroadcastJob) (jobs : List BroadcastJob)
      → ((j : BroadcastJob) → E j (change j))
      → Pointwise (RowEnd job E) jobs (update_jobs (is_job job.tenant_id job.id) change jobs)
  unfolding update_jobs
  update_jobs-RowEnd change [] h = done
  update_jobs-RowEnd change (j ∷ js) h =
      if-cases (Pointwise (RowEnd job E) (j ∷ js)) (is_job job.tenant_id job.id j)
        (λ hit. pair (inr (hit, h j)) (update_jobs-RowEnd change js h))
        (λ miss. pair (inl (miss, refl)) (update_jobs-RowEnd change js h))

  abbrev WrittenBy : List BroadcastJob → Out GoError (Unit {0}) × Db → Type 0
  WrittenBy jobs (o, db) = Written env job E jobs o db.jobs

  update_one-Written :
      (change : BroadcastJob → BroadcastJob) (db : Db)
      → ((j : BroadcastJob) → E j (change j))
      → WrittenBy db.jobs (or_not_found (update_one job.tenant_id job.id change db.jobs) db)
  unfolding update_one
  update_one-Written change db h =
      elim (Bool-cases (ltb 0 (count (is_job job.tenant_id job.id) db.jobs))) [
        | inl found ↦ rw (found, update_one) (inl (refl, update_jobs-RowEnd change db.jobs h))
        | inr gone ↦
            rw (gone, update_one)
              (inr (plain_error "record not found", refl, refl, inr (ground arith)))
      ]

  db_call-Written :
      (f : ℕ → Db → Out GoError (Unit {0}) × Db) (w : World)
      → WrittenBy w.db.jobs (f w.tick w.db)
      → Written env job E w.db.jobs (db_call env f w).0 (db_call env f w).1.db.jobs
  unfolding db_call
  db_call-Written f w h = elim (Option-cases (env.db_fault w.tick)) [
    | inl fine ↦ rw (fine, db_call) h
    | inr (x, refused) ↦
        rw (refused, db_call) (inr (plain_error x, refl, refl, inl (w.tick, x, refused)))
  ]

-- The failed recipients of the job, as the figures tell them that the worker reads.
abbrev pub failures_of : Env → BroadcastJob → World → ℕ
failures_of env job w =
    (env.scan_analytics (analytics_row job.tenant_id job.id w.db.progress)).failed

module _ (env : Env) (job : BroadcastJob) (failures : ℕ) (now : Time) where
  failed-Ended :
      (e : ProcessorError) (j : BroadcastJob)
      → Ended job failures now (err e) j (failed e.error.text now (retry_at job e now) j)
  unfolding failed retry_at backoff_for_attempt
  failed-Ended e j =
      if-cases (λ at. Ended job failures now (err e) j (failed e.error.text now at j))
        (ltb job.attempts (nonneg_part job.max_attempts) && e.retryable)
        (λ again. requeued e j (ground arith) (ground arith))
        (λ final.
          given_up e j
            (elim (Bool-cases e.retryable) [ inl r ↦ inr (ground arith) | inr n ↦ inl n ]))

  mark_done-Written :
      (s : BroadcastRecipientAnalytics) (db : Db)
      → s.failed ≡ failures
      → WrittenBy env job (Ended job failures now (ok tt)) db.jobs (mark_done job s now db)
  unfolding mark_done mark_completed mark_completed_with_failures completed completed_with_failures
  mark_done-Written s db same =
      if-cases (λ o. WrittenBy env job (Ended job failures now (ok tt)) db.jobs (or_not_found o db))
        (ltb 0 s.failed)
        (λ failed.
          update_one-Written env job _ (completed_with_failures (failure_message s) now) db
            (λ j. some_failed j (trim_space (failure_message s)) (ground arith)))
        (λ none_failed.
          update_one-Written env job _ (completed now) db (λ j. all_sent j (ground arith)))

module _ (env : Env) (job : BroadcastJob) (w : World) where
  abbrev figures : BroadcastRecipientAnalytics
  figures = env.scan_analytics (analytics_row job.tenant_id job.id w.db.progress)

  -- What is left of a run without an error when the figures are read.
  abbrev finish : BroadcastRecipientAnalytics → Req (Unit {0})
  finish summary = db_call env λ t db. mark_done job summary (env.clock w.tick) db

  handle_success-read :
      env.db_fault (suc w.tick) ≡ none
      → handle_success env job w ≡ finish figures (record w { tick = suc (suc w.tick) })
  unfolding handle_success ask ◌>>=◌ db_call
  handle_success-read fine =
      >>=-run (summarize_progress env job.tenant_id job.id) finish (record w { tick = suc w.tick })
        (unfold summarize_progress in rw (fine, db_call))

  handle_success-refused :
      (x : String)
      → env.db_fault (suc w.tick) ≡ some x
      → handle_success env job w ≡ (err (plain_error x), record w { tick = suc (suc w.tick) })
  unfolding handle_success ask ◌>>=◌ db_call
  handle_success-refused x refused =
      >>=-stop (summarize_progress env job.tenant_id job.id) finish (record w { tick = suc w.tick })
        (unfold summarize_progress in rw (refused, db_call))

-- When a run of a job has ended, the worker writes every row of the job, and no other, or an error
-- of the database or a missing row is answered and no row is written. Behind an error that can be
-- retried, while attempts are left, the row is put back into the queue, 15 seconds, one minute or
-- five minutes from then on; behind any other error it has failed. Behind a run without an error it
-- is completed, with failures if the figures that are read say so and else without.
pub conclude-Written :
    (env : Env) (job : BroadcastJob) (result : Out ProcessorError (Unit {0})) (w : World)
    → Written env job
        (Ended job (failures_of env job w) (env.clock w.tick) result)
        w.db.jobs
        (conclude env job result w).0
        (conclude env job result w).1.db.jobs
unfolding conclude handle_failure ask ◌>>=◌ mark_failed
conclude-Written env job (err e) w =
    db_call-Written env job _ _ (record w { tick = suc w.tick })
      (update_one-Written env job _
        (failed e.error.text (env.clock w.tick) (retry_at job e (env.clock w.tick))) w.db
        (failed-Ended env job (failures_of env job w) (env.clock w.tick) e))
conclude-Written env job (ok u) w = elim (Option-cases (env.db_fault (suc w.tick))) [
  | inr (x, refused) ↦
      rw (handle_success-refused env job w x refused)
        (inr (plain_error x, refl, refl, inl (suc w.tick, x, refused)))
  | inl fine ↦ rw (handle_success-read env job w fine) (
      db_call-Written env job _ _ (record w { tick = suc (suc w.tick) })
        (mark_done-Written env job (failures_of env job w) (env.clock w.tick) (figures env job w)
          w.db refl))
]
