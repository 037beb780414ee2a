-- ===== src/Broadcast/Jobs.antt =====
-- The statements of internal/repository/gorm.go on the table of broadcast jobs.
pub mod ClaimOnce
use fmxevolution_go.Base.{
  ℕ, suc, ◌+◌, String, Bool, true, false, ◌&&◌, ◌||◌, Option, none, some, List, [], ◌∷◌, map,
  str_eq, leb, ltb, ◌==◌, if◌then◌else◌, Time, trim_space, take, filter, count, any, order_by,
}
use fmxevolution_go.Broadcast.Model.{BroadcastJob, status_queued}

-- `WHERE status = 'queued' AND available_at <= now`
abbrev pub is_due : Time → BroadcastJob → Bool
is_due now j = str_eq j.status status_queued && leb j.available_at now

-- `ORDER BY available_at ASC, created_at ASC`
abbrev pub job_before : BroadcastJob → BroadcastJob → Bool
job_before i j =
    ltb i.available_at j.available_at
    || (i.available_at == j.available_at && leb i.created_at j.created_at)

abbrev pub limited : ℕ → List BroadcastJob → List BroadcastJob
limited n jobs = if ltb 0 n then take n jobs else jobs

-- The jobs that a claim takes, in the order that it takes them.
unfoldable pub due_jobs : ℕ → Time → List BroadcastJob → List BroadcastJob
unfolding order_by
due_jobs limit now jobs = limited limit (order_by job_before (filter (is_due now) jobs))

unfoldable pub claimed : String → Time → BroadcastJob → BroadcastJob
claimed worker now j = record j {
  status = "processing";
  worker_id = worker;
  started_at = some now;
  attempts = suc j.attempts;
}

-- `id IN ?`
abbrev pub has_id : List BroadcastJob → String → Bool
has_id js i = any (λ j. str_eq j.id i) js

unfoldable pub update_jobs :
    (BroadcastJob → Bool) → (BroadcastJob → BroadcastJob) → List BroadcastJob → List BroadcastJob
update_jobs test change [] = []
update_jobs test change (j ∷ js) =
    let rest = update_jobs test change js in if test j then change j ∷ rest else j ∷ rest

-- One transaction: the jobs that the caller gets, and the table.
unfoldable pub claim_next :
    String → ℕ → Time → List BroadcastJob → List BroadcastJob × List BroadcastJob
unfolding due_jobs claimed update_jobs
claim_next worker limit now jobs =
    let due = due_jobs limit now jobs in
    (map (claimed worker now) due, update_jobs (λ j. has_id due j.id) (claimed worker now) jobs)

-- `WHERE tenant_id = ? AND id = ?`
abbrev pub is_job : String → String → BroadcastJob → Bool
is_job tenant i j = str_eq j.tenant_id tenant && str_eq j.id i

-- `none` where `RowsAffected == 0`
unfoldable pub update_one :
    String → String → (BroadcastJob → BroadcastJob) → List BroadcastJob → Option (List BroadcastJob)
unfolding update_jobs
update_one tenant i change jobs =
    if ltb 0 (count (is_job tenant i) jobs)
    then some (update_jobs (is_job tenant i) change jobs)
    else none

unfoldable pub completed : Time → BroadcastJob → BroadcastJob
completed at j = record j {
  status = "completed";
  completed_at = some at;
  last_error = "";
  worker_id = "";
}

unfoldable pub mark_completed :
    String → String → Time → List BroadcastJob → Option (List BroadcastJob)
unfolding update_one completed
mark_completed tenant i at = update_one tenant i (completed at)

unfoldable pub completed_with_failures : String → Time → BroadcastJob → BroadcastJob
completed_with_failures message at j = record j {
  status = "completed_with_failures";
  completed_at = some at;
  last_error = trim_space message;
  worker_id = "";
}

unfoldable pub mark_completed_with_failures :
    String → String → String → Time → List BroadcastJob → Option (List BroadcastJob)
unfolding update_one completed_with_failures
mark_completed_with_failures tenant i message at =
    update_one tenant i (completed_with_failures message at)

unfoldable pub failed : String → Time → Option Time → BroadcastJob → BroadcastJob
failed message at none j = record j {
  last_error = message;
  worker_id = "";
  started_at = none;
  status = "failed";
  failed_at = some at;
}
failed message at (some retry) j = record j {
  last_error = message;
  worker_id = "";
  started_at = none;
  status = "queued";
  available_at = retry;
}

unfoldable pub mark_failed :
    String → String → String → Time → Option Time → List BroadcastJob → Option (List BroadcastJob)
unfolding update_one failed
mark_failed tenant i message at retry = update_one tenant i (failed message at retry)
