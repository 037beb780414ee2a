-- ===== src/Broadcast/Service.antt =====
-- `Service` of internal/broadcast/service.go: the requests on broadcasts. Logging is left out.
pub mod Created
pub mod Examples
use fmxevolution_go.Base.{
  ℕ, ◌*◌, String, Bool, true, false, ◌&&◌, ◌||◌, Option, none, some, List, [], ◌∷◌, ◌++◌, str_eq,
  leb, ltb, ◌==◌, if◌then◌else◌, ℤ, pos, is_neg, is_pos, nonneg_part, to_int64, Time, after,
  add_duration, second, trim_space, filter, order_by,
}
use fmxevolution_go.Base.Effect.{
  M, Out, ok, err, pure, raise, map_err, fail_if, require, ◌>>=◌, ◌>>◌,
}
use fmxevolution_go.Domain.{Kind, GoError, domain_error}
use fmxevolution_go.Broadcast.Model.{
  BroadcastJob, BroadcastRecipientProgress, BroadcastRecipientAnalytics, no_analytics,
  status_queued,
}
use fmxevolution_go.Broadcast.Jobs.{is_job, limited}
use fmxevolution_go.Broadcast.Repo.{analytics_row, mark_recipient_receipt}
use fmxevolution_go.Broadcast.Env.{Env, World, Instance, ask, request, db_call}
use fmxevolution_go.Broadcast.Recipients.{
  BroadcastRecipient, eligible_broadcast_recipients, seed_records,
}
use fmxevolution_go.Broadcast.Processor.{seed, list_progress}
use fmxevolution_go.Broadcast.Listing.{
  ListRecipientsInput, normalize_recipient_list_filter, total_pages, list_recipient_progress_page,
}

pub record CreateInput : Type 0 where
  pub instance_id : String
  pub message : String
  pub rate_per_hour : ℤ
  pub delay_sec : ℤ
  pub max_attempts : ℤ
  pub scheduled_at : Option Time

abbrev pub Req : Type 0 → Type 0
Req A = M World GoError A

abbrev pub invalid : String → GoError
invalid = domain_error Kind.validation

-- `First(&job, "tenant_id = ? AND id = ?")`
unfoldable pub find_job : String → String → List BroadcastJob → Option BroadcastJob
find_job tenant i [] = none
find_job tenant i (j ∷ js) =
    let rest = find_job tenant i js in if is_job tenant i j then some j else rest

-- `repo.Create`: gorm sets the identifier and the time of creation, in the caller's record too.
unfoldable pub create_job : Env → BroadcastJob → Req BroadcastJob
create_job env job = db_call env λ t db.
    let made = record job { id = env.new_id t 0; created_at = env.clock t } in
    (ok made, record db { jobs = db.jobs ++ made ∷ [] })

unfoldable pub get_job : Env → String → String → Req (Option BroadcastJob)
get_job env tenant i = db_call env λ t db. (ok (find_job tenant i db.jobs), db)

-- `ORDER BY created_at DESC LIMIT ?`
abbrev pub newer_job : BroadcastJob → BroadcastJob → Bool
newer_job i j = leb j.created_at i.created_at

unfoldable pub list_jobs : Env → String → ℕ → Req (List BroadcastJob)
unfolding order_by
list_jobs env tenant limit = db_call env λ t db.
    (ok (limited limit (order_by newer_job (filter (λ j. str_eq j.tenant_id tenant) db.jobs))), db)

unfoldable pub summarize_progress : Env → String → String → Req BroadcastRecipientAnalytics
summarize_progress env tenant i =
    db_call env λ t db. (ok (env.scan_analytics (analytics_row tenant i db.progress)), db)

-- When a new job may be taken up. The product is one of `int64`.
unfoldable pub first_available_at : Time → ℤ → Option Time → Time
first_available_at now delay scheduled =
    let delayed =
      if is_pos delay then add_duration now (to_int64 (nonneg_part delay * second)) else now in
    elim scheduled [ none ↦ delayed | some at ↦ if after at delayed then at else delayed ]

-- The job that `Create` hands to the repository, for an instance and a message without white space
-- around them.
unfoldable pub new_job : String → CreateInput → String → String → Time → BroadcastJob
new_job tenant input inst message available = record {
  id = "";
  tenant_id = tenant;
  instance_id = inst;
  status = status_queued;
  message = message;
  rate_per_hour = input.rate_per_hour;
  delay_sec = input.delay_sec;
  attempts = 0;
  max_attempts = if is_pos input.max_attempts then input.max_attempts else pos 3;
  worker_id = "";
  last_error = "";
  scheduled_at = input.scheduled_at;
  available_at = available;
  started_at = none;
  completed_at = none;
  failed_at = none;
  created_at = 0;
  recipient_total = 0;
  recipient_attempted = 0;
  recipient_sent = 0;
  recipient_failed = 0;
  recipient_pending = 0;
  recipient_partial = false;
  recipient_analytics = no_analytics;
  recipients = [];
}

-- No recipients: nothing is written.
unfoldable pub seed_snapshot : Env → BroadcastJob → List BroadcastRecipient → Req (Unit {0})
seed_snapshot env job [] = pure tt
seed_snapshot env job (r ∷ rs) = seed env (seed_records job (r ∷ rs))

unfoldable pub seed_recipient_snapshot : Env → BroadcastJob → Req (Unit {0})
seed_recipient_snapshot env job =
    if env.has_contacts
    then (do
      contacts ← request (λ t. env.list_contacts t job.tenant_id)
      seed_snapshot env job (eligible_broadcast_recipients contacts job.instance_id))
    else pure tt

unfoldable pub with_analytics : BroadcastRecipientAnalytics → BroadcastJob → BroadcastJob
with_analytics summary job =
    let partial = summary.total_recipients == 0 && ltb 0 job.attempts in
    record job {
      recipient_analytics = record summary { partial = partial };
      recipient_total = summary.total_recipients;
      recipient_attempted = summary.attempted;
      recipient_sent = summary.sent;
      recipient_failed = summary.failed;
      recipient_pending = summary.pending;
      recipient_partial = partial;
    }

with_recipients : Env → Bool → BroadcastJob → Req BroadcastJob
with_recipients env false job = pure job
with_recipients env true job = do
  rows ← list_progress env job
  pure (record job { recipients = rows })

unfoldable pub enrich_job : Env → Bool → BroadcastJob → Req BroadcastJob
unfolding with_recipients
enrich_job env include_recipients job = do
  summary ← summarize_progress env job.tenant_id job.id
  with_recipients env include_recipients (with_analytics summary job)

is_before : Time → Option Time → Bool
is_before now none = false
is_before now (some at) = ltb at now

unfoldable pub create : Env → String → CreateInput → Req BroadcastJob
unfolding is_before
create env tenant input = do
  let inst = trim_space input.instance_id
  let message = trim_space input.message
  fail_if (str_eq inst "" || str_eq message "") (invalid "instance_id and message are required")
  fail_if (is_neg input.delay_sec) (invalid "delay_sec cannot be negative")
  fail_if (is_neg input.rate_per_hour) (invalid "rate_per_hour cannot be negative")
  fail_if (is_neg input.max_attempts) (invalid "max_attempts cannot be negative")
  found ←
      map_err (λ _. domain_error Kind.forbidden "instance not found for tenant")
        (request (λ t. env.get_by_id t tenant inst))
  inst_record ← require found (domain_error Kind.forbidden "instance not found for tenant")
  now ← ask env.clock
  fail_if (is_before now input.scheduled_at) (invalid "scheduled_at must be in the future")
  job ← create_job env (
      new_job tenant input inst message (first_available_at now input.delay_sec input.scheduled_at))
  seed_recipient_snapshot env job
  enrich_job env false job

job_not_found : GoError
job_not_found = domain_error Kind.not_found "broadcast job not found"

-- A job that is not there is an error of the repository; every error is replaced.
unfoldable pub require_job : Env → String → String → Req BroadcastJob
unfolding job_not_found
require_job env tenant i = do
  found ← map_err (λ _. job_not_found) (get_job env tenant i)
  require found job_not_found

unfoldable pub get : Env → String → String → Req BroadcastJob
get env tenant i = do job ← require_job env tenant i; enrich_job env true job

unfoldable pub enrich_all : Env → List BroadcastJob → Req (List BroadcastJob)
enrich_all env [] = pure []
enrich_all env (j ∷ js) = do j' ← enrich_job env false j; js' ← enrich_all env js; pure (j' ∷ js')

-- The default is 50 and the cap 200.
unfoldable pub list_limit : ℤ → ℕ
list_limit limit =
    let n = if is_pos limit then nonneg_part limit else 50 in if ltb 200 n then 200 else n

unfoldable pub list : Env → String → ℤ → Req (List BroadcastJob)
list env tenant limit = do jobs ← list_jobs env tenant (list_limit limit); enrich_all env jobs

-- The items are the rows; `RecipientListItem` drops their tenant and instance.
pub record RecipientListResult : Type 0 where
  pub broadcast_id : String
  pub page : ℕ
  pub limit : ℕ
  pub total : ℕ
  pub total_pages : ℕ
  pub status : String
  pub query : String
  pub summary : BroadcastRecipientAnalytics
  pub partial : Bool
  pub items : List BroadcastRecipientProgress

lift_result : {A : Type 0} → Out GoError A → Req A
lift_result (ok a) = pure a
lift_result (err e) = raise e

unfoldable pub list_recipients :
    Env → String → String → ListRecipientsInput → Req RecipientListResult
unfolding lift_result
list_recipients env tenant i input = do
  job ← require_job env tenant i
  f ← lift_result (normalize_recipient_list_filter input)
  page ←
      db_call env λ t db.
        (ok (list_recipient_progress_page env.ilike env.phone_le tenant i f db.progress), db)
  summary ← summarize_progress env tenant i
  let partial = summary.total_recipients == 0
  pure (record {
    broadcast_id = i;
    page = f.page;
    limit = f.limit;
    total = page.1;
    total_pages = total_pages page.1 f.limit;
    status = f.status;
    query = f.query;
    summary = record summary { partial = partial };
    partial = partial;
    items = page.0;
  })

-- `MarkRecipientReceipt`; whether a row was updated is only logged.
unfoldable pub mark_receipt : Env → Instance → String → String → Time → Req Bool
mark_receipt env inst message state at = db_call env λ t db.
    let (rows, updated) =
      mark_recipient_receipt inst.tenant_id inst.id message state at db.progress in
    (ok updated, record db { progress = rows })

receipt_for : Env → String → String → Time → Option Instance → Req (Unit {0})
receipt_for env message state at none = pure tt
receipt_for env message state at (some inst) = do
  updated ← mark_receipt env inst message state at
  pure tt

unfoldable pub handle_receipt : Env → String → String → String → Time → Req (Unit {0})
unfolding receipt_for
handle_receipt env inst message state at =
    if env.has_repo && env.has_instances
    then (do
      found ← request (λ t. env.get_by_global_id t (trim_space inst))
      receipt_for env message state at found)
    else pure tt
