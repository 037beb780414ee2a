-- ===== src/Broadcast/Processor.antt =====
-- `deliveryProcessor` of internal/broadcast/processor.go: one run over the recipients of a job.
-- Logging is left out.
use fmxevolution_go.Base.{
  is_nil, suc, String, Bool, true, false, not, ◌&&◌, ◌||◌, Option, none, some, List, [], ◌∷◌,
  if◌then◌else◌, Time, is_zero_time, trim_space, is_blank, concat,
}
use fmxevolution_go.Base.Effect.{M, Out, ok, err, pure, raise, map_err, fail_if, ◌>>=◌, ◌>>◌}
use fmxevolution_go.Domain.{Kind, GoError, domain_error, plain_error, wrap_error}
use fmxevolution_go.Broadcast.Model.{
  BroadcastJob, BroadcastRecipientProgress, recipient_status_pending, recipient_status_sent,
  recipient_status_failed,
}
use fmxevolution_go.Broadcast.Repo.{
  seed_recipient_progress, save_recipient_progress, list_recipient_progress,
}
use fmxevolution_go.Broadcast.Env.{
  Env, World, Instance, SendTextResult, ask, request, check_context, db_call, send_text_call,
}
use fmxevolution_go.Broadcast.Recipients.{
  BroadcastRecipient, eligible_broadcast_recipients, seed_records, pending_recipient_progress,
  is_permanent_send_error, is_confirmed_send_attempt,
}

-- `processorError`
pub record ProcessorError : Type 0 where
  pub error : GoError
  pub retryable : Bool

abbrev pub retryable_processor_error : GoError → ProcessorError
retryable_processor_error e = record { error = e; retryable = true }

abbrev pub permanent_processor_error : GoError → ProcessorError
permanent_processor_error e = record { error = e; retryable = false }

abbrev pub Proc : Type 0 → Type 0
Proc A = M World ProcessorError A

-- The three places where a save can fail say which one it was.
abbrev retryable_at : String → String → GoError → ProcessorError
retryable_at what phone e = retryable_processor_error (wrap_error (what ∷ phone ∷ ": " ∷ []) e)

-- The row while a send is under way.
unfoldable pub attempt : Time → BroadcastRecipientProgress → BroadcastRecipientProgress
attempt at r = record r {
  attempt_count = suc r.attempt_count;
  last_attempt_at = some at;
  last_error = "";
  delivery_status = recipient_status_pending;
}

unfoldable pub failed_for_good :
    Time → GoError → BroadcastRecipientProgress → BroadcastRecipientProgress
failed_for_good at e r = record r {
  last_error = e.text;
  delivery_status = recipient_status_failed;
  failed_at = some at;
}

unfoldable pub still_pending : GoError → BroadcastRecipientProgress → BroadcastRecipientProgress
still_pending e r = record r {
  last_error = e.text;
  delivery_status = recipient_status_pending;
  failed_at = none;
}

unfoldable pub delivered :
    Time → SendTextResult → BroadcastRecipientProgress → BroadcastRecipientProgress
delivered attempted_at result r =
    let sent_at = if is_zero_time result.timestamp then attempted_at else result.timestamp in
    record r {
      delivery_status = recipient_status_sent;
      last_error = "";
      sent_at = some sent_at;
      failed_at = none;
      last_status_at = some sent_at;
      status_source = "send_result";
      message_id = trim_space result.message_id;
      server_id = result.server_id;
      chat_jid = trim_space result.chat;
    }

unfoldable pub save : Env → BroadcastRecipientProgress → M World GoError (Unit {0})
save env r =
    db_call env λ t db. (ok tt, record db { progress = save_recipient_progress r db.progress })

unfoldable pub list_progress :
    Env → BroadcastJob → M World GoError (List BroadcastRecipientProgress)
list_progress env job =
    db_call env
      λ t db. (ok (list_recipient_progress env.phone_le job.tenant_id job.id db.progress), db)

unfoldable pub seed : Env → List BroadcastRecipientProgress → M World GoError (Unit {0})
seed env records = db_call env λ t db. (
  ok tt,
  record db {
    progress = seed_recipient_progress (env.new_id t) (env.clock t) 0 records db.progress;
  },
)

-- The error for a send that returned no delivery evidence.
unfoldable pub no_evidence : String → GoError
no_evidence phone =
    plain_error
      (concat ("instance send path returned no delivery evidence for recipient " ∷ phone ∷ []))

-- What follows a call of `SendText` for the row `r` of an attempt made at `at`.
unfoldable pub settle :
    Env → Time → BroadcastRecipientProgress → Out GoError (Option SendTextResult) → Proc (Unit {0})
unfolding no_evidence
settle env at r (err e) =
    if is_permanent_send_error e
    then (do
      failed_at ← ask env.clock
      map_err (retryable_at "persist permanent broadcast recipient failure for " r.phone)
          (save env (failed_for_good failed_at e r)))
    else (do
      map_err (retryable_at "persist retryable broadcast recipient failure for " r.phone)
          (save env (still_pending e r))
      raise (retryable_at "broadcast delivery paused after retryable failure on " r.phone e))
settle env at r (ok none) =
    let reason = no_evidence r.phone in
    do
      map_err (retryable_at "persist unconfirmed broadcast recipient result for " r.phone)
          (save env (still_pending reason r))
      raise (
          retryable_at "broadcast delivery paused after unconfirmed send result on " r.phone reason)
settle env at r (ok (some result)) =
    let reason = no_evidence r.phone in
    if is_confirmed_send_attempt (some result)
    then map_err (retryable_at "persist broadcast recipient success for " r.phone)
        (save env (delivered at result r))
    else (do
      map_err (retryable_at "persist unconfirmed broadcast recipient result for " r.phone)
          (save env (still_pending reason r))
      raise (
          retryable_at "broadcast delivery paused after unconfirmed send result on " r.phone
            reason))

-- The result of a call, an error included, for a caller that goes on.
abbrev pub caught : {E F A : Type 0} → M World E A → M World F (Out E A)
caught m w = (ok (m w).0, (m w).1)

-- `waitForRecipientPacing`: every recipient but the first waits for the timer or the context.
unfoldable pub pace : Env → Bool → String → Proc (Unit {0})
pace env true phone = pure tt
pace env false phone =
    map_err (retryable_at "broadcast pacing interrupted before recipient " phone)
      (check_context env)

-- The body of the loop of `Process`.
unfoldable pub deliver_one :
    Env → BroadcastJob → String → Bool → BroadcastRecipientProgress → Proc (Unit {0})
deliver_one env job inst first r = do
  map_err retryable_processor_error (check_context env)
  pace env first r.phone
  attempted_at ← ask env.clock
  map_err (retryable_at "persist broadcast recipient attempt for " r.phone)
      (save env (attempt attempted_at r))
  map_err retryable_processor_error (check_context env)
  answer ← caught (
      send_text_call env
        (record { tenant = job.tenant_id; reference = inst; number = r.phone; text = job.message }))
  settle env attempted_at (attempt attempted_at r) answer

unfoldable pub deliver_all :
    Env → BroadcastJob → String → Bool → List BroadcastRecipientProgress → Proc (Unit {0})
deliver_all env job inst first [] = pure tt
deliver_all env job inst first (r ∷ rs) = do
  deliver_one env job inst first r
  deliver_all env job inst false rs

-- The context is looked at before each record is made.
unfoldable pub check_each : Env → List BroadcastRecipient → Proc (Unit {0})
check_each env [] = pure tt
check_each env (r ∷ rs) = do
  map_err retryable_processor_error (check_context env)
  check_each env rs

-- No recipients: no rows and no error. The error of the last call is passed on as it is, and counts
-- as one to retry.
unfoldable pub seed_and_list :
    Env → BroadcastJob → List BroadcastRecipient → Proc (List BroadcastRecipientProgress)
unfolding check_each
seed_and_list env job [] = pure []
seed_and_list env job (r ∷ rs) = do
  check_each env (r ∷ rs)
  map_err
      (λ e. retryable_processor_error (wrap_error ("seed broadcast recipient progress: " ∷ []) e))
      (seed env (seed_records job (r ∷ rs)))
  map_err retryable_processor_error (list_progress env job)

unfoldable pub or_seed :
    Env → BroadcastJob → List BroadcastRecipientProgress → Proc (List BroadcastRecipientProgress)
unfolding seed_and_list
or_seed env job (r ∷ rs) = pure (r ∷ rs)
or_seed env job [] = do
  map_err retryable_processor_error (check_context env)
  contacts ←
      map_err (λ e. retryable_processor_error (wrap_error ("load broadcast contacts: " ∷ []) e))
        (request (λ t. env.list_contacts t job.tenant_id))
  seed_and_list env job (eligible_broadcast_recipients contacts job.instance_id)

unfoldable pub load_or_seed_recipient_progress :
    Env → BroadcastJob → Proc (List BroadcastRecipientProgress)
unfolding or_seed
load_or_seed_recipient_progress env job = do
  map_err retryable_processor_error (check_context env)
  progress ←
      map_err
        (λ e. retryable_processor_error (wrap_error ("load broadcast recipient progress: " ∷ []) e))
        (list_progress env job)
  or_seed env job progress

unfoldable pub find_instance : Env → BroadcastJob → Proc Instance
find_instance env job = do
  found ←
      map_err
        (λ e. permanent_processor_error (
          domain_error Kind.forbidden
            (wrap_error ("broadcast instance lookup failed: " ∷ []) e).text))
        (request (λ t. env.get_by_id t job.tenant_id job.instance_id))
  elim found [
    | none ↦ raise (
        permanent_processor_error
          (domain_error Kind.forbidden "broadcast instance not found for tenant"))
    | some i ↦ pure i
  ]

unfoldable pub process : Env → BroadcastJob → Proc (Unit {0})
process env job = do
  map_err retryable_processor_error (check_context env)
  fail_if (not (env.has_repo && env.has_instances && env.has_contacts && env.has_sender)) (
      permanent_processor_error
        (domain_error Kind.conflict "broadcast delivery dependencies are unavailable"))
  fail_if (is_blank job.tenant_id || is_blank job.instance_id || is_blank job.message) (
      permanent_processor_error (
        domain_error Kind.validation "broadcast job is missing tenant_id, instance_id, or message"))
  inst ← find_instance env job
  progress ← load_or_seed_recipient_progress env job
  fail_if (is_nil progress) (
      permanent_processor_error
        (domain_error Kind.conflict "no eligible contacts available for this instance broadcast"))
  deliver_all env job inst.id true (pending_recipient_progress progress)
